-- ===== src/Workflow/Machine.antt =====
-- The states, the events and the transition table of agent/runtime/modification_workflow.py.
pub mod Paths
use bridle.Prelude.{Bool, true, ◌≡◌, Option, none, some, List, [], ◌∷◌, Eq, contains, option_eq}

pub data ModificationState : Type 0 where
  test_authoring test_contract_approved red_allowed red_verifying red_confirmed : ModificationState
  implementing submitted final_verifying ready_to_publish published : ModificationState
  verification_blocked : ModificationState

pub data ModificationEvent : Type 0 where
  start test_contract_approved red_allowed red_verification_started : ModificationEvent
  red_confirmed implementation_started submitted final_verification_started : ModificationEvent
  final_verification_passed published invalid_test infrastructure_failed : ModificationEvent
  baseline_expired final_verification_failed verification_retry_exhausted : ModificationEvent

unfoldable pub ModificationState-discrete : Discrete ModificationState
ModificationState-discrete = hlevel

unfoldable pub ModificationEvent-discrete : Discrete ModificationEvent
ModificationEvent-discrete = hlevel

instance unfoldable pub state_eq : Eq ModificationState
unfolding ModificationState-discrete
state_eq = record { dec = ModificationState-discrete }

instance unfoldable pub event_eq : Eq ModificationEvent
unfolding ModificationEvent-discrete
event_eq = record { dec = ModificationEvent-discrete }

-- `_TRANSITIONS[event]`, the states that the event is allowed from; `none` is a node without a
-- workflow.
unfoldable pub allowed : ModificationEvent → List (Option ModificationState)
allowed ModificationEvent.start = none ∷ []
allowed ModificationEvent.test_contract_approved = some ModificationState.test_authoring ∷ []
allowed ModificationEvent.red_allowed = some ModificationState.test_contract_approved ∷ []
allowed ModificationEvent.red_verification_started = some ModificationState.red_allowed ∷ []
allowed ModificationEvent.red_confirmed = some ModificationState.red_verifying ∷ []
allowed ModificationEvent.implementation_started = some ModificationState.red_confirmed ∷ []
allowed ModificationEvent.submitted = some ModificationState.implementing ∷ []
allowed ModificationEvent.final_verification_started = some ModificationState.submitted ∷ []
allowed ModificationEvent.final_verification_passed = some ModificationState.final_verifying ∷ []
allowed ModificationEvent.published = some ModificationState.ready_to_publish ∷ []
allowed ModificationEvent.invalid_test = some ModificationState.red_verifying ∷ []
allowed ModificationEvent.infrastructure_failed = some ModificationState.red_verifying ∷ []
allowed ModificationEvent.baseline_expired =
    some ModificationState.test_contract_approved
    ∷ some ModificationState.red_allowed
    ∷ some ModificationState.red_verifying
    ∷ some ModificationState.red_confirmed
    ∷ some ModificationState.implementing
    ∷ some ModificationState.submitted
    ∷ some ModificationState.final_verifying
    ∷ some ModificationState.ready_to_publish
    ∷ []
allowed ModificationEvent.final_verification_failed = some ModificationState.final_verifying ∷ []
allowed ModificationEvent.verification_retry_exhausted =
    some ModificationState.red_verifying ∷ some ModificationState.final_verifying ∷ []

-- `_TRANSITIONS[event]`, the state that the event leads to.
unfoldable pub target : ModificationEvent → ModificationState
target ModificationEvent.start = ModificationState.test_authoring
target ModificationEvent.test_contract_approved = ModificationState.test_contract_approved
target ModificationEvent.red_allowed = ModificationState.red_allowed
target ModificationEvent.red_verification_started = ModificationState.red_verifying
target ModificationEvent.red_confirmed = ModificationState.red_confirmed
target ModificationEvent.implementation_started = ModificationState.implementing
target ModificationEvent.submitted = ModificationState.submitted
target ModificationEvent.final_verification_started = ModificationState.final_verifying
target ModificationEvent.final_verification_passed = ModificationState.ready_to_publish
target ModificationEvent.published = ModificationState.published
target ModificationEvent.invalid_test = ModificationState.test_authoring
target ModificationEvent.infrastructure_failed = ModificationState.red_allowed
target ModificationEvent.baseline_expired = ModificationState.test_authoring
target ModificationEvent.final_verification_failed = ModificationState.implementing
target ModificationEvent.verification_retry_exhausted = ModificationState.verification_blocked

-- The step that the table describes: the event is allowed from the state.
abbrev pub is_allowed : ModificationEvent → Option ModificationState → Bool
is_allowed e s = contains (allowed e) s
