-- ===== src/Workflow/Machine/Paths.antt =====
-- The transition table of agent/runtime/modification_workflow.py around two gates: the confirmed
-- red run and the final verification that passed.
use bridle.Prelude.{Bool, arith, Option, true, false, ◌≡◌, ◌⊎◌, some}
use bridle.Workflow.Machine.{ModificationState, allowed, ModificationEvent, target, is_allowed}

-- The states that only a confirmed red run leads to.
abbrev pub is_past_red : ModificationState → Bool
is_past_red ModificationState.red_confirmed = true
is_past_red ModificationState.implementing = true
is_past_red ModificationState.submitted = true
is_past_red ModificationState.final_verifying = true
is_past_red ModificationState.ready_to_publish = true
is_past_red ModificationState.published = true
is_past_red _ = false

-- The states that only a passed final verification leads to.
abbrev pub is_past_final : ModificationState → Bool
is_past_final ModificationState.ready_to_publish = true
is_past_final ModificationState.published = true
is_past_final _ = false

-- The only way into the states of `past` from outside is `gate`.
abbrev pub IsGateOf : ModificationEvent → (ModificationState → Bool) → Type 0
IsGateOf gate past =
    (event : ModificationEvent) (from : Option ModificationState)
    → is_allowed event from ≡ true
    → past (target event) ≡ true
    → (event ≡ gate) ⊎ ((f : ModificationState) × (from ≡ some f) × (past f ≡ true))

pub red_gate : IsGateOf ModificationEvent.red_confirmed is_past_red
unfolding allowed target
red_gate ModificationEvent.start from h past = ground arith
red_gate _ from h past = ground arith

pub final_gate : IsGateOf ModificationEvent.final_verification_passed is_past_final
unfolding allowed target
final_gate ModificationEvent.start from h past = ground arith
final_gate _ from h past = ground arith
