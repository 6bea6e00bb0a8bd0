-- ===== src/Workflow/Examples.antt =====
-- Runs of the store of features/project_map/store.py on small inputs.
pub mod Runs
use bridle.Workflow.Audit.Evidence.{HasEvidence}
use bridle.Workflow.Audit.Preserved.{apply-IsAudited}
use bridle.Workflow.Contracts.Frozen.{
  KeepsHistory, IsSafeStep, invalidate-IsSafeStep, freeze-IsSafeStep,
}
use bridle.Workflow.History.Valid.{Reach-IsValid, empty-IsValid, Reach-evidence}
use bridle.Workflow.Defer.Invariants.{IsValid}
use bridle.Workflow.Contracts.Bound.{IsContracted, apply-IsContracted}
use bridle.Workflow.Audit.{IsAudited}
use bridle.Workflow.Transition.Replay.{apply-replay}
use bridle.Errors.{Result, ok, raise}
use bridle.Workflow.History.{Reach, next, transition, here, freeze}
use bridle.Prelude.Json.{end, null, get}
use bridle.Workflow.Transition.{apply, Transition}
use bridle.Workflow.Machine.{
  ModificationEvent, ModificationState, state_eq, event_eq, allowed, target,
}
use bridle.Workflow.Store.{
  Workflow, Store, get_modification_workflow, empty, contract_state_eq, frozen, invalidated,
}
use bridle.Workflow.Contracts.{freeze_test_contract, invalidate_test_contract}
use bridle.Prelude.{
  ◌∙◌, List, [], ◌∷◌, ◌++◌, none, some, true, false, Option, zero, suc, inl, inr, refl, String,
  select_one, string_eq, ◌≡◌, option_eq, nat_eq, contains, rowcount, update_where, arith,
}

-- The store after a call, as it was if the call raised.
abbrev pub after {ℓ} : {A : Type ℓ} → Store → Result (Store × A) → Store
after s (ok r) = r.0
after s (raise e) = s

abbrev pub node : String
node = "node"

abbrev snapshot : String
snapshot = "snapshot"

abbrev read_version : String → String
read_version _ = "v1"

abbrev pub contracted : Store
contracted = after empty (freeze_test_contract read_version read_version node "v1" snapshot empty)

abbrev pub step : ModificationEvent → Store → String → Store
step event s event_id = after s (apply node event event_id none end s)

abbrev pub walk : List (ModificationEvent × String) → Store → Store
walk [] s = s
walk (e ∷ es) s = walk es (step e.0 s e.1)

step-Reach :
    (e : ModificationEvent) (event_id : String) (t s : Store)
    → Reach t s
    → Reach t (step e s event_id)
step-Reach e event_id t s reach = ran (apply node e event_id none end s) refl
  where
    ran :
        (m : Result (Store × Transition))
        → apply node e event_id none end s ≡ m
        → Reach t (after s m)
    ran (ok r) h = next reach (transition node e event_id none end s r h)
    ran (raise err) h = reach

pub walk-Reach :
    (es : List (ModificationEvent × String)) (t s : Store) → Reach t s → Reach t (walk es s)
walk-Reach [] t s reach = reach
walk-Reach (e ∷ es) t s reach = walk-Reach es t (step e.0 s e.1) (step-Reach e.0 e.1 t s reach)

abbrev whole : List (ModificationEvent × String)
whole =
    (ModificationEvent.start, "1")
    ∷ (ModificationEvent.test_contract_approved, "2")
    ∷ (ModificationEvent.red_allowed, "3")
    ∷ (ModificationEvent.red_verification_started, "4")
    ∷ (ModificationEvent.red_confirmed, "5")
    ∷ (ModificationEvent.implementation_started, "6")
    ∷ (ModificationEvent.submitted, "7")
    ∷ (ModificationEvent.final_verification_started, "8")
    ∷ (ModificationEvent.final_verification_passed, "9")
    ∷ []

abbrev ready : Store
ready = walk whole contracted

abbrev ready_row : Workflow
ready_row = record {
  node_id = node;
  state = ModificationState.ready_to_publish;
  revision = 9;
  test_contract_version = some "v1";
}

pub contracted-Reach : Reach empty contracted
unfolding freeze_test_contract select_one rowcount string_eq
contracted-Reach = next here (
    freeze read_version read_version node "v1" snapshot empty
      (
        contracted,
        record {
          node_id = node;
          contract_version = "v1";
          state = frozen;
          reason = none;
          applied = true;
        },
      )
      refl)

ready-Reach : Reach empty ready
ready-Reach = walk-Reach whole empty contracted contracted-Reach

Reach-evidence_example : HasEvidence node ready.events
unfolding get_modification_workflow select_one string_eq option_eq nat_eq apply freeze_test_contract
    state_eq event_eq contract_state_eq allowed target rowcount update_where
Reach-evidence_example = Reach-evidence ready ready-Reach node ready_row refl refl

Reach-IsValid_example : IsValid ready
Reach-IsValid_example = Reach-IsValid ready-Reach empty-IsValid

pub contracted-IsValid : IsValid contracted
contracted-IsValid = Reach-IsValid contracted-Reach empty-IsValid

-- The start of the workflow, a refused call and an approval.
abbrev start_reply : Transition
start_reply = record {
  node_id = node;
  state = ModificationState.test_authoring;
  revision = 1;
  test_contract_version = null;
  applied = true;
}

abbrev started : Store
started = step ModificationEvent.start contracted "1"

started_lem : apply node ModificationEvent.start "1" none end contracted ≡ ok (started, start_reply)
unfolding get_modification_workflow select_one string_eq option_eq nat_eq apply freeze_test_contract
    state_eq event_eq contract_state_eq allowed target rowcount update_where
started_lem = refl

apply-replay_example :
    apply node ModificationEvent.start "1" (some 7) end started
    ≡ ok (started, record start_reply { applied = false })
unfolding get
apply-replay_example =
    apply-replay node ModificationEvent.start "1" none end contracted refl (some 7) end
      (started, start_reply) started_lem

apply-IsContracted_example :
    IsContracted started × KeepsHistory contracted.contracts started.contracts
apply-IsContracted_example =
    apply-IsContracted node ModificationEvent.start "1" none end contracted (started, start_reply)
      started_lem contracted-IsValid.contracted

freeze-IsSafeStep_example : IsSafeStep [] contracted.contracts
unfolding rowcount freeze_test_contract select_one string_eq
freeze-IsSafeStep_example =
    freeze-IsSafeStep node "v1" snapshot read_version read_version empty
      (
        contracted,
        record {
          node_id = node;
          contract_version = "v1";
          state = frozen;
          reason = none;
          applied = true;
        },
      )
      refl (λ n. omega arith)

abbrev withdrawn : Store
withdrawn = after contracted (invalidate_test_contract node "v1" "stale" contracted)

invalidate-IsSafeStep_example : IsSafeStep contracted.contracts withdrawn.contracts
unfolding rowcount freeze_test_contract invalidate_test_contract select_one string_eq
    contract_state_eq update_where
invalidate-IsSafeStep_example =
    invalidate-IsSafeStep node "v1" "stale" contracted
      (
        withdrawn,
        record {
          node_id = node;
          contract_version = "v1";
          state = invalidated;
          reason = some "stale";
          applied = true;
        },
      )
      refl contracted-IsValid.contracted.single
