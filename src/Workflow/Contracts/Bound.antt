-- ===== src/Workflow/Contracts/Bound.antt =====
-- Which contract a workflow of features/project_map/store.py is bound to.
use bridle.Workflow.Transition.Cases.{
  Advanced, Outcome, row_of, reused, row_of-write_workflow, advanced, transition-Outcome,
}
use bridle.Errors.{ok, ok-injective}
use bridle.Prelude.Json.{Fields}
use bridle.Workflow.Contracts.Frozen.{
  IsSingleFrozen, IsSafeStep, same_step, invalidate_step, KeepsHistory,
}
use bridle.Workflow.Machine.{ModificationEvent, ModificationState, allowed, target, is_allowed}
use bridle.Workflow.Transition.{
  bind_contract, contract_step, drop_contract, keep_contract, current_contract_version,
  ContractStep, state_of, commit_transition, apply, Transition,
}
use bridle.Workflow.Store.{Store, Workflow, get_modification_workflow}
use mathlib.Core.Option.{some-injective}
use mathlib.Core.Path.{subst}
use bridle.Prelude.{
  none, some, true, Option, inl, inr, refl, sym, ◌≡◌, String, ◌↔◌, ◌≢◌, arith, ℕ, if◌then◌else◌,
  ◌==◌, Bool-cases, string_eq, ◌∙◌,
}

abbrev pub IsBound : Workflow → Type 0
IsBound w = (w.test_contract_version ≡ none) ↔ (w.state ≡ ModificationState.test_authoring)

pub record IsContracted (s : Store) : Type 0 where
  pub bound :
      (node_id : String) (w : Workflow) → get_modification_workflow node_id s ≡ some w → IsBound w
  pub single : IsSingleFrozen s.contracts

bind_none :
    (node_id : String) (event : ModificationEvent) (current : Option String) (payload : Fields)
    (s : Store) (step : ContractStep)
    → bind_contract node_id event current payload s ≡ ok step
    → (step.version ≢ none) × (step.contracts ≡ s.contracts)
unfolding bind_contract
bind_none node_id event current payload s step h = ground arith

-- The version after a permitted event is missing exactly when the event leads to the authoring of
-- tests, and the contract table takes a safe step.
step_version :
    (node_id : String) (event : ModificationEvent) (w : Option Workflow) (payload : Fields)
    (s : Store) (step : ContractStep)
    → contract_step node_id event (current_contract_version w) payload s ≡ ok step
    → is_allowed event (state_of w) ≡ true
    → ((v : Workflow) → w ≡ some v → IsBound v)
    → (step.version ≡ none) ↔ (target event ≡ ModificationState.test_authoring)
unfolding contract_step drop_contract keep_contract current_contract_version allowed target
step_version node_id ModificationEvent.test_contract_approved w payload s step h a b = ground (
  arith,
  bind_none node_id ModificationEvent.test_contract_approved (current_contract_version w) payload s
      step,
)
step_version node_id ModificationEvent.red_allowed w payload s step h a b = ground (
  arith,
  bind_none node_id ModificationEvent.red_allowed (current_contract_version w) payload s step,
)
step_version node_id event none payload s step h a b = ground arith
step_version node_id event (some w) payload s step h a b = ground (arith, b w refl)

step_contracts :
    (node_id : String) (event : ModificationEvent) (current : Option String) (payload : Fields)
    (s : Store) (step : ContractStep)
    → contract_step node_id event current payload s ≡ ok step
    → IsSingleFrozen s.contracts
    → IsSafeStep s.contracts step.contracts
unfolding contract_step drop_contract keep_contract
step_contracts node_id ModificationEvent.test_contract_approved current payload s step h f =
    rw (bind_none node_id _ current payload s step h).1 (same_step s.contracts f)
step_contracts node_id ModificationEvent.red_allowed current payload s step h f =
    rw (bind_none node_id _ current payload s step h).1 (same_step s.contracts f)
step_contracts node_id ModificationEvent.invalid_test (some v) payload s step h f =
    rw (← ok-injective _ _ h) (invalidate_step node_id v _ s.contracts f)
step_contracts node_id ModificationEvent.baseline_expired (some v) payload s step h f =
    rw (← ok-injective _ _ h) (invalidate_step node_id v _ s.contracts f)
step_contracts node_id event none payload s step h f =
    rw (← ok-injective _ _ h) (same_step s.contracts f)
step_contracts node_id event (some v) payload s step h f =
    rw (← ok-injective _ _ h) (same_step s.contracts f)

module _ (node_id : String) (event : ModificationEvent) (event_id : String)
    (expected_revision : Option ℕ) (payload : Fields) (s : Store) where
  written-IsBound :
      (w : Option Workflow) (row : Workflow) (j : String) (x : Workflow)
      → ((row.test_contract_version ≡ none) ↔ (row.state ≡ ModificationState.test_authoring))
      → ((v : Workflow) → w ≡ some v → IsBound v)
      → (if row.node_id == j then some row else w) ≡ some x
      → IsBound x
  written-IsBound w row j x own other h = elim (Bool-cases (row.node_id == j)) [
    | inl e ↦ subst IsBound (some-injective row x (rw e at h)) own
    | inr e ↦ other x (rw e at h)
  ]

  advance-IsContracted :
      (r : Store × Transition)
      → Advanced node_id event event_id (allowed event) (target event) expected_revision payload s r
      → IsContracted s
      → IsContracted r.0 × KeepsHistory s.contracts r.0.contracts
  unfolding commit_transition get_modification_workflow
  advance-IsContracted r d c =
      let safe = step_contracts node_id event _ payload s d.step d.stepped c.single in
      let own =
        step_version node_id event (get_modification_workflow node_id s) payload s d.step d.stepped
          d.permitted (c.bound node_id) in
      rw d.committed (
        record {
          bound = λ j x h.
              written-IsBound (row_of s.workflows j) _ j x own (c.bound j)
                (sym (row_of-write_workflow _ _ s.workflows d.workflows j refl d.written) ∙ h);
          single = safe.single;
        },
        safe.history,
      )

  -- A transition that returns keeps at most one contract of each node frozen and every workflow
  -- bound to no contract version exactly while its tests are authored; it keeps every snapshot and
  -- changes no invalidated contract.
  pub apply-IsContracted :
      (r : Store × Transition)
      → apply node_id event event_id expected_revision payload s ≡ ok r
      → IsContracted s
      → IsContracted r.0 × KeepsHistory s.contracts r.0.contracts
  unfolding apply
  apply-IsContracted r h c = contracted (
      transition-Outcome node_id event event_id (allowed event) (target event) expected_revision
        payload s r h)
    where
      contracted :
          Outcome node_id event event_id
            (allowed event)
            (target event)
            expected_revision
            payload
            s
            r
          → IsContracted r.0 × KeepsHistory s.contracts r.0.contracts
      contracted (reused e old same q) = rw q (c, (same_step s.contracts c.single).history)
      contracted (advanced new d) = advance-IsContracted r d c
