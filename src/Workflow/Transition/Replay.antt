-- ===== src/Workflow/Transition/Replay.antt =====
-- `apply_modification_transition` of features/project_map/store.py with an event id that was sent
-- before.
use bridle.Workflow.Transition.Cases.{Advanced, Outcome, reused, advanced, transition-Outcome}
use bridle.Workflow.Store.{Store, EventRow}
use bridle.Workflow.Machine.{ModificationEvent, allowed, target, ModificationState}
use bridle.Workflow.Transition.{
  bind_contract, keep_contract, contract_step, drop_contract, ContractStep, apply,
  apply_modification_transition, commit_transition, reuse_event, replayed, Transition,
  reuse_or_advance, is_same_transition,
}
use bridle.Prelude.{
  ℕ, String, false, ◌≡◌, refl, Option, none, some, arith, string_eq, eq_self, select_one, ◌==◌,
  true,
}
use bridle.Prelude.Json.{Fields, null, get, of_option, get-put, get-put_self}
use bridle.Errors.{ok, ok-injective}

-- The payload that the trail keeps names the version that the reply names.
bind_contract-version :
    (node_id : String) (event : ModificationEvent) (current : Option String) (payload : Fields)
    (s : Store) (step : ContractStep)
    → bind_contract node_id event current payload s ≡ ok step
    → get step.payload "test_contract_version" ≡ of_option step.version
unfolding bind_contract
bind_contract-version node_id event current payload s step h = grind (arith, get-put_self)

drop_contract-version :
    (node_id reason : String) (current : Option String) (payload : Fields) (s : Store)
    → get payload "test_contract_version" ≡ null
    → get (drop_contract node_id reason current payload s).payload "test_contract_version"
      ≡ of_option (drop_contract node_id reason current payload s).version
unfolding drop_contract string_eq
drop_contract-version node_id reason none payload s h = h
drop_contract-version node_id reason (some v) payload s h = rw get-put h

keep_contract-version :
    (current : Option String) (payload : Fields) (s : Store)
    → get payload "test_contract_version" ≡ null
    → get (keep_contract current payload s).payload "test_contract_version"
      ≡ of_option (keep_contract current payload s).version
unfolding keep_contract string_eq
keep_contract-version none payload s h = h
keep_contract-version (some v) payload s h = rw get-put refl

contract_step-version :
    (node_id : String) (event : ModificationEvent) (current : Option String) (payload : Fields)
    (s : Store) (step : ContractStep)
    → contract_step node_id event current payload s ≡ ok step
    → get payload "test_contract_version" ≡ null
    → get step.payload "test_contract_version" ≡ of_option step.version
unfolding contract_step
contract_step-version node_id ModificationEvent.test_contract_approved current payload s step h n =
    bind_contract-version node_id _ current payload s step h
contract_step-version node_id ModificationEvent.red_allowed current payload s step h n =
    bind_contract-version node_id _ current payload s step h
contract_step-version node_id ModificationEvent.invalid_test current payload s step h n =
    rw (← ok-injective _ _ h) (drop_contract-version node_id _ current payload s n)
contract_step-version node_id ModificationEvent.baseline_expired current payload s step h n =
    rw (← ok-injective _ _ h) (drop_contract-version node_id _ current payload s n)
contract_step-version node_id event current payload s step h n =
    rw (← ok-injective _ _ h) (keep_contract-version current payload s n)

module _ (node_id : String) (event : ModificationEvent) (event_id : String)
    (expected_revision : Option ℕ) (payload : Fields) (s : Store)
    (no_version : get payload "test_contract_version" ≡ null) (expected' : Option ℕ)
    (payload' : Fields) where
  Advanced-replay :
      (r : Store × Transition)
      → Advanced node_id event event_id (allowed event) (target event) expected_revision payload s r
      → apply node_id event event_id expected' payload' r.0
        ≡ ok (r.0, record r.1 { applied = false })
  unfolding apply apply_modification_transition commit_transition reuse_event replayed
  Advanced-replay r d = rw d.committed (
      simp (eq_self {A = String}, eq_self {A = ModificationEvent}, eq_self {A = ModificationState})
        (rw (contract_step-version node_id event _ payload s d.step d.stepped no_version)))

  reused-replay :
      (r : Store × Transition) (e : EventRow)
      → select_one (λ x. x.event_id == event_id) s.events ≡ some e
      → is_same_transition node_id event (target event) e ≡ true
      → r ≡ (s, replayed node_id e)
      → apply node_id event event_id expected' payload' r.0
        ≡ ok (r.0, record r.1 { applied = false })
  unfolding apply apply_modification_transition reuse_or_advance reuse_event replayed
  reused-replay r e old same q = rw q (rw (old, reuse_or_advance) (rw same))

  -- A transition that returned gives the same reply, marked as not applied, when its event id is
  -- sent again with whatever revision and payload, and the second call changes nothing; provided
  -- that the first payload does not bind `test_contract_version` itself.
  pub apply-replay :
      (r : Store × Transition)
      → apply node_id event event_id expected_revision payload s ≡ ok r
      → apply node_id event event_id expected' payload' r.0
        ≡ ok (r.0, record r.1 { applied = false })
  unfolding apply
  apply-replay r h = replay (
      transition-Outcome node_id event event_id (allowed event) (target event) expected_revision
        payload s r h)
    where
      replay :
          Outcome node_id event event_id
            (allowed event)
            (target event)
            expected_revision
            payload
            s
            r
          → apply node_id event event_id expected' payload' r.0
            ≡ ok (r.0, record r.1 { applied = false })
      replay (reused e old same q) = reused-replay r e old same q
      replay (advanced new d) = Advanced-replay r d
