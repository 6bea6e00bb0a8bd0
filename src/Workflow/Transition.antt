-- ===== src/Workflow/Transition.antt =====
-- `apply_modification_transition` of features/project_map/store.py, and `ModificationWorkflow` of
-- agent/runtime/modification_workflow.py, which calls it.
pub mod Cases
pub mod Replay
use mathlib.Core.Option
use bridle.Prelude.{
  ℕ, suc, ◌+◌, String, Bool, true, false, not, ◌&&◌, ◌||◌, Option, none, some, List, [], ◌∷◌, ◌++◌,
  ◌==◌, contains, string_eq, nat_eq, option_eq, is_none, if◌then◌else◌, select_one, update_where,
  rowcount,
}
use bridle.Prelude.Json.{Json, Fields, str, of_option, get, put}
use bridle.Errors.{Error, conflict_error, not_found_error, Result, ok, raise, ◌>>=◌, ◌>>◌, require}
use bridle.Workflow.Machine.{
  ModificationState, ModificationEvent, state_eq, event_eq, allowed, target, is_allowed,
}
use bridle.Workflow.Store.{
  Workflow, EventRow, ContractRow, frozen, invalidated, contract_state_eq, Store, Tx, record_change,
  get_modification_workflow, get_active_test_contract, is_version_of,
}

-- The reply of a transition.
pub record Transition : Type 0 where
  pub node_id : String
  pub state : ModificationState
  pub revision : ℕ
  pub test_contract_version : Json
  pub applied : Bool

-- The reply for an event id that is already in the audit trail.
unfoldable pub replayed : String → EventRow → Transition
replayed node_id existing = record {
  node_id = node_id;
  state = existing.to_state;
  revision = existing.revision;
  test_contract_version = get existing.payload "test_contract_version";
  applied = false;
}

abbrev pub is_same_transition : String → ModificationEvent → ModificationState → EventRow → Bool
is_same_transition node_id event to_state existing =
    existing.node_id == node_id && existing.event == event && existing.to_state == to_state

-- The same transition is answered from its row, any other is refused.
unfoldable pub reuse_event :
    String → ModificationEvent → ModificationState → EventRow → Tx Transition
unfolding replayed
reuse_event node_id event to_state existing s = do
  require (is_same_transition node_id event to_state existing)
      (conflict_error "modification_event_conflict")
  ok (s, replayed node_id existing)

-- What the transition does to the contracts: the version that the workflow refers to from now on,
-- the payload of the event, and the contract table.
pub record ContractStep : Type 0 where
  pub version : Option String
  pub payload : Fields
  pub contracts : List ContractRow

-- The branch of `test_contract_approved` and `red_allowed`: both need a frozen contract, and the
-- second needs it to be the approved one.
unfoldable pub bind_contract :
    String → ModificationEvent → Option String → Fields → Store → Result ContractStep
bind_contract node_id event current payload s = elim (get_active_test_contract node_id s) [
  | none ↦ raise (conflict_error "test_contract_required")
  | some active ↦ do
    require
        (event == ModificationEvent.test_contract_approved
          || current == some active.contract_version)
        (conflict_error "test_contract_stale")
    ok (record {
      version =
          if event == ModificationEvent.test_contract_approved
          then some active.contract_version
          else current;
      payload = put payload "test_contract_version" (str active.contract_version);
      contracts = s.contracts;
    })
]

-- The branch of `invalid_test` and `baseline_expired`: the approved contract is invalidated and
-- forgotten.
unfoldable pub drop_contract : String → String → Option String → Fields → Store → ContractStep
drop_contract node_id reason none payload s = record {
  version = none;
  payload = payload;
  contracts = s.contracts;
}
drop_contract node_id reason (some current) payload s = record {
  version = none;
  payload = put payload "invalidated_contract_version" (str current);
  contracts =
      update_where (λ c. is_version_of node_id current c && c.state == frozen)
        (λ c. record c { state = invalidated; invalidation_reason = some reason }) s.contracts;
}

-- Every other event keeps the version and copies it into the payload.
unfoldable pub keep_contract : Option String → Fields → Store → ContractStep
keep_contract none payload s = record { version = none; payload = payload; contracts = s.contracts }
keep_contract (some current) payload s = record {
  version = some current;
  payload = put payload "test_contract_version" (str current);
  contracts = s.contracts;
}

unfoldable pub contract_step :
    String → ModificationEvent → Option String → Fields → Store → Result ContractStep
unfolding bind_contract drop_contract keep_contract
contract_step node_id ModificationEvent.test_contract_approved current payload s =
    bind_contract node_id ModificationEvent.test_contract_approved current payload s
contract_step node_id ModificationEvent.red_allowed current payload s =
    bind_contract node_id ModificationEvent.red_allowed current payload s
contract_step node_id ModificationEvent.invalid_test current payload s =
    ok (drop_contract node_id "invalid_test" current payload s)
contract_step node_id ModificationEvent.baseline_expired current payload s =
    ok (drop_contract node_id "baseline_expired" current payload s)
contract_step node_id event current payload s = ok (keep_contract current payload s)

-- `INSERT` for a node without a workflow, else the `UPDATE` that compares the revision.
unfoldable pub write_workflow : Workflow → Option Workflow → List Workflow → Result (List Workflow)
write_workflow new none ws = ok (ws ++ new ∷ [])
write_workflow new (some current) ws = do
  require (rowcount (λ w. w.node_id == new.node_id && w.revision == current.revision) ws == 1)
      (conflict_error "modification_revision_conflict")
  ok (update_where (λ w. w.node_id == new.node_id && w.revision == current.revision) (λ _. new) ws)

unfoldable pub current_revision : Option Workflow → ℕ
current_revision none = 0
current_revision (some w) = w.revision

unfoldable pub current_contract_version : Option Workflow → Option String
current_contract_version none = none
current_contract_version (some w) = w.test_contract_version

abbrev pub state_of : Option Workflow → Option ModificationState
state_of = Option.map (λ w. w.state)

-- The writes of a transition that no test refused, and its reply.
unfoldable pub commit_transition :
    String
    → ModificationEvent
    → String
    → ModificationState
    → Option Workflow
    → ContractStep
    → List Workflow
    → Store
    → Store × Transition
unfolding record_change current_revision
commit_transition node_id event event_id to_state current step workflows s = (
  record_change "modification_workflow" node_id "transition" (record s {
    workflows = workflows;
    contracts = step.contracts;
    events =
        record {
          event_id = event_id;
          node_id = node_id;
          event = event;
          from_state = state_of current;
          to_state = to_state;
          revision = current_revision current + 1;
          payload = step.payload;
        }
        ∷ s.events;
  }),
  record {
    node_id = node_id;
    state = to_state;
    revision = current_revision current + 1;
    test_contract_version = of_option step.version;
    applied = true;
  },
)

-- The transaction of a new event id.
unfoldable pub advance :
    String
    → ModificationEvent
    → String
    → List (Option ModificationState)
    → ModificationState
    → Option ℕ
    → Fields
    → Tx Transition
unfolding contract_step write_workflow current_revision current_contract_version commit_transition
    get_modification_workflow get_active_test_contract
advance node_id event event_id allowed_from to_state expected_revision payload s = do
  let current = get_modification_workflow node_id s
  require (is_none expected_revision || expected_revision == some (current_revision current))
      (conflict_error "modification_revision_conflict")
  require (contains allowed_from (state_of current))
      (conflict_error "modification_transition_invalid")
  step ← contract_step node_id event (current_contract_version current) payload s
  workflows ←
      write_workflow
        (record {
          node_id = node_id;
          state = to_state;
          revision = current_revision current + 1;
          test_contract_version = step.version;
        })
        current s.workflows
  ok (commit_transition node_id event event_id to_state current step workflows s)

-- An event id that is in the trail is answered from there, a new one goes through `advance`.
unfoldable pub reuse_or_advance :
    String
    → ModificationEvent
    → String
    → List (Option ModificationState)
    → ModificationState
    → Option ℕ
    → Fields
    → Option EventRow
    → Tx Transition
unfolding reuse_event advance
reuse_or_advance node_id event event_id allowed_from to_state expected_revision payload
      (some existing) s =
    reuse_event node_id event to_state existing s
reuse_or_advance node_id event event_id allowed_from to_state expected_revision payload none s =
    advance node_id event event_id allowed_from to_state expected_revision payload s

unfoldable pub apply_modification_transition :
    String
    → ModificationEvent
    → String
    → List (Option ModificationState)
    → ModificationState
    → Option ℕ
    → Fields
    → Tx Transition
unfolding reuse_or_advance select_one
apply_modification_transition node_id event event_id allowed_from to_state expected_revision payload
      s =
    reuse_or_advance node_id event event_id allowed_from to_state expected_revision payload
      (select_one (λ r. r.event_id == event_id) s.events) s

-- `ModificationWorkflow.apply`: the transition table supplies the states.
unfoldable pub apply : String → ModificationEvent → String → Option ℕ → Fields → Tx Transition
unfolding apply_modification_transition
apply node_id event event_id expected_revision payload =
    apply_modification_transition node_id event event_id (allowed event) (target event)
      expected_revision payload
