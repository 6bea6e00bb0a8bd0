-- ===== src/Workflow/Store.antt =====
-- The tables of features/project_map/store.py that the modification workflow reads and writes,
-- and a transaction on them.
use bridle.Prelude.{ℕ, String, Bool, ◌&&◌, Option, List, [], ◌∷◌, Eq, ◌==◌, string_eq, select_one}
use bridle.Prelude.Json.{Json, Fields}
use bridle.Errors.{Result}
use bridle.Workflow.Machine.{ModificationState, ModificationEvent}

-- A row of `modification_workflows`, whose primary key is `node_id`.
pub record Workflow : Type 0 where
  pub node_id : String
  pub state : ModificationState
  pub revision : ℕ
  pub test_contract_version : Option String

-- A row of `modification_events`.
pub record EventRow : Type 0 where
  pub event_id : String
  pub node_id : String
  pub event : ModificationEvent
  pub from_state : Option ModificationState
  pub to_state : ModificationState
  pub revision : ℕ
  pub payload : Fields

pub data ContractState : Type 0 where
  frozen invalidated : ContractState

unfoldable pub ContractState-discrete : Discrete ContractState
ContractState-discrete = hlevel

instance unfoldable pub contract_state_eq : Eq ContractState
unfolding ContractState-discrete
contract_state_eq = record { dec = ContractState-discrete }

-- A row of `test_contracts`; `snapshot` is the serialized text.
pub record ContractRow : Type 0 where
  pub node_id : String
  pub contract_version : String
  pub snapshot : String
  pub state : ContractState
  pub invalidation_reason : Option String

pub data Phase : Type 0 where
  red final : Phase

pub data RunState : Type 0 where
  queued running completed failed : RunState

unfoldable pub Phase-discrete : Discrete Phase
Phase-discrete = hlevel

unfoldable pub RunState-discrete : Discrete RunState
RunState-discrete = hlevel

instance unfoldable pub phase_eq : Eq Phase
unfolding Phase-discrete
phase_eq = record { dec = Phase-discrete }

instance unfoldable pub run_state_eq : Eq RunState
unfolding RunState-discrete
run_state_eq = record { dec = RunState-discrete }

-- A row of `verification_runs`. A time is a count of microseconds.
pub record RunRow : Type 0 where
  pub run_id : String
  pub node_id : String
  pub phase : Phase
  pub source_revision : ℕ
  pub contract_version : String
  pub candidate_id : Option String
  pub state : RunState
  pub attempt : ℕ
  pub next_retry_at : Option ℕ
  pub max_attempts : ℕ
  pub terminal_reason : Option String
  pub lease_token : Option String
  pub lease_expires_at : Option ℕ
  pub outcome : Option Json
  pub error_code : Option String

-- A row of `change_events`. The payloads of the rows are left out: nothing here reads them.
pub record Change : Type 0 where
  pub entity_type : String
  pub entity_id : String
  pub operation : String

-- `events` and `changes` are append-only and stand here newest first.
pub record Store : Type 0 where
  pub workflows : List Workflow
  pub events : List EventRow
  pub contracts : List ContractRow
  pub runs : List RunRow
  pub changes : List Change

abbrev pub empty : Store
empty = record { workflows = []; events = []; contracts = []; runs = []; changes = [] }

-- What a `with self._connect()` block does: the new tables, which SQLite commits, and the reply; or
-- an exception, and SQLite rolls back what was written.
abbrev pub Tx : Type 0 → Type 0
Tx A = Store → Result (Store × A)

-- `_record_change`
unfoldable pub record_change : String → String → String → Store → Store
record_change entity_type entity_id operation s = record s {
  changes =
      record { entity_type = entity_type; entity_id = entity_id; operation = operation }
      ∷ s.changes;
}

-- `get_modification_workflow`
unfoldable pub get_modification_workflow : String → Store → Option Workflow
get_modification_workflow node_id s = select_one (λ w. w.node_id == node_id) s.workflows

abbrev pub is_frozen_for : String → ContractRow → Bool
is_frozen_for node_id c = c.node_id == node_id && c.state == frozen

abbrev pub is_version_of : String → String → ContractRow → Bool
is_version_of node_id version c = c.node_id == node_id && c.contract_version == version

-- `get_active_test_contract`
unfoldable pub get_active_test_contract : String → Store → Option ContractRow
get_active_test_contract node_id s = select_one (is_frozen_for node_id) s.contracts

-- `get_test_contract`
unfoldable pub get_test_contract : String → String → Store → Option ContractRow
get_test_contract node_id version s = select_one (is_version_of node_id version) s.contracts
