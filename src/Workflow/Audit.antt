-- ===== src/Workflow/Audit.antt =====
-- The audit trail `modification_events` of features/project_map/store.py, read as a run of the
-- state machine for every node.
pub mod Preserved
pub mod Evidence
use mathlib.Core.Option
use bridle.Prelude.{
  ℕ, ◌+◌, String, true, ◌≡◌, Option, none, some, List, [], ◌∷◌, ◌==◌, string_eq, option_eq,
  select_one,
}
use bridle.Workflow.Machine.{ModificationState, target, is_allowed, state_eq}
use bridle.Workflow.Store.{Workflow, EventRow, Store, get_modification_workflow}

-- The newest event of a node; the trail stands newest first.
abbrev pub last_event : String → List EventRow → Option EventRow
last_event node_id = select_one (λ e. e.node_id == node_id)

abbrev pub revision_after : Option EventRow → ℕ
revision_after none = 0
revision_after (some e) = e.revision

abbrev pub state_after : Option EventRow → Option ModificationState
state_after = Option.map (λ e. e.to_state)

-- The event continues the node's trail by one step of the transition table.
pub record Continues (e : EventRow) (es : List EventRow) : Type 0 where
  pub from : e.from_state ≡ state_after (last_event e.node_id es)
  pub counted : e.revision ≡ revision_after (last_event e.node_id es) + 1
  pub permitted : is_allowed e.event e.from_state ≡ true
  pub arrived : e.to_state ≡ target e.event
  pub fresh : select_one (λ r. r.event_id == e.event_id) es ≡ none

abbrev pub IsTrail : List EventRow → Type 0
IsTrail [] = Unit
IsTrail (e ∷ es) = Continues e es × IsTrail es

abbrev pub row_summary : Workflow → ModificationState × ℕ
row_summary w = (w.state, w.revision)

abbrev pub event_summary : EventRow → ModificationState × ℕ
event_summary e = (e.to_state, e.revision)

-- The row of every node is what its last event left.
pub record IsAudited (s : Store) : Type 0 where
  pub trail : IsTrail s.events
  pub agrees :
      (node_id : String)
      → Option.map row_summary (get_modification_workflow node_id s)
        ≡ Option.map event_summary (last_event node_id s.events)
