-- ===== src/Workflow/Audit/Preserved.antt =====
-- `apply_modification_transition` of features/project_map/store.py and the audit trail.
use mathlib.Core.Option
use bridle.Prelude.{
  ℕ, ◌+◌, String, ◌≡◌, refl, ap, Option, none, some, ◌==◌, string_eq, option_eq, select_one, arith,
}
use bridle.Prelude.Json.{Fields}
use bridle.Errors.{ok}
use bridle.Workflow.Machine.{ModificationEvent, allowed, target, state_eq}
use bridle.Workflow.Store.{Workflow, EventRow, Store, get_modification_workflow}
use bridle.Workflow.Transition.{Transition, current_revision, state_of, commit_transition, apply}
use bridle.Workflow.Transition.Cases.{
  Advanced, Outcome, reused, advanced, transition-Outcome, row_of-write_workflow,
}
use bridle.Workflow.Audit.{revision_after, state_after, IsAudited, row_summary, event_summary}

pub revision_agrees :
    (w : Option Workflow) (e : Option EventRow)
    → Option.map row_summary w ≡ Option.map event_summary e
    → (current_revision w ≡ revision_after e) × (state_of w ≡ state_after e)
unfolding current_revision
revision_agrees none none h = (refl, refl)
revision_agrees none (some e) h = ground arith
revision_agrees (some w) none h = ground arith
revision_agrees (some w) (some e) h = ground arith

module _ (node_id : String) (event : ModificationEvent) (event_id : String)
    (expected_revision : Option ℕ) (payload : Fields) (s : Store) where
  advance-IsAudited :
      (r : Store × Transition)
      → IsAudited s
      → select_one (λ e. e.event_id == event_id) s.events ≡ none
      → Advanced node_id event event_id (allowed event) (target event) expected_revision payload s r
      → IsAudited r.0
  unfolding commit_transition select_one get_modification_workflow
  advance-IsAudited r a new d = rw d.committed (record {
    trail = (
      record {
        from = (revision_agrees _ _ (a.agrees node_id)).1;
        counted = ap (λ n. n + 1) (revision_agrees _ _ (a.agrees node_id)).0;
        permitted = d.permitted;
        arrived = refl;
        fresh = new;
      },
      a.trail,
    );
    agrees = λ j.
        ground
          (arith, row_of-write_workflow _ _ s.workflows d.workflows j refl d.written, a.agrees j);
  })

  -- A transition that returns keeps the audit trail a run of the state machine for every node,
  -- with each event id once, that ends in the node's row.
  pub apply-IsAudited :
      (r : Store × Transition)
      → apply node_id event event_id expected_revision payload s ≡ ok r
      → IsAudited s
      → IsAudited r.0
  unfolding apply
  apply-IsAudited r h a = audited (
      transition-Outcome node_id event event_id (allowed event) (target event) expected_revision
        payload s r h)
    where
      audited :
          Outcome node_id event event_id
            (allowed event)
            (target event)
            expected_revision
            payload
            s
            r
          → IsAudited r.0
      audited (reused e old same q) = rw q a
      audited (advanced new d) = advance-IsAudited r a new d
