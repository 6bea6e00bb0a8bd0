-- ===== src/Workflow/Transition/Cases.antt =====
-- `apply_modification_transition` of features/project_map/store.py that returns, taken apart into
-- its steps.
use mathlib.Core.Logic.{if_pos, if_neg}
use bridle.Prelude.{
  sym, ℕ, ◌+◌, String, true, ◌≡◌, refl, Option, none, some, List, [], ◌≢◌, ◌∷◌, ◌++◌, update_where,
  select_one-append, ◌&&◌, ◌==◌, contains, arith, option_eq, string_eq, select_one, is_none, ◌||◌,
  nat_eq, if◌then◌else◌,
}
use bridle.Prelude.Json.{Fields}
use bridle.Errors.{ok, ok-injective, >>=-eq-ok, require-eq-ok}
use bridle.Workflow.Machine.{ModificationState, ModificationEvent, state_eq}
use bridle.Workflow.Store.{Workflow, EventRow, Store, get_modification_workflow}
use bridle.Workflow.Transition.{
  Transition, ContractStep, contract_step, write_workflow, current_revision,
  current_contract_version, state_of, commit_transition, advance, is_same_transition,
  reuse_or_advance, apply_modification_transition, replayed,
}

module _ (node_id : String) (event : ModificationEvent) (event_id : String)
    (allowed_from : List (Option ModificationState)) (to_state : ModificationState)
    (expected_revision : Option ℕ) (payload : Fields) (s : Store) where
  -- What a new event did: the tests that passed and the values of the steps between them.
  pub record Advanced (r : Store × Transition) : Type 0 where
    pub step : ContractStep
    pub workflows : List Workflow
    pub expected :
        (is_none expected_revision
          || expected_revision == some (current_revision (get_modification_workflow node_id s)))
        ≡ true
    pub permitted : contains allowed_from (state_of (get_modification_workflow node_id s)) ≡ true
    pub stepped :
        contract_step node_id event
          (current_contract_version (get_modification_workflow node_id s))
          payload
          s
        ≡ ok step
    pub written :
        write_workflow
          (record {
            node_id = node_id;
            state = to_state;
            revision = current_revision (get_modification_workflow node_id s) + 1;
            test_contract_version = step.version;
          })
          (get_modification_workflow node_id s)
          s.workflows
        ≡ ok workflows
    pub committed :
        r
        ≡ commit_transition node_id event event_id to_state
            (get_modification_workflow node_id s)
            step
            workflows
            s

  pub advance-Advanced :
      (r : Store × Transition)
      → advance node_id event event_id allowed_from to_state expected_revision payload s ≡ ok r
      → Advanced r
  unfolding advance
  advance-Advanced r h =
      let (e, h₁) = require-eq-ok _ _ _ h in
      let (p, h₂) = require-eq-ok _ _ _ h₁ in
      let (step, q, h₃) =
        >>=-eq-ok
          (contract_step node_id event
            (current_contract_version (get_modification_workflow node_id s)) payload s)
          _ h₂ in
      let (ws, w, h₄) =
        >>=-eq-ok (write_workflow _ (get_modification_workflow node_id s) s.workflows) _ h₃ in
      record {
        step = step;
        workflows = ws;
        expected = e;
        permitted = p;
        stepped = q;
        written = w;
        committed = ok-injective _ _ (sym h₄);
      }

  -- What a transition that returns has done: it answered from the trail, or it advanced.
  pub data Outcome (r : Store × Transition) : Type 0 where
    reused :
        (e : EventRow)
        → select_one (λ x. x.event_id == event_id) s.events ≡ some e
        → is_same_transition node_id event to_state e ≡ true
        → r ≡ (s, replayed node_id e)
        → Outcome r
    advanced : select_one (λ x. x.event_id == event_id) s.events ≡ none → Advanced r → Outcome r

  by_event :
      (o : Option EventRow) (r : Store × Transition)
      → select_one (λ x. x.event_id == event_id) s.events ≡ o
      → reuse_or_advance node_id event event_id allowed_from to_state expected_revision payload o s
        ≡ ok r
      → Outcome r
  unfolding reuse_or_advance
  by_event none r new h = advanced new (advance-Advanced r h)
  by_event (some e) r old h =
      let (same, h') = require-eq-ok (is_same_transition node_id event to_state e) _ _ h in
      reused e old same (sym (ok-injective _ _ h'))

  pub transition-Outcome :
      (r : Store × Transition)
      → apply_modification_transition node_id event event_id allowed_from to_state expected_revision
          payload s
        ≡ ok r
      → Outcome r
  unfolding apply_modification_transition
  transition-Outcome r h = by_event (select_one (λ x. x.event_id == event_id) s.events) r refl h

-- After the write a node has the new row, if it is the row's node, and its old row otherwise.
abbrev pub row_of : List Workflow → String → Option Workflow
row_of ws j = select_one (λ w. w.node_id == j) ws

at_own :
    (ws : List Workflow) (i j : String) (o : Option Workflow)
    → i ≡ j
    → row_of ws i ≡ o
    → row_of ws j ≡ o
at_own ws i j o p h = rw (← p) h

insert-row_of :
    (new : Workflow) (ws : List Workflow) (j : String)
    → row_of ws new.node_id ≡ none
    → row_of (ws ++ new ∷ []) j ≡ (if new.node_id == j then some new else row_of ws j)
insert-row_of new ws j absent =
    ground (arith, select_one-append (λ w. w.node_id == j) ws new, at_own ws new.node_id j none)

abbrev overwrite : Workflow → ℕ → List Workflow → List Workflow
overwrite new revision =
    update_where (λ r. r.node_id == new.node_id && r.revision == revision) (λ _. new)

overwrite-row_of_ne :
    (new : Workflow) (k : ℕ) (ws : List Workflow) (j : String)
    → new.node_id ≢ j
    → row_of (overwrite new k ws) j ≡ row_of ws j
unfolding select_one update_where
overwrite-row_of_ne new k [] j other = refl
overwrite-row_of_ne new k (r ∷ ws) j other = ground (arith, overwrite-row_of_ne new k ws j)

overwrite-row_of_self :
    (new w : Workflow) (ws : List Workflow)
    → row_of ws new.node_id ≡ some w
    → row_of (overwrite new w.revision ws) new.node_id ≡ some new
unfolding select_one update_where
overwrite-row_of_self new w [] h = ground arith
overwrite-row_of_self new w (r ∷ ws) h = ground (arith, overwrite-row_of_self new w ws)

pub row_of-write_workflow :
    (new : Workflow) (old : Option Workflow) (ws ws' : List Workflow) (j : String)
    → row_of ws new.node_id ≡ old
    → write_workflow new old ws ≡ ok ws'
    → row_of ws' j ≡ (if new.node_id == j then some new else row_of ws j)
unfolding write_workflow
row_of-write_workflow new none ws ws' j absent h =
    rw (← ok-injective (ws ++ new ∷ []) ws' h) (insert-row_of new ws j absent)
row_of-write_workflow new (some w) ws ws' j present h =
    let e = ok-injective (overwrite new w.revision ws) ws' (require-eq-ok _ _ _ h).1 in
    rw (← e) (elim (string_eq.dec new.node_id j) [
      | yes p ↦ rw (if_pos _ p) (
          at_own (overwrite new w.revision ws) new.node_id j (some new) p
            (overwrite-row_of_self new w ws present))
      | no n ↦ rw (if_neg _ n) (overwrite-row_of_ne new w.revision ws j n)
    ])
