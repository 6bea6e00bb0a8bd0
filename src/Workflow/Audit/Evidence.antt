-- ===== src/Workflow/Audit/Evidence.antt =====
-- The evidence behind a state: the audit trail of features/project_map/store.py read backwards
-- from the newest event of a node.
use mathlib.Core.Option
use bridle.Workflow.Audit.{
  IsTrail, last_event, state_after, Continues, IsAudited, row_summary, event_summary,
}
use bridle.Workflow.Machine.Paths.{IsGateOf, is_past_final, final_gate, is_past_red, red_gate}
use bridle.Workflow.Store.{EventRow, Store, Workflow, get_modification_workflow}
use mathlib.Core.Path.{subst, subst₂}
use mathlib.Core.Bool.{true≢false}
use mathlib.Core.Option.{some-injective}
use mathlib.Core.Logic.{if_pos, if_neg}
use bridle.Prelude.{
  refl, List, [], ◌∷◌, none, some, true, false, Option, inl, inr, String, Bool, List, Option, ◌≡◌,
  none, false, ◌∷◌, select_one, some, if◌then◌else◌, ◌==◌, true, arith, string_eq, ◌≢◌, sym, ◌∙◌,
  ap,
}
use bridle.Workflow.Machine.{
  ModificationEvent, ModificationState, is_allowed, event_eq, state_eq, allowed,
}

-- The trail before the newest `gate` event of the node; `none` if the node's tests were authored
-- after it, or there is none.
unfoldable pub back_to : ModificationEvent → String → List EventRow → Option (List EventRow)
back_to gate node_id [] = none
back_to gate node_id (e ∷ es) =
    let rest = back_to gate node_id es in
    if e.node_id == node_id
    then (if e.event == gate
        then some es
        else if e.to_state == ModificationState.test_authoring
        then none
        else rest)
    else rest

module _ (gate : ModificationEvent) (past : ModificationState → Bool) (is_gate : IsGateOf gate past)
    (authoring : past ModificationState.test_authoring ≡ false) (node_id : String) where
  -- A node in a state of `past` went through the gate since its tests were last authored.
  pub record Passed (es : List EventRow) : Type 0 where
    pub before : List EventRow
    pub found : back_to gate node_id es ≡ some before
    pub trail : IsTrail before
    pub permitted : is_allowed gate (state_after (last_event node_id before)) ≡ true

  gate_step :
      (x : EventRow) (es : List EventRow)
      → x.node_id ≡ node_id
      → x.event ≡ gate
      → IsTrail (x ∷ es)
      → Passed (x ∷ es)
  unfolding back_to
  gate_step x es own is t = record {
    before = es;
    found =
        rw (if_pos (string_eq.dec x.node_id node_id) own)
          (rw (if_pos (event_eq.dec x.event gate) is));
    trail = t.1;
    permitted =
        subst₂ (λ g n. is_allowed g (state_after (last_event n es)) ≡ true) is own
          (rw t.0.from at t.0.permitted);
  }

  not_authoring : (s : ModificationState) → past s ≡ true → s ≢ ModificationState.test_authoring
  not_authoring s p q = absurd (true≢false (sym p ∙ ap past q ∙ authoring))

  -- An event of another node, or one that neither is the gate nor leaves `past`, is passed over.
  older_step :
      (x : EventRow) (es : List EventRow)
      → (x.node_id ≡ node_id → (x.event ≢ gate) × (past x.to_state ≡ true))
      → Passed es
      → Passed (x ∷ es)
  unfolding back_to
  older_step x es skip p = record {
    before = p.before;
    found = elim (string_eq.dec x.node_id node_id) [
      | no other ↦ rw (if_neg (string_eq.dec x.node_id node_id) other) p.found
      | yes own ↦ rw (if_pos (string_eq.dec x.node_id node_id) own) (
          rw (if_neg (event_eq.dec x.event gate) (skip own).0) (
            rw (if_neg (state_eq.dec x.to_state _) (not_authoring x.to_state (skip own).1))
              p.found))
    ];
    trail = p.trail;
    permitted = p.permitted;
  }

  newest_own :
      (x : EventRow) (es : List EventRow) (state : ModificationState)
      → x.node_id ≡ node_id
      → state_after (last_event node_id (x ∷ es)) ≡ some state
      → past state ≡ true
      → past x.to_state ≡ true
  unfolding select_one
  newest_own x es state own last h =
      rw
        (some-injective x.to_state state
          (rw (if_pos (string_eq.dec x.node_id node_id) own) at last))
        h

  newest_other :
      (x : EventRow) (es : List EventRow) (state : ModificationState)
      → ¬ (x.node_id ≡ node_id)
      → state_after (last_event node_id (x ∷ es)) ≡ some state
      → state_after (last_event node_id es) ≡ some state
  unfolding select_one
  newest_other x es state other last = rw (if_neg (string_eq.dec x.node_id node_id) other) at last

  -- The newest event of the node is the gate, or the state before it is in `past` too.
  own_step :
      (x : EventRow) (es : List EventRow)
      → ((f : ModificationState)
          → state_after (last_event node_id es) ≡ some f
          → past f ≡ true
          → Passed es)
      → Continues x es
      → IsTrail es
      → x.node_id ≡ node_id
      → past x.to_state ≡ true
      → Dec (x.event ≡ gate)
      → Passed (x ∷ es)
  own_step x es older c t own h (yes is) = gate_step x es own is (c, t)
  own_step x es older c t own h (no not) =
      elim (is_gate x.event x.from_state c.permitted (rw (← c.arrived) h)) [
        | inl is ↦ absurd (not is)
        | inr (f, from, pf) ↦
            older_step x es (λ _. (not, h))
              (older f (subst (λ n. state_after (last_event n es) ≡ some f) own (sym c.from ∙ from))
                pf)
      ]

  past-Passed :
      (es : List EventRow) (state : ModificationState)
      → IsTrail es
      → state_after (last_event node_id es) ≡ some state
      → past state ≡ true
      → Passed es
  unfolding select_one
  past-Passed [] state t last h = absurd (ground arith)
  past-Passed (x ∷ es) state t last h = elim (string_eq.dec x.node_id node_id) [
    | no other ↦
        older_step x es (λ own. absurd (other own))
          (past-Passed es state t.1 (newest_other x es state other last) h)
    | yes own ↦
        own_step x es (λ f. past-Passed es f t.1) t.0 t.1 own (newest_own x es state own last h)
          (event_eq.dec x.event gate)
  ]

allowed_final :
    (o : Option ModificationState)
    → is_allowed ModificationEvent.final_verification_passed o ≡ true
    → o ≡ some ModificationState.final_verifying
unfolding allowed
allowed_final o h = ground arith

row_state :
    (w : Option Workflow) (e : Option EventRow) (r : Workflow)
    → Option.map row_summary w ≡ Option.map event_summary e
    → w ≡ some r
    → state_after e ≡ some r.state
row_state none e r h q = absurd (ground arith)
row_state (some w) none r h q = absurd (ground arith)
row_state (some w) (some e) r h q = ground arith

-- Since the node's tests were last authored a final verification passed, and before that, with no
-- authoring of the tests in between, a red run was confirmed.
abbrev pub HasEvidence : String → List EventRow → Type 0
HasEvidence node_id es =
    (before_final : List EventRow) × (back_to ModificationEvent.final_verification_passed node_id es
      ≡ some before_final)
    × (before_red : List EventRow) × (back_to ModificationEvent.red_confirmed node_id before_final
        ≡ some before_red)

-- A node that is ready to publish, or published, has in its trail, since its tests were last
-- authored, a final verification that passed, and before that, with no authoring of the tests in
-- between, a confirmed red run.
pub ready-back_to :
    (s : Store) (node_id : String) (w : Workflow)
    → IsAudited s
    → get_modification_workflow node_id s ≡ some w
    → is_past_final w.state ≡ true
    → HasEvidence node_id s.events
ready-back_to s node_id w a row past =
    let final =
      past-Passed ModificationEvent.final_verification_passed is_past_final final_gate refl node_id
        s.events w.state a.trail
        (row_state (get_modification_workflow node_id s) (last_event node_id s.events) w
          (a.agrees node_id) row)
        past in
    let red =
      past-Passed ModificationEvent.red_confirmed is_past_red red_gate refl node_id final.before
        ModificationState.final_verifying final.trail (allowed_final _ final.permitted) refl in
    (final.before, final.found, red.before, red.found)
