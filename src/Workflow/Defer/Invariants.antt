-- ===== src/Workflow/Defer/Invariants.antt =====
-- `defer_verification_run` of features/project_map/store.py and the invariants of the runs, the
-- trail and the contracts.
use bridle.Workflow.Audit.Preserved.{revision_agrees}
use bridle.Errors.{ok, ok-injective}
use bridle.Workflow.Runs.Kept.{IsQueue}
use bridle.Workflow.Transition.{current_revision}
use bridle.Workflow.Runs.{get_verification_run}
use bridle.Workflow.Defer.Outcome.{Blocked-row, deferred_store, Blocked-by}
use bridle.Workflow.Contracts.Bound.{IsContracted, IsBound}
use bridle.Workflow.Audit.{IsAudited, last_event}
use bridle.Workflow.Defer.{
  verifying_state, is_at_revision, defer_verification_run, is_exhausted, retry_limit,
}
use bridle.Workflow.Defer.Kept.{Blocked, Deferred, defer-Deferred, deferred-IsQueue}
use bridle.Workflow.Transition.Cases.{row_of}
use bridle.Workflow.Machine.{
  allowed, state_eq, is_allowed, ModificationEvent, ModificationState, target,
}
use bridle.Workflow.Store.{red, final, RunRow, Phase, Workflow, Store, get_modification_workflow}
use mathlib.Core.Option.{some-injective}
use mathlib.Core.Path.{subst}
use mathlib.Core.Logic.{if_pos, if_neg}
use bridle.Prelude.{
  ◌∙◌, List, [], ◌∷◌, some, true, Option, inl, inr, refl, nat_eq, string_eq, option_eq, select_one,
  String, update_where, ℕ, ◌≡◌, ◌≢◌, if◌then◌else◌, arith, ◌==◌, ◌+◌, Bool-cases, sym, ap,
}

-- Blocking a workflow leaves the rows of the other nodes alone.
other_row :
    (node_id : String) (k : ℕ) (f : Workflow → Workflow) (ws : List Workflow) (j : String)
    → ((x : Workflow) → (f x).node_id ≡ x.node_id)
    → node_id ≢ j
    → row_of (update_where (is_at_revision node_id k) f ws) j ≡ row_of ws j
unfolding select_one update_where
other_row node_id k f [] j keep other = refl
other_row node_id k f (x ∷ ws) j keep other =
    ground (arith, keep x, other_row node_id k f ws j keep other)

permitted_blocking :
    (p : Phase)
    → is_allowed ModificationEvent.verification_retry_exhausted (some (verifying_state p)) ≡ true
unfolding allowed state_eq option_eq
permitted_blocking red = refl
permitted_blocking final = refl

abbrev blocked_from : Workflow → Workflow
blocked_from w = record w {
  state = ModificationState.verification_blocked;
  revision = w.revision + 1;
}

verifying-IsBound :
    (p : Phase) (w : Workflow) → IsBound w → w.state ≡ verifying_state p → IsBound (blocked_from w)
verifying-IsBound red w k v = ground arith
verifying-IsBound final w k v = ground arith

module _ (c : RunRow) (error : String) (w : Workflow) (s s' : Store)
    (row : get_modification_workflow c.node_id s ≡ some w) (b : Blocked c error w s s') where
  blocked_rows :
      (j : String)
      → get_modification_workflow j s'
        ≡ (if c.node_id == j then some (blocked_from w) else get_modification_workflow j s)
  unfolding get_modification_workflow
  blocked_rows j = elim (string_eq.dec c.node_id j) [
    | yes own ↦ rw (if_pos (string_eq.dec c.node_id j) own) (
        subst (λ n. row_of s'.workflows n ≡ some (blocked_from w)) own
          (Blocked-row c error w s s' row b))
    | no other ↦
        rw (if_neg (string_eq.dec c.node_id j) other)
          (rw b.workflows (other_row c.node_id w.revision _ s.workflows j (λ x. refl) other))
  ]

  blocked-IsAudited : IsAudited s → IsAudited s'
  unfolding select_one current_revision target
  blocked-IsAudited a =
      let agrees =
        revision_agrees (some w) (last_event c.node_id s.events) (rw row at (a.agrees c.node_id)) in
      record {
        trail = rw b.events (
          record {
            from = ap some (sym b.verifying) ∙ agrees.1;
            counted = ap (λ n. n + 1) agrees.0;
            permitted = permitted_blocking c.phase;
            arrived = refl;
            fresh = b.fresh;
          },
          a.trail,
        );
        agrees = λ j. rw (blocked_rows j) (rw b.events (ground (arith, a.agrees j)));
      }

  blocked-IsContracted : IsContracted s → IsContracted s'
  blocked-IsContracted k = record {
    bound = λ j x h. elim (Bool-cases (c.node_id == j)) [
      | inl e ↦
          subst IsBound (some-injective (blocked_from w) x (rw e at (sym (blocked_rows j) ∙ h)))
            (verifying-IsBound c.phase w (k.bound c.node_id w row) b.verifying)
      | inr e ↦ k.bound j x (rw e at (sym (blocked_rows j) ∙ h))
    ];
    single = rw b.contracts k.single;
  }

-- The three invariants of the store, each of which every operation keeps.
pub record IsValid (s : Store) : Type 0 where
  pub queue : IsQueue s.runs
  pub audited : IsAudited s
  pub contracted : IsContracted s

module _ (run_id token error : String) (now : ℕ) (max_attempts : Option ℕ) where
  Deferred-IsValid :
      (s : Store) (r : Store × RunRow) (d : Deferred run_id token error now max_attempts s r)
      → IsValid s
      → IsValid (deferred_store run_id token error now max_attempts d.current s)
  unfolding get_modification_workflow get_verification_run
  Deferred-IsValid s r d v = record {
    queue =
        deferred-IsQueue run_id token error now (retry_limit max_attempts d.current) d.current
          s.runs d.selected d.limited v.queue;
    audited = record { trail = v.audited.trail; agrees = v.audited.agrees };
    contracted = record { bound = v.contracted.bound; single = v.contracted.single };
  }

  -- A deferral that returns keeps the invariants of the store, whether it queues the run again or
  -- blocks its workflow.
  pub defer-IsValid :
      (s : Store) (r : Store × RunRow)
      → defer_verification_run run_id token error now max_attempts s ≡ ok r
      → IsValid s
      → IsValid r.0
  defer-IsValid s r h v =
      let d = defer-Deferred run_id token error now max_attempts s r h in
      let m = Deferred-IsValid s r d v in
      elim (Bool-cases (is_exhausted (retry_limit max_attempts d.current) d.current)) [
        | inr e ↦ rw (← ok-injective _ r.0 (rw e at d.ended)) m
        | inl e ↦
            let (w, row, b) = Blocked-by d.current error _ r.0 (rw e at d.ended) in
            record {
              queue = rw b.runs m.queue;
              audited = blocked-IsAudited d.current error w _ r.0 row b m.audited;
              contracted = blocked-IsContracted d.current error w _ r.0 row b m.contracted;
            }
      ]
