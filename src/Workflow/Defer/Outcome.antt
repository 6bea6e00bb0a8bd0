-- ===== src/Workflow/Defer/Outcome.antt =====
-- What `defer_verification_run` of features/project_map/store.py does to the run and to its
-- workflow.
use mathlib.Core.Option.{some-injective}
use bridle.Workflow.Defer.Kept.{Deferred, Blocked, defer-Deferred, block_row-Blocked}
use bridle.Errors.{ok, ok-injective}
use bridle.Workflow.Machine.{ModificationState}
use bridle.Workflow.Runs.Kept.{IsQueue}
use bridle.Workflow.Defer.{
  deferred_run, defer_verification_run, retry_limit, verifying_state, exhausted_event, is_exhausted,
  block_workflow, is_at_revision,
}
use bridle.Workflow.Runs.{is_run, is_owned, get_verification_run}
use bridle.Workflow.Store.{RunRow, queued, Workflow, get_modification_workflow, failed, Store}
use bridle.Prelude.{
  nat_eq, string_eq, ◌∙◌, List, ◌∷◌, none, some, true, false, Option, refl, String, ℕ, select_one,
  ◌≡◌, ◌≤◌, update_where, arith, select_one-update_where, ◌<◌, ◌+◌, select_one_passes, sym, ◌==◌,
  select_one_sound, eq_self, min, ◌^◌, ◌-◌, ◌*◌,
}

-- The run that the deferral has read is the one that the caller's lease owns.
pub current_owned :
    (run_id token error : String) (now : ℕ) (max_attempts : Option ℕ) (s : Store)
    (r : Store × RunRow)
    → IsQueue s.runs
    → (d : Deferred run_id token error now max_attempts s r)
    → is_owned run_id token d.current ≡ true
unfolding get_verification_run
current_owned run_id token error now max_attempts s r q d =
    select_one_passes (is_run run_id) (is_owned run_id token) (λ x own. ground arith) s.runs
      d.current (q.keyed run_id) d.owned d.selected

select_deferred :
    (run_id token error : String) (now limit : ℕ) (c : RunRow) (rs : List RunRow)
    → is_owned run_id token c ≡ true
    → select_one (is_run run_id) rs ≡ some c
    → select_one
        (is_run run_id)
        (update_where (is_owned run_id token) (deferred_run c error now limit) rs)
      ≡ some (deferred_run c error now limit c)
select_deferred run_id token error now limit c rs own h =
    rw
      (select_one-update_where (is_run run_id) (is_owned run_id token)
        (deferred_run c error now limit) rs (λ r _. refl))
      (rw h (rw own))

-- The store in which the run is written and the workflow not yet blocked.
abbrev pub deferred_store : String → String → String → ℕ → Option ℕ → RunRow → Store → Store
deferred_store run_id token error now max_attempts c s = record s {
  runs =
      update_where (is_owned run_id token) (deferred_run c error now (retry_limit max_attempts c))
        s.runs;
}

module _ (run_id token error : String) (now : ℕ) (max_attempts : Option ℕ) (s : Store)
    (r : Store × RunRow) (q : IsQueue s.runs)
    (d : Deferred run_id token error now max_attempts s r) where
  -- The reply is the row as the deferral wrote it, where the runs have not been written since.
  reply_deferred :
      r.0.runs ≡ (deferred_store run_id token error now max_attempts d.current s).runs
      → r.1 ≡ deferred_run d.current error now (retry_limit max_attempts d.current) d.current
  unfolding get_verification_run
  reply_deferred e = sym (
      some-injective _ _ (
        sym (
          select_deferred run_id token error now (retry_limit max_attempts d.current) d.current
            s.runs (current_owned run_id token error now max_attempts s r q d) d.selected)
        ∙ (rw e at d.reread)))

  pub not_exhausted :
      d.current.attempt < retry_limit max_attempts d.current
      → r.0 ≡ deferred_store run_id token error now max_attempts d.current s
  not_exhausted more =
      let e : is_exhausted (retry_limit max_attempts d.current) d.current ≡ false = ground arith in
      sym (ok-injective _ _ (rw e at d.ended))

  pub exhausted :
      retry_limit max_attempts d.current ≤ d.current.attempt
      → block_workflow d.current error
          (deferred_store run_id token error now max_attempts d.current s)
        ≡ ok r.0
  exhausted less =
      let e : is_exhausted (retry_limit max_attempts d.current) d.current ≡ true = ground arith in
      rw e at d.ended

pub Blocked-by :
    (c : RunRow) (error : String) (s s' : Store)
    → block_workflow c error s ≡ ok s'
    → (w : Workflow) × (get_modification_workflow c.node_id s ≡ some w) × Blocked c error w s s'
unfolding block_workflow
Blocked-by c error s s' h = block_row-Blocked c error (get_modification_workflow c.node_id s) s s' h

pub Blocked-row :
    (c : RunRow) (error : String) (w : Workflow) (s s' : Store)
    → get_modification_workflow c.node_id s ≡ some w
    → Blocked c error w s s'
    → get_modification_workflow c.node_id s'
      ≡ some
          (record w { state = ModificationState.verification_blocked; revision = w.revision + 1 })
unfolding get_modification_workflow
Blocked-row c error w s s' row b = rw b.workflows (
    rw
      (select_one-update_where (λ x. x.node_id == c.node_id) (is_at_revision c.node_id w.revision)
        (λ x. record x {
          state = ModificationState.verification_blocked;
          revision = w.revision + 1;
        })
        s.workflows (λ x _. refl))
      (rw row (
        rw (select_one_sound (λ x. x.node_id == c.node_id) s.workflows w row)
          (rw (eq_self {A = ℕ} w.revision)))))

module _ (run_id token error : String) (now : ℕ) (max_attempts : Option ℕ) (s : Store)
    (r : Store × RunRow) (h : defer_verification_run run_id token error now max_attempts s ≡ ok r)
    (q : IsQueue s.runs) where
  -- In a sound queue a deferral before the last attempt that returns puts the run back into the
  -- queue, without a lease, with the retry due after `2 ** (attempt - 1)` seconds, but at most a
  -- minute, and touches neither workflow nor trail.
  pub defer-queued :
      (c : RunRow)
      → get_verification_run run_id s ≡ some c
      → c.attempt < retry_limit max_attempts c
      → (r.1.state ≡ queued)
        × (r.1.next_retry_at ≡ some (now + min (2 ^ (c.attempt - 1)) 60 * 1000000))
        × (r.1.lease_token ≡ none)
        × (r.1.attempt ≡ c.attempt)
        × (get_verification_run run_id r.0 ≡ some r.1)
        × (r.0.workflows ≡ s.workflows)
        × (r.0.events ≡ s.events)
  defer-queued c at more =
      let d = defer-Deferred run_id token error now max_attempts s r h in
      let e : d.current ≡ c = some-injective d.current c (sym d.selected ∙ at) in
      let t = not_exhausted run_id token error now max_attempts s r q d (rw e more) in
      let reply = reply_deferred run_id token error now max_attempts s r q d (rw t refl) in
      let reply' : r.1 ≡ deferred_run c error now (retry_limit max_attempts c) c = rw e at reply in
      (ground arith, ground arith, ground arith, ground arith, d.reread, rw t refl, rw t refl)

  -- In a sound queue a deferral of the last attempt that returns stores the run as the reply has
  -- it, failed, without a lease or a retry and with `verification_retry_exhausted` as its reason,
  -- and in the same transaction moves its workflow from the verifying state of the run's phase to
  -- `verification_blocked`, with the event in the trail.
  pub defer-exhausted :
      (c : RunRow)
      → get_verification_run run_id s ≡ some c
      → retry_limit max_attempts c ≤ c.attempt
      → (w : Workflow) × (get_modification_workflow c.node_id s ≡ some w)
        × (w.state ≡ verifying_state c.phase)
        × (get_verification_run run_id r.0 ≡ some r.1)
        × (r.1.state ≡ failed)
        × (r.1.attempt ≡ c.attempt)
        × (r.1.lease_token ≡ none)
        × (r.1.next_retry_at ≡ none)
        × (r.1.terminal_reason ≡ some "verification_retry_exhausted")
        × (get_modification_workflow c.node_id r.0
            ≡ some (record w {
              state = ModificationState.verification_blocked;
              revision = w.revision + 1;
            }))
        × (r.0.events ≡ exhausted_event c error w ∷ s.events)
  unfolding get_modification_workflow
  defer-exhausted c at less =
      let d = defer-Deferred run_id token error now max_attempts s r h in
      let e : d.current ≡ c = some-injective d.current c (sym d.selected ∙ at) in
      let (w, row, b) =
        Blocked-by c error (deferred_store run_id token error now max_attempts c s) r.0
          (rw e at (exhausted run_id token error now max_attempts s r q d (rw e less))) in
      let reply = reply_deferred run_id token error now max_attempts s r q d (rw e b.runs) in
      let reply' : r.1 ≡ deferred_run c error now (retry_limit max_attempts c) c = rw e at reply in
      (
        w,
        row,
        b.verifying,
        d.reread,
        ground arith,
        ground arith,
        ground arith,
        ground arith,
        ground arith,
        Blocked-row c error w _ r.0 row b,
        b.events,
      )
