-- ===== src/Workflow/Defer/Kept.antt =====
-- `defer_verification_run` of features/project_map/store.py taken apart, and the table of runs.
use mathlib.Core.Option.{some-injective}
use bridle.Workflow.Machine.{ModificationState, state_eq}
use bridle.Workflow.Runs.Sound.{IsSound}
use bridle.Workflow.Runs.Kept.{IsQueue, written_run-inv}
use bridle.Workflow.Runs.{get_verification_run, is_owned, is_run, written_run}
use bridle.Workflow.Store.{RunRow, Store, Workflow}
use bridle.Workflow.Defer.{
  block_row, defer_row, defer_verification_run, retry_limit, verifying_state, deferred_run,
  exhausted_event_id, is_exhausted, is_at_revision, block_workflow, exhausted_event, is_float_delay,
}
use mathlib.Core.Path.{subst}
use bridle.Errors.{ok, require-eq-ok, >>=-eq-ok, ok-injective}
use bridle.Prelude.{
  ◌∙◌, List, ◌∷◌, none, some, true, Option, refl, String, ℕ, ◌≡◌, update_where, select_one, ◌≤◌,
  ◌==◌, arith, rowcount, rowcount-update_where-le, if◌then◌else◌, leb, All-update_one, is_none, ◌+◌,
  string_eq, leb-le, eq-of-==, nat_eq, sym, ◌||◌,
}

deferred-IsSound :
    (run_id token error : String) (now limit : ℕ) (r : RunRow)
    → 1 ≤ limit
    → is_owned run_id token r ≡ true
    → IsSound r
    → IsSound (deferred_run r error now limit r)
deferred-IsSound run_id token error now limit r h own sound = ground arith

module _ (run_id token error : String) (now limit : ℕ) (current : RunRow) where
  abbrev pub deferred_runs : List RunRow → List RunRow
  deferred_runs = update_where (is_owned run_id token) (deferred_run current error now limit)

  pub deferred-IsQueue :
      (rs : List RunRow)
      → select_one (is_run run_id) rs ≡ some current
      → 1 ≤ limit
      → IsQueue rs
      → IsQueue (deferred_runs rs)
  deferred-IsQueue rs at h q = record {
    keyed = λ id. omega (
      arith,
      q.keyed id,
      rowcount-update_where-le (is_run id) (is_owned run_id token)
          (deferred_run current error now limit) rs (λ r p. p),
    );
    sound =
        All-update_one IsSound (is_run run_id) (is_owned run_id token)
          (deferred_run current error now limit) (λ r own. ground arith) rs (q.keyed run_id)
          (λ r sel own sound.
            subst (λ c. IsSound (deferred_run c error now limit r))
              (some-injective r current (sym sel ∙ at))
              (deferred-IsSound run_id token error now limit r h own sound))
          q.sound;
  }

-- What the blocking of a workflow has tested and written.
pub record Blocked (run : RunRow) (error_code : String) (w : Workflow) (s s' : Store) : Type 0 where
  pub verifying : w.state ≡ verifying_state run.phase
  pub fresh : select_one (λ e. e.event_id == exhausted_event_id run.run_id) s.events ≡ none
  pub workflows :
      s'.workflows
      ≡ update_where
          (is_at_revision run.node_id w.revision)
          (λ r. record r {
            state = ModificationState.verification_blocked;
            revision = w.revision + 1;
          })
          s.workflows
  pub events : s'.events ≡ exhausted_event run error_code w ∷ s.events
  pub contracts : s'.contracts ≡ s.contracts
  pub runs : s'.runs ≡ s.runs

pub block_row-Blocked :
    (run : RunRow) (error_code : String) (o : Option Workflow) (s s' : Store)
    → block_row run error_code o s ≡ ok s'
    → (w : Workflow) × (o ≡ some w) × Blocked run error_code w s s'
unfolding block_row
block_row-Blocked run error_code none s s' h = absurd (ground arith)
block_row-Blocked run error_code (some w) s s' h =
    let (v, h₁) = require-eq-ok (w.state == verifying_state run.phase) _ _ h in
    let (one, h₂) =
      require-eq-ok (rowcount (is_at_revision run.node_id w.revision) s.workflows == 1) _ _ h₁ in
    let (new, h₃) =
      require-eq-ok
        (is_none (select_one (λ e. e.event_id == exhausted_event_id run.run_id) s.events)) _ _ h₂ in
    (
      w,
      refl,
      rw (← ok-injective _ s' h₃) (record {
        verifying = ground arith;
        fresh = ground arith;
        workflows = refl;
        events = refl;
        contracts = refl;
        runs = refl;
      }),
    )

-- A deferral that returns, taken apart.
pub record Deferred (run_id token error : String) (now : ℕ) (max_attempts : Option ℕ) (s : Store)
    (r : Store × RunRow) : Type 0 where
  pub current : RunRow
  pub selected : get_verification_run run_id s ≡ some current
  pub limited : 1 ≤ retry_limit max_attempts current
  pub owned : rowcount (is_owned run_id token) s.runs ≡ 1
  pub ended :
      (if is_exhausted (retry_limit max_attempts current) current
        then block_workflow current error (record s {
          runs =
              update_where
                (is_owned run_id token)
                (deferred_run current error now (retry_limit max_attempts current))
                s.runs;
        })
        else ok (record s {
          runs =
              update_where
                (is_owned run_id token)
                (deferred_run current error now (retry_limit max_attempts current))
                s.runs;
        }))
      ≡ ok r.0
  pub reread : get_verification_run run_id r.0 ≡ some r.1

module _ (run_id token error : String) (now : ℕ) (max_attempts : Option ℕ) where
  defer_row-Deferred :
      (o : Option RunRow) (s : Store) (r : Store × RunRow)
      → get_verification_run run_id s ≡ o
      → defer_row run_id token error now max_attempts o s ≡ ok r
      → Deferred run_id token error now max_attempts s r
  unfolding defer_row
  defer_row-Deferred none s r at h = absurd (ground arith)
  defer_row-Deferred (some c) s r at h =
      let (m, h₁) = require-eq-ok (leb 1 (retry_limit max_attempts c)) _ _ h in
      let (_, h₁') =
        require-eq-ok (is_exhausted (retry_limit max_attempts c) c || is_float_delay c.attempt) _ _
          h₁ in
      let (one, h₂) = require-eq-ok (rowcount (is_owned run_id token) s.runs == 1) _ _ h₁' in
      let (s', e, h₃) = >>=-eq-ok _ (written_run run_id) h₂ in
      let (same, found) = written_run-inv run_id s' r h₃ in
      record {
        current = c;
        selected = at;
        limited = leb-le 1 _ m;
        owned = eq-of-== _ _ one;
        ended = rw same e;
        reread = rw same found;
      }

  pub defer-Deferred :
      (s : Store) (r : Store × RunRow)
      → defer_verification_run run_id token error now max_attempts s ≡ ok r
      → Deferred run_id token error now max_attempts s r
  unfolding defer_verification_run
  defer-Deferred s r h = defer_row-Deferred _ s r refl h
