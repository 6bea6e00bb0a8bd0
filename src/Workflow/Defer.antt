-- ===== src/Workflow/Defer.antt =====
-- `defer_verification_run` of features/project_map/store.py: a run goes back to the queue with a
-- growing delay, and when its retries are used up it fails and blocks its workflow in the same
-- transaction.
pub mod Kept
pub mod Outcome
pub mod Invariants
use bridle.Workflow.Machine.{ModificationState, ModificationEvent, state_eq}
use bridle.Prelude.Json.{Fields, put, Json, str, field, end}
use bridle.Workflow.Store.{
  red, final, Phase, RunRow, Workflow, get_modification_workflow, record_change, EventRow, Store,
  Tx, failed, queued,
}
use bridle.Workflow.Runs.{get_verification_run, written_run, second, is_owned}
use mathlib.Core.Option
use Prim.Native.String.{◌++◌ as text_append, String}
use bridle.Prelude.{
  List, [], ◌∷◌, ◌++◌, none, some, true, false, Option, zero, suc, inl, inr, ℕ, ◌+◌, Bool,
  select_one, if◌then◌else◌, min, update_where, ◌==◌, leb, ◌^◌, ◌-◌, ◌&&◌, rowcount, string_eq, ◌*◌,
  nat_eq, is_none, ◌||◌,
}
use bridle.Errors.{
  ◌>>◌, ◌>>=◌, raise, Result, not_found_error, require, conflict_error, validation_error,
  integrity_error, ok, overflow_error,
}

abbrev pub verifying_state : Phase → ModificationState
verifying_state red = ModificationState.red_verifying
verifying_state final = ModificationState.final_verifying

abbrev phase_text : Phase → Json
phase_text red = str "red"
phase_text final = str "final"

abbrev with_version : Option String → Fields → Fields
with_version none payload = payload
with_version (some v) payload = put payload "test_contract_version" (str v)

abbrev pub exhausted_event_id : String → String
exhausted_event_id run_id = text_append "verification:" (text_append run_id ":retry-exhausted")

abbrev pub exhausted_event : RunRow → String → Workflow → EventRow
exhausted_event run error_code w = record {
  event_id = exhausted_event_id run.run_id;
  node_id = run.node_id;
  event = ModificationEvent.verification_retry_exhausted;
  from_state = some (verifying_state run.phase);
  to_state = ModificationState.verification_blocked;
  revision = w.revision + 1;
  payload = with_version w.test_contract_version (
      field "verification_run_id" (str run.run_id) (
        field "phase" (phase_text run.phase) (
          field "status" (str "blocked") (
            field "error_code" (str error_code)
              (field "terminal_reason" (str "verification_retry_exhausted") end)))));
}

abbrev pub is_at_revision : String → ℕ → Workflow → Bool
is_at_revision node_id revision w = w.node_id == node_id && w.revision == revision

-- `_block_verification_workflow_after_retry_exhaustion`, from the workflow row that it reads.
unfoldable pub block_row : RunRow → String → Option Workflow → Store → Result Store
unfolding record_change select_one update_where rowcount
block_row run error_code none s = raise (conflict_error "verification_workflow_state_conflict")
block_row run error_code (some w) s = do
  require (w.state == verifying_state run.phase)
      (conflict_error "verification_workflow_state_conflict")
  require (rowcount (is_at_revision run.node_id w.revision) s.workflows == 1)
      (conflict_error "modification_revision_conflict")
  require (is_none (select_one (λ e. e.event_id == exhausted_event_id run.run_id) s.events))
      integrity_error
  ok (
      record_change "modification_workflow" run.node_id "transition" (record s {
        workflows =
            update_where (is_at_revision run.node_id w.revision)
              (λ r. record r {
                state = ModificationState.verification_blocked;
                revision = w.revision + 1;
              })
              s.workflows;
        events = exhausted_event run error_code w ∷ s.events;
      }))

unfoldable pub block_workflow : RunRow → String → Store → Result Store
unfolding block_row get_modification_workflow
block_workflow run error_code s =
    block_row run error_code (get_modification_workflow run.node_id s) s

-- `now + min(float(2 ** max(attempt - 1, 0)), 60.0)`
abbrev pub retry_at : ℕ → ℕ → ℕ
retry_at now attempt = now + min (2 ^ (attempt - 1)) 60 * second

abbrev pub is_exhausted : ℕ → RunRow → Bool
is_exhausted limit r = leb limit r.attempt

-- `float(2 ** max(attempt - 1, 0))` is in the range of a float.
abbrev pub is_float_delay : ℕ → Bool
is_float_delay attempt = leb (attempt - 1) 1023

abbrev pub retry_limit : Option ℕ → RunRow → ℕ
retry_limit none r = r.max_attempts
retry_limit (some n) r = n

abbrev pub deferred_run : RunRow → String → ℕ → ℕ → RunRow → RunRow
deferred_run current error now limit r = record r {
  state = if is_exhausted limit current then failed else queued;
  lease_token = none;
  lease_expires_at = none;
  next_retry_at = if is_exhausted limit current then none else some (retry_at now current.attempt);
  max_attempts = limit;
  terminal_reason =
      if is_exhausted limit current then some "verification_retry_exhausted" else none;
  error_code = some error;
}

unfoldable pub defer_row : String → String → String → ℕ → Option ℕ → Option RunRow → Tx RunRow
unfolding block_workflow written_run
defer_row run_id token error now max_attempts none s = raise not_found_error
defer_row run_id token error now max_attempts (some current) s = do
  let limit = retry_limit max_attempts current
  require (leb 1 limit) validation_error
  require (is_exhausted limit current || is_float_delay current.attempt) overflow_error
  require (rowcount (is_owned run_id token) s.runs == 1) (conflict_error "verification_lease_lost")
  let deferred = record s {
    runs = update_where (is_owned run_id token) (deferred_run current error now limit) s.runs;
  }
  s' ← if is_exhausted limit current then block_workflow current error deferred else ok deferred
  written_run run_id s'

unfoldable pub defer_verification_run : String → String → String → ℕ → Option ℕ → Tx RunRow
unfolding defer_row get_verification_run
defer_verification_run run_id token error now max_attempts s =
    defer_row run_id token error now max_attempts (get_verification_run run_id s) s
