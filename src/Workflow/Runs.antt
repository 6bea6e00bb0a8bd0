-- ===== src/Workflow/Runs.antt =====
-- The verification runs of features/project_map/store.py: a durable queue with leases and retries.
-- A time is a count of microseconds; a lease token is an argument where the source draws a UUID.
pub mod Sound
pub mod Kept
pub mod Lease
pub mod Claim
pub mod Retry
use bridle.Prelude.Json.{Json}
use bridle.Workflow.Store.{
  Store, Phase, RunRow, Tx, completed, queued, running, failed, phase_eq, run_state_eq,
}
use mathlib.Core.Option
use Prim.Native.String.{◌++◌ as text_append, String}
use bridle.Prelude.{
  List, [], ◌∷◌, ◌++◌, none, some, true, false, Option, zero, suc, inl, inr, ℕ, select_one, Bool,
  ltb, ◌&&◌, if◌then◌else◌, contains, ◌==◌, leb, min, string_eq, ◌+◌, rowcount, ◌||◌, option_eq,
  update_where, ◌*◌, nat_eq, is_none,
}
use bridle.Errors.{
  ◌>>◌, ◌>>=◌, require, Error, raise, assertion_error, conflict_error, not_found_error,
  validation_error, ok, integrity_error,
}

abbrev pub second : ℕ
second = 1_000_000

abbrev pub is_run : String → RunRow → Bool
is_run run_id r = r.run_id == run_id

-- `get_verification_run`
unfoldable pub get_verification_run : String → Store → Option RunRow
get_verification_run run_id s = select_one (is_run run_id) s.runs

-- `SELECT * … WHERE run_id = ?` after a write, with its `assert row is not None`.
unfoldable pub written_run : String → Tx RunRow
unfolding get_verification_run
written_run run_id s = elim (get_verification_run run_id s) [
  | none ↦ raise assertion_error
  | some r ↦ ok (s, r)
]

-- The arguments of `enqueue_verification_run`.
pub record RunRequest : Type 0 where
  pub run_id : String
  pub node_id : String
  pub phase : Phase
  pub source_revision : ℕ
  pub contract_version : String
  pub candidate_id : Option String
  pub max_attempts : ℕ

abbrev pub is_source_of : RunRequest → RunRow → Bool
is_source_of q r =
    r.node_id == q.node_id
    && r.phase == q.phase
    && r.source_revision == q.source_revision
    && r.contract_version == q.contract_version

abbrev pub is_same_request : RunRequest → RunRow → Bool
is_same_request q r =
    r.run_id == q.run_id
    && r.contract_version == q.contract_version
    && r.candidate_id == q.candidate_id
    && r.max_attempts == q.max_attempts

abbrev pub queued_run : RunRequest → RunRow
queued_run q = record {
  run_id = q.run_id;
  node_id = q.node_id;
  phase = q.phase;
  source_revision = q.source_revision;
  contract_version = q.contract_version;
  candidate_id = q.candidate_id;
  state = queued;
  attempt = 0;
  next_retry_at = none;
  max_attempts = q.max_attempts;
  terminal_reason = none;
  lease_token = none;
  lease_expires_at = none;
  outcome = none;
  error_code = none;
}

-- The source of a run is in the table already: the same request is answered, any other refused. A
-- new one is inserted, under a run id that no other run has.
unfoldable pub enqueue_existing_or_new : RunRequest → Option RunRow → Tx RunRow
unfolding written_run get_verification_run
enqueue_existing_or_new q (some existing) s = do
  require (is_same_request q existing) (conflict_error "verification_run_conflict")
  ok (s, existing)
enqueue_existing_or_new q none s = do
  require (is_none (get_verification_run q.run_id s)) integrity_error
  written_run q.run_id (record s { runs = s.runs ++ queued_run q ∷ [] })

unfoldable pub enqueue_verification_run : RunRequest → Tx RunRow
unfolding enqueue_existing_or_new select_one
enqueue_verification_run q s = do
  require (leb 1 q.max_attempts) validation_error
  enqueue_existing_or_new q (select_one (is_source_of q) s.runs) s

-- `value is not None and value > now`
abbrev pub is_after : ℕ → Option ℕ → Bool
is_after now none = false
is_after now (some t) = ltb now t

abbrev pub is_unclaimable : ℕ → RunRow → Bool
is_unclaimable now r =
    contains (completed ∷ failed ∷ []) r.state
    || r.state == running && is_after now r.lease_expires_at
    || r.state == queued && is_after now r.next_retry_at

abbrev pub claimed_run : String → ℕ → RunRow → RunRow
claimed_run token expires r = record r {
  state = running;
  attempt = r.attempt + 1;
  lease_token = some token;
  lease_expires_at = some expires;
  error_code = none;
  next_retry_at = none;
  terminal_reason = none;
}

unfoldable pub claim_row : String → String → ℕ → ℕ → Option RunRow → Tx (Option RunRow)
unfolding written_run
claim_row run_id token now lease_seconds none s = raise not_found_error
claim_row run_id token now lease_seconds (some current) s =
    if is_unclaimable now current then ok (s, none) else do
      (s', r) ← written_run run_id (record s {
        runs =
            update_where (is_run run_id) (claimed_run token (now + lease_seconds * second)) s.runs;
      })
      ok (s', some r)

unfoldable pub claim_verification_run : String → String → ℕ → ℕ → Tx (Option RunRow)
unfolding claim_row get_verification_run
claim_verification_run run_id token now lease_seconds s =
    claim_row run_id token now lease_seconds (get_verification_run run_id s) s

-- `state = 'running' AND lease_token = ?`
abbrev pub is_owned : String → String → RunRow → Bool
is_owned run_id token r = r.run_id == run_id && r.state == running && r.lease_token == some token

abbrev pub is_owned_at : String → String → ℕ → RunRow → Bool
is_owned_at run_id token now r = is_owned run_id token r && is_after now r.lease_expires_at

-- The refusal of `renew_verification_lease`.
unfoldable pub lost_lease : Option RunRow → Error
lost_lease none = not_found_error
lost_lease (some _) = conflict_error "verification_lease_lost"

unfoldable pub renew_verification_lease : String → String → ℕ → ℕ → Tx RunRow
unfolding written_run lost_lease get_verification_run
renew_verification_lease run_id token now lease_seconds s = do
  require (leb 1 lease_seconds) validation_error
  require (rowcount (is_owned_at run_id token now) s.runs == 1)
      (lost_lease (get_verification_run run_id s))
  written_run run_id (record s {
    runs =
        update_where (is_owned_at run_id token now)
          (λ r. record r { lease_expires_at = some (now + lease_seconds * second) }) s.runs;
  })

abbrev pub completed_run : Json → Option String → RunRow → RunRow
completed_run outcome error_code r = record r {
  state = completed;
  outcome = some outcome;
  error_code = error_code;
  lease_token = none;
  lease_expires_at = none;
}

-- No row was written: a run that is completed already is answered.
unfoldable pub already_completed : Option RunRow → Tx RunRow
already_completed none s = raise (conflict_error "verification_lease_lost")
already_completed (some r) s =
    if r.state == completed then ok (s, r) else raise (conflict_error "verification_lease_lost")

unfoldable pub complete_verification_run : String → String → Json → Option String → Tx RunRow
unfolding written_run already_completed get_verification_run
complete_verification_run run_id token outcome error_code s =
    if rowcount (is_owned run_id token) s.runs == 1
    then written_run run_id (record s {
      runs = update_where (is_owned run_id token) (completed_run outcome error_code) s.runs;
    })
    else already_completed (get_verification_run run_id s) s

-- `next_verification_retry_at`
unfoldable pub next_retry : List RunRow → Option ℕ
next_retry [] = none
next_retry (r ∷ rs) = elim (if r.state == queued then r.next_retry_at else none) [
  | none ↦ next_retry rs
  | some t ↦ elim (next_retry rs) [ none ↦ some t | some u ↦ some (min t u) ]
]

unfoldable pub next_verification_retry_at : Store → Option ℕ
unfolding next_retry
next_verification_retry_at s = next_retry s.runs
