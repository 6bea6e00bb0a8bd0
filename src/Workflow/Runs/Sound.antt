-- ===== src/Workflow/Runs/Sound.antt =====
-- The invariant of a row of `verification_runs` of features/project_map/store.py.
use bridle.Workflow.Runs.{RunRequest, is_owned_at, claimed_run, is_owned, queued_run, completed_run}
use bridle.Prelude.Json.{Json}
use bridle.Workflow.Store.{RunRow, running, queued, failed}
use bridle.Prelude.{none, some, true, Option, String, ℕ, ◌≤◌, ◌≡◌, arith, ◌≢◌, ◌<◌, ◌↔◌}

-- A running run has a lease with its token and its deadline; no other run has either. A queued run
-- has attempts left. A retry is due only for a queued run, and only a failed one has a reason.
pub record IsSound (r : RunRow) : Type 0 where
  pub limited : 1 ≤ r.max_attempts
  pub leased : r.state ≡ running → (r.lease_token ≢ none) × (r.lease_expires_at ≢ none)
  pub free : r.state ≢ running → (r.lease_token ≡ none) × (r.lease_expires_at ≡ none)
  pub retryable : r.state ≡ queued → r.attempt < r.max_attempts
  pub waiting : r.next_retry_at ≢ none → r.state ≡ queued
  pub exhausted : r.state ≡ failed → r.max_attempts ≤ r.attempt
  pub reasoned : (r.terminal_reason ≢ none) ↔ (r.state ≡ failed)

pub queued-IsSound : (q : RunRequest) → 1 ≤ q.max_attempts → IsSound (queued_run q)
queued-IsSound q h = ground arith

pub claimed-IsSound :
    (token : String) (expires : ℕ) (r : RunRow) → IsSound r → IsSound (claimed_run token expires r)
claimed-IsSound token expires r h = ground arith

pub renewed-IsSound :
    (run_id token : String) (now : ℕ) (expires : ℕ) (r : RunRow)
    → is_owned_at run_id token now r ≡ true
    → IsSound r
    → IsSound (record r { lease_expires_at = some expires })
renewed-IsSound run_id token now expires r own h = ground arith

pub completed-IsSound :
    (run_id token : String) (outcome : Json) (error_code : Option String) (r : RunRow)
    → is_owned run_id token r ≡ true
    → IsSound r
    → IsSound (completed_run outcome error_code r)
completed-IsSound run_id token outcome error_code r own h = ground arith
