-- ===== src/Workflow/History.antt =====
-- Every sequence of calls of features/project_map/store.py that return. A call that raises leaves
-- the store as it was.
pub mod Frames
pub mod Valid
pub mod Final
use bridle.Workflow.Defer.{defer_verification_run}
use bridle.Workflow.Runs.{
  RunRequest, enqueue_verification_run, claim_verification_run, renew_verification_lease,
  complete_verification_run,
}
use bridle.Workflow.Contracts.{ContractReply, freeze_test_contract, invalidate_test_contract}
use bridle.Errors.{ok}
use bridle.Workflow.Transition.{Transition, apply}
use bridle.Prelude.Json.{Fields, Json}
use bridle.Workflow.Machine.{ModificationEvent}
use bridle.Workflow.Store.{Store, RunRow}
use mathlib.Core.Option
use bridle.Prelude.{
  ◌∙◌, List, [], ◌∷◌, ◌++◌, none, some, true, false, Option, zero, suc, inl, inr, refl, String, ℕ,
  ◌≡◌,
}

-- One call that returns. What a caller chooses is free: identifiers, times, tokens, payloads.
pub data Step : Store → Store → Type 0 where
  transition :
      (node_id : String) (event : ModificationEvent) (event_id : String)
      (expected_revision : Option ℕ) (payload : Fields) (s : Store) (r : Store × Transition)
      → apply node_id event event_id expected_revision payload s ≡ ok r
      → Step s r.0
  freeze :
      (version_in content_hash : String → String) (node_id version snapshot : String) (s : Store)
      (r : Store × ContractReply)
      → freeze_test_contract version_in content_hash node_id version snapshot s ≡ ok r
      → Step s r.0
  invalidate :
      (node_id version reason : String) (s : Store) (r : Store × ContractReply)
      → invalidate_test_contract node_id version reason s ≡ ok r
      → Step s r.0
  enqueue :
      (q : RunRequest) (s : Store) (r : Store × RunRow)
      → enqueue_verification_run q s ≡ ok r
      → Step s r.0
  claim :
      (run_id token : String) (now lease_seconds : ℕ) (s : Store) (r : Store × Option RunRow)
      → claim_verification_run run_id token now lease_seconds s ≡ ok r
      → Step s r.0
  renew :
      (run_id token : String) (now lease_seconds : ℕ) (s : Store) (r : Store × RunRow)
      → renew_verification_lease run_id token now lease_seconds s ≡ ok r
      → Step s r.0
  complete :
      (run_id token : String) (outcome : Json) (error_code : Option String) (s : Store)
      (r : Store × RunRow)
      → complete_verification_run run_id token outcome error_code s ≡ ok r
      → Step s r.0
  defer :
      (run_id token error : String) (now : ℕ) (max_attempts : Option ℕ) (s : Store)
      (r : Store × RunRow)
      → defer_verification_run run_id token error now max_attempts s ≡ ok r
      → Step s r.0

pub data Reach (s : Store) : Store → Type 0 where
  here : Reach s s
  next : {t u : Store} → Reach s t → Step t u → Reach s u
