-- ===== src/Workflow/History/Frames.antt =====
-- The tables that each call of features/project_map/store.py leaves alone.
use bridle.Workflow.Runs.Kept.{written_run-inv}
use bridle.Prelude.Json.{Json}
use bridle.Workflow.Store.{
  Store, RunRow, ContractRow, frozen, invalidated, get_test_contract, get_active_test_contract,
  contract_state_eq,
}
use bridle.Workflow.Runs.{
  enqueue_verification_run, claim_verification_run, renew_verification_lease,
  complete_verification_run, RunRequest, written_run, enqueue_existing_or_new, claim_row,
  already_completed, is_same_request, is_owned_at, is_unclaimable, is_owned, get_verification_run,
  is_source_of, is_run, claimed_run, second,
}
use bridle.Workflow.Contracts.{
  invalidate_test_contract, freeze_test_contract, ContractReply, invalidate_row,
  freeze_existing_or_new,
}
use bridle.Errors.{ok, require-eq-ok, ok-injective, >>=-eq-ok}
use bridle.Prelude.{
  none, some, Option, inl, inr, refl, String, ℕ, ◌≡◌, arith, rowcount, Bool-cases, ◌==◌, leb,
  is_none, nat_eq, update_where, select_one, not, string_eq, ◌+◌, ◌*◌,
}

-- Only the table of runs differs.
pub record OnlyRuns (s s' : Store) : Type 0 where
  pub workflows : s'.workflows ≡ s.workflows
  pub events : s'.events ≡ s.events
  pub contracts : s'.contracts ≡ s.contracts

-- Only the tables of contracts and of changes differ.
pub record OnlyContracts (s s' : Store) : Type 0 where
  pub workflows : s'.workflows ≡ s.workflows
  pub events : s'.events ≡ s.events
  pub runs : s'.runs ≡ s.runs

OnlyRuns-self : (s : Store) → OnlyRuns s s
OnlyRuns-self s = record { workflows = refl; events = refl; contracts = refl }

OnlyContracts-self : (s : Store) → OnlyContracts s s
OnlyContracts-self s = record { workflows = refl; events = refl; runs = refl }

written_run-OnlyRuns :
    (run_id : String) (s s₀ : Store) (r : Store × RunRow)
    → OnlyRuns s₀ s
    → written_run run_id s ≡ ok r
    → OnlyRuns s₀ r.0
written_run-OnlyRuns run_id s s₀ r o h = rw (written_run-inv run_id s r h).0 o

pub enqueue-OnlyRuns :
    (q : RunRequest) (s : Store) (r : Store × RunRow)
    → enqueue_verification_run q s ≡ ok r
    → OnlyRuns s r.0
unfolding enqueue_verification_run
enqueue-OnlyRuns q s r h =
    row (select_one (is_source_of q) s.runs) (require-eq-ok (leb 1 q.max_attempts) _ _ h).1
  where
    row : (o : Option RunRow) → enqueue_existing_or_new q o s ≡ ok r → OnlyRuns s r.0
    row (some x) h =
        rw (← ok-injective _ r (require-eq-ok (is_same_request q x) _ _ h).1) (OnlyRuns-self s)
    row none h =
        written_run-OnlyRuns q.run_id _ s r
          (record { workflows = refl; events = refl; contracts = refl })
          (require-eq-ok (is_none (get_verification_run q.run_id s)) _ _ h).1

pub claim-OnlyRuns :
    (run_id token : String) (now n : ℕ) (s : Store) (r : Store × Option RunRow)
    → claim_verification_run run_id token now n s ≡ ok r
    → OnlyRuns s r.0
unfolding claim_verification_run
claim-OnlyRuns run_id token now n s r h = row (get_verification_run run_id s) h
  where
    row : (o : Option RunRow) → claim_row run_id token now n o s ≡ ok r → OnlyRuns s r.0
    row none h = absurd (ground arith)
    row (some x) h = elim (Bool-cases (is_unclaimable now x)) [
      | inl e ↦ rw (← ok-injective _ r (rw e at h)) (OnlyRuns-self s)
      | inr e ↦
          let (w, h₁, h₂) =
            >>=-eq-ok
              (written_run run_id (record s {
                runs = update_where (is_run run_id) (claimed_run token (now + n * second)) s.runs;
              }))
              _ (rw e at h) in
          rw (← ok-injective _ r h₂) (
            written_run-OnlyRuns run_id _ s w
              (record { workflows = refl; events = refl; contracts = refl }) h₁)
    ]

pub renew-OnlyRuns :
    (run_id token : String) (now n : ℕ) (s : Store) (r : Store × RunRow)
    → renew_verification_lease run_id token now n s ≡ ok r
    → OnlyRuns s r.0
unfolding renew_verification_lease
renew-OnlyRuns run_id token now n s r h =
    written_run-OnlyRuns run_id _ s r (record { workflows = refl; events = refl; contracts = refl })
      (require-eq-ok (rowcount (is_owned_at run_id token now) s.runs == 1) _ _
        (require-eq-ok (leb 1 n) _ _ h).1).1

pub complete-OnlyRuns :
    (run_id token : String) (outcome : Json) (e : Option String) (s : Store) (r : Store × RunRow)
    → complete_verification_run run_id token outcome e s ≡ ok r
    → OnlyRuns s r.0
unfolding complete_verification_run
complete-OnlyRuns run_id token outcome e s r h =
    elim (Bool-cases (rowcount (is_owned run_id token) s.runs == 1)) [
      | inl own ↦
          written_run-OnlyRuns run_id _ s r
            (record { workflows = refl; events = refl; contracts = refl }) (rw own at h)
      | inr lost ↦ row (get_verification_run run_id s) (rw lost at h)
    ]
  where
    row : (o : Option RunRow) → already_completed o s ≡ ok r → OnlyRuns s r.0
    row none h = absurd (ground arith)
    row (some x) h = let q : r.0 ≡ s = ground arith in rw q (OnlyRuns-self s)

pub freeze-OnlyContracts :
    (version_in content_hash : String → String) (node_id version snapshot : String) (s : Store)
    (r : Store × ContractReply)
    → freeze_test_contract version_in content_hash node_id version snapshot s ≡ ok r
    → OnlyContracts s r.0
unfolding freeze_test_contract
freeze-OnlyContracts version_in content_hash node_id version snapshot s r h =
    row (get_test_contract node_id version s)
      (require-eq-ok (content_hash snapshot == version) _ _
        (require-eq-ok (version_in snapshot == version) _ _ h).1).1
  where
    row :
        (o : Option ContractRow)
        → freeze_existing_or_new node_id version snapshot o s ≡ ok r
        → OnlyContracts s r.0
    row (some c) h =
        rw
          (← ok-injective _ r
            (require-eq-ok (c.state == frozen) _ _
              (require-eq-ok (c.snapshot == snapshot) _ _ h).1).1)
          (OnlyContracts-self s)
    row none h =
        rw
          (← ok-injective _ r
            (require-eq-ok (is_none (get_active_test_contract node_id s)) _ _ h).1)
          (record { workflows = refl; events = refl; runs = refl })

pub invalidate-OnlyContracts :
    (node_id version reason : String) (s : Store) (r : Store × ContractReply)
    → invalidate_test_contract node_id version reason s ≡ ok r
    → OnlyContracts s r.0
unfolding invalidate_test_contract
invalidate-OnlyContracts node_id version reason s r h =
    row (get_test_contract node_id version s) (require-eq-ok (not (reason == "")) _ _ h).1
  where
    row :
        (o : Option ContractRow)
        → invalidate_row node_id version reason o s ≡ ok r
        → OnlyContracts s r.0
    row none h = absurd (ground arith)
    row (some c) h = elim (Bool-cases (c.state == invalidated)) [
      | inl e ↦ rw (← ok-injective _ r (rw e at h)) (OnlyContracts-self s)
      | inr e ↦
          rw (← ok-injective _ r (rw e at h))
            (record { workflows = refl; events = refl; runs = refl })
    ]
