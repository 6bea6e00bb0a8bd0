-- ===== src/Workflow/Runs/Lease.antt =====
-- The calls of features/project_map/store.py that need a lease on a verification run, with another
-- token.
use bridle.Prelude.Json.{Json}
use bridle.Workflow.Defer.{defer_verification_run, retry_limit}
use bridle.Workflow.Runs.{
  get_verification_run, is_owned, complete_verification_run, is_owned_at, is_run,
  renew_verification_lease, lost_lease, already_completed,
}
use bridle.Workflow.Runs.Kept.{IsQueue}
use bridle.Workflow.Store.{Store, RunRow, completed}
use mathlib.Core.Option.{some-injective}
use mathlib.Core.Bool.{true≢false}
use bridle.Errors.{raise, conflict_error}
use bridle.Prelude.{
  ◌∙◌, List, [], ◌∷◌, some, true, false, Option, inl, inr, refl, rowcount, String, Bool, ◌≡◌, ◌≤◌,
  ◌≢◌, ℕ, select_one, rowcount-tail-le, select_one-tail, arith, Bool-cases, sym, nat_eq,
}

-- No row that the key selects passes the test, so no row passes it.
rowcount_none :
    (key p : RunRow → Bool) (rs : List RunRow)
    → ((r : RunRow) → p r ≡ true → key r ≡ true)
    → rowcount key rs ≤ 1
    → ((r : RunRow) → select_one key rs ≡ some r → p r ≡ false)
    → rowcount p rs ≡ 0
unfolding rowcount
rowcount_none key p [] keyed one no_row = refl
rowcount_none key p (x ∷ rs) keyed one no_row =
    let rest =
      rowcount_none key p rs keyed (rowcount-tail-le key x rs one)
        (λ r h. no_row r (select_one-tail key x rs r one h)) in
    elim (Bool-cases (p x)) [
      | inl e ↦ absurd (true≢false (sym e ∙ no_row x (unfold select_one in rw (keyed x e))))
      | inr e ↦ rw e rest
    ]

module _ (run_id : String) (s : Store) (c : RunRow) (q : IsQueue s.runs)
    (row : get_verification_run run_id s ≡ some c) where
  module _ (token : String) (other : c.lease_token ≢ some token) where
    not_owned : rowcount (is_owned run_id token) s.runs ≡ 0
    unfolding get_verification_run
    not_owned =
        rowcount_none (is_run run_id) (is_owned run_id token) s.runs (λ r h. ground arith)
          (q.keyed run_id) (λ r h. let e : r ≡ c = some-injective r c (sym h ∙ row) in ground arith)

    not_owned_at : (now : ℕ) → rowcount (is_owned_at run_id token now) s.runs ≡ 0
    unfolding get_verification_run
    not_owned_at now =
        rowcount_none (is_run run_id) (is_owned_at run_id token now) s.runs (λ r h. ground arith)
          (q.keyed run_id) (λ r h. let e : r ≡ c = some-injective r c (sym h ∙ row) in ground arith)

    -- In a sound queue a caller whose token is not the one on a run that is not completed can
    -- neither complete, renew nor defer it, with a positive lease, a positive limit and at most
    -- 1024 attempts: each call raises the loss of the lease, and so writes nothing.
    pub stale_token_refused :
        (outcome : Json) (error_code : Option String) (error : String) (now lease_seconds : ℕ)
        (max_attempts : Option ℕ)
        → c.state ≢ completed
        → 1 ≤ lease_seconds
        → 1 ≤ retry_limit max_attempts c
        → c.attempt ≤ 1024
        → (complete_verification_run run_id token outcome error_code s
            ≡ raise (conflict_error "verification_lease_lost"))
          × (renew_verification_lease run_id token now lease_seconds s
              ≡ raise (conflict_error "verification_lease_lost"))
          × (defer_verification_run run_id token error now max_attempts s
              ≡ raise (conflict_error "verification_lease_lost"))
    unfolding complete_verification_run renew_verification_lease defer_verification_run lost_lease
        already_completed
    stale_token_refused outcome error_code error now n m open_run long limit few = (
      rw not_owned (rw row (unfold nat_eq in ground arith)),
      rw (not_owned_at now) (rw row (unfold nat_eq in ground arith)),
      rw row (rw not_owned (unfold nat_eq in ground arith)),
    )
