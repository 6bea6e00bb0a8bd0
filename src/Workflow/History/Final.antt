-- ===== src/Workflow/History/Final.antt =====
-- The verification runs of features/project_map/store.py that are completed or failed.
use bridle.Workflow.History.Frames.{freeze-OnlyContracts, invalidate-OnlyContracts}
use bridle.Workflow.Defer.Outcome.{deferred_store, Blocked-by}
use bridle.Workflow.History.Valid.{runs-apply}
use bridle.Workflow.Runs.Kept.{written_run-inv}
use bridle.Prelude.Json.{Json}
use bridle.Workflow.Defer.Kept.{defer-Deferred}
use bridle.Workflow.Defer.{defer_verification_run, deferred_run, retry_limit, is_exhausted}
use mathlib.Core.Path.{subst}
use bridle.Workflow.History.{
  Step, Reach, here, next, transition, freeze, invalidate, enqueue, claim, renew, complete, defer,
}
use bridle.Workflow.Store.{completed, failed, Store, RunRow, run_state_eq}
use bridle.Workflow.Runs.{
  claim_row, renew_verification_lease, enqueue_verification_run, get_verification_run,
  complete_verification_run, written_run, already_completed, claim_verification_run, is_owned_at,
  is_run, is_owned, is_unclaimable, completed_run, claimed_run, second, enqueue_existing_or_new,
  is_same_request, queued_run, RunRequest,
}
use mathlib.Core.Option.{some-injective}
use bridle.Errors.{ok, require-eq-ok, ok-injective, >>=-eq-ok}
use bridle.Prelude.{
  ◌∙◌, List, [], ◌∷◌, none, some, true, false, Option, inl, inr, refl, Bool, ℕ, String, select_one,
  contains, ◌≡◌, rowcount, arith, update_where, ◌==◌, ap, Bool-cases, select_one-update_where, leb,
  eq-of-==, nat_eq, select_one_sound, ◌+◌, sym, ◌*◌, string_eq, is_none, select_one-append,
}

abbrev pub is_final : RunRow → Bool
is_final r = contains (completed ∷ failed ∷ []) r.state

abbrev pub KeepsFinal : List RunRow → List RunRow → Type 0
KeepsFinal rs rs' =
    (run_id : String) (r : RunRow)
    → select_one (is_run run_id) rs ≡ some r
    → is_final r ≡ true
    → select_one (is_run run_id) rs' ≡ some r

same_runs : (rs rs' : List RunRow) → rs' ≡ rs → KeepsFinal rs rs'
same_runs rs rs' e id r at f = rw e at

-- An update that keeps the ids and writes no final row.
update-KeepsFinal :
    (p : RunRow → Bool) (f : RunRow → RunRow) (rs : List RunRow)
    → ((r : RunRow) → (f r).run_id ≡ r.run_id)
    → ((run_id : String) (r : RunRow)
        → select_one (is_run run_id) rs ≡ some r
        → is_final r ≡ true
        → p r ≡ false)
    → KeepsFinal rs (update_where p f rs)
update-KeepsFinal p f rs keys spared id r at final =
    rw (select_one-update_where (is_run id) p f rs (λ x _. rw (keys x) refl))
      (rw at (rw (spared id r at final) refl))

owned-spared :
    (run_id token : String) (r : RunRow) → is_final r ≡ true → is_owned run_id token r ≡ false
owned-spared run_id token r h = ground arith

owned_at-spared :
    (run_id token : String) (now : ℕ) (r : RunRow)
    → is_final r ≡ true
    → is_owned_at run_id token now r ≡ false
owned_at-spared run_id token now r h = ground arith

written-KeepsFinal :
    (run_id : String) (rs : List RunRow) (s : Store) (r : Store × RunRow)
    → written_run run_id s ≡ ok r
    → KeepsFinal rs s.runs
    → KeepsFinal rs r.0.runs
written-KeepsFinal run_id rs s r h k = rw (written_run-inv run_id s r h).0 k

enqueue_row-KeepsFinal :
    (q : RunRequest) (o : Option RunRow) (s : Store) (r : Store × RunRow)
    → enqueue_existing_or_new q o s ≡ ok r
    → KeepsFinal s.runs r.0.runs
unfolding enqueue_existing_or_new
enqueue_row-KeepsFinal q (some x) s r h =
    rw (← ok-injective _ r (require-eq-ok (is_same_request q x) _ _ h).1)
      (same_runs s.runs s.runs refl)
enqueue_row-KeepsFinal q none s r h =
    let (_, h') = require-eq-ok (is_none (get_verification_run q.run_id s)) _ _ h in
    written-KeepsFinal q.run_id s.runs _ r h'
      (λ id x at final. rw (select_one-append (is_run id) s.runs (queued_run q)) (rw at refl))

-- The run that is claimed is not final, so no final row has its id.
unclaimable-spared :
    (run_id : String) (now : ℕ) (rs : List RunRow) (x : RunRow)
    → select_one (is_run run_id) rs ≡ some x
    → is_unclaimable now x ≡ false
    → (id : String) (y : RunRow) → select_one (is_run id) rs ≡ some y
    → is_final y ≡ true
    → is_run run_id y ≡ false
unclaimable-spared run_id now rs x at free id y sel final = elim (Bool-cases (is_run run_id y)) [
  | inr e ↦ e
  | inl e ↦
      let mine : y.run_id ≡ run_id = eq-of-== y.run_id run_id e in
      let its : y.run_id ≡ id = eq-of-== y.run_id id (select_one_sound (is_run id) rs y sel) in
      let sel' : select_one (is_run run_id) rs ≡ some y =
        subst (λ i. select_one (is_run i) rs ≡ some y) (sym its ∙ mine) sel in
      let same : y ≡ x = some-injective y x (sym sel' ∙ at) in absurd (ground arith)
]

claim_row-KeepsFinal :
    (run_id token : String) (now n : ℕ) (o : Option RunRow) (s : Store) (r : Store × Option RunRow)
    → select_one (is_run run_id) s.runs ≡ o
    → claim_row run_id token now n o s ≡ ok r
    → KeepsFinal s.runs r.0.runs
unfolding claim_row
claim_row-KeepsFinal run_id token now n none s r at h = absurd (ground arith)
claim_row-KeepsFinal run_id token now n (some x) s r at h =
    elim (Bool-cases (is_unclaimable now x)) [
      | inl e ↦ rw (← ok-injective _ r (rw e at h)) (same_runs s.runs s.runs refl)
      | inr e ↦
          let (w, h₁, h₂) =
            >>=-eq-ok
              (written_run run_id (record s {
                runs = update_where (is_run run_id) (claimed_run token (now + n * second)) s.runs;
              }))
              _ (rw e at h) in
          rw (← ok-injective _ r h₂) (
            written-KeepsFinal run_id s.runs _ w h₁ (
              update-KeepsFinal (is_run run_id) (claimed_run token (now + n * second)) s.runs
                (λ y. refl)
                (λ id y sel final. unclaimable-spared run_id now s.runs x at e id y sel final)))
    ]

renew-KeepsFinal :
    (run_id token : String) (now n : ℕ) (s : Store) (r : Store × RunRow)
    → renew_verification_lease run_id token now n s ≡ ok r
    → KeepsFinal s.runs r.0.runs
unfolding renew_verification_lease
renew-KeepsFinal run_id token now n s r h =
    let h' =
      (require-eq-ok (rowcount (is_owned_at run_id token now) s.runs == 1) _ _
        (require-eq-ok (leb 1 n) _ _ h).1).1 in
    written-KeepsFinal run_id s.runs _ r h' (
      update-KeepsFinal (is_owned_at run_id token now)
        (λ x. record x { lease_expires_at = some (now + n * second) }) s.runs (λ y. refl)
        (λ id y sel final. owned_at-spared run_id token now y final))

complete-KeepsFinal :
    (run_id token : String) (outcome : Json) (error_code : Option String) (s : Store)
    (r : Store × RunRow)
    → complete_verification_run run_id token outcome error_code s ≡ ok r
    → KeepsFinal s.runs r.0.runs
unfolding complete_verification_run already_completed
complete-KeepsFinal run_id token outcome error_code s r h =
    elim (Bool-cases (rowcount (is_owned run_id token) s.runs == 1)) [
      | inl own ↦ written-KeepsFinal run_id s.runs _ r (rw own at h) (
          update-KeepsFinal (is_owned run_id token) (completed_run outcome error_code) s.runs
            (λ y. refl) (λ id y sel final. owned-spared run_id token y final))
      | inr lost ↦ answered (get_verification_run run_id s) (rw lost at h)
    ]
  where
    answered : (o : Option RunRow) → already_completed o s ≡ ok r → KeepsFinal s.runs r.0.runs
    answered none q = absurd (ground arith)
    answered (some x) q =
        let e : r.0 ≡ s = ground arith in same_runs s.runs r.0.runs (ap (λ y. y.runs) e)

defer-KeepsFinal :
    (run_id token error : String) (now : ℕ) (max_attempts : Option ℕ) (s : Store)
    (r : Store × RunRow)
    → defer_verification_run run_id token error now max_attempts s ≡ ok r
    → KeepsFinal s.runs r.0.runs
defer-KeepsFinal run_id token error now max_attempts s r h =
    let d = defer-Deferred run_id token error now max_attempts s r h in
    let m : KeepsFinal s.runs
        (deferred_store run_id token error now max_attempts d.current s).runs =
      update-KeepsFinal (is_owned run_id token)
        (deferred_run d.current error now (retry_limit max_attempts d.current)) s.runs (λ y. refl)
        (λ id y sel final. owned-spared run_id token y final) in
    elim (Bool-cases (is_exhausted (retry_limit max_attempts d.current) d.current)) [
      | inr e ↦ rw (← ok-injective _ r.0 (rw e at d.ended)) m
      | inl e ↦ let (w, row, b) = Blocked-by d.current error _ r.0 (rw e at d.ended) in rw b.runs m
    ]

Step-KeepsFinal : {s s' : Store} → Step s s' → KeepsFinal s.runs s'.runs
unfolding enqueue_verification_run claim_verification_run get_verification_run
Step-KeepsFinal (transition node_id event event_id expected_revision payload s r h) =
    same_runs s.runs r.0.runs (runs-apply node_id event event_id expected_revision payload s r h)
Step-KeepsFinal (freeze version_in content_hash node_id version snapshot s r h) =
    same_runs s.runs r.0.runs
      (freeze-OnlyContracts version_in content_hash node_id version snapshot s r h).runs
Step-KeepsFinal (invalidate node_id version reason s r h) =
    same_runs s.runs r.0.runs (invalidate-OnlyContracts node_id version reason s r h).runs
Step-KeepsFinal (enqueue q s r h) =
    enqueue_row-KeepsFinal q _ s r (require-eq-ok (leb 1 q.max_attempts) _ _ h).1
Step-KeepsFinal (claim run_id token now n s r h) =
    claim_row-KeepsFinal run_id token now n _ s r refl h
Step-KeepsFinal (renew run_id token now n s r h) = renew-KeepsFinal run_id token now n s r h
Step-KeepsFinal (complete run_id token outcome e s r h) =
    complete-KeepsFinal run_id token outcome e s r h
Step-KeepsFinal (defer run_id token error now max_attempts s r h) =
    defer-KeepsFinal run_id token error now max_attempts s r h

-- Whatever calls are made, a verification run that is completed or failed keeps its row, its
-- outcome included.
pub Reach-KeepsFinal :
    {s s' : Store} (run_id : String) (r : RunRow)
    → Reach s s'
    → get_verification_run run_id s ≡ some r
    → is_final r ≡ true
    → get_verification_run run_id s' ≡ some r
unfolding get_verification_run
Reach-KeepsFinal run_id r here at final = at
Reach-KeepsFinal run_id r (next calls step) at final =
    Step-KeepsFinal step run_id r (Reach-KeepsFinal run_id r calls at final) final
