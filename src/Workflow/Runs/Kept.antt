-- ===== src/Workflow/Runs/Kept.antt =====
-- The table of verification runs of features/project_map/store.py and the operations on it.
use bridle.Workflow.Runs.Sound.{
  IsSound, completed-IsSound, claimed-IsSound, renewed-IsSound, queued-IsSound,
}
use bridle.Prelude.Json.{Json}
use bridle.Workflow.Store.{Store, RunRow}
use bridle.Workflow.Runs.{
  complete_verification_run, claim_verification_run, already_completed, claim_row, written_run,
  RunRequest, renew_verification_lease, enqueue_verification_run, enqueue_existing_or_new,
  get_verification_run, is_run, is_owned, is_unclaimable, is_owned_at, is_same_request, claimed_run,
  completed_run, second, queued_run,
}
use bridle.Errors.{ok, raise, require-eq-ok, ok-injective, assertion_error, >>=-eq-ok}
use bridle.Prelude.{
  List, none, some, true, Option, inl, inr, refl, String, ◌≡◌, rowcount, ℕ, Bool, Bool-cases, arith,
  ◌≤◌, All, leb, update_where, ◌==◌, rowcount-update_where-le, leb-le, ◌+◌, is_none,
  All-update_where, ◌*◌, rowcount-append, nat_eq, rowcount-select_one-none, All-append,
}

pub record IsQueue (rs : List RunRow) : Type 0 where
  pub keyed : (run_id : String) → rowcount (is_run run_id) rs ≤ 1
  pub sound : All IsSound rs

-- What the last read of an operation returns.
pub written_run-inv :
    (run_id : String) (s : Store) (r : Store × RunRow)
    → written_run run_id s ≡ ok r
    → (r.0 ≡ s) × (get_verification_run run_id s ≡ some r.1)
unfolding written_run
written_run-inv run_id s r h = found (get_verification_run run_id s) refl h
  where
    found :
        (o : Option RunRow)
        → get_verification_run run_id s ≡ o
        → (elim o [ none ↦ raise assertion_error | some r ↦ ok (s, r) ]) ≡ ok r
        → (r.0 ≡ s) × (get_verification_run run_id s ≡ some r.1)
    found none e q = absurd (ground arith)
    found (some x) e q = ground arith

pub written_run-IsQueue :
    (run_id : String) (s : Store) (r : Store × RunRow)
    → written_run run_id s ≡ ok r
    → IsQueue s.runs
    → IsQueue r.0.runs
written_run-IsQueue run_id s r h q = rw (written_run-inv run_id s r h).0 q

-- An update that writes only owned rows and keeps their ids.
update-IsQueue :
    (p : RunRow → Bool) (f : RunRow → RunRow) (rs : List RunRow)
    → ((run_id : String) (r : RunRow) → is_run run_id (f r) ≡ true → is_run run_id r ≡ true)
    → ((r : RunRow) → p r ≡ true → IsSound r → IsSound (f r))
    → IsQueue rs
    → IsQueue (update_where p f rs)
update-IsQueue p f rs ids keep q = record {
  keyed = λ run_id.
      omega (arith, q.keyed run_id, rowcount-update_where-le (is_run run_id) p f rs (ids run_id));
  sound = All-update_where IsSound p f rs keep q.sound;
}

module _ (q : RunRequest) where
  enqueue_row-IsQueue :
      (o : Option RunRow) (s : Store) (r : Store × RunRow)
      → enqueue_existing_or_new q o s ≡ ok r
      → 1 ≤ q.max_attempts
      → IsQueue s.runs
      → IsQueue r.0.runs
  unfolding enqueue_existing_or_new get_verification_run
  enqueue_row-IsQueue (some x) s r h m k =
      rw (← ok-injective _ r (require-eq-ok (is_same_request q x) _ _ h).1) k
  enqueue_row-IsQueue none s r h m k =
      let (new, h') = require-eq-ok (is_none (get_verification_run q.run_id s)) _ _ h in
      written_run-IsQueue q.run_id _ r h' (record {
        keyed = λ id. ground (
          arith,
          k.keyed id,
          rowcount-append (is_run id) s.runs (queued_run q),
          rowcount-select_one-none (is_run q.run_id) s.runs,
        );
        sound = All-append IsSound s.runs (queued_run q) k.sound (queued-IsSound q m);
      })

  pub enqueue-IsQueue :
      (s : Store) (r : Store × RunRow)
      → enqueue_verification_run q s ≡ ok r
      → IsQueue s.runs
      → IsQueue r.0.runs
  unfolding enqueue_verification_run
  enqueue-IsQueue s r h =
      let (m, h') = require-eq-ok (leb 1 q.max_attempts) _ _ h in
      enqueue_row-IsQueue _ s r h' (leb-le 1 q.max_attempts m)

module _ (run_id token : String) where
  claim_row-IsQueue :
      (now lease_seconds : ℕ) (o : Option RunRow) (s : Store) (r : Store × Option RunRow)
      → claim_row run_id token now lease_seconds o s ≡ ok r
      → IsQueue s.runs
      → IsQueue r.0.runs
  unfolding claim_row
  claim_row-IsQueue now n none s r h k = absurd (ground arith)
  claim_row-IsQueue now n (some x) s r h k = elim (Bool-cases (is_unclaimable now x)) [
    | inl e ↦ rw (← ok-injective _ r (rw e at h)) k
    | inr e ↦
        let (w, h₁, h₂) =
          >>=-eq-ok
            (written_run run_id (record s {
              runs = update_where (is_run run_id) (claimed_run token (now + n * second)) s.runs;
            }))
            _ (rw e at h) in
        rw (← ok-injective _ r h₂) (
          written_run-IsQueue run_id _ w h₁ (
            update-IsQueue (is_run run_id) (claimed_run token (now + n * second)) s.runs
              (λ id x p. p) (λ x _ sound. claimed-IsSound token _ x sound) k))
  ]

  pub claim-IsQueue :
      (now lease_seconds : ℕ) (s : Store) (r : Store × Option RunRow)
      → claim_verification_run run_id token now lease_seconds s ≡ ok r
      → IsQueue s.runs
      → IsQueue r.0.runs
  unfolding claim_verification_run
  claim-IsQueue now n s r h = claim_row-IsQueue now n _ s r h

  pub renew-IsQueue :
      (now lease_seconds : ℕ) (s : Store) (r : Store × RunRow)
      → renew_verification_lease run_id token now lease_seconds s ≡ ok r
      → IsQueue s.runs
      → IsQueue r.0.runs
  unfolding renew_verification_lease
  renew-IsQueue now n s r h k =
      let h' =
        (require-eq-ok (rowcount (is_owned_at run_id token now) s.runs == 1) _ _
          (require-eq-ok (leb 1 n) _ _ h).1).1 in
      written_run-IsQueue run_id _ r h' (
        update-IsQueue (is_owned_at run_id token now)
          (λ x. record x { lease_expires_at = some (now + n * second) }) s.runs (λ id x p. p)
          (λ x own sound. renewed-IsSound run_id token now _ x own sound) k)

  completed_row-IsQueue :
      (o : Option RunRow) (s : Store) (r : Store × RunRow)
      → already_completed o s ≡ ok r
      → IsQueue s.runs
      → IsQueue r.0.runs
  unfolding already_completed
  completed_row-IsQueue none s r h k = absurd (ground arith)
  completed_row-IsQueue (some x) s r h k = let e : r.0 ≡ s = ground arith in rw e k

  pub complete-IsQueue :
      (outcome : Json) (error_code : Option String) (s : Store) (r : Store × RunRow)
      → complete_verification_run run_id token outcome error_code s ≡ ok r
      → IsQueue s.runs
      → IsQueue r.0.runs
  unfolding complete_verification_run
  complete-IsQueue outcome e s r h k =
      elim (Bool-cases (rowcount (is_owned run_id token) s.runs == 1)) [
        | inl own ↦ written_run-IsQueue run_id _ r (rw own at h) (
            update-IsQueue (is_owned run_id token) (completed_run outcome e) s.runs (λ id x p. p)
              (λ x own sound. completed-IsSound run_id token outcome e x own sound) k)
        | inr lost ↦ completed_row-IsQueue (get_verification_run run_id s) s r (rw lost at h) k
      ]
