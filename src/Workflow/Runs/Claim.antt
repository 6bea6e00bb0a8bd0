-- ===== src/Workflow/Runs/Claim.antt =====
-- `claim_verification_run` of features/project_map/store.py, and a second claim of the same run.
use bridle.Workflow.Store.{Store, RunRow, run_state_eq}
use bridle.Errors.{ok}
use bridle.Workflow.Runs.{
  claim_row, get_verification_run, claim_verification_run, claimed_run, is_unclaimable, is_run,
  written_run, is_owned_at, second,
}
use bridle.Prelude.{
  ◌∙◌, none, some, false, Option, inl, inr, refl, ℕ, String, ◌≡◌, update_where, ◌+◌, ◌*◌, ltb,
  select_one-update_where, select_one_sound, arith, if◌then◌else◌, Bool-cases, eq_self,
}

module _ (run_id token : String) (now lease_seconds : ℕ) (s : Store) (c : RunRow)
    (row : get_verification_run run_id s ≡ some c) where
  abbrev claimed_store : Store
  claimed_store = record s {
    runs = update_where (is_run run_id) (claimed_run token (now + lease_seconds * second)) s.runs;
  }

  claimed_row :
      get_verification_run run_id claimed_store
      ≡ some (claimed_run token (now + lease_seconds * second) c)
  unfolding get_verification_run
  claimed_row =
      rw
        (select_one-update_where (is_run run_id) (is_run run_id)
          (claimed_run token (now + lease_seconds * second)) s.runs (λ r _. refl))
        (rw row (rw (select_one_sound (is_run run_id) s.runs c row) refl))

  claim_free :
      is_unclaimable now c ≡ false
      → claim_verification_run run_id token now lease_seconds s
        ≡ ok (claimed_store, some (claimed_run token (now + lease_seconds * second) c))
  unfolding claim_verification_run written_run
  claim_free free = rw (row, claim_row) (rw free (rw (claimed_row, written_run) refl))

  abbrev claimed : RunRow
  claimed = claimed_run token (now + lease_seconds * second) c

  claimed-is_owned :
      (now' : ℕ) → is_owned_at run_id token now' claimed ≡ ltb now' (now + lease_seconds * second)
  unfolding get_verification_run run_state_eq
  claimed-is_owned now' =
      rw (select_one_sound (is_run run_id) s.runs c row)
        (rw (eq_self {A = Option String} (some token)) refl)

  claimed-is_unclaimable :
      (now' : ℕ) → is_unclaimable now' claimed ≡ ltb now' (now + lease_seconds * second)
  claimed-is_unclaimable now' = ground arith

-- A verification run that can be claimed is claimed: the attempt counts, and the caller's token
-- owns the run until the deadline. Until then a further claim, by whatever token, is answered by
-- `None` and changes nothing; from then on it is granted and counts as the next attempt.
pub claim-exclusive :
    (run_id token : String) (now lease_seconds : ℕ) (s : Store) (c : RunRow) (token' : String)
    (now' lease_seconds' : ℕ)
    → get_verification_run run_id s ≡ some c
    → is_unclaimable now c ≡ false
    → (s' : Store) × (s'' : Store) × (first : RunRow) × (second_claim : RunRow)
      × (claim_verification_run run_id token now lease_seconds s ≡ ok (s', some first))
      × (first.attempt ≡ c.attempt + 1)
      × (is_owned_at run_id token now' first ≡ ltb now' (now + lease_seconds * second))
      × (claim_verification_run run_id token' now' lease_seconds' s' ≡ (
          if ltb now' (now + lease_seconds * second)
          then ok (s', none)
          else ok (s'', some second_claim)))
      × (second_claim.attempt ≡ c.attempt + 2)
unfolding claim_verification_run
claim-exclusive run_id token now lease_seconds s c token' now' lease_seconds' row free =
    let s' = claimed_store run_id token now lease_seconds s c row in
    let first = claimed run_id token now lease_seconds s c row in
    let row' = claimed_row run_id token now lease_seconds s c row in
    let blocked = claimed-is_unclaimable run_id token now lease_seconds s c row now' in
    (
      s',
      claimed_store run_id token' now' lease_seconds' s' first row',
      first,
      claimed run_id token' now' lease_seconds' s' first row',
      claim_free run_id token now lease_seconds s c row free,
      refl,
      claimed-is_owned run_id token now lease_seconds s c row now',
      elim (Bool-cases (ltb now' (now + lease_seconds * second))) [
        | inl e ↦ rw e (rw (row', claim_row) (rw (blocked ∙ e) refl))
        | inr e ↦ rw e (claim_free run_id token' now' lease_seconds' s' first row' (blocked ∙ e))
      ],
      omega arith,
    )
