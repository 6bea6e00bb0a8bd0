-- ===== src/Workflow/Runs/Retry.antt =====
-- `next_verification_retry_at` of features/project_map/store.py.
use bridle.Workflow.Runs.{next_verification_retry_at, next_retry, is_unclaimable}
use bridle.Workflow.Store.{queued, RunRow, Store, run_state_eq}
use bridle.Prelude.{
  List, [], ◌∷◌, none, some, true, false, Option, refl, Bool, ℕ, leb, ◌≡◌, ◌==◌, ◌&&◌, ◌↔◌, not,
  All, is_none, arith,
}

-- The run waits for its retry.
abbrev pub is_deferred : RunRow → Bool
is_deferred r = r.state == queued && not (is_none r.next_retry_at)

abbrev pub is_reached : ℕ → Option ℕ → Bool
is_reached now none = false
is_reached now (some t) = leb t now

next_retry_lem :
    (now : ℕ) (rs : List RunRow)
    → (is_reached now (next_retry rs) ≡ false)
      ↔ All (λ r. is_deferred r ≡ true → is_unclaimable now r ≡ true) rs
unfolding next_retry
next_retry_lem now [] = (λ _. tt, λ _. refl)
next_retry_lem now (r ∷ rs) =
    let (to, fro) = next_retry_lem now rs in
    (
      λ h. (λ d. ground arith, to (ground arith)),
      λ (own, rest).
          let below : is_reached now (next_retry rs) ≡ false = fro rest in ground (arith, own),
    )

-- Until the time that is returned no run that waits for its retry can be claimed, and from then on
-- one of them can; without such a time none can.
pub next_verification_retry_at-exact :
    (now : ℕ) (s : Store)
    → (is_reached now (next_verification_retry_at s) ≡ false)
      ↔ All (λ r. is_deferred r ≡ true → is_unclaimable now r ≡ true) s.runs
unfolding next_verification_retry_at
next_verification_retry_at-exact now s = next_retry_lem now s.runs
