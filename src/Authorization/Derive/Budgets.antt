-- ===== src/Authorization/Derive/Budgets.antt =====
-- The order of budgets.
use bridle.Prelude.{true, false, refl, Bool, ◌≡◌, ◌&&◌, arith, not, sym, false_of_not}
use mathlib.Core.Path.{subst}
use bridle.Errors.{ok, value_error, require-eq-ok, ok-injective}
use bridle.Authorization.Grants.{
  BudgetGrant, ℤ, pos, negsuc, Seconds, finite, negative, infinite, nan,
}
use bridle.Authorization.Normalize.{normalize_budget, is_negative, is_duration}
use bridle.Authorization.Derive.{budget_contains, within, within_seconds}

within_trans : (a b c : ℤ) → within a b ≡ true → within b c ≡ true → within a c ≡ true
within_trans (pos a) (pos b) (pos c) h g = ground arith
within_trans (pos a) (pos b) (negsuc c) h g = absurd (ground arith)
within_trans (pos a) (negsuc b) c h g = absurd (ground arith)
within_trans (negsuc a) b c h g = absurd (ground arith)

within_seconds_trans :
    (a b c : Seconds)
    → within_seconds a b ≡ true
    → within_seconds b c ≡ true
    → within_seconds a c ≡ true
within_seconds_trans (finite a) (finite b) (finite c) h g = ground arith
within_seconds_trans (finite a) (finite b) infinite h g = refl
within_seconds_trans (finite a) (finite b) negative h g = absurd (ground arith)
within_seconds_trans (finite a) (finite b) nan h g = absurd (ground arith)
within_seconds_trans (finite a) infinite (finite c) h g = absurd (ground arith)
within_seconds_trans (finite a) infinite infinite h g = refl
within_seconds_trans (finite a) infinite negative h g = absurd (ground arith)
within_seconds_trans (finite a) infinite nan h g = absurd (ground arith)
within_seconds_trans (finite a) negative c h g = absurd (ground arith)
within_seconds_trans (finite a) nan c h g = absurd (ground arith)
within_seconds_trans infinite (finite b) c h g = absurd (ground arith)
within_seconds_trans infinite infinite c h g = g
within_seconds_trans infinite negative c h g = absurd (ground arith)
within_seconds_trans infinite nan c h g = absurd (ground arith)
within_seconds_trans negative b c h g = absurd (ground arith)
within_seconds_trans nan b c h g = absurd (ground arith)

all_three : (x y z : Bool) → x && y && z ≡ true → (x ≡ true) × (y ≡ true) × (z ≡ true)
all_three x y z h = ground arith

pub budget_contains_trans :
    (a b c : BudgetGrant)
    → budget_contains a b ≡ true
    → budget_contains b c ≡ true
    → budget_contains a c ≡ true
unfolding budget_contains
budget_contains_trans a b c h g =
    let (h1, h2, h3) = all_three _ _ _ h in
    let (g1, g2, g3) = all_three _ _ _ g in
    let p = within_trans c.max_provider_calls b.max_provider_calls a.max_provider_calls g1 h1 in
    let q = within_trans c.max_tool_calls b.max_tool_calls a.max_tool_calls g2 h2 in
    let r = within_seconds_trans c.max_wall_seconds b.max_wall_seconds a.max_wall_seconds g3 h3 in
    rw p (rw q r)

within_refl : (a : ℤ) → is_negative a ≡ false → within a a ≡ true
within_refl (pos a) h = ground arith
within_refl (negsuc a) h = absurd (ground arith)

within_seconds_refl : (a : Seconds) → is_duration a ≡ true → within_seconds a a ≡ true
within_seconds_refl (finite a) h = ground arith
within_seconds_refl infinite h = refl
within_seconds_refl negative h = absurd (ground arith)
within_seconds_refl nan h = absurd (ground arith)

-- A normalized budget is what was given, and contains itself.
pub normalize_budget-inverse :
    (budget normal : BudgetGrant)
    → normalize_budget budget ≡ ok normal
    → (normal ≡ budget) × (budget_contains normal normal ≡ true)
unfolding normalize_budget budget_contains
normalize_budget-inverse budget normal h =
    let bad = value_error "invalid_budget" in
    let (a, h1) = require-eq-ok (not (is_negative budget.max_provider_calls)) bad _ h in
    let (b, h2) = require-eq-ok (not (is_negative budget.max_tool_calls)) bad _ h1 in
    let (c, h3) = require-eq-ok (is_duration budget.max_wall_seconds) bad _ h2 in
    let same = ok-injective budget normal h3 in
    let p = within_refl budget.max_provider_calls (false_of_not _ a) in
    let q = within_refl budget.max_tool_calls (false_of_not _ b) in
    let r = within_seconds_refl budget.max_wall_seconds c in
    (
      sym same,
      subst
          (λ (t : BudgetGrant).
            (within t.max_provider_calls t.max_provider_calls
              && within t.max_tool_calls t.max_tool_calls
              && within_seconds t.max_wall_seconds t.max_wall_seconds)
            ≡ true)
          same (rw p (rw q r)),
    )
