-- ===== src/Prelude/Rows.antt =====
-- SQL tables as lists of rows: the first row that a test accepts, the rows that an update writes,
-- and how many there are.
use bridle.Prelude.Equality.{if◌then◌else◌, Bool-cases}
use bridle.Prelude.Lists.{All}
use Prim.Native.Nat.{ℕ, suc, ◌+◌, ◌≤◌}
use mathlib.Core.Path.{◌≡◌, refl}
use mathlib.Core.Logic.{inl, inr}
use mathlib.Core.Option.{some-injective}
use mathlib.Core.Bool.{Bool, true}
use mathlib.Core.Option
use mathlib.Core.Option.{Option, none, some}
use mathlib.Core.List.{List, [], ◌∷◌, ◌++◌}
use native.Mathlib.Omega.{arith}

module _ {ℓ} {A : Type ℓ} where
  -- `SELECT … WHERE p`, then `fetchone()`
  unfoldable pub select_one : (A → Bool) → List A → Option A
  select_one p [] = none
  select_one p (r ∷ rs) = if p r then some r else select_one p rs

  -- `UPDATE … SET f WHERE p`
  unfoldable pub update_where : (A → Bool) → (A → A) → List A → List A
  update_where p f [] = []
  update_where p f (r ∷ rs) = (if p r then f r else r) ∷ update_where p f rs

  -- `SELECT COUNT(*) … WHERE p`, and the `rowcount` of an update
  unfoldable pub rowcount : (A → Bool) → List A → ℕ
  rowcount p [] = 0
  rowcount p (r ∷ rs) = let n = rowcount p rs in if p r then suc n else n

module _ {ℓ} {A : Type ℓ} where
  -- The test holds of the row that it selects.
  pub select_one_sound :
      (p : A → Bool) (rs : List A) (r : A) → select_one p rs ≡ some r → p r ≡ true
  unfolding select_one
  select_one_sound p [] r h = ground arith
  select_one_sound p (x ∷ rs) r h = ground (arith, select_one_sound p rs r)

  -- An update by `f` that keeps the outcome of the test `q` changes what `q` selects by `f` alone.
  pub select_one-update_where :
      (q p : A → Bool) (f : A → A) (rs : List A)
      → ((r : A) → p r ≡ true → q (f r) ≡ q r)
      → select_one q (update_where p f rs)
        ≡ Option.map (λ r. if p r then f r else r) (select_one q rs)
  unfolding select_one update_where
  select_one-update_where q p f [] h = refl
  select_one-update_where q p f (r ∷ rs) h = ground (arith, h r, select_one-update_where q p f rs h)

  -- A row at the end of the table is found only if no row before it is.
  pub select_one-append :
      (q : A → Bool) (rs : List A) (r : A)
      → select_one q (rs ++ r ∷ [])
        ≡ elim (select_one q rs) [ none ↦ (if q r then some r else none) | some x ↦ some x ]
  unfolding select_one
  select_one-append q [] r = refl
  select_one-append q (x ∷ rs) r = ground (arith, select_one-append q rs r)

  pub rowcount-append :
      (p : A → Bool) (rs : List A) (r : A)
      → rowcount p (rs ++ r ∷ []) ≡ rowcount p rs + (if p r then 1 else 0)
  unfolding rowcount
  rowcount-append p [] r = ground arith
  rowcount-append p (x ∷ rs) r = ground (arith, rowcount-append p rs r)

  -- Nothing selected, nothing counted.
  pub rowcount-select_one-none :
      (p : A → Bool) (rs : List A) → select_one p rs ≡ none → rowcount p rs ≡ 0
  unfolding rowcount select_one
  rowcount-select_one-none p [] h = refl
  rowcount-select_one-none p (x ∷ rs) h = ground (arith, rowcount-select_one-none p rs)

  -- An update after which no more rows pass the test `q` than before.
  pub rowcount-update_where-le :
      (q p : A → Bool) (f : A → A) (rs : List A)
      → ((r : A) → q (f r) ≡ true → q r ≡ true)
      → rowcount q (update_where p f rs) ≤ rowcount q rs
  unfolding rowcount update_where
  rowcount-update_where-le q p f [] h = omega arith
  rowcount-update_where-le q p f (r ∷ rs) h =
      ground (arith, h r, rowcount-update_where-le q p f rs h)

module _ {ℓ κ} {A : Type ℓ} (P : A → Type κ) where
  pub All-append : (rs : List A) (r : A) → All P rs → P r → All P (rs ++ r ∷ [])
  All-append [] r all own = (own, tt)
  All-append (x ∷ rs) r all own = (all.0, All-append rs r all.1 own)

  pub All-update_where :
      (p : A → Bool) (f : A → A) (rs : List A)
      → ((r : A) → p r ≡ true → P r → P (f r))
      → All P rs
      → All P (update_where p f rs)
  unfolding update_where
  All-update_where p f [] keep all = tt
  All-update_where p f (r ∷ rs) keep all = (
    elim (Bool-cases (p r)) [ inl e ↦ rw e (keep r e all.0) | inr e ↦ rw e all.0 ],
    All-update_where p f rs keep all.1,
  )

-- Updates of the one row that has a key.
module _ {ℓ} {A : Type ℓ} where
  pub rowcount-select_one-some :
      (key : A → Bool) (rs : List A) (r : A) → select_one key rs ≡ some r → 1 ≤ rowcount key rs
  unfolding rowcount select_one
  rowcount-select_one-some key [] r h = absurd (ground arith)
  rowcount-select_one-some key (x ∷ rs) r h = ground (arith, rowcount-select_one-some key rs r)

  -- What the tail selects the table selects, since no two rows have the key.
  pub select_one-tail :
      (key : A → Bool) (x : A) (rs : List A) (r : A)
      → rowcount key (x ∷ rs) ≤ 1
      → select_one key rs ≡ some r
      → select_one key (x ∷ rs) ≡ some r
  unfolding rowcount select_one
  select_one-tail key x rs r one h = ground (arith, rowcount-select_one-some key rs r h)

  pub rowcount-tail-le :
      (key : A → Bool) (x : A) (rs : List A) → rowcount key (x ∷ rs) ≤ 1 → rowcount key rs ≤ 1
  unfolding rowcount
  rowcount-tail-le key x rs h = ground arith

module _ {ℓ κ} {A : Type ℓ} (P : A → Type κ) (key p : A → Bool) (f : A → A)
    (keyed : (r : A) → p r ≡ true → key r ≡ true) where
  pub All-update_one :
      (rs : List A)
      → rowcount key rs ≤ 1
      → ((r : A) → select_one key rs ≡ some r → p r ≡ true → P r → P (f r))
      → All P rs
      → All P (update_where p f rs)
  unfolding update_where select_one
  All-update_one [] one keep all = tt
  All-update_one (x ∷ rs) one keep all = (
    elim (Bool-cases (p x)) [ inl e ↦ rw e (keep x (rw (keyed x e)) e all.0) | inr e ↦ rw e all.0 ],
    All-update_one rs (rowcount-tail-le key x rs one)
        (λ r h. keep r (select_one-tail key x rs r one h)) all.1,
  )

-- A test that implies the key, and passes for one row, passes for the row that the key selects.
module _ {ℓ} {A : Type ℓ} (key p : A → Bool) (keyed : (r : A) → p r ≡ true → key r ≡ true) where
  pub rowcount_mono : (rs : List A) → rowcount p rs ≤ rowcount key rs
  unfolding rowcount
  rowcount_mono [] = omega arith
  rowcount_mono (r ∷ rs) = ground (arith, keyed r, rowcount_mono rs)

  pub select_one_passes :
      (rs : List A) (c : A)
      → rowcount key rs ≤ 1
      → rowcount p rs ≡ 1
      → select_one key rs ≡ some c
      → p c ≡ true
  unfolding rowcount select_one
  select_one_passes [] c one own h = absurd (ground arith)
  select_one_passes (r ∷ rs) c one own h =
      ground (arith, keyed r, rowcount_mono rs, select_one_passes rs c)

-- Updates of the one row that a key selects.
module _ {ℓ} {A : Type ℓ} (key : A → Bool) (f : A → A) where
  pub update_where_none : (rs : List A) → rowcount key rs ≡ 0 → update_where key f rs ≡ rs
  unfolding rowcount update_where
  update_where_none [] h = refl
  update_where_none (x ∷ rs) h = ground (arith, update_where_none rs)

  -- The row counted already, the count does not grow.
  pub rowcount-update_one-le :
      (q : A → Bool) (rs : List A) (m : A)
      → rowcount key rs ≤ 1
      → select_one key rs ≡ some m
      → q m ≡ true
      → rowcount q (update_where key f rs) ≤ rowcount q rs
  unfolding rowcount update_where select_one
  rowcount-update_one-le q [] m one at own = omega arith
  rowcount-update_one-le q (x ∷ rs) m one at own =
      ground (arith, update_where_none rs, rowcount-update_one-le q rs m)

  -- Every row that is written was counted already, so the count does not grow.
  pub rowcount-update_counted-le :
      (q : A → Bool) (rs : List A)
      → ((r : A) → key r ≡ true → q r ≡ true)
      → rowcount q (update_where key f rs) ≤ rowcount q rs
  unfolding rowcount update_where
  rowcount-update_counted-le q [] counted = omega arith
  rowcount-update_counted-le q (x ∷ rs) counted =
      ground (arith, counted x, rowcount-update_counted-le q rs counted)
