-- ===== src/Authorization/Normalize/Parts.antt =====
-- What the normalization of a scope keeps of its parts.
use bridle.Prelude.{
  here, there, ◌∙◌, List, [], ◌∷◌, true, false, refl, String, In, ◌≡◌, sorted-In, contains,
  IsFunctional, sym, In-distinct, In-sorted, string_lt, distinct, not, distinct-In, string_eq,
  IsFunctional-cons, ap, arith, ◌==◌, eq_self, is_blank,
}
use mathlib.Core.Path.{subst}
use bridle.Errors.{◌>>=◌, ok, Result, require-eq-ok, ok-injective, >>=-eq-ok, value_error}
use bridle.Authorization.Normalize.{frozenset, traverse, normalize_entries, normalize_value}

pub In-frozenset : {x : String} (xs : List String) → In x (frozenset xs) → In x xs
unfolding frozenset
In-frozenset xs m = In-distinct xs (In-sorted string_lt (distinct xs) m)

pub frozenset-In : {x : String} (xs : List String) → In x xs → In x (frozenset xs)
unfolding frozenset
frozenset-In xs m = sorted-In string_lt (distinct xs) (distinct-In xs m)

module _ {ℓ κ} {A : Type ℓ} {B : Type κ} (f : A → Result B) where
  -- Each result comes from an item, and each item has its result.
  pub In-traverse :
      {y : B} (xs : List A) {ys : List B}
      → traverse f xs ≡ ok ys
      → In y ys
      → (x : A) × In x xs × (f x ≡ ok y)
  unfolding traverse
  In-traverse {y} [] h m = elim (subst (In y) (sym (ok-injective _ _ h)) m) [ ]
  In-traverse {y} (x ∷ xs) h m =
      let (z, p, rest) = >>=-eq-ok (f x) _ h in
      let (zs, q, done) = >>=-eq-ok (traverse f xs) _ rest in
      let n : In y (z ∷ zs) = subst (In y) (sym (ok-injective (z ∷ zs) _ done)) m in
      elim n [
        | here e ↦ (x, here refl, p ∙ ap ok (sym e))
        | there k ↦ let (w, l, r) = In-traverse xs q k in (w, there l, r)
      ]

-- A round of the loop that ends well.
normalize_entries-cons :
    (keys : List String) (j u : String) (xs ys : List (String × String))
    → normalize_entries keys ((j, u) ∷ xs) ≡ ok ys
    → (z : String) × (zs : List (String × String)) × (contains keys j ≡ false)
      × (normalize_value j u ≡ ok z)
      × (normalize_entries (j ∷ keys) xs ≡ ok zs)
      × (((j, z) ∷ zs) ≡ ys)
unfolding normalize_entries
normalize_entries-cons keys j u xs ys h =
    let (_, h1) = require-eq-ok (not (is_blank j)) (value_error "invalid_attribute") _ h in
    let (new, h2) =
      require-eq-ok (not (contains keys j)) (value_error "duplicate_attribute") _ h1 in
    let (z, p, h3) =
      >>=-eq-ok (normalize_value j u)
        (λ z. normalize_entries (j ∷ keys) xs >>= λ zs. ok ((j, z) ∷ zs)) h2 in
    let (zs, q, done) = >>=-eq-ok (normalize_entries (j ∷ keys) xs) (λ zs. ok ((j, z) ∷ zs)) h3 in
    (z, zs, ground arith, p, q, ok-injective ((j, z) ∷ zs) ys done)

-- The values after normalization, key by key.
pub In-normalize_entries :
    {k w : String} (keys : List String) (xs : List (String × String)) (ys : List (String × String))
    → normalize_entries keys xs ≡ ok ys
    → In (k, w) ys
    → (v : String) × In (k, v) xs × (normalize_value k v ≡ ok w)
unfolding normalize_entries
In-normalize_entries {k} {w} keys [] ys h m =
    elim (subst (In (k, w)) (sym (ok-injective [] ys h)) m) [ ]
In-normalize_entries {k} {w} keys ((j, u) ∷ xs) ys h m =
    let (z, zs, new, p, q, same) = normalize_entries-cons keys j u xs ys h in
    let n : In (k, w) ((j, z) ∷ zs) = subst (In (k, w)) (sym same) m in
    elim n [
      | here e ↦
          let ek : k ≡ j = ap (λ (r : String × String). r.0) e in
          let ew : w ≡ z = ap (λ (r : String × String). r.1) e in
          (
            u,
            here (ap (λ t. (t, u)) ek),
            subst (λ t. normalize_value t u ≡ ok w) (sym ek) (p ∙ ap ok (sym ew)),
          )
      | there i ↦ let (v, l, r) = In-normalize_entries (j ∷ keys) xs zs q i in (v, there l, r)
    ]

pub normalize_entries-In :
    {k v : String} (keys : List String) (xs : List (String × String)) (ys : List (String × String))
    → normalize_entries keys xs ≡ ok ys
    → In (k, v) xs
    → (w : String) × In (k, w) ys × (normalize_value k v ≡ ok w)
unfolding normalize_entries
normalize_entries-In {k} {v} keys [] ys h m = elim m [ ]
normalize_entries-In {k} {v} keys ((j, u) ∷ xs) ys h m =
    let (z, zs, new, p, q, same) = normalize_entries-cons keys j u xs ys h in
    elim m [
      | here e ↦
          let ek : k ≡ j = ap (λ (r : String × String). r.0) e in
          let ev : v ≡ u = ap (λ (r : String × String). r.1) e in
          (
            z,
            subst (In (k, z)) same (here (ap (λ t. (t, z)) ek)),
            ap (λ t. normalize_value t v) ek ∙ ap (normalize_value j) ev ∙ p,
          )
      | there i ↦
          let (w, l, r) = normalize_entries-In (j ∷ keys) xs zs q i in
          (w, subst (In (k, w)) same (there l), r)
    ]

-- No key is met twice, nor a key that was seen before.
normalize_entries-fresh :
    {k w : String} (keys : List String) (xs : List (String × String)) (ys : List (String × String))
    → normalize_entries keys xs ≡ ok ys
    → In (k, w) ys
    → contains keys k ≡ false
unfolding normalize_entries
normalize_entries-fresh {k} {w} keys [] ys h m =
    elim (subst (In (k, w)) (sym (ok-injective [] ys h)) m) [ ]
normalize_entries-fresh {k} {w} keys ((j, u) ∷ xs) ys h m =
    let (z, zs, new, p, q, same) = normalize_entries-cons keys j u xs ys h in
    let n : In (k, w) ((j, z) ∷ zs) = subst (In (k, w)) (sym same) m in
    elim n [
      | here e ↦ ap (contains keys) (ap (λ (r : String × String). r.0) e) ∙ ground arith
      | there i ↦ let rest = normalize_entries-fresh (j ∷ keys) xs zs q i in ground arith
    ]

pub normalize_entries-IsFunctional :
    (keys : List String) (xs : List (String × String)) (ys : List (String × String))
    → normalize_entries keys xs ≡ ok ys
    → IsFunctional ys
unfolding normalize_entries
normalize_entries-IsFunctional keys [] ys h k v w m n =
    elim (subst (In (k, v)) (sym (ok-injective [] ys h)) m) [ ]
normalize_entries-IsFunctional keys ((j, u) ∷ xs) ys h k v w m n =
    let (z, zs, new, p, q, same) = normalize_entries-cons keys j u xs ys h in
    let a : In (k, v) ((j, z) ∷ zs) = subst (In (k, v)) (sym same) m in
    let b : In (k, w) ((j, z) ∷ zs) = subst (In (k, w)) (sym same) n in
    IsFunctional-cons j z zs
      (λ x i.
        let fresh = normalize_entries-fresh (j ∷ keys) xs zs q i in
        let met : (j == j) ≡ true = eq_self j in absurd (ground arith))
      (normalize_entries-IsFunctional (j ∷ keys) xs zs q) k v w a b
