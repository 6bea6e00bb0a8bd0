-- ===== src/Prelude/Sets.antt =====
-- Sequences, sets and dicts of the language: `sorted`, `set`, `frozenset`, `dict` and `any`.
use bridle.Prelude.Equality.{
  Eq, if◌then◌else◌, ◌==◌, contains, eq-of-==, eq_self, Bool-cases, Option-cases,
}
use bridle.Prelude.Lists.{All}
use mathlib.Core.Path.{◌≡◌, refl, sym, ap, ◌∙◌, subst}
use mathlib.Core.Logic.{inl, inr, ◌≢◌}
use mathlib.Core.Bool.{Bool, true, false, ◌&&◌, ◌||◌}
use mathlib.Core.Option.{Option, none, some}
use mathlib.Core.List.{List, [], ◌∷◌, map}
use native.Mathlib.Omega.{arith}

-- `x` stands in the list.
pub data In {ℓ} {A : Type ℓ} (x : A) : List A → Type ℓ where
  here : {y : A} {ys : List A} → x ≡ y → In x (y ∷ ys)
  there : {y : A} {ys : List A} → In x ys → In x (y ∷ ys)

module _ {ℓ} {A : Type ℓ} where
  -- `any(p(x) for x in xs)`, `all(p(x) for x in xs)` and `[x for x in xs if p(x)]`
  unfoldable pub any : (A → Bool) → List A → Bool
  any p [] = false
  any p (x ∷ xs) = p x || any p xs

  unfoldable pub all : (A → Bool) → List A → Bool
  all p [] = true
  all p (x ∷ xs) = p x && all p xs

  unfoldable pub keep : (A → Bool) → List A → List A
  keep p [] = []
  keep p (x ∷ xs) = if p x then x ∷ keep p xs else keep p xs

  -- `sorted(xs)`, which is stable.
  unfoldable pub insert_sorted : (A → A → Bool) → A → List A → List A
  insert_sorted lt x [] = x ∷ []
  insert_sorted lt x (y ∷ ys) = if lt y x then y ∷ insert_sorted lt x ys else x ∷ y ∷ ys

  unfoldable pub sorted : (A → A → Bool) → List A → List A
  sorted lt [] = []
  sorted lt (x ∷ xs) = insert_sorted lt x (sorted lt xs)

module _ {ℓ} {A : Type ℓ} ⦃e : Eq A⦄ where
  -- `set(xs)`, in an order that the code never reads.
  unfoldable pub distinct : List A → List A
  distinct [] = []
  distinct (x ∷ xs) = if contains xs x then distinct xs else x ∷ distinct xs

  -- `xs <= ys` and `xs & ys` of sets
  abbrev pub subset : List A → List A → Bool
  subset xs ys = all (contains ys) xs

  abbrev pub intersects : List A → List A → Bool
  intersects xs ys = any (contains ys) xs

module _ {ℓ κ} {K : Type ℓ} {V : Type κ} ⦃e : Eq K⦄ where
  -- `d[k] = v`
  unfoldable pub dict_put : K → V → List (K × V) → List (K × V)
  dict_put k v [] = (k, v) ∷ []
  dict_put k v ((j, w) ∷ d) = if k == j then (j, v) ∷ d else (j, w) ∷ dict_put k v d

  -- `dict(items)` onto `d`: a later item replaces an earlier one of its key.
  unfoldable pub dict_from : List (K × V) → List (K × V) → List (K × V)
  dict_from d [] = d
  dict_from d ((k, v) ∷ items) = dict_from (dict_put k v d) items

  abbrev pub dict : List (K × V) → List (K × V)
  dict items = dict_from [] items

  -- `d.get(k)`
  unfoldable pub dict_get : List (K × V) → K → Option V
  dict_get [] k = none
  dict_get ((j, v) ∷ d) k = if k == j then some v else dict_get d k

module _ {ℓ κ} {A : Type ℓ} (P : A → Type κ) where
  pub All-of_In : (xs : List A) → ((x : A) → In x xs → P x) → All P xs
  All-of_In [] f = tt
  All-of_In (x ∷ xs) f = (f x (here refl), All-of_In xs (λ y m. f y (there m)))

  pub In-All : {x : A} (xs : List A) → All P xs → In x xs → P x
  In-All [] h m = elim m [ ]
  In-All (y ∷ ys) h (here e) = subst P (sym e) h.0
  In-All (y ∷ ys) h (there m) = In-All ys h.1 m

module _ {ℓ} {A : Type ℓ} where
  pub any-In : (p : A → Bool) (xs : List A) → any p xs ≡ true → (x : A) × In x xs × (p x ≡ true)
  unfolding any
  any-In p [] h = absurd (ground arith)
  any-In p (x ∷ xs) h = elim (Bool-cases (p x)) [
    | inl e ↦ (x, here refl, e)
    | inr e ↦ let (y, m, q) = any-In p xs (ground arith) in (y, there m, q)
  ]

  pub In-any : (p : A → Bool) {x : A} (xs : List A) → In x xs → p x ≡ true → any p xs ≡ true
  unfolding any
  In-any p [] m h = elim m [ ]
  In-any p {x} (y ∷ ys) (here e) h = let q : p y ≡ true = ap p (sym e) ∙ h in ground arith
  In-any p (y ∷ ys) (there m) h = let q = In-any p ys m h in ground (arith, q)

  pub In-all : (p : A → Bool) {x : A} (xs : List A) → all p xs ≡ true → In x xs → p x ≡ true
  unfolding all
  In-all p [] h m = elim m [ ]
  In-all p (y ∷ ys) h (here e) = ap p e ∙ ground arith
  In-all p (y ∷ ys) h (there m) = In-all p ys (ground arith) m

  pub all_of_In : (p : A → Bool) (xs : List A) → ((x : A) → In x xs → p x ≡ true) → all p xs ≡ true
  unfolding all
  all_of_In p [] f = refl
  all_of_In p (x ∷ xs) f =
      let a = f x (here refl) in
      let b = all_of_In p xs (λ y m. f y (there m)) in ground (arith, a, b)

  pub In-keep : (p : A → Bool) {x : A} (xs : List A) → In x (keep p xs) → In x xs × (p x ≡ true)
  unfolding keep
  In-keep p [] m = elim m [ ]
  In-keep p {x} (y ∷ ys) m = elim (Bool-cases (p y)) [
    | inl e ↦
        let n' : In x (y ∷ keep p ys) = rw e at m in
        elim n' [
          | here q ↦ (here q, ap p q ∙ e)
          | there n ↦ let r = In-keep p ys n in (there r.0, r.1)
        ]
    | inr e ↦ let r = In-keep p ys (subst (In x) (rw e) m) in (there r.0, r.1)
  ]

  pub keep-In : (p : A → Bool) {x : A} (xs : List A) → In x xs → p x ≡ true → In x (keep p xs)
  unfolding keep
  keep-In p [] m h = elim m [ ]
  keep-In p {x} (y ∷ ys) (here q) h = let e : p y ≡ true = ap p (sym q) ∙ h in rw e (here q)
  keep-In p {x} (y ∷ ys) (there m) h = elim (Bool-cases (p y)) [
    | inl e ↦ rw e (there (keep-In p ys m h))
    | inr e ↦ rw e (keep-In p ys m h)
  ]

  module _ (lt : A → A → Bool) where
    In-insert_sorted : {x : A} (y : A) (ys : List A) → In x (insert_sorted lt y ys) → In x (y ∷ ys)
    unfolding insert_sorted
    In-insert_sorted y [] m = m
    In-insert_sorted {x} y (z ∷ zs) m = elim (Bool-cases (lt z y)) [
      | inl e ↦
          let n' : In x (z ∷ insert_sorted lt y zs) = rw e at m in
          elim n' [
            | here q ↦ there (here q)
            | there n ↦ elim (In-insert_sorted y zs n) [
              | here q ↦ here q
              | there k ↦ there (there k)
            ]
          ]
      | inr e ↦ subst (In x) (rw e) m
    ]

    insert_sorted-In : {x : A} (y : A) (ys : List A) → In x (y ∷ ys) → In x (insert_sorted lt y ys)
    unfolding insert_sorted
    insert_sorted-In y [] m = m
    insert_sorted-In {x} y (z ∷ zs) m = elim (Bool-cases (lt z y)) [
      | inl e ↦ rw e (elim m [
        | here q ↦ there (insert_sorted-In y zs (here q))
        | there (here q) ↦ here q
        | there (there n) ↦ there (insert_sorted-In y zs (there n))
      ])
      | inr e ↦ rw e m
    ]

    pub In-sorted : {x : A} (xs : List A) → In x (sorted lt xs) → In x xs
    unfolding sorted
    In-sorted [] m = m
    In-sorted (y ∷ ys) m = elim (In-insert_sorted y (sorted lt ys) m) [
      | here q ↦ here q
      | there n ↦ there (In-sorted ys n)
    ]

    pub sorted-In : {x : A} (xs : List A) → In x xs → In x (sorted lt xs)
    unfolding sorted
    sorted-In [] m = m
    sorted-In (y ∷ ys) (here q) = insert_sorted-In y (sorted lt ys) (here q)
    sorted-In (y ∷ ys) (there m) = insert_sorted-In y (sorted lt ys) (there (sorted-In ys m))

module _ {ℓ} {A : Type ℓ} ⦃e : Eq A⦄ where
  pub contains-In : (xs : List A) (x : A) → contains xs x ≡ true → In x xs
  contains-In [] x h = absurd (ground arith)
  contains-In (y ∷ ys) x h = elim (Bool-cases (x == y)) [
    | inl q ↦ here (eq-of-== x y q)
    | inr q ↦ there (contains-In ys x (ground arith))
  ]

  pub In-contains : (xs : List A) (x : A) → In x xs → contains xs x ≡ true
  In-contains [] x m = elim m [ ]
  In-contains (y ∷ ys) x (here q) =
      let h : (x == y) ≡ true = ap (λ z. x == z) (sym q) ∙ eq_self x in ground arith
  In-contains (y ∷ ys) x (there m) = let h = In-contains ys x m in ground (arith, h)

  pub In-distinct : {x : A} (xs : List A) → In x (distinct xs) → In x xs
  unfolding distinct
  In-distinct [] m = m
  In-distinct {x} (y ∷ ys) m = elim (Bool-cases (contains ys y)) [
    | inl q ↦ there (In-distinct ys (rw q at m))
    | inr q ↦
        let n : In x (y ∷ distinct ys) = rw q at m in
        elim n [ here p ↦ here p | there n ↦ there (In-distinct ys n) ]
  ]

  pub distinct-In : {x : A} (xs : List A) → In x xs → In x (distinct xs)
  unfolding distinct
  distinct-In [] m = m
  distinct-In {x} (y ∷ ys) m = elim (Bool-cases (contains ys y)) [
    | inl q ↦ rw q (elim m [
      | here p ↦ distinct-In ys (subst (λ z. In z ys) (sym p) (contains-In ys y q))
      | there n ↦ distinct-In ys n
    ])
    | inr q ↦ rw q (elim m [ here p ↦ here p | there n ↦ there (distinct-In ys n) ])
  ]

module _ {ℓ κ} {K : Type ℓ} {V : Type κ} ⦃e : Eq K⦄ where
  module _ {μ} (P : K × V → Type μ) where
    All-dict_put : (k : K) (v : V) (d : List (K × V)) → P (k, v) → All P d → All P (dict_put k v d)
    unfolding dict_put
    All-dict_put k v [] p h = (p, tt)
    All-dict_put k v ((j, w) ∷ d) p h = elim (Bool-cases (k == j)) [
      | inl q ↦ rw q (subst (λ z. P (z, v)) (eq-of-== k j q) p, h.1)
      | inr q ↦ rw q (h.0, All-dict_put k v d p h.1)
    ]

    All-dict_from : (d items : List (K × V)) → All P d → All P items → All P (dict_from d items)
    unfolding dict_from
    All-dict_from d [] h g = h
    All-dict_from d ((k, v) ∷ items) h g =
        All-dict_from (dict_put k v d) items (All-dict_put k v d g.0 h) g.1

    pub All-dict : (items : List (K × V)) → All P items → All P (dict items)
    All-dict items h = All-dict_from [] items tt h

    pub All-dict_get :
        (k : K) (v : V) (d : List (K × V)) → All P d → dict_get d k ≡ some v → P (k, v)
    unfolding dict_get
    All-dict_get k v [] h g = absurd (ground arith)
    All-dict_get k v ((j, w) ∷ d) h g = elim (Bool-cases (k == j)) [
      | inl q ↦
          let same : w ≡ v = ground arith in
          subst (λ z. P (z, v)) (sym (eq-of-== k j q)) (subst (λ z. P (j, z)) same h.0)
      | inr q ↦ All-dict_get k v d h.1 (ground arith)
    ]

  pub dict_get-dict_put :
      (k : K) (v : V) (d : List (K × V)) (j : K)
      → dict_get (dict_put k v d) j ≡ (if j == k then some v else dict_get d j)
  unfolding dict_get dict_put
  dict_get-dict_put k v [] j = refl
  dict_get-dict_put k v ((i, w) ∷ d) j = ground (arith, dict_get-dict_put k v d j)

  -- What stands in a dict, or among the items put into it, is found there.
  dict_get-dict_from-some :
      (j : K) (d items : List (K × V)) → dict_get d j ≢ none → dict_get (dict_from d items) j ≢ none
  unfolding dict_from
  dict_get-dict_from-some j d [] h = h
  dict_get-dict_from-some j d ((k, v) ∷ items) h =
      dict_get-dict_from-some j (dict_put k v d) items
        (λ g. h (ground (arith, dict_get-dict_put k v d j)))

  dict_get-dict_from-In :
      (k : K) (v : V) (d items : List (K × V))
      → In (k, v) items
      → dict_get (dict_from d items) k ≢ none
  unfolding dict_from
  dict_get-dict_from-In k v d [] m = elim m [ ]
  dict_get-dict_from-In k v d ((j, w) ∷ items) (here q) =
      dict_get-dict_from-some k (dict_put j w d) items (λ g.
        let same : k ≡ j = ap (λ (r : K × V). r.0) q in
        let found : (k == j) ≡ true = ap (λ z. k == z) (sym same) ∙ eq_self k in
        ground (arith, dict_get-dict_put j w d k))
  dict_get-dict_from-In k v d ((j, w) ∷ items) (there m) =
      dict_get-dict_from-In k v (dict_put j w d) items m

  pub dict_get-dict-In :
      (k : K) (v : V) (items : List (K × V)) → In (k, v) items → dict_get (dict items) k ≢ none
  dict_get-dict-In k v items m = dict_get-dict_from-In k v [] items m

  pub dict_get-In : (k : K) (v : V) (d : List (K × V)) → dict_get d k ≡ some v → In (k, v) d
  unfolding dict_get
  dict_get-In k v [] h = absurd (ground arith)
  dict_get-In k v ((j, w) ∷ d) h = elim (Bool-cases (k == j)) [
    | inl q ↦
        let same : w ≡ v = ground arith in
        let first : ◌≡◌ {A = K × V} (k, v) (j, w) =
          ap (λ z. (z, v)) (eq-of-== k j q) ∙ ap (λ z. (j, z)) (sym same) in
        here first
    | inr q ↦ there (dict_get-In k v d (ground arith))
  ]

  -- Every item of a dict is one of those put into it.
  pub In-dict : {x : K × V} (items : List (K × V)) → In x (dict items) → In x items
  In-dict items m =
      In-All (λ y. In y items) (dict items)
        (All-dict (λ y. In y items) items (All-of_In (λ y. In y items) items (λ y n. n))) m

  -- Two items of one key have one value.
  abbrev pub IsFunctional : List (K × V) → Type (ℓ ⊔ κ)
  IsFunctional items = (k : K) (v w : V) → In (k, v) items → In (k, w) items → v ≡ w

  pub IsFunctional-cons :
      (j : K) (z : V) (zs : List (K × V))
      → ((x : V) → ¬ In (j, x) zs)
      → IsFunctional zs
      → IsFunctional ((j, z) ∷ zs)
  IsFunctional-cons j z zs new f k v w (here p) (here q) =
      ap (λ (r : K × V). r.1) p ∙ sym (ap (λ (r : K × V). r.1) q)
  IsFunctional-cons j z zs new f k v w (here p) (there n) =
      absurd (new w (subst (λ t. In (t, w) zs) (ap (λ (r : K × V). r.0) p) n))
  IsFunctional-cons j z zs new f k v w (there m) (here q) =
      absurd (new v (subst (λ t. In (t, v) zs) (ap (λ (r : K × V). r.0) q) m))
  IsFunctional-cons j z zs new f k v w (there m) (there n) = f k v w m n

  -- Then the dict has every item.
  pub dict-In :
      (k : K) (v : V) (items : List (K × V))
      → IsFunctional items
      → In (k, v) items
      → In (k, v) (dict items)
  dict-In k v items f m = elim (Option-cases (dict_get (dict items) k)) [
    | inl e ↦ absurd (dict_get-dict-In k v items m e)
    | inr (w, e) ↦
        let n = dict_get-In k w (dict items) e in
        subst (λ z. In (k, z) (dict items)) (f k w v (In-dict items n) m) n
  ]

module _ {ℓ κ} {A : Type ℓ} {B : Type κ} (f : A → B) where
  pub In-map : {y : B} (xs : List A) → In y (map f xs) → (x : A) × In x xs × (y ≡ f x)
  In-map [] m = elim m [ ]
  In-map (x ∷ xs) (here e) = (x, here refl, e)
  In-map (x ∷ xs) (there m) = let (z, n, e) = In-map xs m in (z, there n, e)

  pub map-In : {x : A} (xs : List A) → In x xs → In (f x) (map f xs)
  map-In [] m = elim m [ ]
  map-In (y ∷ ys) (here e) = here (ap f e)
  map-In (y ∷ ys) (there m) = there (map-In ys m)
