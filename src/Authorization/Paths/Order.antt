-- ===== src/Authorization/Paths/Order.antt =====
-- `_path_contains` as an order on normalized paths.
use bridle.Authorization.Paths.Segments.{is_segment}
use bridle.Authorization.Paths.Render.{normalize-segments, render}
use bridle.Prelude.{
  ◌∙◌, List, [], ◌∷◌, ◌++◌, true, false, inl, inr, refl, String, ◌≡◌, ◌⊎◌, arith, ◌||◌, ◌↔◌, ap,
  sym, all,
}
use mathlib.Core.Path.{subst}
use mathlib.Core.List.{append_assoc}
use bridle.Errors.{ok, raise, Result, ok-injective}
use bridle.Authorization.Paths.{below, path_contains, normalize_relative_path, below_results}
use bridle.Authorization.Paths.Containment.{segments, Begins, segments-render, below_iff}

-- A path with its normal form and the segments of that.
pub record Normalized (path : String) : Type 0 where
  pub form : String
  pub parts : List String
  pub normal : normalize_relative_path path ≡ ok form
  pub written : form ≡ render parts
  pub fine : all is_segment parts ≡ true

normalized : (path : String) (n : String) → normalize_relative_path path ≡ ok n → Normalized path
normalized path n h =
    let (ss, fine, written, _) = normalize-segments path h in
    record { form = n; parts = ss; normal = h; written = written; fine = fine }

parts-segments : {path : String} (w : Normalized path) → segments w.form ≡ w.parts
parts-segments w = ap segments w.written ∙ segments-render w.parts w.fine

-- Two normal forms of one path are the same.
parts_unique : {path : String} (v w : Normalized path) → v.parts ≡ w.parts
parts_unique v w =
    sym (parts-segments v)
    ∙ ap segments (ok-injective v.form w.form (sym v.normal ∙ w.normal))
    ∙ parts-segments w

contains-forms :
    (parent child p c : String)
    → normalize_relative_path parent ≡ ok p
    → normalize_relative_path child ≡ ok c
    → path_contains parent child ≡ below p c
unfolding path_contains
contains-forms parent child p c h g = rw h (rw g refl)

contains-parts :
    {parent child : String} (v : Normalized parent) (w : Normalized child)
    → (path_contains parent child ≡ true) ↔ Begins v.parts w.parts
contains-parts {parent} {child} v w =
    subst (λ b. (b ≡ true) ↔ Begins v.parts w.parts)
      (sym (
        contains-forms parent child v.form w.form v.normal w.normal
        ∙ ap (λ t. below t w.form) v.written
        ∙ ap (λ t. below (render v.parts) t) w.written))
      (below_iff v.parts w.parts v.fine w.fine)

-- Of two paths that normalize, `_path_contains` says that the first contains the second exactly
-- when the segments of the normal form of the second begin with those of the first.
pub path_contains_iff :
    (parent child : String) {p c : String}
    → normalize_relative_path parent ≡ ok p
    → normalize_relative_path child ≡ ok c
    → (path_contains parent child ≡ true) ↔ Begins (segments p) (segments c)
unfolding normalized
path_contains_iff parent child {p} {c} h g =
    let v = normalized parent p h in
    let w = normalized child c g in
    subst (λ l. (path_contains parent child ≡ true) ↔ Begins (segments p) l)
      (sym (parts-segments w))
      (subst (λ l. (path_contains parent child ≡ true) ↔ Begins l w.parts) (sym (parts-segments v))
        (contains-parts v w))

-- Both sides of a containment normalize.
result-cases :
    (r : Result String)
    → ((n : String) × (r ≡ ok n)) ⊎ ((c : String) → below_results r (ok c) ≡ false)
result-cases (ok n) = inl (n, refl)
result-cases (raise e) = inr (λ c. refl)

both-ok :
    (r s : Result String)
    → below_results r s ≡ true
    → ((n : String) × (r ≡ ok n)) × ((n : String) × (s ≡ ok n))
both-ok (ok n) (ok m) h = ((n, refl), (m, refl))
both-ok (ok n) (raise e) h = absurd (ground arith)
both-ok (raise d) (ok m) h = absurd (ground arith)
both-ok (raise d) (raise e) h = absurd (ground arith)

pub contains-normalized :
    (parent child : String)
    → path_contains parent child ≡ true
    → Normalized parent × Normalized child
unfolding path_contains
contains-normalized parent child h =
    let ((p, a), (c, b)) =
      both-ok (normalize_relative_path parent) (normalize_relative_path child) h in
    (normalized parent p a, normalized child c b)

pub path_contains_trans :
    (a b c : String)
    → path_contains a b ≡ true
    → path_contains b c ≡ true
    → path_contains a c ≡ true
path_contains_trans a b c h g =
    let (va, vb) = contains-normalized a b h in
    let (wb, wc) = contains-normalized b c g in
    let (xs, p) = (contains-parts va vb).0 h in
    let (ys, q) = (contains-parts wb wc).0 g in
    (contains-parts va wc).1
      (xs ++ ys, sym (append_assoc va.parts xs ys) ∙ ap (λ l. l ++ ys) (p ∙ parts_unique vb wb) ∙ q)

-- Two beginnings of one list: one begins the other.
Begins-total : (xs ys zs : List String) → Begins xs zs → Begins ys zs → Begins xs ys ⊎ Begins ys xs
Begins-total [] ys zs h g = inl (ys, refl)
Begins-total (x ∷ xs) [] zs h g = inr (x ∷ xs, refl)
Begins-total (x ∷ xs) (y ∷ ys) [] (us, p) g = absurd (ground arith)
Begins-total (x ∷ xs) (y ∷ ys) (z ∷ zs) (us, p) (vs, q) =
    let heads : x ≡ y = ground arith in
    elim (Begins-total xs ys zs (us, ground arith) (vs, ground arith)) [
      | inl (ws, e) ↦ inl (ws, ground arith)
      | inr (ws, e) ↦ inr (ws, ground arith)
    ]

-- Two paths that contain a third: one contains the other.
pub path_contains_total :
    (a b c : String)
    → path_contains a c ≡ true
    → path_contains b c ≡ true
    → (path_contains a b || path_contains b a) ≡ true
path_contains_total a b c h g =
    let (va, vc) = contains-normalized a c h in
    let (wb, wc) = contains-normalized b c g in
    let (xs, p) = (contains-parts va vc).0 h in
    let (ys, q) = (contains-parts wb wc).0 g in
    elim (Begins-total va.parts wb.parts wc.parts (xs, p ∙ parts_unique vc wc) (ys, q)) [
      | inl k ↦ let r = (contains-parts va wb).1 k in ground (arith, r)
      | inr k ↦ let r = (contains-parts wb va).1 k in ground (arith, r)
    ]
