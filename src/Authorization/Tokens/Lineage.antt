-- ===== src/Authorization/Tokens/Lineage.antt =====
-- `_lineage` of a token and of its children.
use bridle.Prelude.{
  ◌∙◌, List, [], ◌∷◌, ◌++◌, some, true, false, inl, inr, refl, Bool, ℕ, any, contains, ◌≡◌,
  Option-cases, arith, Bool-cases, ◌||◌, nat_eq, sym, ap,
}
use mathlib.Core.List.{append_assoc, append-nil}
use mathlib.Core.Option.{none-ne-some, some-injective}
use mathlib.Core.Bool.{true≢false}
use bridle.Authorization.Grants.{RevocationToken, root, child}
use bridle.Authorization.Tokens.{Tokens, walk, lineage, revoked, active, any_set}

-- The identities of a token and of its ancestors, the root first.
abbrev pub markers_of : RevocationToken → List ℕ
markers_of (root marker) = marker ∷ []
markers_of (child parent marker) = markers_of parent ++ marker ∷ []

-- A walk that ends lists the lineage in front of what was seen, and so does a walk that has seen
-- less.
pub walk-some :
    (seen : List ℕ) (token : RevocationToken) {found : List ℕ}
    → walk seen token ≡ some found
    → found ≡ markers_of token ++ seen
unfolding walk
walk-some seen (root marker) {found} h = elim (Bool-cases (contains seen marker)) [
  | inl e ↦ absurd (none-ne-some found (rw e at h))
  | inr e ↦ let q : some (marker ∷ seen) ≡ some found = rw e at h in sym (some-injective _ _ q)
]
walk-some seen (child parent marker) {found} h = elim (Bool-cases (contains seen marker)) [
  | inl e ↦ absurd (none-ne-some found (rw e at h))
  | inr e ↦
      walk-some (marker ∷ seen) parent (rw e at h)
      ∙ sym (append_assoc (markers_of parent) (marker ∷ []) seen)
]

abbrev Fewer : List ℕ → List ℕ → Type 0
Fewer less more = (m : ℕ) → contains more m ≡ false → contains less m ≡ false

walk-Fewer :
    (less more : List ℕ) (token : RevocationToken) {found : List ℕ}
    → Fewer less more
    → walk more token ≡ some found
    → (rest : List ℕ) × (walk less token ≡ some rest)
unfolding walk
walk-Fewer less more (root marker) {found} f h = elim (Bool-cases (contains more marker)) [
  | inl e ↦ absurd (none-ne-some found (rw e at h))
  | inr e ↦ (marker ∷ less, rw (f marker e) refl)
]
walk-Fewer less more (child parent marker) {found} f h = elim (Bool-cases (contains more marker)) [
  | inl e ↦ absurd (none-ne-some found (rw e at h))
  | inr e ↦ rw (f marker e) (
      walk-Fewer (marker ∷ less) (marker ∷ more) parent (λ m q. let g = f m in ground (arith, g))
        (rw e at h))
]

any-append {ℓ} :
    {A : Type ℓ} (p : A → Bool) (xs ys : List A) → any p (xs ++ ys) ≡ any p xs || any p ys
unfolding any
any-append p [] ys = refl
any-append p (x ∷ xs) ys = ground (arith, any-append p xs ys)

pub revoked-some :
    (tokens : Tokens) (token : RevocationToken)
    → revoked tokens token ≡ false
    → (lineage token ≡ some (markers_of token)) × (any tokens.event (markers_of token) ≡ false)
unfolding revoked
revoked-some tokens token h = elim (Option-cases (lineage token)) [
  | inl e ↦ absurd (true≢false (ap (any_set tokens) (sym e) ∙ h))
  | inr (found, e) ↦
      let same : found ≡ markers_of token = walk-some [] token e ∙ append-nil (markers_of token) in
      (e ∙ ap some same, ap (any tokens.event) (sym same) ∙ ap (any_set tokens) (sym e) ∙ h)
]

-- A child is active only while its parent is.
pub active-child :
    (tokens : Tokens) (parent : RevocationToken) (marker : ℕ)
    → active tokens (child parent marker) ≡ true
    → active tokens parent ≡ true
unfolding revoked walk
active-child tokens parent marker h =
    let (e, quiet) = revoked-some tokens (child parent marker) (ground arith) in
    let (rest, p) = walk-Fewer [] (marker ∷ []) parent (λ m q. refl) e in
    let same : rest ≡ markers_of parent = walk-some [] parent p ∙ append-nil (markers_of parent) in
    let split_any = any-append tokens.event (markers_of parent) (marker ∷ []) in
    let calm : any tokens.event rest ≡ false = ap (any tokens.event) same ∙ ground arith in
    rw p (rw calm refl)
