-- ===== src/Authorization/Paths/Segments.antt =====
-- The components that `normpath` keeps, as a list of segments below the workspace.
use bridle.Prelude.{
  ◌∙◌, List, [], ◌∷◌, ◌++◌, true, false, inl, inr, refl, Bool, String, ◌≡◌, not, avoids, CharClass,
  all, ◌==◌, Bool-cases, ◌⊎◌, eq-of-==, ◌&&◌, ◌||◌, string_eq, arith, nat_eq, sym, reverse, eq_self,
  ap,
}
use mathlib.Core.List.{reverse-append, append-nil, append_assoc}
use mathlib.Core.Path.{subst}
use text.Mathlib.TextLemmas.{nil≢cons}
use bridle.Authorization.Paths.{norm_step, norm_loop}

-- A character that no component of a normalized path has.
abbrev pub is_special : CharClass
is_special c = (c == 47) || (c == 92) || (c == 0)

-- A component that `normpath` keeps whatever stands before it.
abbrev pub is_segment : String → Bool
is_segment s = not (s == "") && not (s == ".") && not (s == "..") && avoids is_special s

-- A component of a split path without a NUL or a backslash.
abbrev pub is_component : String → Bool
is_component s = avoids is_special s

abbrev pub bottom : List String → String
bottom [] = ""
bottom (s ∷ []) = s
bottom (s ∷ t ∷ ts) = bottom (t ∷ ts)

-- The stack holds segments only, or it begins with `..`.
abbrev pub StackShape : List String → Type 0
StackShape stack = (all is_segment stack ≡ true) ⊎ (bottom stack ≡ "..")

bottom-pop : (s t : String) (ts : List String) → bottom (s ∷ t ∷ ts) ≡ bottom (t ∷ ts)
bottom-pop s t ts = refl

norm_step-segments :
    (stack : List String) (comp : String)
    → is_component comp ≡ true
    → all is_segment stack ≡ true
    → StackShape (norm_step false stack comp)
unfolding norm_step all
norm_step-segments [] comp c h = elim (Bool-cases (comp == "")) [
  | inl a ↦ rw a (inl refl)
  | inr a ↦ elim (Bool-cases (comp == ".")) [
    | inl b ↦ rw a (rw b (inl refl))
    | inr b ↦ elim (Bool-cases (comp == "..")) [
      | inl d ↦ rw a (rw b (rw d (inr (eq-of-== comp ".." d))))
      | inr d ↦ rw a (rw b (rw d (inl (ground arith))))
    ]
  ]
]
norm_step-segments (s ∷ ss) comp c h =
    let up : (s == "..") ≡ false = ground arith in
    elim (Bool-cases (comp == "")) [
      | inl a ↦ rw a (inl h)
      | inr a ↦ elim (Bool-cases (comp == ".")) [
        | inl b ↦ rw a (rw b (inl h))
        | inr b ↦ elim (Bool-cases (comp == "..")) [
          | inl d ↦ rw a (rw b (rw d (rw up (inl (ground arith)))))
          | inr d ↦ rw a (rw b (rw d (inl (ground arith))))
        ]
      ]
    ]

-- What `..` begins is never popped.
norm_step-bottom :
    (stack : List String) (comp : String)
    → bottom stack ≡ ".."
    → bottom (norm_step false stack comp) ≡ ".."
unfolding norm_step
norm_step-bottom [] comp h = absurd (nil≢cons h)
norm_step-bottom (s ∷ []) comp h = elim (Bool-cases (comp == "" || comp == ".")) [
  | inl a ↦ rw a h
  | inr a ↦
      let top : (s == "..") ≡ true =
        subst (λ z. (z == "..") ≡ true) (sym h) (eq_self {A = String} "..") in
      elim (Bool-cases (comp == "..")) [ inl d ↦ rw a (rw d (rw top h)) | inr d ↦ rw a (rw d h) ]
]
norm_step-bottom (s ∷ t ∷ ts) comp h = elim (Bool-cases (comp == "" || comp == ".")) [
  | inl a ↦ rw a h
  | inr a ↦ elim (Bool-cases (comp == "..")) [
    | inl q ↦ elim (Bool-cases (s == "..")) [
      | inl r ↦ rw a (rw q (rw r h))
      | inr r ↦ rw a (rw q (rw r h))
    ]
    | inr q ↦ rw a (rw q h)
  ]
]

pub norm_loop-shape :
    (stack comps : List String)
    → all is_component comps ≡ true
    → StackShape stack
    → StackShape (norm_loop false stack comps)
unfolding norm_loop all
norm_loop-shape stack [] c h = h
norm_loop-shape stack (comp ∷ comps) c (inl h) =
    norm_loop-shape (norm_step false stack comp) comps (ground arith)
      (norm_step-segments stack comp (ground arith) h)
norm_loop-shape stack (comp ∷ comps) c (inr h) =
    norm_loop-shape (norm_step false stack comp) comps (ground arith)
      (inr (norm_step-bottom stack comp h))

-- Segments are pushed one after the other.
pub norm_loop-segments :
    (stack comps : List String)
    → all is_segment comps ≡ true
    → reverse (norm_loop false stack comps) ≡ reverse stack ++ comps
unfolding norm_loop norm_step all
norm_loop-segments stack [] h = sym (append-nil (reverse stack))
norm_loop-segments stack (comp ∷ comps) h =
    let a : (comp == "") ≡ false = ground arith in
    let b : (comp == ".") ≡ false = ground arith in
    let d : (comp == "..") ≡ false = ground arith in
    rw a (
      rw b (
        rw d (
          norm_loop-segments (comp ∷ stack) comps (ground arith)
          ∙ ap (λ l. l ++ comps) (reverse-append (comp ∷ []) stack)
          ∙ append_assoc (reverse stack) (comp ∷ []) comps)))

pub all-append : (p : String → Bool) (xs ys : List String) → all p (xs ++ ys) ≡ all p xs && all p ys
unfolding all
all-append p [] ys = refl
all-append p (x ∷ xs) ys = ground (arith, all-append p xs ys)

pub all-reverse :
    (p : String → Bool) (xs : List String) → all p xs ≡ true → all p (reverse xs) ≡ true
unfolding all
all-reverse p [] h = refl
all-reverse p (x ∷ xs) h =
    rw (reverse-append (x ∷ []) xs)
      (ground (arith, all-append p (reverse xs) (x ∷ []), all-reverse p xs (ground arith)))

-- A stack that begins with `..` is a path that does.
pub reverse-bottom :
    (stack : List String)
    → bottom stack ≡ ".."
    → (rest : List String) × (reverse stack ≡ (".." ∷ rest))
reverse-bottom [] h = absurd (nil≢cons h)
reverse-bottom (s ∷ []) h = ([], ap (λ z. z ∷ []) h)
reverse-bottom (s ∷ t ∷ ts) h =
    let (rest, e) = reverse-bottom (t ∷ ts) h in
    (rest ++ s ∷ [], reverse-append (s ∷ []) (t ∷ ts) ∙ ap (λ l. l ++ s ∷ []) e)
