-- ===== src/Authorization/Paths/Render.antt =====
-- What `_normalize_relative_path` returns: a path written from its segments.
use bridle.Authorization.Paths.Splitting.{
  all-split, avoids-replace_char, avoids-replaced, slash_append,
}
use bridle.Prelude.{
  ◌∙◌, List, [], ◌∷◌, true, false, inl, inr, refl, Bool, ℕ, String, join, avoids, ◌==◌, ◌≡◌,
  CharClass, all, arith, string_eq, split, nat_eq, replace_char, ◌&&◌, ==-of_ne, sym, ◌⊎◌, ◌||◌,
  Bool-cases, ap, not, eq_self, reverse, eq-of-==,
}
use Prim.Native.Char.{code}
use Prim.Native.String as Str
use Prim.Native.String.{◌++◌ as text_append}
use mathlib.Core.Path.{subst}
use mathlib.Core.Bool.{true≢false}
use text.Mathlib.TextBridge.{IsPrefix}
use text.Mathlib.Text.{starts_with}
use text.Mathlib.TextLemmas.{nil-append, append_assoc, nil≢cons, cons≢nil, append-eq-nil_iff}
use text.Mathlib.TextPositions.{starts_with_of_prefix}
use bridle.Errors.{ok, require-eq-ok, value_error, ok-injective}
use bridle.Authorization.Paths.{
  normpath, normalize_relative_path, slash, or_dot, initial_slashes, norm_loop, nul, escapes,
}
use bridle.Authorization.Paths.Segments.{
  is_special, is_segment, is_component, StackShape, all-reverse, reverse-bottom, norm_loop-shape,
}

-- The path of a list of segments.
abbrev pub render : List String → String
render segments = or_dot (join "/" segments)

pub avoids-weaken :
    (good bad : CharClass) (s : String)
    → ((c : ℕ) → good c ≡ false → bad c ≡ false)
    → avoids good s ≡ true
    → avoids bad s ≡ true
unfolding avoids
avoids-weaken good bad Str.[] f h = refl
avoids-weaken good bad (Str.◌∷◌ c s) f h =
    let rest = avoids-weaken good bad s f (ground arith) in
    let fine : bad (code c) ≡ false = f (code c) (ground arith) in ground (arith, rest, fine)

pub special-slash : (s : String) → avoids is_special s ≡ true → avoids slash s ≡ true
special-slash s h = avoids-weaken is_special slash s (λ c q. ground arith) h

pub special-backslash : (s : String) → avoids is_special s ≡ true → avoids (λ c. c == 92) s ≡ true
special-backslash s h = avoids-weaken is_special (λ c. c == 92) s (λ c q. ground arith) h

avoids-special :
    (s : String)
    → avoids slash s ≡ true
    → avoids (λ c. c == 92) s ≡ true
    → avoids nul s ≡ true
    → avoids is_special s ≡ true
unfolding avoids
avoids-special Str.[] a b c = refl
avoids-special (Str.◌∷◌ d s) a b c =
    let rest = avoids-special s (ground arith) (ground arith) (ground arith) in ground (arith, rest)

all-both :
    (fields : List String)
    → all (λ f. avoids slash f && avoids nul f) fields ≡ true
    → all (λ f. avoids slash f && avoids (λ c. c == 92) f) fields ≡ true
    → all is_component fields ≡ true
unfolding all
all-both [] a b = refl
all-both (f ∷ fs) a b =
    let one = avoids-special f (ground arith) (ground arith) (ground arith) in
    let rest = all-both fs (ground arith) (ground arith) in ground (arith, one, rest)

-- The fields of a path without a NUL, its backslashes replaced.
all-component :
    (s : String) → avoids nul s ≡ true → all is_component (split 47 (replace_char 92 "/" s)) ≡ true
unfolding nat_eq
all-component s h =
    all-both (split 47 (replace_char 92 "/" s))
      (all-split nul (replace_char 92 "/" s) (avoids-replace_char nul s h refl))
      (all-split (λ c. c == 92) (replace_char 92 "/" s) (avoids-replaced s))

initial_slashes-cases :
    (path : String)
    → (initial_slashes path ≡ "//") ⊎ (initial_slashes path ≡ "/") ⊎ (initial_slashes path ≡ "")
initial_slashes-cases path =
    elim (Bool-cases (starts_with path "//" && not (starts_with path "///"))) [
      | inl a ↦ inl (rw a refl)
      | inr a ↦ elim (Bool-cases (starts_with path "/")) [
        | inl b ↦ inr (inl (rw a (rw b refl)))
        | inr b ↦ inr (inr (rw a (rw b refl)))
      ]
    ]

-- A text that begins with a slash.
slash-rejected : (text : String) → IsPrefix "/" text → starts_with (or_dot text) "/" ≡ true
slash-rejected text (u, e) =
    let full : (text == "") ≡ false =
      ==-of_ne text "" (λ q. cons≢nil (sym (slash_append u) ∙ e ∙ q)) in
    rw full (starts_with_of_prefix "/" text (u, e))

-- A path that begins with a slash keeps one.
slashes-rejected :
    (path rest : String)
    → (initial_slashes path == "") ≡ false
    → starts_with (or_dot (text_append (initial_slashes path) rest)) "/" ≡ true
slashes-rejected path rest h = elim (initial_slashes-cases path) [
  | inl a ↦
      slash-rejected (text_append (initial_slashes path) rest) (
        text_append "/" rest,
        sym (append_assoc "/" "/" rest) ∙ ap (λ s. text_append s rest) (sym a),
      )
  | inr (inl a) ↦
      slash-rejected (text_append (initial_slashes path) rest)
        (rest, ap (λ s. text_append s rest) (sym a))
  | inr (inr a) ↦
      absurd (true≢false (sym (eq_self {A = String} "") ∙ ap (λ (z : String). z == "") (sym a) ∙ h))
]

-- A path that begins with `..`.
up-rejected :
    (rest : List String)
    → (render (".." ∷ rest) == ".." || starts_with (render (".." ∷ rest)) "../") ≡ true
unfolding join string_eq
up-rejected [] = refl
up-rejected (s ∷ ss) =
    let text = join "/" (".." ∷ s ∷ ss) in
    let pre : IsPrefix "../" text =
      (join "/" (s ∷ ss), append_assoc ".." "/" (join "/" (s ∷ ss))) in
    let full : (text == "") ≡ false =
      ==-of_ne text "" (λ q. nil≢cons (sym (append-eq-nil_iff.0 q).0)) in
    let up : starts_with text "../" ≡ true = starts_with_of_prefix "../" text pre in
    rw full (rw up (or_true (text == "..")))
  where
    or_true : (b : Bool) → b || true ≡ true
    or_true true = refl
    or_true false = refl

pub relative-text :
    (slashes : String) (comps : List String)
    → slashes ≡ ""
    → or_dot (text_append slashes (join "/" (reverse (norm_loop (not (slashes == "")) [] comps))))
      ≡ render (reverse (norm_loop false [] comps))
relative-text slashes comps e =
    ap (λ s. or_dot (text_append s (join "/" (reverse (norm_loop (not (s == "")) [] comps))))) e
    ∙ ap (λ b. or_dot (text_append "" (join "/" (reverse (norm_loop (not b) [] comps)))))
        (eq_self {A = String} "")
    ∙ ap or_dot (nil-append (join "/" (reverse (norm_loop false [] comps))))

-- A path that is not refused has no `..` left.
relative-segments :
    (kept : List String) (replaced : String)
    → StackShape kept
    → not (escapes (render (reverse kept)) replaced) ≡ true
    → all is_segment (reverse kept) ≡ true
relative-segments kept replaced (inl h) g = all-reverse is_segment kept h
relative-segments kept replaced (inr h) g =
    let (rest, e) = reverse-bottom kept h in
    let up = up-rejected rest in
    let inside : not (escapes (render (".." ∷ rest)) replaced) ≡ true =
      subst (λ l. not (escapes (render l) replaced) ≡ true) e g in
    absurd (ground (arith, up, inside))

-- The result is a path written from its segments: none is empty, `.` or `..`, and none has a
-- slash, a backslash or a NUL.
pub normalize-segments :
    (path : String) {n : String}
    → normalize_relative_path path ≡ ok n
    → (segments : List String) × (all is_segment segments ≡ true)
      × (n ≡ render segments)
      × (escapes n (replace_char 92 "/" path) ≡ false)
unfolding normalize_relative_path normpath all
normalize-segments path {n} h =
    let replaced = replace_char 92 "/" path in
    let comps = split 47 replaced in
    let kept = norm_loop (not (initial_slashes replaced == "")) [] comps in
    let text = or_dot (text_append (initial_slashes replaced) (join "/" (reverse kept))) in
    let (fine, rest) =
      require-eq-ok (not (path == "") && avoids nul path) (value_error "invalid_path") _ h in
    let (inside, done) =
      require-eq-ok (not (escapes text replaced)) (value_error "invalid_path") (ok text) rest in
    elim (Bool-cases (initial_slashes replaced == "")) [
      | inr a ↦
          let rooted = slashes-rejected replaced (join "/" (reverse kept)) a in
          absurd (ground arith)
      | inl a ↦
          let same = relative-text (initial_slashes replaced) comps (eq-of-== _ "" a) in
          let shape = norm_loop-shape [] comps (all-component path (ground arith)) (inl refl) in
          (
            reverse (norm_loop false [] comps),
            relative-segments (norm_loop false [] comps) replaced shape
                (subst (λ t. not (escapes t replaced) ≡ true) same inside),
            sym (ok-injective text n done) ∙ same,
            subst (λ t. escapes t replaced ≡ false) (ok-injective text n done) (ground arith),
          )
    ]
