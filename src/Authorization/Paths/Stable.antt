-- ===== src/Authorization/Paths/Stable.antt =====
-- Normalizing a normalized path again.
use bridle.Authorization.Paths.Splitting.{split-append_slash, split-join, replace_char-avoids}
use bridle.Authorization.Paths.Render.{
  special-slash, render, relative-text, avoids-weaken, normalize-segments,
}
use bridle.Prelude.{
  ◌∙◌, List, [], ◌∷◌, true, false, inl, inr, refl, Bool, ℕ, String, join, all, avoids, CharClass,
  ◌==◌, ◌≡◌, string_eq, nat_eq, arith, split, ◌&&◌, sym, reverse, Bool-cases, ==-of_ne, ap, eq_self,
  if◌then◌else◌, replace_char, not,
}
use Prim.Native.String as Str
use Prim.Native.String.{◌++◌ as text_append}
use mathlib.Core.Path.{subst}
use mathlib.Core.Bool.{true≢false}
use text.Mathlib.Text.{starts_with}
use text.Mathlib.TextBridge.{IsPrefix}
use text.Mathlib.TextLemmas.{nil-append, cons-append, append_assoc, append-eq-nil_iff}
use text.Mathlib.TextEquality.{starts_with_iff}
use bridle.Errors.{ok, raise, ◌>>◌, value_error, require}
use bridle.Authorization.Paths.{
  normpath, normalize_relative_path, slash, or_dot, initial_slashes, norm_loop, is_drive, norm_step,
  first_segment, escapes, nul,
}
use bridle.Authorization.Paths.Segments.{is_special, is_segment, norm_loop-segments}

-- The fields of the path of a list of segments: the workspace itself is `.`.
abbrev pub fields : List String → List String
fields [] = "." ∷ []
fields (s ∷ ss) = s ∷ ss

pub join-ne-empty : (s : String) (ss : List String) → (s == "") ≡ false → ¬ (join "/" (s ∷ ss) ≡ "")
unfolding join
join-ne-empty s [] h e =
    true≢false (sym (eq_self {A = String} "") ∙ ap (λ (z : String). z == "") (sym e) ∙ h)
join-ne-empty s (t ∷ ts) h e = true≢false (
    sym (eq_self {A = String} "")
    ∙ ap (λ (z : String). z == "") (sym (append-eq-nil_iff.0 e).0)
    ∙ h)

pub render-join : (ss : List String) → all is_segment ss ≡ true → render ss ≡ join "/" (fields ss)
unfolding join all string_eq
render-join [] h = refl
render-join (s ∷ ss) h =
    rw (==-of_ne (join "/" (s ∷ ss)) "" (join-ne-empty s ss (ground arith))) refl

pub all-slash : (ss : List String) → all is_segment ss ≡ true → all (avoids slash) ss ≡ true
unfolding all
all-slash [] h = refl
all-slash (s ∷ ss) h =
    let one = special-slash s (ground arith) in
    let rest = all-slash ss (ground arith) in ground (arith, one, rest)

pub all-fields :
    (ss : List String) → all is_segment ss ≡ true → all (avoids slash) (fields ss) ≡ true
unfolding all avoids nat_eq
all-fields [] h = refl
all-fields (s ∷ ss) h = all-slash (s ∷ ss) h

pub split-render : (ss : List String) → all is_segment ss ≡ true → split 47 (render ss) ≡ fields ss
split-render [] h = ap (split 47) (render-join [] h) ∙ split-join "." [] (all-fields [] h)
split-render (s ∷ ss) h =
    ap (split 47) (render-join (s ∷ ss) h) ∙ split-join s ss (all-fields (s ∷ ss) h)

-- No such path begins with a slash.
first-ne : (ss : List String) → all is_segment ss ≡ true → (first_segment (fields ss) == "") ≡ false
unfolding all string_eq
first-ne [] h = refl
first-ne (s ∷ ss) h = ground arith

render-rooted : (ss : List String) → all is_segment ss ≡ true → ¬ IsPrefix "/" (render ss)
unfolding avoids
render-rooted ss h (u, e) =
    let q : fields ss ≡ ("" ∷ split 47 u) =
      sym (split-render ss h)
      ∙ ap (split 47) (sym e)
      ∙ ap (split 47) (sym (nil-append _))
      ∙ split-append_slash "" u refl in
    true≢false (
      sym (eq_self {A = String} "")
      ∙ ap (λ (l : List String). first_segment l == "") (sym q)
      ∙ first-ne ss h)

pub initial_slashes-render :
    (ss : List String) → all is_segment ss ≡ true → initial_slashes (render ss) ≡ ""
initial_slashes-render ss h = elim (Bool-cases (starts_with (render ss) "//")) [
  | inl a ↦
      let (u, e) = (starts_with_iff (render ss) "//").0 a in
      absurd (render-rooted ss h (text_append "/" u, sym (append_assoc "/" "/" u) ∙ e))
  | inr a ↦ elim (Bool-cases (starts_with (render ss) "/")) [
    | inl b ↦ absurd (render-rooted ss h ((starts_with_iff (render ss) "/").0 b))
    | inr b ↦ rw a (rw b refl)
  ]
]

loop-fields :
    (ss : List String) → all is_segment ss ≡ true → reverse (norm_loop false [] (fields ss)) ≡ ss
unfolding norm_loop norm_step string_eq
loop-fields [] h = refl
loop-fields (s ∷ ss) h = norm_loop-segments [] (s ∷ ss) h

pub normpath-render :
    (ss : List String) → all is_segment ss ≡ true → normpath (render ss) ≡ render ss
unfolding normpath
normpath-render ss h =
    relative-text (initial_slashes (render ss)) (split 47 (render ss)) (initial_slashes-render ss h)
    ∙ ap (λ l. render (reverse (norm_loop false [] l))) (split-render ss h)
    ∙ ap render (loop-fields ss h)

avoids-append :
    (bad : CharClass) (s t : String) → avoids bad (text_append s t) ≡ avoids bad s && avoids bad t
unfolding avoids
avoids-append bad Str.[] t = rw nil-append refl
avoids-append bad (Str.◌∷◌ c s) t =
    rw cons-append (let rest = avoids-append bad s t in ground (arith, rest))

avoids-join :
    (bad : CharClass) (ss : List String)
    → bad 47 ≡ false
    → all (avoids bad) ss ≡ true
    → avoids bad (join "/" ss) ≡ true
unfolding avoids join all
avoids-join bad [] b h = refl
avoids-join bad (s ∷ []) b h = ground arith
avoids-join bad (s ∷ t ∷ ts) b h =
    let rest : avoids bad (join "/" (t ∷ ts)) ≡ true = avoids-join bad (t ∷ ts) b (ground arith) in
    let one = avoids-append bad s (text_append "/" (join "/" (t ∷ ts))) in
    let two = avoids-append bad "/" (join "/" (t ∷ ts)) in
    one ∙ rw two (rw rest (rw b (ground arith)))

all-special :
    (bad : CharClass) (ss : List String)
    → ((c : ℕ) → is_special c ≡ false → bad c ≡ false)
    → all is_segment ss ≡ true
    → all (avoids bad) ss ≡ true
unfolding all
all-special bad [] f h = refl
all-special bad (s ∷ ss) f h =
    let one = avoids-weaken is_special bad s f (ground arith) in
    let rest = all-special bad ss f (ground arith) in ground (arith, one, rest)

render-avoids :
    (bad : CharClass) (ss : List String)
    → ((c : ℕ) → is_special c ≡ false → bad c ≡ false)
    → bad 47 ≡ false
    → bad 46 ≡ false
    → all is_segment ss ≡ true
    → avoids bad (render ss) ≡ true
unfolding avoids join all string_eq
render-avoids bad [] f b d h = rw d refl
render-avoids bad (s ∷ ss) f b d h =
    ap (avoids bad) (render-join (s ∷ ss) h)
    ∙ avoids-join bad (s ∷ ss) b (all-special bad (s ∷ ss) f h)

or_dot-full : (text : String) → (or_dot text == "") ≡ false
unfolding string_eq
or_dot-full text = elim (Bool-cases (text == "")) [ inl a ↦ rw a refl | inr a ↦ rw a a ]

normalize-fixed :
    (n : String)
    → (n == "") ≡ false
    → avoids nul n ≡ true
    → replace_char 92 "/" n ≡ n
    → normpath n ≡ n
    → normalize_relative_path n ≡ (if escapes n n then raise (value_error "invalid_path") else ok n)
unfolding normalize_relative_path
normalize-fixed n full clean same norm =
    rw full (rw clean (rw same (rw norm (accepted (escapes n n)))))
  where
    accepted :
        (b : Bool)
        → (require (not b) (value_error "invalid_path") >> ok n)
          ≡ (if b then raise (value_error "invalid_path") else ok n)
    accepted true = refl
    accepted false = refl

-- The path of a list of segments is normalized to itself, unless it begins with a drive.
pub normalize-render :
    (ss : List String)
    → all is_segment ss ≡ true
    → normalize_relative_path (render ss) ≡ (
        if escapes (render ss) (render ss)
        then raise (value_error "invalid_path")
        else ok (render ss))
unfolding nat_eq
normalize-render ss h =
    normalize-fixed (render ss) (or_dot-full (join "/" ss))
      (render-avoids nul ss (λ c q. ground arith) refl refl h)
      (replace_char-avoids (render ss)
        (render-avoids (λ c. c == 92) ss (λ c q. ground arith) refl refl h))
      (normpath-render ss h)

-- A path that normalization returned is normalized to itself, unless its first segment ends with a
-- colon: then it is refused.
pub normalize_again :
    (path : String) {n : String}
    → normalize_relative_path path ≡ ok n
    → normalize_relative_path n ≡ (if is_drive n then raise (value_error "invalid_path") else ok n)
normalize_again path {n} h =
    let (ss, segments, same, inside) = normalize-segments path h in
    let once = normalize-render ss segments in
    let again : normalize_relative_path n
        ≡ (if escapes n n then raise (value_error "invalid_path") else ok n) =
      subst
        (λ t.
          normalize_relative_path t
          ≡ (if escapes t t then raise (value_error "invalid_path") else ok t))
        (sym same) once in
    again ∙ ap (λ b. if b then raise (value_error "invalid_path") else ok n) (ground arith)

-- Where the second pass succeeds, it changes nothing.
pub normalize_twice :
    (path : String) {n m : String}
    → normalize_relative_path path ≡ ok n
    → normalize_relative_path n ≡ ok m
    → n ≡ m
normalize_twice path {n} {m} h g = let again = normalize_again path h in ground (arith, again)
