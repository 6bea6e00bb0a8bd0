-- ===== src/Prelude/Text.antt =====
-- The string operations of the language that the code calls: `split`, `join`, `strip`, `rstrip`,
-- `replace` of one character, and the order of `sorted`.
use bridle.Prelude.Equality.{if◌then◌else◌, ◌==◌, nat_eq, string_eq, contains, Bool-cases}
use Prim.Native.Nat.{ℕ, Ordering}
use Prim.Native.Char.{Char, code}
use Prim.Native.String.{String, compare}
use Prim.Native.String as Str
use mathlib.Core.Bool.{Bool, true, false, not, ◌&&◌}
use mathlib.Core.Path.{◌≡◌, refl, ap, ◌∙◌}
use mathlib.Core.Logic.{inl, inr}
use text.Mathlib.TextLemmas.{nil≢cons, tail-eq_of_cons-eq}
use mathlib.Core.List.{List, [], ◌∷◌}

-- A character class, by code point.
abbrev pub CharClass : Type 0
CharClass = ℕ → Bool

-- `sep in text`, for a text of one character, and its negation for every character of a class.
unfoldable pub avoids : CharClass → String → Bool
avoids bad Str.[] = true
avoids bad (Str.◌∷◌ c s) = not (bad (code c)) && avoids bad s

-- Add a character to the first field of a split.
abbrev pub to_first : Char → List String → List String
to_first c [] = Str.◌∷◌ c Str.[] ∷ []
to_first c (field ∷ fields) = Str.◌∷◌ c field ∷ fields

-- `text.split(sep)`, for a separator of one character.
unfoldable pub split : ℕ → String → List String
split sep Str.[] = "" ∷ []
split sep (Str.◌∷◌ c s) = if code c == sep then "" ∷ split sep s else to_first c (split sep s)

-- `sep.join(fields)`
unfoldable pub join : String → List String → String
join sep [] = ""
join sep (s ∷ []) = s
join sep (s ∷ t ∷ ts) = Str.◌++◌ s (Str.◌++◌ sep (join sep (t ∷ ts)))

-- `text.replace(old, new)`, for texts of one character.
unfoldable pub replace_char : ℕ → Char → String → String
replace_char old new Str.[] = ""
replace_char old new (Str.◌∷◌ c s) =
    Str.◌∷◌ (if code c == old then new else c) (replace_char old new s)

-- `text.rstrip(chars)`
abbrev pub keep_char : CharClass → Char → String → String
keep_char drop c Str.[] = if drop (code c) then "" else Str.◌∷◌ c Str.[]
keep_char drop c (Str.◌∷◌ d t) = Str.◌∷◌ c (Str.◌∷◌ d t)

unfoldable pub rstrip : CharClass → String → String
rstrip drop Str.[] = ""
rstrip drop (Str.◌∷◌ c s) = keep_char drop c (rstrip drop s)

-- `text.lstrip(chars)`
unfoldable pub lstrip : CharClass → String → String
lstrip drop Str.[] = ""
lstrip drop (Str.◌∷◌ c s) = if drop (code c) then lstrip drop s else Str.◌∷◌ c s

-- `str.isspace` of one character.
abbrev pub is_space : CharClass
is_space = contains (
    9 ∷ 10 ∷ 11 ∷ 12 ∷ 13 ∷ 28 ∷ 29 ∷ 30 ∷ 31 ∷ 32 ∷ 133 ∷ 160 ∷ 5760 ∷ 8192 ∷ 8193 ∷ 8194 ∷ 8195
    ∷ 8196 ∷ 8197 ∷ 8198 ∷ 8199 ∷ 8200 ∷ 8201 ∷ 8202 ∷ 8232 ∷ 8233 ∷ 8239 ∷ 8287 ∷ 12288 ∷ [])

-- `text.strip()`
unfoldable pub strip : String → String
strip s = lstrip is_space (rstrip is_space s)

-- `not text.strip()`
abbrev pub is_blank : String → Bool
is_blank s = strip s == ""

abbrev pub string_lt : String → String → Bool
string_lt s t = elim (compare s t) [ Ordering.lt ↦ true | _ ↦ false ]

rstrip-keep_char :
    (drop : CharClass) (c : Char) (u : String)
    → rstrip drop u ≡ u
    → rstrip drop (keep_char drop c u) ≡ keep_char drop c u
unfolding rstrip
rstrip-keep_char drop c Str.[] h = elim (Bool-cases (drop (code c))) [
  | inl a ↦ rw a refl
  | inr a ↦ rw a (rw a refl)
]
rstrip-keep_char drop c (Str.◌∷◌ d t) h = ap (keep_char drop c) h

rstrip_again : (drop : CharClass) (s : String) → rstrip drop (rstrip drop s) ≡ rstrip drop s
unfolding rstrip
rstrip_again drop Str.[] = refl
rstrip_again drop (Str.◌∷◌ c s) = rstrip-keep_char drop c (rstrip drop s) (rstrip_again drop s)

keep_char-tail :
    (drop : CharClass) (c : Char) (u t : String) → keep_char drop c u ≡ Str.◌∷◌ c t → u ≡ t
keep_char-tail drop c Str.[] t h = elim (Bool-cases (drop (code c))) [
  | inl a ↦ absurd (nil≢cons (rw a at h))
  | inr a ↦ let e : Str.◌∷◌ c Str.[] ≡ Str.◌∷◌ c t = rw a at h in tail-eq_of_cons-eq e
]
keep_char-tail drop c (Str.◌∷◌ d s) t h = tail-eq_of_cons-eq h

rstrip-lstrip :
    (drop : CharClass) (t : String)
    → rstrip drop t ≡ t
    → rstrip drop (lstrip drop t) ≡ lstrip drop t
unfolding rstrip lstrip
rstrip-lstrip drop Str.[] h = refl
rstrip-lstrip drop (Str.◌∷◌ c t) h = elim (Bool-cases (drop (code c))) [
  | inl a ↦ rw a (rstrip-lstrip drop t (keep_char-tail drop c (rstrip drop t) t h))
  | inr a ↦ rw a h
]

lstrip_again : (drop : CharClass) (s : String) → lstrip drop (lstrip drop s) ≡ lstrip drop s
unfolding lstrip
lstrip_again drop Str.[] = refl
lstrip_again drop (Str.◌∷◌ c s) = elim (Bool-cases (drop (code c))) [
  | inl a ↦ rw a (lstrip_again drop s)
  | inr a ↦ rw a (rw a refl)
]

pub strip_again : (s : String) → strip (strip s) ≡ strip s
unfolding strip
strip_again s =
    ap (lstrip is_space) (rstrip-lstrip is_space (rstrip is_space s) (rstrip_again is_space s))
    ∙ lstrip_again is_space (rstrip is_space s)
