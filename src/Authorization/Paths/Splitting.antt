-- ===== src/Authorization/Paths/Splitting.antt =====
-- The strings that `normpath` splits at slashes and joins again.
use bridle.Prelude.{
  ◌∙◌, List, [], ◌∷◌, ◌++◌, true, false, inl, inr, refl, String, avoids, ◌≡◌, join, all, ap, split,
  replace_char, CharClass, ◌==◌, arith, nat_eq, Bool-cases, ◌&&◌, to_first,
}
use Prim.Native.Char.{code}
use Prim.Native.String as Str
use Prim.Native.String.{◌++◌ as text_append}
use text.Mathlib.TextLemmas.{nil-append, cons-append, append_assoc}
use bridle.Authorization.Paths.{slash}

pub slash_append : (t : String) → text_append "/" t ≡ Str.◌∷◌ "/" t
slash_append t = cons-append "/" "" t ∙ ap (λ u. Str.◌∷◌ "/" u) (nil-append t)

-- Splitting at the first slash.
pub split-append_slash :
    (s t : String)
    → avoids slash s ≡ true
    → split 47 (text_append s (text_append "/" t)) ≡ s ∷ split 47 t
unfolding avoids split nat_eq
split-append_slash Str.[] t h = rw nil-append (rw slash_append refl)
split-append_slash (Str.◌∷◌ c s) t h =
    let other : (code c == 47) ≡ false = ground arith in
    let rest : split 47 (text_append s (text_append "/" t)) ≡ s ∷ split 47 t =
      split-append_slash s t (ground arith) in
    rw cons-append (rw (other) (rw rest refl))

pub split-avoids : (s : String) → avoids slash s ≡ true → split 47 s ≡ s ∷ []
unfolding avoids split
split-avoids Str.[] h = refl
split-avoids (Str.◌∷◌ c s) h =
    let other : (code c == 47) ≡ false = ground arith in
    let rest : split 47 s ≡ s ∷ [] = split-avoids s (ground arith) in rw other (rw rest refl)

pub split-join-append :
    (s : String) (ss : List String) (t : String)
    → all (avoids slash) (s ∷ ss) ≡ true
    → split 47 (text_append (join "/" (s ∷ ss)) (text_append "/" t)) ≡ (s ∷ ss) ++ split 47 t
unfolding all join
split-join-append s [] t h = split-append_slash s t (ground arith)
split-join-append s (r ∷ rs) t h = rw append_assoc (
    rw append_assoc (
      rw (split-append_slash s (text_append (join "/" (r ∷ rs)) (text_append "/" t)) (ground arith))
        (ap (λ us. s ∷ us) (split-join-append r rs t (ground arith)))))

pub split-join :
    (s : String) (ss : List String)
    → all (avoids slash) (s ∷ ss) ≡ true
    → split 47 (join "/" (s ∷ ss)) ≡ s ∷ ss
unfolding all join
split-join s [] h = split-avoids s (ground arith)
split-join s (r ∷ rs) h =
    split-append_slash s (join "/" (r ∷ rs)) (ground arith)
    ∙ ap (λ us. s ∷ us) (split-join r rs (ground arith))

pub join-append :
    (s : String) (ss : List String) (t : String) (ts : List String)
    → join "/" ((s ∷ ss) ++ (t ∷ ts))
      ≡ text_append (join "/" (s ∷ ss)) (text_append "/" (join "/" (t ∷ ts)))
unfolding join
join-append s [] t ts = refl
join-append s (r ∷ rs) t ts = rw (join-append r rs t ts) (rw append_assoc (rw append_assoc refl))

-- Characters that a text avoids, its fields avoid.
pub all-split :
    (bad : CharClass) (s : String)
    → avoids bad s ≡ true
    → all (λ f. avoids slash f && avoids bad f) (split 47 s) ≡ true
unfolding all avoids split
all-split bad Str.[] h = refl
all-split bad (Str.◌∷◌ c s) h =
    let rest = all-split bad s (ground arith) in
    elim (Bool-cases (code c == 47)) [
      | inl q ↦ rw q rest
      | inr q ↦ rw q (to_first-all (split 47 s) (ground arith) q rest)
    ]
  where
    to_first-all :
        (fields : List String)
        → bad (code c) ≡ false
        → (code c == 47) ≡ false
        → all (λ f. avoids slash f && avoids bad f) fields ≡ true
        → all (λ f. avoids slash f && avoids bad f) (to_first c fields) ≡ true
    to_first-all [] b q g = ground arith
    to_first-all (f ∷ fs) b q g = ground arith

pub avoids-replace_char :
    (bad : CharClass) (s : String)
    → avoids bad s ≡ true
    → bad 47 ≡ false
    → avoids bad (replace_char 92 "/" s) ≡ true
unfolding avoids replace_char
avoids-replace_char bad Str.[] h b = refl
avoids-replace_char bad (Str.◌∷◌ c s) h b =
    let rest = avoids-replace_char bad s (ground arith) b in
    elim (Bool-cases (code c == 92)) [
      | inl q ↦ rw q (rw b rest)
      | inr q ↦ rw q (let fine : bad (code c) ≡ false = ground arith in rw fine rest)
    ]

pub avoids-replaced : (s : String) → avoids (λ c. c == 92) (replace_char 92 "/" s) ≡ true
unfolding avoids replace_char nat_eq
avoids-replaced Str.[] = refl
avoids-replaced (Str.◌∷◌ c s) = elim (Bool-cases (code c == 92)) [
  | inl q ↦ rw q (avoids-replaced s)
  | inr q ↦ rw q (rw q (avoids-replaced s))
]

pub replace_char-avoids : (s : String) → avoids (λ c. c == 92) s ≡ true → replace_char 92 "/" s ≡ s
unfolding avoids replace_char
replace_char-avoids Str.[] h = refl
replace_char-avoids (Str.◌∷◌ c s) h =
    let other : (code c == 92) ≡ false = ground arith in
    let rest : replace_char 92 "/" s ≡ s = replace_char-avoids s (ground arith) in
    rw other (rw rest refl)
