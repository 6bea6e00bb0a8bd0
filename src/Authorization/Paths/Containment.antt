-- ===== src/Authorization/Paths/Containment.antt =====
-- `_path_contains` read on segments.
use bridle.Authorization.Paths.Splitting.{join-append, split-join-append}
use bridle.Authorization.Paths.Render.{special-slash, render}
use bridle.Authorization.Paths.Segments.{is_segment}
use bridle.Prelude.{
  ◌∙◌, List, [], ◌∷◌, ◌++◌, true, false, inl, inr, refl, Bool, String, all, rstrip, ◌≡◌, string_eq,
  join, avoids, CharClass, keep_char, ap, ◌==◌, arith, ◌||◌, Bool-cases, sym, split, eq-of-==, ◌↔◌,
  eq_self, if◌then◌else◌, ==-of_ne,
}
use Prim.Native.Char.{code}
use Prim.Native.String as Str
use Prim.Native.String.{◌++◌ as text_append}
use mathlib.Core.Path.{subst}
use mathlib.Core.List.{append-nil}
use text.Mathlib.Text.{starts_with}
use text.Mathlib.TextLemmas.{
  nil-append, cons-append, append_assoc as text-append_assoc, append-eq-nil_iff,
}
use text.Mathlib.TextEquality.{starts_with_iff}
use text.Mathlib.TextPositions.{starts_with_of_prefix}
use bridle.Authorization.Paths.{below, slash, first_segment}
use bridle.Authorization.Paths.Stable.{fields, join-ne-empty, split-render, render-join, all-fields}

rstrip-avoids : (drop : CharClass) (s : String) → avoids drop s ≡ true → rstrip drop s ≡ s
unfolding rstrip avoids
rstrip-avoids drop Str.[] h = refl
rstrip-avoids drop (Str.◌∷◌ c s) h =
    let other : drop (code c) ≡ false = ground arith in
    rw (rstrip-avoids drop s (ground arith)) (kept s)
  where
    kept : (t : String) → keep_char drop c t ≡ Str.◌∷◌ c t
    kept Str.[] = ground arith
    kept (Str.◌∷◌ d t) = refl

-- Only the end of a text is stripped.
rstrip-append :
    (drop : CharClass) (s t : String)
    → rstrip drop t ≡ t
    → ¬ (t ≡ "")
    → rstrip drop (text_append s t) ≡ text_append s t
unfolding rstrip
rstrip-append drop Str.[] t h n = rw nil-append h
rstrip-append drop (Str.◌∷◌ c s) t h n =
    rw cons-append
      (rw (rstrip-append drop s t h n) (kept (text_append s t) (λ e. n (append-eq-nil_iff.0 e).1)))
  where
    kept : (u : String) → ¬ (u ≡ "") → keep_char drop c u ≡ Str.◌∷◌ c u
    kept Str.[] m = absurd (m refl)
    kept (Str.◌∷◌ d u) m = refl

rstrip-join :
    (s : String) (ss : List String)
    → all is_segment (s ∷ ss) ≡ true
    → rstrip slash (join "/" (s ∷ ss)) ≡ join "/" (s ∷ ss)
unfolding all join
rstrip-join s [] h = rstrip-avoids slash s (special-slash s (ground arith))
rstrip-join s (t ∷ ts) h =
    let rest = rstrip-join t ts (ground arith) in
    let full = join-ne-empty t ts (ground arith) in
    rstrip-append slash s (text_append "/" (join "/" (t ∷ ts)))
      (rstrip-append slash "/" (join "/" (t ∷ ts)) rest full) (λ e. full (append-eq-nil_iff.0 e).1)

-- A segment list that another begins with.
abbrev pub Begins : List String → List String → Type 0
Begins ps cs = (qs : List String) × (ps ++ qs ≡ cs)

-- `fields` adds nothing in front of a segment.
Begins-fields :
    (p : String) (ps qs cs : List String)
    → all is_segment (p ∷ ps) ≡ true
    → (p ∷ ps) ++ qs ≡ fields cs
    → (p ∷ ps) ++ qs ≡ cs
unfolding all string_eq
Begins-fields p ps qs [] h e =
    let dot : p ≡ "." = ap first_segment e in
    let same : (p == ".") ≡ true = ap (λ (z : String). z == ".") dot in absurd (ground arith)
Begins-fields p ps qs (c ∷ cs) h e = e

below-Begins :
    (p : String) (ps cs : List String)
    → all is_segment (p ∷ ps) ≡ true
    → all is_segment cs ≡ true
    → (render cs == render (p ∷ ps)
        || starts_with (render cs) (text_append (rstrip slash (render (p ∷ ps))) "/"))
      ≡ true
    → Begins (p ∷ ps) cs
below-Begins p ps cs hp hc h = elim (Bool-cases (render cs == render (p ∷ ps))) [
  | inl a ↦ (
    [],
    Begins-fields p ps [] cs hp (
        append-nil (p ∷ ps)
        ∙ sym (split-render (p ∷ ps) hp)
        ∙ ap (split 47) (sym (eq-of-== (render cs) (render (p ∷ ps)) a))
        ∙ split-render cs hc),
  )
  | inr b ↦
      let stem = rstrip slash (render (p ∷ ps)) in
      let (u, e) = (starts_with_iff (render cs) (text_append stem "/")).0 (ground arith) in
      let bare : stem ≡ join "/" (p ∷ ps) =
        ap (rstrip slash) (render-join (p ∷ ps) hp) ∙ rstrip-join p ps hp in
      let whole : text_append (join "/" (p ∷ ps)) (text_append "/" u) ≡ render cs =
        ap (λ t. text_append t (text_append "/" u)) (sym bare)
        ∙ sym (text-append_assoc stem "/" u)
        ∙ e in
      (
        split 47 u,
        Begins-fields p ps (split 47 u) cs hp (
            sym (split-join-append p ps u (all-fields (p ∷ ps) hp))
            ∙ ap (split 47) whole
            ∙ split-render cs hc),
      )
]

Begins-below :
    (p : String) (ps cs : List String)
    → all is_segment (p ∷ ps) ≡ true
    → all is_segment cs ≡ true
    → Begins (p ∷ ps) cs
    → (render cs == render (p ∷ ps)
        || starts_with (render cs) (text_append (rstrip slash (render (p ∷ ps))) "/"))
      ≡ true
Begins-below p ps cs hp hc ([], e) =
    let same : (render cs == render (p ∷ ps)) ≡ true =
      subst (λ l. (render cs == render l) ≡ true) (sym e ∙ append-nil (p ∷ ps))
        (eq_self (render cs)) in
    ground (arith, same)
Begins-below p ps cs hp hc (q ∷ qs, e) =
    let stem = rstrip slash (render (p ∷ ps)) in
    let bare : stem ≡ join "/" (p ∷ ps) =
      ap (rstrip slash) (render-join (p ∷ ps) hp) ∙ rstrip-join p ps hp in
    let whole : render cs ≡ text_append (text_append stem "/") (join "/" (q ∷ qs)) =
      render-join cs hc
      ∙ ap (λ l. join "/" (fields l)) (sym e)
      ∙ join-append p ps q qs
      ∙ ap (λ t. text_append t (text_append "/" (join "/" (q ∷ qs)))) (sym bare)
      ∙ sym (text-append_assoc stem "/" (join "/" (q ∷ qs))) in
    let pre =
      starts_with_of_prefix (text_append stem "/") (render cs) (join "/" (q ∷ qs), sym whole) in
    or_true (render cs == render (p ∷ ps)) pre
  where
    or_true : {b : Bool} (a : Bool) → b ≡ true → a || b ≡ true
    or_true true h = refl
    or_true false h = h

dot-ne :
    (s : String) (ss : List String) → all is_segment (s ∷ ss) ≡ true → ¬ ((s ∷ ss) ≡ ("." ∷ []))
unfolding all
dot-ne s ss h e =
    let same : (s == ".") ≡ true =
      ap (λ (l : List String). first_segment l == ".") e ∙ eq_self {A = String} "." in
    absurd (ground arith)

-- The segments of a normalized path.
unfoldable pub segments : String → List String
segments n = if n == "." then [] else split 47 n

pub segments-render : (ss : List String) → all is_segment ss ≡ true → segments (render ss) ≡ ss
unfolding segments string_eq join all
segments-render [] h = refl
segments-render (s ∷ ss) h = elim (Bool-cases (render (s ∷ ss) == ".")) [
  | inl a ↦ absurd (
      dot-ne s ss h (
        sym (split-render (s ∷ ss) h)
        ∙ ap (split 47) (eq-of-== (render (s ∷ ss)) "." a)
        ∙ split-render [] refl))
  | inr a ↦ rw a (split-render (s ∷ ss) h)
]

pub below_iff :
    (ps cs : List String)
    → all is_segment ps ≡ true
    → all is_segment cs ≡ true
    → (below (render ps) (render cs) ≡ true) ↔ Begins ps cs
unfolding join string_eq all
below_iff [] cs hp hc = (λ h. (cs, refl), λ b. refl)
below_iff (p ∷ ps) cs hp hc =
    let other : (render (p ∷ ps) == ".") ≡ false = ==-of_ne (render (p ∷ ps)) "." (λ q.
      dot-ne p ps hp (sym (split-render (p ∷ ps) hp) ∙ ap (split 47) q ∙ split-render [] refl)) in
    (
      λ h. below-Begins p ps cs hp hc (ground arith),
      λ b. let h = Begins-below p ps cs hp hc b in rw other h,
    )
