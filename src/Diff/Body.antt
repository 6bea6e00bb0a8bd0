-- ===== src/Diff/Body.antt =====
-- backend/src/bridle/agent/tools/unified_diff.py: the body of a hunk, printed and read again.
use bridle.Prelude.{
  List, [], ◌∷◌, true, false, inl, inr, refl, Bool, ℕ, String, if◌then◌else◌, map, nat_eq, ◌≡◌,
  length, Bool-cases, arith, ◌||◌,
}
use Prim.Native.String as Str
use bridle.Diff.Lines.{strip_prefix, begins_with}
use bridle.Diff.Parse.{
  Sides, no_sides, context_line, added_line, removed_line, body_line, ends_hunk, hunk_body,
}

-- A line of an edit, as a diff shows it.
pub data EditLine : Type 0 where
  keep_text add_text remove_text : String → EditLine

abbrev pub print_line : EditLine → String
print_line (keep_text text) = Str.◌∷◌ " " text
print_line (add_text text) = Str.◌∷◌ "+" text
print_line (remove_text text) = Str.◌∷◌ "-" text

abbrev pub sides_of : List EditLine → Sides
sides_of [] = no_sides
sides_of (keep_text text ∷ es) = context_line text (sides_of es)
sides_of (add_text text ∷ es) = added_line text (sides_of es)
sides_of (remove_text text ∷ es) = removed_line text (sides_of es)

-- A line that is printed like the `---` or the `+++` line of a file.
abbrev pub reads_as_header : EditLine → Bool
reads_as_header (keep_text text) = false
reads_as_header (add_text text) = begins_with text "++ "
reads_as_header (remove_text text) = begins_with text "-- "

-- The lines in front of the first such line.
unfoldable pub until_header : List EditLine → List EditLine
until_header [] = []
until_header (e ∷ es) = if reads_as_header e then [] else e ∷ until_header es

or_false : (b : Bool) → b || false ≡ b
or_false true = refl
or_false false = refl

ends_hunk-print : (e : EditLine) → ends_hunk (print_line e) ≡ reads_as_header e
unfolding ends_hunk strip_prefix nat_eq
ends_hunk-print (keep_text text) = refl
ends_hunk-print (add_text text) = refl
ends_hunk-print (remove_text text) = or_false (begins_with text "-- ")

body_line-print :
    (e : EditLine) (es : List EditLine) → body_line (print_line e) (sides_of es) ≡ sides_of (e ∷ es)
unfolding body_line nat_eq
body_line-print (keep_text text) es = refl
body_line-print (add_text text) es = refl
body_line-print (remove_text text) es = refl

both : {s s' : Sides} {n n' : ℕ} → s ≡ s' → n ≡ n' → ◌≡◌ {A = Sides × ℕ} (s, n) (s', n')
both p q = λ i. (p i, q i)

-- The lines of an edit, printed with their signs, are read back as the body of a hunk up to the
-- first that is printed like a `---` or `+++` line, that is, a removed text that begins with `-- `
-- or an added one that begins with `++ `; that line and all that follow are not read into the
-- hunk.
pub hunk_body-print :
    (es : List EditLine)
    → hunk_body (map print_line es) ≡ (sides_of (until_header es), length (until_header es))
unfolding hunk_body until_header
hunk_body-print [] = refl
hunk_body-print (e ∷ es) = elim (Bool-cases (reads_as_header e)) [
  | inl h ↦ rw (ends_hunk-print e) (rw h refl)
  | inr h ↦
      rw (ends_hunk-print e)
        (rw h (rw (hunk_body-print es) (both (body_line-print e (until_header es)) (omega arith))))
]
