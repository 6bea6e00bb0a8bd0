-- ===== src/Diff/Parse.antt =====
-- backend/src/bridle/agent/tools/unified_diff.py: `parse_unified_diff`. The digits of a hunk header
-- are taken to be those of ASCII.
use bridle.Prelude.{
  List, [], ◌∷◌, ◌++◌, none, some, false, Option, zero, suc, inl, inr, Bool, ℕ, String,
  if◌then◌else◌, strip, ◌||◌, CharClass, ◌⊎◌, ◌==◌, ◌-◌, ◌+◌, leb, ◌*◌, is_blank, ◌&&◌, nat_eq,
  string_eq,
}
use Prim.Native.Char.{code}
use Prim.Native.String as Str
use bridle.Diff.Lines.{splitlines, strip_prefix, begins_with, occurs_in}
use bridle.Diff.Hunks.{
  DiffHunk, ParsedDiff, DiffError, empty_diff, no_hunks_found, invalid_hunk_header, no_hunks,
}

-- The parts of a match, one after the other.
infixl 5 ◌>>=◌
abbrev ◌>>=◌ : {A B : Type 0} → Option A → (A → Option B) → Option B
part >>= next = elim part [ none ↦ none | some a ↦ next a ]

abbrev is_digit : CharClass
is_digit c = leb 48 c && leb c 57

-- `\d+`
unfoldable pub read_more : ℕ → String → ℕ × String
read_more n Str.[] = (n, "")
read_more n (Str.◌∷◌ c s) =
    if is_digit (code c) then read_more (n * 10 + (code c - 48)) s else (n, Str.◌∷◌ c s)

unfoldable pub read_number : String → Option (ℕ × String)
read_number Str.[] = none
read_number (Str.◌∷◌ c s) = if is_digit (code c) then some (read_more (code c - 48) s) else none

-- `(?:,(\d+))?`, read as 1 where it is missing.
unfoldable pub read_count : String → Option (ℕ × String)
read_count s = elim (strip_prefix "," s) [ none ↦ some (1, s) | some rest ↦ read_number rest ]

-- The numbers of a hunk header.
pub record Header : Type 0 where
  pub old_start : ℕ
  pub old_count : ℕ
  pub new_start : ℕ
  pub new_count : ℕ

unfoldable pub match_header : String → Option Header
match_header line = do
  r0 ← strip_prefix "@@ -" line
  (old_start, r1) ← read_number r0
  (old_count, r2) ← read_count r1
  r3 ← strip_prefix " +" r2
  (new_start, r4) ← read_number r3
  (new_count, r5) ← read_count r4
  _ ← strip_prefix " @@" r5
  some record {
    old_start = old_start;
    old_count = old_count;
    new_start = new_start;
    new_count = new_count;
  }

-- The lists that the loop of `_parse_hunk` fills.
pub record Sides : Type 0 where
  pub context : List String
  pub added : List String
  pub removed : List String
  pub old_side : List String
  pub new_side : List String
  pub no_newline_marker : Bool

abbrev pub no_sides : Sides
no_sides = record {
  context = [];
  added = [];
  removed = [];
  old_side = [];
  new_side = [];
  no_newline_marker = false;
}

abbrev pub context_line : String → Sides → Sides
context_line text s = record s {
  context = text ∷ s.context;
  old_side = text ∷ s.old_side;
  new_side = text ∷ s.new_side;
}

abbrev pub added_line : String → Sides → Sides
added_line text s = record s { added = text ∷ s.added; new_side = text ∷ s.new_side }

abbrev pub removed_line : String → Sides → Sides
removed_line text s = record s { removed = text ∷ s.removed; old_side = text ∷ s.old_side }

-- A line of the body in front of what the rest of the loop finds.
unfoldable pub body_line : String → Sides → Sides
body_line Str.[] s = context_line "" s
body_line (Str.◌∷◌ c text) s =
    if code c == 32
    then context_line text s
    else if code c == 43
    then added_line text s
    else if code c == 45
    then removed_line text s
    else if code c == 92
    then record s {
      no_newline_marker =
          occurs_in "No newline at end of file" (Str.◌∷◌ c text) || s.no_newline_marker;
    }
    else context_line (Str.◌∷◌ c text) s

unfoldable pub ends_hunk : String → Bool
ends_hunk line = begins_with line "@@" || begins_with line "--- " || begins_with line "+++ "

-- The loop, with the number of lines that it consumes.
unfoldable pub hunk_body : List String → Sides × ℕ
hunk_body [] = (no_sides, 0)
hunk_body (line ∷ lines) =
    let rest = hunk_body lines in
    if ends_hunk line then (no_sides, 0) else (body_line line rest.0, rest.1 + 1)

abbrev pub hunk_of : Header → Sides → DiffHunk
hunk_of header s = record {
  old_start = header.old_start;
  old_count = header.old_count;
  new_start = header.new_start;
  new_count = header.new_count;
  context_lines = s.context;
  added_lines = s.added;
  removed_lines = s.removed;
  old_lines = s.old_side;
  new_lines = s.new_side;
  no_newline_marker = s.no_newline_marker;
}

-- `_parse_hunk`: the hunk, and the lines consumed after its header.
unfoldable pub parse_hunk : String → List String → Option (DiffHunk × ℕ)
parse_hunk line lines = do
  header ← match_header line
  some (hunk_of header (hunk_body lines).0, (hunk_body lines).1)

-- One round of the loop of `parse_unified_diff`: how many of the next lines to skip.
abbrev pub add_hunk : ℕ → ParsedDiff → Option (DiffHunk × ℕ) → (ℕ × ParsedDiff) ⊎ DiffError
add_hunk i parsed none = inr (invalid_hunk_header (i + 1))
add_hunk i parsed (some (hunk, consumed)) =
    inl (consumed, record parsed { hunks = parsed.hunks ++ hunk ∷ [] })

abbrev pub header_text : String → String → String
header_text prefix line = elim (strip_prefix prefix line) [ none ↦ "" | some text ↦ strip text ]

unfoldable pub parse_line : ℕ → String → List String → ParsedDiff → (ℕ × ParsedDiff) ⊎ DiffError
parse_line i line lines parsed =
    if begins_with line "--- "
    then inl (0, record parsed { old_path = header_text "--- " line })
    else if begins_with line "+++ "
    then inl (0, record parsed { new_path = header_text "+++ " line })
    else if begins_with line "@@"
    then add_hunk i parsed (parse_hunk line lines)
    else inl (0, parsed)

unfoldable pub parse_lines : ℕ → ℕ → List String → ParsedDiff → ParsedDiff ⊎ DiffError
parse_lines skip i [] parsed = inl parsed
parse_lines (suc skip) i (line ∷ lines) parsed = parse_lines skip (i + 1) lines parsed
parse_lines zero i (line ∷ lines) parsed = elim (parse_line i line lines parsed) [
  | inr e ↦ inr e
  | inl (skip, parsed') ↦ parse_lines skip (i + 1) lines parsed'
]

abbrev pub with_hunks : ParsedDiff ⊎ DiffError → ParsedDiff ⊎ DiffError
with_hunks (inr e) = inr e
with_hunks (inl parsed) = if no_hunks parsed.hunks then inr no_hunks_found else inl parsed

unfoldable pub parse_unified_diff : String → ParsedDiff ⊎ DiffError
parse_unified_diff diff =
    if diff == "" || is_blank diff
    then inr empty_diff
    else with_hunks
        (parse_lines 0 0 (splitlines diff) record { hunks = []; old_path = ""; new_path = "" })
