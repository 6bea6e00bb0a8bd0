-- ===== src/Diff/Lines.antt =====
-- `str.splitlines` and the other text operations of
-- backend/src/bridle/agent/tools/unified_diff.py.
use bridle.Prelude.{
  List, [], ◌∷◌, none, some, false, Option, Bool, String, rstrip, not, ◌&&◌, if◌then◌else◌,
  CharClass, ◌==◌, map, ◌||◌, to_first, contains, nat_eq, is_none, string_eq,
}
use Prim.Native.Char.{Char, code}
use Prim.Native.String as Str
use Prim.Native.String.{◌++◌ as text_append}

-- The line boundaries of `splitlines`.
abbrev pub is_boundary : CharClass
is_boundary = contains (10 ∷ 11 ∷ 12 ∷ 13 ∷ 28 ∷ 29 ∷ 30 ∷ 133 ∷ 8232 ∷ 8233 ∷ [])

abbrev pub next_is_newline : String → Bool
next_is_newline Str.[] = false
next_is_newline (Str.◌∷◌ c s) = code c == 10

-- A line ends after a boundary, but not between a carriage return and a newline.
abbrev pub ends_line : Char → String → Bool
ends_line c rest = is_boundary (code c) && not (code c == 13 && next_is_newline rest)

-- `text.splitlines(keepends=True)`
unfoldable pub splitlines_keepends : String → List String
splitlines_keepends Str.[] = []
splitlines_keepends (Str.◌∷◌ c s) =
    if ends_line c s
    then Str.◌∷◌ c Str.[] ∷ splitlines_keepends s
    else to_first c (splitlines_keepends s)

-- `line.rstrip("\r\n")`
abbrev pub is_newline : CharClass
is_newline c = c == 13 || c == 10

unfoldable pub strip_eol : String → String
strip_eol line = rstrip is_newline line

-- A line that `splitlines` made, without its boundary.
unfoldable pub chomp : String → String
chomp Str.[] = ""
chomp (Str.◌∷◌ c s) =
    let rest = chomp s in
    if is_boundary (code c) && (s == "" || (code c == 13 && s == "\n")) then "" else Str.◌∷◌ c rest

-- `text.splitlines()`
unfoldable pub splitlines : String → List String
splitlines text = map chomp (splitlines_keepends text)

-- `"".join(lines)`
unfoldable pub concat_text : List String → String
concat_text [] = ""
concat_text (line ∷ lines) = text_append line (concat_text lines)

-- What follows a prefix, where the text begins with it.
unfoldable pub strip_prefix : String → String → Option String
strip_prefix Str.[] s = some s
strip_prefix (Str.◌∷◌ c p) Str.[] = none
strip_prefix (Str.◌∷◌ c p) (Str.◌∷◌ d s) = if code c == code d then strip_prefix p s else none

-- `text.startswith(prefix)`
abbrev pub begins_with : String → String → Bool
begins_with text prefix = not (is_none (strip_prefix prefix text))

-- `needle in text`
unfoldable pub occurs_in : String → String → Bool
occurs_in needle Str.[] = needle == ""
occurs_in needle (Str.◌∷◌ c s) = begins_with (Str.◌∷◌ c s) needle || occurs_in needle s
