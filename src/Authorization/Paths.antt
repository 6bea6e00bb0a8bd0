-- ===== src/Authorization/Paths.antt =====
-- backend/src/bridle/agent/runtime/authorization.py: `_normalize_relative_path` and
-- `_path_contains`, and `posixpath.normpath`, which they call.
pub mod Splitting
pub mod Segments
pub mod Render
pub mod Stable
pub mod Containment
pub mod Order
use bridle.Prelude.{
  ◌∙◌, List, [], ◌∷◌, ◌++◌, none, some, true, false, Option, zero, suc, inl, inr, refl, Bool, ℕ,
  String, ◌==◌, not, if◌then◌else◌, reverse, nat_eq, ◌||◌, ◌&&◌, string_eq, split, join, avoids,
  replace_char, rstrip, CharClass,
}
use bridle.Errors.{◌>>◌, ◌>>=◌, ok, raise, Result, require, value_error}
use text.Mathlib.Text.{starts_with}
use Prim.Native.String.{◌++◌ as text_append}

abbrev pub slash : CharClass
slash c = c == 47

abbrev pub nul : CharClass
nul c = c == 0

-- The top of the component stack of `normpath` is `..`.
abbrev pub ends_up : List String → Bool
ends_up [] = false
ends_up (top ∷ rest) = top == ".."

abbrev pub pop : List String → List String
pop [] = []
pop (top ∷ rest) = rest

abbrev pub is_empty : List String → Bool
is_empty [] = true
is_empty (top ∷ rest) = false

-- One round of the loop of `normpath`; the stack is `new_comps` from its end.
unfoldable pub norm_step : Bool → List String → String → List String
norm_step initial stack comp =
    if comp == "" || comp == "."
    then stack
    else if not (comp == "..") || (not initial && is_empty stack) || ends_up stack
    then comp ∷ stack
    else pop stack

unfoldable pub norm_loop : Bool → List String → List String → List String
norm_loop initial stack [] = stack
norm_loop initial stack (comp ∷ comps) = norm_loop initial (norm_step initial stack comp) comps

-- How many slashes `normpath` leaves in front.
abbrev pub initial_slashes : String → String
initial_slashes path =
    if starts_with path "//" && not (starts_with path "///")
    then "//"
    else if starts_with path "/"
    then "/"
    else ""

abbrev pub or_dot : String → String
or_dot path = if path == "" then "." else path

-- `posixpath.normpath`
unfoldable pub normpath : String → String
normpath path =
    let slashes = initial_slashes path in
    let comps = reverse (norm_loop (not (slashes == "")) [] (split 47 path)) in
    or_dot (text_append slashes (join "/" comps))

-- `replaced.split("/", 1)[0].endswith(":")`
abbrev pub ends_with_colon : String → Bool
ends_with_colon s = not (rstrip (λ c. c == 58) s == s)

abbrev pub first_segment : List String → String
first_segment [] = ""
first_segment (s ∷ rest) = s

unfoldable pub is_drive : String → Bool
is_drive path = ends_with_colon (first_segment (split 47 path))

-- The test that refuses a normalized path.
abbrev pub escapes : String → String → Bool
escapes normalized replaced =
    normalized == ".."
    || starts_with normalized "../"
    || starts_with normalized "/"
    || is_drive replaced

unfoldable pub normalize_relative_path : String → Result String
normalize_relative_path path = do
  require (not (path == "") && avoids nul path) (value_error "invalid_path")
  let replaced = replace_char 92 "/" path
  let normalized = normpath replaced
  require (not (escapes normalized replaced)) (value_error "invalid_path")
  ok normalized

-- The comparison of two normalized paths.
abbrev pub below : String → String → Bool
below parent_norm child_norm =
    if parent_norm == "."
    then true
    else child_norm == parent_norm
      || starts_with child_norm (text_append (rstrip slash parent_norm) "/")

-- `_path_contains`: a path that cannot be normalized is contained in none and contains none.
abbrev pub below_results : Result String → Result String → Bool
below_results (raise e) child = false
below_results (ok parent_norm) (raise e) = false
below_results (ok parent_norm) (ok child_norm) = below parent_norm child_norm

unfoldable pub path_contains : String → String → Bool
path_contains parent child =
    below_results (normalize_relative_path parent) (normalize_relative_path child)
