-- ===== src/Diff/Validate.antt =====
-- backend/src/bridle/agent/tools/unified_diff.py: `validate_patch_for_path`. The hints for a
-- recovery, which are texts for the agent, are left out.
use bridle.Prelude.{
  List, [], ◌∷◌, ◌++◌, none, some, true, false, Option, inl, inr, Bool, ℕ, String, length,
  if◌then◌else◌, strip, not, split, ◌⊎◌, ◌+◌, contains, ◌==◌, ◌||◌, ◌&&◌, string_eq, join, nat_eq,
}
use Prim.Native.String.{◌++◌ as text_append}
use bridle.Diff.Lines.{strip_prefix}
use bridle.Diff.Hunks.{
  DiffHunk, ParsedDiff, DiffError, DryRunResult, dry_run_apply, unsupported_change_type, cannot_add,
  cannot_remove, cannot_modify, original_text_required, add_has_old_lines, remove_leaves_text,
  old_path_mismatch, new_path_mismatch, add_old_path, remove_new_path,
}
use bridle.Diff.Parse.{parse_unified_diff}

pub record ValidationResult : Type 0 where
  pub valid : Bool
  pub error : Option DiffError
  pub dry_run : Option DryRunResult

abbrev pub invalid : DiffError → ValidationResult
invalid e = record { valid = false; error = some e; dry_run = none }

abbrev pub before_char : ℕ → String → String
before_char sep text = elim (split sep text) [ [] ↦ "" | field ∷ fields ↦ field ]

abbrev pub without_prefix : String → String
without_prefix path = elim (strip_prefix "a/" path) [
  | some rest ↦ rest
  | none ↦ elim (strip_prefix "b/" path) [ some rest ↦ rest | none ↦ path ]
]

unfoldable pub normalize_diff_path : String → String
normalize_diff_path raw_path =
    let text = strip raw_path in
    let path = before_char 32 (before_char 9 text) in
    if text == "" then "" else if path == "/dev/null" then "/dev/null" else without_prefix path

-- `value and value != expected`
abbrev pub names_other : String → String → Bool
names_other value expected = not (value == "") && not (value == expected)

-- `none` is the empty text.
unfoldable pub validate_header_paths : String → String → ParsedDiff → Option DiffError
validate_header_paths path change_type parsed =
    let target_path = normalize_diff_path path in
    let old_path = normalize_diff_path parsed.old_path in
    let new_path = normalize_diff_path parsed.new_path in
    if change_type == "modify"
    then (if names_other old_path target_path
        then some (old_path_mismatch old_path target_path)
        else if names_other new_path target_path
        then some (new_path_mismatch new_path target_path)
        else none)
    else if change_type == "add"
    then (if names_other old_path "/dev/null"
        then some (add_old_path old_path)
        else if names_other new_path target_path
        then some (new_path_mismatch new_path target_path)
        else none)
    else if change_type == "remove"
    then (if names_other old_path target_path
        then some (old_path_mismatch old_path target_path)
        else if names_other new_path "/dev/null"
        then some (remove_new_path new_path)
        else none)
    else none

abbrev pub total : (DiffHunk → List String) → List DiffHunk → ℕ
total lines [] = 0
total lines (hunk ∷ hunks) = length (lines hunk) + total lines hunks

abbrev pub all_new_lines : List DiffHunk → List String
all_new_lines [] = []
all_new_lines (hunk ∷ hunks) = hunk.new_lines ++ all_new_lines hunks

-- The branch of `modify`, from the dry run on.
abbrev pub checked : DryRunResult → ValidationResult
checked dr = record { valid = dr.valid; error = dr.error; dry_run = some dr }

unfoldable pub validate_modify : String → Bool → Option String → ParsedDiff → ValidationResult
validate_modify path file_exists original_text parsed =
    if not file_exists then invalid (cannot_modify path) else elim original_text [
      | none ↦ invalid (original_text_required "modify")
      | some text ↦ checked (dry_run_apply text parsed)
    ]

unfoldable pub validate_add : ParsedDiff → ValidationResult
validate_add parsed =
    let fresh = all_new_lines parsed.hunks in
    if not (total (λ h. h.removed_lines) parsed.hunks == 0)
      || not (total (λ h. h.old_lines) parsed.hunks == 0)
    then invalid add_has_old_lines
    else record {
      valid = true;
      error = none;
      dry_run = some record {
        valid = true;
        hunk_count = length parsed.hunks;
        added_lines = total (λ h. h.added_lines) parsed.hunks;
        removed_lines = 0;
        new_text = text_append (join "\n" fresh) (if length fresh == 0 then "" else "\n");
        error = none;
      };
    }

-- The branch of `remove`, from the dry run on.
abbrev pub removed_result : ParsedDiff → DryRunResult → ValidationResult
removed_result parsed dr =
    if not dr.valid
    then checked dr
    else if not (dr.new_text == "")
    then record {
      valid = false;
      error = some remove_leaves_text;
      dry_run = some (record dr { valid = false; error = some remove_leaves_text });
    }
    else record {
      valid = true;
      error = none;
      dry_run = some record {
        valid = true;
        hunk_count = length parsed.hunks;
        added_lines = 0;
        removed_lines = total (λ h. h.removed_lines) parsed.hunks;
        new_text = "";
        error = none;
      };
    }

unfoldable pub validate_remove : Option String → ParsedDiff → ValidationResult
validate_remove original_text parsed = elim original_text [
  | none ↦ invalid (original_text_required "remove")
  | some text ↦ removed_result parsed (dry_run_apply text parsed)
]

-- What follows the test of the paths.
unfoldable pub validate_change :
    String → String → Option String → Bool → ParsedDiff → ValidationResult
validate_change path change_type original_text file_exists parsed =
    if change_type == "add" && file_exists
    then invalid (cannot_add path)
    else if change_type == "remove" && not file_exists
    then invalid (cannot_remove path)
    else if change_type == "modify"
    then validate_modify path file_exists original_text parsed
    else if change_type == "add"
    then validate_add parsed
    else validate_remove original_text parsed

unfoldable pub validate_parsed :
    String → String → Option String → Bool → ParsedDiff ⊎ DiffError → ValidationResult
validate_parsed path change_type original_text file_exists (inr e) = invalid e
validate_parsed path change_type original_text file_exists (inl parsed) =
    elim (validate_header_paths path change_type parsed) [
      | some e ↦ invalid e
      | none ↦ validate_change path change_type original_text file_exists parsed
    ]

unfoldable pub validate_patch_for_path :
    String → String → String → Option String → Bool → ValidationResult
validate_patch_for_path path change_type diff original_text file_exists =
    if not (contains ("modify" ∷ "add" ∷ "remove" ∷ []) change_type)
    then invalid (unsupported_change_type change_type)
    else validate_parsed path change_type original_text file_exists (parse_unified_diff diff)
