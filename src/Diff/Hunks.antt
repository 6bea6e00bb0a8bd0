-- ===== src/Diff/Hunks.antt =====
-- backend/src/bridle/agent/tools/unified_diff.py: hunks, and `dry_run_apply`.
pub mod Fits
pub mod Script
pub mod Insertion
use bridle.Prelude.{
  ◌∙◌, List, [], ◌∷◌, ◌++◌, none, some, true, false, Option, zero, suc, inl, inr, refl, Bool, ℕ,
  String, if◌then◌else◌, take, ◌⊎◌, ◌+◌, not, map, any, drop, ◌-◌, length, ◌==◌, leb, string_eq,
  ◌||◌, ltb, nat_eq,
}
use Prim.Native.String.{◌++◌ as text_append}
use bridle.Diff.Lines.{splitlines_keepends, strip_eol, concat_text}

pub record DiffHunk : Type 0 where
  pub old_start : ℕ
  pub old_count : ℕ
  pub new_start : ℕ
  pub new_count : ℕ
  pub context_lines : List String
  pub added_lines : List String
  pub removed_lines : List String
  pub old_lines : List String
  pub new_lines : List String
  pub no_newline_marker : Bool

pub record ParsedDiff : Type 0 where
  pub hunks : List DiffHunk
  pub old_path : String
  pub new_path : String

-- The errors of the module, with the numbers and names that their texts show.
pub data DiffError : Type 0 where
  empty_diff no_hunks_found no_hunks_to_apply marker_not_supported : DiffError
  invalid_hunk_header : ℕ → DiffError
  hunk_starts_at : ℕ → ℕ → DiffError
  hunk_expects : ℕ → ℕ → ℕ → DiffError
  context_mismatch : ℕ → DiffError
  unsupported_change_type : String → DiffError
  cannot_add cannot_remove cannot_modify : String → DiffError
  original_text_required : String → DiffError
  add_has_old_lines remove_leaves_text : DiffError
  old_path_mismatch new_path_mismatch : String → String → DiffError
  add_old_path remove_new_path : String → DiffError

-- `error` is `none` for the empty text of a valid result.
pub record DryRunResult : Type 0 where
  pub valid : Bool
  pub hunk_count : ℕ
  pub added_lines : ℕ
  pub removed_lines : ℕ
  pub new_text : String
  pub error : Option DiffError

abbrev pub refused : DiffError → DryRunResult
refused e = record {
  valid = false;
  hunk_count = 0;
  added_lines = 0;
  removed_lines = 0;
  new_text = "";
  error = some e;
}

-- The loop over the expected and the actual lines, from index `ci` on.
unfoldable pub first_mismatch : ℕ → List String → List String → Option ℕ
first_mismatch ci [] actual = none
first_mismatch ci (expected ∷ old) [] = none
first_mismatch ci (expected ∷ old) (actual ∷ lines) =
    if not (expected == actual) then some ci else first_mismatch (ci + 1) old lines

-- The variables of the loop over the hunks; `offset` is `grown - shrunk`.
pub record Progress : Type 0 where
  pub result_lines : List String
  pub total_added : ℕ
  pub total_removed : ℕ
  pub grown : ℕ
  pub shrunk : ℕ

abbrev pub with_newline : String → String
with_newline line = text_append line "\n"

-- The end of a round, where the hunk fits.
unfoldable pub replace_lines : ℕ → DiffHunk → Progress → Progress
replace_lines start_idx hunk p = record {
  result_lines =
      take start_idx p.result_lines
      ++ (map with_newline hunk.new_lines ++ drop (start_idx + hunk.old_count) p.result_lines);
  total_added = p.total_added + length hunk.added_lines;
  total_removed = p.total_removed + length hunk.removed_lines;
  grown = p.grown + length hunk.new_lines;
  shrunk = p.shrunk + hunk.old_count;
}

abbrev pub compare_lines : ℕ → DiffHunk → Progress → Option ℕ → Progress ⊎ DiffError
compare_lines start_idx hunk p (some ci) = inr (context_mismatch (hunk.old_start + ci))
compare_lines start_idx hunk p none = inl (replace_lines start_idx hunk p)

-- One round; `hunk.old_start - 1 + offset` is negative where `hunk.old_start + p.grown` is at most
-- `p.shrunk`.
unfoldable pub apply_hunk : DiffHunk → Progress → Progress ⊎ DiffError
apply_hunk hunk p =
    let start_idx = hunk.old_start + p.grown - (p.shrunk + 1) in
    let actual_old = map strip_eol (take hunk.old_count (drop start_idx p.result_lines)) in
    if leb (hunk.old_start + p.grown) p.shrunk || ltb (length p.result_lines) start_idx
    then inr (hunk_starts_at hunk.old_start (length p.result_lines))
    else if not (length actual_old == length hunk.old_lines)
    then inr (hunk_expects (length hunk.old_lines) hunk.old_start (length actual_old))
    else compare_lines start_idx hunk p (first_mismatch 0 hunk.old_lines actual_old)

unfoldable pub apply_hunks : List DiffHunk → Progress → Progress ⊎ DiffError
apply_hunks [] p = inl p
apply_hunks (hunk ∷ hunks) p = elim (apply_hunk hunk p) [
  | inr e ↦ inr e
  | inl p' ↦ apply_hunks hunks p'
]

abbrev pub dry_run_result : ℕ → Progress ⊎ DiffError → DryRunResult
dry_run_result count (inr e) = refused e
dry_run_result count (inl p) = record {
  valid = true;
  hunk_count = count;
  added_lines = p.total_added;
  removed_lines = p.total_removed;
  new_text = concat_text p.result_lines;
  error = none;
}

abbrev pub no_hunks : List DiffHunk → Bool
no_hunks [] = true
no_hunks (hunk ∷ hunks) = false

abbrev pub start_of : String → Progress
start_of original_text = record {
  result_lines = splitlines_keepends original_text;
  total_added = 0;
  total_removed = 0;
  grown = 0;
  shrunk = 0;
}

unfoldable pub dry_run_apply : String → ParsedDiff → DryRunResult
dry_run_apply original_text parsed_diff =
    if no_hunks parsed_diff.hunks
    then refused no_hunks_to_apply
    else if any (λ hunk. hunk.no_newline_marker) parsed_diff.hunks
    then refused marker_not_supported
    else dry_run_result (length parsed_diff.hunks)
        (apply_hunks parsed_diff.hunks (start_of original_text))
