-- ===== src/Diff/Examples.antt =====
-- Patches of a small file.
use bridle.Diff.Hunks.Insertion.{insertion-early}
use bridle.Prelude.{
  List, [], ◌∷◌, none, some, true, refl, String, nat_eq, ◌≡◌, map, string_eq, all, strip, lstrip,
  rstrip, drop, take, any, join, split,
}
use bridle.Diff.Lines.{
  splitlines_keepends, splitlines, strip_prefix, concat_text, chomp, occurs_in, strip_eol,
}
use bridle.Diff.Hunks.{dry_run_apply, apply_hunk, apply_hunks, first_mismatch, replace_lines}
use bridle.Diff.Parse.{
  hunk_body, parse_unified_diff, parse_lines, parse_line, parse_hunk, match_header, read_number,
  read_count, body_line, ends_hunk, read_more,
}
use bridle.Diff.Validate.{
  validate_patch_for_path, validate_parsed, normalize_diff_path, validate_add, validate_change,
  validate_header_paths, validate_modify, validate_remove,
}
use bridle.Diff.Hunks.Fits.{Change, hunk_at}
use bridle.Diff.Hunks.Script.{
  Edit, hunks_from, hunk_start, dry_run_apply-script, added_by, removed_by,
}
use bridle.Diff.Body.{
  keep_text, add_text, remove_text, print_line, until_header, sides_of, hunk_body-print,
}

abbrev change : List String → List String → Change
change fresh removed = record {
  fresh = fresh;
  context = [];
  added = fresh;
  removed = removed;
  new_start = 1;
  new_count = 1;
}

abbrev first : Edit
first = record { kept = "a\n" ∷ []; old = "b\n" ∷ []; change = change ("x" ∷ "y" ∷ []) ("b" ∷ []) }

abbrev second : Edit
second = record { kept = "c\n" ∷ []; old = "d\n" ∷ []; change = change [] ("d" ∷ []) }

-- A whole patch, from its text to the new text.
patch_applied :
    (validate_patch_for_path "src/f.py" "modify"
      "--- a/src/f.py\n+++ b/src/f.py\n@@ -1,3 +1,4 @@\n a\n-b\n+x\n+y\n c\n"
      (some "a\nb\nc\n")
      true).dry_run
    ≡ some record {
      valid = true;
      hunk_count = 1;
      added_lines = 2;
      removed_lines = 1;
      new_text = "a\nx\ny\nc\n";
      error = none;
    }
unfolding validate_patch_for_path string_eq validate_parsed parse_unified_diff strip lstrip rstrip
    nat_eq parse_lines splitlines splitlines_keepends parse_line strip_prefix chomp parse_hunk
    match_header read_number read_count apply_hunk apply_hunks dry_run_apply first_mismatch
    replace_lines concat_text occurs_in strip_eol body_line ends_hunk hunk_body read_more
    normalize_diff_path validate_add validate_change validate_header_paths validate_modify
    validate_remove drop take any join split
patch_applied = refl

dry_run_apply-script_example :
    dry_run_apply "a\nb\nc\nd\ne\n"
      record { hunks = hunks_from 0 (first ∷ second ∷ []); old_path = ""; new_path = "" }
    ≡ record {
      valid = true;
      hunk_count = 2;
      added_lines = 2;
      removed_lines = 2;
      new_text = "a\nx\ny\nc\ne\n";
      error = none;
    }
unfolding nat_eq all splitlines_keepends concat_text added_by removed_by
dry_run_apply-script_example =
    dry_run_apply-script first (second ∷ []) ("e\n" ∷ []) "a\nb\nc\nd\ne\n" "" "" refl refl

insertion-early_example :
    (dry_run_apply "a\nb\nc\n" record {
      hunks = hunk_at (hunk_start 2 []) [] (change ("x" ∷ []) []) ∷ [];
      old_path = "";
      new_path = "";
    }).new_text
    ≡ "a\nx\nb\nc\n"
unfolding nat_eq splitlines_keepends concat_text
insertion-early_example =
    insertion-early ("a\n" ∷ []) ("c\n" ∷ []) "b\n" (change ("x" ∷ []) []) "a\nb\nc\n" refl

-- The removal of a comment of SQL ends its hunk.
hunk_body-print_example :
    hunk_body
      (map print_line (keep_text "select 1;" ∷ remove_text "-- old" ∷ add_text "-- new" ∷ []))
    ≡ (sides_of (keep_text "select 1;" ∷ []), 1)
unfolding nat_eq until_header strip_prefix
hunk_body-print_example =
    hunk_body-print (keep_text "select 1;" ∷ remove_text "-- old" ∷ add_text "-- new" ∷ [])
