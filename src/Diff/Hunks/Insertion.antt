-- ===== src/Diff/Hunks/Insertion.antt =====
-- A hunk that only inserts, as `diff -U0` writes it: with no old line it names the line after
-- which its new lines stand.
use bridle.Prelude.{◌∙◌, List, [], ◌∷◌, ◌++◌, String, any, ◌≡◌, length, ◌+◌, map, arith, ap, ◌⊎◌}
use bridle.Diff.Lines.{splitlines_keepends, concat_text}
use bridle.Diff.Hunks.{
  Progress, apply_hunks, with_newline, dry_run_apply, dry_run_result, DiffError,
}
use bridle.Diff.Hunks.Fits.{Change, hunk_at, progress, apply_hunk-fits}
use bridle.Diff.Hunks.Script.{hunk_start, apply_hunks-cons}

-- A hunk without old lines that names a line of the file, applied alone, puts its new lines in
-- front of that line and not after it.
pub insertion-early :
    (before tail : List String) (line : String) (change : Change) (text : String)
    → splitlines_keepends text ≡ before ++ (line ∷ tail)
    → (dry_run_apply text record {
      hunks = hunk_at (hunk_start (length before + 1) []) [] change ∷ [];
      old_path = "";
      new_path = "";
    }).new_text
      ≡ concat_text (before ++ (map with_newline change.fresh ++ (line ∷ tail)))
unfolding dry_run_apply any apply_hunks
insertion-early before tail line change text lines =
    let step =
      apply_hunk-fits before [] (line ∷ tail) change (length before + 1) 0 0 0 0 (omega arith) in
    ap
      (λ ls.
        (dry_run_result 1 (
          apply_hunks (hunk_at (length before + 1) [] change ∷ []) (progress ls 0 0 0 0))).new_text)
      lines
    ∙ ap (λ (r : Progress ⊎ DiffError). (dry_run_result 1 r).new_text)
        (apply_hunks-cons (hunk_at (length before + 1) [] change) []
          (progress (before ++ (line ∷ tail)) 0 0 0 0)
          (progress (before ++ (map with_newline change.fresh ++ (line ∷ tail)))
            (0 + length change.added) (0 + length change.removed) (0 + length change.fresh) (0 + 0))
          step)
