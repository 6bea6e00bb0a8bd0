-- ===== src/Diff/Hunks/Script.antt =====
-- A patch made from an edit script, applied to the text that the script edits.
use bridle.Prelude.{
  ◌∙◌, List, [], ◌∷◌, ◌++◌, none, true, false, suc, inl, refl, Bool, ℕ, String, length, all, ltb,
  ◌+◌, map, ◌≡◌, arith, ◌⊎◌, length-append, sym, any, ap,
}
use mathlib.Core.List.{append_assoc}
use bridle.Diff.Lines.{splitlines_keepends, concat_text}
use bridle.Diff.Hunks.{
  DiffHunk, Progress, apply_hunk, apply_hunks, with_newline, dry_run_apply, dry_run_result,
  DiffError,
}
use bridle.Diff.Hunks.Fits.{Change, hunk_at, progress, apply_hunk-fits, length-map}

-- Lines that are kept, lines that are replaced, and the change. All lines are those of the file,
-- with their ends.
pub record Edit : Type 0 where
  pub kept : List String
  pub old : List String
  pub change : Change

-- The lines of the file before and after a script, which leaves a tail as it is.
abbrev pub original : List Edit → List String → List String
original [] tail = tail
original (e ∷ es) tail = e.kept ++ (e.old ++ original es tail)

abbrev pub revised : List Edit → List String → List String
revised [] tail = tail
revised (e ∷ es) tail = e.kept ++ (map with_newline e.change.fresh ++ revised es tail)

-- Where a hunk says that it starts: at its first old line, or, without one, at the line before.
abbrev pub hunk_start : ℕ → List String → ℕ
hunk_start index [] = index
hunk_start index (line ∷ lines) = index + 1

-- The hunks of a script from line index `index` of the file on.
abbrev pub hunks_from : ℕ → List Edit → List DiffHunk
hunks_from index [] = []
hunks_from index (e ∷ es) =
    hunk_at (hunk_start (index + length e.kept) e.old) e.old e.change
    ∷ hunks_from (index + length e.kept + length e.old) es

abbrev pub has_old : Edit → Bool
has_old e = ltb 0 (length e.old)

unfoldable pub added_by : List Edit → ℕ
added_by [] = 0
added_by (e ∷ es) = length e.change.added + added_by es

unfoldable pub removed_by : List Edit → ℕ
removed_by [] = 0
removed_by (e ∷ es) = length e.change.removed + removed_by es

grown_by : List Edit → ℕ
grown_by [] = 0
grown_by (e ∷ es) = length e.change.fresh + grown_by es

shrunk_by : List Edit → ℕ
shrunk_by [] = 0
shrunk_by (e ∷ es) = length e.old + shrunk_by es

start_of_old :
    (index : ℕ) (old : List String) → ltb 0 (length old) ≡ true → hunk_start index old ≡ index + 1
start_of_old index [] h = absurd (ground arith)
start_of_old index (line ∷ lines) h = refl

progress-path :
    {ls ls' : List String} {a a' r r' g g' k k' : ℕ}
    → ls ≡ ls'
    → a ≡ a'
    → r ≡ r'
    → g ≡ g'
    → k ≡ k'
    → ◌≡◌ {A = Progress ⊎ DiffError} (inl (progress ls a r g k)) (inl (progress ls' a' r' g' k'))
progress-path p q r s t = λ i. inl (progress (p i) (q i) (r i) (s i) (t i))

pub apply_hunks-cons :
    (hunk : DiffHunk) (hunks : List DiffHunk) (p p' : Progress)
    → apply_hunk hunk p ≡ inl p'
    → apply_hunks (hunk ∷ hunks) p ≡ apply_hunks hunks p'
unfolding apply_hunks
apply_hunks-cons hunk hunks p p' h = rw (h, apply_hunks) refl

-- The loop, from the lines already edited and the offset that they left.
apply_hunks-script :
    (es : List Edit) (done tail : List String) (index added removed grown shrunk : ℕ)
    → all has_old es ≡ true
    → index + grown ≡ length done + shrunk
    → apply_hunks
        (hunks_from index es)
        (progress (done ++ original es tail) added removed grown shrunk)
      ≡ inl (
          progress
            (done ++ revised es tail)
            (added + added_by es)
            (removed + removed_by es)
            (grown + grown_by es)
            (shrunk + shrunk_by es))
unfolding apply_hunks all added_by removed_by grown_by shrunk_by
apply_hunks-script [] done tail index added removed grown shrunk h place =
    progress-path refl (omega arith) (omega arith) (omega arith) (omega arith)
apply_hunks-script (e ∷ es) done tail index added removed grown shrunk h place =
    let before = done ++ e.kept in
    let new = map with_newline e.change.fresh in
    let rest = original es tail in
    let at = start_of_old (index + length e.kept) e.old (ground arith) in
    let size = length-append done e.kept in
    let step =
      apply_hunk-fits before e.old rest e.change (index + length e.kept + 1) added removed grown
        shrunk (omega (arith, place, size)) in
    let size' = length-append before new in
    let count = length-map with_newline e.change.fresh in
    let later =
      apply_hunks-script es (before ++ new) tail (index + length e.kept + length e.old)
        (added + length e.change.added) (removed + length e.change.removed)
        (grown + length e.change.fresh) (shrunk + length e.old) (ground arith)
        (omega (arith, place, size, size', count)) in
    let moved =
      append_assoc before new (revised es tail)
      ∙ append_assoc done e.kept (new ++ revised es tail) in
    let hunk = hunk_at (hunk_start (index + length e.kept) e.old) e.old e.change in
    let others = hunks_from (index + length e.kept + length e.old) es in
    ap (λ ls. apply_hunks (hunk ∷ others) (progress ls added removed grown shrunk))
      (sym (append_assoc done e.kept (e.old ++ rest)))
    ∙ apply_hunks-cons hunk others (progress (before ++ (e.old ++ rest)) added removed grown shrunk)
        (progress (before ++ (new ++ rest)) (added + length e.change.added)
          (removed + length e.change.removed) (grown + length e.change.fresh)
          (shrunk + length e.old))
        (ap
            (λ start.
              apply_hunk (hunk_at start e.old e.change)
                (progress (before ++ (e.old ++ rest)) added removed grown shrunk))
            at
          ∙ step)
    ∙ ap
        (λ ls. apply_hunks others (
          progress ls (added + length e.change.added) (removed + length e.change.removed)
            (grown + length e.change.fresh) (shrunk + length e.old)))
        (sym (append_assoc before new rest))
    ∙ later
    ∙ progress-path moved (omega arith) (omega arith) (omega arith) (omega arith)

no_markers :
    (index : ℕ) (es : List Edit)
    → any (λ (h : DiffHunk). h.no_newline_marker) (hunks_from index es) ≡ false
unfolding any
no_markers index [] = refl
no_markers index (e ∷ es) = no_markers (index + length e.kept + length e.old) es

length-hunks_from : (index : ℕ) (es : List Edit) → length (hunks_from index es) ≡ length es
length-hunks_from index [] = refl
length-hunks_from index (e ∷ es) =
    ap suc (length-hunks_from (index + length e.kept + length e.old) es)

-- The patch of an edit script of which every edit replaces at least one line, applied to a text
-- that splits into the lines that the script edits, is valid: the new text is the revised lines
-- one after the other, and the result counts the hunks, the lines added and the lines removed.
pub dry_run_apply-script :
    (e : Edit) (es : List Edit) (tail : List String) (text old_path new_path : String)
    → all has_old (e ∷ es) ≡ true
    → splitlines_keepends text ≡ original (e ∷ es) tail
    → dry_run_apply text
        record { hunks = hunks_from 0 (e ∷ es); old_path = old_path; new_path = new_path }
      ≡ record {
        valid = true;
        hunk_count = length (e ∷ es);
        added_lines = added_by (e ∷ es);
        removed_lines = removed_by (e ∷ es);
        new_text = concat_text (revised (e ∷ es) tail);
        error = none;
      }
unfolding dry_run_apply
dry_run_apply-script e es tail text old_path new_path h lines = rw (no_markers 0 (e ∷ es)) (
    ap
      (λ ls.
        dry_run_result (length (hunks_from 0 (e ∷ es)))
          (apply_hunks (hunks_from 0 (e ∷ es)) (progress ls 0 0 0 0)))
      lines
    ∙ ap (dry_run_result (length (hunks_from 0 (e ∷ es)))) (
        apply_hunks-script (e ∷ es) [] tail 0 0 0 0 0 h refl
        ∙ progress-path refl (omega arith) (omega arith) refl refl)
    ∙ ap
        (λ n.
          dry_run_result n
            (inl (progress (revised (e ∷ es) tail) (added_by (e ∷ es)) (removed_by (e ∷ es)) 0 0)))
        (length-hunks_from 0 (e ∷ es)))
