-- ===== src/Diff/Hunks/Fits.antt =====
-- A hunk whose old lines stand where it starts.
use bridle.Prelude.{
  ◌∙◌, List, [], ◌∷◌, ◌++◌, none, false, suc, inl, refl, ℕ, String, ◌+◌, ◌≡◌, drop, length, eq_self,
  map, ap, ◌-◌, sym, arith, length-append, leb, drop-append, ltb, take, take-append,
}
use mathlib.Core.List.{append_assoc}
use bridle.Diff.Lines.{strip_eol}
use bridle.Diff.Hunks.{DiffHunk, Progress, apply_hunk, first_mismatch, replace_lines, with_newline}

-- What a hunk says beside its place: its new lines, and the parts that are only counted.
pub record Change : Type 0 where
  pub fresh : List String
  pub context : List String
  pub added : List String
  pub removed : List String
  pub new_start : ℕ
  pub new_count : ℕ

-- A hunk that replaces `old`, lines of the file with their ends, from line `start` on.
abbrev pub hunk_at : ℕ → List String → Change → DiffHunk
hunk_at start old change = record {
  old_start = start;
  old_count = length old;
  new_start = change.new_start;
  new_count = change.new_count;
  context_lines = change.context;
  added_lines = change.added;
  removed_lines = change.removed;
  old_lines = map strip_eol old;
  new_lines = change.fresh;
  no_newline_marker = false;
}

abbrev pub progress : List String → ℕ → ℕ → ℕ → ℕ → Progress
progress lines added removed grown shrunk = record {
  result_lines = lines;
  total_added = added;
  total_removed = removed;
  grown = grown;
  shrunk = shrunk;
}

first_mismatch_self : (ci : ℕ) (xs : List String) → first_mismatch ci xs xs ≡ none
unfolding first_mismatch
first_mismatch_self ci [] = refl
first_mismatch_self ci (x ∷ xs) = rw (eq_self x) (first_mismatch_self (ci + 1) xs)

pub length-map : (f : String → String) (xs : List String) → length (map f xs) ≡ length xs
length-map f [] = refl
length-map f (x ∷ xs) = ap suc (length-map f xs)

drop-append_append : (xs ys zs : List String) → drop (length xs + length ys) (xs ++ (ys ++ zs)) ≡ zs
drop-append_append xs ys zs =
    ap (λ n. drop n (xs ++ (ys ++ zs))) (sym (length-append xs ys))
    ∙ ap (drop (length (xs ++ ys))) (sym (append_assoc xs ys zs))
    ∙ drop-append (xs ++ ys) zs

module _ (before old rest : List String) (change : Change)
    (start added removed grown shrunk : ℕ) where
  abbrev found : Progress
  found = progress (before ++ (old ++ rest)) added removed grown shrunk

  -- Such a hunk is applied, and its lines are replaced.
  pub apply_hunk-fits :
      start + grown ≡ length before + shrunk + 1
      → apply_hunk (hunk_at start old change) found
        ≡ inl (
            progress
              (before ++ (map with_newline change.fresh ++ rest))
              (added + length change.added)
              (removed + length change.removed)
              (grown + length change.fresh)
              (shrunk + length old))
  unfolding apply_hunk replace_lines
  apply_hunk-fits place =
      let index : start + grown - (shrunk + 1) ≡ length before = omega (arith, place) in
      let inside : leb (start + grown) shrunk ≡ false = ground (arith, place) in
      let size = length-append before (old ++ rest) in
      let reached : ltb (length (before ++ (old ++ rest))) (length before) ≡ false =
        ground (arith, size) in
      let whole : take (length old) (drop (length before) (before ++ (old ++ rest))) ≡ old =
        ap (take (length old)) (drop-append before (old ++ rest)) ∙ take-append old rest in
      rw index (
        rw inside (
          rw reached (
            rw whole (
              rw (eq_self (length (map strip_eol old))) (
                rw (first_mismatch_self 0 (map strip_eol old)) (
                  rw (take-append before (old ++ rest))
                    (rw (drop-append_append before old rest) refl)))))))
