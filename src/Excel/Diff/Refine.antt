-- ===== src/Excel/Diff/Refine.antt =====
-- The sheet of the changed rows against its description: no cache, no fingerprint and no bit mask.
use guangyang.Prelude.{
  ℕ, suc, ◌*◌, ◌≤◌, ◌≡◌, ◌∙◌, ap, refl, Bool, true, false, ◌||◌, List, [], ◌∷◌, arith, ◌==◌, length,
  if◌then◌else◌,
}
use guangyang.Text.{Str}
use guangyang.Excel.Normalize.{normalize_scalar}
use guangyang.Excel.Artifacts.{Artifacts}
use guangyang.Excel.Mask.{Marks, zero_words, diff_mask_words, diff_mask_get, reset_mask}
use guangyang.Excel.Mask.Facts.{
  Covered, reset_mask-Covered, length-reset_mask, diff_mask_get-reset, diff_mask_get-zero_words,
  zero_words-Covered, length-zero_words,
}
use guangyang.Excel.Fingerprint.{fingerprint64}
use guangyang.Excel.Diff.Scanning.{
  differs, any_differs, CacheOk, compare_cols-Scanned, empty-CacheOk, row_cells-cong,
}
use guangyang.Excel.Diff.{
  Cell, Cache, row_of, compare_cols, diff_row, no_change, no_diff, header, write_keys, write_row,
  write_diff_side_by_side, safe_cell_value, plain,
}

-- The normalized text with its fingerprint.
normalized : Str → Str × ℕ
normalized raw = (normalize_scalar raw, fingerprint64 (normalize_scalar raw))

module _ (art : Artifacts) (style : Bool) where
  -- The row of a key, with the columns in red whose normalized texts differ.
  changed_row : Str → List Cell
  changed_row k =
      diff_row art style (differs art (row_of art.left_by_key k) (row_of art.right_by_key k)) k

  is_changed : Str → Bool
  is_changed k =
      any_differs art (row_of art.left_by_key k) (row_of art.right_by_key k)
        (length art.ordered_cols) 0

  -- The rows of the keys with a column that differs.
  unfoldable pub changed_rows : List Str → List (List Cell)
  unfolding changed_row is_changed
  changed_rows [] = []
  changed_rows (k ∷ ks) =
      let rest = changed_rows ks in if is_changed k then changed_row k ∷ rest else rest

  -- The sheet: the header and the rows, or the one row that says that nothing changed.
  unfoldable pub sheet_of : List Cell → List (List Cell) → List (List Cell)
  sheet_of header [] = no_change art ∷ []
  sheet_of header (r ∷ rs) = header ∷ r ∷ rs

  write_row_lem :
      (b first_written : Bool) (header row row' : List Cell) (rest rows : List (List Cell))
      → row ≡ row'
      → rest ≡ (if first_written || b then rows else sheet_of header rows)
      → write_row art b first_written header row rest ≡ (
          let all = if b then row' ∷ rows else rows in
          if first_written then all else sheet_of header all)
  unfolding write_row sheet_of
  write_row_lem true true header row row' rest rows e f = rw (e, f)
  write_row_lem true false header row row' rest rows e f = rw (e, f)
  write_row_lem false true header row row' rest rows e f = f
  write_row_lem false false header row row' rest rows e f = f

  write_keys-cons :
      (header : List Cell) (k : Str) (ks : List Str) (first_written : Bool) (cache : Cache)
      (marks : Marks)
      → let s =
          compare_cols art
            (row_of art.left_by_key k)
            (row_of art.right_by_key k)
            (length art.ordered_cols)
            0
            (no_diff art cache marks) in
        write_keys art style header (k ∷ ks) first_written cache marks
        ≡ write_row art s.has_diff first_written header
            (diff_row art style (diff_mask_get s.marks.mask) k)
            (write_keys art style header ks
              (first_written || s.has_diff)
              s.cache
              (reset_mask s.marks))
  unfolding write_keys
  write_keys-cons header k ks first_written cache marks = refl

  write_keys-changed_rows :
      (header : List Cell) (ks : List Str) (first_written : Bool) (cache : Cache) (marks : Marks)
      → CacheOk cache
      → Covered marks
      → ((j : ℕ) → diff_mask_get marks.mask j ≡ false)
      → length art.ordered_cols ≤ 64 * length marks.mask
      → write_keys art style header ks first_written cache marks
        ≡ (if first_written then changed_rows ks else sheet_of header (changed_rows ks))
  unfolding changed_rows
  write_keys-changed_rows header [] first_written cache marks c d z h =
      unfold write_keys sheet_of in ground arith
  write_keys-changed_rows header (k ∷ ks) first_written cache marks c d z h =
      let left = row_of art.left_by_key k in
      let right = row_of art.right_by_key k in
      let n = length art.ordered_cols in
      let s = compare_cols art left right n 0 (no_diff art cache marks) in
      let f = compare_cols-Scanned art left right n 0 (no_diff art cache marks) c d (omega arith) in
      let length_eq = f.same_length in
      let ih =
        write_keys-changed_rows header ks (first_written || s.has_diff) s.cache (reset_mask s.marks)
          f.cache_ok (reset_mask-Covered s.marks f.covered)
          (λ j. diff_mask_get-reset s.marks j f.covered)
          (let e = length-reset_mask s.marks in omega arith) in
      let same_row =
        row_cells-cong art left right style (diff_mask_get s.marks.mask) (differs art left right) n
          0 (λ j a b. let e = f.bits j in let e' = z j in ground arith) in
      let any : s.has_diff ≡ is_changed k = unfold is_changed in f.any in
      let row : diff_row art style (diff_mask_get s.marks.mask) k ≡ changed_row k =
        unfold diff_row changed_row in ap (λ cells. plain (safe_cell_value k) ∷ cells) same_row in
      write_keys-cons header k ks first_written cache marks
      ∙ write_row_lem s.has_diff first_written header
          (diff_row art style (diff_mask_get s.marks.mask) k) (changed_row k)
          (write_keys art style header ks (first_written || s.has_diff) s.cache
            (reset_mask s.marks))
          (changed_rows ks) row ih
      ∙ ap
          (λ b.
            let all = if b then changed_row k ∷ changed_rows ks else changed_rows ks in
            if first_written then all else sheet_of header all)
          any

write_diff_lem :
    (art : Artifacts) (style : Bool) (header : List Cell) (ks : List Str)
    → (if length ks == 0
        then no_change art ∷ []
        else write_keys art style header ks false []
            (record { mask = zero_words (diff_mask_words (length art.ordered_cols)); dirty = [] }))
      ≡ sheet_of art style header (changed_rows art style ks)
write_diff_lem art style header [] = unfold changed_rows sheet_of in refl
write_diff_lem art style header (k ∷ ks) =
    let words = diff_mask_words (length art.ordered_cols) in
    let h : (suc (length ks) == 0) ≡ false = ground arith in
    rw h (
      write_keys-changed_rows art style header (k ∷ ks) false []
        (record { mask = zero_words words; dirty = [] }) empty-CacheOk (zero_words-Covered words [])
        (diff_mask_get-zero_words words)
        (let e = length-zero_words words in unfold diff_mask_words in omega arith))

-- The sheet has one row for each common key with a column whose normalized texts differ, in the order of
-- the keys, with exactly those columns in red (where the style exists); above them stands the header,
-- and without any such row the sheet is the message that nothing changed. The cache, the fingerprints
-- and the bit mask do not show.
pub write_diff_side_by_side-changed_rows :
    (art : Artifacts) (file1_name file2_name : Str) (style : Bool)
    → write_diff_side_by_side art file1_name file2_name style
      ≡ sheet_of art style
          (header art file1_name file2_name)
          (changed_rows art style art.common_keys)
unfolding write_diff_side_by_side
write_diff_side_by_side-changed_rows art file1_name file2_name style =
    write_diff_lem art style (header art file1_name file2_name) art.common_keys
