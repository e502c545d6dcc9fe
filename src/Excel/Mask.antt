-- ===== src/Excel/Mask.antt =====
-- The bit mask of the columns that differ: diffMaskWords, diffMaskGet, diffMaskSet and fingerprint64 of
-- gobackend/excelcmp/compare.go, and the closures setDiff and resetMask of writeDiffSideBySideStream in
-- export.go. A word is a number below 2 ^ 64; an index is never negative where the program calls these.
pub mod Facts
use guangyang.Prelude.{
  ℕ, zero, suc, ◌+◌, ◌-◌, ◌*◌, ◌/◌, ◌%◌, ◌^◌, ◌≡◌, Bool, true, false, not, List, [], ◌∷◌, ◌++◌,
  Option, none, some, ltb, ◌==◌, length, get_elem?, if◌then◌else◌,
}

-- w & (1 << b) != 0
unfoldable pub test_bit : ℕ → ℕ → Bool
test_bit w zero = w % 2 == 1
test_bit w (suc b) = test_bit (w / 2) b

-- w | 1 << b
unfoldable pub set_bit : ℕ → ℕ → ℕ
set_bit w zero = if w % 2 == 1 then w else w + 1
set_bit w (suc b) = w % 2 + 2 * set_bit (w / 2) b

-- diffMaskWords
unfoldable pub diff_mask_words : ℕ → ℕ
diff_mask_words n_cols = (n_cols + 63) / 64

-- mask[w], 0 beyond the end
unfoldable pub word_at : List ℕ → ℕ → ℕ
word_at [] w = 0
word_at (x ∷ xs) zero = x
word_at (x ∷ xs) (suc w) = word_at xs w

-- mask[w] = x
unfoldable pub put_word : List ℕ → ℕ → ℕ → List ℕ
put_word [] w x = []
put_word (y ∷ ys) zero x = x ∷ ys
put_word (y ∷ ys) (suc w) x = y ∷ put_word ys w x

-- make([]uint64, n)
unfoldable pub zero_words : ℕ → List ℕ
zero_words zero = []
zero_words (suc n) = 0 ∷ zero_words n

-- diffMaskGet
unfoldable pub diff_mask_get : List ℕ → ℕ → Bool
unfolding word_at test_bit
diff_mask_get mask i =
    if ltb (i / 64) (length mask) then test_bit (word_at mask (i / 64)) (i % 64) else false

-- diffMaskSet
unfoldable pub diff_mask_set : List ℕ → ℕ → List ℕ
unfolding put_word word_at set_bit
diff_mask_set mask i =
    if ltb (i / 64) (length mask)
    then put_word mask (i / 64) (set_bit (word_at mask (i / 64)) (i % 64))
    else mask

-- The variables mask and dirty.
pub record Marks : Type 0 where
  pub mask : List ℕ
  pub dirty : List ℕ

-- setDiff
unfoldable pub set_diff : ℕ → Marks → Marks
unfolding put_word word_at set_bit
set_diff i s =
    let w = i / 64 in
    let before = word_at s.mask w in
    let mask = put_word s.mask w (set_bit before (i % 64)) in
    if not (ltb w (length s.mask))
    then s
    else record { mask = mask; dirty = if before == 0 then s.dirty ++ w ∷ [] else s.dirty }

unfoldable pub clear_words : List ℕ → List ℕ → List ℕ
unfolding put_word
clear_words [] mask = mask
clear_words (w ∷ ws) mask = clear_words ws (put_word mask w 0)

-- resetMask
unfoldable pub reset_mask : Marks → Marks
unfolding clear_words
reset_mask s = record { mask = clear_words s.dirty s.mask; dirty = [] }
