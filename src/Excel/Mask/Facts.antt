-- ===== src/Excel/Mask/Facts.antt =====
-- Bits are read as they were set, and the marks are all gone after a reset.
use guangyang.Prelude.{
  ℕ, zero, suc, ◌+◌, ◌*◌, ◌/◌, ◌%◌, ◌<◌, ◌≡◌, ◌∙◌, ap, refl, Bool, false, ◌||◌, List, [], ◌∷◌, ◌++◌,
  ◌==◌, length, arith, if◌then◌else◌,
}
use guangyang.Excel.Mask.{
  test_bit, set_bit, word_at, put_word, zero_words, diff_mask_get, diff_mask_set, Marks, set_diff,
  clear_words, reset_mask,
}

test_bit-set_bit : (w b c : ℕ) → test_bit (set_bit w b) c ≡ (b == c || test_bit w c)
unfolding test_bit set_bit
test_bit-set_bit w zero zero = ground arith
test_bit-set_bit w zero (suc c) =
    let h : (if w % 2 == 1 then w else w + 1) / 2 ≡ w / 2 = ground arith in rw h (ground arith)
test_bit-set_bit w (suc b) zero =
    let h : (w % 2 + 2 * set_bit (w / 2) b) % 2 ≡ w % 2 = omega arith in rw h (ground arith)
test_bit-set_bit w (suc b) (suc c) =
    let h : (w % 2 + 2 * set_bit (w / 2) b) / 2 ≡ set_bit (w / 2) b = omega arith in
    let ih = test_bit-set_bit (w / 2) b c in rw (h, ih) (ground arith)

test_bit-zero : (b : ℕ) → test_bit 0 b ≡ false
unfolding test_bit
test_bit-zero zero = refl
test_bit-zero (suc b) = test_bit-zero b

pub length-put_word : (ws : List ℕ) (w x : ℕ) → length (put_word ws w x) ≡ length ws
unfolding put_word
length-put_word [] w x = refl
length-put_word (y ∷ ys) zero x = refl
length-put_word (y ∷ ys) (suc w) x = ap suc (length-put_word ys w x)

pub word_at-put_word :
    (ws : List ℕ) (w v x : ℕ)
    → w < length ws
    → word_at (put_word ws w x) v ≡ (if w == v then x else word_at ws v)
unfolding put_word word_at
word_at-put_word [] w v x h = omega arith
word_at-put_word (y ∷ ys) zero zero x h = refl
word_at-put_word (y ∷ ys) zero (suc v) x h = ground arith
word_at-put_word (y ∷ ys) (suc w) zero x h = ground arith
word_at-put_word (y ∷ ys) (suc w) (suc v) x h =
    let ih = word_at-put_word ys w v x (omega arith) in ground arith

-- A bit within the mask that is set reads as set, and the others read as before.
pub diff_mask_get-set :
    (mask : List ℕ) (i j : ℕ)
    → i / 64 < length mask
    → diff_mask_get (diff_mask_set mask i) j ≡ (i == j || diff_mask_get mask j)
unfolding diff_mask_get diff_mask_set
diff_mask_get-set mask i j h =
    let hl = length-put_word mask (i / 64) (set_bit (word_at mask (i / 64)) (i % 64)) in
    let hw = word_at-put_word mask (i / 64) (j / 64) (set_bit (word_at mask (i / 64)) (i % 64)) h in
    let hb = test_bit-set_bit (word_at mask (i / 64)) (i % 64) (j % 64) in ground arith

-- Membership of a list of word indices.
pub mem : ℕ → List ℕ → Bool
mem v [] = false
mem v (w ∷ ws) = w == v || mem v ws

mem-append : (v : ℕ) (xs ys : List ℕ) → mem v (xs ++ ys) ≡ (mem v xs || mem v ys)
unfolding mem
mem-append v [] ys = refl
mem-append v (x ∷ xs) ys = ground (arith, mem-append v xs ys)

word_at-put_zero :
    (ws : List ℕ) (w v : ℕ) → word_at (put_word ws w 0) v ≡ (if w == v then 0 else word_at ws v)
unfolding put_word word_at
word_at-put_zero [] w v = ground arith
word_at-put_zero (y ∷ ys) zero zero = refl
word_at-put_zero (y ∷ ys) zero (suc v) = ground arith
word_at-put_zero (y ∷ ys) (suc w) zero = ground arith
word_at-put_zero (y ∷ ys) (suc w) (suc v) = let ih = word_at-put_zero ys w v in ground arith

word_at-clear_words :
    (ds mask : List ℕ) (v : ℕ)
    → word_at (clear_words ds mask) v ≡ (if mem v ds then 0 else word_at mask v)
unfolding clear_words mem
word_at-clear_words [] mask v = refl
word_at-clear_words (d ∷ ds) mask v =
    ground (arith, word_at-clear_words ds (put_word mask d 0) v, word_at-put_zero mask d v)

length-clear_words : (ds mask : List ℕ) → length (clear_words ds mask) ≡ length mask
unfolding clear_words
length-clear_words [] mask = refl
length-clear_words (d ∷ ds) mask =
    length-clear_words ds (put_word mask d 0) ∙ length-put_word mask d 0

-- A word that is not listed as dirty is zero.
abbrev pub Covered : Marks → Type 0
Covered s = (v : ℕ) → mem v s.dirty ≡ false → word_at s.mask v ≡ 0

pub set_diff-mask : (i : ℕ) (s : Marks) → (set_diff i s).mask ≡ diff_mask_set s.mask i
unfolding set_diff diff_mask_set
set_diff-mask i s = ground arith

pub length-set_diff : (i : ℕ) (s : Marks) → length (set_diff i s).mask ≡ length s.mask
unfolding set_diff
length-set_diff i s =
    let h = length-put_word s.mask (i / 64) (set_bit (word_at s.mask (i / 64)) (i % 64)) in
    ground arith

pub set_diff-Covered : (i : ℕ) (s : Marks) → Covered s → Covered (set_diff i s)
unfolding set_diff mem
set_diff-Covered i s c v h = ground (
  arith,
  word_at-put_word s.mask (i / 64) v (set_bit (word_at s.mask (i / 64)) (i % 64)),
  mem-append v s.dirty (i / 64 ∷ []),
  c v,
  c (i / 64),
)

pub reset_mask-Covered : (s : Marks) → Covered s → Covered (reset_mask s)
unfolding reset_mask
reset_mask-Covered s c v h = ground (arith, word_at-clear_words s.dirty s.mask v, c v)

pub length-reset_mask : (s : Marks) → length (reset_mask s).mask ≡ length s.mask
unfolding reset_mask
length-reset_mask s = length-clear_words s.dirty s.mask

-- After a reset no bit is set, if every word that is not zero was listed as dirty.
pub diff_mask_get-reset :
    (s : Marks) (j : ℕ) → Covered s → diff_mask_get (reset_mask s).mask j ≡ false
unfolding diff_mask_get reset_mask
diff_mask_get-reset s j c =
    let h : word_at (clear_words s.dirty s.mask) (j / 64) ≡ 0 =
      ground (arith, word_at-clear_words s.dirty s.mask (j / 64), c (j / 64)) in
    ground (arith, test_bit-zero (j % 64), h)

pub length-zero_words : (n : ℕ) → length (zero_words n) ≡ n
unfolding zero_words
length-zero_words zero = refl
length-zero_words (suc n) = ap suc (length-zero_words n)

word_at-zero_words : (n w : ℕ) → word_at (zero_words n) w ≡ 0
unfolding zero_words word_at
word_at-zero_words zero w = refl
word_at-zero_words (suc n) zero = refl
word_at-zero_words (suc n) (suc w) = word_at-zero_words n w

pub zero_words-Covered :
    (n : ℕ) (ds : List ℕ) → Covered (record { mask = zero_words n; dirty = ds })
zero_words-Covered n ds v h = word_at-zero_words n v

pub diff_mask_get-zero_words : (n j : ℕ) → diff_mask_get (zero_words n) j ≡ false
unfolding diff_mask_get
diff_mask_get-zero_words n j = ground (arith, word_at-zero_words n (j / 64), test_bit-zero (j % 64))
