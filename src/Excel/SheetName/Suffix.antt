-- ===== src/Excel/SheetName/Suffix.antt =====
-- The numbers behind the names: their digits, how many these are, and that a name tells its number.
use guangyang.Prelude.{
  ℕ, zero, suc, ◌+◌, ◌*◌, ◌/◌, ◌%◌, ◌<◌, ◌≤◌, ◌≡◌, ◌∙◌, sym, ap, true, ◌++◌, [], ◌∷◌, arith, ltb,
  length, Bool-cases, inl, inr,
}
use guangyang.Text.{Str}
use guangyang.Text.Decimal.{write_digits, format_nat, parse_digits}
use guangyang.Text.Decimal.RoundTrip.{parse_digits-format_nat}
use guangyang.Excel.SheetName.{candidate}

abbrev pub Digits : Str → Type 0
Digits [] = Unit {0}
Digits (c ∷ s) = (b'0' ≤ c) × (c ≤ b'9') × Digits s

write_digits-Digits :
    (fuel n : ℕ) (out : Str) → Digits out → n < fuel → Digits (write_digits fuel n out)
unfolding write_digits
write_digits-Digits zero n out d h = d
write_digits-Digits (suc fuel) n out d h = elim (Bool-cases (ltb n 10)) [
  | inl e ↦ rw e (ground arith)
  | inr e ↦ rw e (write_digits-Digits fuel (n / 10) _ (ground arith) (ground arith))
]

pub format_nat-Digits : (n : ℕ) → Digits (format_nat n)
unfolding format_nat
format_nat-Digits n = write_digits-Digits (suc n) n [] tt (omega arith)

-- 10 ^ k
abbrev pub bound : ℕ → ℕ
bound zero = 1
bound (suc k) = 10 * bound k

length-write_digits_le :
    (k fuel n : ℕ) (out : Str)
    → n < bound (suc k)
    → n < fuel
    → length (write_digits fuel n out) ≤ suc k + length out
unfolding write_digits
length-write_digits_le k zero n out h g = elim g [ ]
length-write_digits_le zero (suc fuel) n out h g =
    let e : ltb n 10 ≡ true = ground arith in rw e (ground arith)
length-write_digits_le (suc k) (suc fuel) n out h g = elim (Bool-cases (ltb n 10)) [
  | inl e ↦ rw e (ground arith)
  | inr e ↦ rw e (
      let ih =
        length-write_digits_le k fuel (n / 10) ((b'0' + n % 10) ∷ out) (omega arith)
          (ground arith) in
      omega arith)
]

-- A number below 10 ^ (k + 1) has k + 1 digits at most.
pub length-format_nat_le : (k n : ℕ) → n < bound (suc k) → length (format_nat n) ≤ suc k
unfolding format_nat
length-format_nat_le k n h =
    let e = length-write_digits_le k (suc n) n [] h (omega arith) in omega arith

no_underscore : (p t : Str) → Digits (p ++ b'_' ∷ t) → ⊥
no_underscore [] t d = absurd (omega arith)
no_underscore (c ∷ p) t d = no_underscore p t d.2

-- The digits behind the last underscore are determined.
suffix_unique : (p q t u : Str) → Digits t → Digits u → p ++ b'_' ∷ t ≡ q ++ b'_' ∷ u → t ≡ u
suffix_unique [] [] t u dt du e = cc
suffix_unique [] (d ∷ q) t u dt du e =
    let e' : t ≡ q ++ b'_' ∷ u = cc in absurd (no_underscore q u (rw (← e') dt))
suffix_unique (c ∷ p) [] t u dt du e =
    let e' : u ≡ p ++ b'_' ∷ t = cc in absurd (no_underscore p t (rw (← e') du))
suffix_unique (c ∷ p) (d ∷ q) t u dt du e = suffix_unique p q t u dt du (cc)

format_nat_injective : (i j : ℕ) → format_nat i ≡ format_nat j → i ≡ j
format_nat_injective i j e =
    let h = sym (parse_digits-format_nat i) ∙ ap parse_digits e ∙ parse_digits-format_nat j in cc

-- Different numbers give different names.
pub candidate_injective : (name : Str) (i j : ℕ) → candidate name i ≡ candidate name j → i ≡ j
unfolding candidate
candidate_injective name i j e =
    format_nat_injective i j (suffix_unique _ _ _ _ (format_nat-Digits i) (format_nat-Digits j) e)
