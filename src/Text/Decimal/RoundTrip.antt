-- ===== src/Text/Decimal/RoundTrip.antt =====
-- A formatted integer is parsed back to itself.
use guangyang.Prelude.{
  ℕ, zero, suc, ◌+◌, ◌/◌, ◌%◌, ◌<◌, ◌≤◌, ◌≡◌, refl, [], ◌∷◌, some, arith, Bool-cases, ltb, inl, inr,
}
use guangyang.Text.{Str}
use guangyang.Text.Decimal.{scan_digits, parse_digits, write_digits, format_nat}

-- With enough fuel, reading what was written gives what reading `out` behind `n` gives.
scan_digits-write_digits :
    (fuel n : ℕ) (out : Str)
    → n < fuel
    → scan_digits 0 (write_digits fuel n out) ≡ scan_digits n out
unfolding scan_digits write_digits
scan_digits-write_digits zero n out h = elim h [ ]
scan_digits-write_digits (suc fuel) n out h =
    ground (arith, scan_digits-write_digits fuel (n / 10) ((b'0' + n % 10) ∷ out))

-- The text begins with a digit.
abbrev StartsWithDigit : Str → Type 0
StartsWithDigit [] = ⊥
StartsWithDigit (c ∷ s) = (b'0' ≤ c) × (c ≤ b'9')

write_digits_start : (fuel n : ℕ) (out : Str) → n < fuel → StartsWithDigit (write_digits fuel n out)
unfolding write_digits
write_digits_start zero n out h = elim h [ ]
write_digits_start (suc fuel) n out h = elim (Bool-cases (ltb n 10)) [
  | inl e ↦ rw e (ground arith)
  | inr e ↦ rw e (write_digits_start fuel (n / 10) _ (ground arith))
]

parse_digits_start : (s : Str) → StartsWithDigit s → parse_digits s ≡ scan_digits 0 s
unfolding parse_digits
parse_digits_start [] h = elim h [ ]
parse_digits_start (c ∷ s) h = refl

-- A number in decimal is read back, whatever its size.
pub parse_digits-format_nat : (n : ℕ) → parse_digits (format_nat n) ≡ some n
unfolding format_nat
parse_digits-format_nat n =
    rw (parse_digits_start _ (write_digits_start (suc n) n [] (omega arith)))
      (rw (scan_digits-write_digits (suc n) n [] (omega arith)) (unfold scan_digits in refl))
