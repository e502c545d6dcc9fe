-- ===== src/Text/Decimal.antt =====
-- What the program calls of the package strconv: ParseInt and Atoi in base 10, FormatInt and Itoa,
-- over `int` of 64 bits.
pub mod RoundTrip
use guangyang.Prelude.{
  ℕ, zero, suc, ◌+◌, ◌-◌, ◌*◌, ◌/◌, ◌%◌, ◌^◌, ◌<◌, ◌≡◌, refl, Bool, true, false, ◌&&◌, ◌||◌, [],
  ◌∷◌, ◌++◌, Option, none, some, arith, ltb, leb, ◌==◌, if◌then◌else◌,
}
use guangyang.Prelude.Int.{ℤ, pos, negsuc, neg}
use guangyang.Text.{Str, codes}

unfoldable pub is_digit : ℕ → Bool
is_digit c = leb b'0' c && leb c b'9'

-- The digits read one by one behind the number `n`.
unfoldable pub scan_digits : ℕ → Str → Option ℕ
unfolding is_digit
scan_digits n [] = some n
scan_digits n (c ∷ s) =
    let rest = scan_digits (n * 10 + (c - b'0')) s in if is_digit c then rest else none

unfoldable pub parse_digits : Str → Option ℕ
unfolding scan_digits
parse_digits [] = none
parse_digits (c ∷ s) = scan_digits 0 (c ∷ s)

abbrev pub max_int64 : ℕ
max_int64 = 2 ^ 63 - 1

in_range : Bool → Option ℕ → Option ℤ
in_range negative none = none
in_range negative (some n) =
    if negative
    then (if leb n (max_int64 + 1) then some (neg n) else none)
    else if leb n max_int64
    then some (pos n)
    else none

-- strconv.ParseInt(s, 10, 64); `none` is an error, of syntax or of range.
unfoldable pub parse_int : Str → Option ℤ
unfolding parse_digits in_range
parse_int [] = none
parse_int (c ∷ s) =
    if c == b'+'
    then in_range false (parse_digits s)
    else if c == b'-'
    then in_range true (parse_digits s)
    else in_range false (parse_digits (c ∷ s))

-- The digits of a number below 10 ^ fuel, in front of `out`.
unfoldable pub write_digits : ℕ → ℕ → Str → Str
write_digits zero n out = out
write_digits (suc fuel) n out =
    let more = write_digits fuel (n / 10) ((b'0' + n % 10) ∷ out) in
    if ltb n 10 then (b'0' + n) ∷ out else more

-- A number is written in fewer rounds than itself, and one more.
unfoldable pub format_nat : ℕ → Str
unfolding write_digits
format_nat n = write_digits (suc n) n []

-- strconv.FormatInt(n, 10)
unfoldable pub format_int : ℤ → Str
unfolding format_nat
format_int (pos n) = format_nat n
format_int (negsuc n) = b'-' ∷ format_nat (suc n)

format_example : format_int (negsuc 119) ≡ codes "-120"
unfolding format_int
format_example = refl

parse_example : parse_int (codes "-007") ≡ some (negsuc 6)
unfolding parse_int
parse_example = refl
