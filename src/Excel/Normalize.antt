-- ===== src/Excel/Normalize.antt =====
-- gobackend/excelcmp/normalize.go: the value of a cell for the comparison.
use guangyang.Prelude.{
  ℕ, ◌+◌, ◌-◌, ◌*◌, ◌≡◌, refl, Bool, true, false, ◌&&◌, ◌||◌, [], ◌∷◌, ltb, ◌==◌, if◌then◌else◌,
}
use guangyang.Prelude.Int.{ℤ, pos, neg}
use guangyang.Text.{Str, codes, trim_space, ◌===◌, to_lower}
use guangyang.Text.Decimal.{is_digit, format_int}

-- Zeros to the end of the text, one at least if `some_zero` is not set.
unfoldable pub zeros_end : Bool → Str → Bool
zeros_end some_zero [] = some_zero
zeros_end some_zero (c ∷ s) = c == b'0' && zeros_end true s

-- Digits, one at least if `some_digit` is not set, a dot, and zeros to the end.
unfoldable pub digits_dot_zeros : Bool → Str → Bool
unfolding zeros_end is_digit
digits_dot_zeros some_digit [] = false
digits_dot_zeros some_digit (c ∷ s) =
    let more = digits_dot_zeros true s in
    if is_digit c then more else some_digit && c == b'.' && zeros_end false s

abbrev is_sign : ℕ → Bool
is_sign c = c == b'+' || c == b'-'

-- looksLikeIntegerFloatString: ^[+-]?\d+\.0+$
unfoldable pub looks_like_integer_float : Str → Bool
unfolding digits_dot_zeros
looks_like_integer_float [] = false
looks_like_integer_float (c ∷ s) =
    if is_sign c then digits_dot_zeros false s else digits_dot_zeros false (c ∷ s)

-- The number that the digits in front of the dot spell, behind `n`.
unfoldable pub whole_part : ℕ → Str → ℕ
unfolding is_digit
whole_part n [] = n
whole_part n (c ∷ s) =
    let more = whole_part (n * 10 + (c - b'0')) s in if is_digit c then more else n

-- The sign and the whole part of a text that looks like an integer in floating-point form.
unfoldable pub integer_value : Str → Bool × ℕ
unfolding whole_part
integer_value [] = (false, 0)
integer_value (c ∷ s) =
    if is_sign c then (c == b'-', whole_part 0 s) else (false, whole_part 0 (c ∷ s))

-- 9e15, below which float64 has every integer.
abbrev pub float_limit : ℕ
float_limit = 9_000_000_000_000_000

abbrev signed : Bool → ℕ → ℤ
signed negative n = if negative then neg n else pos n

-- ParseFloat of such a text is exact up to the limit, and is above it, or an error, beyond.
unfoldable pub shorten : Str → Bool × ℕ → Str
shorten s (negative, n) = if ltb float_limit n then s else format_int (signed negative n)

unfoldable pub is_null_word : Str → Bool
is_null_word s = s === codes "nan" || s === codes "nat" || s === codes "none"

unfoldable pub normalize_trimmed : Str → Str
unfolding shorten is_null_word
normalize_trimmed s =
    if s === []
    then []
    else if is_null_word (to_lower s)
    then []
    else if looks_like_integer_float s
    then shorten s (integer_value s)
    else s

-- normalizeScalarForCompare
unfoldable pub normalize_scalar : Str → Str
unfolding normalize_trimmed looks_like_integer_float integer_value
normalize_scalar v = normalize_trimmed (trim_space v)

normalize_float : normalize_scalar (codes " -12.00 ") ≡ codes "-12"
unfolding normalize_scalar trim_space to_lower format_int ◌===◌
normalize_float = refl

normalize_text : normalize_scalar (codes "001") ≡ codes "001"
unfolding normalize_scalar trim_space to_lower ◌===◌
normalize_text = refl

normalize_null : normalize_scalar (codes "NaN") ≡ []
unfolding normalize_scalar trim_space to_lower ◌===◌
normalize_null = refl
