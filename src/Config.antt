-- ===== src/Config.antt =====
-- Numbers read from the environment: gobackend/paygate/config.go and the readers of
-- gobackend/compare/service.go. The argument `raw` is what os.Getenv returned.
use guangyang.Prelude.{ℕ, suc, ◌*◌, ◌^◌, ◌-◌, ◌%◌, ltb, ◌≡◌, refl, Option, some, if◌then◌else◌}
use guangyang.Prelude.Int.{ℤ, pos, negsuc}
use guangyang.Text.{Str, codes, trim_space, is_blank}
use guangyang.Text.Decimal.{parse_int}

-- The number that a positive setting gives, and the default for any other.
or_default : ℕ → Option ℤ → ℕ
or_default default (some (pos (suc n))) = suc n
or_default default _ = default

-- FeeFen: no value, no number and a negative number all mean that the job is free.
unfoldable pub fee_fen : Str → ℕ
unfolding or_default
fee_fen raw = if is_blank raw then 0 else or_default 0 (parse_int (trim_space raw))

-- readEnvIntDefault; `strconv.Atoi` reads the same texts as ParseInt at 64 bits.
unfoldable pub read_int_default : ℕ → Str → ℕ
unfolding or_default
read_int_default default raw =
    if is_blank raw then default else or_default default (parse_int (trim_space raw))

-- time.Second
abbrev pub second : ℕ
second = 1_000_000_000

-- The int64 that the low 64 bits of a product stand for.
unfoldable pub wrap_int64 : ℕ → ℤ
wrap_int64 n = let m = n % 2 ^ 64 in if ltb m (2 ^ 63) then pos m else negsuc (2 ^ 64 - m - 1)

seconds_or : ℤ → Option ℤ → ℤ
unfolding wrap_int64
seconds_or default (some (pos (suc n))) = wrap_int64 (suc n * second)
seconds_or default _ = default

-- readEnvDurationSecondsDefault; the product by time.Second is taken in int64.
unfoldable pub read_duration_default : ℤ → Str → ℤ
unfolding seconds_or
read_duration_default default raw =
    if is_blank raw then default else seconds_or default (parse_int (trim_space raw))

duration_wraps : read_duration_default (pos 7) (codes "9223372037") ≡ negsuc 9223372036709551615
unfolding read_duration_default parse_int is_blank trim_space
duration_wraps = refl
