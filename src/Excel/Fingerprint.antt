-- ===== src/Excel/Fingerprint.antt =====
-- fingerprint64 of gobackend/excelcmp/compare.go: FNV-1a over the bytes of a string.
use guangyang.Prelude.{
  ℕ, zero, suc, ◌+◌, ◌*◌, ◌/◌, ◌%◌, ◌^◌, ◌≡◌, refl, List, [], ◌∷◌, ◌++◌, ltb, ◌==◌, if◌then◌else◌,
  length,
}
use guangyang.Text.{Str, codes}

-- The bytes of a code point in UTF-8.
unfoldable pub encode_rune : ℕ → List ℕ
encode_rune c =
    if ltb c 0x80
    then c ∷ []
    else if ltb c 0x800
    then (0xc0 + c / 64) ∷ (0x80 + c % 64) ∷ []
    else if ltb c 0x10000
    then (0xe0 + c / 4096) ∷ (0x80 + c / 64 % 64) ∷ (0x80 + c % 64) ∷ []
    else (0xf0 + c / 262144) ∷ (0x80 + c / 4096 % 64) ∷ (0x80 + c / 64 % 64) ∷ (0x80 + c % 64) ∷ []

unfoldable pub utf8 : Str → List ℕ
unfolding encode_rune
utf8 [] = []
utf8 (c ∷ s) = encode_rune c ++ utf8 s

-- len(s)
unfoldable pub byte_length : Str → ℕ
unfolding utf8
byte_length s = length (utf8 s)

-- a ^ b on the lowest bits, as many as the fuel says, and `a` above them: 8 bits for a byte.
unfoldable pub xor_bits : ℕ → ℕ → ℕ → ℕ
xor_bits zero a b = a
xor_bits (suc fuel) a b = (if a % 2 == b % 2 then 0 else 1) + 2 * xor_bits fuel (a / 2) (b / 2)

unfoldable pub fnv : ℕ → List ℕ → ℕ
unfolding xor_bits
fnv h [] = h
fnv h (b ∷ bs) = fnv (xor_bits 8 h b * 1099511628211 % 2 ^ 64) bs

-- fingerprint64
unfoldable pub fingerprint64 : Str → ℕ
unfolding fnv utf8
fingerprint64 s = fnv 14695981039346656037 (utf8 s)

-- The published value of FNV-1a for "a".
fingerprint64_a : fingerprint64 (codes "a") ≡ 0xaf63dc4c8601ec8c
unfolding fingerprint64
fingerprint64_a = refl
