-- ===== src/Float/Error.antt =====
-- How far a rounded result may be off.
use guangyang.Prelude.{
  ℕ, zero, suc, ◌+◌, ◌*◌, ◌/◌, ◌%◌, ◌^◌, ◌≤◌, ◌<◌, ◌≡◌, ◌⊎◌, inl, inr, refl, ap, Bool, true, false,
  ltb, arith, Bool-cases,
}
use native.Mathlib.Nat.{
  mod-lt, div-add-mod, mul-le-mul_left, mul-le-mul_right, le-div_iff_mul-le, div-lt_iff_lt-mul,
  div-mul-le_self,
}
use guangyang.Float.{one, spacing, nearest, round, of_int, quotient, product, math_round}

module _ (fuel q : ℕ) where
  abbrev choice : Bool → ℕ
  choice b = elim b as (λ _. ℕ) [ true ↦ 1 | false ↦ 2 * spacing fuel (q / 2) ]

  spacing_below : ltb q (2 ^ 53) ≡ true → spacing (suc fuel) q ≡ 1
  unfolding spacing
  spacing_below e = ap choice e

  spacing_above : ltb q (2 ^ 53) ≡ false → spacing (suc fuel) q ≡ 2 * spacing fuel (q / 2)
  unfolding spacing
  spacing_above e = ap choice e

spacing_pos : (fuel q : ℕ) → 0 < spacing fuel q
unfolding spacing
spacing_pos zero q = omega arith
spacing_pos (suc fuel) q = elim (Bool-cases (ltb q (2 ^ 53))) [
  | inl e ↦ rw (spacing_below fuel q e) (omega arith)
  | inr e ↦ let half = spacing_pos fuel (q / 2) in rw (spacing_above fuel q e) (omega arith)
]

-- A spacing above 1 leaves a significand of 53 bits.
spacing_normal : (fuel q : ℕ) → (spacing fuel q ≡ 1) ⊎ (spacing fuel q * 2 ^ 52 ≤ q)
unfolding spacing
spacing_normal zero q = inl refl
spacing_normal (suc fuel) q = elim (Bool-cases (ltb q (2 ^ 53))) [
  | inl e ↦ inl (spacing_below fuel q e)
  | inr e ↦ inr (
      rw (spacing_above fuel q e) (elim (spacing_normal fuel (q / 2)) [
        | inl least ↦ rw least (ground arith)
        | inr more ↦ omega arith
      ]))
]

-- With this fuel the significand is below 2^53.
spacing_fits : (fuel q : ℕ) → q ≤ fuel → q < 2 ^ 53 * spacing fuel q
unfolding spacing
spacing_fits zero q h = omega arith
spacing_fits (suc fuel) q h = elim (Bool-cases (ltb q (2 ^ 53))) [
  | inl e ↦ rw (spacing_below fuel q e) (ground arith)
  | inr e ↦
      let half = spacing_fits fuel (q / 2) (ground arith) in
      rw (spacing_above fuel q e) (omega arith)
]

-- The nearest whole number is off by a half at most.
nearest_off :
    (a d : ℕ) → 0 < d → (2 * a ≤ 2 * (d * nearest a d) + d) × (2 * (d * nearest a d) ≤ 2 * a + d)
unfolding nearest
nearest_off a d pos =
    let parts = div-add-mod a d in
    let rest = mod-lt a pos in
    elim (Bool-cases (ltb (2 * (a % d)) d)) [
      | inl e ↦ rw e (grind arith, grind arith)
      | inr e ↦ elim (Bool-cases (ltb d (2 * (a % d)))) [
        | inl e' ↦ rw (e, e') (grind arith, grind arith)
        | inr e' ↦ rw (e, e') (tie parts (ground arith) (a / d % 2) (omega arith))
      ]
    ]
  where
    tie :
        d * (a / d) + a % d ≡ a
        → 2 * (a % d) ≡ d
        → (k : ℕ) → k < 2
        → (2 * a ≤ 2 * (d * (a / d + k)) + d) × (2 * (d * (a / d + k)) ≤ 2 * a + d)
    tie parts half zero h = (grind arith, grind arith)
    tie parts half (suc zero) h = (grind arith, grind arith)
    tie parts half (suc (suc k)) h = absurd (omega arith)

-- A result is off by half a spacing at most: by a part in 2^53, or by half a unit if it is tiny.
round_off :
    (a b : ℕ)
    → 0 < b
    → (2 ^ 53 * a ≤ 2 ^ 53 * (b * round a b) + (a + 2 ^ 52 * b))
      × (2 ^ 53 * (b * round a b) ≤ 2 ^ 53 * a + (a + 2 ^ 52 * b))
unfolding round
round_off a b pos =
    let u = spacing (a / b) (a / b) in
    let off = nearest_off a (b * u) (area b u pos (spacing_pos (a / b) (a / b))) in
    let assoc : b * u * nearest a (b * u) ≡ b * (u * nearest a (b * u)) = grind arith in
    let wide : 2 ^ 52 * (b * u) ≤ a + 2 ^ 52 * b = elim (spacing_normal (a / b) (a / b)) [
      | inl least ↦ rw least (omega arith)
      | inr more ↦ wider u more
    ] in
    (omega arith, omega arith)
  where
    area : (m n : ℕ) → 0 < m → 0 < n → 0 < m * n
    area m n hm hn = grind arith

    wider : (u : ℕ) → u * 2 ^ 52 ≤ a / b → 2 ^ 52 * (b * u) ≤ a + 2 ^ 52 * b
    wider u h =
        let scaled = mul-le-mul_left b h in
        let whole = div-mul-le_self a b in
        let comm : b * (u * 2 ^ 52) ≡ 2 ^ 52 * (b * u) = grind arith in
        let comm' : b * (a / b) ≡ a / b * b = grind arith in omega arith

one_large : 2 ^ 20 ≤ one
unfolding one
one_large = omega arith

-- Fen into yuan and back, for a total of N units.
chain :
    (s n m x y z : ℕ)
    → 2 ^ 20 ≤ s
    → m ≤ 2 ^ 50 * s
    → m ≡ n * s
    → (2 ^ 53 * m ≤ 2 ^ 53 * x + (m + 2 ^ 52)) × (2 ^ 53 * x ≤ 2 ^ 53 * m + (m + 2 ^ 52))
    → (2 ^ 53 * x ≤ 2 ^ 53 * (100 * y) + (x + 2 ^ 52 * 100))
      × (2 ^ 53 * (100 * y) ≤ 2 ^ 53 * x + (x + 2 ^ 52 * 100))
    → (2 ^ 53 * (y * 100) ≤ 2 ^ 53 * z + (y * 100 + 2 ^ 52))
      × (2 ^ 53 * z ≤ 2 ^ 53 * (y * 100) + (y * 100 + 2 ^ 52))
    → (n * (2 * s) ≤ 2 * z + s) × (2 * z + s < suc n * (2 * s))
chain s n m x y z large small e hx hy hz =
    let twice : n * (2 * s) ≡ 2 * m = grind arith in
    let more : suc n * (2 * s) ≡ 2 * m + 2 * s = grind arith in (omega arith, omega arith)

-- A number n with n * b ≤ a < (n + 1) * b is a / b.
quotient_unique : (a b n : ℕ) → 0 < b → n * b ≤ a → a < suc n * b → a / b ≡ n
quotient_unique a b n pos low high =
    let below = (le-div_iff_mul-le {k = b} {x = n} {y = a} pos).1 low in
    let above = (div-lt_iff_lt-mul {k = b} {x = a} {y = suc n} pos).1 high in omega arith

-- A whole number of hundredths, below 2^50, is what its hundredth is rounded back to.
pub math_round-hundredths :
    (n : ℕ) → n ≤ 2 ^ 50 → math_round (product (quotient (of_int n) 100) 100) ≡ n
unfolding math_round product quotient of_int
math_round-hundredths n small =
    let x = round (n * one) 1 in
    let y = round x 100 in
    let z = round (y * 100) 1 in
    let (low, high) =
      chain one n (n * one) x y z one_large (mul-le-mul_right one small) refl (plain (n * one))
        (round_off x 100 (omega arith)) (plain (y * 100)) in
    quotient_unique (2 * z + one) (2 * one) n (let large = one_large in omega arith) low high
  where
    plain :
        (a : ℕ)
        → (2 ^ 53 * a ≤ 2 ^ 53 * round a 1 + (a + 2 ^ 52))
          × (2 ^ 53 * round a 1 ≤ 2 ^ 53 * a + (a + 2 ^ 52))
    plain a = let (low, high) = round_off a 1 (omega arith) in (omega arith, omega arith)

-- Any number of hundredths above 0 is above 0 as a float.
pub quotient-pos : (n : ℕ) → 0 < n → 0 < quotient (of_int n) 100
unfolding quotient of_int
quotient-pos n pos =
    let x = round (n * one) 1 in
    let (low, high) = round_off (n * one) 1 (omega arith) in
    let (low', high') = round_off x 100 (omega arith) in
    let least : one ≤ n * one = grind arith in let large = one_large in omega arith
