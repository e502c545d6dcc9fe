-- ===== src/Float.antt =====
-- The float64 arithmetic of the amounts, by IEEE 754: conversion from an integer, division and
-- multiplication by 100.0, and math.Round, each rounded to the nearest float64, ties to even. The
-- numbers are not negative.
pub mod Error
use guangyang.Prelude.{ℕ, zero, suc, ◌+◌, ◌*◌, ◌/◌, ◌%◌, ◌^◌, Bool, true, false, ltb, if◌then◌else◌}

-- A finite float64 that is not negative, counted in units of 2^-1074, the least one above 0. What would
-- be infinite, from 2^1024 on, is not told apart.
abbrev pub Float : Type 0
Float = ℕ

-- 1.0
unfoldable pub one : Float
one = 2 ^ 1074

-- The distance of the floats about q units: with 53 bits, the least power of two that leaves a
-- significand below 2^53. `fuel` bounds the halvings; q itself is enough.
unfoldable pub spacing : ℕ → ℕ → ℕ
spacing zero q = 1
spacing (suc fuel) q = elim (ltb q (2 ^ 53)) as (λ _. ℕ) [
  | true ↦ 1
  | false ↦ 2 * spacing fuel (q / 2)
]

-- The whole number nearest to a / d, an even one if two are.
unfoldable pub nearest : ℕ → ℕ → ℕ
nearest a d =
    if ltb (2 * (a % d)) d
    then a / d
    else if ltb d (2 * (a % d))
    then suc (a / d)
    else a / d + a / d % 2

-- The float nearest to a / b units.
unfoldable pub round : ℕ → ℕ → Float
unfolding spacing nearest
round a b = let u = spacing (a / b) (a / b) in u * nearest a (b * u)

-- float64(n)
unfoldable pub of_int : ℕ → Float
unfolding round one
of_int n = round (n * one) 1

-- x / n and x * n, where n is a float
unfoldable pub quotient : Float → ℕ → Float
unfolding round
quotient x n = round x n

unfoldable pub product : Float → ℕ → Float
unfolding round
product x n = round (x * n) 1

-- int64(math.Round(x)), which rounds halves up.
unfoldable pub math_round : Float → ℕ
unfolding one
math_round x = (2 * x + one) / (2 * one)
