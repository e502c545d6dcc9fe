-- ===== src/Excel/StrMap.antt =====
-- A Go map with string keys, as an association list. An assignment to a new key appends.
use guangyang.Prelude.{
  ◌≡◌, refl, Bool, false, ◌||◌, List, [], ◌∷◌, ◌++◌, Option, none, some, is_some, arith,
  if◌then◌else◌, Bool-cases, inl, inr, ◌&&◌, ap, fun_ext,
}
use guangyang.Text.{Str, ◌===◌, ===_iff, ===_sound}

abbrev pub StrMap : Type 0 → Type 0
StrMap V = List (Str × V)

module _ {V : Type 0} where
  -- v, ok := m[k]
  unfoldable pub lookup : Str → StrMap V → Option V
  lookup k [] = none
  lookup k ((j, v) ∷ m) = if j === k then some v else lookup k m

  -- m[k] = v
  unfoldable pub assign : Str → V → StrMap V → StrMap V
  assign k v [] = (k, v) ∷ []
  assign k v ((j, w) ∷ m) = if j === k then (j, v) ∷ m else (j, w) ∷ assign k v m

  abbrev pub has : Str → StrMap V → Bool
  has k m = is_some (lookup k m)

  unfoldable pub keys : StrMap V → List Str
  keys [] = []
  keys ((k, v) ∷ m) = k ∷ keys m

  pub lookup-assign :
      (k j : Str) (v : V) (m : StrMap V)
      → lookup j (assign k v m) ≡ (if k === j then some v else lookup j m)
  unfolding lookup assign
  lookup-assign k j v [] = refl
  lookup-assign k j v ((i, w) ∷ m) =
      ground (arith, ===_iff k j, ===_iff i k, ===_iff i j, lookup-assign k j v m)

-- Membership of a list of strings.
unfoldable pub elem : Str → List Str → Bool
elem k [] = false
elem k (j ∷ js) = j === k || elem k js

pub elem-append : (k : Str) (xs ys : List Str) → elem k (xs ++ ys) ≡ (elem k xs || elem k ys)
unfolding elem
elem-append k [] ys = refl
elem-append k (x ∷ xs) ys = ground (arith, elem-append k xs ys)

pub elem-keys : {V : Type 0} (k : Str) (m : StrMap V) → elem k (keys m) ≡ has k m
unfolding elem keys lookup
elem-keys k [] = refl
elem-keys k ((j, v) ∷ m) = ground (arith, elem-keys k m)

-- The loop that appends the strings that pass a test.
unfoldable pub keep : (Str → Bool) → List Str → List Str
keep p [] = []
keep p (k ∷ ks) = let rest = keep p ks in if p k then k ∷ rest else rest

-- The test sees equal strings alike.
pub elem-keep : (p : Str → Bool) (k : Str) (ks : List Str) → elem k (keep p ks) ≡ (p k && elem k ks)
unfolding keep elem
elem-keep p k [] = ground arith
elem-keep p k (j ∷ ks) = elim (Bool-cases (j === k)) [
  | inl h ↦ let e = ===_sound j k h in ground (arith, elem-keep p k ks, ap p e)
  | inr h ↦ ground (arith, elem-keep p k ks)
]

pub keep-cong : (p q : Str → Bool) (ks : List Str) → ((k : Str) → p k ≡ q k) → keep p ks ≡ keep q ks
keep-cong p q ks h = ap (λ f. keep f ks) (fun_ext h)
