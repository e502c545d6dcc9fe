-- ===== src/Excel/SheetName/Unique.antt =====
-- The search for a name ends, and its result is new, short enough, and without forbidden characters.
use guangyang.Prelude.{
  ℕ, zero, suc, ◌+◌, ◌-◌, ◌<◌, ◌≤◌, ◌≡◌, ◌⊎◌, ap, refl, Bool, true, false, not, List, [], ◌∷◌,
  Option, some, arith, ltb, length, length-append, length-take_le, Bool-cases, inl, inr,
  if◌then◌else◌,
}
use guangyang.Text.{Str, codes, ◌===◌, ===_iff, ===_refl, trim_space}
use guangyang.Text.Decimal.{format_nat}
use guangyang.Excel.StrMap.{elem, keep, elem-keep}
use guangyang.Excel.SheetName.{
  trim_runes, replace_chars, forbidden, nonempty_or, safe_sheet_name, candidate, unique_from,
  unique_sheet_name,
}
use guangyang.Excel.SheetName.Chars.{Accepted, safe_sheet_name-Accepted, candidate-Accepted}
use guangyang.Excel.SheetName.Suffix.{bound, length-format_nat_le, candidate_injective}

length-keep_le : (p : Str → Bool) (xs : List Str) → length (keep p xs) ≤ length xs
unfolding keep
length-keep_le p [] = omega arith
length-keep_le p (x ∷ xs) = ground (arith, length-keep_le p xs)

-- Without one of its elements a list is shorter.
length-keep_lt :
    (p : Str → Bool) (k : Str) (xs : List Str)
    → p k ≡ false
    → elem k xs ≡ true
    → length (keep p xs) < length xs
unfolding keep elem
length-keep_lt p k [] h e = cc
length-keep_lt p k (x ∷ xs) h e = elim (Bool-cases (x === k)) [
  | inl t ↦ let same = ap p ((===_iff x k).0 t) in let le = length-keep_le p xs in ground arith
  | inr f ↦ ground (arith, length-keep_lt p k xs h)
]

-- Among more distinct strings than a list has, one is not in it.
pigeonhole :
    (f : ℕ → Str)
    → ((i j : ℕ) → f i ≡ f j → i ≡ j)
    → (n i : ℕ) (xs : List Str) → length xs < n
    → (j : ℕ) × (i ≤ j) × (j < i + n) × (elem (f j) xs ≡ false)
pigeonhole f inj zero i xs h = elim h [ ]
pigeonhole f inj (suc n) i xs h = elim (Bool-cases (elem (f i) xs)) [
  | inr e ↦ (i, omega arith, omega arith, e)
  | inl e ↦
      let p = λ (k : Str). not (k === f i) in
      let shorter = length-keep_lt p (f i) xs (ground (arith, ===_refl (f i))) e in
      let r = pigeonhole f inj n (suc i) (keep p xs) (omega arith) in
      let j = r.0 in
      let later = r.1 in
      let other = inj j i in
      (
        j,
        omega arith,
        (let b = r.2 in omega arith),
        (let g = r.3 in ground (arith, elem-keep p (f j) xs, ===_iff (f j) (f i))),
      )
]

-- What the search finds.
record Found (name : Str) (used : List Str) (cand : Str) (last : ℕ) (r : Option (Str × List Str))
    : Type 0 where
  chosen : Str
  result : r ≡ some (chosen, chosen ∷ used)
  new : elem chosen used ≡ false
  shape : (chosen ≡ cand) ⊎ ((k : ℕ) × (k < last) × (chosen ≡ candidate name k))

unique_from-Found :
    (fuel : ℕ) (name : Str) (used : List Str) (cand : Str) (i j last : ℕ)
    → i ≤ j
    → j < i + fuel
    → j < last
    → elem (candidate name j) used ≡ false
    → Found name used cand last (unique_from (suc fuel) name used cand i)
unfolding unique_from
unique_from-Found zero name used cand i j last lo hi small free = absurd (omega arith)
unique_from-Found (suc fuel) name used cand i j last lo hi small free =
    elim (Bool-cases (elem cand used)) [
      | inr e ↦ record { chosen = cand; result = rw e refl; new = e; shape = inl refl }
      | inl e ↦ rw e (elim (Bool-cases (elem (candidate name i) used)) [
        | inr g ↦ rw g (record {
          chosen = candidate name i;
          result = refl;
          new = g;
          shape = inr (i, omega arith, refl);
        })
        | inl g ↦
            let r =
              unique_from-Found fuel name used (candidate name i) (suc i) j last (ground arith)
                (omega arith) small free in
            record {
              chosen = r.chosen;
              result = r.result;
              new = r.new;
              shape = elim r.shape [
                | inl same ↦ inr (i, omega arith, same)
                | inr other ↦ inr other
              ];
            }
      ])
    ]

safe_sheet_name_bound : (name : Str) → length (safe_sheet_name name) ≤ 31
unfolding safe_sheet_name trim_runes
safe_sheet_name_bound name =
    let s = replace_chars forbidden (nonempty_or (codes "Sheet") (trim_space name)) in
    ground (arith, length-take_le 31 s)

length-candidate_le :
    (name : Str) (k : ℕ) → k < bound 29 → length name ≤ 31 → length (candidate name k) ≤ 31
unfolding candidate trim_runes
length-candidate_le name k small h =
    let suffix = b'_' ∷ format_nat k in
    let len = length-format_nat_le 28 k small in
    let max_len = if ltb (31 - length suffix) 1 then 1 else 31 - length suffix in
    let cut : length (if ltb max_len (length name) then trim_runes name max_len else name)
        ≤ 31 - length suffix =
      unfold trim_runes in ground (arith, length-take_le (31 - length suffix) name) in
    let total =
      length-append (if ltb max_len (length name) then trim_runes name max_len else name) suffix in
    omega arith

-- A name that Excel takes, and that is not used yet.
pub record GoodName (used : List Str) (s : Str) : Type 0 where
  pub new : elem s used ≡ false
  pub short : length s ≤ 31
  pub accepted : Accepted s

-- The search for a sheet name ends: for any proposed name, where fewer than 10 ^ 9 names are used, it
-- gives a name that is not used yet, has 31 characters at most and none that Excel forbids, and adds
-- this name to the used ones.
pub unique_sheet_name-GoodName :
    (name : Str) (used : List Str)
    → length used < 1_000_000_000
    → (s : Str) × (unique_sheet_name name used ≡ some (s, s ∷ used)) × GoodName used s
unfolding unique_sheet_name
unique_sheet_name-GoodName name used few =
    let safe = safe_sheet_name name in
    let free =
      pigeonhole (candidate safe) (candidate_injective safe) (suc (length used)) 2 used
        (omega arith) in
    let r =
      unique_from-Found (suc (length used)) safe used safe 2 free.0 (length used + 3) free.1
        (let b = free.2 in omega arith) (let b = free.2 in omega arith) free.3 in
    (
      r.chosen,
      r.result,
      record {
        new = r.new;
        short = elim r.shape [
          | inl same ↦ rw same (safe_sheet_name_bound name)
          | inr (k, lt, same) ↦
              rw same (length-candidate_le safe k (omega arith) (safe_sheet_name_bound name))
        ];
        accepted = elim r.shape [
          | inl same ↦ rw same (safe_sheet_name-Accepted name)
          | inr (k, lt, same) ↦ rw same (candidate-Accepted safe k (safe_sheet_name-Accepted name))
        ];
      },
    )
