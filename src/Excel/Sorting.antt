-- ===== src/Excel/Sorting.antt =====
-- sort.Strings, by insertion: the byte order of UTF-8 is the order of the code points.
use mathlib.Core.List.{Perm, Permᴰ}
use mathlib.Core.Logic.{∥∥₁_elim}
use guangyang.Prelude.{
  ◌≡◌, ◌∙◌, sym, ap, refl, Bool, true, false, ◌&&◌, ◌||◌, List, [], ◌∷◌, arith, ltb, ◌==◌,
  if◌then◌else◌, inl, inr, Bool-cases,
}
use guangyang.Text.{Str, ◌===◌}
use guangyang.Excel.StrMap.{elem, keep}

-- s <= t
unfoldable pub str_leb : Str → Str → Bool
str_leb [] t = true
str_leb (c ∷ s) [] = false
str_leb (c ∷ s) (d ∷ t) = ltb c d || (c == d && str_leb s t)

unfoldable pub insert_sorted : Str → List Str → List Str
insert_sorted k [] = k ∷ []
insert_sorted k (j ∷ js) = if str_leb k j then k ∷ j ∷ js else j ∷ insert_sorted k js

-- sort.Strings
unfoldable pub sort_strings : List Str → List Str
unfolding insert_sorted str_leb
sort_strings [] = []
sort_strings (k ∷ ks) = insert_sorted k (sort_strings ks)

str_leb_total : (s t : Str) → str_leb s t ≡ false → str_leb t s ≡ true
unfolding str_leb
str_leb_total [] t h = cc
str_leb_total (c ∷ s) [] h = refl
str_leb_total (c ∷ s) (d ∷ t) h = ground (arith, str_leb_total s t)

str_leb_antisym : (s t : Str) → str_leb s t ≡ true → str_leb t s ≡ true → s ≡ t
unfolding str_leb
str_leb_antisym [] [] h g = refl
str_leb_antisym [] (d ∷ t) h g = cc
str_leb_antisym (c ∷ s) [] h g = cc
str_leb_antisym (c ∷ s) (d ∷ t) h g = ground (arith, str_leb_antisym s t)

str_leb_trans : (s t u : Str) → str_leb s t ≡ true → str_leb t u ≡ true → str_leb s u ≡ true
unfolding str_leb
str_leb_trans [] t u h g = refl
str_leb_trans (c ∷ s) [] u h g = cc
str_leb_trans (c ∷ s) (d ∷ t) [] h g = cc
str_leb_trans (c ∷ s) (d ∷ t) (e ∷ u) h g = ground (arith, str_leb_trans s t u)

-- Two insertions commute.
insert_comm :
    (a b : Str) (ks : List Str)
    → insert_sorted a (insert_sorted b ks) ≡ insert_sorted b (insert_sorted a ks)
unfolding insert_sorted
insert_comm a b [] = ground (arith, str_leb_total a b, str_leb_antisym a b)
insert_comm a b (k ∷ ks) = ground (
  arith,
  insert_comm a b ks,
  str_leb_total a b,
  str_leb_total b a,
  str_leb_antisym a b,
  str_leb_trans a b k,
  str_leb_trans b a k,
  str_leb_total a k,
  str_leb_total b k,
)

sort_strings-Permᴰ : {xs ys : List Str} → Permᴰ xs ys → sort_strings xs ≡ sort_strings ys
unfolding sort_strings
sort_strings-Permᴰ Permᴰ.nil = refl
sort_strings-Permᴰ (Permᴰ.cons {a} {l₁ = xs} e p) = let ih = sort_strings-Permᴰ p in rw (e, ih)
sort_strings-Permᴰ (Permᴰ.swap {a} {b} {l = xs} e e') =
    let h = insert_comm a b (sort_strings xs) in rw (sym e, sym e', h)
sort_strings-Permᴰ (Permᴰ.trans p q) = sort_strings-Permᴰ p ∙ sort_strings-Permᴰ q

strings_set : IsSet (List Str)
strings_set = hlevel

-- The order of the input does not show.
pub sort_strings-Perm : {xs ys : List Str} → Perm xs ys → sort_strings xs ≡ sort_strings ys
sort_strings-Perm {xs} {ys} p =
    ∥∥₁_elim p (strings_set (sort_strings xs) (sort_strings ys)) sort_strings-Permᴰ

-- The same of the strings that pass a test.
sort_strings-keep-Permᴰ :
    (p : Str → Bool) {xs ys : List Str}
    → Permᴰ xs ys
    → sort_strings (keep p xs) ≡ sort_strings (keep p ys)
unfolding sort_strings keep
sort_strings-keep-Permᴰ p Permᴰ.nil = refl
sort_strings-keep-Permᴰ p (Permᴰ.cons {a} {b} e d) =
    let ih = sort_strings-keep-Permᴰ p d in
    let h = ap p e in elim (Bool-cases (p b)) [ inl t ↦ rw (h, t, ih, e) | inr f ↦ rw (h, f, ih) ]
sort_strings-keep-Permᴰ p (Permᴰ.swap {a} {b} {l = xs} e e') =
    let h = insert_comm a b (sort_strings (keep p xs)) in
    let ea = ap p (sym e) in
    let eb = ap p (sym e') in
    elim (Bool-cases (p a)) [
      | inl ta ↦ elim (Bool-cases (p b)) [
        | inl tb ↦ rw (ea, eb, ta, tb, sym e, sym e', h)
        | inr tb ↦ rw (ea, eb, ta, tb, sym e)
      ]
      | inr ta ↦ elim (Bool-cases (p b)) [
        | inl tb ↦ rw (ea, eb, ta, tb, sym e')
        | inr tb ↦ rw (ea, eb, ta, tb)
      ]
    ]
sort_strings-keep-Permᴰ p (Permᴰ.trans d d') =
    sort_strings-keep-Permᴰ p d ∙ sort_strings-keep-Permᴰ p d'

pub sort_strings-keep-Perm :
    (p : Str → Bool) {xs ys : List Str}
    → Perm xs ys
    → sort_strings (keep p xs) ≡ sort_strings (keep p ys)
sort_strings-keep-Perm p {xs} {ys} d =
    ∥∥₁_elim d (strings_set (sort_strings (keep p xs)) (sort_strings (keep p ys)))
      (sort_strings-keep-Permᴰ p)

elem-insert_sorted :
    (k j : Str) (js : List Str) → elem k (insert_sorted j js) ≡ (j === k || elem k js)
unfolding insert_sorted elem
elem-insert_sorted k j [] = refl
elem-insert_sorted k j (i ∷ js) = ground (arith, elem-insert_sorted k j js)

pub elem-sort_strings : (k : Str) (js : List Str) → elem k (sort_strings js) ≡ elem k js
unfolding sort_strings elem
elem-sort_strings k [] = refl
elem-sort_strings k (j ∷ js) =
    let ih = elem-sort_strings k js in
    let h = elem-insert_sorted k j (sort_strings js) in rw (h, ih)

-- Lists of the same strings have the same members.
pub elem-Perm : {xs ys : List Str} (k : Str) → Perm xs ys → elem k xs ≡ elem k ys
elem-Perm {xs} {ys} k p =
    sym (elem-sort_strings k xs) ∙ ap (elem k) (sort_strings-Perm p) ∙ elem-sort_strings k ys
