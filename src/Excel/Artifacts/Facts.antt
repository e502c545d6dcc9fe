-- ===== src/Excel/Artifacts/Facts.antt =====
-- What the comparison finds of the two tables' keys.
use mathlib.Core.List.{Perm}
use guangyang.Prelude.{◌≡◌, ◌∙◌, sym, ap, Bool, not, ◌&&◌, List, arith}
use guangyang.Text.{Str}
use guangyang.Errors.{ok}
use guangyang.Excel.StrMap.{StrMap, has, keys, keep, elem, elem-keys, elem-keep, keep-cong}
use guangyang.Excel.KeyedRows.{Row}
use guangyang.Excel.Sorting.{sort_strings, elem-sort_strings, elem-Perm, sort_strings-keep-Perm}
use guangyang.Excel.Artifacts.{Artifacts, compare_artifacts_from_maps}

elem-sorted_keep :
    (p : Str → Bool) (k : Str) (m : StrMap Row)
    → elem k (sort_strings (keep p (keys m))) ≡ (p k && has k m)
elem-sorted_keep p k m =
    elem-sort_strings k (keep p (keys m))
    ∙ elem-keep p k (keys m)
    ∙ ap (λ b. p k && b) (elem-keys k m)

-- The three lists of keys part the keys of the two tables: a key is listed as removed if the first
-- table alone has it, as added if the second alone has it, and as common if both have it.
pub compare_artifacts_from_maps-partition :
    (h1 h2 : List Str) (m1 m2 : StrMap Row) (key k : Str) (art : Artifacts)
    → compare_artifacts_from_maps h1 h2 m1 m2 key ≡ ok art
    → (elem k art.reduced_keys ≡ (not (has k m2) && has k m1))
      × (elem k art.inc_keys ≡ (not (has k m1) && has k m2))
      × (elem k art.common_keys ≡ (has k m2 && has k m1))
unfolding compare_artifacts_from_maps
compare_artifacts_from_maps-partition h1 h2 m1 m2 key k art e = ground (
  arith,
  elem-sorted_keep (λ j. not (has j m2)) k m1,
  elem-sorted_keep (λ j. not (has j m1)) k m2,
  elem-sorted_keep (λ j. has j m2) k m1,
)

has-Perm : (m n : StrMap Row) → Perm (keys m) (keys n) → (k : Str) → has k m ≡ has k n
has-Perm m n p k = sym (elem-keys k m) ∙ elem-Perm k p ∙ elem-keys k n

sorted_keep-Perm :
    (p q : Str → Bool) (m n : StrMap Row)
    → ((k : Str) → p k ≡ q k)
    → Perm (keys m) (keys n)
    → sort_strings (keep p (keys m)) ≡ sort_strings (keep q (keys n))
sorted_keep-Perm p q m n h d =
    sort_strings-keep-Perm p d ∙ ap sort_strings (keep-cong p q (keys n) h)

-- The lists of keys do not depend on the order in which Go runs through its maps.
pub compare_artifacts_from_maps-order :
    (h1 h2 : List Str) (m1 n1 m2 n2 : StrMap Row) (key : Str) (art brt : Artifacts)
    → Perm (keys m1) (keys n1)
    → Perm (keys m2) (keys n2)
    → compare_artifacts_from_maps h1 h2 m1 m2 key ≡ ok art
    → compare_artifacts_from_maps h1 h2 n1 n2 key ≡ ok brt
    → (art.reduced_keys ≡ brt.reduced_keys)
      × (art.inc_keys ≡ brt.inc_keys)
      × (art.common_keys ≡ brt.common_keys)
unfolding compare_artifacts_from_maps
compare_artifacts_from_maps-order h1 h2 m1 n1 m2 n2 key art brt p1 p2 ea eb =
    let not_has1 = λ (k : Str). ap not (has-Perm m1 n1 p1 k) in
    let not_has2 = λ (k : Str). ap not (has-Perm m2 n2 p2 k) in
    ground (
      arith,
      sorted_keep-Perm (λ k. not (has k m2)) (λ k. not (has k n2)) m1 n1 not_has2 p1,
      sorted_keep-Perm (λ k. not (has k m1)) (λ k. not (has k n1)) m2 n2 not_has1 p2,
      sorted_keep-Perm (λ k. has k m2) (λ k. has k n2) m1 n1 (has-Perm m2 n2 p2) p1,
    )
