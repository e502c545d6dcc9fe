-- ===== src/Excel/Columns.antt =====
-- The columns of gobackend/excelcmp/compare.go: indexOfHeader, headerIndexMap, alignedColumnIndices
-- and orderedUnionCols. An index of -1 is `none`; a set of strings is a list with `elem`.
use guangyang.Prelude.{
  ℕ, suc, ◌≡◌, refl, not, ◌&&◌, ◌||◌, List, [], ◌∷◌, ◌++◌, Option, none, some, arith, length,
  length-append, append_assoc, get_elem?, ap, sym, ◌∙◌, Bool-cases, inl, inr, if◌then◌else◌,
}
use guangyang.Text.{Str, ◌===◌, ===_iff, ===_sound}
use guangyang.Excel.StrMap.{StrMap, lookup, assign, elem, elem-append, lookup-assign}

unfoldable index_from : ℕ → List Str → Str → Option ℕ
index_from i [] name = none
index_from i (h ∷ hs) name =
    let rest = index_from (suc i) hs name in if h === name then some i else rest

-- indexOfHeader
unfoldable pub index_of_header : List Str → Str → Option ℕ
unfolding index_from
index_of_header headers name = index_from 0 headers name

unfoldable index_headers : ℕ → List Str → StrMap ℕ → StrMap ℕ
index_headers i [] m = m
index_headers i (h ∷ hs) m = index_headers (suc i) hs (assign h i m)

-- headerIndexMap: the last of equal headers stays.
unfoldable pub header_index_map : List Str → StrMap ℕ
unfolding index_headers
header_index_map headers = index_headers 0 headers []

-- alignedColumnIndices, for one of the two maps.
unfoldable pub aligned_column_indices : List Str → StrMap ℕ → List (Option ℕ)
aligned_column_indices [] hidx = []
aligned_column_indices (c ∷ cols) hidx = lookup c hidx ∷ aligned_column_indices cols hidx

-- The loop over the first headers.
unfoldable first_cols : List Str → Str → List Str → List Str
first_cols set key [] = []
first_cols set key (c ∷ cs) =
    let rest = first_cols set key cs in
    if c === key then rest else if elem c set then c ∷ rest else rest

-- The loop over the second headers, with the columns seen.
unfoldable further_cols : List Str → Str → List Str → List Str → List Str
further_cols set key seen [] = []
further_cols set key seen (c ∷ cs) =
    let skipped = further_cols set key seen cs in
    let taken = c ∷ further_cols set key (c ∷ seen) cs in
    if c === key
    then skipped
    else if not (elem c set)
    then skipped
    else if elem c seen
    then skipped
    else taken

-- orderedUnionCols
unfoldable pub ordered_union_cols : List Str → List Str → Str → List Str
unfolding first_cols further_cols
ordered_union_cols h1 h2 key =
    let out = first_cols (h1 ++ h2) key h1 in out ++ further_cols (h1 ++ h2) key out h2

elem-first_cols :
    (set : List Str) (key c : Str) (cs : List Str)
    → elem c (first_cols set key cs) ≡ (not (c === key) && elem c set && elem c cs)
unfolding first_cols elem
elem-first_cols set key c [] = ground arith
elem-first_cols set key c (d ∷ cs) =
    ground (arith, elem-first_cols set key c cs, ===_iff d key, ===_iff c key, ===_iff d c)

elem-further_cols :
    (set : List Str) (key c : Str) (seen cs : List Str)
    → (elem c seen || elem c (further_cols set key seen cs))
      ≡ (elem c seen || (not (c === key) && elem c set && elem c cs))
unfolding further_cols elem
elem-further_cols set key c seen [] = ground arith
elem-further_cols set key c seen (d ∷ cs) = ground (
  arith,
  elem-further_cols set key c seen cs,
  elem-further_cols set key c (d ∷ seen) cs,
  ===_iff d key,
  ===_iff c key,
  ===_iff d c,
)

-- The columns of the comparison are those of either table, the key left out.
ordered_union_cols-elem :
    (h1 h2 : List Str) (key c : Str)
    → elem c (ordered_union_cols h1 h2 key) ≡ (not (c === key) && (elem c h1 || elem c h2))
unfolding ordered_union_cols
ordered_union_cols-elem h1 h2 key c = ground (
  arith,
  elem-append c (first_cols (h1 ++ h2) key h1)
      (further_cols (h1 ++ h2) key (first_cols (h1 ++ h2) key h1) h2),
  elem-further_cols (h1 ++ h2) key c (first_cols (h1 ++ h2) key h1) h2,
  elem-first_cols (h1 ++ h2) key c h1,
  elem-append c h1 h2,
)

get_elem?-middle :
    (pre : List Str) (h : Str) (hs : List Str) → get_elem? (pre ++ h ∷ hs) (length pre) ≡ some h
get_elem?-middle [] h hs = refl
get_elem?-middle (x ∷ pre) h hs = get_elem?-middle pre h hs

-- Each index that the map holds is a place where the header stands.
Indexed : List Str → StrMap ℕ → Type 0
Indexed all m = (c : Str) (j : ℕ) → lookup c m ≡ some j → get_elem? all j ≡ some c

assign-Indexed :
    (all : List Str) (h : Str) (n : ℕ) (m : StrMap ℕ)
    → get_elem? all n ≡ some h
    → Indexed all m
    → Indexed all (assign h n m)
unfolding Indexed
assign-Indexed all h n m g ok c j e =
    let l = lookup-assign h c n m in
    elim (Bool-cases (h === c)) [
      | inl t ↦
          let at : n ≡ j = ground arith in
          ap (get_elem? all) (sym at) ∙ g ∙ ap some (===_sound h c t)
      | inr f ↦ ok c j (ground arith)
    ]

index_headers-Indexed :
    (all pre hs : List Str) (n : ℕ) (m : StrMap ℕ)
    → all ≡ pre ++ hs
    → n ≡ length pre
    → Indexed all m
    → Indexed all (index_headers n hs m)
unfolding index_headers
index_headers-Indexed all pre [] n m e en ok = ok
index_headers-Indexed all pre (h ∷ hs) n m e en ok =
    let g : get_elem? all n ≡ some h = rw (e, en) (get_elem?-middle pre h hs) in
    let snoc = append_assoc pre (h ∷ []) hs in
    index_headers-Indexed all (pre ++ h ∷ []) hs (suc n) (assign h n m) (e ∙ sym snoc)
      (omega (arith, length-append pre (h ∷ []))) (assign-Indexed all h n m g ok)

-- The index found for a column is one at which the column stands among the headers.
header_index_map-get :
    (headers : List Str) (c : Str) (j : ℕ)
    → lookup c (header_index_map headers) ≡ some j
    → get_elem? headers j ≡ some c
unfolding header_index_map Indexed lookup
header_index_map-get headers c j e =
    index_headers-Indexed headers [] headers 0 [] refl refl (λ d i h. ground arith) c j e
