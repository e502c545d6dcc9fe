-- ===== src/Excel/Headers.antt =====
-- normalizeHeaders of gobackend/excelcmp/readxlsx.go, and padRow of keyedread.go.
use guangyang.Prelude.{
  ℕ, zero, suc, ◌≡◌, refl, ap, ◌∙◌, append_assoc, false, List, [], ◌∷◌, ◌++◌, Option, none, some,
  length, All, arith, if◌then◌else◌, Bool-cases, inl, inr,
}
use guangyang.Text.{Str, codes, trim_space, is_blank}
use guangyang.Text.Blank.{is_blank-trim_space, is_blank-eq-all_space, all_space-append}
use guangyang.Text.Decimal.{format_nat}
use guangyang.Excel.StrMap.{StrMap, lookup, assign}
use guangyang.Excel.KeyedRows.{Row}

-- A cell of the header row: an empty one is named by its column.
unfoldable pub header_name : ℕ → Str → Str
header_name i v = if is_blank v then codes "Unnamed: " ++ format_nat i else trim_space v

-- The slice h, from the i-th column.
unfoldable pub header_names : ℕ → List Str → List Str
unfolding header_name
header_names i [] = []
header_names i (v ∷ vs) = header_name i v ∷ header_names (suc i) vs

-- The name that `out` gets, and what `seen` then has under the header, by what it had.
unfoldable pub numbered : Str → Option ℕ → Str × ℕ
numbered name none = (name, 0)
numbered name (some c) = (name ++ codes "." ++ format_nat (suc c), suc c)

unfoldable pub number_headers : StrMap ℕ → List Str → List Str
unfolding numbered
number_headers seen [] = []
number_headers seen (name ∷ names) =
    let out = numbered name (lookup name seen) in
    out.0 ∷ number_headers (assign name out.1 seen) names

-- normalizeHeaders
unfoldable pub normalize_headers : List Str → List Str
unfolding header_names number_headers
normalize_headers raw = number_headers [] (header_names 0 raw)

-- The cells copied into a row of n empty ones.
unfoldable pub copy_cells : ℕ → Row → Row
copy_cells zero cols = []
copy_cells (suc n) [] = [] ∷ copy_cells n []
copy_cells (suc n) (c ∷ cols) = c ∷ copy_cells n cols

-- padRow; a row of the right length is taken as it is, which is a copy of all its cells.
unfoldable pub pad_row : Row → ℕ → Row
unfolding copy_cells
pad_row cols n = copy_cells n cols

length-copy_cells : (n : ℕ) (cols : Row) → length (copy_cells n cols) ≡ n
unfolding copy_cells
length-copy_cells zero cols = refl
length-copy_cells (suc n) [] = ap suc (length-copy_cells n [])
length-copy_cells (suc n) (c ∷ cols) = ap suc (length-copy_cells n cols)

length-header_names : (i : ℕ) (raw : List Str) → length (header_names i raw) ≡ length raw
unfolding header_names
length-header_names i [] = refl
length-header_names i (v ∷ vs) = ap suc (length-header_names (suc i) vs)

length-number_headers :
    (seen : StrMap ℕ) (names : List Str) → length (number_headers seen names) ≡ length names
unfolding number_headers
length-number_headers seen [] = refl
length-number_headers seen (name ∷ names) =
    ap suc (length-number_headers (assign name (numbered name (lookup name seen)).1 seen) names)

-- Text that has a part that is not blank is not blank.
is_blank-append : (s t : Str) → is_blank s ≡ false → is_blank (s ++ t) ≡ false
is_blank-append s t h =
    ground (arith, is_blank-eq-all_space (s ++ t), all_space-append s t, is_blank-eq-all_space s)

abbrev Named : List Str → Type 0
Named = All (λ h. is_blank h ≡ false)

unnamed : is_blank (codes "Unnamed: ") ≡ false
unfolding is_blank trim_space
unnamed = refl

header_name-named : (i : ℕ) (v : Str) → is_blank (header_name i v) ≡ false
unfolding header_name
header_name-named i v = elim (Bool-cases (is_blank v)) [
  | inl e ↦ rw e (is_blank-append (codes "Unnamed: ") (format_nat i) unnamed)
  | inr e ↦ rw e (is_blank-trim_space v ∙ e)
]

header_names-Named : (i : ℕ) (raw : List Str) → Named (header_names i raw)
unfolding header_names
header_names-Named i [] = tt
header_names-Named i (v ∷ vs) = (header_name-named i v, header_names-Named (suc i) vs)

numbered-Named :
    (name : Str) (o : Option ℕ) → is_blank name ≡ false → is_blank (numbered name o).0 ≡ false
unfolding numbered
numbered-Named name none h = h
numbered-Named name (some c) h =
    rw (append_assoc name (codes ".") (format_nat (suc c)))
      (is_blank-append name (codes "." ++ format_nat (suc c)) h)

number_headers-Named :
    (seen : StrMap ℕ) (names : List Str) → Named names → Named (number_headers seen names)
unfolding number_headers
number_headers-Named seen [] h = tt
number_headers-Named seen (name ∷ names) h = (
  numbered-Named name (lookup name seen) h.0,
  number_headers-Named (assign name (numbered name (lookup name seen)).1 seen) names h.1,
)

-- There is a name for each cell of the header row, and none is blank.
normalize_headers-Named :
    (raw : List Str) → (length (normalize_headers raw) ≡ length raw) × Named (normalize_headers raw)
unfolding normalize_headers
normalize_headers-Named raw = (
  length-number_headers [] (header_names 0 raw) ∙ length-header_names 0 raw,
  number_headers-Named [] (header_names 0 raw) (header_names-Named 0 raw),
)

-- A header that looks like a number added to another: two columns of the table are then named a.1.
twice :
    normalize_headers (codes "a" ∷ codes "a" ∷ codes "a.1" ∷ [])
    ≡ codes "a" ∷ codes "a.1" ∷ codes "a.1" ∷ []
unfolding normalize_headers lookup assign format_nat trim_space is_blank
twice = refl
