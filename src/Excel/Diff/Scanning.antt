-- ===== src/Excel/Diff/Scanning.antt =====
-- The loop over the columns of a row: the cache is right, and the marks are on the columns that differ.
use guangyang.Prelude.{
  ℕ, zero, suc, ◌+◌, ◌*◌, ◌≤◌, ◌<◌, ◌≡◌, ◌∙◌, sym, ap, refl, Bool, true, false, not, ◌&&◌, ◌||◌, [],
  Option, none, some, arith, ltb, leb, ◌==◌, length, if◌then◌else◌, Bool-cases, inl, inr,
}
use guangyang.Text.{Str, ◌===◌, ===_sound}
use guangyang.Excel.Normalize.{normalize_scalar}
use guangyang.Excel.StrMap.{lookup, assign, lookup-assign}
use guangyang.Excel.KeyedRows.{Row}
use guangyang.Excel.Artifacts.{Artifacts}
use guangyang.Excel.Mask.{Marks, diff_mask_get, set_diff}
use guangyang.Excel.Mask.Facts.{
  Covered, set_diff-mask, set_diff-Covered, length-set_diff, diff_mask_get-set,
}
use guangyang.Excel.Fingerprint.{byte_length, fingerprint64}
use guangyang.Excel.Diff.{
  Cache, Scan, cached_normalize_fp, hit_or_store, cell_at, compare_col, compare_cols, row_cells,
}

-- The normalized text with its fingerprint.
unfoldable pub normalized : Str → Str × ℕ
normalized raw = (normalize_scalar raw, fingerprint64 (normalize_scalar raw))

some_inj : {A : Type 0} {a b : A} → some a ≡ some b → a ≡ b
some_inj e = ground arith

-- What the cache holds is right.
unfoldable pub CacheOk : Cache → Type 0
CacheOk m = (raw : Str) (v : Str × ℕ) → lookup raw m ≡ some v → v ≡ normalized raw

pub empty-CacheOk : CacheOk []
unfolding CacheOk lookup
empty-CacheOk raw v e = ground arith

assign-CacheOk : (raw : Str) (m : Cache) → CacheOk m → CacheOk (assign raw (normalized raw) m)
unfolding CacheOk
assign-CacheOk raw m c r v e =
    let h = sym (lookup-assign raw r (normalized raw) m) ∙ e in
    elim (Bool-cases (raw === r)) [
      | inl t ↦
          let q = ===_sound raw r t in
          sym (some_inj (ap (λ b. if b then some (normalized raw) else lookup r m) (sym t) ∙ h))
          ∙ ap normalized q
      | inr f ↦ c r v (ap (λ b. if b then some (normalized raw) else lookup r m) (sym f) ∙ h)
    ]

hit_or_store-normalized :
    (raw : Str) (m : Cache) (o : Option (Str × ℕ))
    → lookup raw m ≡ o
    → CacheOk m
    → ((hit_or_store raw m (normalized raw) o).0 ≡ normalized raw)
      × CacheOk (hit_or_store raw m (normalized raw) o).1
unfolding hit_or_store CacheOk
hit_or_store-normalized raw m (some v) e c = (c raw v e, c)
hit_or_store-normalized raw m none e c = elim (Bool-cases (ltb (length m) 80000)) [
  | inl h ↦ rw h (refl, assign-CacheOk raw m c)
  | inr h ↦ rw h (refl, c)
]

cached_normalize_fp-normalized :
    (raw : Str) (m : Cache)
    → CacheOk m
    → ((cached_normalize_fp raw m).0 ≡ normalized raw) × CacheOk (cached_normalize_fp raw m).1
unfolding cached_normalize_fp normalized
cached_normalize_fp-normalized raw m c = elim (Bool-cases (leb (byte_length raw) 64)) [
  | inl h ↦ rw h (unfold normalized in hit_or_store-normalized raw m (lookup raw m) refl c)
  | inr h ↦ rw h (refl, c)
]

module _ (art : Artifacts) (left right : Row) where
  -- The i-th column differs: its normalized texts do.
  unfoldable pub differs : ℕ → Bool
  differs i = not (
      normalize_scalar (cell_at art.col_idx1 left i)
      === normalize_scalar (cell_at art.col_idx2 right i))

  -- One of `n` columns from the i-th differs.
  unfoldable pub any_differs : ℕ → ℕ → Bool
  unfolding differs
  any_differs zero i = false
  any_differs (suc n) i = differs i || any_differs n (suc i)

  -- What the loop over `n` columns from the i-th makes of the variables `s`.
  pub record Scanned (n i : ℕ) (s t : Scan) : Type 0 where
    pub cache_ok : CacheOk t.cache
    pub covered : Covered t.marks
    pub same_length : length t.marks.mask ≡ length s.marks.mask
    pub bits :
        (j : ℕ)
        → diff_mask_get t.marks.mask j
          ≡ (diff_mask_get s.marks.mask j || (leb i j && ltb j (i + n) && differs j))
    pub any : t.has_diff ≡ (s.has_diff || any_differs n i)

-- Equal texts have equal fingerprints, so the text decides.
fingerprint_test :
    (x y : Str) → (not (fingerprint64 x == fingerprint64 y) || not (x === y)) ≡ not (x === y)
fingerprint_test x y = elim (Bool-cases (x === y)) [
  | inl h ↦ let e = ap fingerprint64 (===_sound x y h) in ground arith
  | inr h ↦ ground arith
]

-- What setting the i-th bit, or not, makes of the marks.
marks_step :
    (b : Bool) (i : ℕ) (m t : Marks)
    → t ≡ (if b then set_diff i m else m)
    → Covered m
    → i < 64 * length m.mask
    → Covered t
      × (length t.mask ≡ length m.mask)
      × ((j : ℕ) → diff_mask_get t.mask j ≡ (diff_mask_get m.mask j || (i == j && b)))
marks_step true i m t e d h =
    let em = set_diff-mask i m in
    rw e (
      set_diff-Covered i m d,
      length-set_diff i m,
      λ j. rw em (diff_mask_get-set m.mask i j (omega arith) ∙ ground arith),
    )
marks_step false i m t e d h = rw e (d, refl, λ j. ground arith)

module _ (art : Artifacts) (left right : Row) where
  compare_col-differs :
      (i : ℕ) (s : Scan)
      → CacheOk s.cache
      → CacheOk (compare_col art left right i s).cache
        × ((compare_col art left right i s).marks
            ≡ (if differs art left right i then set_diff i s.marks else s.marks))
        × ((compare_col art left right i s).has_diff ≡ (s.has_diff || differs art left right i))
  unfolding compare_col differs
  compare_col-differs i s c =
      let x = cell_at art.col_idx1 left i in
      let y = cell_at art.col_idx2 right i in
      let a = cached_normalize_fp-normalized x s.cache c in
      let b = cached_normalize_fp-normalized y (cached_normalize_fp x s.cache).1 a.1 in
      let ea = a.0 in
      let eb = b.0 in
      let t = fingerprint_test (normalize_scalar x) (normalize_scalar y) in
      (b.1, rw (ea, eb) (unfold normalized in rw t), rw (ea, eb) (unfold normalized in rw t))

  compare_col-Scanned :
      (i : ℕ) (s : Scan)
      → CacheOk s.cache
      → Covered s.marks
      → i < 64 * length s.marks.mask
      → Scanned art left right 1 i s (compare_col art left right i s)
  unfolding any_differs
  compare_col-Scanned i s c d h =
      let f = compare_col-differs i s c in
      let m =
        marks_step (differs art left right i) i s.marks (compare_col art left right i s).marks f.1 d
          h in
      let bits = m.2 in
      let any = f.2 in
      record {
        cache_ok = f.0;
        covered = m.0;
        same_length = m.1;
        bits = λ j. let e = bits j in ground arith;
        any = ground arith;
      }

  pub compare_cols-Scanned :
      (n i : ℕ) (s : Scan)
      → CacheOk s.cache
      → Covered s.marks
      → n + i ≤ 64 * length s.marks.mask
      → Scanned art left right n i s (compare_cols art left right n i s)
  unfolding compare_cols any_differs
  compare_cols-Scanned zero i s c d h = record {
    cache_ok = c;
    covered = d;
    same_length = refl;
    bits = λ j. ground arith;
    any = ground arith;
  }
  compare_cols-Scanned (suc n) i s c d h =
      let t = compare_col art left right i s in
      let one = compare_col-Scanned i s c d (omega arith) in
      let more =
        compare_cols-Scanned n (suc i) t one.cache_ok one.covered
          (let e = one.same_length in omega arith) in
      record {
        cache_ok = more.cache_ok;
        covered = more.covered;
        same_length = more.same_length ∙ one.same_length;
        bits = λ j. let a = more.bits j in let b = one.bits j in ground arith;
        any = let a = more.any in let b = one.any in ground arith;
      }

  pub row_cells-cong :
      (style : Bool) (p q : ℕ → Bool) (n i : ℕ)
      → ((j : ℕ) → i ≤ j → j < n + i → p j ≡ q j)
      → row_cells art style p left right n i ≡ row_cells art style q left right n i
  unfolding row_cells
  row_cells-cong style p q zero i h = refl
  row_cells-cong style p q (suc n) i h =
      let e = h i (omega arith) (omega arith) in
      let ih = row_cells-cong style p q n (suc i) (λ j a b. h j (omega arith) (omega arith)) in
      rw (e, ih)
