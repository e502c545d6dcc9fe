-- ===== src/Compare/Convert/Safe.antt =====
-- A conversion does not lose the workbook.
use guangyang.Prelude.{
  ◌≡◌, ◌≢◌, refl, Bool, true, false, ◌&&◌, not, Option, none, some, List, [], ◌∷◌, ◌++◌, arith, ap,
  sym, ◌∙◌, subst, Bool-cases, inl, inr, is_some, if◌then◌else◌, ℕ,
}
use guangyang.Text.{
  Str, codes, ◌===◌, ===_sound, ===_refl, ===_iff, to_lower, trim_space, trim_right,
}
use guangyang.Text.Path.{ext}
use guangyang.Text.Path.Ext.{ext-end, ext-ext, ext-trim_space}
use guangyang.Errors.{GoError}
use guangyang.Excel.StrMap.{lookup}
use guangyang.Disk.{Disk, Machine, content, text_of, remove_file, stat}
use guangyang.Disk.Contents.{lookup-remove_file}
use guangyang.Compare.Convert.{
  Converter, Conversion, Run, kind_of, stem, trim_suffix, converted_path, keep_original,
  check_output, judge, judge_error, converter_run, options, timeout_seconds, run_converter,
  need_convert, convert_xls_if_needed,
}

trim_suffix-append : (e front : Str) → trim_suffix e (front ++ e) ++ e ≡ front ++ e
unfolding trim_suffix
trim_suffix-append [] [] = refl
trim_suffix-append (c ∷ s) [] = rw (===_refl (c ∷ s)) refl
trim_suffix-append e (c ∷ front) = elim (Bool-cases (e === (c ∷ front ++ e))) [
  | inl all ↦ rw all (===_sound e (c ∷ front ++ e) all)
  | inr more ↦ rw more (ap (λ t. c ∷ t) (trim_suffix-append e front))
]

-- A path is its stem with its extension.
stem-ext : (path : Str) → stem path ++ ext path ≡ path
unfolding stem
stem-ext path =
    let (front, h) = ext-end path in
    subst (λ t. trim_suffix (ext path) t ++ ext path ≡ t) (sym h)
      (trim_suffix-append (ext path) front)

append_cancel : (front s t : Str) → front ++ s ≡ front ++ t → s ≡ t
append_cancel [] s t h = h
append_cancel (c ∷ front) s t h = append_cancel front s t (cc)

-- The extension of the output is not that of the input.
new_ext_ne :
    (path : Str)
    → (if kind_of path === codes ".xls" then codes ".xlsx" else codes ".converted.xlsx") ≢ ext path
unfolding kind_of to_lower ◌===◌ ext trim_right
new_ext_ne path h = elim (Bool-cases (kind_of path === codes ".xls")) [
  | inl legacy ↦
      let e : codes ".xlsx" ≡ ext path = rw legacy at h in
      let k : ext (trim_space path) ≡ codes ".xlsx" =
        ext-trim_space path (codes ".xlsx") (sym e) refl refl in
      let f : (to_lower (codes ".xlsx") === codes ".xls") ≡ true =
        subst (λ t. (to_lower t === codes ".xls") ≡ true) k legacy in
      absurd (cc)
  | inr other_kind ↦
      let e : codes ".converted.xlsx" ≡ ext path = rw other_kind at h in
      let k : ext (codes ".converted.xlsx") ≡ codes ".converted.xlsx" =
        subst (λ t. ext t ≡ t) (sym e) (ext-ext path) in
      absurd (cc)
]

pub apart_sym : (s t : Str) → (s === t) ≡ false → (t === s) ≡ false
apart_sym s t h = ground (arith, ===_iff s t, ===_iff t s)

-- The output is never the input.
pub converted_path_ne : (path : Str) → (path === converted_path path) ≡ false
unfolding converted_path
converted_path_ne path = elim (Bool-cases (path === converted_path path)) [
  | inl same ↦ absurd (
      new_ext_ne path (
        append_cancel (stem path) _ (ext path)
          (sym (===_sound path (converted_path path) same) ∙ sym (stem-ext path))))
  | inr apart ↦ apart
]

and_right : (a b : Bool) → (a && b) ≡ true → b ≡ true
and_right a b h = ground arith

module _ (os : Machine) (conv : Converter) (in_path : Str) (before : Option Str) where
  -- What a conversion of the file at `in_path`, whose content was `before`, comes to.
  pub record IsSound (c : Conversion) (d : Disk) : Type 0 where
    pub failure_keeps : is_some c.error ≡ true → content in_path d ≡ before
    pub request_keeps : keep_original os conv ≡ true → content in_path d ≡ before
    pub result_path :
        c.error ≡ none → c.out_path ≡ (if c.converted then converted_path in_path else in_path)
    pub result_there : c.error ≡ none → c.converted ≡ true → is_some (lookup c.out_path d) ≡ true
    pub unconverted_keeps : c.converted ≡ false → content in_path d ≡ before

  abbrev is_there : Disk → Bool
  is_there d =
      not (is_some (os.refused stat (converted_path in_path) d))
      && is_some (lookup (converted_path in_path) d)

  check_output-IsSound :
      (d : Disk)
      → content in_path d ≡ before
      → IsSound (check_output os conv in_path d).0 (check_output os conv in_path d).1
  unfolding check_output
  check_output-IsSound d h = elim (Bool-cases (is_there d)) [
    | inl there ↦ elim (Bool-cases (keep_original os conv)) [
      | inl kept ↦
          rw (there, kept)
            (record {
              failure_keeps = λ e. h;
              request_keeps = λ e. h;
              result_path = λ e. refl;
              result_there = λ e c. and_right _ _ there;
              unconverted_keeps = λ e. h;
            })
      | inr dropped ↦
          rw (there, dropped)
            (record {
              failure_keeps = λ e. cc;
              request_keeps = λ e. cc;
              result_path = λ e. refl;
              result_there = λ e c.
                  rw
                    (lookup-remove_file os (converted_path in_path) in_path d
                      (converted_path_ne in_path))
                    (and_right _ _ there);
              unconverted_keeps = λ e. cc;
            })
    ]
    | inr missing ↦ rw missing (ground arith)
  ]

  judge_error-IsSound :
      (output : Str) (e : Option GoError) (d : Disk)
      → content in_path d ≡ before
      → IsSound
          (judge_error os conv in_path output e d).0
          (judge_error os conv in_path output e d).1
  unfolding judge_error
  judge_error-IsSound output none d h = check_output-IsSound d h
  judge_error-IsSound output (some e) d h = ground arith

  judge-IsSound :
      (timeout : ℕ) (r : Run) (d : Disk)
      → content in_path d ≡ before
      → IsSound (judge os conv in_path timeout r d).0 (judge os conv in_path timeout r d).1
  unfolding judge
  judge-IsSound timeout r d h = elim (Bool-cases r.timed_out) [
    | inl late ↦ rw late (ground arith)
    | inr in_time ↦ rw in_time (judge_error-IsSound r.output r.failure d h)
  ]

module _ (os : Machine) (conv : Converter) (in_path : Str) where
  -- `unoconvert [options] infile outfile`: a run changes no file but the one that its last argument
  -- names.
  abbrev pub WritesOutput : Type 0
  WritesOutput =
      (bin : Str) (args : List Str) (out path : Str) (t : ℕ) (d : Disk)
      → (path === out) ≡ false
      → content path (conv.run bin (args ++ out ∷ []) t d).1 ≡ content path d

  converter_run-content :
      (d : Disk)
      → WritesOutput
      → content in_path (converter_run os conv in_path d).1 ≡ content in_path d
  unfolding converter_run
  converter_run-content d quiet =
      quiet _ (options os conv in_path) (converted_path in_path) in_path _
        (remove_file os (converted_path in_path) d) (converted_path_ne in_path)
      ∙ ap text_of (
          lookup-remove_file os in_path (converted_path in_path) d
            (apart_sym in_path (converted_path in_path) (converted_path_ne in_path)))

  run_converter-IsSound :
      (e : Option GoError) (d : Disk)
      → WritesOutput
      → IsSound os conv in_path
          (content in_path d)
          (run_converter os conv in_path e d).0
          (run_converter os conv in_path e d).1
  unfolding run_converter
  run_converter-IsSound (some e) d quiet = ground arith
  run_converter-IsSound none d quiet =
      judge-IsSound os conv in_path (content in_path d) (timeout_seconds os conv)
        (converter_run os conv in_path d).0 (converter_run os conv in_path d).1
        (converter_run-content d quiet)

  -- If the converter changes no file but the output that its last argument names, a conversion that fails, that is not
  -- tried or that is asked to keep the original leaves the file as it was. Without an error the path
  -- given is the file's own if nothing was to convert, and the output's otherwise, and in that case
  -- something is there even if the original has been removed.
  pub convert_xls_if_needed-IsSound :
      (d : Disk)
      → WritesOutput
      → IsSound os conv in_path
          (content in_path d)
          (convert_xls_if_needed os conv in_path d).0
          (convert_xls_if_needed os conv in_path d).1
  unfolding convert_xls_if_needed
  convert_xls_if_needed-IsSound d quiet = elim (Bool-cases (in_path === [])) [
    | inl empty ↦ rw empty (ground arith)
    | inr path ↦ elim (Bool-cases (need_convert in_path (conv.header in_path d))) [
      | inl needed ↦ rw (path, needed) (run_converter-IsSound _ d quiet)
      | inr readable ↦ rw (path, readable) (ground arith)
    ]
  ]
