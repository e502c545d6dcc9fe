-- ===== src/Compare/Convert.antt =====
-- convertXLSIfNeeded and saveUploadTo of gobackend/compare/service.go, on the disk: legacy workbooks are
-- handed to the converter, a program beside this one.
pub mod Safe
use guangyang.Prelude.{
  ℕ, ◌≡◌, Bool, true, false, ◌&&◌, ◌||◌, not, Option, none, some, List, [], ◌∷◌, ◌++◌, ◌==◌,
  if◌then◌else◌, is_some, String,
}
use guangyang.Text.{Str, codes, ◌===◌, trim_space, is_blank, to_lower}
use guangyang.Text.Path.{ext, join}
use guangyang.Text.Decimal.{format_nat}
use guangyang.Errors.{GoError, new, message, Result, ok, err}
use guangyang.Config.{read_int_default}
use guangyang.Disk.{Disk, Machine, Action, ◌>>=◌, ◌>>◌, stat, create_file, copy_to, remove_file}
use guangyang.Excel.StrMap.{lookup}

-- What a run of the converter leaves: its output, whether the time was over, and its error.
pub record Run : Type 0 where
  pub output : Str
  pub timed_out : Bool
  pub failure : Option GoError

-- What the system gives: exec.LookPath, the first eight bytes of a file (nothing if it cannot be
-- opened), the converter with its arguments and its time in seconds, the error of os.Stat, and the
-- verb %q of fmt.
pub record Converter : Type 0 where
  pub look_path : Str → Option GoError
  pub header : Str → Disk → List ℕ
  pub run : Str → List Str → ℕ → Disk → Run × Disk
  pub stat_error : Str → Disk → GoError
  pub quoted : Str → Str

unfoldable pub is_zip : List ℕ → Bool
is_zip [] = false
is_zip (a ∷ []) = false
is_zip (a ∷ b ∷ rest) = a == b'P' && b == b'K'

-- The header of an OLE2 file.
unfoldable pub is_ole2 : List ℕ → Bool
unfolding ◌===◌
is_ole2 bytes = bytes === (0xD0 ∷ 0xCF ∷ 0x11 ∷ 0xE0 ∷ 0xA1 ∷ 0xB1 ∷ 0x1A ∷ 0xE1 ∷ [])

-- The lower-case extension, after blanks are cut off.
unfoldable pub kind_of : Str → Str
unfolding ext to_lower trim_space
kind_of path = to_lower (ext (trim_space path))

abbrev xls : Str
xls = codes ".xls"

unfoldable pub need_convert : Str → List ℕ → Bool
unfolding kind_of is_zip is_ole2 ◌===◌
need_convert in_path bytes = if kind_of in_path === xls then not (is_zip bytes) else is_ole2 bytes

-- strings.TrimSuffix(s, suffix)
unfoldable pub trim_suffix : Str → Str → Str
unfolding ◌===◌
trim_suffix suffix [] = []
trim_suffix suffix (c ∷ s) = if suffix === (c ∷ s) then [] else c ∷ trim_suffix suffix s

unfoldable pub stem : Str → Str
unfolding ext trim_suffix
stem path = trim_suffix (ext path) path

unfoldable pub converted_path : Str → Str
unfolding kind_of stem ◌===◌
converted_path in_path =
    stem in_path ++ (if kind_of in_path === xls then codes ".xlsx" else codes ".converted.xlsx")

-- readEnvStringDefault
unfoldable pub read_env_string_default : Str → Str → Str
unfolding trim_space ◌===◌
read_env_string_default default raw = let v = trim_space raw in if v === [] then default else v

-- The text of a failed run, or what stands for an empty one.
unfoldable pub said : Str → Str → Str
unfolding trim_space ◌===◌
said output instead = let msg = trim_space output in if msg === [] then instead else msg

-- The three results: the path to read on, whether a conversion was tried, and the error.
pub record Conversion : Type 0 where
  pub out_path : Str
  pub converted : Bool
  pub error : Option GoError

abbrev failed : Str → Conversion
failed msg = record { out_path = []; converted = true; error = some (new msg) }

module _ (os : Machine) (conv : Converter) where
  -- strings.EqualFold with words of ASCII whose letters fold to no others.
  unfoldable pub keep_original : Bool
  unfolding trim_space to_lower ◌===◌
  keep_original =
      let v = to_lower (trim_space (os.env (codes "XLSCONVERT_KEEP_ORIGINAL"))) in
      v === codes "1" || v === codes "true"

  -- After a run without error: the file must be there, and the original may go.
  unfoldable pub check_output : Str → Disk → Conversion × Disk
  unfolding keep_original remove_file converted_path
  check_output in_path d =
      if not (is_some (os.refused stat (converted_path in_path) d))
        && is_some (lookup (converted_path in_path) d)
      then (
        record { out_path = converted_path in_path; converted = true; error = none },
        if keep_original then d else remove_file os in_path d,
      )
      else (
        failed (codes "xls 转换失败：输出文件不存在: " ++ message (conv.stat_error (converted_path in_path) d)),
        d,
      )

  unfoldable pub judge_error : Str → Str → Option GoError → Disk → Conversion × Disk
  unfolding check_output said
  judge_error in_path output none d = check_output in_path d
  judge_error in_path output (some e) d =
      (failed (codes "xls 转换失败: " ++ said output (message e)), d)

  -- What is made of a run.
  unfoldable pub judge : Str → ℕ → Run → Disk → Conversion × Disk
  unfolding judge_error said format_nat
  judge in_path timeout r d =
      if r.timed_out
      then (
        failed
            (codes "xls 转换超时（" ++ format_nat timeout ++ codes "s）: " ++ said r.output (codes "超时")),
        d,
      )
      else judge_error in_path r.output r.failure d

  abbrev setting : String → String → Str
  setting name default = read_env_string_default (codes default) (os.env (codes name))

  abbrev pub timeout_seconds : ℕ
  timeout_seconds = read_int_default 60 (os.env (codes "XLSCONVERT_TIMEOUT_SECONDS"))

  -- The arguments of the command before the output's path.
  abbrev pub options : Str → List Str
  options in_path =
      codes "--host"
      ∷ setting "XLSCONVERT_HOST" "xlsconvert"
      ∷ codes "--port"
      ∷ format_nat (read_int_default 2003 (os.env (codes "XLSCONVERT_PORT")))
      ∷ codes "--protocol"
      ∷ setting "XLSCONVERT_PROTOCOL" "http"
      ∷ codes "--host-location"
      ∷ codes "remote"
      ∷ in_path
      ∷ []

  abbrev arguments : Str → List Str
  arguments in_path = options in_path ++ converted_path in_path ∷ []

  -- An old output is removed, and the converter is run.
  unfoldable pub converter_run : Str → Disk → Run × Disk
  unfolding remove_file read_env_string_default read_int_default format_nat converted_path
  converter_run in_path d =
      conv.run (setting "XLSCONVERT_BIN" "unoconvert") (arguments in_path) timeout_seconds
        (remove_file os (converted_path in_path) d)

  -- The converter is looked for, and run.
  unfoldable pub run_converter : Str → Option GoError → Disk → Conversion × Disk
  unfolding judge converter_run read_env_string_default read_int_default
  run_converter in_path (some e) d = (
    failed (
        codes "xls 转换失败：未找到转换客户端 "
        ++ conv.quoted (setting "XLSCONVERT_BIN" "unoconvert")
        ++ codes "（请确认 Go 镜像已安装 unoserver 客户端）"),
    d,
  )
  run_converter in_path none d =
      judge in_path timeout_seconds (converter_run in_path d).0 (converter_run in_path d).1

  -- convertXLSIfNeeded
  unfoldable pub convert_xls_if_needed : Str → Disk → Conversion × Disk
  unfolding need_convert run_converter read_env_string_default ◌===◌
  convert_xls_if_needed in_path d =
      if in_path === []
      then (record { out_path = []; converted = false; error = some (new (codes "输入文件路径为空")) }, d)
      else if not (need_convert in_path (conv.header in_path d))
      then (record { out_path = in_path; converted = false; error = none }, d)
      else run_converter in_path (conv.look_path (setting "XLSCONVERT_BIN" "unoconvert")) d

-- saveUploadTo: the part is copied into a new file.
unfoldable pub save_upload_to : Machine → Str → Str → Str → Action Str
unfolding create_file copy_to join ◌===◌
save_upload_to os dir name body d =
    if dir === [] || name === []
    then (err (new (codes "invalid path")), d)
    else (do
      create_file os (join (dir ∷ name ∷ []))
      copy_to os (join (dir ∷ name ∷ [])) body
      (λ d'. (ok (join (dir ∷ name ∷ [])), d')))
        d
