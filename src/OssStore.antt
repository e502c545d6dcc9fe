-- ===== src/OssStore.antt =====
-- The object keys of gobackend/ossstore/ossstore.go.
pub mod Settings
pub mod Objects
use guangyang.Prelude.{
  Bool, true, false, [], ◌∷◌, ◌++◌, Option, none, some, map, ◌==◌, if◌then◌else◌, ◌≡◌, refl,
}
use guangyang.Text.{Str, codes, trim_space, is_blank}
use guangyang.Text.Path.{base, join, slash}

-- `enabled` says that both buckets are set.
pub record Store : Type 0 where
  pub enabled : Bool
  pub prefix : Str
  pub input_prefix : Str

-- `s != nil && s.Enabled()`
abbrev pub is_enabled : Option Store → Bool
is_enabled none = false
is_enabled (some s) = s.enabled

-- Store.ObjectKeyForJob
unfoldable pub object_key_for_job : Store → Str → Str
object_key_for_job s job_id = join (s.prefix ∷ trim_space job_id ∷ codes "compare.xlsx" ∷ [])

or_else : Str → Str → Str
or_else default s = if is_blank s then default else trim_space s

-- strings.ReplaceAll(name, "\\", "/")
abbrev forward : Str → Str
forward = map (λ c. if c == b'\\' then slash else c)

-- Store.ObjectKeyForInput
unfoldable pub object_key_for_input : Store → Str → Str → Str → Str
unfolding or_else
object_key_for_input s job_id which original_name =
    let name = base (forward (or_else (codes "upload") original_name)) in
    join (
      s.input_prefix ∷ trim_space job_id ∷ (or_else (codes "file") which ++ codes "_" ++ name) ∷ [])

input_key_example :
    object_key_for_input
      (record { enabled = true; prefix = []; input_prefix = codes "in" })
      (codes "j1")
      (codes "file1")
      (codes "..\\..\\a.xlsx")
    ≡ codes "in/j1/file1_a.xlsx"
unfolding object_key_for_input trim_space is_blank base join
input_key_example = refl
