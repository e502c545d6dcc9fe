-- ===== src/Wechat/Settings.antt =====
-- The settings of gobackend/wechat/config.go that are read from the environment or from the file of
-- keys. `env` is os.Getenv and `read_file` is os.ReadFile, with none for an error.
use guangyang.Prelude.{◌≡◌, refl, List, [], ◌∷◌, ◌++◌, Option, none, some, ◌==◌, if◌then◌else◌}
use guangyang.Text.{Str, codes, trim_space, is_space, is_blank, ◌===◌, has_prefix, contains}
use guangyang.Errors.{new, Result, ok, err}

-- strings.Split(s, "\n"), with what stands before `s` on its first line.
unfoldable pub split_lines : Str → Str → List Str
split_lines line [] = line ∷ []
split_lines line (c ∷ s) =
    if c == b'\n' then line ∷ split_lines [] s else split_lines (line ++ c ∷ []) s

-- strings.TrimPrefix(s, p), for a prefix that is there.
unfoldable pub drop_prefix : Str → Str → Str
drop_prefix [] s = s
drop_prefix (p ∷ ps) [] = []
drop_prefix (p ∷ ps) (c ∷ s) = drop_prefix ps s

unfoldable pub trim_prefix : Str → Str → Str
unfolding drop_prefix
trim_prefix p s = if has_prefix p s then drop_prefix p s else s

-- The value after the name of the key.
unfoldable pub key_value : Str → Str
unfolding trim_prefix
key_value rest =
    trim_space (trim_prefix (codes ":") (trim_space (trim_prefix (codes "=") (trim_space rest))))

unfoldable pub key_in_lines : Str → List Str → Str
unfolding key_value drop_prefix
key_in_lines name [] = []
key_in_lines name (line ∷ rest) =
    let later = key_in_lines name rest in
    if is_blank line
    then later
    else if has_prefix name (trim_space line)
    then key_value (drop_prefix name (trim_space line))
    else later

-- parseKeyFromText
unfoldable pub parse_key_from_text : Str → Str → Str
unfolding split_lines key_in_lines
parse_key_from_text text name = key_in_lines name (split_lines [] text)

-- The first word of strings.Fields.
unfoldable pub first_word : Str → Str
first_word [] = []
first_word (c ∷ s) = if is_space c then [] else c ∷ first_word s

-- The text from the first place of the prefix on.
unfoldable pub from_prefix : Str → Str → Str
from_prefix p [] = []
from_prefix p (c ∷ s) = let rest = from_prefix p s in if has_prefix p (c ∷ s) then c ∷ s else rest

abbrev pub pub_key_id : Str
pub_key_id = codes "PUB_KEY_ID_"

unfoldable pub pub_key_id_in_lines : List Str → Str
unfolding first_word from_prefix
pub_key_id_in_lines [] = []
pub_key_id_in_lines (line ∷ rest) =
    let later = pub_key_id_in_lines rest in
    if contains pub_key_id (trim_space line)
    then first_word (from_prefix pub_key_id (trim_space line))
    else later

-- inferPubKeyIDFromText
unfoldable pub infer_pub_key_id_from_text : Str → Str
unfolding split_lines pub_key_id_in_lines
infer_pub_key_id_from_text text = pub_key_id_in_lines (split_lines [] text)

abbrev pub key_files : List Str
key_files =
    codes "wechatpay/apikey/apikey.txt"
    ∷ codes "../wechatpay/apikey/apikey.txt"
    ∷ codes "wechatpay/apikey/key.txt"
    ∷ codes "../wechatpay/apikey/key.txt"
    ∷ []

abbrev pub or_next : Str → Str → Str
or_next v next = if v === [] then next else v

abbrev found_in : (Str → Str) → Option Str → Str
found_in parse none = []
found_in parse (some text) = parse text

module _ (env : Str → Str) (read_file : Str → Option Str) where
  -- The loop over the files: the first value that is not empty.
  unfoldable pub first_found : (Str → Str) → List Str → Str
  first_found parse [] = []
  first_found parse (p ∷ ps) = or_next (found_in parse (read_file p)) (first_found parse ps)

  -- inferFromApikeyFile
  unfoldable pub infer_from_apikey_file : Str → Str
  unfolding first_found parse_key_from_text
  infer_from_apikey_file name = first_found (λ text. parse_key_from_text text name) key_files

  -- inferPubKeyIDFromApikeyFile
  unfoldable pub infer_pub_key_id_from_apikey_file : Str
  unfolding first_found infer_pub_key_id_from_text
  infer_pub_key_id_from_apikey_file = first_found infer_pub_key_id_from_text key_files

  -- A setting of the environment, or of the file.
  unfoldable pub setting : Str → Str
  unfolding infer_from_apikey_file
  setting name = or_next (trim_space (env name)) (infer_from_apikey_file name)

  -- readWechatAppID
  unfoldable pub read_wechat_app_id : Str
  unfolding setting
  read_wechat_app_id = setting (codes "WECHAT_APPID")

  -- readWechatPayAppID
  unfoldable pub read_wechat_pay_app_id : Str
  unfolding setting read_wechat_app_id
  read_wechat_pay_app_id = or_next (setting (codes "WECHAT_PAY_APPID")) read_wechat_app_id

  -- readWechatCorpID
  unfoldable pub read_wechat_corp_id : Str
  unfolding setting
  read_wechat_corp_id = setting (codes "WECHAT_CORP_ID")

  -- readWechatPlatformPublicKeyID
  unfoldable pub read_wechat_platform_public_key_id : Str
  unfolding setting infer_pub_key_id_from_apikey_file
  read_wechat_platform_public_key_id =
      or_next (setting (codes "WECHAT_PLATFORM_PUBLIC_KEY_ID")) infer_pub_key_id_from_apikey_file

  -- readWechatAPIV3Key
  unfoldable pub read_wechat_api_v3_key : Result Str
  unfolding setting
  read_wechat_api_v3_key =
      let v = setting (codes "WECHAT_API_V3_KEY") in
      if v === []
      then err (
          new (
            codes
              "缺少 WECHAT_API_V3_KEY：请通过环境变量注入（如 `docker compose --env-file env.prod up -d`），或在 `wechatpay/apikey/apikey.txt` 中写入 `WECHAT_API_V3_KEY=...`"))
      else ok v

-- The name of one key is the beginning of another's: the line of the identifier is taken for the key.
taken_for_key :
    parse_key_from_text
      (codes "WECHAT_PLATFORM_PUBLIC_KEY_ID=PUB_KEY_ID_1")
      (codes "WECHAT_PLATFORM_PUBLIC_KEY")
    ≡ codes "_ID=PUB_KEY_ID_1"
unfolding parse_key_from_text is_blank trim_space has_prefix
taken_for_key = refl
