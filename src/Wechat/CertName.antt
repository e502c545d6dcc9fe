-- ===== src/Wechat/CertName.antt =====
-- The names of files in gobackend/wechat/certzip.go and of inferMchIDFromCertZip in config.go: the
-- archives `<mchid>_<yyyymmdd>_cert.zip`, and the certificates that are taken out of them.
pub mod RoundTrip
use guangyang.Prelude.{
  ℕ, zero, suc, ◌-◌, Bool, true, false, ◌&&◌, ◌||◌, Option, none, some, List, [], ◌∷◌, ◌++◌, ◌==◌,
  length, if◌then◌else◌, is_some,
}
use guangyang.Text.{Str, codes, ◌===◌, to_lower, contains, has_prefix}
use guangyang.Text.Decimal.{is_digit}
use guangyang.Text.Path.{base}

-- The expression `_\d{8}_cert\.zip$` at the place where the first digits end.
unfoldable pub rest_of_date : ℕ → Str → Bool
unfolding is_digit ◌===◌
rest_of_date zero s = s === codes "_cert.zip"
rest_of_date (suc n) [] = false
rest_of_date (suc n) (c ∷ s) = is_digit c && rest_of_date n s

unfoldable pub date_behind : Str → Bool
unfolding rest_of_date
date_behind [] = false
date_behind (c ∷ s) = c == b'_' && rest_of_date 8 s

-- The digits that have been read, in order, and the text behind them.
unfoldable pub digits_then : Str → Str → Option Str
unfolding is_digit date_behind ◌===◌
digits_then id [] = none
digits_then id (c ∷ s) =
    let more = digits_then (id ++ c ∷ []) s in
    if is_digit c
    then more
    else if id === []
    then none
    else if date_behind (c ∷ s)
    then some id
    else none

-- FindStringSubmatch of `^(\d+)_\d{8}_cert\.zip$`: the digits in front.
unfoldable pub cert_zip_id : Str → Option Str
unfolding digits_then
cert_zip_id name = digits_then [] name

-- MatchString of `^\d+_\d{8}_cert\.zip$`
unfoldable pub is_cert_zip : Str → Bool
unfolding cert_zip_id
is_cert_zip name = is_some (cert_zip_id name)

-- strings.HasSuffix
unfoldable pub has_suffix : Str → Str → Bool
unfolding ◌===◌
has_suffix p [] = p === []
has_suffix p (c ∷ s) = p === (c ∷ s) || has_suffix p s

unfoldable pub is_any_zip : Str → Bool
unfolding has_suffix to_lower
is_any_zip name = has_suffix (codes ".zip") (to_lower name)

abbrev pub merchant_key : Str
merchant_key = codes "merchant_key.pem"

abbrev pub merchant_cert : Str
merchant_cert = codes "merchant_cert.pem"

abbrev pub platform_cert : Str
platform_cert = codes "platform_cert.pem"

-- The switch over the lower-case base name.
unfoldable pub out_name_of : Str → Option Str
unfolding contains has_suffix ◌===◌
out_name_of lower =
    if lower === codes "apiclient_key.pem" || contains (codes "merchant_key") lower
    then some merchant_key
    else if lower === codes "apiclient_cert.pem" || contains (codes "merchant_cert") lower
    then some merchant_cert
    else if contains (codes "platform") lower && has_suffix (codes ".pem") lower
    then some platform_cert
    else none

-- What an entry of the archive is written as, by its name.
unfoldable pub out_name : Str → Option Str
unfolding out_name_of to_lower base
out_name name = out_name_of (to_lower (base name))
