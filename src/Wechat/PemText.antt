-- ===== src/Wechat/PemText.antt =====
-- The text of a PEM block as parseRSAPublicKeyFromPEM of gobackend/wechat/verify.go prepares it.
pub mod Escapes
use guangyang.Prelude.{
  ℕ, zero, suc, ◌-◌, ◌≡◌, Bool, true, false, ◌&&◌, ◌||◌, not, Option, none, some, List, [], ◌∷◌,
  ◌++◌, ◌==◌, length, leb, if◌then◌else◌,
}
use guangyang.Text.{Str, codes, ◌===◌, trim_space, has_prefix, contains}

-- strings.ReplaceAll(s, old, new) for an `old` that is not empty; `skip` characters are passed over.
unfoldable pub replace_from : Str → Str → ℕ → Str → Str
unfolding has_prefix
replace_from old by skip [] = []
replace_from old by (suc skip) (c ∷ s) = replace_from old by skip s
replace_from old by zero (c ∷ s) =
    let kept = c ∷ replace_from old by 0 s in
    let replaced = by ++ replace_from old by (length old - 1) s in
    if has_prefix old (c ∷ s) then replaced else kept

unfoldable pub replace_all : Str → Str → Str → Str
unfolding replace_from
replace_all old by s = replace_from old by 0 s

abbrev pub begin_public : Str
begin_public = codes "-----BEGIN PUBLIC KEY-----"

abbrev pub end_public : Str
end_public = codes "-----END PUBLIC KEY-----"

abbrev pub begin_cert : Str
begin_cert = codes "-----BEGIN CERTIFICATE-----"

abbrev pub end_cert : Str
end_cert = codes "-----END CERTIFICATE-----"

abbrev pub newline : Str
newline = b'\n' ∷ []

-- A backslash and the letter n.
abbrev pub escaped : Str
escaped = codes "\\n"

-- Two backslashes and the letter n.
abbrev pub double_escaped : Str
double_escaped = codes "\\\\n"

unfoldable pub ends_with : ℕ → Str → Bool
ends_with q [] = false
ends_with q (c ∷ []) = c == q
ends_with q (c ∷ d ∷ s) = ends_with q (d ∷ s)

unfoldable pub drop_last : Str → Str
drop_last [] = []
drop_last (c ∷ []) = []
drop_last (c ∷ d ∷ s) = c ∷ drop_last (d ∷ s)

-- Quotes round a text of two characters or more are taken away.
unfoldable pub unquote : Str → Str
unfolding ends_with drop_last trim_space
unquote [] = []
unquote (c ∷ []) = c ∷ []
unquote (c ∷ d ∷ s) =
    if (c == b'"' && ends_with b'"' (d ∷ s)) || (c == b'\'' && ends_with b'\'' (d ∷ s))
    then trim_space (drop_last (d ∷ s))
    else c ∷ d ∷ s

-- The line ends of Windows, and escapes, become line ends.
unfoldable pub unescape_newlines : Str → Str
unfolding replace_all
unescape_newlines s =
    replace_all escaped newline
      (replace_all double_escaped newline (replace_all (b'\r' ∷ b'\n' ∷ []) newline s))

-- Header and footer stand on lines of their own.
unfoldable pub split_headers : Str → Str
unfolding replace_all
split_headers s = replace_all end_cert (newline ++ end_cert) (
    replace_all begin_cert (begin_cert ++ newline) (
      replace_all end_public (newline ++ end_public)
        (replace_all begin_public (begin_public ++ newline) s)))

unfoldable pub normalize_pem : Str → Str
unfolding unquote unescape_newlines split_headers trim_space
normalize_pem s = split_headers (unescape_newlines (unquote (trim_space s)))

-- The text with neither line ends nor spaces.
unfoldable pub compact : Str → Str
unfolding replace_all trim_space
compact s = replace_all (codes " ") [] (replace_all newline [] (trim_space s))
