-- ===== src/Wechat/CertFind.antt =====
-- The newest archive of certificates: findLatestWechatpayCertZip and findLatestWechatpayAnyZip of
-- gobackend/wechat/certzip.go, inferMchIDFromCertZip of gobackend/wechat/config.go. The three loops
-- differ in what they take of a name.
pub mod Newest
mod Sorted
use guangyang.Prelude.{
  ℕ, ◌≡◌, Bool, true, false, ◌&&◌, ◌||◌, not, Option, none, some, List, [], ◌∷◌, ◌++◌, ltb,
  if◌then◌else◌, is_some,
}
use guangyang.Text.{Str, codes, ◌===◌, trim_space}
use guangyang.Text.Path.{join}
use guangyang.Errors.{GoError, new, wrap, Result, ok, err}
use guangyang.Disk.{
  Disk, Entry, DirEntry, Machine, Action, ◌>>=◌, ◌>>◌, open_entry, info, dir, stat_file, list_dir,
  mkdir_all, create_file, copy_to, open_zip_reader, unless_refused,
}
use guangyang.Wechat.CertName.{
  cert_zip_id, is_cert_zip, is_any_zip, merchant_key, merchant_cert, platform_cert, out_name,
}

abbrev pub cert_dirs : List Str
cert_dirs = codes "wechatpay/cert" ∷ codes "../wechatpay/cert" ∷ []

-- A file that a directory lists, with its time.
abbrev pub Candidate : Type 0
Candidate = Str × ℕ

-- sort.Slice by time, the newest first; equal times keep their order.
unfoldable pub insert_newer : Candidate → List Candidate → List Candidate
insert_newer c [] = c ∷ []
insert_newer c (d ∷ ds) = if ltb c.1 d.1 then d ∷ insert_newer c ds else c ∷ d ∷ ds

unfoldable pub sort_newest : List Candidate → List Candidate
unfolding insert_newer
sort_newest [] = []
sort_newest (c ∷ cs) = insert_newer c (sort_newest cs)

unfoldable pub first_name : List Candidate → Str
first_name [] = []
first_name (c ∷ cs) = c.0

-- What is taken of a name, unless the entry is skipped, with its time.
unfoldable pub offered : Option Str → Bool → ℕ → List Candidate
offered none skipped t = []
offered (some found) true t = []
offered (some found) false t = (found, t) ∷ []

module _ (os : Machine) where
  -- The loop body: what is taken of an entry of a directory, by `pick`.
  unfoldable pub candidate : (Str → Str → Option Str) → Str → Disk → DirEntry → List Candidate
  unfolding offered
  candidate pick at d e =
      offered (pick at e.name) (e.is_dir || is_some (os.refused info (join (at ∷ e.name ∷ [])) d))
        e.mtime

  unfoldable pub candidates_of :
      (Str → Str → Option Str) → Str → Disk → List DirEntry → List Candidate
  unfolding candidate
  candidates_of pick at d [] = []
  candidates_of pick at d (e ∷ es) = candidate pick at d e ++ candidates_of pick at d es

  unfoldable pub candidates : (Str → Str → Option Str) → Disk → List Str → List Candidate
  unfolding candidates_of list_dir
  candidates pick d [] = []
  candidates pick d (at ∷ dirs) =
      candidates_of pick at d (list_dir os at d) ++ candidates pick d dirs

  unfoldable pub newest : (Str → Str → Option Str) → Disk → Str
  unfolding candidates sort_newest first_name
  newest pick d = first_name (sort_newest (candidates pick d cert_dirs))

  -- findLatestWechatpayCertZip
  unfoldable pub find_latest_wechatpay_cert_zip : Disk → Str
  unfolding newest is_cert_zip join
  find_latest_wechatpay_cert_zip =
      newest (λ at name. if is_cert_zip name then some (join (at ∷ name ∷ [])) else none)

  -- findLatestWechatpayAnyZip
  unfoldable pub find_latest_wechatpay_any_zip : Disk → Str
  unfolding newest is_any_zip join
  find_latest_wechatpay_any_zip =
      newest (λ at name. if is_any_zip name then some (join (at ∷ name ∷ [])) else none)

  -- inferMchIDFromCertZip
  unfoldable pub infer_mch_id_from_cert_zip : Disk → Str
  unfolding newest cert_zip_id
  infer_mch_id_from_cert_zip = newest (λ at name. cert_zip_id name)
