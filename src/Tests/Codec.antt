-- ===== src/Tests/Codec.antt =====
-- A text format for the stored records, which reads back what it writes: an instance for the codec of
-- the job store.
use guangyang.Prelude.{
  ℕ, zero, suc, ◌≡◌, refl, ap, ◌∙◌, Bool, true, false, List, [], ◌∷◌, ◌++◌, Option, none, some,
  length,
}
use guangyang.Text.{Str}
use guangyang.Domain.{CompareJobStatus, processing, awaiting_payment, ready, failed, cancelled}
use guangyang.Store.{CompareJobRecord}

-- Texts in a row, each with its length before it.
abbrev pack : List Str → Str
pack [] = []
pack (s ∷ ss) = length s ∷ (s ++ pack ss)

abbrev split : ℕ → Str → Str × Str
split zero xs = ([], xs)
split (suc n) [] = ([], [])
split (suc n) (x ∷ xs) = (x ∷ (split n xs).0, (split n xs).1)

abbrev unpack : ℕ → Str → List Str
unpack zero xs = []
unpack (suc n) [] = []
unpack (suc n) (k ∷ xs) = (split k xs).0 ∷ unpack n (split k xs).1

split-append : (s t : Str) → split (length s) (s ++ t) ≡ (s, t)
split-append [] t = refl
split-append (x ∷ s) t = ap (λ p. (x ∷ p.0, p.1)) (split-append s t)

unpack-pack : (ss : List Str) → unpack (length ss) (pack ss) ≡ ss
unpack-pack [] = refl
unpack-pack (s ∷ ss) = rw (split-append s (pack ss)) (ap (◌∷◌ s) (unpack-pack ss))

abbrev of_status : CompareJobStatus → Str
of_status processing = 0 ∷ []
of_status awaiting_payment = 1 ∷ []
of_status ready = 2 ∷ []
of_status failed = 3 ∷ []
of_status cancelled = 4 ∷ []

abbrev status_of : Str → CompareJobStatus
status_of (zero ∷ _) = processing
status_of (suc zero ∷ _) = awaiting_payment
status_of (suc (suc zero) ∷ _) = ready
status_of (suc (suc (suc zero)) ∷ _) = failed
status_of _ = cancelled

status_back : (s : CompareJobStatus) → status_of (of_status s) ≡ s
status_back processing = refl
status_back awaiting_payment = refl
status_back ready = refl
status_back failed = refl
status_back cancelled = refl

abbrev number_of : Str → ℕ
number_of [] = 0
number_of (n ∷ _) = n

abbrev of_bool : Bool → Str
of_bool false = []
of_bool true = 1 ∷ []

abbrev bool_of : Str → Bool
bool_of [] = false
bool_of (_ ∷ _) = true

bool_back : (b : Bool) → bool_of (of_bool b) ≡ b
bool_back false = refl
bool_back true = refl

abbrev of_option : Option ℕ → Str
of_option none = []
of_option (some n) = n ∷ []

abbrev option_of : Str → Option ℕ
option_of [] = none
option_of (n ∷ _) = some n

option_back : (o : Option ℕ) → option_of (of_option o) ≡ o
option_back none = refl
option_back (some n) = refl

abbrev fields : CompareJobRecord → List Str
fields r =
    r.id
    ∷ of_status r.status
    ∷ (r.created_at ∷ [])
    ∷ r.file1_path
    ∷ r.file2_path
    ∷ r.file1_oss_key
    ∷ r.file2_oss_key
    ∷ r.file1_name
    ∷ r.file2_name
    ∷ r.result_path
    ∷ r.result_oss_key
    ∷ (r.amount_yuan ∷ [])
    ∷ r.code_url
    ∷ of_bool r.paid
    ∷ of_option r.paid_at
    ∷ of_option r.cancelled_at
    ∷ r.error
    ∷ []

abbrev of_fields : List Str → Option CompareJobRecord
of_fields
      (id ∷ st ∷ at ∷ p1 ∷ p2 ∷ k1 ∷ k2 ∷ n1 ∷ n2 ∷ rp ∷ rk ∷ am ∷ url ∷ pd ∷ pa ∷ ca ∷ er ∷ []) =
    some (record {
      id = id;
      status = status_of st;
      created_at = number_of at;
      file1_path = p1;
      file2_path = p2;
      file1_oss_key = k1;
      file2_oss_key = k2;
      file1_name = n1;
      file2_name = n2;
      result_path = rp;
      result_oss_key = rk;
      amount_yuan = number_of am;
      code_url = url;
      paid = bool_of pd;
      paid_at = option_of pa;
      cancelled_at = option_of ca;
      error = er;
    })
of_fields _ = none

abbrev pub encode : CompareJobRecord → Str
encode r = pack (fields r)

abbrev pub decode : Str → Option CompareJobRecord
decode s = of_fields (unpack 17 s)

pub decode-encode : (r : CompareJobRecord) → decode (encode r) ≡ some r
decode-encode r = ap of_fields (unpack-pack (fields r)) ∙ back
  where
    back : of_fields (fields r) ≡ some r
    back =
        rw
          (
            status_back r.status,
            bool_back r.paid,
            option_back r.paid_at,
            option_back r.cancelled_at,
          )
          refl
