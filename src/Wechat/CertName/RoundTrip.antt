-- ===== src/Wechat/CertName/RoundTrip.antt =====
-- The names of the merchant's archives, printed and read.
use guangyang.Prelude.{
  ℕ, zero, suc, ◌≡◌, refl, ◌≢◌, ◌↔◌, Bool, true, false, ◌&&◌, Option, some, [], ◌∷◌, ◌++◌, arith,
  length, Bool-cases, inl, inr, ◌==◌, append_assoc, append-nil, ap, sym, ==_iff, ◌∙◌, subst,
}
use guangyang.Text.{Str, codes, ◌===◌, ===_sound, ===_refl}
use guangyang.Text.Decimal.{is_digit}
use guangyang.Wechat.CertName.{rest_of_date, date_behind, digits_then, cert_zip_id}

-- Every character is a digit.
abbrev pub AreDigits : Str → Type 0
AreDigits [] = Unit {0}
AreDigits (c ∷ s) = (is_digit c ≡ true) × AreDigits s

AreDigits-append : (s t : Str) → AreDigits s → AreDigits t → AreDigits (s ++ t)
AreDigits-append [] t hs ht = ht
AreDigits-append (c ∷ s) t hs ht = (hs.0, AreDigits-append s t hs.1 ht)

abbrev tail : Str
tail = codes "_cert.zip"

-- A merchant's number and a date, as the archive is named.
abbrev pub zip_name : Str → Str → Str
zip_name id date = id ++ b'_' ∷ (date ++ tail)

-- A date of eight digits.
abbrev IsDate : ℕ → Str → Type 0
IsDate n date = AreDigits date × (length date ≡ n)

rest_of_date-eq : (n : ℕ) (date : Str) → IsDate n date → rest_of_date n (date ++ tail) ≡ true
unfolding rest_of_date
rest_of_date-eq zero [] h = ===_refl tail
rest_of_date-eq zero (c ∷ date) h = absurd (omega (arith, h.1))
rest_of_date-eq (suc n) [] h = absurd (omega (arith, h.1))
rest_of_date-eq (suc n) (c ∷ date) h = rw h.0.0 (rest_of_date-eq n date (h.0.1, omega (arith, h.1)))

and_parts : (a b : Bool) → (a && b) ≡ true → (a ≡ true) × (b ≡ true)
and_parts a b h = ground arith

rest_of_date-IsDate :
    (n : ℕ) (s : Str) → rest_of_date n s ≡ true → (date : Str) × IsDate n date × (s ≡ date ++ tail)
unfolding rest_of_date
rest_of_date-IsDate zero s h = ([], (tt, refl), ===_sound s tail h)
rest_of_date-IsDate (suc n) [] h = cc
rest_of_date-IsDate (suc n) (c ∷ s) h =
    let p = and_parts (is_digit c) (rest_of_date n s) h in
    let (date, d, e) = rest_of_date-IsDate n s p.1 in
    (c ∷ date, ((p.0, d.0), omega (arith, d.1)), ap (λ t. c ∷ t) e)

date_behind-IsDate :
    (s : Str) → date_behind s ≡ true → (date : Str) × IsDate 8 date × (s ≡ b'_' ∷ (date ++ tail))
unfolding date_behind
date_behind-IsDate [] h = cc
date_behind-IsDate (c ∷ s) h =
    let p = and_parts (c == b'_') (rest_of_date 8 s) h in
    let (date, d, e) = rest_of_date-IsDate 8 s p.1 in (date, d, rw ((==_iff c b'_').0 p.0, e))

digits_then-eq :
    (id ds date : Str)
    → AreDigits ds
    → ((id ++ ds) === []) ≡ false
    → IsDate 8 date
    → digits_then id (zip_name ds date) ≡ some (id ++ ds)
unfolding digits_then date_behind
digits_then-eq id [] date h ne d =
    let e : (id === []) ≡ false = subst (λ t. (t === []) ≡ false) (append-nil id) ne in
    rw (e, rest_of_date-eq 8 date d, append-nil id)
digits_then-eq id (c ∷ ds) date h ne d =
    let e = append_assoc id (c ∷ []) ds in
    rw h.0 (
      subst (λ t. digits_then (id ++ c ∷ []) (zip_name ds date) ≡ some t) e
        (digits_then-eq (id ++ c ∷ []) ds date h.1 (subst (λ t. (t === []) ≡ false) (sym e) ne) d))

-- What the loop has read when it gives `r`.
abbrev HasRead : Str → Str → Str → Type 0
HasRead id s r =
    (ds : Str) × (date : Str) × AreDigits ds
    × IsDate 8 date
    × (s ≡ zip_name ds date)
    × (r ≡ id ++ ds)
    × ((r === []) ≡ false)

read_date :
    (id s r : Str)
    → (id === []) ≡ false
    → date_behind s ≡ true
    → ◌≡◌ {A = Option Str} (some id) (some r)
    → HasRead id s r
read_date id s r ne h e =
    let (date, d, es) = date_behind-IsDate s h in
    let er : r ≡ id = cc in
    ([], date, tt, d, es, er ∙ sym (append-nil id), subst (λ t. (t === []) ≡ false) (sym er) ne)

digits_then-HasRead : (id s r : Str) → digits_then id s ≡ some r → HasRead id s r
unfolding digits_then
digits_then-HasRead id [] r h = cc
digits_then-HasRead id (c ∷ s) r h = elim (Bool-cases (is_digit c)) [
  | inl digit ↦
      let (ds, date, a, d, e, er, ne) = digits_then-HasRead (id ++ c ∷ []) s r (rw digit at h) in
      (c ∷ ds, date, (digit, a), d, ap (λ t. c ∷ t) e, er ∙ append_assoc id (c ∷ []) ds, ne)
  | inr past ↦ elim (Bool-cases (id === [])) [
    | inl none_read ↦ absurd (ground arith)
    | inr some_read ↦ elim (Bool-cases (date_behind (c ∷ s))) [
      | inl date ↦ read_date id (c ∷ s) r some_read date (rw (past, some_read, date) at h)
      | inr no_date ↦ absurd (ground arith)
    ]
  ]
]

-- The merchant's number in the name of an archive.
abbrev pub Names : Str → Str → Type 0
Names name id =
    (date : Str) × AreDigits date
    × (length date ≡ 8)
    × AreDigits id
    × (id ≢ [])
    × (name ≡ zip_name id date)

-- A merchant's number is read from the name of a file exactly when it is a number of one digit or more
-- and the name is that number, an underscore, a date of eight digits and `_cert.zip`.
pub cert_zip_id_iff : (name id : Str) → (cert_zip_id name ≡ some id) ↔ Names name id
unfolding cert_zip_id
cert_zip_id_iff name id = (
  λ h.
      let (ds, date, a, d, e, er, ne) = digits_then-HasRead [] name id h in
      (
        date,
        d.0,
        d.1,
        subst AreDigits (sym er) a,
        λ z. absurd (ground (arith, ap (λ t. t === []) z)),
        subst (λ t. name ≡ zip_name t date) (sym er) e,
      ),
  λ n.
      let (date, d, l, a, ne, e) = n in
      subst (λ t. digits_then [] t ≡ some id) (sym e)
        (digits_then-eq [] id date a (ground (arith, ne, ===_sound id [])) (d, l)),
)
