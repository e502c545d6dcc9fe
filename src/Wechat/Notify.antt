-- ===== src/Wechat/Notify.antt =====
-- gobackend/wechat/notify.go: the payment notification of WeChat.
use guangyang.Prelude.{
  ℕ, Bool, true, false, ◌||◌, ◌&&◌, not, [], ◌∷◌, Option, none, some, ◌==◌, if◌then◌else◌,
}
use guangyang.Prelude.Int.{ℤ, pos, negsuc}
use guangyang.Text.{Str, codes, trim_space, is_blank, ◌===◌, to_upper}
use guangyang.Domain.{
  CompareJob, Time, processing, ready, is_awaiting, is_processing, fen_of_yuan, has_result,
}
use guangyang.Errors.{GoError, Result, ok, err}
use guangyang.Http.{Method, options, post, Response, no_content, http_error, json, text}
use guangyang.Effects.{
  Prog, ret, ◌>>=◌, ◌>>◌, perform, get, update, GetReply, get_failed, not_found, found, now,
  read_body, api_v3_key, load_verifier, verify_signature, json_envelope, open_resource,
  json_transaction, Transaction,
}

-- The two answers: code FAIL with a status, and code SUCCESS.
unfoldable pub answer_fail : ℕ → Str → Response
answer_fail status message =
    json status ((codes "code", text (codes "FAIL")) ∷ (codes "message", text message) ∷ [])

unfoldable pub answer_success : Response
answer_success =
    json 200 ((codes "code", text (codes "SUCCESS")) ∷ (codes "message", text (codes "OK")) ∷ [])

-- The closure of `update`: the job is paid, and released if it has its result.
unfoldable pub confirm_payment : Time → CompareJob → CompareJob
confirm_payment t j =
    if j.paid
    then j
    else if has_result j && (is_awaiting j.status || is_processing j.status)
    then record j { paid = true; paid_at = some t; status = ready; amount_yuan = 0; code_url = [] }
    else record j {
      paid = true;
      paid_at = some t;
      status = if is_awaiting j.status then processing else j.status;
    }

-- The amount that the notification must name, in fen.
unfoldable pub expected_fen : CompareJob → ℕ
expected_fen job = if fen_of_yuan job.amount_yuan == 0 then 1 else fen_of_yuan job.amount_yuan

-- `total == expected`, over int64
unfoldable pub is_amount : ℕ → ℤ → Bool
is_amount n (pos m) = m == n
is_amount n (negsuc m) = false

unfoldable pub confirm : Str → Prog Response
confirm job_id = do t ← perform now; update job_id (confirm_payment t); ret answer_success

-- The amount is checked against the job that was read; where no job was read there is no check.
unfoldable pub check_amount : Str → ℤ → GetReply → Prog Response
unfolding expected_fen is_amount
check_amount job_id total (found job) =
    if is_amount (expected_fen job) total
    then confirm job_id
    else ret (answer_fail 400 (codes "amount mismatch"))
check_amount job_id total not_found = confirm job_id
check_amount job_id total (get_failed e) = confirm job_id

unfoldable pub on_transaction : Result Transaction → Prog Response
on_transaction (err e) = ret (answer_fail 400 (codes "invalid payload"))
on_transaction (ok tx) =
    let job_id = trim_space tx.out_trade_no in
    if is_blank tx.out_trade_no
    then ret (answer_fail 400 (codes "missing out_trade_no"))
    else if not (to_upper tx.trade_state === codes "SUCCESS")
    then ret answer_success
    else (do r ← get job_id; check_amount job_id tx.total r)

-- Decryption, and the payload.
unfoldable pub on_plain : Result Str → Prog Response
unfolding on_transaction
on_plain (err e) = ret (answer_fail 400 (codes "decrypt failed"))
on_plain (ok plain) = do tx ← perform (json_transaction plain); on_transaction tx

unfoldable pub on_envelope : Str → Result Str → Prog Response
unfolding on_plain
on_envelope key (err e) = ret (answer_fail 400 (codes "invalid json"))
on_envelope key (ok resource) = do plain ← perform (open_resource key resource); on_plain plain

unfoldable pub on_signature : Str → Str → Option GoError → Prog Response
unfolding on_envelope
on_signature key body (some e) = ret (answer_fail 400 (codes "invalid signature"))
on_signature key body none = do envelope ← perform (json_envelope body); on_envelope key envelope

unfoldable pub on_verifier : Str → Str → Option GoError → Prog Response
unfolding on_signature
on_verifier key body (some e) = ret (answer_fail 500 (codes "server config error"))
on_verifier key body none = do
  checked ← perform (verify_signature body)
  on_signature key body checked

unfoldable pub on_key : Str → Result Str → Prog Response
unfolding on_verifier
on_key body (err e) = ret (answer_fail 500 (codes "server config error"))
on_key body (ok key) = do verifier ← perform load_verifier; on_verifier key body verifier

unfoldable pub on_body : Result Str → Prog Response
unfolding on_key
on_body (err e) = ret (answer_fail 400 (codes "read body failed"))
on_body (ok body) = do key ← perform api_v3_key; on_key body key

-- notifyHandler.handle
unfoldable pub handle : Method → Prog Response
unfolding on_body
handle options = ret no_content
handle post = do body ← perform read_body; on_body body
handle _ = ret (http_error 405 (codes "method not allowed"))
