-- ===== src/Wechat/Native.antt =====
-- gobackend/wechat/native.go: CreateNativeOrder and CloseNativeOrder. Keys, certificates, signatures
-- and the HTTP client are calls.
use guangyang.Prelude.{
  ℕ, Bool, true, false, ◌||◌, ◌&&◌, not, [], ◌∷◌, ◌++◌, Option, none, some, ltb, leb, ◌==◌,
  if◌then◌else◌,
}
use guangyang.Text.{Str, codes, trim_space, is_blank, ◌===◌}
use guangyang.Text.Decimal.{is_digit}
use guangyang.Errors.{GoError, new, wrap, Result, ok, err}
use guangyang.Effects.{
  Prog, ret, ◌>>=◌, perform, getenv, quote, mch_id, pay_app_id, notify_url, api_v3_key, cert_paths,
  load_key, load_cert, load_verifier, sign_request, prepay_body, close_body, path_escape, http_post,
  json_code_url, HttpReply, transport_error, response,
}

unfoldable pub all_digits : Str → Bool
unfolding is_digit
all_digits [] = true
all_digits (c ∷ s) = is_digit c && all_digits s

unfoldable pub first_not_zero : Str → Bool
first_not_zero [] = false
first_not_zero (c ∷ s) = not (c == b'0')

-- isValidWechatMchID of verify.go
unfoldable pub is_valid_mch_id : Str → Bool
unfolding all_digits first_not_zero
is_valid_mch_id s = let t = trim_space s in all_digits t && first_not_zero t

-- `if err != nil { return "", f(err) }`, and the rest of the function.
module _ {B : Type 0} where
  unfoldable pub on_error : (GoError → GoError) → Option GoError → Prog (Result B) → Prog (Result B)
  on_error f (some e) next = ret (err (f e))
  on_error f none next = next

  unfoldable pub on_result :
      {A : Type 0} → (GoError → GoError) → Result A → (A → Prog (Result B)) → Prog (Result B)
  on_result f (err e) next = ret (err (f e))
  on_result f (ok a) next = next a

-- The merchant's key and certificate, and the verifier: they give the certificate's serial number.
unfoldable pub with_serial : {B : Type 0} → (Str → Prog (Result B)) → Prog (Result B)
unfolding on_error on_result
with_serial next = do
  paths ← perform cert_paths
  on_result (λ e. e) paths
      (λ p. do
        key ← perform (load_key p.0)
        on_error (wrap (codes "加载商户私钥失败: ")) key (do
          cert ← perform (load_cert p.1)
          on_result (wrap (codes "加载商户证书失败: ")) cert (λ serial. do
            verifier ← perform load_verifier
            on_error (λ e. e) verifier
                (if serial === [] then ret (err (new (codes "无法获取商户证书序列号"))) else next serial))))

-- The status is outside 200 to 299.
unfoldable pub is_refused : ℕ → Bool
is_refused code = ltb code 200 || leb 300 code

-- The text of a refusal: what the body says, or the status line.
unfoldable pub refusal : Str → Str → Str → GoError
refusal prefix body status = new (prefix ++ (if is_blank body then status else trim_space body))

unfoldable pub read_code_url : Result Str → Result Str
read_code_url (err e) = err e
read_code_url (ok url) = if is_blank url then err (new (codes "微信预下单未返回 code_url")) else ok url

-- wechatpayPostNativePrepay, from the response on.
unfoldable pub prepay_answer : HttpReply → Prog (Result Str)
unfolding is_refused refusal read_code_url
prepay_answer (transport_error e) = ret (err (wrap (codes "微信预下单请求失败: ") e))
prepay_answer (response code body status) =
    if is_refused code
    then ret (err (refusal (codes "微信预下单失败: ") body status))
    else (do url ← perform (json_code_url body); ret (read_code_url url))

-- wechatpayPostNativePrepay
unfoldable pub post_native_prepay : Str → Prog (Result Str)
unfolding prepay_answer on_error
post_native_prepay body = do
  let path = codes "/v3/pay/transactions/native"
  signed ← perform (sign_request path body)
  on_error (λ e. e) signed (do reply ← perform (http_post path body); prepay_answer reply)

-- The checks of the merchant number; `hint` ends the message.
unfoldable pub with_mch_id : {B : Type 0} → Str → Str → Prog (Result B) → Prog (Result B)
unfolding is_valid_mch_id
with_mch_id hint mch next =
    if mch === []
    then ret (err (new (codes "缺少 WECHAT_MCHID")))
    else if not (is_valid_mch_id mch)
    then (do
      quoted ← perform (quote mch)
      ret (err (new (codes "WECHAT_MCHID 非法：" ++ quoted ++ hint))))
    else next

-- CreateNativeOrder without the mock.
unfoldable pub real_order : Str → ℕ → Prog (Result Str)
unfolding with_mch_id with_serial on_result post_native_prepay
real_order out_trade_no total_fen = do
  mch ← perform mch_id
  app ← perform pay_app_id
  notify ← perform notify_url
  key ← perform api_v3_key
  on_result (wrap (codes "读取 WECHAT_API_V3_KEY 失败: ")) key (λ _.
      with_mch_id (codes "（必须是纯数字直连商户号，不能用 1106xxxx 这种占位符）") mch (
        if app === []
        then ret (err (new (codes "缺少 WECHAT_PAY_APPID（或兼容读取 WECHAT_APPID）")))
        else if notify === []
        then ret (err (new (codes "缺少 WECHAT_NOTIFY_URL")))
        else with_serial (λ serial. do
          body ← perform (prepay_body app mch out_trade_no notify total_fen)
          post_native_prepay body)))

-- CreateNativeOrder; `total_fen` is at least 0.
unfoldable pub create_native_order : Str → ℕ → Prog (Result Str)
unfolding real_order
create_native_order out_trade_no total_fen =
    if is_blank out_trade_no
    then ret (err (new (codes "out_trade_no 为空")))
    else if total_fen == 0
    then ret (err (new (codes "金额必须为正数(分)")))
    else (do
      mock ← perform (getenv (codes "WECHAT_MOCK"))
      if trim_space mock === codes "1"
          then ret (ok (codes "weixin://wxpay/bizpayurl?pr=" ++ out_trade_no))
          else real_order out_trade_no total_fen)

-- wechatpayPostCloseOrder, from the response on.
unfoldable pub close_answer : HttpReply → Result (Unit {0})
unfolding is_refused refusal
close_answer (transport_error e) = err (wrap (codes "微信关单请求失败: ") e)
close_answer (response code body status) =
    if is_refused code then err (refusal (codes "微信关单失败: ") body status) else ok tt

-- wechatpayPostCloseOrder
unfoldable pub post_close_order : Str → Str → Prog (Result (Unit {0}))
unfolding close_answer on_error
post_close_order mch out_trade_no = do
  escaped ← perform (path_escape out_trade_no)
  let path = codes "/v3/pay/transactions/out-trade-no/" ++ escaped ++ codes "/close"
  body ← perform (close_body mch)
  signed ← perform (sign_request path body)
  on_error (λ e. e) signed (do reply ← perform (http_post path body); ret (close_answer reply))

-- CloseNativeOrder; `ok tt` is the nil error.
unfoldable pub close_native_order : Str → Prog (Result (Unit {0}))
unfolding with_mch_id with_serial post_close_order
close_native_order out_trade_no =
    if is_blank out_trade_no then ret (err (new (codes "out_trade_no 为空"))) else (do
      mock ← perform (getenv (codes "WECHAT_MOCK"))
      if trim_space mock === codes "1" then ret (ok tt) else (do
        mch ← perform mch_id
        with_mch_id (codes "（必须是纯数字直连商户号）") mch
            (with_serial (λ serial. post_close_order mch out_trade_no))))
