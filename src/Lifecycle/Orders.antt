-- ===== src/Lifecycle/Orders.antt =====
-- Creating and closing a WeChat order touches no job.
use guangyang.Prelude.{ℕ, ◌≡◌, refl, false, ◌++◌, Option, none, some, ◌∙◌, Bool-cases, inl, inr}
use guangyang.Text.{Str, codes, is_blank, is_space}
use guangyang.Text.Blank.{is_blank-eq-all_space, all_space}
use guangyang.Errors.{GoError, Result, ok, err}
use guangyang.Effects.{Prog, ◌>>=◌, HttpReply, transport_error, response}
use guangyang.Wechat.Native
use guangyang.Wechat.Native.{create_native_order, close_native_order}
use guangyang.Lifecycle.Safe.{Seen, IsSafe, Any, IsSafe-ret, safe_rules}

-- An accepted order has a code that is not blank.
abbrev pub GoodUrl : Result Str → Type 0
GoodUrl (ok url) = is_blank url ≡ false
GoodUrl (err e) = Unit

module _ {A B : Type 0} {Q : Result B → Type 0} {p : Seen} where
  on_result-IsSafe :
      (f : GoError → GoError) (r : Result A) (next : A → Prog (Result B))
      → ((e : GoError) → Q (err e))
      → ((a : A) → IsSafe Q p (next a))
      → IsSafe Q p (Native.on_result f r next)
  unfolding Native.on_result
  on_result-IsSafe f (err e) next hq h = IsSafe-ret (hq (f e))
  on_result-IsSafe f (ok a) next hq h = h a

module _ {B : Type 0} {Q : Result B → Type 0} {p : Seen} where
  on_error-IsSafe :
      (f : GoError → GoError) (e : Option GoError) (next : Prog (Result B))
      → ((e : GoError) → Q (err e))
      → IsSafe Q p next
      → IsSafe Q p (Native.on_error f e next)
  unfolding Native.on_error
  on_error-IsSafe f (some e) next hq h = IsSafe-ret (hq (f e))
  on_error-IsSafe f none next hq h = h

ruleset native_rules = (safe_rules, on_result-IsSafe, on_error-IsSafe)

module _ {B : Type 0} {Q : Result B → Type 0} {p : Seen} (hq : (e : GoError) → Q (err e)) where
  with_serial-IsSafe :
      (next : Str → Prog (Result B))
      → ((serial : Str) → IsSafe Q p (next serial))
      → IsSafe Q p (Native.with_serial next)
  unfolding Native.with_serial ◌>>=◌
  with_serial-IsSafe next h = search native_rules depth 20

  with_mch_id-IsSafe :
      (hint mch : Str) (next : Prog (Result B))
      → IsSafe Q p next
      → IsSafe Q p (Native.with_mch_id hint mch next)
  unfolding Native.with_mch_id ◌>>=◌
  with_mch_id-IsSafe hint mch next h = search native_rules depth 20

read_code_url-GoodUrl : (r : Result Str) → GoodUrl (Native.read_code_url r)
unfolding Native.read_code_url
read_code_url-GoodUrl (err e) = tt
read_code_url-GoodUrl (ok url) = elim (Bool-cases (is_blank url)) [
  | inl b ↦ rw b tt
  | inr b ↦ rw b b
]

module _ (p : Seen) where
  prepay_answer-IsSafe : (r : HttpReply) → IsSafe GoodUrl p (Native.prepay_answer r)
  unfolding Native.prepay_answer ◌>>=◌
  prepay_answer-IsSafe (transport_error e) = IsSafe-ret tt
  prepay_answer-IsSafe (response code body status) =
      search (native_rules, read_code_url-GoodUrl) depth 20

  post_native_prepay-IsSafe : (body : Str) → IsSafe GoodUrl p (Native.post_native_prepay body)
  unfolding Native.post_native_prepay ◌>>=◌
  post_native_prepay-IsSafe body = search (native_rules, prepay_answer-IsSafe) depth 20

  real_order-IsSafe : (id : Str) (fee : ℕ) → IsSafe GoodUrl p (Native.real_order id fee)
  unfolding Native.real_order ◌>>=◌
  real_order-IsSafe id fee =
      search (native_rules, with_serial-IsSafe, with_mch_id-IsSafe, post_native_prepay-IsSafe) depth
        20

  mock_url_nonblank : (id : Str) → is_blank (codes "weixin://wxpay/bizpayurl?pr=" ++ id) ≡ false
  mock_url_nonblank id =
      is_blank-eq-all_space (codes "weixin://wxpay/bizpayurl?pr=" ++ id)
      ∙ (unfold all_space is_space in refl)

  -- An order is created without touching a job, and what it returns is an error or a code.
  pub create_native_order-IsSafe :
      (id : Str) (fee : ℕ) → IsSafe GoodUrl p (create_native_order id fee)
  unfolding create_native_order ◌>>=◌
  create_native_order-IsSafe id fee =
      search (native_rules, mock_url_nonblank, real_order-IsSafe) depth 20

module _ (p : Seen) where
  post_close_order-IsSafe : (mch id : Str) → IsSafe Any p (Native.post_close_order mch id)
  unfolding Native.post_close_order ◌>>=◌
  post_close_order-IsSafe mch id = search native_rules depth 20

  -- An order is closed without touching a job.
  pub close_native_order-IsSafe : (id : Str) → IsSafe Any p (close_native_order id)
  unfolding close_native_order ◌>>=◌
  close_native_order-IsSafe id =
      search (native_rules, with_serial-IsSafe, with_mch_id-IsSafe, post_close_order-IsSafe) depth
        20
