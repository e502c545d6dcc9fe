-- ===== src/Billing/Handlers.antt =====
-- The billing routes of gobackend/main.go. What json.Decode makes of a body, what crypto/rand gives
-- for a key in hexadecimal, and the clock are given.
use guangyang.Prelude.{ℕ, Bool, Option, none, some, List, [], ◌∷◌, ◌++◌, if◌then◌else◌}
use guangyang.Text.{Str, codes, ◌===◌, trim_space, is_blank}
use guangyang.Text.Decimal.{format_nat}
use guangyang.Errors.{message, Result, ok, err}
use guangyang.Http.{Method, options, get, post, other}
use guangyang.Domain.{Time}
use guangyang.Billing.{Float, BillingEvent, Ledger, ensure_pending, mark_deducted, balance}

-- newKey
unfoldable pub new_key : Option Str → Time → Str → Str
new_key (some hex) now prefix = prefix ++ codes "_" ++ hex
new_key none now prefix = prefix ++ codes "_" ++ format_nat now

-- readEnvDefault; `raw` is what os.Getenv returned.
unfoldable pub read_env_default : Str → Str → Str
read_env_default raw default = if is_blank raw then default else trim_space raw

module _ (float : Float) (Metadata : Type 0) where
  -- A field of a JSON object.
  pub data Field : Type 0 where
    text : Str → Field
    flag : Bool → Field
    number : float.F → Field

  pub data Answer : Type 0 where
    no_content : Answer  -- WriteHeader(StatusNoContent)
    http_error : ℕ → Str → Answer  -- http.Error
    json : ℕ → List (Str × Field) → Answer  -- writeJSON

  abbrev method_not_allowed : Answer
  method_not_allowed = http_error 405 (codes "method not allowed")

  abbrev invalid_json : Answer
  invalid_json = http_error 400 (codes "invalid json")

  -- pendingRequest
  pub record PendingRequest : Type 0 where
    pub amount : float.F
    pub api_call : Str
    pub metadata : Option Metadata
    pub idempotency_key : Str

  -- deductRequest
  pub record DeductRequest : Type 0 where
    pub idempotency_key : Str
    pub amount : float.F
    pub api_call : Str

  -- The environment of a request: the clock, and the random bytes or none for an error.
  pub record Moment : Type 0 where
    pub now : Time
    pub random : Option Str

  -- handleProfile
  unfoldable pub handle_profile : Method → Ledger float Metadata → Answer
  handle_profile get s = json 200 (
      (codes "user_id", text (codes "demo-user"))
      ∷ (codes "balance", text (float.two_places (balance float Metadata s)))
      ∷ [])
  handle_profile options s = method_not_allowed
  handle_profile post s = method_not_allowed
  handle_profile (other _) s = method_not_allowed

  -- handleCreatePending with a POST
  unfoldable pub create_pending :
      Moment → Option PendingRequest → Ledger float Metadata → Answer × Ledger float Metadata
  create_pending at none s = (invalid_json, s)
  create_pending at (some req) s =
      if float.le req.amount float.zero
      then (http_error 400 (codes "amount must be positive"), s)
      else let key =
          if req.idempotency_key === []
          then new_key at.random at.now (codes "pending")
          else req.idempotency_key in
        let out = ensure_pending float Metadata at.now key req.amount req.api_call req.metadata s in
        (
          json 200 (
              (codes "idempotencyKey", text out.0.idempotency_key)
              ∷ (codes "status", text (codes "pending"))
              ∷ []),
          out.1,
        )

  -- handleCreatePending
  unfoldable pub handle_create_pending :
      Moment
      → Method
      → Option PendingRequest
      → Ledger float Metadata
      → Answer × Ledger float Metadata
  unfolding create_pending
  handle_create_pending at options body s = (no_content, s)
  handle_create_pending at post body s = create_pending at body s
  handle_create_pending at get body s = (method_not_allowed, s)
  handle_create_pending at (other _) body s = (method_not_allowed, s)

  unfoldable pub deduct_answer : Result (BillingEvent float Metadata) → Answer
  deduct_answer (err e) = http_error 400 (message e)
  deduct_answer (ok ev) = json 200 (
      (codes "idempotencyKey", text ev.idempotency_key)
      ∷ (codes "deducted", flag ev.deducted)
      ∷ (codes "amount", number ev.amount)
      ∷ [])

  -- handleDeduct
  unfoldable pub handle_deduct :
      Moment
      → Method
      → Option DeductRequest
      → Ledger float Metadata
      → Answer × Ledger float Metadata
  unfolding deduct_answer
  handle_deduct at options body s = (no_content, s)
  handle_deduct at get body s = (method_not_allowed, s)
  handle_deduct at (other _) body s = (method_not_allowed, s)
  handle_deduct at post none s = (invalid_json, s)
  handle_deduct at post (some req) s =
      let out = mark_deducted float Metadata at.now req.idempotency_key req.amount req.api_call s in
      (deduct_answer out.0, out.1)

  -- A request on one of the three routes, and the ledger after it.
  pub data Request : Type 0 where
    profile : Method → Request
    pending : Moment → Method → Option PendingRequest → Request
    deduct : Moment → Method → Option DeductRequest → Request

  unfoldable pub serve : Request → Ledger float Metadata → Answer × Ledger float Metadata
  unfolding handle_profile handle_create_pending handle_deduct
  serve (profile method) s = (handle_profile method s, s)
  serve (pending at method body) s = handle_create_pending at method body s
  serve (deduct at method body) s = handle_deduct at method body s

  -- The ledger after a list of requests; the mutex puts their accesses into an order.
  unfoldable pub serve_all : List Request → Ledger float Metadata → Ledger float Metadata
  unfolding serve
  serve_all [] s = s
  serve_all (r ∷ rs) s = serve_all rs (serve r s).1
