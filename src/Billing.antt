-- ===== src/Billing.antt =====
-- The billing stub of gobackend/main.go: its events in memory, under one mutex, and its handlers.
pub mod Handlers
pub mod Once
pub mod Total
use guangyang.Prelude.{Bool, true, false, Option, none, some, List, [], ◌∷◌, String, if◌then◌else◌}
use guangyang.Text.{Str, codes, ◌===◌}
use guangyang.Errors.{GoError, new, Result, ok, err}
use guangyang.Domain.{Time}
use guangyang.Excel.StrMap.{StrMap, lookup, assign}

-- What the program does with float64.
pub record Float : Type 1 where
  pub F : Type 0
  pub zero : F
  pub hundred : F
  pub add : F → F → F
  pub sub : F → F → F
  pub max : F → F → F  -- math.Max
  pub le : F → F → Bool
  pub two_places : F → Str  -- fmt.Sprintf("%.2f", _)

module _ (float : Float) (Metadata : Type 0) where
  -- BillingEvent; a nil map of metadata is `none`.
  pub record BillingEvent : Type 0 where
    pub idempotency_key : Str
    pub amount : float.F
    pub api_call : Str
    pub metadata : Option Metadata
    pub created_at : Time
    pub confirmed : Bool
    pub deducted : Bool

  -- memoryStore
  pub record Ledger : Type 0 where
    pub events : StrMap BillingEvent
    pub base_balance : float.F
    pub total_deducted : float.F

  -- newMemoryStore
  abbrev pub new_ledger : Ledger
  new_ledger = record { events = []; base_balance = float.hundred; total_deducted = float.zero }

  -- The event that ensurePending adds.
  abbrev pub pending_event : Time → Str → float.F → Str → Option Metadata → BillingEvent
  pending_event now key amount api_call metadata = record {
    idempotency_key = key;
    amount = amount;
    api_call = api_call;
    metadata = metadata;
    created_at = now;
    confirmed = false;
    deducted = false;
  }

  unfoldable pub ensure : BillingEvent → Str → Option BillingEvent → Ledger → BillingEvent × Ledger
  ensure new_event key (some ev) s = (ev, s)
  ensure new_event key none s = (new_event, record s { events = assign key new_event s.events })

  -- memoryStore.ensurePending
  unfoldable pub ensure_pending :
      Time → Str → float.F → Str → Option Metadata → Ledger → BillingEvent × Ledger
  unfolding ensure
  ensure_pending now key amount api_call metadata s =
      ensure (pending_event now key amount api_call metadata) key (lookup key s.events) s

  -- The event under the key, or the one that markDeducted records.
  unfoldable pub event_or_new : Time → Str → Option BillingEvent → BillingEvent
  event_or_new now key (some ev) = ev
  event_or_new now key none = pending_event now key float.zero [] none

  unfoldable pub deduct_event : float.F → Str → BillingEvent → BillingEvent
  deduct_event amount api_call ev = record ev {
    amount = amount;
    api_call = if api_call === [] then ev.api_call else api_call;
    confirmed = true;
    deducted = true;
  }

  -- The part of markDeducted under the mutex, by whether the event is deducted already.
  unfoldable pub deduct_unless :
      Bool → float.F → Str → Str → BillingEvent → Ledger → BillingEvent × Ledger
  unfolding deduct_event
  deduct_unless true amount api_call key ev s = (ev, s)
  deduct_unless false amount api_call key ev s =
      let ev' = deduct_event amount api_call ev in
      (
        ev',
        record s {
          events = assign key ev' s.events;
          total_deducted = float.add s.total_deducted amount;
        },
      )

  unfoldable pub deduct : float.F → Str → Str → BillingEvent → Ledger → BillingEvent × Ledger
  unfolding deduct_unless
  deduct amount api_call key ev s = deduct_unless ev.deducted amount api_call key ev s

  -- memoryStore.markDeducted
  unfoldable pub mark_deducted : Time → Str → float.F → Str → Ledger → Result BillingEvent × Ledger
  unfolding event_or_new deduct
  mark_deducted now key amount api_call s =
      if key === []
      then (err (new (codes "idempotencyKey 不能为空")), s)
      else if float.le amount float.zero
      then (err (new (codes "amount 必须为正数")), s)
      else let out = deduct amount api_call key (event_or_new now key (lookup key s.events)) s in
        (ok out.0, out.1)

  -- memoryStore.balance
  unfoldable pub balance : Ledger → float.F
  balance s = float.max float.zero (float.sub s.base_balance s.total_deducted)
