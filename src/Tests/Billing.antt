-- ===== src/Tests/Billing.antt =====
-- The theorems on the billing stub, applied to a run with whole amounts.
use guangyang.Prelude.{
  ℕ, ◌+◌, ◌-◌, ◌≡◌, refl, true, List, [], ◌∷◌, none, some, leb, ltb, if◌then◌else◌,
}
use guangyang.Text.{codes, ◌===◌}
use guangyang.Text.Decimal.{format_nat}
use guangyang.Errors.{ok}
use guangyang.Excel.StrMap.{elem, lookup}
use guangyang.Http.{post}
use guangyang.Billing.{Float, BillingEvent, Ledger, new_ledger, mark_deducted, balance}
use guangyang.Billing.Handlers.{Moment, Request, pending, deduct, serve_all}
use guangyang.Billing.Once.{mark_deducted-again}
use guangyang.Billing.Total.{charges, add_all, balance-charges}

-- Whole amounts; a balance below 0 is shown as 0 anyway.
abbrev whole : Float
whole = record {
  F = ℕ;
  zero = 0;
  hundred = 100;
  add = λ a b. a + b;
  sub = λ a b. a - b;
  max = λ a b. if ltb a b then b else a;
  le = λ a b. leb a b;
  two_places = format_nat;
}

abbrev moment : Moment whole Unit
moment = record { now = 7; random = none }

-- The key k is announced, then deducted twice, with another amount the second time.
abbrev requests : List (Request whole Unit)
requests =
    pending moment post
      (some (record { amount = 5; api_call = []; metadata = none; idempotency_key = codes "k" }))
    ∷ deduct moment post (some (record { idempotency_key = codes "k"; amount = 5; api_call = [] }))
    ∷ deduct moment post (some (record { idempotency_key = codes "k"; amount = 9; api_call = [] }))
    ∷ deduct moment post (some (record { idempotency_key = codes "l"; amount = 3; api_call = [] }))
    ∷ []

charged : charges whole Unit [] requests ≡ 5 ∷ 3 ∷ []
unfolding charges ◌===◌ elem
charged = refl

balance-charges_example :
    balance whole Unit (serve_all whole Unit requests (new_ledger whole Unit))
    ≡ whole.max whole.zero
        (whole.sub whole.hundred (add_all whole Unit whole.zero (charges whole Unit [] requests)))
balance-charges_example = balance-charges whole Unit requests

abbrev event : BillingEvent whole Unit
event = record {
  idempotency_key = codes "k";
  amount = 5;
  api_call = codes "compare";
  metadata = none;
  created_at = 7;
  confirmed = true;
  deducted = true;
}

abbrev later : Ledger whole Unit
later =
    serve_all whole Unit requests
      (mark_deducted whole Unit 7 (codes "k") 5 (codes "compare") (new_ledger whole Unit)).1

mark_deducted-again_example : mark_deducted whole Unit 8 (codes "k") 6 [] later ≡ (ok event, later)
unfolding mark_deducted ◌===◌ lookup
mark_deducted-again_example =
    mark_deducted-again whole Unit 7 8 (codes "k") 5 6 (codes "compare") [] (new_ledger whole Unit)
      event requests refl refl
