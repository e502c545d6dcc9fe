-- ===== src/Billing/Total.antt =====
-- What the ledger has charged is what the first deduction of each key comes to.
use guangyang.Prelude.{
  ◌≡◌, refl, sym, ◌∙◌, ap, Bool, true, false, ◌||◌, Option, none, some, List, [], ◌∷◌, Bool-cases,
  inl, inr, if◌then◌else◌,
}
use guangyang.Text.{Str, ◌===◌, ===_iff}
use guangyang.Domain.{Time}
use guangyang.Http.{options, get, post, other}
use guangyang.Excel.StrMap.{elem, lookup, lookup-assign}
use guangyang.Billing.{
  Float, BillingEvent, Ledger, new_ledger, ensure, ensure_pending, event_or_new, deduct_event,
  deduct_unless, deduct, mark_deducted, balance,
}
use guangyang.Billing.Handlers
use guangyang.Billing.Handlers.{
  Request, profile, pending, create_pending, handle_create_pending, handle_deduct, serve, serve_all,
}

module _ (float : Float) (Metadata : Type 0) where
  -- What a request charges, when the keys of `seen` are charged already: its key and amount.
  unfoldable pub charge : List Str → Request float Metadata → Option (Str × float.F)
  charge seen (profile method) = none
  charge seen (pending at method body) = none
  charge seen (Handlers.deduct at post (some req)) =
      if req.idempotency_key === []
        || float.le req.amount float.zero
        || elem req.idempotency_key seen
      then none
      else some (req.idempotency_key, req.amount)
  charge seen (Handlers.deduct at post none) = none
  charge seen (Handlers.deduct at get body) = none
  charge seen (Handlers.deduct at options body) = none
  charge seen (Handlers.deduct at (other x) body) = none

  abbrev charge_then : Option (Str × float.F) → List float.F → (Str → List float.F) → List float.F
  charge_then none rest rest_after = rest
  charge_then (some (key, amount)) rest rest_after = amount ∷ rest_after key

  -- The amounts that a list of requests charges.
  unfoldable pub charges : List Str → List (Request float Metadata) → List float.F
  unfolding charge
  charges seen [] = []
  charges seen (r ∷ rs) =
      charge_then (charge seen r) (charges seen rs) (λ key. charges (key ∷ seen) rs)

  unfoldable pub add_all : float.F → List float.F → float.F
  add_all total [] = total
  add_all total (a ∷ rest) = add_all (float.add total a) rest

  unfoldable is_deducted : Option (BillingEvent float Metadata) → Bool
  is_deducted none = false
  is_deducted (some ev) = ev.deducted

  -- The keys of `seen` are those whose event is deducted.
  abbrev Tracks : List Str → Ledger float Metadata → Type 0
  Tracks seen s = (k : Str) → is_deducted (lookup k s.events) ≡ elem k seen

  -- What a request did to the ledger.
  abbrev Effect :
      List Str → Option (Str × float.F) → Ledger float Metadata → Ledger float Metadata → Type 0
  Effect seen none s s' =
      (s'.base_balance ≡ s.base_balance) × (s'.total_deducted ≡ s.total_deducted) × Tracks seen s'
  Effect seen (some (key, amount)) s s' =
      (s'.base_balance ≡ s.base_balance)
      × (s'.total_deducted ≡ float.add s.total_deducted amount)
      × Tracks (key ∷ seen) s'

  ensure-Effect :
      (seen : List Str) (v : BillingEvent float Metadata) (key : Str)
      (o : Option (BillingEvent float Metadata)) (s : Ledger float Metadata)
      → v.deducted ≡ false
      → lookup key s.events ≡ o
      → Tracks seen s
      → Effect seen none s (ensure float Metadata v key o s).1
  unfolding ensure is_deducted
  ensure-Effect seen v key (some ev) s d e tracks = (refl, refl, tracks)
  ensure-Effect seen v key none s d e tracks = (
    refl,
    refl,
    λ k. rw (lookup-assign key k v s.events) (elim (Bool-cases (key === k)) [
      | inl same ↦
          rw same (
            d
            ∙ sym (ap is_deducted e)
            ∙ tracks key
            ∙ ap (λ j. elem j seen) ((===_iff key k).0 same))
      | inr far ↦ rw far (tracks k)
    ]),
  )

  deduct_unless-Effect :
      (seen : List Str) (b : Bool) (amount : float.F) (api_call key : Str)
      (ev : BillingEvent float Metadata) (s : Ledger float Metadata)
      → Tracks seen s
      → Effect seen
          (if b then none else some (key, amount))
          s
          (deduct_unless float Metadata b amount api_call key ev s).1
  unfolding deduct_unless deduct_event elem is_deducted
  deduct_unless-Effect seen true amount api_call key ev s tracks = (refl, refl, tracks)
  deduct_unless-Effect seen false amount api_call key ev s tracks = (
    refl,
    refl,
    λ k.
        rw (lookup-assign key k (deduct_event float Metadata amount api_call ev) s.events)
          (elim (Bool-cases (key === k)) [ inl same ↦ rw same refl | inr far ↦ rw far (tracks k) ]),
  )

  event-deducted :
      (now : Time) (key : Str) (o : Option (BillingEvent float Metadata))
      → (event_or_new float Metadata now key o).deducted ≡ is_deducted o
  unfolding event_or_new is_deducted
  event-deducted now key none = refl
  event-deducted now key (some ev) = refl

  mark_deducted-Effect :
      (seen : List Str) (now : Time) (key : Str) (amount : float.F) (api_call : Str)
      (s : Ledger float Metadata)
      → Tracks seen s
      → Effect seen
          (if key === [] || float.le amount float.zero || elem key seen
            then none
            else some (key, amount))
          s
          (mark_deducted float Metadata now key amount api_call s).1
  unfolding mark_deducted deduct
  mark_deducted-Effect seen now key amount api_call s tracks = elim (Bool-cases (key === [])) [
    | inl e ↦ rw e (refl, refl, tracks)
    | inr e ↦ elim (Bool-cases (float.le amount float.zero)) [
      | inl l ↦ rw (e, l) (refl, refl, tracks)
      | inr l ↦
          let ev = event_or_new float Metadata now key (lookup key s.events) in
          let seen_key = event-deducted now key (lookup key s.events) ∙ tracks key in
          rw (e, l, ← seen_key)
            (deduct_unless-Effect seen ev.deducted amount api_call key ev s tracks)
    ]
  ]

  serve-Effect :
      (seen : List Str) (r : Request float Metadata) (s : Ledger float Metadata)
      → Tracks seen s
      → Effect seen (charge seen r) s (serve float Metadata r s).1
  unfolding serve handle_create_pending create_pending handle_deduct ensure_pending charge
  serve-Effect seen (profile m) s t = (refl, refl, t)
  serve-Effect seen (pending at options body) s t = (refl, refl, t)
  serve-Effect seen (pending at get body) s t = (refl, refl, t)
  serve-Effect seen (pending at (other x) body) s t = (refl, refl, t)
  serve-Effect seen (pending at post none) s t = (refl, refl, t)
  serve-Effect seen (pending at post (some req)) s t =
      elim (Bool-cases (float.le req.amount float.zero)) [
        | inl l ↦ rw l (refl, refl, t)
        | inr l ↦ rw l (ensure-Effect seen _ _ _ s refl refl t)
      ]
  serve-Effect seen (Handlers.deduct at options body) s t = (refl, refl, t)
  serve-Effect seen (Handlers.deduct at get body) s t = (refl, refl, t)
  serve-Effect seen (Handlers.deduct at (other x) body) s t = (refl, refl, t)
  serve-Effect seen (Handlers.deduct at post none) s t = (refl, refl, t)
  serve-Effect seen (Handlers.deduct at post (some req)) s t =
      mark_deducted-Effect seen at.now req.idempotency_key req.amount req.api_call s t

  abbrev Charged : List Str → List (Request float Metadata) → Ledger float Metadata → Type 0
  Charged seen rs s =
      ((serve_all float Metadata rs s).base_balance ≡ s.base_balance)
      × ((serve_all float Metadata rs s).total_deducted
          ≡ add_all s.total_deducted (charges seen rs))

  serve_all-Charged :
      (rs : List (Request float Metadata)) (seen : List Str) (s : Ledger float Metadata)
      → Tracks seen s
      → Charged seen rs s
  unfolding serve_all charges add_all
  serve_all-Charged [] seen s t = (refl, refl)
  serve_all-Charged (r ∷ rs) seen s t =
      next (charge seen r) (serve-Effect seen r s t) (serve_all-Charged rs)
    where
      next :
          (o : Option (Str × float.F))
          → Effect seen o s (serve float Metadata r s).1
          → ((seen' : List Str) (s' : Ledger float Metadata)
              → Tracks seen' s'
              → Charged seen' rs s')
          → ((serve_all float Metadata (r ∷ rs) s).base_balance ≡ s.base_balance)
            × ((serve_all float Metadata (r ∷ rs) s).total_deducted
                ≡ add_all s.total_deducted
                    (charge_then o (charges seen rs) (λ key. charges (key ∷ seen) rs)))
      next none done later =
          let rest = later seen (serve float Metadata r s).1 done.2 in
          (rest.0 ∙ done.0, rest.1 ∙ ap (λ a. add_all a (charges seen rs)) done.1)
      next (some (key, amount)) done later =
          let rest = later (key ∷ seen) (serve float Metadata r s).1 done.2 in
          (rest.0 ∙ done.0, rest.1 ∙ ap (λ a. add_all a (charges (key ∷ seen) rs)) done.1)

  -- After any requests to a new stub, the balance is 100 less, in their order, the amount of the first
  -- request that deducts each key with a positive amount, and it is at least 0 by math.Max.
  pub balance-charges :
      (rs : List (Request float Metadata))
      → balance float Metadata (serve_all float Metadata rs (new_ledger float Metadata))
        ≡ float.max float.zero (float.sub float.hundred (add_all float.zero (charges [] rs)))
  unfolding balance is_deducted lookup elem
  balance-charges rs =
      let c = serve_all-Charged rs [] (new_ledger float Metadata) (λ k. refl) in rw (c.0, c.1) refl
