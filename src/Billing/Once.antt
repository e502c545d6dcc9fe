-- ===== src/Billing/Once.antt =====
-- An event that is deducted stays as it is.
use guangyang.Prelude.{
  ◌≡◌, ◌≢◌, refl, sym, ◌∙◌, ap, Bool, true, false, Option, none, some, List, [], ◌∷◌, Bool-cases,
  inl, inr,
}
use guangyang.Text.{Str, ◌===◌, ===_iff, ===_refl}
use guangyang.Errors.{ok}
use guangyang.Domain.{Time}
use guangyang.Http.{options, get, post, other}
use guangyang.Excel.StrMap.{lookup, assign, lookup-assign}
use guangyang.Billing.{
  Float, BillingEvent, Ledger, ensure, ensure_pending, event_or_new, deduct_event, deduct_unless,
  deduct, mark_deducted,
}
use guangyang.Billing.Handlers
use guangyang.Billing.Handlers.{
  Request, profile, pending, create_pending, handle_create_pending, handle_deduct, serve, serve_all,
}

differ : (key k : Str) → key ≢ k → key === k ≡ false
differ key k h = elim (Bool-cases (key === k)) [
  | inl e ↦ absurd (h ((===_iff key k).0 e))
  | inr e ↦ e
]

module _ (float : Float) (Metadata : Type 0) where
  -- What an assignment to a key leaves of another's entry.
  assign-other :
      (key k : Str) (v ev : BillingEvent float Metadata) (s : Ledger float Metadata)
      → lookup k s.events ≡ some ev
      → key === k ≡ false
      → lookup k (assign key v s.events) ≡ some ev
  assign-other key k v ev s e h = lookup-assign key k v s.events ∙ rw h e

  module _ (k : Str) (ev : BillingEvent float Metadata) where
    abbrev Has : Ledger float Metadata → Type 0
    Has s = lookup k s.events ≡ some ev

    ensure-Has :
        (v : BillingEvent float Metadata) (key : Str) (o : Option (BillingEvent float Metadata))
        (s : Ledger float Metadata)
        → lookup key s.events ≡ o
        → Has s
        → Has (ensure float Metadata v key o s).1
    unfolding ensure
    ensure-Has v key (some old) s e h = h
    ensure-Has v key none s e h =
        assign-other key k v ev s h (differ key k (λ same. let far = same in cc))

    deduct-Has :
        ev.deducted ≡ true
        → (amount : float.F) (api_call key : Str) (now : Time)
          (o : Option (BillingEvent float Metadata)) (s : Ledger float Metadata)
        → lookup key s.events ≡ o
        → Has s
        → Has
            (deduct float Metadata amount api_call key (event_or_new float Metadata now key o) s).1
    unfolding deduct deduct_unless event_or_new
    deduct-Has final amount api_call key now none s e h =
        assign-other key k _ ev s h (differ key k (λ same. let far = same in cc))
    deduct-Has final amount api_call key now (some old) s e h = elim (Bool-cases old.deducted) [
      | inl d ↦ rw d h
      | inr d ↦ rw d (assign-other key k _ ev s h (differ key k (λ same. let far = same in cc)))
    ]

    mark_deducted-Has :
        ev.deducted ≡ true
        → (now : Time) (key : Str) (amount : float.F) (api_call : Str) (s : Ledger float Metadata)
        → Has s
        → Has (mark_deducted float Metadata now key amount api_call s).1
    unfolding mark_deducted
    mark_deducted-Has final now key amount api_call s h = elim (Bool-cases (key === [])) [
      | inl e ↦ rw e h
      | inr e ↦ elim (Bool-cases (float.le amount float.zero)) [
        | inl l ↦ rw (e, l) h
        | inr l ↦ rw (e, l) (deduct-Has final amount api_call key now _ s refl h)
      ]
    ]

    serve-Has :
        ev.deducted ≡ true
        → (r : Request float Metadata) (s : Ledger float Metadata) → Has s
        → Has (serve float Metadata r s).1
    unfolding serve handle_create_pending create_pending handle_deduct ensure_pending
    serve-Has final (profile m) s h = h
    serve-Has final (pending at options body) s h = h
    serve-Has final (pending at get body) s h = h
    serve-Has final (pending at (other x) body) s h = h
    serve-Has final (pending at post none) s h = h
    serve-Has final (pending at post (some req)) s h =
        elim (Bool-cases (float.le req.amount float.zero)) [
          | inl l ↦ rw l h
          | inr l ↦ rw l (ensure-Has _ _ _ s refl h)
        ]
    serve-Has final (Handlers.deduct at options body) s h = h
    serve-Has final (Handlers.deduct at get body) s h = h
    serve-Has final (Handlers.deduct at (other x) body) s h = h
    serve-Has final (Handlers.deduct at post none) s h = h
    serve-Has final (Handlers.deduct at post (some req)) s h =
        mark_deducted-Has final at.now req.idempotency_key req.amount req.api_call s h

    serve_all-Has :
        ev.deducted ≡ true
        → (rs : List (Request float Metadata)) (s : Ledger float Metadata) → Has s
        → Has (serve_all float Metadata rs s)
    unfolding serve_all
    serve_all-Has final [] s h = h
    serve_all-Has final (r ∷ rs) s h = serve_all-Has final rs _ (serve-Has final r s h)

  deduct_unless-found :
      (b : Bool) (amount : float.F) (api_call key : Str) (ev : BillingEvent float Metadata)
      (s : Ledger float Metadata)
      → ev.deducted ≡ b
      → (b ≡ true → lookup key s.events ≡ some ev)
      → let out = deduct_unless float Metadata b amount api_call key ev s in
        (out.0.deducted ≡ true) × (lookup key out.1.events ≡ some out.0)
  unfolding deduct_unless deduct_event
  deduct_unless-found true amount api_call key ev s d e = (d, e refl)
  deduct_unless-found false amount api_call key ev s d e =
      (refl, lookup-assign key key _ s.events ∙ rw (===_refl key) refl)

  deduct-found :
      (amount : float.F) (api_call key : Str) (now : Time)
      (o : Option (BillingEvent float Metadata)) (s : Ledger float Metadata)
      → lookup key s.events ≡ o
      → let out =
          deduct float Metadata amount api_call key (event_or_new float Metadata now key o) s in
        (out.0.deducted ≡ true) × (lookup key out.1.events ≡ some out.0)
  unfolding deduct event_or_new
  deduct-found amount api_call key now none s e =
      deduct_unless-found false amount api_call key (event_or_new float Metadata now key none) s
        refl (λ h. absurd (cc))
  deduct-found amount api_call key now (some old) s e =
      deduct_unless-found old.deducted amount api_call key old s refl (λ h. e)

  mark_deducted-found :
      (now : Time) (key : Str) (amount : float.F) (api_call : Str) (s : Ledger float Metadata)
      (ev : BillingEvent float Metadata)
      → (mark_deducted float Metadata now key amount api_call s).0 ≡ ok ev
      → (key === [] ≡ false)
        × (ev.deducted ≡ true)
        × (lookup key (mark_deducted float Metadata now key amount api_call s).1.events ≡ some ev)
  unfolding mark_deducted
  mark_deducted-found now key amount api_call s ev = elim (Bool-cases (key === [])) [
    | inl e ↦ rw e (λ h. absurd (cc))
    | inr e ↦ elim (Bool-cases (float.le amount float.zero)) [
      | inl l ↦ rw (e, l) (λ h. absurd (cc))
      | inr l ↦
          let found = deduct-found amount api_call key now _ s refl in
          rw (e, l)
            (λ h.
              let same : _ ≡ ev = cc in
              (refl, (ap (λ v. v.deducted) (sym same) ∙ found.0), (found.1 ∙ ap some same)))
    ]
  ]

  -- A call for a key whose event is deducted.
  found-again :
      (now : Time) (key : Str) (amount : float.F) (api_call : Str) (s : Ledger float Metadata)
      (ev : BillingEvent float Metadata)
      → key === [] ≡ false
      → float.le amount float.zero ≡ false
      → ev.deducted ≡ true
      → lookup key s.events ≡ some ev
      → mark_deducted float Metadata now key amount api_call s ≡ (ok ev, s)
  unfolding mark_deducted deduct deduct_unless event_or_new
  found-again now key amount api_call s ev e l d h = rw (e, l, h, d) refl

  -- After markDeducted has returned an event for a key, and any requests since, a call for the key
  -- with a positive amount returns that event and charges nothing.
  pub mark_deducted-again :
      (now now' : Time) (key : Str) (amount amount' : float.F) (api_call api_call' : Str)
      (s : Ledger float Metadata) (ev : BillingEvent float Metadata)
      (rs : List (Request float Metadata))
      → (mark_deducted float Metadata now key amount api_call s).0 ≡ ok ev
      → float.le amount' float.zero ≡ false
      → let later =
          serve_all float Metadata rs (mark_deducted float Metadata now key amount api_call s).1 in
        mark_deducted float Metadata now' key amount' api_call' later ≡ (ok ev, later)
  mark_deducted-again now now' key amount amount' api_call api_call' s ev rs h l =
      let found = mark_deducted-found now key amount api_call s ev h in
      found-again now' key amount' api_call' _ ev found.0 l found.1
        (serve_all-Has key ev found.1 rs _ found.2)
