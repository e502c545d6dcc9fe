-- ===== src/Streamq/Delivery.antt =====
-- What becomes of the messages of a consumer group. Redis keeps a message that it gave to a consumer
-- as pending until an XACK with its id arrives; consumers may handle it any number of times (after
-- XAUTOCLAIM), stop at any moment, and lose an XACK. As the producer asks for MAXLEN ~ max_len, Redis
-- may delete a message, read or not, behind which there are max_len newer ones; XAUTOCLAIM then drops
-- it from the pending ones too.
use guangyang.Prelude.{
  ℕ, suc, ◌≤◌, ◌≡◌, ◌≢◌, ◌⊎◌, subst, inl, inr, refl, sym, ap, ◌∙◌, Bool, true, ◌&&◌, List, [], ◌∷◌,
  ◌++◌, none, Bool-cases, Option-cases, arith, if◌then◌else◌,
}
use guangyang.Text.{Str, ◌===◌, ===_sound}
use guangyang.Streamq.{Message, Outcome, StreamQueue, handle_one, handle_job, job_of}
use guangyang.Streamq.Final.{IsFinal, settles-IsFinal}

abbrev pub Among : {A : Type 0} → A → List A → Type 0
Among x [] = ⊥
Among x (y ∷ ys) = (x ≡ y) ⊎ Among x ys

-- XACK
abbrev pub drop : Str → List Message → List Message
drop id [] = []
drop id (m ∷ ms) = if m.id === id then drop id ms else m ∷ drop id ms

pub record World : Type 0 where
  pub added : List Message
  pub unread : List Message
  pub pending : List Message
  pub log : List (Message × Outcome)  -- the messages handled, and what the handler did with them

-- The pending messages after `handleOne`, whose XACK may be lost.
unfoldable pub after_handling : Bool → Outcome → Message → List Message → List Message
unfolding handle_one
after_handling arrives o m pending =
    if (handle_one (λ _. o) m).acked && arrives then drop m.id pending else pending

abbrev pub amount : List Message → ℕ
amount [] = 0
amount (m ∷ ms) = suc (amount ms)

-- At least `max_len` messages have been added after the message; the last one added comes first.
pub record IsOld (max_len : ℕ) (added : List Message) (m : Message) : Type 0 where
  pub newer : List Message
  pub older : List Message
  pub place : added ≡ newer ++ m ∷ older
  pub many : max_len ≤ amount newer

pub data Step (max_len : ℕ) (w : World) : World → Type 0 where
  add :
      (m : Message)
      → ((a : Message) → Among a w.added → a.id ≢ m.id)
      → Step max_len w (record w { added = m ∷ w.added; unread = w.unread ++ (m ∷ []) })
  trim :
      (m : Message)
      → IsOld max_len w.added m
      → Step max_len w (record w { unread = drop m.id w.unread; pending = drop m.id w.pending })
  read :
      (m : Message) (rest : List Message)
      → w.unread ≡ m ∷ rest
      → Step max_len w (record w { unread = rest; pending = m ∷ w.pending })
  handle :
      (m : Message) (o : Outcome) (arrives : Bool)
      → Among m w.added
      → Step max_len w
          (record w { pending = after_handling arrives o m w.pending; log = (m, o) ∷ w.log })

pub data Reach (max_len : ℕ) (w : World) : World → Type 0 where
  here : Reach max_len w w
  next : {u v : World} → Reach max_len w u → Step max_len u v → Reach max_len w v

abbrev pub init : World
init = record { added = []; unread = []; pending = []; log = [] }

-- Nothing is left to do for the message: it names no job, or it was handled with a final outcome.
pub data Done (log : List (Message × Outcome)) (m : Message) : Type 0 where
  no_job : job_of m ≡ none → Done log m
  final : (o : Outcome) → Among (m, o) log → IsFinal o → Done log m

abbrev pub Kept : World → Message → Type 0
Kept w m = Among m w.unread ⊎ Among m w.pending ⊎ Done w.log m

record Inv (max_len : ℕ) (w : World) : Type 0 where
  same : (a b : Message) → Among a w.added → Among b w.added → a.id ≡ b.id → a ≡ b
  kept : (m : Message) → Among m w.added → Kept w m ⊎ IsOld max_len w.added m

Among-append :
    {A : Type 0} (x : A) (xs ys : List A) → (Among x xs ⊎ Among x ys) → Among x (xs ++ ys)
Among-append x [] ys (inl h) = absurd h
Among-append x [] ys (inr h) = h
Among-append x (y ∷ xs) ys (inl (inl h)) = inl h
Among-append x (y ∷ xs) ys (inl (inr h)) = inr (Among-append x xs ys (inl h))
Among-append x (y ∷ xs) ys (inr h) = inr (Among-append x xs ys (inr h))

Among-drop :
    (id : Str) (x : Message) (ms : List Message) → Among x ms → (x.id ≡ id) ⊎ Among x (drop id ms)
Among-drop id x [] h = absurd h
Among-drop id x (m ∷ ms) h = elim (Bool-cases (m.id === id)) [
  | inl e ↦ rw e (elim h [
    | inl eq ↦ inl (ap (λ k. k.id) eq ∙ ===_sound m.id id e)
    | inr there ↦ Among-drop id x ms there
  ])
  | inr e ↦ rw e (elim h [
    | inl eq ↦ inr (inl eq)
    | inr there ↦ elim (Among-drop id x ms there) [ inl own ↦ inl own | inr rest ↦ inr (inr rest) ]
  ])
]

Done-grows : (m : Message) (x : Message × Outcome) {log : _} → Done log m → Done (x ∷ log) m
Done-grows m x (no_job e) = no_job e
Done-grows m x (final o h s) = final o (inr h) s

-- A message is acknowledged only when nothing is left to do for it.
acked-Done :
    (o : Outcome) (m : Message) (log : List (Message × Outcome))
    → (handle_one (λ _. o) m).acked ≡ true
    → Done ((m, o) ∷ log) m
unfolding handle_one handle_job
acked-Done o m log = elim (Option-cases (job_of m)) [
  | inl e ↦ λ h. no_job e
  | inr (jid, e) ↦ rw e (λ h. final o (inl refl) ((settles-IsFinal o).0 (ground arith)))
]

after_handling-Kept :
    (max_len : ℕ) (w : World) (m x : Message) (o : Outcome) (arrives : Bool)
    → Inv max_len w
    → Among m w.added
    → Among x w.added
    → Among x w.pending
    → Among x (after_handling arrives o m w.pending) ⊎ Done ((m, o) ∷ w.log) x
unfolding after_handling
after_handling-Kept max_len w m x o arrives inv am ax h =
    elim (Bool-cases ((handle_one (λ _. o) m).acked && arrives)) [
      | inl e ↦ rw e (elim (Among-drop m.id x w.pending h) [
        | inl own ↦
            let done = acked-Done o m w.log (ground arith) in
            inr (subst (Done ((m, o) ∷ w.log)) (sym (inv.same x m ax am own)) done)
        | inr rest ↦ inl rest
      ])
      | inr e ↦ rw e (inl h)
    ]

IsOld-add :
    (max_len : ℕ) (m x : Message) (added : List Message)
    → IsOld max_len added x
    → IsOld max_len (m ∷ added) x
IsOld-add max_len m x added old = record {
  newer = m ∷ old.newer;
  older = old.older;
  place = ap (λ ms. m ∷ ms) old.place;
  many = let many = old.many in omega arith;
}

add-Inv :
    (max_len : ℕ) (w : World) (m : Message)
    → Inv max_len w
    → ((a : Message) → Among a w.added → a.id ≢ m.id)
    → Inv max_len (record w { added = m ∷ w.added; unread = w.unread ++ (m ∷ []) })
add-Inv max_len w m inv fresh = record {
  same = λ a b ha hb e. elim ha [
    | inl ea ↦ elim hb [
      | inl eb ↦ ea ∙ sym eb
      | inr hb' ↦ absurd (fresh b hb' (sym e ∙ ap (λ k. k.id) ea))
    ]
    | inr ha' ↦ elim hb [
      | inl eb ↦ absurd (fresh a ha' (e ∙ ap (λ k. k.id) eb))
      | inr hb' ↦ inv.same a b ha' hb' e
    ]
  ];
  kept = λ x hx. elim hx [
    | inl ex ↦ inl (inl (Among-append x w.unread (m ∷ []) (inr (inl ex))))
    | inr old ↦ elim (inv.kept x old) [
      | inl (inl h) ↦ inl (inl (Among-append x w.unread (m ∷ []) (inl h)))
      | inl (inr h) ↦ inl (inr h)
      | inr h ↦ inr (IsOld-add max_len m x w.added h)
    ]
  ];
}

Among-here : (newer older : List Message) (m : Message) → Among m (newer ++ m ∷ older)
Among-here newer older m = Among-append m newer (m ∷ older) (inr (inl refl))

-- The message that is deleted is an old one, and there is no other with its id.
trim-Inv :
    (max_len : ℕ) (w : World) (m : Message)
    → Inv max_len w
    → IsOld max_len w.added m
    → Inv max_len (record w { unread = drop m.id w.unread; pending = drop m.id w.pending })
trim-Inv max_len w m inv old = record {
  same = inv.same;
  kept = λ x hx. elim (inv.kept x hx) [
    | inl (inl h) ↦ elim (Among-drop m.id x w.unread h) [
      | inl own ↦ inr (gone x hx own)
      | inr rest ↦ inl (inl rest)
    ]
    | inl (inr (inl h)) ↦ elim (Among-drop m.id x w.pending h) [
      | inl own ↦ inr (gone x hx own)
      | inr rest ↦ inl (inr (inl rest))
    ]
    | inl (inr (inr h)) ↦ inl (inr (inr h))
    | inr h ↦ inr h
  ];
}
  where
    am : Among m w.added
    am = subst (Among m) (sym old.place) (Among-here old.newer old.older m)

    gone : (x : Message) → Among x w.added → x.id ≡ m.id → IsOld max_len w.added x
    gone x hx own = subst (IsOld max_len w.added) (sym (inv.same x m hx am own)) old

Step-Inv : {max_len : ℕ} {w v : World} → Inv max_len w → Step max_len w v → Inv max_len v
Step-Inv {max_len} {w} inv (add m fresh) = add-Inv max_len w m inv fresh
Step-Inv {max_len} {w} inv (trim m old) = trim-Inv max_len w m inv old
Step-Inv {max_len} {w} inv (read m rest e) = record {
  same = inv.same;
  kept = λ x hx. elim (inv.kept x hx) [
    | inl (inl h) ↦ elim (subst (Among x) e h) [
      | inl eq ↦ inl (inr (inl (inl eq)))
      | inr there ↦ inl (inl there)
    ]
    | inl (inr (inl h)) ↦ inl (inr (inl (inr h)))
    | inl (inr (inr h)) ↦ inl (inr (inr h))
    | inr h ↦ inr h
  ];
}
Step-Inv {max_len} {w} inv (handle m o arrives am) = record {
  same = inv.same;
  kept = λ x hx. elim (inv.kept x hx) [
    | inl (inl h) ↦ inl (inl h)
    | inl (inr (inl h)) ↦ inl (inr (after_handling-Kept max_len w m x o arrives inv am hx h))
    | inl (inr (inr h)) ↦ inl (inr (inr (Done-grows x (m, o) h)))
    | inr h ↦ inr h
  ];
}

init-Inv : (max_len : ℕ) → Inv max_len init
init-Inv max_len = record { same = λ a b ha hb e. absurd ha; kept = λ m h. absurd h }

Reach-Inv : {max_len : ℕ} {w : World} → Reach max_len init w → Inv max_len w
Reach-Inv {max_len} here = init-Inv max_len
Reach-Inv (next reach step) = Step-Inv (Reach-Inv reach) step

-- Whatever the consumers have done since the start, with any message handled more than once, and any
-- XACK or any result lost: a message that was added waits in the stream, or is pending, or names no
-- job, or was handled with nil, an error with a terminal one in its chain, or a panic; unless at least
-- as many messages as the producer's limit on the stream were added after it.
pub Reach-Kept :
    {w : World} (q : StreamQueue) (m : Message)
    → Reach q.max_len init w
    → Among m w.added
    → Kept w m ⊎ IsOld q.max_len w.added m
Reach-Kept q m reach h = (Reach-Inv reach).kept m h
