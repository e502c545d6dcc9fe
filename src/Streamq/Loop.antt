-- ===== src/Streamq/Loop.antt =====
-- maybeAutoClaim and ConsumeLoop of gobackend/streamq/streamq.go. What Redis answers in each round
-- is given; a blocked read, a sleep and the slots of `concur` only delay the next step.
use guangyang.Prelude.{
  ℕ, ◌+◌, Bool, false, not, ◌||◌, List, [], ◌∷◌, ◌++◌, map, Option, none, some, ltb, ◌==◌,
  if◌then◌else◌,
}
use guangyang.Text.{Str, codes, is_blank}
use guangyang.Errors.{GoError, new}
use guangyang.Domain.{Time}
use guangyang.Streamq.{Message, Consumer, Outcome, Handling, handle_one}

-- redis.XAutoClaimArgs
pub record ClaimArgs : Type 0 where
  pub stream : Str
  pub group : Str
  pub consumer : Str
  pub min_idle : ℕ
  pub start : Str
  pub count : ℕ

pub data ClaimReply : Type 0 where
  claim_failed : GoError → ClaimReply  -- redis.Nil too
  claimed : List Message → Str → ClaimReply

-- `!c.lastClaimedTime.IsZero() && now.Sub(c.lastClaimedTime) < c.claimEvery`
unfoldable pub too_early : Time → Consumer → Bool
too_early now c = elim c.last_claimed_time [ none ↦ false | some t ↦ ltb now (t + c.claim_every) ]

unfoldable pub claims : Time → Consumer → Bool
unfolding too_early
claims now c =
    not (not c.connected || (c.claim_every == 0 || c.claim_min_idle == 0) || too_early now c)

unfoldable pub claim_args : Consumer → ClaimArgs
claim_args c = record {
  stream = c.stream;
  group = c.group;
  consumer = c.consumer;
  min_idle = c.claim_min_idle;
  start = c.claim_start;
  count = c.claim_count;
}

unfoldable pub after_claim : ClaimReply → Consumer → Consumer × List Message
after_claim (claim_failed e) c = (c, [])
after_claim (claimed msgs next) c =
    ((if is_blank next then c else record c { claim_start = next }), msgs)

-- Consumer.maybeAutoClaim: the consumer after it, and the messages that it hands to `handleOne`.
unfoldable pub maybe_auto_claim :
    (ClaimArgs → ClaimReply) → Time → Consumer → Consumer × List Message
unfolding claims claim_args after_claim
maybe_auto_claim reply now c =
    if claims now c
    then after_claim (reply (claim_args c)) (record c { last_claimed_time = some now })
    else (c, [])

pub data ReadReply : Type 0 where
  read_failed : GoError → ReadReply  -- redis.Nil too
  delivered : List (List Message) → ReadReply

-- The messages of all streams, in order.
unfoldable pub messages : ReadReply → List Message
messages (read_failed e) = []
messages (delivered []) = []
messages (delivered (s ∷ streams)) = s ++ messages (delivered streams)

-- One round of the loop: ctx.Err(), the time, and what Redis answers.
pub record Round : Type 0 where
  pub done : Option GoError
  pub at : Time
  pub claim : ClaimArgs → ClaimReply
  pub read : ReadReply

-- How far a run came: the consumer, the messages in the order in which their handling started, and
-- the error, if the loop returned.
pub record Run : Type 0 where
  pub consumer : Consumer
  pub handled : List Handling
  pub returned : Option GoError

prepend : List Handling → Run → Run
prepend hs r = record r { handled = hs ++ r.handled }

-- The body of the loop.
unfoldable pub rounds : (Str → Outcome) → Consumer → List Round → Run
unfolding prepend
rounds handler c [] = record { consumer = c; handled = []; returned = none }
rounds handler c (r ∷ rs) =
    let after = maybe_auto_claim r.claim r.at c in
    let rest = rounds handler after.0 rs in
    elim r.done [
      | some e ↦ record { consumer = c; handled = []; returned = some e }
      | none ↦ prepend (map (handle_one handler) (after.1 ++ messages r.read)) rest
    ]

refused : Consumer → GoError → Run
refused c e = record { consumer = c; handled = []; returned = some e }

-- Consumer.ConsumeLoop over the rounds that take place; no handler is a nil handler.
unfoldable pub consume_loop : Option (Str → Outcome) → Consumer → List Round → Run
unfolding refused
consume_loop handler c rs =
    if not c.connected
    then refused c (new (codes "consumer 未初始化"))
    else if is_blank c.stream || is_blank c.group
    then refused c (new (codes "stream/group 为空"))
    else elim handler [ none ↦ refused c (new (codes "handler 为空")) | some h ↦ rounds h c rs ]
