-- ===== src/Tests/Queues.antt =====
-- The theorems on the streams, applied to concrete messages.
use guangyang.Prelude.{
  ◌≡◌, ◌≢◌, ◌⊎◌, ◌↔◌, refl, true, false, [], ◌∷◌, some, inl, inr, arith, sym, ap, subst, ◌∙◌,
}
use guangyang.Text.{Str, codes, trim_space, is_blank, ◌===◌, ===_refl}
use guangyang.Excel.StrMap.{lookup}
use guangyang.Errors.{new, to_terminal, ok}
use guangyang.Streamq.{
  Message, Outcome, returned, handle_one, StreamQueue, XAddArgs, enqueue, job_of,
}
use guangyang.Streamq.Acks.{Settled, handle_one-acked, enqueue-job_of}
use guangyang.Streamq.Delivery.{
  World, Among, IsOld, add, trim, read, handle, here, next, Kept, Reach-Kept, after_handling,
}

abbrev message : Message
message = record { id = codes "1-0"; values = (codes "jobId", codes "a1") ∷ [] }

with_id : is_blank (codes "1-0") ≡ false
unfolding is_blank trim_space
with_id = refl

abbrev fails : Str → Outcome
fails _ = returned (to_terminal (some (new (codes "bad file"))))

handle_one-acked_example :
    ((handle_one fails message).called ≡ job_of message)
    × (((handle_one fails message).acked ≡ true) ↔ Settled fails message)
handle_one-acked_example = handle_one-acked fails message with_id

abbrev queue : StreamQueue
queue = record {
  connected = true;
  stream = codes "gy:comparejobs:stream";
  group = codes "gy-compare";
  max_len = 100_000;
}

queue_named : is_blank (codes "gy:comparejobs:stream") ≡ false
unfolding is_blank trim_space
queue_named = refl

job_named : is_blank (codes " a1 ") ≡ false
unfolding is_blank trim_space
job_named = refl

enqueue-job_of_example :
    (args : XAddArgs) × (enqueue queue (codes " a1 ") ≡ ok args)
    × (job_of (record { id = codes "1-0"; values = args.values })
        ≡ some (trim_space (codes " a1 ")))
enqueue-job_of_example =
    enqueue-job_of queue (codes " a1 ") (codes "1-0") refl queue_named job_named

abbrev first_message : Message
first_message = record { id = codes "0-1"; values = (codes "jobId", codes "b2") ∷ [] }

-- A stream of one message; the second one pushes out the first.
abbrev short_queue : StreamQueue
short_queue = record queue { max_len = 1 }

-- The message is added after one that is deleted unread; it is read and handled with an error that is
-- not terminal: it stays pending.
abbrev after_run : World
after_run = record {
  added = message ∷ first_message ∷ [];
  unread = [];
  pending = message ∷ [];
  log = (message, returned (some (new (codes "timeout")))) ∷ [];
}

other_id : (a : Message) → Among a (first_message ∷ []) → a.id ≢ message.id
unfolding ◌===◌
other_id a (inl e) same =
    let equal : codes "0-1" ≡ codes "1-0" = sym (ap (λ m. m.id) e) ∙ same in
    let test : (codes "0-1" === codes "1-0") ≡ true =
      subst (λ t. (codes "0-1" === t) ≡ true) equal (===_refl (codes "0-1")) in
    absurd (cc)
other_id a (inr h) same = h

Reach-Kept_example : Kept after_run message ⊎ IsOld 1 (message ∷ first_message ∷ []) message
unfolding after_handling handle_one job_of lookup ◌===◌ is_blank
Reach-Kept_example =
    Reach-Kept short_queue message
      (next
        (next
          (next (next (next here (add first_message (λ a h. absurd h))) (add message other_id)) (
            trim first_message
              (record { newer = message ∷ []; older = []; place = refl; many = omega arith })))
          (read message [] refl))
        (handle message (returned (some (new (codes "timeout")))) true (inl refl)))
      (inl refl)
