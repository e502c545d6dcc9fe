-- ===== src/Streamq/Acks.antt =====
-- When the consumer acknowledges a message, and what of a job's id comes through the queue.
use guangyang.Prelude.{
  ◌≡◌, ◌↔◌, inl, inr, refl, ◌∙◌, true, false, ◌&&◌, none, some, [], ◌∷◌, Option-cases, arith,
}
use guangyang.Text.{Str, codes, is_blank, trim_space, ◌===◌}
use guangyang.Text.Blank.{is_blank-trim_space}
use guangyang.Text.Trim.{trim_space-trim_space}
use guangyang.Errors.{ok}
use guangyang.Excel.StrMap.{lookup}
use guangyang.Streamq.{
  Message, Outcome, handle_one, handle_job, job_of, settles, result_of, ack, StreamQueue, XAddArgs,
  enqueue,
}
use guangyang.Streamq.Final.{IsFinal, settles-IsFinal}

-- Nothing is left to do for a message: it names no job, or the handler's outcome is final.
pub data Settled (outcome : Str → Outcome) (m : Message) : Type 0 where
  no_job : job_of m ≡ none → Settled outcome m
  final : (jid : Str) → job_of m ≡ some jid → IsFinal (outcome jid) → Settled outcome m

-- The handler is called exactly on the job that a message names, if any; and a message with an id is
-- acknowledged exactly if it names no job, or the handler returned nil or an error with a terminal one
-- in its chain, or panicked.
pub handle_one-acked :
    (handler : Str → Outcome) (m : Message)
    → is_blank m.id ≡ false
    → ((handle_one handler m).called ≡ job_of m)
      × (((handle_one handler m).acked ≡ true) ↔ Settled handler m)
unfolding handle_one handle_job ack
handle_one-acked handler m id = elim (Option-cases (job_of m)) [
  | inl e ↦ rw (e, id) (refl, ((λ h. no_job e), λ h. refl))
  | inr (jid, e) ↦
      rw (e, id)
        (
          refl,
          (
            (λ h. final jid e ((settles-IsFinal (handler jid)).0 (ground arith))),
            λ s. only jid e s,
          ),
        )
]
  where
    only :
        (jid : Str)
        → job_of m ≡ some jid
        → Settled handler m
        → (settles (result_of (handler jid)) && true) ≡ true
    only jid e (no_job n) = absurd (cc)
    only jid e (final j f h) =
        let same : jid ≡ j = cc in rw (same, (settles-IsFinal (handler j)).1 h) refl

-- A queue on its stream takes every job id that is not blank, and a message with the values that it
-- sends has the id, trimmed, for the handler.
pub enqueue-job_of :
    (q : StreamQueue) (job_id id : Str)
    → q.connected ≡ true
    → is_blank q.stream ≡ false
    → is_blank job_id ≡ false
    → (args : XAddArgs) × (enqueue q job_id ≡ ok args)
      × (job_of (record { id = id; values = args.values }) ≡ some (trim_space job_id))
unfolding enqueue job_of lookup ◌===◌
enqueue-job_of q job_id id connected stream job =
    let args : XAddArgs = record {
      stream = trim_space q.stream;
      max_len = q.max_len;
      values = (codes "jobId", trim_space job_id) ∷ [];
    } in
    let trimmed = is_blank-trim_space job_id ∙ job in
    (args, rw (connected, job, stream) refl, rw (trimmed, trim_space-trim_space job_id) refl)
