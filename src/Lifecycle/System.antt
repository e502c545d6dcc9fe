-- ===== src/Lifecycle/System.antt =====
-- The system: the job store and any number of running programs, whose effects interleave in any
-- order. A write may be lost, a read may fail, and a record may expire at any time.
pub mod Effect
pub mod Preserve
pub mod Facts
use guangyang.Prelude.{◌≡◌, refl, Bool, true, false, List, [], ◌∷◌, ◌++◌, Option, if◌then◌else◌}
use guangyang.Text.{Str, trim_space, ◌===◌}
use guangyang.Domain.{CompareJob}
use guangyang.Errors.{GoError}
use guangyang.Effects.{
  Prog, ret, call, get_job, update_job, create_job, Call, Reply, GetReply, get_failed, not_found,
  found, ◌>>=◌,
}
use guangyang.Http.{Method}
use guangyang.OssStore
use guangyang.Paygate
use guangyang.Compare.Worker
use guangyang.Compare.Service
use guangyang.Compare.Service.Create
use guangyang.Wechat.Notify

-- A record of the store: not yet made, present, or expired. The identifiers of jobs are random and
-- are not used twice, so an expired record does not come back.
pub data Cell : Type 0 where
  fresh gone : Cell
  alive : CompareJob → Cell

-- The records, by the trimmed identifier.
abbrev pub Jobs : Type 0
Jobs = Str → Cell

abbrev pub put : Jobs → Str → Cell → Jobs
put s id c k = if k === id then c else s k

abbrev pub reply_of : Cell → GetReply
reply_of (alive j) = found j
reply_of _ = not_found

abbrev pub updated : (CompareJob → CompareJob) → Cell → Cell
updated f (alive j) = alive (f j)
updated f c = c

abbrev pub expired : Cell → Cell
expired (alive j) = gone
expired c = c

-- One effect of one program.
pub data Act {A : Type 0} (s : Jobs) : Prog A → Prog A → Jobs → Type 0 where
  called : {c : Call} {k : Reply c → Prog A} (r : Reply c) → Act s (call c k) (k r) s
  read :
      {id : Str} {k : GetReply → Prog A} → Act s (get_job id k) (k (reply_of (s (trim_space id)))) s
  read_failed :
      {id : Str} {k : GetReply → Prog A} (e : GoError) → Act s (get_job id k) (k (get_failed e)) s
  written :
      {id : Str} {f : CompareJob → CompareJob} {m : Prog A}
      → Act s (update_job id f m) m (put s (trim_space id) (updated f (s (trim_space id))))
  lost : {id : Str} {f : CompareJob → CompareJob} {m : Prog A} → Act s (update_job id f m) m s
  created :
      {j : CompareJob} {m : Prog A}
      → s (trim_space j.id) ≡ fresh
      → Act s (create_job j m) m (put s (trim_space j.id) (alive j))
  not_created : {j : CompareJob} {m : Prog A} → Act s (create_job j m) m s

-- A running program, whose result nobody waits for.
abbrev pub Thread : Type 0
Thread = Prog (Unit {0})

unfoldable pub spawn : {A : Type 0} → Prog A → Thread
spawn m = m >>= λ _. ret tt

-- What may be started: the two workers on a message, and the handlers on a request.
pub data Program : Thread → Type 0 where
  compare_worker : (w : Worker.Worker) (id : Str) → Program (spawn (Worker.process w id))
  payment_worker : (w : Paygate.Worker) (id : Str) → Program (spawn (Paygate.process w id))
  create_handler :
      (s : Create.Service) (m : Method) → Program (spawn (Create.handle_create_job s m))
  job_handler :
      (oss : Option OssStore.Store) (r : Service.Request)
      → Program (spawn (Service.handle_job_routes oss r))
  notify_handler : (m : Method) → Program (spawn (Notify.handle m))

pub record Sys : Type 0 where
  pub jobs : Jobs
  pub threads : List Thread

abbrev pub init : Sys
init = record { jobs = λ k. fresh; threads = [] }

pub data Step (t u : Sys) : Type 0 where
  start : (m : Thread) → Program m → u.threads ≡ m ∷ t.threads → u.jobs ≡ t.jobs → Step t u
  run :
      (before after : List Thread) (m m' : Thread)
      → t.threads ≡ before ++ m ∷ after
      → u.threads ≡ before ++ m' ∷ after
      → Act t.jobs m m' u.jobs
      → Step t u
  expire :
      (id : Str) → u.threads ≡ t.threads → u.jobs ≡ put t.jobs id (expired (t.jobs id)) → Step t u

pub data Reach (t : Sys) : Sys → Type 0 where
  here : Reach t t
  next : {u v : Sys} → Reach t u → Step u v → Reach t v
