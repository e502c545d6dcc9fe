-- ===== src/Lifecycle/System/Preserve.antt =====
-- Each step of the system keeps the invariant of every record, and takes nothing back.
use guangyang.Prelude.{◌≡◌, List, [], ◌∷◌, ◌++◌, All, All-append}
use guangyang.Text.{Str}
use guangyang.Effects.{Prog}
use guangyang.Lifecycle.Safe.{Seen, nothing_seen, IsSafe, Any, IsSafe-bind, IsSafe-ret}
use guangyang.Lifecycle.PayGate.{process-IsSafe}
use guangyang.Lifecycle.Comparing.{worker-IsSafe}
use guangyang.Lifecycle.Handlers.{handle_job_routes-IsSafe}
use guangyang.Lifecycle.Notifying.{notify-IsSafe, create-IsSafe}
use guangyang.Lifecycle.System.{
  Cell, fresh, gone, alive, Jobs, put, expired, Act, Thread, spawn, Program, compare_worker,
  payment_worker, create_handler, job_handler, notify_handler, Sys, init, Step, start, run, expire,
  Reach, here, next,
}
use guangyang.Lifecycle.System.Effect.{
  CellInv, Known, Known-false, Known-keeps, CellKeeps, CellKeeps-refl, CellKeeps-trans, Act-Kept,
  put_all,
}

spawn-IsSafe :
    {A : Type 0} (m : Prog A) → IsSafe Any nothing_seen m → IsSafe Any nothing_seen (spawn m)
unfolding spawn
spawn-IsSafe m h = IsSafe-bind h (λ p' a _. IsSafe-ret tt)

-- Whatever may be started is safe.
Program-IsSafe : {m : Thread} → Program m → IsSafe Any nothing_seen m
Program-IsSafe (compare_worker w id) = spawn-IsSafe _ (worker-IsSafe nothing_seen w id)
Program-IsSafe (payment_worker w id) = spawn-IsSafe _ (process-IsSafe nothing_seen w id)
Program-IsSafe (create_handler s m) = spawn-IsSafe _ (create-IsSafe nothing_seen s m)
Program-IsSafe (job_handler oss r) = spawn-IsSafe _ (handle_job_routes-IsSafe nothing_seen oss r)
Program-IsSafe (notify_handler m) = spawn-IsSafe _ (notify-IsSafe nothing_seen m)

-- A running program is safe for what it has seen, which still holds.
pub record ThreadOk (s : Jobs) (m : Thread) : Type 0 where
  pub seen : Seen
  pub safe : IsSafe Any seen m
  pub known : (k : Str) → Known (seen k) (s k)

pub record SysInv (t : Sys) : Type 0 where
  pub jobs_ok : (k : Str) → CellInv (t.jobs k)
  pub threads_ok : All (ThreadOk t.jobs) t.threads

-- No record takes back what it said.
abbrev pub JobsKeep : Jobs → Jobs → Type 0
JobsKeep s s' = (k : Str) → CellKeeps (s k) (s' k)

All-map :
    {A : Type 0} {P Q : A → Type 0} (xs : List A) → ((x : A) → P x → Q x) → All P xs → All Q xs
All-map [] f h = tt
All-map (x ∷ xs) f h = (f x h.0, All-map xs f h.1)

ThreadOk-keeps : {s s' : Jobs} → JobsKeep s s' → (m : Thread) → ThreadOk s m → ThreadOk s' m
ThreadOk-keeps {s} {s'} g m h = record {
  seen = h.seen;
  safe = h.safe;
  known = λ k. Known-keeps (h.seen k) (s k) (s' k) (g k) (h.known k);
}

All-middle :
    {A : Type 0} (P : A → Type 0) (xs : List A) (x : A) (ys : List A)
    → All P (xs ++ x ∷ ys)
    → All P xs × P x × All P ys
All-middle P [] x ys h = (tt, h.0, h.1)
All-middle P (y ∷ xs) x ys h = let (hx, hm, hy) = All-middle P xs x ys h.1 in ((h.0, hx), hm, hy)

expired-CellKeeps : (c : Cell) → CellKeeps c (expired c)
expired-CellKeeps fresh = tt
expired-CellKeeps gone = tt
expired-CellKeeps (alive j) = tt

expired-CellInv : (c : Cell) → CellInv (expired c)
expired-CellInv fresh = tt
expired-CellInv gone = tt
expired-CellInv (alive j) = tt

-- What a step gives: the invariant again, and that nothing was taken back.
pub record StepOk (t u : Sys) : Type 0 where
  pub inv : SysInv u
  pub keep : JobsKeep t.jobs u.jobs

module _ (t u : Sys) (h : SysInv t) where
  start-StepOk : (m : Thread) → Program m → u.threads ≡ m ∷ t.threads → u.jobs ≡ t.jobs → StepOk t u
  start-StepOk m pm et ej = record {
    inv = record {
      jobs_ok = rw ej h.jobs_ok;
      threads_ok =
          rw (ej, et)
            (
              (record {
                seen = nothing_seen;
                safe = Program-IsSafe pm;
                known = λ k. Known-false (t.jobs k);
              }),
              h.threads_ok,
            );
    };
    keep = rw ej (λ k. CellKeeps-refl (t.jobs k));
  }

  expire-StepOk :
      (id : Str) → u.threads ≡ t.threads → u.jobs ≡ put t.jobs id (expired (t.jobs id)) → StepOk t u
  expire-StepOk id et ej =
      let keep =
        put_all (λ k. CellKeeps (t.jobs k)) t.jobs id (expired (t.jobs id))
          (λ k. CellKeeps-refl (t.jobs k)) (expired-CellKeeps (t.jobs id)) in
      record {
        inv = record {
          jobs_ok =
              rw ej (put_all (λ k. CellInv) t.jobs id _ h.jobs_ok (expired-CellInv (t.jobs id)));
          threads_ok = rw (ej, et) (All-map t.threads (ThreadOk-keeps keep) h.threads_ok);
        };
        keep = rw ej keep;
      }

  run-StepOk :
      (before after : List Thread) (m m' : Thread)
      → t.threads ≡ before ++ m ∷ after
      → u.threads ≡ before ++ m' ∷ after
      → Act t.jobs m m' u.jobs
      → StepOk t u
  run-StepOk before after m m' et eu a =
      let (ok_before, ok_m, ok_after) =
        All-middle (ThreadOk t.jobs) before m after (rw et at h.threads_ok) in
      let kept = Act-Kept t.jobs ok_m.seen h.jobs_ok ok_m.known m m' u.jobs ok_m.safe a in
      let others = ThreadOk-keeps {s = t.jobs} {s' = u.jobs} kept.keeps in
      record {
        inv = record {
          jobs_ok = kept.cells;
          threads_ok = rw eu (
              All-append (ThreadOk u.jobs) before (m' ∷ after) (All-map before others ok_before) (
                record { seen = kept.seen; safe = kept.safe; known = kept.known },
                All-map after others ok_after,
              ));
        };
        keep = kept.keeps;
      }

pub Step-StepOk : {t u : Sys} → SysInv t → Step t u → StepOk t u
Step-StepOk {t} {u} h (start m pm et ej) = start-StepOk t u h m pm et ej
Step-StepOk {t} {u} h (run b a m m' et eu act) = run-StepOk t u h b a m m' et eu act
Step-StepOk {t} {u} h (expire id et ej) = expire-StepOk t u h id et ej

pub Reach-StepOk : {t u : Sys} → SysInv t → Reach t u → StepOk t u
Reach-StepOk {t} h here = record { inv = h; keep = λ k. CellKeeps-refl (t.jobs k) }
Reach-StepOk {t} {u} h (next {u = v} r s) =
    let before = Reach-StepOk h r in
    let after = Step-StepOk before.inv s in
    record {
      inv = after.inv;
      keep = λ k. CellKeeps-trans (t.jobs k) (v.jobs k) (u.jobs k) (before.keep k) (after.keep k);
    }

pub init-SysInv : SysInv init
init-SysInv = record { jobs_ok = λ k. tt; threads_ok = tt }
