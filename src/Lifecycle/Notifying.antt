-- ===== src/Lifecycle/Notifying.antt =====
-- The payment notification and the creation of a job may run beside any other programs.
use guangyang.Prelude.{ℕ, Option, none, some, List, arith}
use guangyang.Prelude.Int.{ℤ}
use guangyang.Text.{Str}
use guangyang.Domain.{Time}
use guangyang.Errors.{GoError, Result, ok, err}
use guangyang.Effects.{
  Prog, ◌>>=◌, GetReply, get_failed, not_found, found, Parts, eof, broken, part, Transaction,
}
use guangyang.Http.{Method, options, post, Response}
use guangyang.OssStore
use guangyang.Wechat.Notify
use guangyang.Compare.Service.Create
use guangyang.Lifecycle.Invariant.{JobInv, confirm_payment-Allowed, mark_unqueued-Allowed}
use guangyang.Lifecycle.Safe.{
  Seen, IsSafe, Any, IsSafe-ret, IsSafe-call, IsSafe-get, IsSafe-create, IsSafe-bind, safe_rules,
}

module _ (p : Seen) where
  confirm-IsSafe : (id : Str) → IsSafe Any p (Notify.confirm id)
  unfolding Notify.confirm ◌>>=◌
  confirm-IsSafe id = search (safe_rules, confirm_payment-Allowed) depth 20

check_amount-IsSafe :
    (p : Seen) (id : Str) (total : ℤ) (r : GetReply) → IsSafe Any p (Notify.check_amount id total r)
unfolding Notify.check_amount
check_amount-IsSafe p id total (get_failed e) = confirm-IsSafe p id
check_amount-IsSafe p id total not_found = confirm-IsSafe p id
check_amount-IsSafe p id total (found job) = search (safe_rules, confirm-IsSafe) depth 20

on_transaction-IsSafe : (p : Seen) (r : Result Transaction) → IsSafe Any p (Notify.on_transaction r)
unfolding Notify.on_transaction ◌>>=◌
on_transaction-IsSafe p (err e) = IsSafe-ret tt
on_transaction-IsSafe p (ok tx) = search (safe_rules, IsSafe-get, check_amount-IsSafe) depth 20

module _ (p : Seen) where
  on_plain-IsSafe : (r : Result Str) → IsSafe Any p (Notify.on_plain r)
  unfolding Notify.on_plain ◌>>=◌
  on_plain-IsSafe (err e) = IsSafe-ret tt
  on_plain-IsSafe (ok plain) = IsSafe-call (on_transaction-IsSafe p)

  on_envelope-IsSafe : (key : Str) (r : Result Str) → IsSafe Any p (Notify.on_envelope key r)
  unfolding Notify.on_envelope ◌>>=◌
  on_envelope-IsSafe key (err e) = IsSafe-ret tt
  on_envelope-IsSafe key (ok resource) = IsSafe-call on_plain-IsSafe

  on_signature-IsSafe :
      (key body : Str) (e : Option GoError) → IsSafe Any p (Notify.on_signature key body e)
  unfolding Notify.on_signature ◌>>=◌
  on_signature-IsSafe key body (some e) = IsSafe-ret tt
  on_signature-IsSafe key body none = IsSafe-call (on_envelope-IsSafe key)

  on_verifier-IsSafe :
      (key body : Str) (e : Option GoError) → IsSafe Any p (Notify.on_verifier key body e)
  unfolding Notify.on_verifier ◌>>=◌
  on_verifier-IsSafe key body (some e) = IsSafe-ret tt
  on_verifier-IsSafe key body none = IsSafe-call (on_signature-IsSafe key body)

  on_key-IsSafe : (body : Str) (r : Result Str) → IsSafe Any p (Notify.on_key body r)
  unfolding Notify.on_key ◌>>=◌
  on_key-IsSafe body (err e) = IsSafe-ret tt
  on_key-IsSafe body (ok key) = IsSafe-call (on_verifier-IsSafe key body)

  on_body-IsSafe : (r : Result Str) → IsSafe Any p (Notify.on_body r)
  unfolding Notify.on_body ◌>>=◌
  on_body-IsSafe (err e) = IsSafe-ret tt
  on_body-IsSafe (ok body) = IsSafe-call (on_key-IsSafe body)

  -- notifyHandler.handle, for any request.
  pub notify-IsSafe : (m : Method) → IsSafe Any p (Notify.handle m)
  unfolding Notify.handle ◌>>=◌
  notify-IsSafe options = IsSafe-ret tt
  notify-IsSafe post = IsSafe-call on_body-IsSafe
  notify-IsSafe _ = IsSafe-ret tt

-- A new job meets the invariant.
new_job-JobInv :
    (id : Str) (t : Time) (key1 key2 : Str) (u : Create.Uploads)
    → JobInv (Create.new_job id t key1 key2 u)
unfolding Create.new_job
new_job-JobInv id t key1 key2 u = ground arith

module _ (p : Seen) where
  queued-IsSafe : (id : Str) (e : Option GoError) → IsSafe Any p (Create.queued id e)
  unfolding Create.queued ◌>>=◌
  queued-IsSafe id (some e) = search (safe_rules, mark_unqueued-Allowed) depth 20
  queued-IsSafe id none = IsSafe-ret tt

  register-IsSafe :
      (s : Create.Service) (id dir key1 key2 : Str) (u : Create.Uploads)
      → IsSafe Any p (Create.register s id dir key1 key2 u)
  unfolding Create.register ◌>>=◌
  register-IsSafe s id dir key1 key2 u =
      search (safe_rules, IsSafe-create, new_job-JobInv, queued-IsSafe) depth 20

  put_checked-IsSafe :
      (e : Option GoError) (next : Prog Response)
      → IsSafe Any p next
      → IsSafe Any p (Create.put_checked e next)
  unfolding Create.put_checked
  put_checked-IsSafe (some e) next h = IsSafe-ret tt
  put_checked-IsSafe none next h = h

  put_inputs-IsSafe :
      (s : Create.Service) (oss : OssStore.Store) (id dir : Str) (u : Create.Uploads)
      → IsSafe Any p (Create.put_inputs s oss id dir u)
  unfolding Create.put_inputs ◌>>=◌
  put_inputs-IsSafe s oss id dir u =
      search (safe_rules, put_checked-IsSafe, register-IsSafe) depth 20

  with_oss-IsSafe :
      (s : Create.Service) (oss : Option OssStore.Store) (id dir : Str) (u : Create.Uploads)
      → IsSafe Any p (Create.with_oss s oss id dir u)
  unfolding Create.with_oss
  with_oss-IsSafe s none id dir u = IsSafe-ret tt
  with_oss-IsSafe s (some oss) id dir u = search (safe_rules, put_inputs-IsSafe) depth 20

  saved-IsSafe :
      (name fn : Str) (u : Create.Uploads) (next : Create.Uploads → Prog Response) (r : Result Str)
      → ((u' : Create.Uploads) → IsSafe Any p (next u'))
      → IsSafe Any p (Create.saved name fn u next r)
  unfolding Create.saved
  saved-IsSafe name fn u next (err e) h = IsSafe-ret tt
  saved-IsSafe name fn u next (ok dst) h = h _

  read_parts-IsSafe :
      (s : Create.Service) (id dir : Str) (ps : Parts) (u : Create.Uploads)
      → IsSafe Any p (Create.read_parts s id dir ps u)
  unfolding Create.read_parts ◌>>=◌
  read_parts-IsSafe s id dir eof u = search (safe_rules, with_oss-IsSafe) depth 20
  read_parts-IsSafe s id dir broken u = IsSafe-ret tt
  read_parts-IsSafe s id dir (part name file ps) u =
      search (safe_rules, saved-IsSafe, read_parts-IsSafe s id dir ps) depth 20

  made_dir-IsSafe :
      (s : Create.Service) (id dir : Str) (ps : Parts) (e : Option GoError)
      → IsSafe Any p (Create.made_dir s id dir ps e)
  unfolding Create.made_dir
  made_dir-IsSafe s id dir ps (some e) = IsSafe-ret tt
  made_dir-IsSafe s id dir ps none = read_parts-IsSafe s id dir ps _

new_job_id-IsSafe : (p : Seen) → IsSafe Any p Create.new_job_id
unfolding Create.new_job_id ◌>>=◌
new_job_id-IsSafe p = IsSafe-call λ r. job_id_of-IsSafe r
  where
    job_id_of-IsSafe : (r : Option (List ℕ)) → IsSafe Any p (Create.job_id_of r)
    job_id_of-IsSafe (some bytes) = IsSafe-ret tt
    job_id_of-IsSafe none = IsSafe-call (λ t. IsSafe-ret tt)

on_multipart-IsSafe :
    (p : Seen) (s : Create.Service) (r : Result Parts) → IsSafe Any p (Create.on_multipart s r)
unfolding Create.on_multipart
on_multipart-IsSafe p s (err e) = IsSafe-ret tt
on_multipart-IsSafe p s (ok ps) =
    IsSafe-bind (new_job_id-IsSafe p)
      (λ p' id _. unfold ◌>>=◌ in IsSafe-call (made_dir-IsSafe p' s id _ ps))

-- handleCreateJob, for any request.
pub create-IsSafe :
    (p : Seen) (s : Create.Service) (m : Method) → IsSafe Any p (Create.handle_create_job s m)
unfolding Create.handle_create_job ◌>>=◌
create-IsSafe p s options = IsSafe-ret tt
create-IsSafe p s post = IsSafe-call λ raw. IsSafe-call (on_multipart-IsSafe p s)
create-IsSafe p s _ = IsSafe-ret tt
