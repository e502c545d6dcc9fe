-- ===== src/Tests/Runs.antt =====
-- Runs of the system in which the latest program alone goes on, and each call returns what a fixed
-- function says: an upload makes a job, and a client cancels it.
use guangyang.Prelude.{ℕ, zero, suc, ◌≡◌, refl, true, ◌∷◌, [], ◌++◌, none, some, List}
use guangyang.Text.{Str, codes, trim_space, ◌===◌, is_blank}
use guangyang.Text.Path.{base, trim_prefix, trim_slashes, split}
use guangyang.Domain.{CompareJob}
use guangyang.Errors.{new, ok, err}
use guangyang.Effects.{
  Call, Reply, Prog, ret, call, get_job, update_job, create_job, part, eof, ◌>>=◌, transport_error,
  eof,
}
use guangyang.Effects
use guangyang.Http.{post}
use guangyang.OssStore.{Store, object_key_for_input}
use guangyang.Compare.Worker.{safe_base_name}
use guangyang.Compare.Service.{cancel_job}
use guangyang.Compare.Service
use guangyang.Compare.Service.Create
use guangyang.Lifecycle.System.{
  Cell, fresh, gone, alive, Jobs, put, Sys, init, Reach, here, next, start, run, Thread, spawn,
  create_handler, job_handler, called, read, written, created, not_created, updated, reply_of,
}

-- What the calls return.
oracle : (c : Call) → Reply c
oracle Effects.now = 1_700_000_000
oracle (Effects.getenv _) = []
oracle Effects.new_token = ok (codes "token")
oracle (Effects.acquire _ _) = ok true
oracle (Effects.release _ _) = tt
oracle (Effects.enqueue _ _) = none
oracle (Effects.mkdir_all _) = none
oracle (Effects.remove _) = tt
oracle (Effects.remove_all _) = tt
oracle (Effects.stat _) = none
oracle (Effects.oss_get_file _ _) = none
oracle (Effects.oss_put_result _ _) = none
oracle (Effects.oss_put_file _ _ _) = none
oracle (Effects.oss_sign _ _) = ok (codes "https://oss/signed")
oracle (Effects.convert_xls p) = ok p
oracle (Effects.export_xlsx _ _ _ _ _) = none
oracle (Effects.random _) = some (1 ∷ 171 ∷ [])
oracle (Effects.multipart _) =
    ok (part (codes "file1") (codes "a.xlsx") (part (codes "file2") (codes "b.xlsx") eof))
oracle (Effects.save_upload _ name) = ok (codes "/tmp/" ++ name)
oracle (Effects.quote s) = s
oracle Effects.mch_id = codes "1900000001"
oracle Effects.pay_app_id = codes "app"
oracle Effects.notify_url = codes "https://notify"
oracle Effects.api_v3_key = err (new [])
oracle Effects.cert_paths = err (new [])
oracle (Effects.load_key _) = none
oracle (Effects.load_cert _) = ok (codes "AB")
oracle Effects.load_verifier = none
oracle (Effects.sign_request _ _) = none
oracle (Effects.prepay_body _ _ _ _ _) = []
oracle (Effects.close_body _) = []
oracle (Effects.path_escape s) = s
oracle (Effects.http_post _ _) = transport_error (new [])
oracle (Effects.json_code_url _) = ok (codes "weixin://pay")
oracle Effects.read_body = ok []
oracle (Effects.verify_signature _) = none
oracle (Effects.open_resource _ _) = err (new [])
oracle (Effects.json_envelope _) = err (new [])
oracle (Effects.json_transaction _) = err (new [])

abbrev State : Type 0
State = Jobs × Thread

made : Jobs → CompareJob → Thread → Cell → State
made s j m fresh = (put s (trim_space j.id) (alive j), m)
made s j m gone = (s, m)
made s j m (alive i) = (s, m)

advance : State → State
unfolding made oracle
advance (s, ret a) = (s, ret a)
advance (s, call c k) = (s, k (oracle c))
advance (s, get_job id k) = (s, k (reply_of (s (trim_space id))))
advance (s, update_job id f m) = (put s (trim_space id) (updated f (s (trim_space id))), m)
advance (s, create_job j m) = made s j m (s (trim_space j.id))

advance_by : ℕ → State → State
unfolding advance
advance_by zero c = c
advance_by (suc n) c = advance_by n (advance c)

abbrev sys : List Thread → State → Sys
sys rest c = record { jobs = c.0; threads = c.1 ∷ rest }

made-Reach :
    (t : Sys) (rest : List Thread) (s : Jobs) (j : CompareJob) (m : Thread) (c : Cell)
    → s (trim_space j.id) ≡ c
    → Reach t (sys rest (s, create_job j m))
    → Reach t (sys rest (made s j m c))
unfolding made
made-Reach t rest s j m fresh e p = next p (run [] rest (create_job j m) m refl refl (created e))
made-Reach t rest s j m gone e p = next p (run [] rest (create_job j m) m refl refl not_created)
made-Reach t rest s j m (alive i) e p =
    next p (run [] rest (create_job j m) m refl refl not_created)

advance-Reach :
    (t : Sys) (rest : List Thread) (c : State)
    → Reach t (sys rest c)
    → Reach t (sys rest (advance c))
unfolding advance
advance-Reach t rest (s, ret a) p = p
advance-Reach t rest (s, call c k) p =
    next p (run [] rest (call c k) (k (oracle c)) refl refl (called (oracle c)))
advance-Reach t rest (s, get_job id k) p =
    next p (run [] rest (get_job id k) (k (reply_of (s (trim_space id)))) refl refl read)
advance-Reach t rest (s, update_job id f m) p =
    next p (run [] rest (update_job id f m) m refl refl written)
advance-Reach t rest (s, create_job j m) p = made-Reach t rest s j m (s (trim_space j.id)) refl p

advance_by-Reach :
    (t : Sys) (rest : List Thread) (n : ℕ) (c : State)
    → Reach t (sys rest c)
    → Reach t (sys rest (advance_by n c))
unfolding advance_by
advance_by-Reach t rest zero c p = p
advance_by-Reach t rest (suc n) c p =
    advance_by-Reach t rest n (advance c) (advance-Reach t rest c p)

abbrev store : Store
store = record { enabled = true; prefix = codes "results"; input_prefix = codes "inputs" }

abbrev service : Create.Service
service = record { has_queue = true; tmp_root = codes "/tmp"; oss = some store }

create_thread : Thread
create_thread = spawn (Create.handle_create_job service post)

after_create : State
unfolding advance_by create_thread
after_create = advance_by 13 ((λ k. fresh), create_thread)

abbrev pub job_id : Str
job_id = codes "job_01ab"

pub uploaded : Sys
unfolding after_create
uploaded = sys [] after_create

pub uploaded-Reach : Reach init uploaded
unfolding uploaded after_create create_thread
uploaded-Reach =
    advance_by-Reach init [] 13 ((λ k. fresh), create_thread)
      (next here (start create_thread (create_handler service post) refl refl))

-- The job that the upload made.
unfoldable pub first_job : CompareJob
first_job =
    Create.new_job job_id 1_700_000_000
      (object_key_for_input store job_id (codes "file1") (codes "a.xlsx"))
      (object_key_for_input store job_id (codes "file2") (codes "b.xlsx"))
      (record {
        file1_path = codes "/tmp/file1_a.xlsx";
        file2_path = codes "/tmp/file2_b.xlsx";
        file1_name = codes "a.xlsx";
        file2_name = codes "b.xlsx";
      })

pub uploaded-first_job : uploaded.jobs job_id ≡ alive first_job
unfolding uploaded first_job spawn ◌>>=◌ Create.handle_create_job Create.on_multipart
    Create.new_job_id Create.made_dir Create.read_parts Create.uploaded Create.with_oss
    Create.put_inputs Create.register Create.new_job safe_base_name ◌===◌ trim_space
    Create.record_upload Create.saved object_key_for_input Create.put_checked Create.job_id_of
    is_blank base
uploaded-first_job = refl

cancel_thread : Thread
cancel_thread = spawn (
    Service.handle_job_routes (some store) (record {
      method = post;
      path = codes "/compare/jobs/job_01ab/cancel";
      format = [];
      accept = [];
    }))

after_cancel : State
unfolding uploaded advance_by cancel_thread
after_cancel = advance_by 3 (uploaded.jobs, cancel_thread)

pub cancelled_sys : Sys
unfolding after_cancel
cancelled_sys = sys uploaded.threads after_cancel

pub cancelled-Reach : Reach uploaded cancelled_sys
unfolding cancelled_sys after_cancel cancel_thread
cancelled-Reach =
    advance_by-Reach uploaded uploaded.threads 3 (uploaded.jobs, cancel_thread)
      (next here (
        start cancel_thread
          (job_handler (some store) (record {
            method = post;
            path = codes "/compare/jobs/job_01ab/cancel";
            format = [];
            accept = [];
          }))
          refl refl))

pub cancelled_job : cancelled_sys.jobs job_id ≡ alive (cancel_job 1_700_000_000 first_job)
unfolding cancelled_sys after_cancel cancel_thread advance_by spawn ◌>>=◌ Service.handle_job_routes
    ◌===◌ trim_space Service.handle_cancel_job Service.cancel_found Service.do_cancel trim_prefix
    trim_slashes split Service.cancel_job Create.handle_create_job Create.on_multipart
    Create.new_job_id Create.read_parts Create.put_inputs Create.register Create.new_job first_job
    safe_base_name is_blank base
cancelled_job = refl
