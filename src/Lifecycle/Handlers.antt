-- ===== src/Lifecycle/Handlers.antt =====
-- The HTTP handlers may run beside any other programs.
use guangyang.Prelude.{Option, List, [], ◌∷◌}
use guangyang.Text.{Str}
use guangyang.Errors.{Result, ok, err}
use guangyang.Effects.{Prog, ◌>>=◌, GetReply, get_failed, not_found, found}
use guangyang.Http.{Method, options, get, post, Response}
use guangyang.OssStore
use guangyang.Wechat.Native.{close_native_order}
use guangyang.Compare.Service
use guangyang.Lifecycle.Invariant.{
  cancel_job-Allowed, confirm_payment-Allowed, mark_unqueued-Allowed,
}
use guangyang.Lifecycle.Orders.{close_native_order-IsSafe}
use guangyang.Lifecycle.Safe.{Seen, IsSafe, Any, IsSafe-ret, IsSafe-get, IsSafe-bind, safe_rules}

ruleset handler_rules =
    (safe_rules, IsSafe-get, cancel_job-Allowed, confirm_payment-Allowed, mark_unqueued-Allowed)

module _ (p : Seen) where
  pub handle_get_job-IsSafe : (id : Str) → IsSafe Any p (Service.handle_get_job id)
  unfolding Service.handle_get_job ◌>>=◌
  handle_get_job-IsSafe id = search handler_rules depth 20

  do_cancel-IsSafe : (id : Str) → IsSafe Any p (Service.do_cancel id)
  unfolding Service.do_cancel ◌>>=◌
  do_cancel-IsSafe id = search handler_rules depth 20

  closed_order-IsSafe :
      (id : Str) (r : Result (Unit {0})) → IsSafe Any p (Service.closed_order id r)
  unfolding Service.closed_order
  closed_order-IsSafe id (err e) = IsSafe-ret tt
  closed_order-IsSafe id (ok r) = do_cancel-IsSafe id

close-IsSafe :
    (p : Seen) (id : Str) → IsSafe Any p (close_native_order id >>= Service.closed_order id)
close-IsSafe p id =
    IsSafe-bind (close_native_order-IsSafe p id) (λ p' r _. closed_order-IsSafe p' id r)

cancel_found-IsSafe :
    (p : Seen) (id : Str) (r : GetReply) → IsSafe Any p (Service.cancel_found id r)
unfolding Service.cancel_found ◌>>=◌
cancel_found-IsSafe p id (get_failed e) = IsSafe-ret tt
cancel_found-IsSafe p id not_found = IsSafe-ret tt
cancel_found-IsSafe p id (found job) = search (safe_rules, close-IsSafe, do_cancel-IsSafe) depth 20

pub handle_cancel_job-IsSafe : (p : Seen) (id : Str) → IsSafe Any p (Service.handle_cancel_job id)
unfolding Service.handle_cancel_job ◌>>=◌
handle_cancel_job-IsSafe p id = search (IsSafe-get, cancel_found-IsSafe) depth 20

download_found-IsSafe :
    (p : Seen) (oss : Option OssStore.Store) (q : Service.Request) (r : GetReply)
    → IsSafe Any p (Service.download_found oss q r)
unfolding Service.download_found ◌>>=◌
download_found-IsSafe p oss q (get_failed e) = IsSafe-ret tt
download_found-IsSafe p oss q not_found = IsSafe-ret tt
download_found-IsSafe p oss q (found job) = search safe_rules depth 20

pub handle_download-IsSafe :
    (p : Seen) (oss : Option OssStore.Store) (q : Service.Request) (id : Str)
    → IsSafe Any p (Service.handle_download oss q id)
unfolding Service.handle_download ◌>>=◌
handle_download-IsSafe p oss q id = search (IsSafe-get, download_found-IsSafe) depth 20

on_get-IsSafe :
    (p : Seen) (m : Method) (h : Prog Response) → IsSafe Any p h → IsSafe Any p (Service.on_get m h)
unfolding Service.on_get
on_get-IsSafe p options h s = IsSafe-ret tt
on_get-IsSafe p get h s = s
on_get-IsSafe p _ h s = IsSafe-ret tt

on_post-IsSafe :
    (p : Seen) (m : Method) (h : Prog Response)
    → IsSafe Any p h
    → IsSafe Any p (Service.on_post m h)
unfolding Service.on_post
on_post-IsSafe p options h s = IsSafe-ret tt
on_post-IsSafe p post h s = s
on_post-IsSafe p _ h s = IsSafe-ret tt

ruleset route_rules = (
  safe_rules, on_get-IsSafe, on_post-IsSafe, handle_get_job-IsSafe, handle_cancel_job-IsSafe,
  handle_download-IsSafe,
)

route-IsSafe :
    (p : Seen) (oss : Option OssStore.Store) (q : Service.Request) (ps : List Str)
    → IsSafe Any p (Service.route oss q ps)
unfolding Service.route
route-IsSafe p oss q [] = IsSafe-ret tt
route-IsSafe p oss q ([] ∷ rest) = IsSafe-ret tt
route-IsSafe p oss q ((c ∷ id) ∷ []) = search route_rules depth 20
route-IsSafe p oss q ((c ∷ id) ∷ action ∷ []) = search route_rules depth 20
route-IsSafe p oss q ((c ∷ id) ∷ action ∷ more ∷ rest) = IsSafe-ret tt

-- handleJobRoutes, for any request.
pub handle_job_routes-IsSafe :
    (p : Seen) (oss : Option OssStore.Store) (q : Service.Request)
    → IsSafe Any p (Service.handle_job_routes oss q)
unfolding Service.handle_job_routes
handle_job_routes-IsSafe p oss q = search (safe_rules, route-IsSafe) depth 20
