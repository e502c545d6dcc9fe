-- ===== src/Obs.antt =====
-- gobackend/obs/metrics.go: the labels and the counters of requests and jobs; and the settings that
-- gobackend/obs/obs.go reads. Prometheus, OpenTelemetry and the logger are outside.
pub mod Labels
use guangyang.Prelude.{
  ℕ, ◌+◌, Bool, true, false, ◌&&◌, ◌||◌, List, [], ◌∷◌, ◌++◌, Option, none, some, if◌then◌else◌,
}
use guangyang.Text.{Str, codes, ◌===◌, trim_space, has_prefix, to_lower}
use guangyang.Text.Path.{split, trim_prefix, slash}
use guangyang.Text.Decimal.{format_nat}
use guangyang.Errors.{GoError}

abbrev pub jobs_prefix : Str
jobs_prefix = codes "/compare/jobs/"

abbrev pub job_label : Str
job_label = codes "/compare/jobs/:jobId"

-- What stands behind the prefix, in parts.
unfoldable pub label_of_parts : Str → List Str → Str
unfolding ◌===◌
label_of_parts p [] = p
label_of_parts p (id ∷ []) = job_label
label_of_parts p (id ∷ action ∷ rest) =
    if action === codes "export"
    then codes "/compare/jobs/:jobId/export"
    else if action === codes "cancel"
    then codes "/compare/jobs/:jobId/cancel"
    else codes "/compare/jobs/:jobId/" ++ action

-- normalizeRouteLabel
unfoldable pub normalize_route_label : Str → Str
unfolding label_of_parts trim_space has_prefix trim_prefix split ◌===◌
normalize_route_label path =
    let p = trim_space path in
    if p === []
    then codes "/"
    else if has_prefix jobs_prefix p
    then label_of_parts p (split slash (trim_prefix jobs_prefix p))
    else p

-- statusRecorder: 200, or what WriteHeader was called with last.
unfoldable pub recorded_code : ℕ → List ℕ → ℕ
recorded_code code [] = code
recorded_code code (c ∷ calls) = recorded_code c calls

-- A request, with the calls of WriteHeader that its handler makes.
pub record Request : Type 0 where
  pub method : Str
  pub path : Str
  pub calls : List ℕ

abbrev pub Labels : Type 0
Labels = List Str

unfoldable pub same_labels : Labels → Labels → Bool
unfolding ◌===◌
same_labels [] [] = true
same_labels [] (b ∷ bs) = false
same_labels (a ∷ as') [] = false
same_labels (a ∷ as') (b ∷ bs) = a === b && same_labels as' bs

-- A CounterVec, by its labels.
abbrev pub Counter : Type 0
Counter = Labels → ℕ

-- WithLabelValues(...).Inc()
unfoldable pub inc : Labels → Counter → Counter
unfolding same_labels
inc ls c ms = if same_labels ls ms then c ms + 1 else c ms

-- The labels that MetricsMiddleware counts a request under.
unfoldable pub request_labels : Request → Labels
unfolding normalize_route_label recorded_code format_nat
request_labels r =
    r.method ∷ normalize_route_label r.path ∷ format_nat (recorded_code 200 r.calls) ∷ []

-- MetricsMiddleware, over the requests of a server in the order in which they end.
unfoldable pub count_requests : List Request → Counter → Counter
unfolding inc request_labels
count_requests [] c = c
count_requests (r ∷ rs) c = count_requests rs (inc (request_labels r) c)

-- The labels of RecordWorkerJob.
unfoldable pub job_labels : Str → Option GoError → Labels
job_labels worker none = worker ∷ codes "ok" ∷ []
job_labels worker (some e) = worker ∷ codes "error" ∷ []

-- RecordWorkerJob
unfoldable pub record_worker_job : Str → Option GoError → Counter → Counter
unfolding inc job_labels
record_worker_job worker e = inc (job_labels worker e)

abbrev pub or_default : Str → Str → Str
or_default default raw = let v = trim_space raw in if v === [] then default else v

-- SetAppInfo: the labels of the version, from APP_VERSION.
unfoldable pub app_info : Str → Str → Labels
unfolding trim_space ◌===◌
app_info service version =
    or_default (codes "gobackend") service ∷ or_default (codes "dev") version ∷ []

pub data Level : Type 0 where
  debug info warn error : Level

-- The level of newJSONLogger, from LOG_LEVEL.
unfoldable pub log_level : Str → Level
unfolding to_lower trim_space ◌===◌
log_level raw =
    let v = to_lower (trim_space raw) in
    if v === codes "debug"
    then debug
    else if v === codes "warn" || v === codes "warning"
    then warn
    else if v === codes "error"
    then error
    else info
