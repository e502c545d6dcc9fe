-- ===== src/Store/Memory.antt =====
-- InMemoryCompareJobStore of gobackend/store/compare_job_store.go. The programs do not change a job
-- that they gave to Create, so a stored pointer is the value that it points to.
use guangyang.Prelude.{Option, none, some}
use guangyang.Text.{Str}
use guangyang.Domain.{CompareJob}
use guangyang.Effects.{GetReply, not_found, found}
use guangyang.Excel.StrMap.{StrMap, lookup, assign}

unfoldable pub create : CompareJob → StrMap CompareJob → StrMap CompareJob
create job jobs = assign job.id job jobs

reply : Option CompareJob → GetReply
reply none = not_found
reply (some j) = found j

unfoldable pub get : Str → StrMap CompareJob → GetReply
unfolding reply
get id jobs = reply (lookup id jobs)

updated :
    Str
    → (CompareJob → CompareJob)
    → StrMap CompareJob
    → Option CompareJob
    → GetReply × StrMap CompareJob
updated id fn jobs none = (not_found, jobs)
updated id fn jobs (some j) = (found (fn j), assign id (fn j) jobs)

unfoldable pub update :
    Str → (CompareJob → CompareJob) → StrMap CompareJob → GetReply × StrMap CompareJob
unfolding updated
update id fn jobs = updated id fn jobs (lookup id jobs)
