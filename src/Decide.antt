-- ===== src/Decide.antt =====
-- app/decide/service.py: scheduling a job by the policy of its company, storing the decision, and
-- the pass over the jobs that await one (with `get_jobs_awaiting_schedule` of app/ingest/jobs.py).
-- The session does not expire what it has read, so a job is written from the row that was read
-- first, to the table as it is by then. Notifications, metrics, audit records and the columns of
-- figures and texts are not modelled.
pub mod Storing
pub mod Pending
mod Tests
use green_shift.Approval.{JobStatus, submitted, validated, pending_approval, approved, failed}
use green_shift.Cluster.{Request}
use green_shift.Policy.{OptimizationPolicy}
use green_shift.Prelude.Dict.{lookup, insert, adjust, string_eq}
use green_shift.Prelude.Result.{Result, ok, err, ◌>>=◌}
use green_shift.Prelude.{
  ℕ, ◌+◌, Bool, true, false, ◌&&◌, String, Option, none, some, List, [], ◌∷◌, if◌then◌else◌, ltb,
  str_eq, keep_if,
}
use green_shift.Schedule.Choice.{ScheduleError, ScheduleDecision, execute_schedule_job}
use green_shift.Schedule.Evaluation
use green_shift.Schedule.Evaluation.{Environment}
use green_shift.Settings.Ranking.{as_value}
use green_shift.Settings.{Table, resolve_effective_policy}

-- The columns of JobORM that are read or written; `work` holds those that the scheduler takes.
pub record Job : Type 0 where
  pub status : JobStatus
  pub tenant_id : Option String
  pub work : Evaluation.Job

pub record StoredDecision : Type 0 where
  pub decision : ScheduleDecision
  pub created_at : ℕ

-- The tables jobs, schedule_decisions (by the job's id, which is unique) and optimization_policies.
pub record Store : Type 0 where
  pub jobs : List (String × Job)
  pub decisions : List (String × StoredDecision)
  pub policies : Table

-- Where the carbon or the tariff curve cannot be had, fetching it raises.
pub data DecideError : Type 0 where
  no_data : DecideError
  not_scheduled : ScheduleError → DecideError

-- The GPU request is not passed on, so its default is taken.
abbrev pub without_gpu : Request → Request
without_gpu q = record q { gpu_request = 0 }

abbrev pub passed_on : Job → Evaluation.Job
passed_on j = record j.work { request = without_gpu j.work.request }

abbrev pub fetched : Option Environment → Result DecideError Environment
fetched none = err no_data
fetched (some env) = ok env

abbrev pub raised_by : Result ScheduleError ScheduleDecision → Result DecideError ScheduleDecision
raised_by (ok d) = ok d
raised_by (err e) = err (not_scheduled e)

abbrev pub run_scheduler : Table → Environment → Job → Result DecideError ScheduleDecision
run_scheduler policies env j =
    let (policy, pct) = resolve_effective_policy policies j.tenant_id in
    raised_by (execute_schedule_job env (passed_on j) (some policy) (as_value pct))

-- A job that is not deferrable needs no approval.
abbrev pub next_status : Option Bool → JobStatus
next_status (some false) = approved
next_status _ = pending_approval

abbrev pub same_status : JobStatus → JobStatus → Bool
same_status approved approved = true
same_status pending_approval pending_approval = true
same_status failed failed = true
same_status _ _ = false

abbrev pub with_status : JobStatus → Job → Job
with_status status j = record j { status = status }

-- The column is written where the value differs from the one that was read.
abbrev pub set_status : String → JobStatus → JobStatus → Store → Store
set_status job_id seen status s = record s {
  jobs =
      if same_status seen status
      then s.jobs
      else adjust (λ k j. if str_eq k job_id then with_status status j else j) s.jobs;
}

abbrev pub store_decision : ℕ → String → Job → ScheduleDecision → Store → Store
store_decision now job_id seen d s =
    set_status job_id seen.status (next_status seen.work.deferrable) (record s {
      decisions = insert job_id (record { decision = d; created_at = now }) s.decisions;
    })

abbrev pub plan : (Job → Option Environment) → Table → Job → Result DecideError ScheduleDecision
plan fetch policies seen = do env ← fetched (fetch seen); run_scheduler policies env seen

-- `seen` is the row that was read, and `s` the tables when the policy is read and the rows written.
unfoldable pub schedule_and_store :
    (Job → Option Environment)
    → ℕ
    → String
    → Job
    → Store
    → Result DecideError (Store × ScheduleDecision)
schedule_and_store fetch now job_id seen s = do
  d ← plan fetch s.policies seen
  ok (store_decision now job_id seen d s, d)

abbrev pub is_new : JobStatus → Bool
is_new submitted = true
is_new validated = true
is_new _ = false

abbrev pub is_awaiting : ℕ → Job → Bool
is_awaiting now j = is_new j.status && ltb now j.work.deadline

unfoldable pub get_jobs_awaiting_schedule : ℕ → List (String × Job) → List (String × Job)
get_jobs_awaiting_schedule now jobs = keep_if (λ e. is_awaiting now e.1) jobs

-- One round: what is raised makes the job FAILED, and is not counted.
abbrev pub after_round :
    String → Job → Store → Result DecideError (Store × ScheduleDecision) → Store × ℕ
after_round job_id seen s (ok (t, d)) = (t, 1)
after_round job_id seen s (err e) = (set_status job_id seen.status failed s, 0)

unfoldable pub process_each :
    (Job → Option Environment) → ℕ → List (String × Job) → Store → Store × ℕ
process_each fetch now [] s = (s, 0)
process_each fetch now ((job_id, seen) ∷ rest) s =
    let (t, n) = after_round job_id seen s (schedule_and_store fetch now job_id seen s) in
    let (last, count) = process_each fetch now rest t in (last, n + count)

unfoldable pub process_pending_jobs : (Job → Option Environment) → ℕ → Store → Store × ℕ
process_pending_jobs fetch now s = process_each fetch now (get_jobs_awaiting_schedule now s.jobs) s
