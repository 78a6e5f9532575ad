-- ===== src/Dispatch/Tests.antt =====
-- A queue of jobs, and the theorems at it.
use green_shift.Access
use green_shift.Access.{get_tenant_job, is_team_restricted}
use green_shift.Approval.{
  cancelled, company_admin, JobStatus, approved, ready, queued, dispatching, pending_approval,
  failed,
}
use green_shift.Dispatch.{
  Job, Jobs, Priority, high, low, Decision, ids_of, claim_ready_jobs, select_ready,
  recover_expired_claims, promote_scheduled_to_ready,
}
use green_shift.Dispatch.Again.{dispatch_each-again}
use green_shift.Dispatch.Cancel.{violates_check, is_terminal, cancel_workload}
use green_shift.Dispatch.Cancelled.{cancel_workload-Steps}
use green_shift.Dispatch.Dispatcher.{
  System, Cluster, duplicate_execution, too_early, not_found, accepted, api_exception, read_job,
  create_job, validate_job_for_dispatch, dispatch_job, record_execution, mark_job_failed,
  new_execution, with_status,
}
use green_shift.Dispatch.Refresh.{pods, get_job_status, refresh_job_status}
use green_shift.Dispatch.Gate.{IsDispatched, status_at, dispatch_job_lem}
use green_shift.Dispatch.Lifecycle.{tick, request, done, next, IsIdle, Steps-IsIdle}
use green_shift.Dispatch.Loop.{dispatch_stage-queued}
use green_shift.Dispatch.Tick.{
  dispatch_each, dispatch_stage, get_active_executions, refresh_each, dispatch_loop_tick,
}
use green_shift.Prelude.Dict.{lookup, insert, adjust, IsKeyed, string_eq}
use green_shift.Prelude.Result.{ok, err}
use green_shift.Prelude.Sort.{sort_by}
use green_shift.Prelude.{
  ◌≡◌, refl, String, some, none, [], ◌∷◌, arith, if◌then◌else◌, str_eq, false,
}

program : Unit {0}
unfolding lookup insert adjust sort_by claim_ready_jobs select_ready recover_expired_claims
    promote_scheduled_to_ready validate_job_for_dispatch dispatch_job record_execution
    mark_job_failed get_job_status refresh_job_status dispatch_each dispatch_stage
    get_active_executions refresh_each dispatch_loop_tick cancel_workload get_tenant_job
    is_team_restricted
program = tt

abbrev decision : String → Decision
decision id = record { job_id = id; selected_start = 100; selected_end = 200 }

abbrev job : String → JobStatus → Priority → Job
job id status priority = record {
  status = status;
  priority = some priority;
  deadline = 500;
  tenant_id = some "acme";
  team_id = "ml";
  submitted_at = 0;
  schedule_decision = some (decision id);
  claimed_by = none;
  claimed_at = none;
  lease_expires_at = none;
}

abbrev jobs : Jobs
jobs =
    ("a", job "a" ready low)
    ∷ ("b", job "b" ready high)
    ∷ ("c", job "c" approved low)
    ∷ ("d", job "d" dispatching low)
    ∷ ("e", job "e" pending_approval high)
    ∷ []

jobs-IsKeyed : IsKeyed jobs
unfolding program
jobs-IsKeyed = (refl, (refl, (refl, (refl, (refl, tt)))))

abbrev system : System
system = record { jobs = jobs; executions = ("a", new_execution (decision "a")) ∷ [] }

abbrev fresh_system : System
fresh_system = record { jobs = jobs; executions = [] }

abbrev cluster : Cluster
cluster = record { read = not_found; create = accepted }

abbrev refusing : Cluster
refusing = record { read = not_found; create = api_exception }

-- The more urgent job is claimed first.
claimed_b : ids_of (claim_ready_jobs "w" [] 1 100 jobs).1 ≡ "b" ∷ []
unfolding program
claimed_b = refl

queued_c :
    dispatch_job 150 none cluster "c" system
    ≡ ((dispatch_job 150 none cluster "c" system).0, read_job "c" ∷ create_job "c" ∷ [], ok tt)
unfolding program
queued_c = refl

failed_c : status_at "c" (dispatch_job 150 none refusing "c" system).0 ≡ some failed
unfolding program
failed_c = refl

-- A second execution of a job is refused after the job has been marked.
stuck_a :
    (status_at "a" (dispatch_job 150 none cluster "a" system).0 ≡ some dispatching)
    × ((dispatch_job 150 none cluster "a" system).2 ≡ err duplicate_execution)
unfolding program
stuck_a = (refl, refl)

early_c : dispatch_job 99 none cluster "c" system ≡ (system, [], err too_early)
unfolding program
early_c = refl

dispatch_job_lem_example :
    IsDispatched 150 none cluster "c" system
      (job "c" approved low)
      (dispatch_job 150 none cluster "c" system)
unfolding program
dispatch_job_lem_example = dispatch_job_lem 150 none cluster "c" system (job "c" approved low) refl

dispatch_stage-queued_example :
    status_at "c" (dispatch_stage "w" [] 150 (λ id. cluster) fresh_system).0 ≡ some queued
unfolding program
dispatch_stage-queued_example =
    dispatch_stage-queued "w" [] 150 (λ id. cluster) fresh_system "c" (job "c" approved low) refl
      (refl, (refl, (refl, (refl, (refl, tt))))) refl
      (record { decision = decision "c"; chosen = refl; own = refl; due = omega arith })
      (λ h. refl, (λ h. refl, (λ h. refl, (λ h. refl, (λ h. refl, tt))))) refl (omega arith) refl

dispatch_each-again_example :
    status_at "a" (dispatch_each 150 (λ id. cluster) ("a" ∷ "b" ∷ []) system).0 ≡ some dispatching
unfolding program
dispatch_each-again_example =
    (dispatch_each-again 150 (λ id. cluster) ("b" ∷ []) "a" system (job "a" ready low) refl refl
      refl refl).0

-- A tick, then a request to dispatch the job itself.
Steps-IsIdle_example :
    IsIdle "e"
      (job "e" pending_approval high)
      (dispatch_job 150 none cluster "e"
        (dispatch_loop_tick "w" [] 150 (λ id. cluster) (λ id. pods 0 0 1) system).0).0
unfolding program
Steps-IsIdle_example =
    Steps-IsIdle "e" system
      (dispatch_job 150 none cluster "e"
        (dispatch_loop_tick "w" [] 150 (λ id. cluster) (λ id. pods 0 0 1) system).0).0
      (job "e" pending_approval high)
      (next (tick "w" [] 150 (λ id. cluster) (λ id. pods 0 0 1))
        (next (request 150 none cluster "e") done))
      jobs-IsKeyed refl (refl, refl)

abbrev ana : Access.User
ana = record { id = 1; role = company_admin; tenant_id = some "acme"; team_id = none }

-- A job that has an execution cannot be cancelled.
cancel_a : cancel_workload ana "a" system ≡ err violates_check
unfolding program
cancel_a = refl

abbrev without_c : System
without_c = record system {
  jobs = adjust (λ id j. if str_eq id "c" then with_status cancelled j else j) jobs;
}

-- An approved job is cancelled, and a tick does not take it up.
cancel_workload-Steps_example :
    (j : Job) × (lookup "c" jobs ≡ some j)
    × (lookup "c" system.executions ≡ none)
    × (is_terminal j.status ≡ false)
    × IsIdle "c"
        (with_status cancelled j)
        (dispatch_loop_tick "w" [] 150 (λ id. cluster) (λ id. pods 0 0 1) without_c).0
unfolding program
cancel_workload-Steps_example =
    cancel_workload-Steps ana "c" system without_c
      (dispatch_loop_tick "w" [] 150 (λ id. cluster) (λ id. pods 0 0 1) without_c).0 jobs-IsKeyed
      refl (next (tick "w" [] 150 (λ id. cluster) (λ id. pods 0 0 1)) done)
