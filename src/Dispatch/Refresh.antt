-- ===== src/Dispatch/Refresh.antt =====
-- The refresh of a job's status by app/dispatch/dispatcher.py and app/dispatch/status_tracker.py.
use green_shift.Approval.{JobStatus, queued, running, completed, failed}
use green_shift.Prelude.Dict.{lookup, string_eq}
use green_shift.Prelude.{ℕ, Bool, true, false, String, Option, none, some, if◌then◌else◌, ltb, leb}
use green_shift.Dispatch.Dispatcher.{
  Execution, K8sStatus, System, k8s_failed, k8s_pending, k8s_running, k8s_succeeded, set_execution,
  set_job, simulated, with_status, with_statuses,
}

-- What Kubernetes says of a Job: the numbers of pods that succeeded, failed and are active, that it
-- is not there, or nothing; then the flag is as above.
pub data StatusAnswer : Type 0 where
  pods : (succeeded failed active : ℕ) → StatusAnswer
  missing : StatusAnswer
  failing : Bool → StatusAnswer

unfoldable pub get_job_status : (succeeded failed active : ℕ) → K8sStatus × JobStatus
get_job_status s f a =
    if ltb 0 s
    then (k8s_succeeded, completed)
    else if ltb 0 f
    then (k8s_failed, failed)
    else if ltb 0 a
    then (k8s_running, running)
    else (k8s_pending, queued)

abbrev pub synced : String → Option K8sStatus → JobStatus → System → System
synced job_id k8s gs s =
    set_execution job_id (with_statuses k8s gs) (set_job job_id (with_status gs) s)

abbrev pub sim_status : ℕ → Execution → JobStatus
sim_status now x =
    if leb x.planned_end now then completed else if leb x.planned_start now then running else queued

abbrev pub same_status : JobStatus → JobStatus → Bool
same_status completed completed = true
same_status running running = true
same_status queued queued = true
same_status _ _ = false

abbrev pub refresh_found : ℕ → StatusAnswer → String → System → Option Execution → System
refresh_found now answer job_id s none = s
refresh_found now answer job_id s (some x) = elim answer [
  | pods succeeded fails active ↦
      let (k8s, gs) = get_job_status succeeded fails active in synced job_id (some k8s) gs s
  | missing ↦ synced job_id none failed s
  | failing connection ↦
      let status = sim_status now x in
      if connection
      then if same_status status x.gs_status
        then s
        else synced job_id (some (simulated status)) status s
      else s
]

unfoldable pub refresh_job_status : ℕ → StatusAnswer → String → System → System
refresh_job_status now answer job_id s =
    refresh_found now answer job_id s (lookup job_id s.executions)
