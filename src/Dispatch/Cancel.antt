-- ===== src/Dispatch/Cancel.antt =====
-- app/api/routers/ingest.py: cancelling a workload. Its audit record, its notifications and the
-- times of the update are not modelled.
use green_shift.Approval.{
  JobStatus, submitted, scheduled, pending_approval, approved, ready, claiming, declined, queued,
  running, completed, failed, cancelled, company_admin, company_user,
}
use green_shift.Access
use green_shift.Access.{AccessError, get_tenant_job, is_platform_admin}
use green_shift.Dispatch.{Job, Jobs}
use green_shift.Dispatch.Dispatcher.{
  Execution, System, set_job, set_execution, with_status, with_gs_status,
}
use green_shift.Prelude.Dict.{lookup, string_eq}
use green_shift.Prelude.Result.{Result, ok, err, ◌>>=◌, ◌>>◌}
use green_shift.Prelude.{Bool, true, false, ◌||◌, String, Option, none, some, map, if◌then◌else◌}

pub data CancelError : Type 0 where
  hidden : AccessError → CancelError
  role_denied terminal_status violates_check : CancelError

abbrev pub row_of : Job → Access.Job
row_of j = record {
  tenant_id = j.tenant_id;
  team_id = j.team_id;
  status = j.status;
  submitted_at = j.submitted_at;
}

abbrev pub rows : Jobs → Access.Jobs
rows = map (λ e. (e.0, row_of e.1))

abbrev pub visible : Result AccessError Access.Job → Result CancelError Access.Job
visible (ok j) = ok j
visible (err e) = err (hidden e)

abbrev pub is_company_member : Access.User → Bool
is_company_member u =
    is_platform_admin u || elim u.role [ company_user ↦ true | company_admin ↦ true | _ ↦ false ]

abbrev pub check_member : Access.User → Result CancelError (Unit {0})
check_member u = if is_company_member u then ok tt else err role_denied

abbrev pub is_terminal : JobStatus → Bool
is_terminal completed = true
is_terminal failed = true
is_terminal cancelled = true
is_terminal _ = false

abbrev pub check_open : JobStatus → Result CancelError (Unit {0})
check_open status = if is_terminal status then err terminal_status else ok tt

-- The check `ck_k8s_executions_status_valid` of the table.
abbrev pub is_valid_gs_status : JobStatus → Bool
is_valid_gs_status submitted = true
is_valid_gs_status scheduled = true
is_valid_gs_status pending_approval = true
is_valid_gs_status approved = true
is_valid_gs_status ready = true
is_valid_gs_status claiming = true
is_valid_gs_status declined = true
is_valid_gs_status queued = true
is_valid_gs_status running = true
is_valid_gs_status completed = true
is_valid_gs_status failed = true
is_valid_gs_status _ = false

-- The commit fails where the row of the execution violates the check, and changes nothing then.
abbrev pub commit_cancel : String → Option Execution → System → Result CancelError System
commit_cancel job_id none s = ok (set_job job_id (with_status cancelled) s)
commit_cancel job_id (some x) s =
    if is_valid_gs_status cancelled
    then ok
        (set_execution job_id (with_gs_status cancelled) (set_job job_id (with_status cancelled) s))
    else err violates_check

unfoldable pub cancel_workload : Access.User → String → System → Result CancelError System
cancel_workload u job_id s = do
  j ← visible (get_tenant_job (rows s.jobs) (some u) job_id)
  check_member u
  check_open j.status
  commit_cancel job_id (lookup job_id s.executions) s
