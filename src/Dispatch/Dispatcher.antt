-- ===== src/Dispatch/Dispatcher.antt =====
-- app/dispatch/dispatcher.py: the checks before a dispatch, the dispatch of one job and the refresh
-- of its status. What the Kubernetes API answers is an argument. Audit records, notifications,
-- metrics, node hints, pod names and actual times are not modelled.
use green_shift.Approval.{
  JobStatus, User, other_tenant, pending_approval, declined, approved, scheduled, ready, claiming,
  queued, dispatching, failed,
}
use green_shift.Dispatch.{Job, Jobs, Decision, unclaimed}
use green_shift.Prelude.Dict.{lookup, insert, adjust, string_eq}
use green_shift.Prelude.Result.{Result, ok, err, ◌>>◌}
use green_shift.Prelude.{
  ℕ, Bool, true, false, not, String, Option, none, some, List, [], ◌∷◌, if◌then◌else◌, ltb, str_eq,
  is_some,
}

pub data DispatchError : Type 0 where
  tenant_denied blocked_pending blocked_declined blocked_status : DispatchError
  no_decision foreign_decision too_early cluster_error duplicate_execution no_job : DispatchError

-- Every user has one of the three roles that may dispatch.
abbrev pub check_user : Job → Option User → Result DispatchError (Unit {0})
check_user j none = ok tt
check_user j (some u) = if other_tenant u.tenant_id j.tenant_id then err tenant_denied else ok tt

abbrev pub check_status : JobStatus → Result DispatchError (Unit {0})
check_status pending_approval = err blocked_pending
check_status declined = err blocked_declined
check_status approved = ok tt
check_status scheduled = ok tt
check_status ready = ok tt
check_status claiming = ok tt
check_status queued = ok tt
check_status dispatching = ok tt
check_status _ = err blocked_status

abbrev pub check_decision : ℕ → String → Option Decision → Result DispatchError (Unit {0})
check_decision now job_id none = err no_decision
check_decision now job_id (some d) =
    if not (str_eq d.job_id job_id)
    then err foreign_decision
    else if ltb now d.selected_start
    then err too_early
    else ok tt

unfoldable pub validate_job_for_dispatch :
    ℕ → String → Job → Option User → Result DispatchError (Unit {0})
validate_job_for_dispatch now job_id j user = do
  check_user j user
  check_status j.status
  check_decision now job_id j.schedule_decision

-- The `k8s_status` texts that are written.
pub data K8sStatus : Type 0 where
  k8s_pending k8s_running k8s_succeeded k8s_failed : K8sStatus
  simulated : JobStatus → K8sStatus

pub record Execution : Type 0 where
  pub planned_start : ℕ
  pub planned_end : ℕ
  pub k8s_status : Option K8sStatus
  pub gs_status : JobStatus

-- The tables jobs and kubernetes_executions, the latter keyed by its unique job id.
pub record System : Type 0 where
  pub jobs : Jobs
  pub executions : List (String × Execution)

-- The answers to reading and to creating the Kubernetes Job. The flag of `failing` tells whether
-- the exception is taken for an unreachable cluster.
pub data ReadAnswer : Type 0 where
  exists not_found : ReadAnswer
  read_failing : Bool → ReadAnswer

pub data CreateAnswer : Type 0 where
  accepted api_exception : CreateAnswer
  create_failing : Bool → CreateAnswer

pub record Cluster : Type 0 where
  pub read : ReadAnswer
  pub create : CreateAnswer

pub data Call : Type 0 where
  read_job create_job : String → Call

abbrev pub submitted_by : Cluster → Bool
submitted_by c = elim c.read [
  | exists ↦ true
  | read_failing connection ↦ connection
  | not_found ↦ elim c.create [
    | accepted ↦ true
    | api_exception ↦ false
    | create_failing connection ↦ connection
  ]
]

abbrev pub calls_of : String → Cluster → List Call
calls_of job_id c = elim c.read [
  | not_found ↦ read_job job_id ∷ create_job job_id ∷ []
  | _ ↦ read_job job_id ∷ []
]

abbrev pub set_job : String → (Job → Job) → System → System
set_job job_id f s = record s { jobs = adjust (λ id j. if str_eq id job_id then f j else j) s.jobs }

abbrev pub set_execution : String → (Execution → Execution) → System → System
set_execution job_id f s = record s {
  executions = adjust (λ id x. if str_eq id job_id then f x else x) s.executions;
}

abbrev pub with_gs_status : JobStatus → Execution → Execution
with_gs_status status x = record x { gs_status = status }

abbrev pub with_statuses : Option K8sStatus → JobStatus → Execution → Execution
with_statuses k8s gs x = record x { k8s_status = k8s; gs_status = gs }

abbrev pub with_status : JobStatus → Job → Job
with_status status j = record j { status = status }

unfoldable pub mark_job_failed : String → System → System
mark_job_failed job_id s =
    set_execution job_id (with_gs_status failed) (set_job job_id (unclaimed failed) s)

abbrev pub new_execution : Decision → Execution
new_execution d = record {
  planned_start = d.selected_start;
  planned_end = d.selected_end;
  k8s_status = none;
  gs_status = queued;
}

-- The tracking record and the end of the claim. A second record for a job violates the unique
-- constraint, and the commit fails.
unfoldable pub record_execution :
    String → Decision → System → System × Result DispatchError (Unit {0})
record_execution job_id d s =
    if is_some (lookup job_id s.executions) then (s, err duplicate_execution) else (
      record (set_job job_id (unclaimed queued) s) {
        executions = insert job_id (new_execution d) s.executions;
      },
      ok tt,
    )

abbrev pub submit :
    Cluster → String → Option Decision → System → System × Result DispatchError (Unit {0})
submit c job_id none s = (s, err no_decision)
submit c job_id (some d) s =
    if submitted_by c
    then record_execution job_id d s
    else (mark_job_failed job_id s, err cluster_error)

-- What happens to a job that passed the checks, or did not.
abbrev pub dispatch_checked :
    Cluster
    → String
    → Job
    → System
    → Result DispatchError (Unit {0})
    → System × List Call × Result DispatchError (Unit {0})
dispatch_checked c job_id j s (err e) = (s, [], err e)
dispatch_checked c job_id j s (ok u) =
    let (after, outcome) =
      submit c job_id j.schedule_decision (set_job job_id (with_status dispatching) s) in
    (after, calls_of job_id c, outcome)

abbrev pub dispatch_found :
    ℕ
    → Option User
    → Cluster
    → String
    → System
    → Option Job
    → System × List Call × Result DispatchError (Unit {0})
dispatch_found now user c job_id s none = (s, [], err no_job)
dispatch_found now user c job_id s (some j) =
    dispatch_checked c job_id j s (validate_job_for_dispatch now job_id j user)

unfoldable pub dispatch_job :
    ℕ
    → Option User
    → Cluster
    → String
    → System
    → System × List Call × Result DispatchError (Unit {0})
dispatch_job now user c job_id s = dispatch_found now user c job_id s (lookup job_id s.jobs)
