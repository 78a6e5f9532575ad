-- ===== src/Approval.antt =====
-- app/approval/service.py: approving, declining and resubmitting. A request reads the store it sees
-- and writes to the store as it is when it writes, since other requests may come in between.
-- Metrics, audit records, notifications and clocks are not modelled.
pub mod Decide
pub mod Permission
mod Tests
use green_shift.Prelude.Dict.{lookup, insert, nat_eq, string_eq}
use green_shift.Prelude.Result.{Result, ok, err, ◌>>=◌, ◌>>◌}
use green_shift.Prelude.Texts.{Text, strip}
use green_shift.Prelude.{
  ℕ, Bool, true, false, not, ◌&&◌, ◌||◌, String, Option, none, some, List, [], ◌∷◌, ◌++◌,
  if◌then◌else◌, leb, ◌==◌, str_eq, keep_if,
}

pub data JobStatus : Type 0 where
  submitted validated scheduled pending_approval approved ready claiming declined : JobStatus
  rejected queued dispatching running completed failed cancelled : JobStatus

pub data UserRole : Type 0 where
  platform_admin company_admin company_user : UserRole

-- The columns of JobORM that are read here.
pub record Job : Type 0 where
  pub status : JobStatus
  pub tenant_id : Option String

pub record User : Type 0 where
  pub role : UserRole
  pub tenant_id : Option String

pub data Decision : Type 0 where
  grant decline : Decision

pub record Approval : Type 0 where
  pub job_id : String
  pub schedule_decision_id : ℕ
  pub decision : Decision
  pub reason : Text
  pub approved_by : String

-- Schedule decisions are kept by their id, with the job they belong to; approvals newest first.
pub record Store : Type 0 where
  pub jobs : List (String × Job)
  pub schedules : List (ℕ × String)
  pub approvals : List Approval

pub data ApprovalError : Type 0 where
  not_found permission_denied reason_required wrong_job wrong_status conflict : ApprovalError

-- A tenant that is None or empty is false.
abbrev pub has_tenant : Option String → Bool
has_tenant none = false
has_tenant (some t) = not (str_eq t "")

abbrev pub other_tenant : Option String → Option String → Bool
other_tenant (some t) (some u) = not (str_eq t "") && not (str_eq u "") && not (str_eq t u)
other_tenant _ _ = false

abbrev same_tenant_or_hidden : User → Job → Result ApprovalError (Unit {0})
same_tenant_or_hidden u j = if other_tenant u.tenant_id j.tenant_id then err not_found else ok tt

unfoldable pub check_user_approval_permission : Job → Option User → Result ApprovalError (Unit {0})
check_user_approval_permission j none = ok tt
check_user_approval_permission j (some u) = elim u.role [
  | platform_admin ↦ if not (has_tenant u.tenant_id) then ok tt else same_tenant_or_hidden u j
  | company_admin ↦ same_tenant_or_hidden u j
  | company_user ↦ err permission_denied
]

abbrev schedule_of : String → Job → Option String → Result ApprovalError Job
schedule_of job_id j none = err not_found
schedule_of job_id j (some owner) = if str_eq owner job_id then ok j else err wrong_job

abbrev pub found : String → Option String → Option Job → Result ApprovalError Job
found job_id owner none = err not_found
found job_id owner (some j) = schedule_of job_id j owner

unfoldable pub validate_approval_request : Store → String → ℕ → Result ApprovalError Job
validate_approval_request s job_id schedule_id =
    found job_id (lookup schedule_id s.schedules) (lookup job_id s.jobs)

abbrev pub target : Decision → JobStatus
target grant = approved
target decline = declined

abbrev pub is_pending : JobStatus → Bool
is_pending pending_approval = true
is_pending _ = false

abbrev pub is_target : Decision → JobStatus → Bool
is_target grant approved = true
is_target decline declined = true
is_target _ _ = false

abbrev same_decision : Decision → Decision → Bool
same_decision grant grant = true
same_decision decline decline = true
same_decision _ _ = false

abbrev pub existing : Decision → String → ℕ → List Approval → Option Approval
existing d job_id schedule_id [] = none
existing d job_id schedule_id (a ∷ approvals) =
    let rest = existing d job_id schedule_id approvals in
    if str_eq a.job_id job_id
      && (a.schedule_decision_id == schedule_id && same_decision a.decision d)
    then some a
    else rest

-- The update that succeeds only on a pending job; where it fails, what was added is rolled back.
abbrev pub update_if_pending :
    Store → Approval → Option Job → Result ApprovalError (Store × Approval)
update_if_pending s a none = err conflict
update_if_pending s a (some j) =
    if is_pending j.status
    then ok (
      record s {
        jobs = insert a.job_id (record j { status = target a.decision }) s.jobs;
        approvals = a ∷ s.approvals;
      },
      a,
    )
    else err conflict

unfoldable pub commit_decision : Store → Approval → Result ApprovalError (Store × Approval)
commit_decision s a = update_if_pending s a (lookup a.job_id s.jobs)

abbrev pub settle :
    Store → Approval → Job → Option Approval → Result ApprovalError (Store × Approval)
settle current a j already =
    let decided = is_target a.decision j.status in
    let committed = commit_decision current a in
    elim already [
      | some earlier ↦
          if decided
          then ok (current, earlier)
          else if is_pending j.status
          then committed
          else err wrong_status
      | none ↦ if is_pending j.status || decided then committed else err wrong_status
    ]

-- What `approve_schedule` and `decline_schedule` share, with the record that each would add.
unfoldable pub decide_schedule :
    Store → Store → Option User → Approval → Result ApprovalError (Store × Approval)
decide_schedule seen current user a = do
  j ← validate_approval_request seen a.job_id a.schedule_decision_id
  check_user_approval_permission j user
  settle current a j (existing a.decision a.job_id a.schedule_decision_id seen.approvals)

abbrev or_text : Option Text → Text → Text
or_text none default = default
or_text (some []) default = default
or_text (some (c ∷ cs)) default = c ∷ cs

abbrev or_admin : Option String → String
or_admin none = "admin"
or_admin (some name) = if str_eq name "" then "admin" else name

-- "Schedule acceptable"
abbrev schedule_acceptable : Text
schedule_acceptable =
    83 ∷ 99 ∷ 104 ∷ 101 ∷ 100 ∷ 117 ∷ 108 ∷ 101 ∷ 32 ∷ 97 ∷ 99 ∷ 99 ∷ 101 ∷ 112 ∷ 116 ∷ 97 ∷ 98
    ∷ 108 ∷ 101 ∷ []

unfoldable pub approve_schedule :
    Store
    → Store
    → String
    → ℕ
    → Option Text
    → Option String
    → Option User
    → Result ApprovalError (Store × Approval)
approve_schedule seen current job_id schedule_id reason approved_by user =
    decide_schedule seen current user (record {
      job_id = job_id;
      schedule_decision_id = schedule_id;
      decision = grant;
      reason = or_text reason schedule_acceptable;
      approved_by = or_admin approved_by;
    })

abbrev stripped : Option Text → Text
stripped none = []
stripped (some r) = strip r

unfoldable pub decline_schedule :
    Store
    → Store
    → String
    → ℕ
    → Option Text
    → Option String
    → Option User
    → Result ApprovalError (Store × Approval)
decline_schedule seen current job_id schedule_id reason approved_by user =
    let decided = decide_schedule seen current user (record {
      job_id = job_id;
      schedule_decision_id = schedule_id;
      decision = decline;
      reason = stripped reason;
      approved_by = or_admin approved_by;
    }) in
    elim (stripped reason) [ [] ↦ err reason_required | ◌∷◌ c cs ↦ decided ]

abbrev is_resubmittable : JobStatus → Bool
is_resubmittable declined = true
is_resubmittable cancelled = true
is_resubmittable failed = true
is_resubmittable _ = false

abbrev put_back : Store → String → Job → Result ApprovalError Store
put_back s job_id j =
    if is_resubmittable j.status
    then ok (record {
      jobs = insert job_id (record j { status = submitted }) s.jobs;
      schedules = keep_if (λ d. not (str_eq d.1 job_id)) s.schedules;
      approvals = keep_if (λ a. not (str_eq a.job_id job_id)) s.approvals;
    })
    else err wrong_status

abbrev found_job : Option Job → Result ApprovalError Job
found_job none = err not_found
found_job (some j) = ok j

-- A job has at most one schedule decision; with it go the approvals of it.
unfoldable pub resubmit_workload : Store → String → Option User → Result ApprovalError Store
resubmit_workload s job_id user = do
  j ← found_job (lookup job_id s.jobs)
  check_user_approval_permission j user
  put_back s job_id j
