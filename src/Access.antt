-- ===== src/Access.antt =====
-- Who may see which jobs and audit events: the roles of app/shared/auth.py, app/api/tenant_scope.py
-- and app/trust/authz.py. The table of jobs is keyed by the job's id.
pub mod Jobs
pub mod Audit
mod Tests
use green_shift.Approval.{
  JobStatus, UserRole, platform_admin, company_admin, company_user, other_tenant, has_tenant,
}
use green_shift.Prelude.Dict.{lookup, string_eq}
use green_shift.Prelude.Result.{Result, ok, err}
use green_shift.Prelude.Sort.{sort_by}
use green_shift.Prelude.{
  ℕ, Bool, true, false, not, ◌&&◌, ◌||◌, String, Option, none, some, List, [], ◌∷◌, ◌++◌,
  if◌then◌else◌, str_eq, option_eq, keep_if, any, take,
}

-- A user, or the identity of a request; the texts of the other columns are not read here.
pub record User : Type 0 where
  pub id : ℕ
  pub role : UserRole
  pub tenant_id : Option String
  pub team_id : Option String

pub record Job : Type 0 where
  pub tenant_id : Option String
  pub team_id : String
  pub status : JobStatus
  pub submitted_at : ℕ

abbrev pub Jobs : Type 0
Jobs = List (String × Job)

abbrev pub is_platform_admin : User → Bool
is_platform_admin u = elim u.role [ platform_admin ↦ true | _ ↦ false ]

abbrev pub is_company_admin : User → Bool
is_company_admin u = elim u.role [ company_user ↦ false | _ ↦ true ]

unfoldable pub is_team_restricted : Option User → Bool
is_team_restricted none = false
is_team_restricted (some u) = not (is_platform_admin u) && not (is_company_admin u)

pub data AccessError : Type 0 where
  not_found forbidden : AccessError

-- A column that is compared with a value: NULL is equal to nothing but None, which SQLAlchemy
-- compares by IS NULL.
abbrev pub column_eq : Option String → Option String → Bool
column_eq = option_eq str_eq

-- `get_tenant_jobs` with a job id, for the row that is found.
abbrev pub checked_job : Option User → Option Job → Result AccessError Job
checked_job identity none = err not_found
checked_job none (some j) = ok j
checked_job (some u) (some j) =
    if is_platform_admin u
    then ok j
    else if other_tenant j.tenant_id u.tenant_id
    then err not_found
    else if is_team_restricted (some u) && not (column_eq (some j.team_id) u.team_id)
    then err forbidden
    else ok j

unfoldable pub get_tenant_job : Jobs → Option User → String → Result AccessError Job
get_tenant_job jobs identity job_id = checked_job identity (lookup job_id jobs)

-- A filter that is given restricts; None and the empty text do not.
abbrev filtered : Option String → Option String → Bool
filtered column wanted = if has_tenant wanted then column_eq column wanted else true

abbrev in_tenant : Option User → Option String → Job → Bool
in_tenant none wanted j = filtered j.tenant_id wanted
in_tenant (some u) wanted j =
    if is_platform_admin u then filtered j.tenant_id wanted else filtered j.tenant_id u.tenant_id

abbrev team_of : Option User → Option String
team_of none = none
team_of (some u) = u.team_id

abbrev in_team : Option User → Option String → Job → Bool
in_team identity wanted j =
    if is_team_restricted identity
    then column_eq (some j.team_id) (team_of identity)
    else filtered (some j.team_id) wanted

-- The filter on the status is an argument.
unfoldable pub is_listed :
    Option User → Option String → Option String → (JobStatus → Bool) → Job → Bool
is_listed identity tenant_id team_id status j =
    in_tenant identity tenant_id j && (in_team identity team_id j && status j.status)

abbrev pub newest_first : Jobs → Jobs
newest_first [] = []
newest_first (e ∷ es) = newest_first es ++ e ∷ []

-- `get_tenant_jobs` without a job id; jobs of one time come in any order, here the later row first.
unfoldable pub get_tenant_jobs :
    Jobs → Option User → Option String → Option String → (JobStatus → Bool) → ℕ → Jobs
get_tenant_jobs jobs identity tenant_id team_id status limit = take limit (
    newest_first (
      sort_by (λ e. e.1.submitted_at ∷ [])
        (keep_if (λ e. is_listed identity tenant_id team_id status e.1) jobs)))

-- `stamp_tenant` for the tenant.
unfoldable pub stamp_tenant : Job → Option User → Job
stamp_tenant j none = j
stamp_tenant j (some u) = if has_tenant u.tenant_id then record j { tenant_id = u.tenant_id } else j

pub record AuditEvent : Type 0 where
  pub job_id : Option String
  pub tenant_id : Option String
  pub team_id : Option String

unfoldable pub can_view_job_audit : User → Job → Bool
can_view_job_audit u j =
    if is_platform_admin u
    then true
    else if not (has_tenant u.tenant_id) || not (column_eq j.tenant_id u.tenant_id)
    then false
    else elim u.role [
      | company_admin ↦ true
      | _ ↦ has_tenant u.team_id && column_eq (some j.team_id) u.team_id
    ]

abbrev pub authorized : User → Option Job → Result AccessError Job
authorized u none = err not_found
authorized u (some j) = if can_view_job_audit u j then ok j else err not_found

unfoldable pub get_authorized_job_or_404 : Jobs → User → String → Result AccessError Job
get_authorized_job_or_404 jobs u job_id = authorized u (lookup job_id jobs)

-- `job_id IN (SELECT job_id FROM jobs WHERE ...)`
abbrev pub in_jobs : (Job → Bool) → Jobs → Option String → Bool
in_jobs p jobs none = false
in_jobs p jobs (some job_id) = any (λ e. str_eq e.0 job_id && p e.1) jobs

-- One of the two filters: the event's own column, or that of its job where the event has none.
abbrev pub in_scope :
    (Job → Option String) → Jobs → Option String → Option String → Option String → Bool
in_scope of_job jobs job_id column wanted =
    column_eq column wanted
    || (column_eq column none && in_jobs (λ j. column_eq (of_job j) wanted) jobs job_id)

-- `scope_audit_events_query`, as the test of one event.
unfoldable pub in_audit_scope : Jobs → User → AuditEvent → Bool
in_audit_scope jobs u e =
    let in_tenant = in_scope (λ j. j.tenant_id) jobs e.job_id e.tenant_id u.tenant_id in
    let in_team = in_scope (λ j. some j.team_id) jobs e.job_id e.team_id u.team_id in
    if is_platform_admin u
    then true
    else if not (has_tenant u.tenant_id)
    then false
    else elim u.role [
      | company_user ↦ in_tenant && (has_tenant u.team_id && in_team)
      | _ ↦ in_tenant
    ]
