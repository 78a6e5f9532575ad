-- ===== src/Access/Tests.antt =====
-- Jobs of two companies, and the theorems at them.
use green_shift.Access.{
  User, Job, Jobs, get_tenant_job, get_tenant_jobs, is_listed, is_team_restricted, not_found,
  forbidden, can_view_job_audit, get_authorized_job_or_404, in_audit_scope,
}
use green_shift.Access.Audit.{in_audit_scope_iff}
use green_shift.Access.Jobs.{get_tenant_jobs_lem}
use green_shift.Approval.{submitted, company_user, company_admin}
use green_shift.Prelude.Dict.{lookup, IsKeyed, string_eq}
use green_shift.Prelude.Result.{ok, err}
use green_shift.Prelude.Sort.{sort_by}
use green_shift.Prelude.{◌≡◌, ◌↔◌, refl, inl, inr, true, none, some, [], ◌∷◌, All, map}

program : Unit {0}
unfolding lookup sort_by get_tenant_job get_tenant_jobs is_listed is_team_restricted
    can_view_job_audit get_authorized_job_or_404 in_audit_scope
program = tt

abbrev job : Job
job = record { tenant_id = some "acme"; team_id = "x"; status = submitted; submitted_at = 1 }

abbrev jobs : Jobs
jobs =
    ("a", job)
    ∷ ("b", record job { team_id = "y"; submitted_at = 2 })
    ∷ ("c", record job { tenant_id = some "other" })
    ∷ ("d", record job { tenant_id = none })
    ∷ []

jobs-IsKeyed : IsKeyed jobs
unfolding program
jobs-IsKeyed = (refl, (refl, (refl, (refl, tt))))

abbrev admin : User
admin = record { id = 1; role = company_admin; tenant_id = some "acme"; team_id = none }

abbrev worker : User
worker = record { id = 2; role = company_user; tenant_id = some "acme"; team_id = some "x" }

-- The newer job first, and no job of the other company.
listed_admin :
    map (λ e. e.0) (get_tenant_jobs jobs (some admin) none none (λ s. true) 100) ≡ "b" ∷ "a" ∷ []
unfolding program
listed_admin = refl

other_team : get_tenant_job jobs (some worker) "b" ≡ err forbidden
unfolding program
other_team = refl

other_company : get_tenant_job jobs (some worker) "c" ≡ err not_found
unfolding program
other_company = refl

-- A job without a company can be read by its id, and is not listed.
without_company : get_tenant_job jobs (some admin) "d" ≡ ok (record job { tenant_id = none })
unfolding program
without_company = refl

get_tenant_jobs_lem_example :
    All
      (λ e. get_tenant_job jobs (some admin) e.0 ≡ ok e.1)
      (get_tenant_jobs jobs (some admin) none none (λ s. true) 100)
unfolding program
get_tenant_jobs_lem_example =
    (get_tenant_jobs_lem jobs (some admin) none none (λ s. true) 100 jobs-IsKeyed).0

in_audit_scope_iff_example :
    (in_audit_scope jobs worker (record { job_id = some "a"; tenant_id = none; team_id = some "x" })
      ≡ true)
    ↔ (get_authorized_job_or_404 jobs worker "a" ≡ ok job)
unfolding program
in_audit_scope_iff_example =
    (in_audit_scope_iff jobs worker "a" job none (some "x") jobs-IsKeyed refl (inl refl)
      (inr refl)).0
