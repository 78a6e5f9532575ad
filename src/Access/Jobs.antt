-- ===== src/Access/Jobs.antt =====
-- Reading a job by its id and listing jobs, by app/api/tenant_scope.py.
use green_shift.Access.{
  User, Job, Jobs, is_platform_admin, is_team_restricted, checked_job, get_tenant_job, is_listed,
  get_tenant_jobs, newest_first,
}
use green_shift.Approval.{JobStatus, has_tenant}
use green_shift.Prelude.Dict.{IsKeyed, string_eq}
use green_shift.Prelude.Result.{ok}
use green_shift.Prelude.Sort.{sort_by, All-sort_by}
use green_shift.Prelude.{
  ℕ, ◌≡◌, refl, sym, ap, ◌∙◌, Bool, true, not, ◌||◌, String, Option, none, some, [], ◌∷◌, keep_if,
  arith, All, All-map_of, All-keep_if, All-keep_if_of, All-both, All-take, All-append,
}

-- A job that is listed can be read by its id.
checked_job-is_listed :
    (identity : Option User) (tenant_id team_id : Option String) (status : JobStatus → Bool)
    (j : Job)
    → is_listed identity tenant_id team_id status j ≡ true
    → checked_job identity (some j) ≡ ok j
unfolding is_listed is_team_restricted
checked_job-is_listed none tenant_id team_id status j listed = refl
checked_job-is_listed (some u) tenant_id team_id status j listed = ground (arith, listed)

All-newest_first : (P : String × Job → Type 0) (es : Jobs) → All P es → All P (newest_first es)
All-newest_first P [] h = tt
All-newest_first P (e ∷ es) h =
    All-append P (newest_first es) (e ∷ []) (All-newest_first P es h.1) (h.0, tt)

-- What a request that names no company can list of a user's jobs.
abbrev pub has_own_tenant : Option User → Job → Bool
has_own_tenant none j = true
has_own_tenant (some u) j =
    is_platform_admin u || (not (has_tenant u.tenant_id) || has_tenant j.tenant_id)

is_listed-checked_job :
    (identity : Option User) (j : Job)
    → checked_job identity (some j) ≡ ok j
    → has_own_tenant identity j ≡ true
    → is_listed identity none none (λ s. true) j ≡ true
unfolding is_listed is_team_restricted
is_listed-checked_job none j readable own = refl
is_listed-checked_job (some u) j readable own = ground (arith, readable, own)

-- A listed job is one that the same user can read by its id, with the same row, whatever the filters
-- and the limit, where the ids of the jobs are unique. Conversely a job that the user can read by its
-- id passes the filters of a list without any, unless the user has a company, is no platform
-- administrator, and the job has no company.
pub get_tenant_jobs_lem :
    (jobs : Jobs) (identity : Option User) (tenant_id team_id : Option String)
    (status : JobStatus → Bool) (limit : ℕ)
    → IsKeyed jobs
    → All
        (λ e. get_tenant_job jobs identity e.0 ≡ ok e.1)
        (get_tenant_jobs jobs identity tenant_id team_id status limit)
      × All
          (λ e.
            get_tenant_job jobs identity e.0 ≡ ok e.1
            → has_own_tenant identity e.1 ≡ true
            → is_listed identity none none (λ s. true) e.1 ≡ true)
          jobs
unfolding get_tenant_jobs get_tenant_job
get_tenant_jobs_lem jobs identity tenant_id team_id status limit keyed =
    let listed = is_listed identity tenant_id team_id status in
    let found = keep_if (λ e. listed e.1) jobs in
    let readable =
      All-map_of
        (λ e h.
          ap (checked_job identity) h.0
          ∙ checked_job-is_listed identity tenant_id team_id status e.1 h.1)
        found
        (All-both _ _ found (All-keep_if_of (λ e. listed e.1) _ jobs keyed)
          (All-keep_if (λ e. listed e.1) jobs)) in
    (
      All-take _ limit (newest_first (sort_by (λ e. e.1.submitted_at ∷ []) found)) (
          All-newest_first _ (sort_by (λ e. e.1.submitted_at ∷ []) found)
            (All-sort_by (λ e. e.1.submitted_at ∷ []) _ found readable)),
      All-map_of
          (λ e h read own.
            is_listed-checked_job identity e.1 (ap (checked_job identity) (sym h) ∙ read) own)
          jobs keyed,
    )
