-- ===== src/Access/Audit.antt =====
-- The scope of audit events and the authorization of a job's trail, by app/trust/authz.py.
use text.Mathlib.TextEquality.{eq_iff}
use green_shift.Access.{
  User, Job, Jobs, is_platform_admin, AccessError, checked_job, column_eq, get_tenant_job,
  is_team_restricted, can_view_job_audit, get_authorized_job_or_404, authorized, in_jobs, in_scope,
  in_audit_scope, not_found,
}
use green_shift.Approval.{company_admin, company_user, has_tenant}
use green_shift.Prelude.Dict.{lookup, IsKeyed, string_eq}
use green_shift.Prelude.Result.{Result, ok, err}
use green_shift.Prelude.{
  ◌≡◌, ◌⊎◌, ◌↔◌, refl, sym, ap, ◌∙◌, inl, inr, Bool, true, false, not, ◌&&◌, ◌||◌, String, Option,
  none, some, [], ◌∷◌, if◌then◌else◌, str_eq, arith, All, Bool-cases, some-injective,
}

the_same : (k id : String) → str_eq id k ≡ true → str_eq k id ≡ true
the_same k id same = (eq_iff k id).1 (sym ((eq_iff id k).0 same))

-- A row that is found is one of which the subquery speaks.
in_jobs-found :
    (p : Job → Bool) (jobs : Jobs) (id : String) (j : Job)
    → lookup id jobs ≡ some j
    → p j ≡ true
    → in_jobs p jobs (some id) ≡ true
unfolding lookup
in_jobs-found p [] id j found h = absurd cc
in_jobs-found p ((k, x) ∷ jobs) id j found h = elim (Bool-cases (str_eq id k)) [
  | inl same ↦
      let own : p x ≡ true = ap p (some-injective (rw same at found)) ∙ h in
      rw (the_same k id same, own) refl
  | inr apart ↦ let rest = in_jobs-found p jobs id j (rw apart at found) h in ground (arith, rest)
]

-- Where no row of that id has the property, the subquery has no such row.
in_jobs-none :
    (p : Job → Bool) (jobs rows : Jobs) (id : String) (j : Job)
    → lookup id jobs ≡ some j
    → All (λ e. lookup e.0 jobs ≡ some e.1) rows
    → p j ≡ false
    → in_jobs p rows (some id) ≡ false
in_jobs-none p jobs [] id j found keyed h = refl
in_jobs-none p jobs ((k, x) ∷ rows) id j found keyed h = elim (Bool-cases (str_eq k id)) [
  | inl same ↦
      let own =
        ap p (some-injective (sym keyed.0 ∙ ap (λ i. lookup i jobs) ((eq_iff k id).0 same) ∙ found))
        ∙ h in
      rw (same, own) (in_jobs-none p jobs rows id j found keyed.1 h)
  | inr apart ↦ rw apart (in_jobs-none p jobs rows id j found keyed.1 h)
]

in_jobs-lookup :
    (p : Job → Bool) (jobs : Jobs) (id : String) (j : Job)
    → IsKeyed jobs
    → lookup id jobs ≡ some j
    → in_jobs p jobs (some id) ≡ p j
in_jobs-lookup p jobs id j keyed found = elim (Bool-cases (p j)) [
  | inl yes_it ↦ in_jobs-found p jobs id j found yes_it ∙ sym yes_it
  | inr no_it ↦ in_jobs-none p jobs jobs id j found keyed no_it ∙ sym no_it
]

none_or_same :
    (c : Option String) (wanted : String)
    → (column_eq c (some wanted) || (column_eq c none && column_eq c (some wanted)))
      ≡ column_eq c (some wanted)
none_or_same none wanted = refl
none_or_same (some t) wanted = ground arith

-- An event without the column, or with its job's, is filtered as its job.
in_scope-column_eq :
    (of_job : Job → Option String) (jobs : Jobs) (id : String) (j : Job) (column : Option String)
    (wanted : String)
    → IsKeyed jobs
    → lookup id jobs ≡ some j
    → (column ≡ none) ⊎ (column ≡ of_job j)
    → in_scope of_job jobs (some id) column (some wanted) ≡ column_eq (of_job j) (some wanted)
in_scope-column_eq of_job jobs id j column wanted keyed found own =
    let job_test = in_jobs-lookup (λ x. column_eq (of_job x) (some wanted)) jobs id j keyed found in
    elim own [
      | inl absent ↦ rw (absent, job_test) refl
      | inr same ↦ rw (same, job_test) (none_or_same (of_job j) wanted)
    ]

in_scope-wanted :
    (of_job : Job → Option String) (jobs : Jobs) (id : String) (j : Job)
    (column wanted : Option String)
    → IsKeyed jobs
    → lookup id jobs ≡ some j
    → (column ≡ none) ⊎ (column ≡ of_job j)
    → has_tenant wanted ≡ true
    → in_scope of_job jobs (some id) column wanted ≡ column_eq (of_job j) wanted
in_scope-wanted of_job jobs id j column none keyed found own given = absurd cc
in_scope-wanted of_job jobs id j column (some w) keyed found own given =
    in_scope-column_eq of_job jobs id j column w keyed found own

-- The two programs with the results of their comparisons.
agree :
    (u : User) (given teamed own own_job mate mate_job : Bool)
    → (given ≡ true → own ≡ own_job)
    → (teamed ≡ true → mate ≡ mate_job)
    → (if is_platform_admin u
        then true
        else if not given
        then false
        else elim u.role [ company_user ↦ own && (teamed && mate) | _ ↦ own ])
      ≡ (if is_platform_admin u
          then true
          else if not given || not own_job
          then false
          else elim u.role [ company_admin ↦ true | _ ↦ teamed && mate_job ])
agree u given teamed own own_job mate mate_job h k = ground (arith, h, k)

in_audit_scope-can_view :
    (jobs : Jobs) (u : User) (id : String) (j : Job) (tenant team : Option String)
    → IsKeyed jobs
    → lookup id jobs ≡ some j
    → (tenant ≡ none) ⊎ (tenant ≡ j.tenant_id)
    → (team ≡ none) ⊎ (team ≡ some j.team_id)
    → in_audit_scope jobs u (record { job_id = some id; tenant_id = tenant; team_id = team })
      ≡ can_view_job_audit u j
unfolding in_audit_scope can_view_job_audit
in_audit_scope-can_view jobs u id j tenant team keyed found of_tenant of_team =
    agree u (has_tenant u.tenant_id) (has_tenant u.team_id) _ _ _ _
      (in_scope-wanted (λ x. x.tenant_id) jobs id j tenant u.tenant_id keyed found of_tenant)
      (in_scope-wanted (λ x. some x.team_id) jobs id j team u.team_id keyed found of_team)

not_err : {j : Job} → ◌≡◌ {A = Result AccessError Job} (err not_found) (ok j) → ⊥
not_err h = cc

-- Who may see the trail of a job may read the job.
checked_job-can_view :
    (u : User) (j : Job) → can_view_job_audit u j ≡ true → checked_job (some u) (some j) ≡ ok j
unfolding can_view_job_audit is_team_restricted
checked_job-can_view u j h = ground (arith, h)

authorized-ok_iff :
    (u : User) (j : Job) → (authorized u (some j) ≡ ok j) ↔ (can_view_job_audit u j ≡ true)
authorized-ok_iff u j = elim (Bool-cases (can_view_job_audit u j)) [
  | inl may ↦ (λ h. may, λ h. rw may refl)
  | inr cannot ↦ (λ h. absurd (not_err (rw cannot at h)), λ h. cc (cannot, h))
]

-- An event of a job, which has the job's company and team or none, is in the scope of a user exactly
-- when the user is authorized for the trail of the job, and a user who is can also read the job by
-- its id, where the ids of the jobs are unique.
pub in_audit_scope_iff :
    (jobs : Jobs) (u : User) (id : String) (j : Job) (tenant team : Option String)
    → IsKeyed jobs
    → lookup id jobs ≡ some j
    → (tenant ≡ none) ⊎ (tenant ≡ j.tenant_id)
    → (team ≡ none) ⊎ (team ≡ some j.team_id)
    → ((in_audit_scope jobs u (record { job_id = some id; tenant_id = tenant; team_id = team })
          ≡ true)
        ↔ (get_authorized_job_or_404 jobs u id ≡ ok j))
      × (get_authorized_job_or_404 jobs u id ≡ ok j → get_tenant_job jobs (some u) id ≡ ok j)
unfolding get_authorized_job_or_404 get_tenant_job
in_audit_scope_iff jobs u id j tenant team keyed found of_tenant of_team =
    let agreed = in_audit_scope-can_view jobs u id j tenant team keyed found of_tenant of_team in
    let row = ap (authorized u) found in
    let may = authorized-ok_iff u j in
    (
      (λ h. row ∙ may.1 (sym agreed ∙ h), λ h. agreed ∙ may.0 (sym row ∙ h)),
      λ h. ap (checked_job (some u)) found ∙ checked_job-can_view u j (may.0 (sym row ∙ h)),
    )
