-- ===== src/Dispatch/Rows.antt =====
-- A dispatch by app/dispatch/dispatcher.py changes the rows of its own job only.
use text.Mathlib.TextEquality.{eq_iff}
use green_shift.Approval.{User, queued, dispatching, failed}
use green_shift.Dispatch.{Job, Decision, unclaimed}
use green_shift.Dispatch.Dispatcher.{
  DispatchError, Execution, System, Cluster, validate_job_for_dispatch, set_job, set_execution,
  with_status, with_gs_status, mark_job_failed, record_execution, new_execution, submit,
  dispatch_checked, dispatch_found, dispatch_job, submitted_by,
}
use green_shift.Prelude.Dict.{
  lookup, applied, applied_same, lookup-insert, lookup-adjust, string_eq,
}
use green_shift.Prelude.Result.{Result, ok, err}
use green_shift.Prelude.{
  ℕ, ◌≡◌, refl, ◌∙◌, false, String, Option, none, some, if◌then◌else◌, str_eq, is_some, Bool-cases,
  inl, inr,
}

-- Another job's row.
pub lookup-set_job_other :
    (job_id k : String) (f : Job → Job) (s : System)
    → str_eq k job_id ≡ false
    → lookup k (set_job job_id f s).jobs ≡ lookup k s.jobs
lookup-set_job_other job_id k f s apart =
    lookup-adjust (λ id j. if str_eq id job_id then f j else j) k s.jobs
    ∙ rw apart (applied_same (lookup k s.jobs))

pub lookup-set_job :
    (job_id : String) (f : Job → Job) (s : System)
    → lookup job_id (set_job job_id f s).jobs ≡ applied f (lookup job_id s.jobs)
lookup-set_job job_id f s =
    lookup-adjust (λ id j. if str_eq id job_id then f j else j) job_id s.jobs
    ∙ rw ((eq_iff job_id job_id).1 refl) refl

pub lookup-set_execution_other :
    (job_id k : String) (f : Execution → Execution) (s : System)
    → str_eq k job_id ≡ false
    → lookup k (set_execution job_id f s).executions ≡ lookup k s.executions
lookup-set_execution_other job_id k f s apart =
    lookup-adjust (λ id x. if str_eq id job_id then f x else x) k s.executions
    ∙ rw apart (applied_same (lookup k s.executions))

-- The rows of `k` are the same.
abbrev pub IsSameAt : String → System → System → Type 0
IsSameAt k s t =
    (lookup k t.jobs ≡ lookup k s.jobs) × (lookup k t.executions ≡ lookup k s.executions)

pub IsSameAt-trans :
    (k : String) (s t u : System) → IsSameAt k s t → IsSameAt k t u → IsSameAt k s u
IsSameAt-trans k s t u a b = (b.0 ∙ a.0, b.1 ∙ a.1)

mark_job_failed-IsSameAt :
    (job_id k : String) (s : System)
    → str_eq k job_id ≡ false
    → IsSameAt k s (mark_job_failed job_id s)
unfolding mark_job_failed
mark_job_failed-IsSameAt job_id k s apart = (
  lookup-set_job_other job_id k (unclaimed failed) s apart,
  lookup-set_execution_other job_id k (with_gs_status failed) (set_job job_id (unclaimed failed) s)
      apart,
)

record_execution-IsSameAt :
    (job_id k : String) (d : Decision) (s : System)
    → str_eq k job_id ≡ false
    → IsSameAt k s (record_execution job_id d s).0
unfolding record_execution
record_execution-IsSameAt job_id k d s apart =
    elim (Bool-cases (is_some (lookup job_id s.executions))) [
      | inl there ↦ rw there (refl, refl)
      | inr fresh ↦ rw fresh (
        lookup-set_job_other job_id k (unclaimed queued) s apart,
        lookup-insert job_id k (new_execution d) s.executions ∙ rw apart refl,
      )
    ]

submit-IsSameAt :
    (c : Cluster) (job_id k : String) (d : Option Decision) (s : System)
    → str_eq k job_id ≡ false
    → IsSameAt k s (submit c job_id d s).0
submit-IsSameAt c job_id k none s apart = (refl, refl)
submit-IsSameAt c job_id k (some d) s apart = elim (Bool-cases (submitted_by c)) [
  | inl taken ↦ rw taken (record_execution-IsSameAt job_id k d s apart)
  | inr refused ↦ rw refused (mark_job_failed-IsSameAt job_id k s apart)
]

checked-IsSameAt :
    (c : Cluster) (job_id k : String) (j : Job) (s : System) (r : Result DispatchError (Unit {0}))
    → str_eq k job_id ≡ false
    → IsSameAt k s (dispatch_checked c job_id j s r).0
checked-IsSameAt c job_id k j s (err e) apart = (refl, refl)
checked-IsSameAt c job_id k j s (ok u) apart =
    let started = set_job job_id (with_status dispatching) s in
    IsSameAt-trans k s started (submit c job_id j.schedule_decision started).0
      (lookup-set_job_other job_id k (with_status dispatching) s apart, refl)
      (submit-IsSameAt c job_id k j.schedule_decision started apart)

found-IsSameAt :
    (now : ℕ) (user : Option User) (c : Cluster) (job_id k : String) (s : System) (o : Option Job)
    → str_eq k job_id ≡ false
    → IsSameAt k s (dispatch_found now user c job_id s o).0
found-IsSameAt now user c job_id k s none apart = (refl, refl)
found-IsSameAt now user c job_id k s (some j) apart =
    checked-IsSameAt c job_id k j s (validate_job_for_dispatch now job_id j user) apart

-- A dispatch changes the rows of its own job only.
pub dispatch_job-IsSameAt :
    (now : ℕ) (user : Option User) (c : Cluster) (job_id k : String) (s : System)
    → str_eq k job_id ≡ false
    → IsSameAt k s (dispatch_job now user c job_id s).0
unfolding dispatch_job
dispatch_job-IsSameAt now user c job_id k s apart =
    found-IsSameAt now user c job_id k s (lookup job_id s.jobs) apart
