-- ===== src/Dispatch/Gate.antt =====
-- What a dispatch by app/dispatch/dispatcher.py changes, and asks Kubernetes.
use mathlib.Core.Bool.{true≢false}
use green_shift.Approval.{JobStatus, User, queued, dispatching, failed}
use green_shift.Dispatch.{Job, Decision, unclaimed}
use green_shift.Dispatch.Dispatcher.{
  DispatchError, System, Cluster, ReadAnswer, CreateAnswer, Call, exists, not_found, read_failing,
  accepted, create_failing, read_job, create_job, validate_job_for_dispatch, set_job, with_status,
  mark_job_failed, record_execution, submit, dispatch_checked, dispatch_job, submitted_by, calls_of,
}
use green_shift.Prelude.Dict.{lookup, applied, string_eq}
use green_shift.Prelude.Result.{Result, ok, err}
use green_shift.Prelude.{
  ℕ, ◌≡◌, ◌⊎◌, refl, ap, ◌∙◌, true, false, String, Option, none, some, [], if◌then◌else◌, is_some,
  arith, Bool-cases, Bool, List, ◌∷◌, ◌↔◌, ◌≢◌, sym, subst, inl, inr,
}
use green_shift.Dispatch.Required.{
  IsDue, IsDispatchable, validate-IsDispatchable, IsDispatchable-validate,
}
use green_shift.Dispatch.Rows.{lookup-set_job}

abbrev pub status_of : Option Job → Option JobStatus
status_of none = none
status_of (some j) = some j.status

abbrev pub status_at : String → System → Option JobStatus
status_at job_id s = status_of (lookup job_id s.jobs)

-- The status in which a dispatch leaves a job that passed the checks.
abbrev pub final_status : Cluster → String → System → JobStatus
final_status c job_id s =
    if submitted_by c
    then if is_some (lookup job_id s.executions) then dispatching else queued
    else failed

-- The cluster takes the job: it is there, it is created, or the cluster is unreachable.
abbrev pub IsTaken : Cluster → Type 0
IsTaken c =
    (c.read ≡ exists)
    ⊎ ((c.read ≡ read_failing true)
        ⊎ ((c.read ≡ not_found) × ((c.create ≡ accepted) ⊎ (c.create ≡ create_failing true))))

-- The status after a dispatch, by whether there was an execution.
abbrev pub HasEnded : Cluster → Bool → Option JobStatus → Type 0
HasEnded c had status =
    (IsTaken c × (had ≡ false) × (status ≡ some queued))
    ⊎ ((IsTaken c × (had ≡ true) × (status ≡ some dispatching))
        ⊎ ((¬ IsTaken c) × (status ≡ some failed)))

-- The job is read, and created where it is not found.
abbrev pub HasAsked : Cluster → String → List Call → Type 0
HasAsked c job_id calls =
    ((c.read ≡ not_found) × (calls ≡ read_job job_id ∷ create_job job_id ∷ []))
    ⊎ ((c.read ≢ not_found) × (calls ≡ read_job job_id ∷ []))

asked :
    (r : ReadAnswer) (a : CreateAnswer) (job_id : String)
    → (let c : Cluster = record { read = r; create = a } in HasAsked c job_id (calls_of job_id c))
asked exists a job_id = inr (λ h. cc, refl)
asked not_found a job_id = inl (refl, refl)
asked (read_failing b) a job_id = inr (λ h. cc, refl)

submitted_by_iff :
    (r : ReadAnswer) (a : CreateAnswer)
    → (let c : Cluster = record { read = r; create = a } in (submitted_by c ≡ true) ↔ IsTaken c)
submitted_by_iff exists a = (λ h. inl refl, λ h. refl)
submitted_by_iff (read_failing b) a = ground arith
submitted_by_iff not_found a = ground arith

ended :
    (c : Cluster) (had : Bool)
    → HasEnded c had (some (if submitted_by c then if had then dispatching else queued else failed))
ended c had = elim (Bool-cases (submitted_by c)) [
  | inr refused ↦
      rw refused
        (inr (inr (λ t. true≢false (sym ((submitted_by_iff c.read c.create).1 t) ∙ refused), refl)))
  | inl submitted ↦ rw submitted (by_execution submitted had)
]
  where
    by_execution :
        submitted_by c ≡ true → (b : Bool) → HasEnded c b (some (if b then dispatching else queued))
    by_execution t true = inr (inl ((submitted_by_iff c.read c.create).0 t, refl, refl))
    by_execution t false = inl ((submitted_by_iff c.read c.create).0 t, refl, refl)

status_at-set_job :
    (job_id : String) (f : Job → Job) (s : System) (j : Job)
    → lookup job_id s.jobs ≡ some j
    → status_at job_id (set_job job_id f s) ≡ some (f j).status
status_at-set_job job_id f s j there =
    ap status_of (lookup-set_job job_id f s ∙ ap (applied f) there)

status_at-submit :
    (c : Cluster) (job_id : String) (d : Decision) (s : System) (j : Job)
    → lookup job_id s.jobs ≡ some j
    → j.status ≡ dispatching
    → status_at job_id (submit c job_id (some d) s).0 ≡ some (final_status c job_id s)
unfolding record_execution mark_job_failed
status_at-submit c job_id d s j there started = elim (Bool-cases (submitted_by c)) [
  | inr refused ↦ rw refused (status_at-set_job job_id (unclaimed failed) s j there)
  | inl taken ↦ elim (Bool-cases (is_some (lookup job_id s.executions))) [
    | inl again ↦ rw (taken, again) (ap status_of there ∙ ap some started)
    | inr fresh ↦ rw (taken, fresh) (status_at-set_job job_id (unclaimed queued) s j there)
  ]
]

checked_ok :
    (now : ℕ) (c : Cluster) (job_id : String) (s : System) (j : Job)
    → lookup job_id s.jobs ≡ some j
    → IsDue now job_id j.schedule_decision
    → status_at job_id (dispatch_checked c job_id j s (ok tt)).0 ≡ some (final_status c job_id s)
checked_ok now c job_id s j there due =
    let started = set_job job_id (with_status dispatching) s in
    let row =
      lookup-set_job job_id (with_status dispatching) s
      ∙ ap (applied (with_status dispatching)) there in
    ap (λ o. status_at job_id (submit c job_id o started).0) due.chosen
    ∙ status_at-submit c job_id due.decision started (with_status dispatching j) row refl

-- What becomes of a dispatch, on the job that it finds.
abbrev pub IsDispatched :
    ℕ
    → Option User
    → Cluster
    → String
    → System
    → Job
    → System × List Call × Result DispatchError (Unit {0})
    → Type 0
IsDispatched now user c job_id s j p =
    ((¬ IsDispatchable now job_id j user) × (e : DispatchError) × (p ≡ (s, [], err e)))
    ⊎ (IsDispatchable now job_id j user
        × HasEnded c (is_some (lookup job_id s.executions)) (status_at job_id p.0)
        × HasAsked c job_id p.1)

checked_lem :
    (now : ℕ) (user : Option User) (c : Cluster) (job_id : String) (s : System) (j : Job)
    → lookup job_id s.jobs ≡ some j
    → (r : Result DispatchError (Unit {0})) → validate_job_for_dispatch now job_id j user ≡ r
    → IsDispatched now user c job_id s j (dispatch_checked c job_id j s r)
checked_lem now user c job_id s j there (err e) valid = inl (
  λ can.
      let k : ◌≡◌ {A = Result DispatchError (Unit {0})} (err e) (ok tt) =
        sym valid ∙ IsDispatchable-validate now job_id j user can in
      absurd cc,
  e,
  refl,
)
checked_lem now user c job_id s j there (ok u) valid =
    let can = validate-IsDispatchable now job_id j user valid in
    inr (
      can,
      subst (HasEnded c (is_some (lookup job_id s.executions)))
          (sym (checked_ok now c job_id s j there can.timely))
          (ended c (is_some (lookup job_id s.executions))),
      asked c.read c.create job_id,
    )

pub dispatch_job-final :
    (now : ℕ) (user : Option User) (c : Cluster) (job_id : String) (s : System) (j : Job)
    → lookup job_id s.jobs ≡ some j
    → validate_job_for_dispatch now job_id j user ≡ ok tt
    → status_at job_id (dispatch_job now user c job_id s).0 ≡ some (final_status c job_id s)
unfolding dispatch_job
dispatch_job-final now user c job_id s j there valid =
    let can = validate-IsDispatchable now job_id j user valid in
    rw (there, valid) (checked_ok now c job_id s j there can.timely)

-- A job that passes the checks, has no execution, and is taken by the cluster, is QUEUED.
pub dispatch_job-queued :
    (now : ℕ) (user : Option User) (c : Cluster) (job_id : String) (s : System) (j : Job)
    → lookup job_id s.jobs ≡ some j
    → validate_job_for_dispatch now job_id j user ≡ ok tt
    → is_some (lookup job_id s.executions) ≡ false
    → submitted_by c ≡ true
    → status_at job_id (dispatch_job now user c job_id s).0 ≡ some queued
dispatch_job-queued now user c job_id s j there valid fresh taken =
    let final : final_status c job_id s ≡ queued = rw (taken, fresh) refl in
    dispatch_job-final now user c job_id s j there valid ∙ ap some final

-- A dispatch of a job requires that there is no user or the user may dispatch the job, companies
-- being compared where both have one; that the job's status is one of six; and that it has a decision
-- of its own whose start has come. Where that does not hold, the dispatch changes nothing, asks
-- Kubernetes nothing and fails. Where it holds, the job is read and, where it is not found, created
-- there; and it ends QUEUED where the cluster takes it (or is unreachable), DISPATCHING where it had
-- an execution already, and FAILED where the cluster refuses it.
pub dispatch_job_lem :
    (now : ℕ) (user : Option User) (c : Cluster) (job_id : String) (s : System) (j : Job)
    → lookup job_id s.jobs ≡ some j
    → IsDispatched now user c job_id s j (dispatch_job now user c job_id s)
unfolding dispatch_job
dispatch_job_lem now user c job_id s j there =
    rw there
      (checked_lem now user c job_id s j there (validate_job_for_dispatch now job_id j user) refl)
