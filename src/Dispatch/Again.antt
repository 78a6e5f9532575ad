-- ===== src/Dispatch/Again.antt =====
-- A job of a batch that has an execution already, in the loop of app/dispatch/service.py.
use green_shift.Approval.{dispatching}
use green_shift.Dispatch.{Job, Decision}
use green_shift.Dispatch.Dispatcher.{
  submit, submitted_by, record_execution, duplicate_execution, dispatch_job,
  validate_job_for_dispatch, Call, System, Cluster, set_job, with_status,
}
use green_shift.Dispatch.Gate.{status_at, final_status, dispatch_job-final}
use green_shift.Dispatch.Required.{validate-IsDispatchable}
use green_shift.Dispatch.Rows.{IsSameAt, dispatch_job-IsSameAt}
use green_shift.Dispatch.Tick.{dispatch_each, go_on, breaks_session}
use green_shift.Prelude.Dict.{lookup, string_eq}
use green_shift.Prelude.Result.{ok, err}
use green_shift.Prelude.{
  is_some, ℕ, ◌≡◌, refl, ap, ◌∙◌, Bool, true, false, String, none, some, List, ◌∷◌, str_eq,
}

-- A second execution of a job is not recorded.
submit_again :
    (c : Cluster) (id : String) (d : Decision) (s : System)
    → is_some (lookup id s.executions) ≡ true
    → submitted_by c ≡ true
    → (submit c id (some d) s).1 ≡ err duplicate_execution
unfolding record_execution
submit_again c id d s again taken = rw (taken, again) refl

dispatch_again :
    (now : ℕ) (c : Cluster) (id : String) (s : System) (j : Job)
    → lookup id s.jobs ≡ some j
    → validate_job_for_dispatch now id j none ≡ ok tt
    → is_some (lookup id s.executions) ≡ true
    → submitted_by c ≡ true
    → (dispatch_job now none c id s).2 ≡ err duplicate_execution
unfolding dispatch_job
dispatch_again now c id s j there valid again taken =
    let due = (validate-IsDispatchable now id j none valid).timely in
    let started = set_job id (with_status dispatching) s in
    rw (there, valid)
      (ap (λ o. (submit c id o started).1) due.chosen
        ∙ submit_again c id due.decision started again taken)

each_again :
    (id : String) (b : Bool) (t : System) (calls : List Call) (u : System × List Call × Bool)
    → b ≡ true
    → go_on b t calls u ≡ (t, calls, true)
each_again id true t calls u h = refl
each_again id false t calls u h = cc

-- Where a job of a batch passes the checks, has an execution already and the cluster takes it, its
-- dispatch leaves it DISPATCHING and ends the tick: no job of the rest of the batch is changed.
pub dispatch_each-again :
    (now : ℕ) (clusters : String → Cluster) (ids : List String) (id : String) (s : System) (j : Job)
    → lookup id s.jobs ≡ some j
    → validate_job_for_dispatch now id j none ≡ ok tt
    → is_some (lookup id s.executions) ≡ true
    → submitted_by (clusters id) ≡ true
    → (let (t, calls, broken) = dispatch_each now clusters (id ∷ ids) s in
        (status_at id t ≡ some dispatching)
        × ((k : String) → str_eq k id ≡ false → IsSameAt k s t)
        × (broken ≡ true))
unfolding dispatch_each
dispatch_each-again now clusters ids id s j there valid again taken =
    let (t, calls, outcome) = dispatch_job now none (clusters id) id s in
    let final : final_status (clusters id) id s ≡ dispatching = rw (taken, again) refl in
    rw
      (each_again id (breaks_session outcome) t calls (dispatch_each now clusters ids t)
        (ap breaks_session (dispatch_again now (clusters id) id s j there valid again taken)))
      (
        dispatch_job-final now none (clusters id) id s j there valid ∙ ap some final,
        λ k apart. dispatch_job-IsSameAt now none (clusters id) id k s apart,
        refl,
      )
