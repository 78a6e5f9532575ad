-- ===== src/Dispatch/Cancelled.antt =====
-- app/api/routers/ingest.py: what becomes of a workload that is cancelled, in app/dispatch.
use green_shift.Approval.{JobStatus, cancelled}
use green_shift.Access
use green_shift.Access.{AccessError, checked_job, get_tenant_job}
use green_shift.Dispatch.{Job, Jobs}
use green_shift.Dispatch.Dispatcher.{Execution, System, set_job, with_status}
use green_shift.Dispatch.Cancel.{
  row_of, rows, visible, check_member, check_open, is_terminal, commit_cancel, cancel_workload,
}
use green_shift.Dispatch.Keys.{set_job-IsKeyed}
use green_shift.Dispatch.Lifecycle.{Steps, IsIdle, Steps-IsIdle}
use green_shift.Dispatch.Rows.{lookup-set_job}
use green_shift.Prelude.Dict.{lookup, applied, IsKeyed, string_eq}
use green_shift.Prelude.Result.{Result, ok, err, >>=-eq-ok, ok-injective, >>-eq-ok, ◌>>◌}
use green_shift.Prelude.{
  ◌≡◌, refl, sym, ap, subst, ◌∙◌, false, String, Option, none, some, [], ◌∷◌, str_eq, Bool-cases,
  some-injective, inl, inr, arith,
}

abbrev row : Option Job → Option Access.Job
row none = none
row (some j) = some (row_of j)

lookup-rows : (job_id : String) (jobs : Jobs) → lookup job_id (rows jobs) ≡ row (lookup job_id jobs)
unfolding lookup
lookup-rows job_id [] = refl
lookup-rows job_id ((k, j) ∷ jobs) = elim (Bool-cases (str_eq job_id k)) [
  | inl own ↦ rw own refl
  | inr apart ↦ rw apart (lookup-rows job_id jobs)
]

-- A commit that succeeds found no execution.
commit_cancel_lem :
    (job_id : String) (x : Option Execution) (s t : System)
    → commit_cancel job_id x s ≡ ok t
    → (x ≡ none) × (set_job job_id (with_status cancelled) s ≡ t)
commit_cancel_lem job_id none s t e = (refl, ok-injective e)
commit_cancel_lem job_id (some x) s t e = absurd cc

-- A job that the user can read is the one of the table.
checked_job_lem :
    (u : Access.User) (o : Option Access.Job) (r : Access.Job)
    → checked_job (some u) o ≡ ok r
    → o ≡ some r
checked_job_lem u none r e = absurd cc
checked_job_lem u (some j) r e = ground (arith, e)

visible_lem :
    (found : Result AccessError Access.Job) (r : Access.Job) → visible found ≡ ok r → found ≡ ok r
visible_lem (ok j) r e = ap ok (ok-injective e)
visible_lem (err a) r e = absurd cc

row_lem :
    (o : Option Job) (r : Access.Job)
    → row o ≡ some r
    → (j : Job) × (o ≡ some j) × (j.status ≡ r.status)
row_lem none r e = absurd cc
row_lem (some j) r e = (j, refl, ap (λ x. x.status) (some-injective e))

check_open_lem : (status : JobStatus) → check_open status ≡ ok tt → is_terminal status ≡ false
check_open_lem status e = ground (arith, e)

-- A cancellation that succeeds is of a job that was neither COMPLETED, FAILED nor CANCELLED and had
-- no execution. The job is then CANCELLED and otherwise as it was, and stays so, without an execution,
-- whatever ticks of any workers, requests of any users to dispatch any jobs, and changes of other jobs
-- follow, where the ids of the jobs are unique.
pub cancel_workload-Steps :
    (u : Access.User) (job_id : String) (s t v : System)
    → IsKeyed s.jobs
    → cancel_workload u job_id s ≡ ok t
    → Steps job_id t v
    → (j : Job) × (lookup job_id s.jobs ≡ some j)
      × (lookup job_id s.executions ≡ none)
      × (is_terminal j.status ≡ false)
      × IsIdle job_id (with_status cancelled j) v
unfolding cancel_workload get_tenant_job
cancel_workload-Steps u job_id s t v keyed done_ok later =
    let (r, seen, rest) = >>=-eq-ok _ _ done_ok in
    let commit = commit_cancel job_id (lookup job_id s.executions) s in
    let (is_member, after_role) = >>-eq-ok (check_member u) (check_open r.status >> commit) rest in
    let (is_open, commits) = >>-eq-ok (check_open r.status) commit after_role in
    let (j, there, same) = row_lem (lookup job_id s.jobs) r (
      sym (lookup-rows job_id s.jobs)
      ∙ checked_job_lem u (lookup job_id (rows s.jobs)) r (visible_lem _ r seen)) in
    let (none_yet, after) = commit_cancel_lem job_id (lookup job_id s.executions) s t commits in
    let changed = set_job job_id (with_status cancelled) s in
    (
      j,
      there,
      none_yet,
      ap is_terminal same ∙ check_open_lem r.status is_open,
      subst (λ x. Steps job_id x v → IsIdle job_id (with_status cancelled j) v) after
          (λ steps.
            Steps-IsIdle job_id changed v (with_status cancelled j) steps
              (set_job-IsKeyed job_id (with_status cancelled) s keyed) refl
              (
                lookup-set_job job_id (with_status cancelled) s
                    ∙ ap (applied (with_status cancelled)) there,
                none_yet,
              ))
          later,
    )
