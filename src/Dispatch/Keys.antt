-- ===== src/Dispatch/Keys.antt =====
-- The ids of the jobs stay unique in app/dispatch.
use green_shift.Approval.{ready, User, failed, queued, dispatching}
use green_shift.Dispatch.{
  Job, Jobs, Decision, holds, is_expired, is_due, unclaimed, claimed, ids_of, claim_ready_jobs,
  recover_expired_claims, promote_scheduled_to_ready,
}
use green_shift.Dispatch.Claims.{batch}
use green_shift.Dispatch.Dispatcher.{
  Execution, System, Cluster, DispatchError, Call, set_job, dispatch_job, dispatch_found,
  dispatch_checked, submit, record_execution, mark_job_failed, submitted_by, with_status,
  validate_job_for_dispatch,
}
use green_shift.Dispatch.Refresh.{
  StatusAnswer, pods, missing, failing, refresh_found, refresh_job_status, sim_status, same_status,
}
use green_shift.Dispatch.Tick.{
  dispatch_stage, dispatch_each, get_active_executions, refresh_each, dispatch_loop_tick, prepared,
  claim_batch_size, go_on, refreshed_unless, breaks_session,
}
use green_shift.Prelude.Dict.{lookup, adjust-IsKeyed, IsKeyed, string_eq}
use green_shift.Prelude.Result.{Result, ok, err}
use green_shift.Prelude.{
  ℕ, Bool, true, false, String, Option, none, some, List, [], ◌∷◌, if◌then◌else◌, str_eq, is_some,
  Bool-cases, inl, inr,
}

-- Every step keeps the ids of the jobs unique.
pub set_job-IsKeyed :
    (id : String) (f : Job → Job) (s : System) → IsKeyed s.jobs → IsKeyed (set_job id f s).jobs
set_job-IsKeyed id f s = adjust-IsKeyed (λ k j. if str_eq k id then f j else j) s.jobs

submit-IsKeyed :
    (c : Cluster) (id : String) (d : Option Decision) (s : System)
    → IsKeyed s.jobs
    → IsKeyed (submit c id d s).0.jobs
unfolding record_execution mark_job_failed
submit-IsKeyed c id none s keyed = keyed
submit-IsKeyed c id (some d) s keyed = elim (Bool-cases (submitted_by c)) [
  | inr refused ↦ rw refused (set_job-IsKeyed id (unclaimed failed) s keyed)
  | inl taken ↦ elim (Bool-cases (is_some (lookup id s.executions))) [
    | inl again ↦ rw (taken, again) keyed
    | inr fresh ↦ rw (taken, fresh) (set_job-IsKeyed id (unclaimed queued) s keyed)
  ]
]

checked-IsKeyed :
    (c : Cluster) (id : String) (j : Job) (s : System) (r : Result DispatchError (Unit {0}))
    → IsKeyed s.jobs
    → IsKeyed (dispatch_checked c id j s r).0.jobs
checked-IsKeyed c id j s (err e) keyed = keyed
checked-IsKeyed c id j s (ok u) keyed =
    submit-IsKeyed c id j.schedule_decision (set_job id (with_status dispatching) s)
      (set_job-IsKeyed id (with_status dispatching) s keyed)

found-IsKeyed :
    (now : ℕ) (user : Option User) (c : Cluster) (id : String) (s : System) (o : Option Job)
    → IsKeyed s.jobs
    → IsKeyed (dispatch_found now user c id s o).0.jobs
found-IsKeyed now user c id s none keyed = keyed
found-IsKeyed now user c id s (some j) keyed =
    checked-IsKeyed c id j s (validate_job_for_dispatch now id j user) keyed

pub dispatch_job-IsKeyed :
    (now : ℕ) (user : Option User) (c : Cluster) (id : String) (s : System)
    → IsKeyed s.jobs
    → IsKeyed (dispatch_job now user c id s).0.jobs
unfolding dispatch_job
dispatch_job-IsKeyed now user c id s keyed = found-IsKeyed now user c id s (lookup id s.jobs) keyed

-- What holds of both outcomes holds whether the session breaks or not.
pub go_on-both :
    (P : System → Type 0) (b : Bool) (t : System) (calls : List Call)
    (u : System × List Call × Bool)
    → P t
    → P u.0
    → P (go_on b t calls u).0
go_on-both P true t calls u first rest = first
go_on-both P false t calls u first rest = rest

pub refreshed_unless-both :
    (P : System → Type 0) (b : Bool) (t : System) (calls : List Call) (u : System)
    → P t
    → P u
    → P (refreshed_unless b t calls u).0
refreshed_unless-both P true t calls u first rest = first
refreshed_unless-both P false t calls u first rest = rest

dispatch_each-IsKeyed :
    (now : ℕ) (clusters : String → Cluster) (ids : List String) (s : System)
    → IsKeyed s.jobs
    → IsKeyed (dispatch_each now clusters ids s).0.jobs
unfolding dispatch_each
dispatch_each-IsKeyed now clusters [] s keyed = keyed
dispatch_each-IsKeyed now clusters (i ∷ ids) s keyed =
    let (t, calls, outcome) = dispatch_job now none (clusters i) i s in
    let still = dispatch_job-IsKeyed now none (clusters i) i s keyed in
    go_on-both (λ u. IsKeyed u.jobs) (breaks_session outcome) t calls
      (dispatch_each now clusters ids t) still (dispatch_each-IsKeyed now clusters ids t still)

refresh_found-IsKeyed :
    (now : ℕ) (answer : StatusAnswer) (id : String) (s : System) (o : Option Execution)
    → IsKeyed s.jobs
    → IsKeyed (refresh_found now answer id s o).jobs
refresh_found-IsKeyed now answer id s none keyed = keyed
refresh_found-IsKeyed now (pods m n k) id s (some x) keyed = set_job-IsKeyed id _ s keyed
refresh_found-IsKeyed now missing id s (some x) keyed =
    set_job-IsKeyed id (with_status failed) s keyed
refresh_found-IsKeyed now (failing connection) id s (some x) keyed =
    let moved = set_job-IsKeyed id (with_status (sim_status now x)) s keyed in
    elim (Bool-cases connection) [
      | inr other ↦ rw other keyed
      | inl lost ↦ elim (Bool-cases (same_status (sim_status now x) x.gs_status)) [
        | inl same ↦ rw (lost, same) keyed
        | inr new ↦ rw (lost, new) moved
      ]
    ]

refresh_each-IsKeyed :
    (now : ℕ) (answers : String → StatusAnswer) (ids : List String) (s : System)
    → IsKeyed s.jobs
    → IsKeyed (refresh_each now answers ids s).jobs
unfolding refresh_each refresh_job_status
refresh_each-IsKeyed now answers [] s keyed = keyed
refresh_each-IsKeyed now answers (i ∷ ids) s keyed =
    refresh_each-IsKeyed now answers ids (refresh_job_status now (answers i) i s)
      (refresh_found-IsKeyed now (answers i) i s (lookup i s.executions) keyed)

pub prepared-IsKeyed : (now : ℕ) (s : System) → IsKeyed s.jobs → IsKeyed (prepared now s).jobs
unfolding recover_expired_claims promote_scheduled_to_ready
prepared-IsKeyed now s keyed =
    adjust-IsKeyed (λ i k. if is_due now k then record k { status = ready } else k)
      (recover_expired_claims now s.jobs)
      (adjust-IsKeyed (λ i k. if is_expired now k then unclaimed ready k else k) s.jobs keyed)

claim_ready_jobs-IsKeyed :
    (worker : String) (locked : List String) (batch_size now : ℕ) (jobs : Jobs)
    → IsKeyed jobs
    → IsKeyed (claim_ready_jobs worker locked batch_size now jobs).0
unfolding claim_ready_jobs
claim_ready_jobs-IsKeyed worker locked batch_size now jobs =
    adjust-IsKeyed
      (λ id j.
        if holds (ids_of (batch worker locked batch_size now jobs)) id
        then claimed worker now j
        else j)
      jobs

pub dispatch_loop_tick-IsKeyed :
    (worker : String) (locked : List String) (now : ℕ) (clusters : String → Cluster)
    (answers : String → StatusAnswer) (s : System)
    → IsKeyed s.jobs
    → IsKeyed (dispatch_loop_tick worker locked now clusters answers s).0.jobs
unfolding dispatch_loop_tick dispatch_stage
dispatch_loop_tick-IsKeyed worker locked now clusters answers s keyed =
    let (t, calls, broken) = dispatch_stage worker locked now clusters s in
    let jobs = (prepared now s).jobs in
    let still =
      dispatch_each-IsKeyed now clusters
        (ids_of (claim_ready_jobs worker locked claim_batch_size now jobs).1)
        (record s { jobs = (claim_ready_jobs worker locked claim_batch_size now jobs).0 })
        (claim_ready_jobs-IsKeyed worker locked claim_batch_size now jobs
          (prepared-IsKeyed now s keyed)) in
    refreshed_unless-both (λ u. IsKeyed u.jobs) broken t calls
      (refresh_each now answers (get_active_executions t) t) still
      (refresh_each-IsKeyed now answers (get_active_executions t) t still)
