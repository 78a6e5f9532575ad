-- ===== src/Dispatch/Lifecycle.antt =====
-- What the loop of app/dispatch/service.py and requests to dispatch can do, in any order, to a job
-- that may not be dispatched.
use mathlib.Core.Bool.{true≢false}
use text.Mathlib.TextEquality.{eq_iff}
use green_shift.Approval.{
  JobStatus, User, submitted, validated, pending_approval, rejected, declined, cancelled,
}
use green_shift.Dispatch.{Job}
use green_shift.Dispatch.Dispatcher.{System, Cluster, set_job, check_status, dispatch_job}
use green_shift.Dispatch.Refresh.{StatusAnswer, refresh_found, refresh_job_status}
use green_shift.Dispatch.Gate.{dispatch_job_lem}
use green_shift.Dispatch.Required.{check_status_iff}
use green_shift.Dispatch.Rows.{
  IsSameAt, IsSameAt-trans, dispatch_job-IsSameAt, lookup-set_job_other,
}
use green_shift.Dispatch.Keys.{
  refreshed_unless-both, set_job-IsKeyed, dispatch_job-IsKeyed, dispatch_loop_tick-IsKeyed,
}
use green_shift.Dispatch.Stuck.{dispatch_stage-IsSameAt, refresh_found-IsSameAt}
use green_shift.Dispatch.Tick.{
  dispatch_stage, get_active_executions, refresh_each, dispatch_loop_tick,
}
use green_shift.Prelude.Dict.{lookup, IsKeyed, string_eq}
use green_shift.Prelude.Result.{ok}
use green_shift.Prelude.{
  ℕ, ◌≡◌, refl, sym, ap, subst, ◌∙◌, Bool, true, false, String, Option, none, some, List, [], ◌∷◌,
  str_eq, arith, Bool-cases, inl, inr,
}

-- A step of the program that is not a decision on the job `id`: a tick of any worker's loop, a
-- request to dispatch any job, or whatever else changes the row of another job.
pub data Step (id : String) : System → System → Type 0 where
  tick :
      {s : System} (worker : String) (locked : List String) (now : ℕ) (clusters : String → Cluster)
      (answers : String → StatusAnswer)
      → Step id s (dispatch_loop_tick worker locked now clusters answers s).0
  request :
      {s : System} (now : ℕ) (user : Option User) (c : Cluster) (job_id : String)
      → Step id s (dispatch_job now user c job_id s).0
  elsewhere :
      {s : System} (k : String) (f : Job → Job) → str_eq id k ≡ false → Step id s (set_job k f s)

pub data Steps (id : String) : System → System → Type 0 where
  done : {s : System} → Steps id s s
  next : {s t u : System} → Step id s t → Steps id t u → Steps id s u

abbrev pub is_held : JobStatus → Bool
is_held submitted = true
is_held validated = true
is_held pending_approval = true
is_held rejected = true
is_held declined = true
is_held cancelled = true
is_held _ = false

abbrev pub IsIdle : String → Job → System → Type 0
IsIdle id j s = (lookup id s.jobs ≡ some j) × (lookup id s.executions ≡ none)

not_dispatchable :
    (status : JobStatus) → is_held status ≡ true → check_status status ≡ ok tt → true ≡ false
not_dispatchable status waits allowed = ground arith

idle_request :
    (now : ℕ) (user : Option User) (c : Cluster) (job_id id : String) (s : System) (j : Job)
    → is_held j.status ≡ true
    → lookup id s.jobs ≡ some j
    → IsSameAt id s (dispatch_job now user c job_id s).0
idle_request now user c job_id id s j waits there = elim (Bool-cases (str_eq id job_id)) [
  | inr apart ↦ dispatch_job-IsSameAt now user c job_id id s apart
  | inl same ↦
      let e = (eq_iff id job_id).0 same in
      elim (dispatch_job_lem now user c job_id s j (ap (λ k. lookup k s.jobs) (sym e) ∙ there)) [
        | inl h ↦ rw h.2 (refl, refl)
        | inr h ↦ absurd (
            true≢false
              (not_dispatchable j.status waits ((check_status_iff j.status).1 h.0.in_status)))
      ]
]

-- Without an execution there is nothing to refresh.
idle_refresh :
    (now : ℕ) (answers : String → StatusAnswer) (ids : List String) (id : String) (s : System)
    → lookup id s.executions ≡ none
    → IsSameAt id s (refresh_each now answers ids s)
unfolding refresh_each refresh_job_status
idle_refresh now answers [] id s none_yet = (refl, refl)
idle_refresh now answers (i ∷ ids) id s none_yet =
    let t = refresh_job_status now (answers i) i s in
    let same : IsSameAt id s t = elim (Bool-cases (str_eq id i)) [
      | inr apart ↦ refresh_found-IsSameAt now (answers i) i id s (lookup i s.executions) apart
      | inl own ↦
          let e = ap (λ k. lookup k s.executions) (sym ((eq_iff id i).0 own)) ∙ none_yet in
          subst (λ o. IsSameAt id s (refresh_found now (answers i) i s o)) (sym e) (refl, refl)
    ] in
    IsSameAt-trans id s t (refresh_each now answers ids t) same
      (idle_refresh now answers ids id t (same.1 ∙ none_yet))

idle_tick :
    (worker : String) (locked : List String) (now : ℕ) (clusters : String → Cluster)
    (answers : String → StatusAnswer) (id : String) (s : System) (j : Job)
    → IsKeyed s.jobs
    → is_held j.status ≡ true
    → IsIdle id j s
    → IsSameAt id s (dispatch_loop_tick worker locked now clusters answers s).0
unfolding dispatch_loop_tick
idle_tick worker locked now clusters answers id s j keyed waits idle =
    let (t, calls, broken) = dispatch_stage worker locked now clusters s in
    let same =
      dispatch_stage-IsSameAt worker locked now clusters s id j keyed idle.0 (ground (arith, waits))
        (ground (arith, waits)) (ground (arith, waits)) in
    let refreshed = refresh_each now answers (get_active_executions t) t in
    refreshed_unless-both (IsSameAt id s) broken t calls refreshed same (
      IsSameAt-trans id s t refreshed same
        (idle_refresh now answers (get_active_executions t) id t (same.1 ∙ idle.1)))

Step-IsSameAt :
    (id : String) (s t : System) (j : Job)
    → Step id s t
    → IsKeyed s.jobs
    → is_held j.status ≡ true
    → IsIdle id j s
    → IsSameAt id s t × IsKeyed t.jobs
Step-IsSameAt id s _ j (tick worker locked now clusters answers) keyed waits idle = (
  idle_tick worker locked now clusters answers id s j keyed waits idle,
  dispatch_loop_tick-IsKeyed worker locked now clusters answers s keyed,
)
Step-IsSameAt id s _ j (request now user c job_id) keyed waits idle = (
  idle_request now user c job_id id s j waits idle.0,
  dispatch_job-IsKeyed now user c job_id s keyed,
)
Step-IsSameAt id s _ j (elsewhere k f apart) keyed waits idle =
    ((lookup-set_job_other k id f s apart, refl), set_job-IsKeyed k f s keyed)

-- A job that is SUBMITTED, VALIDATED, PENDING_APPROVAL, REJECTED, DECLINED or CANCELLED and has no
-- execution is left as it is, and without an execution, by any sequence of ticks of any workers,
-- requests of any users to dispatch any jobs, and changes of other jobs, where the ids of the jobs
-- are unique.
pub Steps-IsIdle :
    (id : String) (s t : System) (j : Job)
    → Steps id s t
    → IsKeyed s.jobs
    → is_held j.status ≡ true
    → IsIdle id j s
    → IsIdle id j t
Steps-IsIdle id s _ j done keyed waits idle = idle
Steps-IsIdle id s u j (next {t = t} first rest) keyed waits idle =
    let (same, still) = Step-IsSameAt id s t j first keyed waits idle in
    Steps-IsIdle id t u j rest still waits (same.0 ∙ idle.0, same.1 ∙ idle.1)
