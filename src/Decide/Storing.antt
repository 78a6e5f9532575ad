-- ===== src/Decide/Storing.antt =====
-- What one round of app/decide/service.py writes, row by row.
use green_shift.Approval.{JobStatus, failed, approved, pending_approval}
use green_shift.Decide.{
  Job, StoredDecision, Store, DecideError, passed_on, fetched, raised_by, run_scheduler,
  next_status, same_status, with_status, set_status, store_decision, plan, schedule_and_store,
  is_new, after_round,
}
use green_shift.Prelude.Dict.{
  lookup, insert, applied, applied_same, lookup-insert, lookup-adjust, string_eq,
}
use green_shift.Prelude.Result.{Result, ok, err, ◌>>=◌, >>=-eq-ok, ok-injective}
use green_shift.Prelude.{
  ℕ, ◌≡◌, refl, ap, subst, ◌∙◌, Bool, true, false, not, String, Option, none, some, if◌then◌else◌,
  str_eq, Bool-cases, inl, inr, arith,
}
use green_shift.Schedule.Choice.{ScheduleError, ScheduleDecision}
use green_shift.Schedule.Evaluation.{Environment}
use green_shift.Schedule.Sound.{IsAllowed, execute_schedule_job-IsAllowed}
use green_shift.Settings.Ranking.{as_value}
use green_shift.Settings.{Table, resolve_effective_policy}

-- The row of `k`, where `job_id` gets the new status.
abbrev pub row_after : String → String → JobStatus → Option Job → Option Job
row_after k job_id status o = if str_eq k job_id then applied (with_status status) o else o

pub set_status_lem :
    (job_id k : String) (seen status : JobStatus) (s : Store)
    → same_status seen status ≡ false
    → lookup k (set_status job_id seen status s).jobs ≡ row_after k job_id status (lookup k s.jobs)
set_status_lem job_id k seen status s differs = rw differs (
    lookup-adjust (λ id j. if str_eq id job_id then with_status status j else j) k s.jobs
    ∙ (elim (Bool-cases (str_eq k job_id)) [
      | inl own ↦ rw own refl
      | inr apart ↦ rw apart (applied_same (lookup k s.jobs))
    ]))

new_differs :
    (seen : JobStatus) (deferrable : Option Bool)
    → is_new seen ≡ true
    → (same_status seen (next_status deferrable) ≡ false) × (same_status seen failed ≡ false)
new_differs seen deferrable new = ground (arith, new)

-- A plan comes with the curves, and satisfies every hard constraint.
pub plan-IsAllowed :
    (fetch : Job → Option Environment) (policies : Table) (j : Job) (d : ScheduleDecision)
    → plan fetch policies j ≡ ok d
    → (env : Environment) × (fetch j ≡ some env) × IsAllowed env (passed_on j) d.selected
plan-IsAllowed fetch policies j d planned =
    let (env, got, runs) =
      >>=-eq-ok (fetched (fetch j)) (λ env. run_scheduler policies env j) planned in
    let (policy, pct) = resolve_effective_policy policies j.tenant_id in
    (
      env,
      fetched_lem (fetch j) env got,
      execute_schedule_job-IsAllowed env (passed_on j) (some policy) (as_value pct) d
          (raised_by_lem _ d runs),
    )
  where
    fetched_lem : (o : Option Environment) (env : Environment) → fetched o ≡ ok env → o ≡ some env
    fetched_lem none env h = absurd cc
    fetched_lem (some e) env h = ap some (ok-injective h)

    raised_by_lem :
        (r : Result ScheduleError ScheduleDecision) (d : ScheduleDecision)
        → raised_by r ≡ ok d
        → r ≡ ok d
    raised_by_lem (ok e) d h = ap ok (ok-injective h)
    raised_by_lem (err e) d h = absurd cc

-- Only a job that is said not to be deferrable is approved at once.
abbrev pub is_fixed : Option Bool → Bool
is_fixed none = false
is_fixed (some deferrable) = not deferrable

abbrev pub status_of_plan : Job → JobStatus
status_of_plan j = if is_fixed j.work.deferrable then approved else pending_approval

next_status_lem : (j : Job) → next_status j.work.deferrable ≡ status_of_plan j
next_status_lem j = ground arith

abbrev pub status_after : Job → Result DecideError ScheduleDecision → JobStatus
status_after j (ok d) = status_of_plan j
status_after j (err e) = failed

abbrev pub decision_after :
    ℕ → Result DecideError ScheduleDecision → Option StoredDecision → Option StoredDecision
decision_after now (ok d) old = some (record { decision = d; created_at = now })
decision_after now (err e) old = old

abbrev pub decision_at :
    String
    → String
    → ℕ
    → Result DecideError ScheduleDecision
    → Option StoredDecision
    → Option StoredDecision
decision_at k job_id now r old = if str_eq k job_id then decision_after now r old else old

-- What a round leaves at the row of `k`, with the outcome `r` of the plan.
abbrev pub IsRound :
    ℕ → String → Job → Result DecideError ScheduleDecision → Store → Store → String → Type 0
IsRound now job_id seen r s t k =
    (lookup k t.jobs ≡ row_after k job_id (status_after seen r) (lookup k s.jobs))
    × (lookup k t.decisions ≡ decision_at k job_id now r (lookup k s.decisions))

store_decision-IsRound :
    (now : ℕ) (job_id : String) (seen : Job) (d : ScheduleDecision) (s : Store) (k : String)
    → is_new seen.status ≡ true
    → IsRound now job_id seen (ok d) s (store_decision now job_id seen d s) k
store_decision-IsRound now job_id seen d s k new =
    let stored = insert job_id (record { decision = d; created_at = now }) s.decisions in
    (
      subst
          (λ status.
            lookup k
              (set_status job_id seen.status (next_status seen.work.deferrable)
                (record s { decisions = stored })).jobs
            ≡ row_after k job_id status (lookup k s.jobs))
          (next_status_lem seen)
          (set_status_lem job_id k seen.status (next_status seen.work.deferrable)
            (record s { decisions = stored }) (new_differs seen.status seen.work.deferrable new).0),
      lookup-insert job_id k (record { decision = d; created_at = now }) s.decisions,
    )

of_outcome :
    (now : ℕ) (job_id : String) (seen : Job) (r : Result DecideError ScheduleDecision) (s : Store)
    (k : String)
    → is_new seen.status ≡ true
    → IsRound now job_id seen r s
        (after_round job_id seen s (r >>= λ d. ok (store_decision now job_id seen d s, d))).0
        k
of_outcome now job_id seen (ok d) s k new = store_decision-IsRound now job_id seen d s k new
of_outcome now job_id seen (err e) s k new = (
  set_status_lem job_id k seen.status failed s (new_differs seen.status none new).1,
  ground arith,
)

pub after_round-IsRound :
    (fetch : Job → Option Environment) (now : ℕ) (job_id : String) (seen : Job) (s : Store)
    (k : String)
    → is_new seen.status ≡ true
    → IsRound now job_id seen
        (plan fetch s.policies seen)
        s
        (after_round job_id seen s (schedule_and_store fetch now job_id seen s)).0
        k
unfolding schedule_and_store
after_round-IsRound fetch now job_id seen s k new =
    of_outcome now job_id seen (plan fetch s.policies seen) s k new

-- The decision `d` is allowed and stored, and the row of the job has the status that follows.
abbrev pub IsStored :
    (Job → Option Environment)
    → ℕ
    → String
    → Job
    → Store
    → String
    → Store × ScheduleDecision
    → Type 0
IsStored fetch now job_id seen s k (t, d) =
    ((env : Environment) × (fetch seen ≡ some env) × IsAllowed env (passed_on seen) d.selected)
    × (lookup k t.jobs ≡ (
        if str_eq k job_id
        then applied (with_status (status_of_plan seen)) (lookup k s.jobs)
        else lookup k s.jobs))
    × (lookup k t.decisions ≡ (
        if str_eq k job_id
        then some (record { decision = d; created_at = now })
        else lookup k s.decisions))

-- Where a job that is SUBMITTED or VALIDATED when it is read is scheduled, its curves could be had,
-- and the decision satisfies every hard constraint for the job without its GPU request. Then the
-- decision is the stored one, the job's row becomes APPROVED if it is not deferrable and
-- PENDING_APPROVAL otherwise, whatever its status is by then, and no other row is changed.
pub schedule_and_store_lem :
    (fetch : Job → Option Environment) (now : ℕ) (job_id : String) (seen : Job) (s : Store)
    (r : Store × ScheduleDecision) (k : String)
    → is_new seen.status ≡ true
    → schedule_and_store fetch now job_id seen s ≡ ok r
    → IsStored fetch now job_id seen s k r
unfolding schedule_and_store
schedule_and_store_lem fetch now job_id seen s r k new done =
    let (found, planned, written) =
      >>=-eq-ok (plan fetch s.policies seen) (λ d. ok (store_decision now job_id seen d s, d))
        done in
    let round = store_decision-IsRound now job_id seen found s k new in
    subst (IsStored fetch now job_id seen s k) (ok-injective written)
      (plan-IsAllowed fetch s.policies seen found planned, round.0, round.1)
