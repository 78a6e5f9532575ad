-- ===== src/Dispatch/Loop.antt =====
-- What a tick of the loop of app/dispatch/service.py does to a job whose time has come.
use text.Mathlib.TextEquality.{eq_iff}
use green_shift.Approval.{JobStatus, ready, queued}
use green_shift.Dispatch.{
  Job, Jobs, Decision, holds, is_claimable, is_ready, is_claiming, is_promotable, is_expired,
  is_due, has_started, unclaimed, claimed, ids_of, claim_ready_jobs, recover_expired_claims,
  promote_scheduled_to_ready,
}
use green_shift.Dispatch.Claims.{batch, after, to_batch, lookup-taken, held_of_room, tally-batch}
use green_shift.Dispatch.Dispatcher.{System, Cluster, validate_job_for_dispatch, submitted_by}
use green_shift.Dispatch.Gate.{status_at}
use green_shift.Dispatch.Required.{IsDue}
use green_shift.Dispatch.Tick.{claim_batch_size, prepared, dispatch_stage}
use green_shift.Prelude.Dict.{
  lookup, All-adjust, lookup-adjust, tally-adjust, All-lookup, string_eq,
}
use green_shift.Prelude.Result.{ok}
use green_shift.Prelude.{
  ℕ, ◌≤◌, ◌≡◌, refl, ◌∙◌, Bool, true, false, String, Option, none, some, List, [], ◌∷◌,
  if◌then◌else◌, is_some, arith, All, tally, keep_if, length, ◌||◌, All-map_of, All-both,
  All-keep_if, All-keep_if_of,
}
use green_shift.Dispatch.Batch.{
  is_id, tally-IsUnique, IsUnique-tally, IsFresh, dispatch_each_own, tally-ids_of, IsUnique,
}

-- The job passes the checks when the loop has claimed it.
claimed_valid :
    (worker : String) (now : ℕ) (id : String) (j : Job)
    → IsDue now id j.schedule_decision
    → validate_job_for_dispatch now id (claimed worker now j) none ≡ ok tt
unfolding validate_job_for_dispatch
claimed_valid worker now id j d =
    rw d.chosen (ground (arith, d.own, d.due, eq_iff d.decision.job_id id))

lookup-prepared :
    (now : ℕ) (id : String) (s : System) (j : Job)
    → lookup id s.jobs ≡ some j
    → is_promotable j.status ≡ true
    → has_started now j.schedule_decision ≡ true
    → lookup id (prepared now s).jobs ≡ some (record j { status = ready })
unfolding recover_expired_claims promote_scheduled_to_ready
lookup-prepared now id s j there promotable started =
    let waiting : is_expired now j ≡ false = ground (arith, promotable) in
    let due : is_due now j ≡ true = rw (promotable, started) refl in
    let kept : lookup id (recover_expired_claims now s.jobs) ≡ some j =
      lookup-adjust (λ i k. if is_expired now k then unclaimed ready k else k) id s.jobs
      ∙ rw (there, waiting) refl in
    lookup-adjust (λ i k. if is_due now k then record k { status = ready } else k) id
      (recover_expired_claims now s.jobs)
    ∙ rw (kept, due) refl

tally-prepared :
    (now : ℕ) (id : String) (s : System)
    → tally (λ e. is_id id e.0) (prepared now s).jobs ≡ tally (λ e. is_id id e.0) s.jobs
unfolding recover_expired_claims promote_scheduled_to_ready
tally-prepared now id s =
    tally-adjust (is_id id) (λ i k. if is_due now k then record k { status = ready } else k)
      (recover_expired_claims now s.jobs)
    ∙ tally-adjust (is_id id) (λ i k. if is_expired now k then unclaimed ready k else k) s.jobs

has_started-IsDue :
    (now : ℕ) (id : String) (o : Option Decision) → IsDue now id o → has_started now o ≡ true
has_started-IsDue now id o d = rw d.chosen (ground (arith, d.due))

IsUnique-batch :
    (worker : String) (locked : List String) (now : ℕ) (s : System)
    → IsUnique (ids_of s.jobs)
    → IsUnique (ids_of (batch worker locked claim_batch_size now (prepared now s).jobs))
IsUnique-batch worker locked now s unique =
    let jobs = (prepared now s).jobs in
    let jobs_of = batch worker locked claim_batch_size now jobs in
    IsUnique-tally (ids_of jobs_of) (λ k. omega (
      arith,
      tally-ids_of k jobs_of,
      tally-batch worker locked claim_batch_size now jobs (λ e. is_id k e.0),
      tally-prepared now k s,
      tally-ids_of k s.jobs,
      tally-IsUnique k (ids_of s.jobs) unique,
    ))

-- A status that the first steps of a tick may lead on to a dispatch.
abbrev pub is_waiting : JobStatus → Bool
is_waiting status = is_ready status || (is_claiming status || is_promotable status)

IsFresh-prepared :
    (now : ℕ) (s : System)
    → All (λ e. is_waiting e.1.status ≡ true → IsFresh s e.0) s.jobs
    → All (λ e. is_ready e.1.status ≡ true → IsFresh s e.0) (prepared now s).jobs
unfolding recover_expired_claims promote_scheduled_to_ready
IsFresh-prepared now s fresh =
    All-adjust (λ e. is_ready e.1.status ≡ true → IsFresh s e.0)
      (λ i k. if is_due now k then record k { status = ready } else k)
      (recover_expired_claims now s.jobs)
      (All-adjust _ (λ i k. if is_expired now k then unclaimed ready k else k) s.jobs
        (All-map_of (λ e h taken. h (ground (arith, taken))) s.jobs fresh))

IsFresh-ids : (s : System) (es : Jobs) → All (λ e. IsFresh s e.0) es → All (IsFresh s) (ids_of es)
IsFresh-ids s [] h = tt
IsFresh-ids s (e ∷ es) h = (h.0, IsFresh-ids s es h.1)

-- A job that is SCHEDULED or APPROVED, and has a decision of its own whose start has come, is QUEUED
-- after steps 1 to 4 of a tick, where the ids of the jobs are unique, no other worker holds it, no
-- job that is READY, CLAIMING, SCHEDULED or APPROVED has an execution, there is room for all jobs
-- that can be claimed, and the cluster takes it.
pub dispatch_stage-queued :
    (worker : String) (locked : List String) (now : ℕ) (clusters : String → Cluster) (s : System)
    (id : String) (j : Job)
    → lookup id s.jobs ≡ some j
    → IsUnique (ids_of s.jobs)
    → is_promotable j.status ≡ true
    → IsDue now id j.schedule_decision
    → All (λ e. is_waiting e.1.status ≡ true → is_some (lookup e.0 s.executions) ≡ false) s.jobs
    → holds locked id ≡ false
    → length (keep_if (is_claimable locked) (prepared now s).jobs) ≤ claim_batch_size
    → submitted_by (clusters id) ≡ true
    → status_at id (dispatch_stage worker locked now clusters s).0 ≡ some queued
unfolding dispatch_stage claim_ready_jobs
dispatch_stage-queued worker locked now clusters s id j there unique promotable due fresh free room
      taken =
    let jobs = (prepared now s).jobs in
    let jobs_of = batch worker locked claim_batch_size now jobs in
    let ready_job = record j { status = ready } in
    let found = lookup-prepared now id s j there promotable (has_started-IsDue now id _ due) in
    let held : holds (ids_of jobs_of) id ≡ true =
      All-lookup (λ e. is_claimable locked e ≡ true → holds (ids_of jobs_of) e.0 ≡ true) id
        ready_job jobs found (held_of_room worker locked claim_batch_size now jobs room)
        (rw free refl) in
    dispatch_each_own now clusters (ids_of jobs_of) id
      (record s { jobs = after worker locked claim_batch_size now jobs })
      (claimed worker now ready_job)
      (lookup-taken worker locked claim_batch_size now jobs (id, ready_job) found held)
      (claimed_valid worker now id ready_job due)
      (All-lookup (λ e. is_waiting e.1.status ≡ true → IsFresh s e.0) id j s.jobs there fresh
        (rw promotable (ground arith)))
      taken held (IsUnique-batch worker locked now s unique)
      (IsFresh-ids s jobs_of (
        to_batch worker locked claim_batch_size now jobs (λ e. IsFresh s e.0)
          (All-map_of (λ e h. h.1 (ground (arith, h.0))) (keep_if (is_claimable locked) jobs)
            (All-both _ _ (keep_if (is_claimable locked) jobs)
              (All-keep_if (is_claimable locked) jobs)
              (All-keep_if_of (is_claimable locked) _ jobs (IsFresh-prepared now s fresh))))))
