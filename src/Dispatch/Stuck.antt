-- ===== src/Dispatch/Stuck.antt =====
-- Rows that the loop of app/dispatch/service.py leaves as they are.
use mathlib.Core.Bool.{true≢false}
use text.Mathlib.TextEquality.{eq_iff}
use green_shift.Approval.{JobStatus, ready, failed}
use green_shift.Dispatch.{
  Job, Jobs, holds, is_claimable, is_expired, is_due, is_ready, is_claiming, is_promotable,
  unclaimed, ids_of, claim_ready_jobs, recover_expired_claims, promote_scheduled_to_ready,
}
use green_shift.Dispatch.Claims.{batch, after, to_batch, lookup-left}
use green_shift.Dispatch.Dispatcher.{
  Execution, System, Cluster, K8sStatus, set_job, with_status, simulated, with_statuses,
}
use green_shift.Dispatch.Refresh.{
  StatusAnswer, pods, missing, failing, refresh_found, refresh_job_status, synced, sim_status,
  same_status,
}
use green_shift.Dispatch.Rows.{
  IsSameAt, IsSameAt-trans, lookup-set_job_other, lookup-set_execution_other,
}
use green_shift.Dispatch.Keys.{prepared-IsKeyed}
use green_shift.Dispatch.Batch.{dispatch_each_other}
use green_shift.Dispatch.Tick.{
  claim_batch_size, prepared, dispatch_stage, dispatch_each, is_active, get_active_executions,
  refresh_each,
}
use green_shift.Prelude.Dict.{lookup, lookup-adjust, IsKeyed, string_eq}
use green_shift.Prelude.{
  ℕ, ◌≡◌, refl, sym, subst, ◌∙◌, Bool, true, false, String, Option, none, some, List, [], ◌∷◌, map,
  if◌then◌else◌, str_eq, arith, Bool-cases, inl, inr, All, All-both, All-map_of, All-keep_if,
  All-keep_if_of, keep_if, some-injective,
}

-- An id that is held is that of an entry.
held_entry :
    {V : Type 0}
    → (P : String × V → Type 0) (es : List (String × V)) (id : String) → All P es
    → holds (map (λ e. e.0) es) id ≡ true
    → (v : V) × P (id, v)
held_entry P [] id h held = absurd cc
held_entry P ((i, v) ∷ es) id h held = elim (Bool-cases (str_eq i id)) [
  | inl same ↦ (v, subst (λ k. P (k, v)) ((eq_iff i id).0 same) h.0)
  | inr apart ↦ held_entry P es id h.1 (ground (arith, held))
]

-- One whose entry is different is not held.
not_held_of :
    {V : Type 0}
    → (P : V → Type 0) (d es : List (String × V)) (id : String) (v : V)
    → All (λ e. (lookup e.0 d ≡ some e.1) × P e.1) es
    → lookup id d ≡ some v
    → (P v → true ≡ false)
    → holds (map (λ e. e.0) es) id ≡ false
not_held_of P d es id v all found no_entry = elim (Bool-cases (holds (map (λ e. e.0) es) id)) [
  | inr free ↦ free
  | inl held ↦
      let (w, h) = held_entry (λ e. (lookup e.0 d ≡ some e.1) × P e.1) es id all held in
      absurd (true≢false (no_entry (subst P (some-injective (sym h.0 ∙ found)) h.1)))
]

prepared-left :
    (now : ℕ) (id : String) (s : System) (j : Job)
    → lookup id s.jobs ≡ some j
    → is_claiming j.status ≡ false
    → is_promotable j.status ≡ false
    → lookup id (prepared now s).jobs ≡ some j
unfolding recover_expired_claims promote_scheduled_to_ready
prepared-left now id s j there unclaimed_job settled =
    let kept : lookup id (recover_expired_claims now s.jobs) ≡ some j =
      lookup-adjust (λ i k. if is_expired now k then unclaimed ready k else k) id s.jobs
      ∙ rw there (rw unclaimed_job refl) in
    lookup-adjust (λ i k. if is_due now k then record k { status = ready } else k) id
      (recover_expired_claims now s.jobs)
    ∙ rw kept (rw settled refl)

-- A job that is not READY is not in a batch.
not_in_batch :
    (worker : String) (locked : List String) (now : ℕ) (jobs : Jobs) (id : String) (j : Job)
    → IsKeyed jobs
    → lookup id jobs ≡ some j
    → is_ready j.status ≡ false
    → holds (ids_of (batch worker locked claim_batch_size now jobs)) id ≡ false
not_in_batch worker locked now jobs id j keyed found waits =
    not_held_of (λ k. is_ready k.status ≡ true) jobs (batch worker locked claim_batch_size now jobs)
      id j
      (to_batch worker locked claim_batch_size now jobs
        (λ e. (lookup e.0 jobs ≡ some e.1) × (is_ready e.1.status ≡ true))
        (All-map_of (λ e h. (h.0, ground (arith, h.1))) (keep_if (is_claimable locked) jobs)
          (All-both _ _ (keep_if (is_claimable locked) jobs)
            (All-keep_if_of (is_claimable locked) _ jobs keyed)
            (All-keep_if (is_claimable locked) jobs))))
      found (λ h. cc (h, waits))

-- Recovery, promotion, claim and dispatch leave the row and the execution of a job alone, however
-- old they are, where its status is none of SCHEDULED, APPROVED, READY and CLAIMING; a job that is
-- left DISPATCHING is such a job.
pub dispatch_stage-IsSameAt :
    (worker : String) (locked : List String) (now : ℕ) (clusters : String → Cluster) (s : System)
    (id : String) (j : Job)
    → IsKeyed s.jobs
    → lookup id s.jobs ≡ some j
    → is_ready j.status ≡ false
    → is_claiming j.status ≡ false
    → is_promotable j.status ≡ false
    → IsSameAt id s (dispatch_stage worker locked now clusters s).0
unfolding dispatch_stage claim_ready_jobs
dispatch_stage-IsSameAt worker locked now clusters s id j keyed there waits free settled =
    let jobs = (prepared now s).jobs in
    let taken = batch worker locked claim_batch_size now jobs in
    let t = record s { jobs = after worker locked claim_batch_size now jobs } in
    let kept = prepared-left now id s j there free settled in
    let left = not_in_batch worker locked now jobs id j (prepared-IsKeyed now s keyed) kept waits in
    IsSameAt-trans id s t (dispatch_each now clusters (ids_of taken) t).0
      (lookup-left worker locked claim_batch_size now jobs id left ∙ kept ∙ sym there, refl)
      (dispatch_each_other now clusters (ids_of taken) id t left)

synced-IsSameAt :
    (k8s : Option K8sStatus) (gs : JobStatus) (job_id id : String) (s : System)
    → str_eq id job_id ≡ false
    → IsSameAt id s (synced job_id k8s gs s)
synced-IsSameAt k8s gs job_id id s apart = (
  lookup-set_job_other job_id id (with_status gs) s apart,
  lookup-set_execution_other job_id id (with_statuses k8s gs) (set_job job_id (with_status gs) s)
      apart,
)

if-IsSameAt :
    (b : Bool) (id : String) (s t u : System)
    → IsSameAt id s t
    → IsSameAt id s u
    → IsSameAt id s (if b then t else u)
if-IsSameAt true id s t u first second = first
if-IsSameAt false id s t u first second = second

pub refresh_found-IsSameAt :
    (now : ℕ) (answer : StatusAnswer) (job_id id : String) (s : System) (o : Option Execution)
    → str_eq id job_id ≡ false
    → IsSameAt id s (refresh_found now answer job_id s o)
refresh_found-IsSameAt now answer job_id id s none apart = (refl, refl)
refresh_found-IsSameAt now (pods m n k) job_id id s (some x) apart =
    synced-IsSameAt _ _ job_id id s apart
refresh_found-IsSameAt now missing job_id id s (some x) apart =
    synced-IsSameAt none failed job_id id s apart
refresh_found-IsSameAt now (failing connection) job_id id s (some x) apart =
    let status = sim_status now x in
    let moved = synced job_id (some (simulated status)) status s in
    if-IsSameAt connection id s (if same_status status x.gs_status then s else moved) s
      (if-IsSameAt (same_status status x.gs_status) id s s moved (refl, refl)
        (synced-IsSameAt (some (simulated status)) status job_id id s apart))
      (refl, refl)

pub refresh_each-IsSameAt :
    (now : ℕ) (answers : String → StatusAnswer) (ids : List String) (id : String) (s : System)
    → holds ids id ≡ false
    → IsSameAt id s (refresh_each now answers ids s)
unfolding refresh_each refresh_job_status
refresh_each-IsSameAt now answers [] id s h = (refl, refl)
refresh_each-IsSameAt now answers (i ∷ ids) id s h =
    let t = refresh_job_status now (answers i) i s in
    IsSameAt-trans id s t (refresh_each now answers ids t)
      (refresh_found-IsSameAt now (answers i) i id s (lookup i s.executions)
        (ground (arith, eq_iff i id, eq_iff id i)))
      (refresh_each-IsSameAt now answers ids id t (ground (arith, h)))

-- The last step of a tick leaves the row of a job and its execution alone, whatever Kubernetes would
-- answer, where the execution's `k8s_status` is neither PENDING nor RUNNING; that of a new execution
-- is NULL.
refresh_each-inactive :
    (now : ℕ) (answers : String → StatusAnswer) (s : System) (id : String) (x : Execution)
    → IsKeyed s.executions
    → lookup id s.executions ≡ some x
    → is_active x.k8s_status ≡ false
    → IsSameAt id s (refresh_each now answers (get_active_executions s) s)
unfolding get_active_executions
refresh_each-inactive now answers s id x keyed there idle =
    refresh_each-IsSameAt now answers (get_active_executions s) id s (
      not_held_of (λ y. is_active y.k8s_status ≡ true) s.executions
        (keep_if (λ e. is_active e.1.k8s_status) s.executions) id x
        (All-both _ _ (keep_if (λ e. is_active e.1.k8s_status) s.executions)
          (All-keep_if_of (λ e. is_active e.1.k8s_status) _ s.executions keyed)
          (All-keep_if (λ e. is_active e.1.k8s_status) s.executions))
        there (λ h. cc (h, idle)))
