-- ===== src/Dispatch.antt =====
-- app/dispatch: the jobs as the dispatcher sees them, and app/dispatch/job_claimer.py: claiming,
-- recovery and promotion. Times are microseconds; the table of jobs is keyed by the job's id.
pub mod Claims
pub mod Dispatcher
pub mod Refresh
pub mod Rows
pub mod Required
pub mod Gate
pub mod Tick
pub mod Keys
pub mod Batch
pub mod Loop
pub mod Stuck
pub mod Again
pub mod Lifecycle
pub mod Cancel
pub mod Cancelled
mod Tests
use green_shift.Approval.{JobStatus, approved, ready, scheduled, claiming}
use green_shift.Prelude.Dict.{adjust}
use green_shift.Prelude.Sort.{sort_by}
use green_shift.Prelude.{
  ℕ, ◌+◌, Bool, true, false, not, ◌&&◌, String, Option, none, some, List, [], ◌∷◌, map,
  if◌then◌else◌, ltb, leb, str_eq, keep_if, any, take, length,
}

pub data Priority : Type 0 where
  critical high medium low : Priority

-- The schedule decision of a job, with the job it names.
pub record Decision : Type 0 where
  pub job_id : String
  pub selected_start : ℕ
  pub selected_end : ℕ

-- The columns of JobORM that the dispatcher and a cancellation read or write; `priority` is `none` where the column
-- is NULL or holds another text.
pub record Job : Type 0 where
  pub status : JobStatus
  pub priority : Option Priority
  pub deadline : ℕ
  pub tenant_id : Option String
  pub team_id : String
  pub submitted_at : ℕ
  pub schedule_decision : Option Decision
  pub claimed_by : Option String
  pub claimed_at : Option ℕ
  pub lease_expires_at : Option ℕ

abbrev pub Jobs : Type 0
Jobs = List (String × Job)

abbrev pub is_ready : JobStatus → Bool
is_ready ready = true
is_ready _ = false

abbrev pub is_claiming : JobStatus → Bool
is_claiming claiming = true
is_claiming _ = false

abbrev pub is_promotable : JobStatus → Bool
is_promotable scheduled = true
is_promotable approved = true
is_promotable _ = false

abbrev pub priority_rank : Option Priority → ℕ
priority_rank (some critical) = 0
priority_rank (some high) = 1
priority_rank (some medium) = 2
priority_rank (some low) = 3
priority_rank none = 4

abbrev pub claim_key : String × Job → List ℕ
claim_key (id, j) = priority_rank j.priority ∷ j.deadline ∷ []

abbrev pub holds : List String → String → Bool
holds ids id = any (λ i. str_eq i id) ids

-- READY, and not locked by another worker's transaction.
abbrev pub is_claimable : List String → String × Job → Bool
is_claimable locked (id, j) = is_ready j.status && not (holds locked id)

-- The ordered and limited selection.
unfoldable pub select_ready : List String → ℕ → Jobs → Jobs
select_ready locked batch_size jobs =
    take batch_size (sort_by claim_key (keep_if (is_claimable locked) jobs))

abbrev pub ids_of : Jobs → List String
ids_of = map (λ e. e.0)

-- CLAIM_LEASE_SECONDS in microseconds.
abbrev pub claim_lease : ℕ
claim_lease = 120_000_000

abbrev pub claimed : String → ℕ → Job → Job
claimed worker now j = record j {
  status = claiming;
  claimed_by = some worker;
  claimed_at = some now;
  lease_expires_at = some (now + claim_lease);
}

-- The table after the update, and the rows that were selected; without other workers, `locked` is
-- empty, as it is in the SQLite fallback.
unfoldable pub claim_ready_jobs : String → List String → ℕ → ℕ → Jobs → Jobs × Jobs
claim_ready_jobs worker locked batch_size now jobs =
    let batch = select_ready locked batch_size jobs in
    (adjust (λ id j. if holds (ids_of batch) id then claimed worker now j else j) jobs, batch)

abbrev pub before : Option ℕ → ℕ → Bool
before none now = false
before (some t) now = ltb t now

abbrev pub unclaimed : JobStatus → Job → Job
unclaimed status j = record j {
  status = status;
  claimed_by = none;
  claimed_at = none;
  lease_expires_at = none;
}

abbrev pub is_expired : ℕ → Job → Bool
is_expired now j = is_claiming j.status && before j.lease_expires_at now

unfoldable pub recover_expired_claims : ℕ → Jobs → Jobs
recover_expired_claims now = adjust (λ id j. if is_expired now j then unclaimed ready j else j)

abbrev pub has_started : ℕ → Option Decision → Bool
has_started now none = false
has_started now (some d) = leb d.selected_start now

abbrev pub is_due : ℕ → Job → Bool
is_due now j = is_promotable j.status && has_started now j.schedule_decision

unfoldable pub promote_scheduled_to_ready : ℕ → Jobs → Jobs
promote_scheduled_to_ready now =
    adjust (λ id j. if is_due now j then record j { status = ready } else j)
