-- ===== src/Schedule.antt =====
-- app/decide/scheduler.py: the constraint-first scheduler of one job.
pub mod Candidates
pub mod Window
pub mod Evaluation
pub mod Choice
pub mod Sound
pub mod Complete
mod Tests
use green_shift.Prelude.{
  ℕ, zero, suc, ◌+◌, ◌-◌, ◌*◌, ◌/◌, ◌%◌, Bool, true, false, not, List, [], ◌∷◌, if◌then◌else◌, ltb,
  leb, ◌==◌,
}
use green_shift.Slots.{hour, minute}

-- The loop `while candidate <= latest_start`, on the rounds that are left.
pub aligned_slots : ℕ → ℕ → ℕ → List ℕ
aligned_slots zero candidate latest_start = []
aligned_slots (suc rounds) candidate latest_start =
    let more = candidate ∷ aligned_slots rounds (candidate + hour) latest_start in
    if leb candidate latest_start then more else []

-- `start_bound.replace(minute=0, second=0, microsecond=0)` in the time zone of `start_bound`, which
-- is `offset` ahead of UTC.
pub floor_hour : ℕ → ℕ → ℕ
floor_hour offset start_bound = start_bound - (start_bound + offset) % hour

pub first_aligned : ℕ → ℕ → ℕ
first_aligned offset start_bound =
    let candidate = floor_hour offset start_bound in
    if ltb candidate start_bound then candidate + hour else candidate

-- `slots.insert(0, start_bound)` unless it is the first slot already.
pub with_start : ℕ → List ℕ → List ℕ
with_start start_bound [] = start_bound ∷ []
with_start start_bound (slot ∷ slots) =
    if slot == start_bound then slot ∷ slots else start_bound ∷ slot ∷ slots

-- Times are microseconds; there are as many rounds as hours up to the latest start, and one more.
unfoldable pub generate_candidate_slots : ℕ → ℕ → ℕ → ℕ → Bool → List ℕ
unfolding aligned_slots floor_hour first_aligned with_start
generate_candidate_slots offset start_bound deadline runtime_minutes deferrable =
    let runtime = runtime_minutes * minute in
    let latest_start = deadline - runtime in
    let candidate = first_aligned offset start_bound in
    let slots = aligned_slots ((latest_start - candidate) / hour + 1) candidate latest_start in
    if ltb deadline (start_bound + runtime)
    then []
    else if not deferrable
    then start_bound ∷ []
    else with_start start_bound slots
