-- ===== src/Slots/Span.antt =====
-- Which hours the span of a job covers, in app/decide/slot_capacity.py.
use green_shift.Slots.{get_span_hours, normalize_time, hour, minute}
use green_shift.Prelude.{ℕ, ◌+◌, ◌-◌, ◌*◌, ◌%◌, ◌≤◌, ◌<◌, ◌≡◌, ◌↔◌, arith}

-- Every instant of the run that starts at `start` lies in one of the hours that are reserved.
abbrev pub IsCovered : ℕ → ℕ → Type 0
IsCovered start minutes =
    (t : ℕ)
    → start ≤ t
    → t < start + minutes * minute
    → (normalize_time start ≤ normalize_time t)
      × (normalize_time t < normalize_time start + get_span_hours minutes)

get_span_hours_bounds :
    (minutes : ℕ) → (minutes ≤ get_span_hours minutes * 60) × (1 ≤ get_span_hours minutes)
unfolding get_span_hours
get_span_hours_bounds minutes = ground arith

get_span_hours-whole : (hours : ℕ) → 0 < hours → get_span_hours (hours * 60) ≡ hours
unfolding get_span_hours
get_span_hours-whole hours pos = ground arith

-- The reserved hours cover a run exactly when the minutes past the hour at its start and its
-- runtime together fit into the hours that the runtime alone would take.
IsCovered-iff :
    (start minutes : ℕ)
    → 0 < minutes
    → IsCovered start minutes ↔ (start % hour + minutes * minute ≤ get_span_hours minutes * hour)
IsCovered-iff start minutes pos = (
  λ covered. omega (arith, covered (start + minutes * minute - 1) (omega arith) (omega arith)),
  λ fits t after before. (omega arith, omega arith),
)

-- A run that starts on the hour is covered.
pub IsCovered-aligned :
    (start minutes : ℕ) → 0 < minutes → start % hour ≤ 0 → IsCovered start minutes
IsCovered-aligned start minutes pos aligned =
    (IsCovered-iff start minutes pos).1 (omega (arith, get_span_hours_bounds minutes))

-- A job that runs for whole hours and starts within an hour is not covered: its last hour is not
-- reserved.
not-IsCovered-mid_hour :
    (start hours : ℕ) → 0 < hours → 0 < start % hour → ¬ IsCovered start (hours * 60)
not-IsCovered-mid_hour start hours pos late covered = omega (
  arith,
  get_span_hours-whole hours pos,
  (IsCovered-iff start (hours * 60) (omega arith)).0 covered,
)
