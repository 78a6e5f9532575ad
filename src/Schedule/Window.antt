-- ===== src/Schedule/Window.antt =====
-- The candidate start times of app/decide/scheduler.py, in one statement.
use green_shift.Schedule.{generate_candidate_slots}
use green_shift.Schedule.Candidates.{
  IsInWindow, IsAscending, generate_candidate_slots-IsSlot, generate_candidate_slots-IsInWindow,
  generate_candidate_slots-IsAscending, generate_candidate_slots-eq-nil_iff,
  head-generate_candidate_slots, generate_candidate_slots_complete,
}
use green_shift.Slots.{hour, minute}
use green_shift.Prelude.{
  ℕ, ◌+◌, ◌*◌, ◌%◌, ◌≤◌, ◌<◌, ◌≡◌, ◌↔◌, ◌⊎◌, Bool, true, List, [], ◌∷◌, All, any, ◌==◌, ap, ◌∙◌,
}

-- Where the bound is at least an hour after the epoch: every candidate starts at or after the bound
-- and is over by the deadline, they are in order of time and each is listed once, there is none
-- exactly when the runtime does not fit between bound and deadline, the first of them is the bound
-- itself, every other one is of a deferrable job and a full hour in the time zone of the bound, and
-- every full hour at which a deferrable job may start and still be over by its deadline is among
-- them: the loop does not stop early.
pub generate_candidate_slots_lem :
    (offset start_bound deadline runtime_minutes : ℕ) (deferrable : Bool)
    → hour ≤ start_bound
    → (let candidates =
          generate_candidate_slots offset start_bound deadline runtime_minutes deferrable in
        All (IsInWindow start_bound deadline runtime_minutes) candidates
        × All
            (λ t. (t ≡ start_bound) ⊎ ((deferrable ≡ true) × ((t + offset) % hour ≡ 0)))
            candidates
        × IsAscending candidates
        × ((candidates ≡ []) ↔ (deadline < start_bound + runtime_minutes * minute))
        × ((first : ℕ) (more : List ℕ) → candidates ≡ first ∷ more → first ≡ start_bound)
        × ((t : ℕ)
            → deferrable ≡ true
            → IsInWindow start_bound deadline runtime_minutes t
            → (t + offset) % hour ≡ 0
            → any (λ s. s == t) candidates ≡ true))
generate_candidate_slots_lem offset start_bound deadline runtime_minutes deferrable late = (
  generate_candidate_slots-IsInWindow offset start_bound deadline runtime_minutes deferrable,
  generate_candidate_slots-IsSlot offset start_bound deadline runtime_minutes deferrable late,
  generate_candidate_slots-IsAscending offset start_bound deadline runtime_minutes deferrable,
  generate_candidate_slots-eq-nil_iff offset start_bound deadline runtime_minutes deferrable,
  head-generate_candidate_slots offset start_bound deadline runtime_minutes deferrable,
  λ t shifted window full.
      ap
        (λ d.
          any (λ s. s == t)
            (generate_candidate_slots offset start_bound deadline runtime_minutes d))
        shifted
      ∙ generate_candidate_slots_complete offset start_bound deadline runtime_minutes t late window
          full,
)
