-- ===== src/Schedule/Candidates.antt =====
-- The candidate start times of app/decide/scheduler.py: inside the window, in order, and complete.
use green_shift.Schedule.{
  aligned_slots, floor_hour, first_aligned, with_start, generate_candidate_slots,
}
use green_shift.Slots.{hour, minute}
use green_shift.Prelude.{
  ℕ, zero, suc, ◌+◌, ◌-◌, ◌*◌, ◌/◌, ◌%◌, ◌≤◌, ◌<◌, ◌≡◌, ◌↔◌, ◌⊎◌, refl, Bool, true, false, not,
  List, [], ◌∷◌, arith, All, All-map_of, if◌then◌else◌, ltb, ltb→lt, leb, ◌==◌, any, Bool-cases,
  inl, inr,
}

-- Not before the bound, and over by the deadline.
abbrev pub IsInWindow : ℕ → ℕ → ℕ → ℕ → Type 0
IsInWindow start_bound deadline runtime_minutes start =
    (start_bound ≤ start) × (start + runtime_minutes * minute ≤ deadline)

aligned_slots-within :
    (rounds candidate latest : ℕ)
    → All (λ t. (candidate ≤ t) × (t ≤ latest)) (aligned_slots rounds candidate latest)
unfolding aligned_slots
aligned_slots-within zero candidate latest = tt
aligned_slots-within (suc rounds) candidate latest = elim (Bool-cases (leb candidate latest)) [
  | inl e ↦ rw e (
    (omega arith, ground arith),
    All-map_of (λ t h. (omega arith, h.1)) _
        (aligned_slots-within rounds (candidate + hour) latest),
  )
  | inr e ↦ rw e tt
]

first_aligned-le : (offset start : ℕ) → start ≤ first_aligned offset start
unfolding first_aligned floor_hour
first_aligned-le offset start = ground arith

All-with_start :
    (P : ℕ → Type 0) (start : ℕ) (slots : List ℕ)
    → P start
    → All P slots
    → All P (with_start start slots)
unfolding with_start
All-with_start P start [] p ps = (p, tt)
All-with_start P start (slot ∷ slots) p ps = elim (Bool-cases (slot == start)) [
  | inl e ↦ rw e ps
  | inr e ↦ rw e (p, ps)
]

in_window :
    (offset start_bound deadline runtime_minutes : ℕ) (deferrable : Bool)
    → ltb deadline (start_bound + runtime_minutes * minute) ≡ false
    → All (IsInWindow start_bound deadline runtime_minutes) (
        if not deferrable
        then start_bound ∷ []
        else with_start start_bound (
            aligned_slots
              ((deadline - runtime_minutes * minute - first_aligned offset start_bound) / hour + 1)
              (first_aligned offset start_bound)
              (deadline - runtime_minutes * minute)))
in_window offset start_bound deadline runtime_minutes false fits = ((omega arith, ground arith), tt)
in_window offset start_bound deadline runtime_minutes true fits =
    All-with_start (IsInWindow start_bound deadline runtime_minutes) start_bound _
      (omega arith, ground arith)
      (All-map_of (λ t h. (omega (arith, first_aligned-le offset start_bound), ground arith)) _
        (aligned_slots-within _ (first_aligned offset start_bound)
          (deadline - runtime_minutes * minute)))

-- Every candidate lies in the window, deferrable or not.
pub generate_candidate_slots-IsInWindow :
    (offset start_bound deadline runtime_minutes : ℕ) (deferrable : Bool)
    → All
        (IsInWindow start_bound deadline runtime_minutes)
        (generate_candidate_slots offset start_bound deadline runtime_minutes deferrable)
unfolding generate_candidate_slots
generate_candidate_slots-IsInWindow offset start_bound deadline runtime_minutes deferrable =
    elim (Bool-cases (ltb deadline (start_bound + runtime_minutes * minute))) [
      | inl late ↦ rw late tt
      | inr fits ↦ rw fits (in_window offset start_bound deadline runtime_minutes deferrable fits)
    ]

-- No candidate is generated exactly when the runtime does not fit between bound and deadline.
pub generate_candidate_slots-eq-nil_iff :
    (offset start_bound deadline runtime_minutes : ℕ) (deferrable : Bool)
    → (generate_candidate_slots offset start_bound deadline runtime_minutes deferrable ≡ [])
      ↔ (deadline < start_bound + runtime_minutes * minute)
unfolding generate_candidate_slots with_start
generate_candidate_slots-eq-nil_iff offset start_bound deadline runtime_minutes deferrable =
    ground arith

-- The first candidate is the bound itself: running at once is always among the options.
pub head-generate_candidate_slots :
    (offset start_bound deadline runtime_minutes : ℕ) (deferrable : Bool) (first : ℕ)
    (more : List ℕ)
    → generate_candidate_slots offset start_bound deadline runtime_minutes deferrable ≡ first ∷ more
    → first ≡ start_bound
unfolding generate_candidate_slots with_start
head-generate_candidate_slots offset start_bound deadline runtime_minutes deferrable first more e =
    ground arith

aligned_slots-has :
    (rounds candidate latest k t : ℕ)
    → t ≡ candidate + k * hour
    → t ≤ latest
    → k < rounds
    → any (λ s. s == t) (aligned_slots rounds candidate latest) ≡ true
unfolding aligned_slots
aligned_slots-has zero candidate latest k t e fits few = absurd (omega arith)
aligned_slots-has (suc rounds) candidate latest zero t e fits few = ground arith
aligned_slots-has (suc rounds) candidate latest (suc k) t e fits few =
    ground (
      arith,
      aligned_slots-has rounds (candidate + hour) latest k t (omega arith) fits (omega arith),
    )

any-with_start :
    (t start : ℕ) (slots : List ℕ)
    → any (λ s. s == t) slots ≡ true
    → any (λ s. s == t) (with_start start slots) ≡ true
unfolding with_start
any-with_start t start [] h = cc
any-with_start t start (slot ∷ slots) h = ground arith

-- The bound, moved up to the next full hour of its time zone where it is not one.
first_aligned_lem :
    (offset start : ℕ)
    → hour ≤ start
    → ((first_aligned offset start + offset) % hour ≡ 0)
      × (first_aligned offset start < start + hour)
unfolding first_aligned floor_hour
first_aligned_lem offset start h = ground arith

-- From a full hour on, the loop gives full hours only.
aligned_slots-full :
    (offset rounds candidate latest : ℕ)
    → (candidate + offset) % hour ≡ 0
    → All (λ t. (t + offset) % hour ≡ 0) (aligned_slots rounds candidate latest)
unfolding aligned_slots
aligned_slots-full offset zero candidate latest full = tt
aligned_slots-full offset (suc rounds) candidate latest full =
    elim (Bool-cases (leb candidate latest)) [
      | inl e ↦
          rw e
            (full, aligned_slots-full offset rounds (candidate + hour) latest (omega (arith, full)))
      | inr e ↦ rw e tt
    ]

-- The bound, or a full hour in its time zone where the job is deferrable.
abbrev pub IsSlot : ℕ → ℕ → Bool → ℕ → Type 0
IsSlot offset start_bound deferrable t =
    (t ≡ start_bound) ⊎ ((deferrable ≡ true) × ((t + offset) % hour ≡ 0))

slots :
    (offset start_bound rounds latest : ℕ) (deferrable : Bool)
    → hour ≤ start_bound
    → All (IsSlot offset start_bound deferrable) (
        if not deferrable
        then start_bound ∷ []
        else with_start start_bound
            (aligned_slots rounds (first_aligned offset start_bound) latest))
slots offset start_bound rounds latest false late = (inl refl, tt)
slots offset start_bound rounds latest true late =
    All-with_start (IsSlot offset start_bound true) start_bound _ (inl refl) (
      All-map_of (λ t full. inr (refl, full)) _
        (aligned_slots-full offset rounds (first_aligned offset start_bound) latest
          (first_aligned_lem offset start_bound late).0))

pub generate_candidate_slots-IsSlot :
    (offset start_bound deadline runtime_minutes : ℕ) (deferrable : Bool)
    → hour ≤ start_bound
    → All
        (IsSlot offset start_bound deferrable)
        (generate_candidate_slots offset start_bound deadline runtime_minutes deferrable)
unfolding generate_candidate_slots
generate_candidate_slots-IsSlot offset start_bound deadline runtime_minutes deferrable late =
    elim (Bool-cases (ltb deadline (start_bound + runtime_minutes * minute))) [
      | inl short ↦ rw short tt
      | inr fits ↦ rw fits (slots offset start_bound _ _ deferrable late)
    ]

-- Every full hour, in the time zone of the bound, at which a deferrable job may start and still be
-- over by its deadline is among its candidates: the loop does not stop early.
pub generate_candidate_slots_complete :
    (offset start_bound deadline runtime_minutes t : ℕ)
    → hour ≤ start_bound
    → IsInWindow start_bound deadline runtime_minutes t
    → (t + offset) % hour ≡ 0
    → any (λ s. s == t) (generate_candidate_slots offset start_bound deadline runtime_minutes true)
      ≡ true
unfolding generate_candidate_slots
generate_candidate_slots_complete offset start_bound deadline runtime_minutes t late window full =
    let first = first_aligned offset start_bound in
    let aligned = first_aligned_lem offset start_bound late in
    let k = (t - first) / hour in
    elim (Bool-cases (ltb deadline (start_bound + runtime_minutes * minute))) [
      | inl none ↦
          absurd (omega (arith, ltb→lt deadline (start_bound + runtime_minutes * minute) none))
      | inr fits ↦ rw fits (
          any-with_start t start_bound _ (
            aligned_slots-has ((deadline - runtime_minutes * minute - first) / hour + 1) first
              (deadline - runtime_minutes * minute) k t (omega (arith, aligned.0, aligned.1))
              (omega arith) (omega (arith, aligned.0, aligned.1))))
    ]

-- Each candidate is later than those before it.
abbrev pub IsAscending : List ℕ → Type 0
IsAscending [] = Unit
IsAscending (x ∷ xs) = All (λ y. x < y) xs × IsAscending xs

aligned_slots-IsAscending :
    (rounds candidate latest : ℕ) → IsAscending (aligned_slots rounds candidate latest)
unfolding aligned_slots
aligned_slots-IsAscending zero candidate latest = tt
aligned_slots-IsAscending (suc rounds) candidate latest = elim (Bool-cases (leb candidate latest)) [
  | inl e ↦ rw e (
    All-map_of (λ t h. omega (arith, h.0)) _
        (aligned_slots-within rounds (candidate + hour) latest),
    aligned_slots-IsAscending rounds (candidate + hour) latest,
  )
  | inr e ↦ rw e tt
]

with_start-IsAscending :
    (start : ℕ) (slots : List ℕ)
    → All (λ t. start ≤ t) slots
    → IsAscending slots
    → IsAscending (with_start start slots)
unfolding with_start
with_start-IsAscending start [] from up = (tt, tt)
with_start-IsAscending start (slot ∷ slots) from up = elim (Bool-cases (slot == start)) [
  | inl e ↦ rw e up
  | inr e ↦ rw e ((ground arith, All-map_of (λ t h. omega (arith, from.0)) slots up.0), up)
]

ascending :
    (deferrable : Bool) (rounds start candidate latest : ℕ)
    → start ≤ candidate
    → IsAscending (
        if not deferrable
        then start ∷ []
        else with_start start (aligned_slots rounds candidate latest))
ascending false rounds start candidate latest h = (tt, tt)
ascending true rounds start candidate latest h =
    with_start-IsAscending start _
      (All-map_of (λ t w. omega (arith, w.0)) _ (aligned_slots-within rounds candidate latest))
      (aligned_slots-IsAscending rounds candidate latest)

-- The candidates are listed in order of time, each once.
pub generate_candidate_slots-IsAscending :
    (offset start_bound deadline runtime_minutes : ℕ) (deferrable : Bool)
    → IsAscending (generate_candidate_slots offset start_bound deadline runtime_minutes deferrable)
unfolding generate_candidate_slots
generate_candidate_slots-IsAscending offset start_bound deadline runtime_minutes deferrable =
    elim (Bool-cases (ltb deadline (start_bound + runtime_minutes * minute))) [
      | inl late ↦ rw late tt
      | inr fits ↦
          rw fits (ascending deferrable _ start_bound _ _ (first_aligned-le offset start_bound))
    ]
