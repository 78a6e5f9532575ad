-- ===== src/Contention/Missing.antt =====
-- A batch of app/decide/batch_scheduler.py with a job whose carbon data is missing.
use green_shift.Contention.{
  Job, Environment, BatchCandidate, candidate_starts, evaluate_slot, urgency_key, latest_end,
  sorted_jobs,
}
use green_shift.Contention.Batch.{schedule_each, schedule_batch}
use green_shift.Contention.Choosing.{BatchError, ScheduleDecision}
use green_shift.Contention.Placed.{IsDecision, IsPlan, registry_after, schedule_each-IsPlan}
use green_shift.Contention.Sound.{IsAmong}
use green_shift.Prelude.Result.{Result, ok, err}
use green_shift.Prelude.Sort.{sort_by, All-of-sort_by}
use green_shift.Prelude.{
  ℕ, ◌≡◌, refl, sym, ap, subst, ◌∙◌, true, none, List, [], ◌∷◌, ◌++◌, arith, Bool-cases, inl, inr,
  All, ◌==◌, ==_iff,
}
use green_shift.Schedule.Evaluation.{interpolate_carbon, or_true}
use green_shift.Settings.{Table}
use green_shift.Slots.{SlotCapacityRegistry}

All-among : (P : ℕ → Type 0) (xs : List ℕ) (t : ℕ) → All P xs → IsAmong xs t → P t
All-among P [] t each h = absurd cc
All-among P (x ∷ xs) t each h = elim (Bool-cases (x == t)) [
  | inl same ↦ subst P ((==_iff x t).0 same) each.0
  | inr apart ↦ All-among P xs t each.1 (rw apart at h)
]

-- A decision with some registry.
record IsDecided (env : Environment) (j : Job) : Type 0 where
  pub registry : SlotCapacityRegistry
  pub decision : ScheduleDecision
  pub made : IsDecision env registry j decision

All-IsDecided :
    (env : Environment) (registry : SlotCapacityRegistry) (js : List Job)
    (ds : List ScheduleDecision)
    → IsPlan env registry js ds
    → All (IsDecided env) js
All-IsDecided env registry [] ds plan = tt
All-IsDecided env registry (j ∷ js) [] plan = absurd plan
All-IsDecided env registry (j ∷ js) (d ∷ ds) plan = (
  record { registry = registry; decision = d; made = plan.0 },
  All-IsDecided env (registry_after registry j d.selected) js ds plan.1,
)

-- No carbon intensity is known at any candidate start.
abbrev pub HasNoCarbon : Environment → Job → Type 0
HasNoCarbon env j =
    All (λ t. (interpolate_carbon t (env.carbon_curve j.region)).0 ≡ none) (candidate_starts env j)

no_figure :
    (env : Environment) (registry : SlotCapacityRegistry) (j : Job) (t : ℕ)
    → (interpolate_carbon t (env.carbon_curve j.region)).0 ≡ none
    → (evaluate_slot env registry j t).carbon_emission_kg ≡ none
unfolding evaluate_slot
no_figure env registry j t h = rw h refl

not_decided :
    (env : Environment) (j : Job)
    → HasNoCarbon env j
    → or_true j.deferrable ≡ true
    → IsDecided env j
    → ⊥
not_decided env j missing deferrable d =
    let placed = d.made.placed in
    let c = d.decision.selected in
    let unknown : c.carbon_emission_kg ≡ none =
      ap (λ (x : BatchCandidate). x.carbon_emission_kg) (sym placed.evaluated)
      ∙ no_figure env d.registry j c.start_time
          (All-among _ (candidate_starts env j) c.start_time missing placed.start) in
    elim d.made.figures [
      | inl fixed ↦ absurd (ground (arith, fixed, deferrable))
      | inr figures ↦ absurd (ground (arith, figures, unknown))
    ]

All-second :
    (P : Job → Type 0) (xs : List Job) (j : Job) (ys : List Job) → All P (xs ++ j ∷ ys) → P j
All-second P [] j ys h = h.0
All-second P (x ∷ xs) j ys h = All-second P xs j ys h.1

raised :
    (r : Result BatchError (List ScheduleDecision))
    → ((ds : List ScheduleDecision) → r ≡ ok ds → ⊥)
    → (e : BatchError) × (r ≡ err e)
raised (err e) h = (e, refl)
raised (ok ds) h = absurd (h ds refl)

-- Where a batch has, at any place, a deferrable job of which no carbon intensity is known at any of
-- its candidate starts, the batch raises, and none of its jobs gets a decision.
schedule_batch-no_carbon :
    (env : Environment) (policies : Table) (registry : SlotCapacityRegistry) (first : List Job)
    (j : Job) (others : List Job)
    → or_true j.deferrable ≡ true
    → HasNoCarbon env j
    → (e : BatchError) × ((schedule_batch env policies registry (first ++ j ∷ others)).1 ≡ err e)
unfolding schedule_batch sorted_jobs
schedule_batch-no_carbon env policies registry first j others deferrable missing =
    let jobs = first ++ j ∷ others in
    let key = urgency_key env.now (latest_end env.now jobs) in
    raised (schedule_each env policies registry (sort_by key jobs)).1 (λ ds h.
      not_decided env j missing deferrable (
        All-second (IsDecided env) first j others (
          All-of-sort_by key (IsDecided env) jobs (
            All-IsDecided env registry (sort_by key jobs) ds
              (schedule_each-IsPlan env policies registry (sort_by key jobs) ds h)))))
