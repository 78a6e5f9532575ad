-- ===== src/Contention/Sound.antt =====
-- Which slot app/decide/batch_scheduler.py chooses for a job.
use green_shift.Contention.{
  Job, Environment, BatchCandidate, candidate_starts, evaluate_slot, is_rejected,
}
use green_shift.Contention.Choosing.{or_first, feasible_unconstrained, choose_slot}
use green_shift.Contention.Batch.{evaluations}
use green_shift.Policy.{OptimizationPolicy}
use green_shift.Prelude.Result.{ok}
use green_shift.Prelude.{
  ℕ, ◌+◌, ◌*◌, ◌≤◌, ◌≡◌, ◌⊎◌, refl, sym, ap, subst, ◌∙◌, Bool, true, false, Option, none, some,
  List, [], ◌∷◌, keep_if, ◌==◌, All, All-map_of, All-keep_if, All-keep_if_of, All-take,
  All-map_intro, any, inl, inr, arith,
}
use green_shift.Schedule.Evaluation.{over_budget}
use green_shift.Slots.{SlotCapacityRegistry, can_fit, minute}
use green_shift.Contention.Holds.{none_fit, choose_slot-holds}

-- One of these times.
abbrev pub IsAmong : List ℕ → ℕ → Type 0
IsAmong starts t = any (λ s. s == t) starts ≡ true

each-IsAmong : (xs : List ℕ) → All (IsAmong xs) xs
each-IsAmong [] = tt
each-IsAmong (x ∷ xs) = (ground arith, All-map_of (λ y h. ground (arith, h)) xs (each-IsAmong xs))

-- An evaluation at one of the candidate starts.
pub record IsCandidate (env : Environment) (registry : SlotCapacityRegistry) (j : Job)
    (c : BatchCandidate) : Type 0 where
  pub start : IsAmong (candidate_starts env j) c.start_time
  pub evaluated : evaluate_slot env registry j c.start_time ≡ c

evaluate_again :
    (env : Environment) (registry : SlotCapacityRegistry) (j : Job) (t : ℕ)
    → evaluate_slot env registry j (evaluate_slot env registry j t).start_time
      ≡ evaluate_slot env registry j t
unfolding evaluate_slot
evaluate_again env registry j t = refl

same_start :
    (env : Environment) (registry : SlotCapacityRegistry) (j : Job) (t : ℕ)
    → (evaluate_slot env registry j t).start_time ≡ t
unfolding evaluate_slot
same_start env registry j t = refl

evaluations-IsCandidate :
    (env : Environment) (registry : SlotCapacityRegistry) (j : Job)
    → All (IsCandidate env registry j) (evaluations env registry j)
unfolding evaluations
evaluations-IsCandidate env registry j =
    All-map_intro (evaluate_slot env registry j) (IsCandidate env registry j)
      (candidate_starts env j)
      (All-map_of
        (λ t h. record {
          start =
              ap (λ u. any (λ s. s == u) (candidate_starts env j)) (same_start env registry j t)
              ∙ h;
          evaluated = evaluate_again env registry j t;
        })
        (candidate_starts env j) (each-IsAmong (candidate_starts env j)))

-- The candidates are all feasible, or none is and only the first is left.
abbrev pub AreFeasible : List BatchCandidate → List BatchCandidate → Type 0
AreFeasible found kept = All (λ c. c.feasible ≡ true) kept ⊎ All (λ c. c.feasible ≡ false) found

or_first-AreFeasible :
    (found kept : List BatchCandidate)
    → keep_if (λ c. c.feasible) found ≡ kept
    → AreFeasible found (or_first found kept)
or_first-AreFeasible found [] e = inr (none_fit (λ c. c.feasible) found e)
or_first-AreFeasible found (c ∷ cs) e =
    inl (subst (All (λ d. d.feasible ≡ true)) e (All-keep_if (λ d. d.feasible) found))

or_first-holds :
    (P : BatchCandidate → Type 0) (found kept : List BatchCandidate)
    → All P found
    → All P kept
    → All P (or_first found kept)
or_first-holds P found [] all left = All-take P 1 found all
or_first-holds P found (c ∷ cs) all left = left

pub feasible-AreFeasible :
    (found : List BatchCandidate) → AreFeasible found (feasible_unconstrained found)
unfolding feasible_unconstrained
feasible-AreFeasible found = or_first-AreFeasible found (keep_if (λ c. c.feasible) found) refl

pub feasible-holds :
    (P : BatchCandidate → Type 0) (found : List BatchCandidate)
    → All P found
    → All P (feasible_unconstrained found)
unfolding feasible_unconstrained
feasible-holds P found all =
    or_first-holds P found (keep_if (λ c. c.feasible) found) all
      (All-keep_if_of (λ c. c.feasible) P found all)

-- A feasible candidate is over a minute after the deadline at the latest, its carbon and its cost are
-- known, and its carbon is within the budget where there is one.
pub record IsAllowed (j : Job) (c : BatchCandidate) : Type 0 where
  pub carbon : ℕ
  pub cost : ℕ
  pub in_time : c.end_time ≤ j.deadline + minute
  pub known : c.carbon_emission_kg ≡ some carbon
  pub priced : c.electricity_cost ≡ some cost
  pub in_budget : over_budget j.carbon_budget_kg (some carbon) ≡ false

accepted :
    (j : Job) (end_time : ℕ) (carbon cost : Option ℕ)
    → is_rejected j end_time carbon cost ≡ false
    → (end_time ≤ j.deadline + minute)
      × ((x : ℕ) × (carbon ≡ some x) × (over_budget j.carbon_budget_kg (some x) ≡ false))
      × ((x : ℕ) × (cost ≡ some x))
unfolding is_rejected
accepted j end_time none cost h = absurd (ground (arith, h))
accepted j end_time (some x) none h = absurd (ground (arith, h))
accepted j end_time (some x) (some y) h =
    (ground (arith, h), (x, refl, ground (arith, h)), (y, refl))

evaluate_slot-IsAllowed :
    (env : Environment) (registry : SlotCapacityRegistry) (j : Job) (t : ℕ)
    → (evaluate_slot env registry j t).feasible ≡ true
    → IsAllowed j (evaluate_slot env registry j t)
unfolding evaluate_slot
evaluate_slot-IsAllowed env registry j t h =
    let c = evaluate_slot env registry j t in
    let (in_time, (carbon, known, in_budget), (cost, priced)) =
      accepted j c.end_time c.carbon_emission_kg c.electricity_cost (ground (arith, h)) in
    record {
      carbon = carbon;
      cost = cost;
      in_time = in_time;
      known = known;
      priced = priced;
      in_budget = in_budget;
    }

-- The slot of a decision on a job, with the registry as it was then.
pub record IsPlaced (env : Environment) (registry : SlotCapacityRegistry) (j : Job)
    (c : BatchCandidate) : Type 0 where
  pub start : IsAmong (candidate_starts env j) c.start_time
  pub evaluated : evaluate_slot env registry j c.start_time ≡ c
  pub lasts : c.end_time ≡ c.start_time + j.runtime_minutes * minute
  pub allowed : IsAllowed j c ⊎ All (λ d. d.feasible ≡ false) (evaluations env registry j)
  pub room :
      (can_fit registry j.region c.start_time j.runtime_minutes j.demand ≡ true)
      ⊎ All (λ d. d.has_capacity ≡ false) (feasible_unconstrained (evaluations env registry j))

lasts_of :
    (env : Environment) (registry : SlotCapacityRegistry) (j : Job) (t : ℕ)
    → (evaluate_slot env registry j t).end_time ≡ t + j.runtime_minutes * minute
unfolding evaluate_slot
lasts_of env registry j t = refl

room_of :
    (env : Environment) (registry : SlotCapacityRegistry) (j : Job) (t : ℕ)
    → (evaluate_slot env registry j t).has_capacity
      ≡ can_fit registry j.region t j.runtime_minutes j.demand
unfolding evaluate_slot
room_of env registry j t = refl

pub choose_slot-IsPlaced :
    (env : Environment) (registry : SlotCapacityRegistry) (j : Job) (policy : OptimizationPolicy)
    (pct : Option ℕ) (chosen : BatchCandidate × Bool)
    → choose_slot registry j.region policy pct (feasible_unconstrained (evaluations env registry j))
      ≡ ok chosen
    → IsPlaced env registry j chosen.0
choose_slot-IsPlaced env registry j policy pct chosen h =
    let found = evaluations env registry j in
    let feasible = feasible_unconstrained found in
    let (c, room) =
      choose_slot-holds (IsCandidate env registry j) registry j.region policy pct feasible chosen h
        (feasible-holds (IsCandidate env registry j) found
          (evaluations-IsCandidate env registry j)) in
    let e = c.evaluated in
    record {
      start = c.start;
      evaluated = e;
      lasts =
          ap (λ (d : BatchCandidate). d.end_time) (sym e)
          ∙ lasts_of env registry j chosen.0.start_time;
      allowed = elim (feasible-AreFeasible found) [
        | inr without ↦ inr without
        | inl each ↦
            let able =
              (choose_slot-holds (λ d. d.feasible ≡ true) registry j.region policy pct feasible
                chosen h each).0 in
            inl (
              subst (IsAllowed j) e (
                evaluate_slot-IsAllowed env registry j chosen.0.start_time
                  (ap (λ (d : BatchCandidate). d.feasible) e ∙ able)))
      ];
      room = elim room [
        | inl fits ↦ inl (
            sym (room_of env registry j chosen.0.start_time)
            ∙ ap (λ (d : BatchCandidate). d.has_capacity) e
            ∙ fits)
        | inr full ↦ inr full
      ];
    }
