-- ===== src/Contention/Choosing.antt =====
-- The choice of a slot by app/decide/batch_scheduler.py.
use green_shift.Contention.{BatchCandidate}
use green_shift.Policy.{
  OptimizationPolicy, carbon_constrained, rank_feasible_candidates, InvalidOptimizationPolicyError,
}
use green_shift.Prelude.Result.{Result, ok, err, ◌>>=◌}
use green_shift.Prelude.Sort.{min_by}
use green_shift.Prelude.Texts.{Text}
use green_shift.Prelude.{
  ℕ, suc, Bool, true, false, not, ◌&&◌, ◌||◌, String, Option, List, [], ◌∷◌, if◌then◌else◌, ◌==◌,
  keep_if, is_some, take,
}
use green_shift.Settings.Ranking.{as_value}
use green_shift.Slots.{SlotCapacityRegistry, utilization_at}

-- What a batch raises: a figure that is None cannot be formatted.
pub data BatchError : Type 0 where
  cannot_format no_candidate : BatchError
  bad_tolerance : InvalidOptimizationPolicyError → BatchError

abbrev pub head_or_error :
    Result InvalidOptimizationPolicyError (List BatchCandidate) → Result BatchError BatchCandidate
head_or_error (err raised) = err (bad_tolerance raised)
head_or_error (ok []) = err no_candidate
head_or_error (ok (c ∷ cs)) = ok c

-- `feasible_unconstrained`: where no candidate is feasible, the first of all.
abbrev pub or_first : List BatchCandidate → List BatchCandidate → List BatchCandidate
or_first evaluations [] = take 1 evaluations
or_first evaluations (c ∷ cs) = c ∷ cs

unfoldable pub feasible_unconstrained : List BatchCandidate → List BatchCandidate
feasible_unconstrained evaluations = or_first evaluations (keep_if (λ c. c.feasible) evaluations)

abbrev pub ranked_by :
    (BatchCandidate → Option ℕ)
    → OptimizationPolicy
    → Option ℕ
    → List BatchCandidate
    → Result InvalidOptimizationPolicyError (List BatchCandidate)
ranked_by cost_of policy pct cs =
    rank_feasible_candidates (λ (c : BatchCandidate). c.carbon_emission_kg) cost_of
      (λ (c : BatchCandidate). c.start_time) cs policy (as_value pct)

-- The place of a candidate in the ranking; candidates have different starts.
abbrev place_of : ℕ → List BatchCandidate → ℕ
place_of start [] = 0
place_of start (c ∷ cs) = if c.start_time == start then 0 else suc (place_of start cs)

-- The least loaded slot, and the policy's order among equally loaded ones.
abbrev pub least_loaded :
    SlotCapacityRegistry
    → String
    → List BatchCandidate
    → Result InvalidOptimizationPolicyError (List BatchCandidate)
    → Result BatchError BatchCandidate
least_loaded registry region feasible (err raised) = err (bad_tolerance raised)
least_loaded registry region [] (ok ranked) = err no_candidate
least_loaded registry region (c ∷ cs) (ok ranked) = ok (
    min_by
      (λ (d : BatchCandidate).
        utilization_at registry region d.start_time ∷ place_of d.start_time ranked ∷ [])
      c cs)

-- The chosen candidate, and whether the job spilled from the preferred slot.
abbrev pub choose_from :
    SlotCapacityRegistry
    → String
    → OptimizationPolicy
    → Option ℕ
    → List BatchCandidate
    → BatchCandidate
    → List BatchCandidate
    → Result BatchError (BatchCandidate × Bool)
choose_from registry region policy pct feasible preferred [] = do
  chosen ←
      least_loaded registry region feasible
        (ranked_by (λ c. c.electricity_cost) policy pct feasible)
  ok (chosen, true)
choose_from registry region policy pct feasible preferred (c ∷ cs) = do
  chosen ← head_or_error (ranked_by (λ c. c.effective_cost) policy pct (c ∷ cs))
  ok (chosen, not (chosen.start_time == preferred.start_time))

unfoldable pub choose_slot :
    SlotCapacityRegistry
    → String
    → OptimizationPolicy
    → Option ℕ
    → List BatchCandidate
    → Result BatchError (BatchCandidate × Bool)
choose_slot registry region policy pct feasible = do
  preferred ← head_or_error (ranked_by (λ c. c.electricity_cost) policy pct feasible)
  choose_from registry region policy pct feasible preferred (keep_if (λ c. c.has_capacity) feasible)

-- Whether the text of the reason can be made.
abbrev pub is_constrained : OptimizationPolicy → Bool
is_constrained carbon_constrained = true
is_constrained _ = false

abbrev pub can_explain : OptimizationPolicy → Option ℕ → Bool → Bool → BatchCandidate → Bool
can_explain policy pct deferrable spilled c =
    let figures = is_some c.carbon_emission_kg && is_some c.electricity_cost in
    if spilled
    then figures
    else if not deferrable
    then true
    else figures && (not (is_constrained policy) || is_some pct)

pub record ScheduleDecision : Type 0 where
  pub job_id : Text
  pub selected : BatchCandidate
  pub spilled_from_preferred : Bool
  pub objective : OptimizationPolicy
  pub candidates_evaluated : ℕ
  pub feasible_candidates_count : ℕ
