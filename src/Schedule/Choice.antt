-- ===== src/Schedule/Choice.antt =====
-- The end of `_execute_schedule_job` of app/decide/scheduler.py: the errors where no candidate is
-- feasible, the ranking, and the decision. The impact figures, the texts and the explanations of
-- the decision are not modelled.
use green_shift.Cluster.{is_resource_feasible}
use green_shift.Policy.{
  OptimizationPolicy, carbon_first, carbon_constrained, Value, numeric, finite, given_or_default,
  InvalidOptimizationPolicyError, validate_carbon_tolerance_pct, rank_feasible_candidates, or_zero,
}
use green_shift.Prelude.Result.{Result, ok, err, ◌>>=◌}
use green_shift.Prelude.{
  ℕ, ◌-◌, Bool, true, false, not, ◌&&◌, Option, none, some, List, [], ◌∷◌, if◌then◌else◌, length,
  all, any, keep_if, is_some,
}
use green_shift.Schedule.Evaluation.{
  Reason, carbon_threshold, carbon_data_unavailable, CandidateEvaluation, Job, Environment,
  candidates, evaluations,
}

pub data ScheduleError : Type 0 where
  invalid_policy : InvalidOptimizationPolicyError → ScheduleError
  deadline_too_soon budget_unsatisfiable all_carbon_data_unavailable : ScheduleError
  insufficient_capacity no_feasible_window : ScheduleError

-- What is modelled of ScheduleDecision.
pub record ScheduleDecision : Type 0 where
  pub selected : CandidateEvaluation
  pub ranked : List CandidateEvaluation
  pub scheduler_objective : OptimizationPolicy
  pub carbon_tolerance_pct : Option ℕ
  pub candidates_evaluated : ℕ
  pub feasible_candidates_count : ℕ
  pub budget_remaining : Option ℕ
  pub baseline_start : ℕ

abbrev pub is_reason : Reason → Reason → Bool
is_reason carbon_threshold carbon_threshold = true
is_reason carbon_data_unavailable carbon_data_unavailable = true
is_reason _ _ = false

abbrev pub has_reason : Reason → CandidateEvaluation → Bool
has_reason r e = any (is_reason r) e.rejection_reasons

-- Where no candidate is feasible. The test for the budget quantifies over those candidates only
-- that have carbon data.
unfoldable pub infeasible : Environment → Job → ScheduleError
infeasible env job =
    if is_some job.carbon_budget_kg
      && all (has_reason carbon_threshold)
          (keep_if (λ e. not (has_reason carbon_data_unavailable e)) (evaluations env job))
    then budget_unsatisfiable
    else if all (has_reason carbon_data_unavailable) (evaluations env job)
    then all_carbon_data_unavailable
    else if not (is_resource_feasible env.cluster job.request)
    then insufficient_capacity
    else no_feasible_window

abbrev pub policy_error {ℓ} :
    {A : Type ℓ} → Result InvalidOptimizationPolicyError A → Result ScheduleError A
policy_error (ok a) = ok a
policy_error (err e) = err (invalid_policy e)

-- Only CARBON_CONSTRAINED has a tolerance.
unfoldable pub resolve_tolerance :
    OptimizationPolicy → Option Value → Result ScheduleError (Option ℕ)
resolve_tolerance carbon_constrained given = do
  pct ← policy_error (validate_carbon_tolerance_pct (given_or_default given))
  ok (some pct)
resolve_tolerance _ given = ok none

abbrev pub or_carbon_first : Option OptimizationPolicy → OptimizationPolicy
or_carbon_first none = carbon_first
or_carbon_first (some p) = p

abbrev pub as_value : Option ℕ → Option Value
as_value none = none
as_value (some pct) = some (numeric (finite pct))

abbrev remaining : Option ℕ → ℕ → Option ℕ
remaining none carbon = none
remaining (some budget) carbon = some (budget - carbon)

abbrev pub feasible_candidates : Environment → Job → List CandidateEvaluation
feasible_candidates env job = keep_if (λ e. e.feasible) (evaluations env job)

-- `rank_feasible_candidates` with its default accessors.
abbrev pub rank_evaluations :
    List CandidateEvaluation
    → OptimizationPolicy
    → Option ℕ
    → Result InvalidOptimizationPolicyError (List CandidateEvaluation)
rank_evaluations es policy pct =
    rank_feasible_candidates (λ e. e.carbon_emission_kg) (λ e. e.electricity_cost)
      (λ e. e.start_time) es policy (as_value pct)

abbrev first_start : List ℕ → ℕ
first_start [] = 0
first_start (t ∷ ts) = t

-- `feasible_candidates[0]`, once they are ranked.
abbrev pub decide :
    Environment
    → Job
    → OptimizationPolicy
    → Option ℕ
    → List CandidateEvaluation
    → Result ScheduleError ScheduleDecision
decide env job policy pct [] = err (infeasible env job)
decide env job policy pct (best ∷ rest) = ok (record {
  selected = best;
  ranked = best ∷ rest;
  scheduler_objective = policy;
  carbon_tolerance_pct = pct;
  candidates_evaluated = length (evaluations env job);
  feasible_candidates_count = length (feasible_candidates env job);
  budget_remaining = remaining job.carbon_budget_kg (or_zero best.carbon_emission_kg);
  baseline_start = first_start (candidates env job);
})

abbrev pub decide_ranking :
    Environment
    → Job
    → OptimizationPolicy
    → Option ℕ
    → Result InvalidOptimizationPolicyError (List CandidateEvaluation)
    → Result ScheduleError ScheduleDecision
decide_ranking env job policy pct ranking = do
  ranked ← policy_error ranking
  decide env job policy pct ranked

abbrev pub is_empty {ℓ} : {A : Type ℓ} → List A → Bool
is_empty [] = true
is_empty (x ∷ xs) = false

-- From the candidates on, with the tolerance resolved.
unfoldable pub choose :
    Environment → Job → OptimizationPolicy → Option ℕ → Result ScheduleError ScheduleDecision
choose env job policy pct =
    if is_empty (candidates env job)
    then err deadline_too_soon
    else if is_empty (feasible_candidates env job)
    then err (infeasible env job)
    else decide_ranking env job policy pct
        (rank_evaluations (feasible_candidates env job) policy pct)

unfoldable pub execute_schedule_job :
    Environment
    → Job
    → Option OptimizationPolicy
    → Option Value
    → Result ScheduleError ScheduleDecision
unfolding choose
execute_schedule_job env job policy tolerance = do
  pct ← resolve_tolerance (or_carbon_first policy) tolerance
  choose env job (or_carbon_first policy) pct
