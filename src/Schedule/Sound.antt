-- ===== src/Schedule/Sound.antt =====
-- The decision of app/decide/scheduler.py satisfies every hard constraint, and is the best that does.
use green_shift.Cluster.{is_resource_feasible}
use green_shift.Policy.{
  OptimizationPolicy, carbon_first, Value, or_zero, InvalidOptimizationPolicyError,
}
use green_shift.Policy.Ranking.{All-rank, rank-carbon_first, CarbonFirstBest}
use green_shift.Prelude.Result.{Result, ok, err, >>=-eq-ok, ok-injective}
use green_shift.Prelude.{
  ap, ℕ, ◌+◌, ◌*◌, ◌≤◌, ◌≡◌, refl, true, Option, none, some, List, [], ◌∷◌, arith, All, All-map_of,
  All-map_intro, All-keep_if_holds, All-of-keep_if, is_some, Bool-cases, inl, inr,
}
use green_shift.Schedule.Candidates.{IsInWindow, generate_candidate_slots-IsInWindow}
use green_shift.Schedule.Evaluation.{
  CandidateEvaluation, Job, Environment, or_true, candidates, evaluate, evaluations, start_bound,
}
use green_shift.Schedule.Choice.{
  ScheduleDecision, decide_ranking, is_empty, as_value, execute_schedule_job, choose,
  feasible_candidates, rank_evaluations, resolve_tolerance, or_carbon_first,
}
use green_shift.Slots.{minute}

-- At most the budget, where there is one.
abbrev pub IsWithinBudget : Option ℕ → ℕ → Type 0
IsWithinBudget none carbon = Unit
IsWithinBudget (some budget) carbon = carbon ≤ budget

-- The hard constraints, on one candidate.
pub record IsAllowed (env : Environment) (job : Job) (e : CandidateEvaluation) : Type 0 where
  pub not_early : start_bound env job ≤ e.start_time
  pub runs : e.end_time ≡ e.start_time + job.runtime_minutes * minute
  pub in_time : e.end_time ≤ job.deadline
  pub eligible : env.region_eligible ≡ true
  pub fits : is_resource_feasible env.cluster job.request ≡ true
  pub has_carbon : is_some e.carbon_emission_kg ≡ true
  pub has_cost : is_some e.electricity_cost ≡ true
  pub in_budget : IsWithinBudget job.carbon_budget_kg (or_zero e.carbon_emission_kg)

evaluate-IsAllowed :
    (env : Environment) (job : Job) (start : ℕ)
    → IsInWindow (start_bound env job) job.deadline job.runtime_minutes start
    → (evaluate env job start).feasible ≡ true
    → IsAllowed env job (evaluate env job start)
unfolding evaluate
evaluate-IsAllowed env job start window h = record {
  not_early = window.0;
  runs = refl;
  in_time = window.1;
  eligible = ground arith;
  fits = ground arith;
  has_carbon = ground arith;
  has_cost = ground arith;
  in_budget = ground arith;
}

-- What is kept as feasible is allowed.
feasible_candidates-IsAllowed :
    (env : Environment) (job : Job) → All (IsAllowed env job) (feasible_candidates env job)
unfolding candidates
feasible_candidates-IsAllowed env job =
    let windows =
      generate_candidate_slots-IsInWindow env.offset (start_bound env job) job.deadline
        job.runtime_minutes (or_true job.deferrable) in
    let each =
      All-map_intro (evaluate env job) (λ e. e.feasible ≡ true → IsAllowed env job e) _
        (All-map_of (λ t w. evaluate-IsAllowed env job t w) _ windows) in
    All-keep_if_holds (λ e. e.feasible) (IsAllowed env job) _ each

ok-decide_ranking :
    (env : Environment) (job : Job) (policy : OptimizationPolicy) (pct : Option ℕ)
    (ranking : Result InvalidOptimizationPolicyError (List CandidateEvaluation))
    (d : ScheduleDecision)
    → decide_ranking env job policy pct ranking ≡ ok d
    → (rest : List CandidateEvaluation) × (ranking ≡ ok (d.selected ∷ rest))
ok-decide_ranking env job policy pct (err e) d h = cc
ok-decide_ranking env job policy pct (ok []) d h = cc
ok-decide_ranking env job policy pct (ok (best ∷ rest)) d h =
    (rest, ap (λ x. ok (x.selected ∷ rest)) (ok-injective h))

-- The selected candidate heads the ranking.
choose-ranking :
    (env : Environment) (job : Job) (policy : OptimizationPolicy) (pct : Option ℕ)
    (d : ScheduleDecision)
    → choose env job policy pct ≡ ok d
    → (rest : List CandidateEvaluation) × (rank_evaluations (feasible_candidates env job) policy pct
        ≡ ok (d.selected ∷ rest))
unfolding choose
choose-ranking env job policy pct d h = elim (Bool-cases (is_empty (candidates env job))) [
  | inl none_at_all ↦ cc
  | inr some_window ↦ elim (Bool-cases (is_empty (feasible_candidates env job))) [
    | inl none_feasible ↦ cc
    | inr some_feasible ↦
        ok-decide_ranking env job policy pct
          (rank_evaluations (feasible_candidates env job) policy pct) d cc
  ]
]

-- A decision that is returned selects a candidate that satisfies every hard constraint: it starts
-- in the window, ends by the deadline, runs in an eligible region on a cluster that can host it,
-- has carbon and cost data, and is within the carbon budget.
pub execute_schedule_job-IsAllowed :
    (env : Environment) (job : Job) (policy : Option OptimizationPolicy) (tolerance : Option Value)
    (d : ScheduleDecision)
    → execute_schedule_job env job policy tolerance ≡ ok d
    → IsAllowed env job d.selected
unfolding execute_schedule_job
execute_schedule_job-IsAllowed env job policy tolerance d h =
    let (pct, _, chosen) =
      >>=-eq-ok (resolve_tolerance (or_carbon_first policy) tolerance)
        (λ pct. choose env job (or_carbon_first policy) pct) h in
    let (rest, ranked) = choose-ranking env job (or_carbon_first policy) pct d chosen in
    (All-rank (λ e. e.carbon_emission_kg) (λ e. e.electricity_cost) (λ e. e.start_time)
      (IsAllowed env job) (feasible_candidates env job) (or_carbon_first policy) (as_value pct)
      (d.selected ∷ rest) ranked (feasible_candidates-IsAllowed env job)).0

-- Where no policy is asked for, which means CARBON_FIRST, the selected candidate of a returned
-- decision is the best by carbon, cost and start of all the feasible candidates in the window.
pub execute_schedule_job-carbon_first :
    (env : Environment) (job : Job) (tolerance : Option Value) (d : ScheduleDecision)
    → execute_schedule_job env job none tolerance ≡ ok d
    → All
        (λ e.
          e.feasible ≡ true
          → CarbonFirstBest
              (λ c. c.carbon_emission_kg)
              (λ c. c.electricity_cost)
              (λ c. c.start_time)
              d.selected
              e)
        (evaluations env job)
unfolding execute_schedule_job resolve_tolerance
execute_schedule_job-carbon_first env job tolerance d h =
    let (rest, ranked) = choose-ranking env job carbon_first none d h in
    All-of-keep_if (λ e. e.feasible) _ (evaluations env job)
      (rank-carbon_first (λ e. e.carbon_emission_kg) (λ e. e.electricity_cost) (λ e. e.start_time)
        (feasible_candidates env job) none d.selected rest ranked)
