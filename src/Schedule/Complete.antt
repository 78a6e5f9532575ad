-- ===== src/Schedule/Complete.antt =====
-- When `_execute_schedule_job` of app/decide/scheduler.py returns a decision, and the error it gives
-- where it does not.
use mathlib.Core.List.Perm
use mathlib.Core.List.{Perm}
use green_shift.Policy.{
  OptimizationPolicy, carbon_first, cost_first, carbon_constrained, Value, numeric, finite,
  not_numeric, negative, nan, infinity, minus_infinity, InvalidOptimizationPolicyError,
  validate_carbon_tolerance_pct, rank_feasible_candidates, given_or_default,
}
use green_shift.Policy.Ranking.{rank_feasible_candidates-perm}
use green_shift.Prelude.Result.{Result, ok, err, ◌>>=◌}
use green_shift.Prelude.{
  ℕ, ◌+◌, ◌*◌, ◌≡◌, refl, ap, ◌∙◌, subst, true, false, Option, none, some, List, [], ◌∷◌, ◌++◌, map,
  not, arith, All, All-map_of, All-map_intro, any, keep_if, inl, inr, List-cases,
}
use green_shift.Schedule.Evaluation.{
  CandidateEvaluation, Job, Environment, candidates, evaluate, evaluations, interpolate_carbon,
  interpolate_tariff, placement_reasons, data_reasons, over_budget, is_nil, Reason,
  carbon_data_unavailable,
}
use green_shift.Schedule.Choice.{
  budget_unsatisfiable, has_reason, is_reason, ScheduleDecision, policy_error, is_empty, as_value,
  execute_schedule_job, choose, feasible_candidates, rank_evaluations, resolve_tolerance,
  or_carbon_first, infeasible,
}
use green_shift.Slots.{minute}

validate_again :
    (given : Value) (pct : ℕ)
    → validate_carbon_tolerance_pct given ≡ ok pct
    → validate_carbon_tolerance_pct (numeric (finite pct)) ≡ ok pct
unfolding validate_carbon_tolerance_pct
validate_again not_numeric pct h = cc
validate_again (numeric nan) pct h = cc
validate_again (numeric infinity) pct h = cc
validate_again (numeric minus_infinity) pct h = cc
validate_again (numeric (finite p)) pct h = ground arith
validate_again (numeric (negative p)) pct h = ground arith

policy_error-inv :
    (r : Result InvalidOptimizationPolicyError ℕ) (pct : Option ℕ)
    → (policy_error r >>= λ p. ok (some p)) ≡ ok pct
    → (p : ℕ) × (r ≡ ok p) × (pct ≡ some p)
policy_error-inv (ok p) pct h = (p, refl, cc)
policy_error-inv (err e) pct h = cc

-- A tolerance that was resolved is valid, so the ranking does not fail on it.
rank_evaluations-total :
    (es : List CandidateEvaluation) (policy : OptimizationPolicy) (given : Option Value)
    (pct : Option ℕ)
    → resolve_tolerance policy given ≡ ok pct
    → (ranked : List CandidateEvaluation) × (rank_evaluations es policy pct ≡ ok ranked)
unfolding resolve_tolerance rank_feasible_candidates
rank_evaluations-total [] policy given pct h = ([], refl)
rank_evaluations-total (e ∷ es) carbon_first given pct h = (_, refl)
rank_evaluations-total (e ∷ es) cost_first given pct h = (_, refl)
rank_evaluations-total (e ∷ es) carbon_constrained given pct h =
    let (p, valid, given_pct) =
      policy_error-inv (validate_carbon_tolerance_pct (given_or_default given)) pct h in
    let again = validate_again (given_or_default given) p valid in rw (given_pct, again) (_, refl)

is_empty-keep_if :
    (es : List CandidateEvaluation)
    → any (λ e. e.feasible) es ≡ true
    → is_empty (keep_if (λ e. e.feasible) es) ≡ false
is_empty-keep_if [] h = cc
is_empty-keep_if (e ∷ es) h = ground (arith, is_empty-keep_if es)

is_empty-map :
    (f : ℕ → CandidateEvaluation) (ts : List ℕ)
    → any (λ e. e.feasible) (map f ts) ≡ true
    → is_empty ts ≡ false
is_empty-map f [] h = cc
is_empty-map f (t ∷ ts) h = refl

not_empty-ranking :
    (es : List CandidateEvaluation) (policy : OptimizationPolicy) (pct : Option ℕ)
    (ranked : List CandidateEvaluation)
    → is_empty es ≡ false
    → rank_evaluations es policy pct ≡ ok ranked
    → (best : CandidateEvaluation) × (rest : List CandidateEvaluation) × (ranked ≡ best ∷ rest)
not_empty-ranking es policy pct ranked some_left h = elim (List-cases ranked) [
  | inr split ↦ split
  | inl empty ↦
      let none_left : [] ≡ es = Perm.nil-eq (
        subst (λ l. Perm l es) empty
          (rank_feasible_candidates-perm (λ e. e.carbon_emission_kg) (λ e. e.electricity_cost)
            (λ e. e.start_time) es policy (as_value pct) ranked h)) in
      cc (some_left, ap is_empty none_left)
]

-- A decision is returned whenever the tolerance is valid and some candidate is feasible.
pub execute_schedule_job_complete :
    (env : Environment) (job : Job) (policy : Option OptimizationPolicy) (tolerance : Option Value)
    (pct : Option ℕ)
    → resolve_tolerance (or_carbon_first policy) tolerance ≡ ok pct
    → any (λ e. e.feasible) (evaluations env job) ≡ true
    → (d : ScheduleDecision) × (execute_schedule_job env job policy tolerance ≡ ok d)
unfolding execute_schedule_job
execute_schedule_job_complete env job policy tolerance pct valid possible =
    let p = or_carbon_first policy in
    let some_left = is_empty-keep_if (evaluations env job) possible in
    let some_window = is_empty-map (evaluate env job) (candidates env job) possible in
    let (ranked, ranking) =
      rank_evaluations-total (feasible_candidates env job) p tolerance pct valid in
    let (best, rest, split) =
      not_empty-ranking (feasible_candidates env job) p pct ranked some_left ranking in
    rw (valid, some_window, some_left, ranking, split) (_, refl)

is_empty-keep_if_none :
    (es : List CandidateEvaluation)
    → any (λ e. e.feasible) es ≡ false
    → is_empty (keep_if (λ e. e.feasible) es) ≡ true
is_empty-keep_if_none [] h = refl
is_empty-keep_if_none (e ∷ es) h = ground (arith, is_empty-keep_if_none es)

-- Where there are candidates, and each is infeasible, it is `infeasible` that tells the error.
execute_schedule_job-infeasible :
    (env : Environment) (job : Job) (policy : Option OptimizationPolicy) (tolerance : Option Value)
    (pct : Option ℕ)
    → resolve_tolerance (or_carbon_first policy) tolerance ≡ ok pct
    → is_empty (candidates env job) ≡ false
    → any (λ e. e.feasible) (evaluations env job) ≡ false
    → execute_schedule_job env job policy tolerance ≡ err (infeasible env job)
unfolding execute_schedule_job choose
execute_schedule_job-infeasible env job policy tolerance pct valid some_window no_one =
    rw (valid, some_window, is_empty-keep_if_none (evaluations env job) no_one) refl

abbrev LacksCarbon : CandidateEvaluation → Type 0
LacksCarbon e = (has_reason carbon_data_unavailable e ≡ true) × (e.feasible ≡ false)

has_reason-append :
    (r : Reason) (xs ys : List Reason)
    → any (is_reason r) ys ≡ true
    → any (is_reason r) (xs ++ ys) ≡ true
has_reason-append r [] ys h = h
has_reason-append r (x ∷ xs) ys h = ground (arith, has_reason-append r xs ys h)

is_nil-has_reason :
    (r : Reason) (xs : List Reason) → any (is_reason r) xs ≡ true → is_nil xs ≡ false
is_nil-has_reason r [] h = cc
is_nil-has_reason r (x ∷ xs) h = refl

evaluate-LacksCarbon :
    (env : Environment) (job : Job) (t : ℕ)
    → interpolate_carbon t env.carbon_curve ≡ (none, false)
    → LacksCarbon (evaluate env job t)
unfolding evaluate
evaluate-LacksCarbon env job t h =
    let reasons = (evaluate env job t).rejection_reasons in
    let found : any (is_reason carbon_data_unavailable) reasons ≡ true = rw h (
      has_reason-append carbon_data_unavailable
        (placement_reasons env job (t + job.runtime_minutes * minute))
        (data_reasons none (interpolate_tariff env.template_rate t env.tariff_curve)
          (over_budget job.carbon_budget_kg none))
        refl) in
    (found, is_nil-has_reason carbon_data_unavailable reasons found)

no_carbon :
    (es : List CandidateEvaluation)
    → All LacksCarbon es
    → (any (λ e. e.feasible) es ≡ false)
      × (keep_if (λ e. not (has_reason carbon_data_unavailable e)) es ≡ [])
no_carbon [] h = (refl, refl)
no_carbon (e ∷ es) h = rw (h.0.0, h.0.1) (no_carbon es h.1)

-- A job with a carbon budget for whose candidates no carbon data is found gets the error that its
-- budget cannot be met, not the one that says that carbon data is unavailable.
execute_schedule_job-no_carbon_data :
    (env : Environment) (job : Job) (policy : Option OptimizationPolicy) (tolerance : Option Value)
    (pct : Option ℕ) (budget : ℕ)
    → resolve_tolerance (or_carbon_first policy) tolerance ≡ ok pct
    → is_empty (candidates env job) ≡ false
    → job.carbon_budget_kg ≡ some budget
    → All (λ t. interpolate_carbon t env.carbon_curve ≡ (none, false)) (candidates env job)
    → execute_schedule_job env job policy tolerance ≡ err budget_unsatisfiable
unfolding infeasible
execute_schedule_job-no_carbon_data env job policy tolerance pct budget valid some_window given
      no_data =
    let lacking =
      All-map_intro (evaluate env job) LacksCarbon (candidates env job)
        (All-map_of (λ t h. evaluate-LacksCarbon env job t h) (candidates env job) no_data) in
    let (no_one, no_rest) = no_carbon (evaluations env job) lacking in
    execute_schedule_job-infeasible env job policy tolerance pct valid some_window no_one
    ∙ rw no_rest (rw given refl)
