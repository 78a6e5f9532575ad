-- ===== src/Schedule/Evaluation.antt =====
-- `_execute_schedule_job` of app/decide/scheduler.py: telemetry lookups, the evaluation of the
-- candidates against the hard constraints, and the choice. Energies, powers, prices, emissions and
-- intensities are numbers of nano units, and a product is rounded down to a nano unit. The tariff
-- template (a CSV file) and the time zone of the bound come with the environment.
use green_shift.Cluster.{ClusterResourceSnapshot, Request, is_resource_feasible}
use green_shift.Prelude.Sort.{min_by}
use green_shift.Prelude.{
  ℕ, ◌+◌, ◌-◌, ◌*◌, ◌/◌, Bool, true, false, not, ◌&&◌, Option, none, some, List, [], ◌∷◌, ◌++◌, map,
  if◌then◌else◌, ltb, leb,
}
use green_shift.Schedule.{generate_candidate_slots}
use green_shift.Slots.{minute}

pub record CarbonDataPoint : Type 0 where
  pub timestamp : ℕ
  pub carbon_gco2_kwh : ℕ
  pub is_fallback : Bool

pub record TariffDataPoint : Type 0 where
  pub timestamp : ℕ
  pub price_per_kwh : ℕ

-- `abs((a - b).total_seconds())`, in microseconds.
abbrev pub distance : ℕ → ℕ → ℕ
distance a b = if ltb a b then b - a else a - b

-- 7200 seconds.
abbrev pub max_gap : ℕ
max_gap = 7_200_000_000

unfoldable pub interpolate_carbon : ℕ → List CarbonDataPoint → Option ℕ × Bool
unfolding min_by
interpolate_carbon t [] = (none, false)
interpolate_carbon t (p ∷ ps) =
    let best = min_by (λ (q : CarbonDataPoint). distance q.timestamp t ∷ []) p ps in
    if ltb max_gap (distance best.timestamp t) && not best.is_fallback
    then (none, false)
    else (some best.carbon_gco2_kwh, best.is_fallback)

unfoldable pub interpolate_tariff : (ℕ → Option ℕ) → ℕ → List TariffDataPoint → Option ℕ
unfolding min_by
interpolate_tariff template t [] = template t
interpolate_tariff template t (p ∷ ps) =
    let best = min_by (λ (q : TariffDataPoint). distance q.timestamp t ∷ []) p ps in
    if leb (distance best.timestamp t) max_gap then some best.price_per_kwh else template t

abbrev pub energy_of : ℕ → ℕ → ℕ
energy_of power_kw runtime_minutes = power_kw * runtime_minutes / 60

abbrev pub carbon_kg : ℕ → ℕ → ℕ
carbon_kg energy carbon_gco2_kwh = energy * carbon_gco2_kwh / 1_000_000_000_000

abbrev pub cost_usd : ℕ → ℕ → ℕ
cost_usd energy price_per_kwh = energy * price_per_kwh / 1_000_000_000

-- The codes of CandidateRejectionReason that the scheduler uses.
pub data Reason : Type 0 where
  carbon_threshold sla_violation insufficient_cpu insufficient_ram gpu_unavailable : Reason
  policy_restriction carbon_data_unavailable cost_data_unavailable resource_unavailable : Reason

pub record CandidateEvaluation : Type 0 where
  pub start_time : ℕ
  pub end_time : ℕ
  pub feasible : Bool
  pub rejection_reasons : List Reason
  pub carbon_emission_kg : Option ℕ
  pub electricity_cost : Option ℕ
  pub is_fallback_carbon : Bool

pub record Job : Type 0 where
  pub deadline : ℕ
  pub runtime_minutes : ℕ
  pub power_kw : ℕ
  pub carbon_budget_kg : Option ℕ
  pub energy_kwh : Option ℕ
  pub earliest_start_time : Option ℕ
  pub deferrable : Option Bool
  pub request : Request

pub record Environment : Type 0 where
  pub now : ℕ
  pub offset : ℕ
  pub region_eligible : Bool
  pub cluster : ClusterResourceSnapshot
  pub carbon_curve : List CarbonDataPoint
  pub tariff_curve : List TariffDataPoint
  pub template_rate : ℕ → Option ℕ

abbrev energy_given : Job → Option ℕ → ℕ
energy_given job none = energy_of job.power_kw job.runtime_minutes
energy_given job (some e) = if ltb 0 e then e else energy_of job.power_kw job.runtime_minutes

abbrev pub energy : Job → ℕ
energy job = energy_given job job.energy_kwh

abbrev bound_given : ℕ → Option ℕ → ℕ
bound_given now none = now
bound_given now (some earliest) = if leb earliest now then now else earliest

abbrev pub start_bound : Environment → Job → ℕ
start_bound env job = bound_given env.now job.earliest_start_time

abbrev pub or_true : Option Bool → Bool
or_true none = true
or_true (some b) = b

abbrev when : Bool → List Reason → List Reason
when test reasons = if test then reasons else []

abbrev pub is_nil : List Reason → Bool
is_nil [] = true
is_nil (r ∷ rs) = false

-- C. Cluster resources; `before` is what was rejected before.
abbrev resource_reasons : ClusterResourceSnapshot → Request → List Reason → List Reason
resource_reasons c q before =
    let found =
      when (ltb c.free_cpu_cores q.cpu_request_cores) (insufficient_cpu ∷ [])
      ++ when (ltb c.free_memory_mib q.memory_request_mib) (insufficient_ram ∷ [])
      ++ when (ltb 0 q.gpu_request && ltb c.free_gpus q.gpu_request) (gpu_unavailable ∷ []) in
    if is_resource_feasible c q
    then []
    else found ++ when (is_nil (before ++ found)) (resource_unavailable ∷ [])

abbrev pub over_budget : Option ℕ → Option ℕ → Bool
over_budget (some budget) (some carbon) = ltb budget carbon
over_budget _ _ = false

abbrev pub is_none {ℓ} : {A : Type ℓ} → Option A → Bool
is_none none = true
is_none (some a) = false

abbrev map_option : (ℕ → ℕ) → Option ℕ → Option ℕ
map_option f none = none
map_option f (some x) = some (f x)

-- A. SLA, B. region, C. cluster.
abbrev pub placement_reasons : Environment → Job → ℕ → List Reason
placement_reasons env job end_time =
    let late = when (ltb job.deadline end_time) (sla_violation ∷ sla_violation ∷ []) in
    let region = late ++ when (not env.region_eligible) (policy_restriction ∷ []) in
    region ++ resource_reasons env.cluster job.request region

-- D. carbon data, E. cost data, F. carbon budget.
abbrev pub data_reasons : Option ℕ → Option ℕ → Bool → List Reason
data_reasons intensity price over =
    when (is_none intensity) (carbon_data_unavailable ∷ [])
    ++ when (is_none price) (cost_data_unavailable ∷ [])
    ++ when over (carbon_threshold ∷ [])

unfoldable pub evaluate : Environment → Job → ℕ → CandidateEvaluation
evaluate env job start =
    let end_time = start + job.runtime_minutes * minute in
    let (intensity, fallback) = interpolate_carbon start env.carbon_curve in
    let carbon = map_option (carbon_kg (energy job)) intensity in
    let price = interpolate_tariff env.template_rate start env.tariff_curve in
    let reasons =
      placement_reasons env job end_time
      ++ data_reasons intensity price (over_budget job.carbon_budget_kg carbon) in
    record {
      start_time = start;
      end_time = end_time;
      feasible = is_nil reasons;
      rejection_reasons = reasons;
      carbon_emission_kg = carbon;
      electricity_cost = map_option (cost_usd (energy job)) price;
      is_fallback_carbon = fallback;
    }

unfoldable pub candidates : Environment → Job → List ℕ
candidates env job =
    generate_candidate_slots env.offset (start_bound env job) job.deadline job.runtime_minutes
      (or_true job.deferrable)

abbrev pub evaluations : Environment → Job → List CandidateEvaluation
evaluations env job = map (evaluate env job) (candidates env job)
