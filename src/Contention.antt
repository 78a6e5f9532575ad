-- ===== src/Contention.antt =====
-- app/decide/batch_scheduler.py: the scheduling of a batch of jobs against the registry of slots.
-- Numbers and times are as in the scheduler of one job. The telemetry, the time zone of a bound and
-- the forecaster's model come with the environment. The region of a job is the resolved id of a
-- supported one: get_region_config, which raises ValueError for any other, is not modelled.
pub mod Choosing
pub mod Batch
pub mod Holds
pub mod Sound
pub mod Placed
pub mod Choice
pub mod Returns
pub mod Missing
mod Tests
use green_shift.Dispatch.{Priority, critical, high, medium, low}
use green_shift.Policy.{
  OptimizationPolicy, carbon_constrained, rank_feasible_candidates, InvalidOptimizationPolicyError,
}
use green_shift.Prelude.Result.{Result, ok, err, ◌>>=◌, ◌>>◌}
use green_shift.Prelude.Sort.{sort_by, min_by}
use green_shift.Prelude.Texts.{Text}
use green_shift.Prelude.{
  ℕ, zero, suc, ◌+◌, ◌-◌, ◌*◌, ◌/◌, Bool, true, false, not, ◌&&◌, ◌||◌, String, Option, none, some,
  List, [], ◌∷◌, map, if◌then◌else◌, ltb, leb, ◌==◌, keep_if, is_some, take,
}
use green_shift.Schedule.Evaluation.{
  CarbonDataPoint, TariffDataPoint, interpolate_carbon, interpolate_tariff, energy_of, carbon_kg,
  cost_usd, over_budget, or_true, is_none,
}
use green_shift.Schedule.{generate_candidate_slots}
use green_shift.Settings.{Table, resolve_effective_policy}
use green_shift.Settings.Ranking.{as_value}
use green_shift.Slots.{SlotCapacityRegistry, Demand, can_fit, allocate, utilization_at, minute}

-- The columns of JobORM that are read; `priority` is `none` where the column is NULL or, in upper
-- case, another text, and `region` is the resolved region id.
pub record Job : Type 0 where
  pub job_id : Text
  pub priority : Option Priority
  pub deferrable : Option Bool
  pub earliest_start_time : Option ℕ
  pub submitted_at : ℕ
  pub deadline : ℕ
  pub runtime_minutes : ℕ
  pub power_kw : ℕ
  pub energy_kwh : Option ℕ
  pub carbon_budget_kg : Option ℕ
  pub region : String
  pub tenant_id : Option String
  pub demand : Demand

-- `demand_pressure`, in nano units, is given where the forecaster is used and trained.
pub record Environment : Type 0 where
  pub now : ℕ
  pub offset : Job → ℕ
  pub carbon_curve : String → List CarbonDataPoint
  pub tariff_curve : Job → List TariffDataPoint
  pub template_rate : Job → ℕ → Option ℕ
  pub demand_pressure : Option (ℕ → String → ℕ)

abbrev pub or_now : ℕ → Option ℕ → ℕ
or_now now none = now
or_now now (some t) = t

-- PRIORITY_ORDER, with that of MEDIUM for what is not in it.
abbrev pub priority_order : Option Priority → ℕ
priority_order (some critical) = 0
priority_order (some high) = 1
priority_order (some medium) = 2
priority_order (some low) = 3
priority_order none = 2

-- None is false.
abbrev pub deferrable_rank : Option Bool → ℕ
deferrable_rank (some true) = 1
deferrable_rank _ = 0

-- When the job would end, were it started as early as asked for.
abbrev pub earliest_end : ℕ → Job → ℕ
earliest_end now j = or_now now j.earliest_start_time + j.runtime_minutes * minute

-- An upper bound of those, which makes every slack a natural number; the order is that of the slacks.
pub latest_end : ℕ → List Job → ℕ
latest_end now [] = 0
latest_end now (j ∷ js) = earliest_end now j + latest_end now js

abbrev pub urgency_key : ℕ → ℕ → Job → List ℕ
urgency_key now shift j =
    priority_order j.priority
    ∷ deferrable_rank j.deferrable
    ∷ (j.deadline + shift - earliest_end now j)
    ∷ j.job_id

unfoldable pub sorted_jobs : ℕ → List Job → List Job
sorted_jobs now jobs = sort_by (urgency_key now (latest_end now jobs)) jobs

pub record BatchCandidate : Type 0 where
  pub start_time : ℕ
  pub end_time : ℕ
  pub feasible : Bool
  pub carbon_emission_kg : Option ℕ
  pub electricity_cost : Option ℕ
  pub effective_cost : Option ℕ
  pub has_capacity : Bool

abbrev pub start_bound : ℕ → Job → ℕ
start_bound now j =
    let requested = or_now j.submitted_at j.earliest_start_time in
    if leb requested now then now else requested

abbrev pub or_start : ℕ → List ℕ → List ℕ
or_start start [] = start ∷ []
or_start start (slot ∷ slots) = slot ∷ slots

unfoldable pub candidate_starts : Environment → Job → List ℕ
candidate_starts env j = or_start (start_bound env.now j) (
    generate_candidate_slots (env.offset j) (start_bound env.now j) j.deadline j.runtime_minutes
      (or_true j.deferrable))

abbrev workload_energy : Job → Option ℕ → ℕ
workload_energy j none = energy_of j.power_kw j.runtime_minutes
workload_energy j (some e) = if ltb 0 e then e else energy_of j.power_kw j.runtime_minutes

abbrev pub map_option : (ℕ → ℕ) → Option ℕ → Option ℕ
map_option f none = none
map_option f (some x) = some (f x)

-- cost * (1 + 0.05 * pressure), rounded down to a nano unit.
abbrev pub with_pressure : Option (ℕ → String → ℕ) → ℕ → String → ℕ → ℕ
with_pressure none start region cost = cost
with_pressure (some predict) start region cost =
    cost + cost * (5 * predict start region) / 100_000_000_000

-- Late by more than a minute, without data, or over the budget: the reasons of a rejection.
unfoldable pub is_rejected : Job → ℕ → Option ℕ → Option ℕ → Bool
is_rejected j end_time carbon price =
    ltb (j.deadline + minute) end_time
    || (is_none carbon || (is_none price || over_budget j.carbon_budget_kg carbon))

unfoldable pub evaluate_slot : Environment → SlotCapacityRegistry → Job → ℕ → BatchCandidate
evaluate_slot env registry j start =
    let end_time = start + j.runtime_minutes * minute in
    let energy = workload_energy j j.energy_kwh in
    let carbon =
      map_option (carbon_kg energy) (interpolate_carbon start (env.carbon_curve j.region)).0 in
    let cost =
      map_option (cost_usd energy)
        (interpolate_tariff (env.template_rate j) start (env.tariff_curve j)) in
    record {
      start_time = start;
      end_time = end_time;
      feasible = not (is_rejected j end_time carbon cost);
      carbon_emission_kg = carbon;
      electricity_cost = cost;
      effective_cost = map_option (with_pressure env.demand_pressure start j.region) cost;
      has_capacity = can_fit registry j.region start j.runtime_minutes j.demand;
    }
