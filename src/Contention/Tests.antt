-- ===== src/Contention/Tests.antt =====
-- Two jobs for one slot, and the theorems at them.
use green_shift.Contention.{
  Job, Environment, evaluate_slot, is_rejected, candidate_starts, sorted_jobs,
}
use green_shift.Contention.Batch.{evaluations, schedule_one, schedule_each, schedule_batch}
use green_shift.Contention.Choosing.{
  BatchError, cannot_format, ScheduleDecision, choose_slot, feasible_unconstrained,
}
use green_shift.Contention.Placed.{IsPlan, schedule_batch_lem}
use green_shift.Contention.Returns.{schedule_batch-Returns}
use green_shift.Dispatch.{critical, low}
use green_shift.Policy.{rank_feasible_candidates, round_epsilon}
use green_shift.Prelude.Dict.{lookup, insert, string_eq, pair_eq}
use green_shift.Prelude.Result.{Result, ok, err}
use green_shift.Prelude.Sort.{sort_by, min_by}
use green_shift.Prelude.{ℕ, ◌*◌, ◌≡◌, refl, true, false, Option, none, some, List, [], ◌∷◌, map}
use green_shift.Schedule.{generate_candidate_slots}
use green_shift.Schedule.Evaluation.{interpolate_carbon, interpolate_tariff}
use green_shift.Settings.Ranking.{empty}
use green_shift.Settings.{resolve_effective_policy}
use green_shift.Slots.{
  new_registry, SlotCapacityRegistry, slot_can_fit, slot_allocate, utilization_pct,
  get_or_create_slot, get_span_hours, fits_at, can_fit, can_fit_from, reserve, reserve_from,
  allocate, utilization_at, hour,
}
use green_shift.Slots.Capacity.{IsValid, new_registry-IsValid}

program : Unit {0}
unfolding lookup insert sort_by min_by rank_feasible_candidates round_epsilon
    generate_candidate_slots interpolate_carbon interpolate_tariff resolve_effective_policy
    slot_can_fit slot_allocate utilization_pct get_or_create_slot get_span_hours fits_at can_fit
    can_fit_from reserve reserve_from allocate utilization_at evaluate_slot is_rejected
    candidate_starts sorted_jobs evaluations schedule_one schedule_each schedule_batch choose_slot
    feasible_unconstrained
program = tt

abbrev env : Environment
env = record {
  now = 100 * hour;
  offset = λ j. 0;
  carbon_curve = λ region.
      record { timestamp = 100 * hour; carbon_gco2_kwh = 500_000_000_000; is_fallback = false }
      ∷ record { timestamp = 101 * hour; carbon_gco2_kwh = 100_000_000_000; is_fallback = false }
      ∷ record { timestamp = 102 * hour; carbon_gco2_kwh = 300_000_000_000; is_fallback = false }
      ∷ [];
  tariff_curve = λ j. [];
  template_rate = λ j t. some 100_000_000;
  demand_pressure = none;
}

abbrev job : Job
job = record {
  job_id = 97 ∷ [];
  priority = some low;
  deferrable = some true;
  earliest_start_time = none;
  submitted_at = 99 * hour;
  deadline = 103 * hour;
  runtime_minutes = 60;
  power_kw = 1_000_000_000;
  energy_kwh = none;
  carbon_budget_kg = none;
  region = "r";
  tenant_id = none;
  demand = record { cpu = 1_000_000_000; mem_mib = 0; gpus = 0 };
}

abbrev urgent : Job
urgent = record job { job_id = 98 ∷ []; priority = some critical }

-- One core.
abbrev registry : SlotCapacityRegistry
registry = new_registry 1_000_000_000 1000 0

abbrev starts : Result BatchError (List ScheduleDecision) → Option (List (ℕ × List ℕ))
starts (ok ds) = some (map (λ (d : ScheduleDecision). (d.selected.start_time, d.job_id)) ds)
starts (err raised) = none

-- The urgent job gets the best hour, and the other one the next best.
spilled :
    starts (schedule_batch env [] registry (job ∷ urgent ∷ [])).1
    ≡ some ((101 * hour, 98 ∷ []) ∷ (102 * hour, 97 ∷ []) ∷ [])
unfolding program
spilled = refl

abbrev dark : Environment
dark = record env { carbon_curve = λ region. [] }

raises_dark : (schedule_batch dark [] registry (job ∷ [])).1 ≡ err cannot_format
unfolding program
raises_dark = refl

schedule_batch_lem_example :
    IsValid 1_000_000_000 1000 0 (schedule_batch env [] registry (job ∷ urgent ∷ [])).0
schedule_batch_lem_example =
    (schedule_batch_lem 1_000_000_000 1000 0 env [] registry (job ∷ urgent ∷ [])
      (new_registry-IsValid 1_000_000_000 1000 0)).0

schedule_batch-Returns_example :
    (ds : List ScheduleDecision) × ((schedule_batch env [] registry (job ∷ urgent ∷ [])).1 ≡ ok ds)
    × IsPlan env registry (sorted_jobs (100 * hour) (job ∷ urgent ∷ [])) ds
unfolding program
schedule_batch-Returns_example = schedule_batch-Returns env [] registry (job ∷ urgent ∷ []) empty (
  ((refl, refl), ((refl, refl), ((refl, refl), tt))),
  (((refl, refl), ((refl, refl), ((refl, refl), tt))), tt),
)
