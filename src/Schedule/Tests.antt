-- ===== src/Schedule/Tests.antt =====
-- A job of an hour with four candidate hours, and the theorems at it.
use green_shift.Cluster.{
  ClusterResourceSnapshot, Request, healthy, is_resource_feasible, node_can_fit,
}
use green_shift.Policy.{
  carbon_first, rank_feasible_candidates, round_epsilon, validate_carbon_tolerance_pct,
}
use green_shift.Policy.Ranking.{CarbonFirstBest}
use green_shift.Prelude.Result.{ok}
use green_shift.Prelude.Sort.{sort_by, min_by}
use green_shift.Prelude.{ℕ, ◌+◌, ◌*◌, ◌≡◌, refl, true, false, some, none, [], ◌∷◌, All, arith}
use green_shift.Schedule.{
  aligned_slots, floor_hour, first_aligned, with_start, generate_candidate_slots,
}
use green_shift.Schedule.Window.{generate_candidate_slots_lem}
use green_shift.Schedule.Candidates.{IsInWindow}
use green_shift.Schedule.Evaluation.{
  CarbonDataPoint, Job, Environment, evaluate, evaluations, candidates, interpolate_carbon,
  interpolate_tariff,
}
use green_shift.Schedule.Choice.{
  ScheduleDecision, infeasible, resolve_tolerance, choose, execute_schedule_job,
}
use green_shift.Schedule.Sound.{
  IsAllowed, execute_schedule_job-IsAllowed, execute_schedule_job-carbon_first,
}
use green_shift.Schedule.Complete.{execute_schedule_job_complete}
use green_shift.Slots.{hour, minute}

program : Unit {0}
unfolding aligned_slots floor_hour first_aligned with_start generate_candidate_slots
    interpolate_carbon interpolate_tariff min_by evaluate candidates is_resource_feasible
    node_can_fit infeasible resolve_tolerance choose execute_schedule_job rank_feasible_candidates
    round_epsilon sort_by validate_carbon_tolerance_pct
program = tt

abbrev half_past : ℕ
half_past = 100 * hour + 30 * minute

abbrev cluster : ClusterResourceSnapshot
cluster = record {
  connected = true;
  cluster_health = healthy;
  free_cpu_cores = 8_000_000_000;
  free_memory_mib = 8_192_000_000_000;
  free_gpus = 0;
  nodes = [];
}

abbrev half_core : Request
half_core = record {
  cpu_request_cores = 500_000_000;
  memory_request_mib = 512_000_000_000;
  gpu_request = 0;
}

abbrev dirty : CarbonDataPoint
dirty = record { timestamp = 100 * hour; carbon_gco2_kwh = 500_000_000_000; is_fallback = false }

abbrev clean : CarbonDataPoint
clean = record { timestamp = 102 * hour; carbon_gco2_kwh = 100_000_000_000; is_fallback = false }

abbrev env : Environment
env = record {
  now = 100 * hour;
  offset = 0;
  region_eligible = true;
  cluster = cluster;
  carbon_curve = dirty ∷ clean ∷ [];
  tariff_curve = [];
  template_rate = λ _. some 120_000_000;
}

abbrev job : Job
job = record {
  deadline = 104 * hour;
  runtime_minutes = 60;
  power_kw = 2_000_000_000;
  carbon_budget_kg = some 1_000_000_000;
  energy_kwh = none;
  earliest_start_time = none;
  deferrable = none;
  request = half_core;
}

four_hours : candidates env job ≡ 100 * hour ∷ 101 * hour ∷ 102 * hour ∷ 103 * hour ∷ []
unfolding program
four_hours = refl

half_past_first :
    generate_candidate_slots 0 half_past (104 * hour) 60 true
    ≡ half_past ∷ 101 * hour ∷ 102 * hour ∷ 103 * hour ∷ []
unfolding program
half_past_first = refl

abbrev decision : ScheduleDecision
decision = record {
  selected = evaluate env job (102 * hour);
  ranked =
      evaluate env job (102 * hour)
      ∷ evaluate env job (103 * hour)
      ∷ evaluate env job (100 * hour)
      ∷ evaluate env job (101 * hour)
      ∷ [];
  scheduler_objective = carbon_first;
  carbon_tolerance_pct = none;
  candidates_evaluated = 4;
  feasible_candidates_count = 4;
  budget_remaining = some 800_000_000;
  baseline_start = 100 * hour;
}

decided : execute_schedule_job env job none none ≡ ok decision
unfolding program
decided = refl

generate_candidate_slots_lem_example :
    All
      (IsInWindow half_past (104 * hour) 60)
      (generate_candidate_slots 0 half_past (104 * hour) 60 true)
generate_candidate_slots_lem_example =
    (generate_candidate_slots_lem 0 half_past (104 * hour) 60 true (omega arith)).0

execute_schedule_job-IsAllowed_example : IsAllowed env job (evaluate env job (102 * hour))
execute_schedule_job-IsAllowed_example =
    execute_schedule_job-IsAllowed env job none none decision decided

execute_schedule_job-carbon_first_example :
    All
      (λ e.
        e.feasible ≡ true
        → CarbonFirstBest
            (λ c. c.carbon_emission_kg)
            (λ c. c.electricity_cost)
            (λ c. c.start_time)
            (evaluate env job (102 * hour))
            e)
      (evaluations env job)
execute_schedule_job-carbon_first_example =
    execute_schedule_job-carbon_first env job none decision decided

execute_schedule_job_complete_example :
    (d : ScheduleDecision) × (execute_schedule_job env job none none ≡ ok d)
unfolding program
execute_schedule_job_complete_example =
    execute_schedule_job_complete env job none none none refl refl

abbrev blind : Environment
blind = record env { carbon_curve = [] }
