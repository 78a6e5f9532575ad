-- ===== src/Decide/Tests.antt =====
-- Two jobs that await a schedule, one of which is too late, and the theorems at them.
use green_shift.Approval.{submitted, approved, cancelled}
use green_shift.Cluster.{
  ClusterResourceSnapshot, Request, healthy, is_resource_feasible, node_can_fit,
}
use green_shift.Decide.{
  Job, Store, passed_on, schedule_and_store, store_decision, get_jobs_awaiting_schedule,
  process_each, process_pending_jobs,
}
use green_shift.Decide.Pending.{IsProcessed, process_pending_jobs_lem}
use green_shift.Decide.Storing.{IsStored, schedule_and_store_lem}
use green_shift.Policy.{
  carbon_first, rank_feasible_candidates, round_epsilon, validate_carbon_tolerance_pct,
}
use green_shift.Prelude.Dict.{lookup, insert, adjust, string_eq}
use green_shift.Prelude.Result.{ok}
use green_shift.Prelude.Sort.{sort_by, min_by}
use green_shift.Prelude.{ℕ, ◌*◌, ◌≡◌, refl, Option, true, false, some, none, [], ◌∷◌}
use green_shift.Schedule.{generate_candidate_slots}
use green_shift.Schedule.Choice.{
  ScheduleDecision, infeasible, resolve_tolerance, choose, execute_schedule_job,
}
use green_shift.Schedule.Evaluation.{
  CarbonDataPoint, Environment, evaluate, candidates, interpolate_carbon, interpolate_tariff,
}
use green_shift.Settings.{resolve_effective_policy, active_row, validate_policy}
use green_shift.Slots.{hour}

program : Unit {0}
unfolding generate_candidate_slots interpolate_carbon interpolate_tariff min_by evaluate candidates
    is_resource_feasible node_can_fit infeasible resolve_tolerance choose execute_schedule_job
    rank_feasible_candidates round_epsilon sort_by validate_carbon_tolerance_pct
    resolve_effective_policy active_row validate_policy lookup insert adjust schedule_and_store
    get_jobs_awaiting_schedule process_each process_pending_jobs
program = tt

abbrev cluster : ClusterResourceSnapshot
cluster = record {
  connected = true;
  cluster_health = healthy;
  free_cpu_cores = 8_000_000_000;
  free_memory_mib = 8_192_000_000_000;
  free_gpus = 0;
  nodes = [];
}

-- More GPUs than there are, which nobody looks at.
abbrev two_gpus : Request
two_gpus = record {
  cpu_request_cores = 500_000_000;
  memory_request_mib = 512_000_000_000;
  gpu_request = 2;
}

abbrev point : CarbonDataPoint
point = record { timestamp = 100 * hour; carbon_gco2_kwh = 500_000_000_000; is_fallback = false }

abbrev env : Environment
env = record {
  now = 100 * hour;
  offset = 0;
  region_eligible = true;
  cluster = cluster;
  carbon_curve = point ∷ [];
  tariff_curve = [];
  template_rate = λ _. some 120_000_000;
}

abbrev fetch : Job → Option Environment
fetch j = some env

abbrev job_until : ℕ → Job
job_until deadline = record {
  status = submitted;
  tenant_id = some "acme";
  work = record {
    deadline = deadline;
    runtime_minutes = 60;
    power_kw = 2_000_000_000;
    carbon_budget_kg = none;
    energy_kwh = none;
    earliest_start_time = none;
    deferrable = some false;
    request = two_gpus;
  };
}

abbrev urgent : Job
urgent = job_until (104 * hour)

abbrev tables : Store
tables = record {
  jobs = ("a", urgent) ∷ ("late", job_until (99 * hour)) ∷ [];
  decisions = [];
  policies = [];
}

abbrev decision : ScheduleDecision
decision = record {
  selected = evaluate env (passed_on urgent) (100 * hour);
  ranked = evaluate env (passed_on urgent) (100 * hour) ∷ [];
  scheduler_objective = carbon_first;
  carbon_tolerance_pct = none;
  candidates_evaluated = 1;
  feasible_candidates_count = 1;
  budget_remaining = none;
  baseline_start = 100 * hour;
}

-- The job was cancelled after it had been read.
abbrev changed : Store
changed = record tables { jobs = ("a", record urgent { status = cancelled }) ∷ [] }

scheduled_anyway :
    schedule_and_store fetch (100 * hour) "a" urgent changed
    ≡ ok (store_decision (100 * hour) "a" urgent decision changed, decision)
unfolding program
scheduled_anyway = refl

approved_after :
    (store_decision (100 * hour) "a" urgent decision changed).jobs
    ≡ ("a", record urgent { status = approved }) ∷ []
unfolding program
approved_after = refl

schedule_and_store_lem_example :
    IsStored fetch
      (100 * hour)
      "a"
      urgent
      changed
      "a"
      (store_decision (100 * hour) "a" urgent decision changed, decision)
schedule_and_store_lem_example =
    schedule_and_store_lem fetch (100 * hour) "a" urgent changed
      (store_decision (100 * hour) "a" urgent decision changed, decision) "a" refl scheduled_anyway

one_scheduled : (process_pending_jobs fetch (100 * hour) tables).1 ≡ 1
unfolding program
one_scheduled = refl

process_pending_jobs_lem_example :
    IsProcessed fetch
      (100 * hour)
      "a"
      urgent
      tables
      (process_pending_jobs fetch (100 * hour) tables).0
unfolding program
process_pending_jobs_lem_example =
    process_pending_jobs_lem fetch (100 * hour) tables "a" urgent (refl, (refl, tt)) refl
