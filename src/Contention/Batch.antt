-- ===== src/Contention/Batch.antt =====
-- The loop of app/decide/batch_scheduler.py.
use green_shift.Contention.{
  Job, Environment, BatchCandidate, candidate_starts, evaluate_slot, sorted_jobs,
}
use green_shift.Contention.Choosing.{
  BatchError, feasible_unconstrained, choose_slot, can_explain, ScheduleDecision, cannot_format,
}
use green_shift.Policy.{OptimizationPolicy}
use green_shift.Prelude.Result.{Result, ok, err}
use green_shift.Prelude.{ℕ, Bool, true, false, Option, List, [], ◌∷◌, map, length}
use green_shift.Schedule.Evaluation.{or_true}
use green_shift.Settings.{Table, resolve_effective_policy}
use green_shift.Slots.{SlotCapacityRegistry, allocate}

abbrev pub decision_on :
    Job
    → OptimizationPolicy
    → List BatchCandidate
    → List BatchCandidate
    → BatchCandidate
    → Bool
    → ScheduleDecision
decision_on j policy evaluations feasible chosen spilled = record {
  job_id = j.job_id;
  selected = chosen;
  spilled_from_preferred = spilled;
  objective = policy;
  candidates_evaluated = length evaluations;
  feasible_candidates_count = length feasible;
}

-- Where the reason cannot be made, formatting it raises.
abbrev pub explained : Bool → ScheduleDecision → Result BatchError ScheduleDecision
explained true d = ok d
explained false d = err cannot_format

-- One round of the loop: the registry is changed before the reason is made.
abbrev pub after_choice :
    SlotCapacityRegistry
    → Job
    → OptimizationPolicy
    → Option ℕ
    → List BatchCandidate
    → List BatchCandidate
    → Result BatchError (BatchCandidate × Bool)
    → SlotCapacityRegistry × Result BatchError ScheduleDecision
after_choice registry j policy pct evaluations feasible (err raised) = (registry, err raised)
after_choice registry j policy pct evaluations feasible (ok (chosen, spilled)) =
    let (allocated, granted) =
      allocate registry j.region chosen.start_time j.runtime_minutes j.demand in
    (
      allocated,
      explained (can_explain policy pct (or_true j.deferrable) spilled chosen)
          (decision_on j policy evaluations feasible chosen spilled),
    )

unfoldable pub evaluations : Environment → SlotCapacityRegistry → Job → List BatchCandidate
evaluations env registry j = map (evaluate_slot env registry j) (candidate_starts env j)

unfoldable pub schedule_one :
    Environment
    → Table
    → SlotCapacityRegistry
    → Job
    → SlotCapacityRegistry × Result BatchError ScheduleDecision
schedule_one env policies registry j =
    let (policy, pct) = resolve_effective_policy policies j.tenant_id in
    let found = evaluations env registry j in
    let feasible = feasible_unconstrained found in
    after_choice registry j policy pct found feasible
      (choose_slot registry j.region policy pct feasible)

abbrev pub and_then :
    SlotCapacityRegistry × Result BatchError (List ScheduleDecision)
    → ScheduleDecision
    → SlotCapacityRegistry × Result BatchError (List ScheduleDecision)
and_then (registry, err raised) d = (registry, err raised)
and_then (registry, ok ds) d = (registry, ok (d ∷ ds))

abbrev pub stop_or :
    SlotCapacityRegistry
    → Result BatchError ScheduleDecision
    → SlotCapacityRegistry × Result BatchError (List ScheduleDecision)
    → SlotCapacityRegistry × Result BatchError (List ScheduleDecision)
stop_or registry (err raised) rest = (registry, err raised)
stop_or registry (ok d) rest = and_then rest d

unfoldable pub schedule_each :
    Environment
    → Table
    → SlotCapacityRegistry
    → List Job
    → SlotCapacityRegistry × Result BatchError (List ScheduleDecision)
schedule_each env policies registry [] = (registry, ok [])
schedule_each env policies registry (j ∷ js) =
    let (next, outcome) = schedule_one env policies registry j in
    stop_or next outcome (schedule_each env policies next js)

unfoldable pub schedule_batch :
    Environment
    → Table
    → SlotCapacityRegistry
    → List Job
    → SlotCapacityRegistry × Result BatchError (List ScheduleDecision)
schedule_batch env policies registry jobs =
    schedule_each env policies registry (sorted_jobs env.now jobs)
