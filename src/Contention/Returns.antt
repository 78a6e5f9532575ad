-- ===== src/Contention/Returns.antt =====
-- A batch of app/decide/batch_scheduler.py whose telemetry is known does not raise.
use green_shift.Contention.{
  Job, Environment, BatchCandidate, candidate_starts, or_start, start_bound, map_option,
  evaluate_slot, urgency_key, latest_end, sorted_jobs,
}
use green_shift.Contention.Batch.{
  after_choice, evaluations, schedule_one, stop_or, schedule_each, schedule_batch,
}
use green_shift.Contention.Choosing.{
  BatchError, ScheduleDecision, or_first, feasible_unconstrained, choose_slot, can_explain,
}
use green_shift.Contention.Sound.{feasible-holds}
use green_shift.Contention.Holds.{choose_slot-holds}
use green_shift.Contention.Placed.{IsPlan, schedule_each-IsPlan}
use green_shift.Policy.{OptimizationPolicy, carbon_first, cost_first, carbon_constrained}
use green_shift.Prelude.Result.{Result, ok, err}
use green_shift.Prelude.{
  ℕ, ◌≡◌, refl, Bool, true, ◌&&◌, Option, none, some, List, [], ◌∷◌, is_some, arith, All,
  All-map_of, All-map_intro, keep_if, map,
}
use green_shift.Prelude.Sort.{sort_by, All-sort_by}
use green_shift.Schedule.Evaluation.{interpolate_carbon, interpolate_tariff, or_true}
use green_shift.Settings.{Table, resolve_effective_policy}
use green_shift.Settings.Ranking.{Reachable}
use green_shift.Settings.Tolerance.{HasTolerance, Reachable-HasTolerance}
use green_shift.Slots.{SlotCapacityRegistry}
use green_shift.Contention.Choice.{IsNonEmpty, Returns, returned, choose-Returns}

-- Carbon and price are known at every candidate start.
abbrev pub IsKnown : Environment → Job → Type 0
IsKnown env j =
    All
      (λ t.
        (is_some (interpolate_carbon t (env.carbon_curve j.region)).0 ≡ true)
        × (is_some (interpolate_tariff (env.template_rate j) t (env.tariff_curve j)) ≡ true))
      (candidate_starts env j)

abbrev HasFigures : BatchCandidate → Type 0
HasFigures c = (is_some c.carbon_emission_kg && is_some c.electricity_cost) ≡ true

is_some-map_option : (f : ℕ → ℕ) (o : Option ℕ) → is_some (map_option f o) ≡ is_some o
is_some-map_option f none = refl
is_some-map_option f (some x) = refl

evaluate_slot-HasFigures :
    (env : Environment) (registry : SlotCapacityRegistry) (j : Job) (t : ℕ)
    → is_some (interpolate_carbon t (env.carbon_curve j.region)).0 ≡ true
    → is_some (interpolate_tariff (env.template_rate j) t (env.tariff_curve j)) ≡ true
    → HasFigures (evaluate_slot env registry j t)
unfolding evaluate_slot
evaluate_slot-HasFigures env registry j t carbon price =
    rw
      (
        is_some-map_option _ (interpolate_carbon t (env.carbon_curve j.region)).0,
        is_some-map_option _ (interpolate_tariff (env.template_rate j) t (env.tariff_curve j)),
        carbon,
        price,
      )
      refl

evaluations-HasFigures :
    (env : Environment) (registry : SlotCapacityRegistry) (j : Job)
    → IsKnown env j
    → All HasFigures (evaluations env registry j)
unfolding evaluations
evaluations-HasFigures env registry j known =
    All-map_intro (evaluate_slot env registry j) HasFigures (candidate_starts env j) (
      All-map_of (λ t h. evaluate_slot-HasFigures env registry j t h.0 h.1) (candidate_starts env j)
        known)

or_start-IsNonEmpty : (start : ℕ) (xs : List ℕ) → IsNonEmpty (or_start start xs)
or_start-IsNonEmpty start [] = tt
or_start-IsNonEmpty start (x ∷ xs) = tt

map-IsNonEmpty : {A B : Type 0} (f : A → B) (xs : List A) → IsNonEmpty xs → IsNonEmpty (map f xs)
map-IsNonEmpty f [] h = h
map-IsNonEmpty f (x ∷ xs) h = tt

evaluations-IsNonEmpty :
    (env : Environment) (registry : SlotCapacityRegistry) (j : Job)
    → IsNonEmpty (evaluations env registry j)
unfolding evaluations candidate_starts
evaluations-IsNonEmpty env registry j =
    map-IsNonEmpty (evaluate_slot env registry j) (candidate_starts env j)
      (or_start-IsNonEmpty (start_bound env.now j) _)

or_first-IsNonEmpty :
    (found kept : List BatchCandidate) → IsNonEmpty found → IsNonEmpty (or_first found kept)
or_first-IsNonEmpty [] kept h = absurd h
or_first-IsNonEmpty (c ∷ cs) [] h = tt
or_first-IsNonEmpty (c ∷ cs) (d ∷ ds) h = tt

feasible-IsNonEmpty :
    (found : List BatchCandidate) → IsNonEmpty found → IsNonEmpty (feasible_unconstrained found)
unfolding feasible_unconstrained
feasible-IsNonEmpty found h = or_first-IsNonEmpty found (keep_if (λ c. c.feasible) found) h

explains :
    (policy : OptimizationPolicy) (pct : Option ℕ) (deferrable spilled : Bool) (c : BatchCandidate)
    → HasTolerance (policy, pct)
    → HasFigures c
    → can_explain policy pct deferrable spilled c ≡ true
explains carbon_first pct deferrable spilled c tolerated figures = ground (arith, figures)
explains cost_first pct deferrable spilled c tolerated figures = ground (arith, figures)
explains carbon_constrained pct deferrable spilled c tolerated figures =
    ground (arith, figures, tolerated)

after-Returns :
    (env : Environment) (registry : SlotCapacityRegistry) (j : Job) (policy : OptimizationPolicy)
    (pct : Option ℕ) (r : Result BatchError (BatchCandidate × Bool))
    → HasTolerance (policy, pct)
    → Returns r
    → ((chosen : BatchCandidate × Bool) → r ≡ ok chosen → HasFigures chosen.0)
    → Returns
        (after_choice registry j policy pct
          (evaluations env registry j)
          (feasible_unconstrained (evaluations env registry j))
          r).1
after-Returns env registry j policy pct (err raised) tolerated returned figures = absurd returned
after-Returns env registry j policy pct (ok (c, spilled)) tolerated returned figures =
    rw (explains policy pct (or_true j.deferrable) spilled c tolerated (figures (c, spilled) refl))
      tt

one-Returns :
    (env : Environment) (policies : Table) (registry : SlotCapacityRegistry) (j : Job)
    → Reachable policies
    → IsKnown env j
    → Returns (schedule_one env policies registry j).1
unfolding schedule_one
one-Returns env policies registry j before known =
    let (policy, pct) = resolve_effective_policy policies j.tenant_id in
    let found = evaluations env registry j in
    let feasible = feasible_unconstrained found in
    after-Returns env registry j policy pct (choose_slot registry j.region policy pct feasible)
      (Reachable-HasTolerance policies j.tenant_id before)
      (choose-Returns policies before j registry feasible
        (feasible-IsNonEmpty found (evaluations-IsNonEmpty env registry j)))
      (λ chosen h.
        (choose_slot-holds HasFigures registry j.region policy pct feasible chosen h
          (feasible-holds HasFigures found (evaluations-HasFigures env registry j known))).0)

stop-Returns :
    (next : SlotCapacityRegistry) (r : Result BatchError ScheduleDecision)
    (rest : SlotCapacityRegistry × Result BatchError (List ScheduleDecision))
    → Returns r
    → Returns rest.1
    → Returns (stop_or next r rest).1
stop-Returns next (err raised) rest h k = absurd h
stop-Returns next (ok d) (after, err raised) h k = absurd k
stop-Returns next (ok d) (after, ok ds) h k = tt

each-Returns :
    (env : Environment) (policies : Table) (registry : SlotCapacityRegistry) (js : List Job)
    → Reachable policies
    → All (IsKnown env) js
    → Returns (schedule_each env policies registry js).1
unfolding schedule_each
each-Returns env policies registry [] before known = tt
each-Returns env policies registry (j ∷ js) before known =
    let (next, outcome) = schedule_one env policies registry j in
    stop-Returns next outcome (schedule_each env policies next js)
      (one-Returns env policies registry j before known.0)
      (each-Returns env policies next js before known.1)

-- A batch returns a decision for each job, whatever the load of the slots, the deadlines and the
-- budgets, where the policies are ones that the companies have set, and the carbon intensity and the
-- price are known at every candidate start of every job.
pub schedule_batch-Returns :
    (env : Environment) (policies : Table) (registry : SlotCapacityRegistry) (jobs : List Job)
    → Reachable policies
    → All (IsKnown env) jobs
    → (ds : List ScheduleDecision) × ((schedule_batch env policies registry jobs).1 ≡ ok ds)
      × IsPlan env registry (sorted_jobs env.now jobs) ds
unfolding schedule_batch sorted_jobs
schedule_batch-Returns env policies registry jobs before known =
    let key = urgency_key env.now (latest_end env.now jobs) in
    let (ds, h) = returned (schedule_each env policies registry (sort_by key jobs)).1 (
      each-Returns env policies registry (sort_by key jobs) before
        (All-sort_by key (IsKnown env) jobs known)) in
    (ds, h, schedule_each-IsPlan env policies registry (sort_by key jobs) ds h)
