-- ===== src/Contention/Placed.antt =====
-- The plan of a whole batch by app/decide/batch_scheduler.py.
use mathlib.Core.List.{Perm}
use green_shift.Contention.{Job, Environment, BatchCandidate, urgency_key, latest_end, sorted_jobs}
use green_shift.Contention.Batch.{
  after_choice, evaluations, schedule_one, and_then, stop_or, schedule_each, schedule_batch,
  explained, decision_on,
}
use green_shift.Contention.Choosing.{
  BatchError, ScheduleDecision, feasible_unconstrained, choose_slot, can_explain,
}
use green_shift.Contention.Sound.{IsPlaced, choose_slot-IsPlaced}
use green_shift.Policy.{OptimizationPolicy}
use green_shift.Prelude.Result.{Result, ok, err, ok-injective}
use green_shift.Prelude.Sort.{sort_by, IsSortedBy, sort_by-IsSortedBy, sort_by-perm}
use green_shift.Prelude.{
  ℕ, ◌≡◌, ◌⊎◌, refl, subst, Bool, true, false, ◌&&◌, Option, List, [], ◌∷◌, is_some, arith,
}
use green_shift.Schedule.Evaluation.{or_true}
use green_shift.Settings.{Table, resolve_effective_policy}
use green_shift.Slots.{SlotCapacityRegistry, allocate}
use green_shift.Slots.Capacity.{IsValid, allocate-IsValid}

-- The registry after the job has been given its slot.
abbrev pub registry_after : SlotCapacityRegistry → Job → BatchCandidate → SlotCapacityRegistry
registry_after registry j c = (allocate registry j.region c.start_time j.runtime_minutes j.demand).0

-- A decision on a job, taken with that registry.
pub record IsDecision (env : Environment) (registry : SlotCapacityRegistry) (j : Job)
    (d : ScheduleDecision) : Type 0 where
  pub own : d.job_id ≡ j.job_id
  pub placed : IsPlaced env registry j d.selected
  pub figures :
      (or_true j.deferrable ≡ false)
      ⊎ ((is_some d.selected.carbon_emission_kg && is_some d.selected.electricity_cost) ≡ true)

-- Each job has a decision, in order, and each decision finds the registry as the ones before it
-- have left it.
abbrev pub IsPlan : Environment → SlotCapacityRegistry → List Job → List ScheduleDecision → Type 0
IsPlan env registry [] [] = Unit {0}
IsPlan env registry [] (d ∷ ds) = ⊥
IsPlan env registry (j ∷ js) [] = ⊥
IsPlan env registry (j ∷ js) (d ∷ ds) =
    IsDecision env registry j d × IsPlan env (registry_after registry j d.selected) js ds

explained-ok : (b : Bool) (d e : ScheduleDecision) → explained b d ≡ ok e → (b ≡ true) × (d ≡ e)
explained-ok true d e h = (refl, ok-injective h)
explained-ok false d e h = absurd cc

figures_of :
    (policy : OptimizationPolicy) (pct : Option ℕ) (deferrable spilled : Bool) (c : BatchCandidate)
    → can_explain policy pct deferrable spilled c ≡ true
    → (deferrable ≡ false) ⊎ ((is_some c.carbon_emission_kg && is_some c.electricity_cost) ≡ true)
figures_of policy pct deferrable spilled c h = ground (arith, h)

after_choice-IsDecision :
    (env : Environment) (registry : SlotCapacityRegistry) (j : Job) (policy : OptimizationPolicy)
    (pct : Option ℕ) (r : Result BatchError (BatchCandidate × Bool)) (d : ScheduleDecision)
    → choose_slot registry j.region policy pct (feasible_unconstrained (evaluations env registry j))
      ≡ r
    → (after_choice registry j policy pct
        (evaluations env registry j)
        (feasible_unconstrained (evaluations env registry j))
        r).1
      ≡ ok d
    → IsDecision env registry j d
      × ((after_choice registry j policy pct
            (evaluations env registry j)
            (feasible_unconstrained (evaluations env registry j))
            r).0
          ≡ registry_after registry j d.selected)
after_choice-IsDecision env registry j policy pct (err e) d found h = absurd cc
after_choice-IsDecision env registry j policy pct (ok (c, spilled)) d found h =
    let (can, same) =
      explained-ok (can_explain policy pct (or_true j.deferrable) spilled c)
        (decision_on j policy (evaluations env registry j)
          (feasible_unconstrained (evaluations env registry j)) c spilled)
        d h in
    subst
      (λ (x : ScheduleDecision).
        IsDecision env registry j x
        × (registry_after registry j c ≡ registry_after registry j x.selected))
      same
      (
        record {
          own = refl;
          placed = choose_slot-IsPlaced env registry j policy pct (c, spilled) found;
          figures = figures_of policy pct (or_true j.deferrable) spilled c can;
        },
        refl,
      )

schedule_one-IsDecision :
    (env : Environment) (policies : Table) (registry : SlotCapacityRegistry) (j : Job)
    (d : ScheduleDecision)
    → (schedule_one env policies registry j).1 ≡ ok d
    → IsDecision env registry j d
      × ((schedule_one env policies registry j).0 ≡ registry_after registry j d.selected)
unfolding schedule_one
schedule_one-IsDecision env policies registry j d h =
    let (policy, pct) = resolve_effective_policy policies j.tenant_id in
    after_choice-IsDecision env registry j policy pct
      (choose_slot registry j.region policy pct
        (feasible_unconstrained (evaluations env registry j)))
      d refl h

and_then-ok :
    (p : SlotCapacityRegistry × Result BatchError (List ScheduleDecision)) (d : ScheduleDecision)
    (ds : List ScheduleDecision)
    → (and_then p d).1 ≡ ok ds
    → (es : List ScheduleDecision) × (p.1 ≡ ok es) × (d ∷ es ≡ ds)
and_then-ok (registry, err raised) d ds h = absurd cc
and_then-ok (registry, ok es) d ds h = (es, refl, ok-injective h)

each-IsPlan :
    (env : Environment) (policies : Table) (registry : SlotCapacityRegistry) (j : Job)
    (js : List Job) (next : SlotCapacityRegistry) (r : Result BatchError ScheduleDecision)
    (rest : SlotCapacityRegistry × Result BatchError (List ScheduleDecision))
    (ds : List ScheduleDecision)
    → ((d : ScheduleDecision)
        → r ≡ ok d
        → IsDecision env registry j d × (next ≡ registry_after registry j d.selected))
    → ((es : List ScheduleDecision) → rest.1 ≡ ok es → IsPlan env next js es)
    → (stop_or next r rest).1 ≡ ok ds
    → IsPlan env registry (j ∷ js) ds
each-IsPlan env policies registry j js next (err raised) rest ds one more h = absurd cc
each-IsPlan env policies registry j js next (ok d) rest ds one more h =
    let (es, ended, whole) = and_then-ok rest d ds h in
    let (decided, e) = one d refl in
    subst (IsPlan env registry (j ∷ js)) whole
      (decided, subst (λ q. IsPlan env q js es) e (more es ended))

pub schedule_each-IsPlan :
    (env : Environment) (policies : Table) (registry : SlotCapacityRegistry) (js : List Job)
    (ds : List ScheduleDecision)
    → (schedule_each env policies registry js).1 ≡ ok ds
    → IsPlan env registry js ds
unfolding schedule_each
schedule_each-IsPlan env policies registry [] ds h =
    subst (IsPlan env registry []) (ok-injective h) tt
schedule_each-IsPlan env policies registry (j ∷ js) ds h =
    let (next, outcome) = schedule_one env policies registry j in
    each-IsPlan env policies registry j js next outcome (schedule_each env policies next js) ds
      (schedule_one-IsDecision env policies registry j) (schedule_each-IsPlan env policies next js)
      h

module _ {cpu mem gpus : ℕ} where
  after_choice-IsValid :
      (registry : SlotCapacityRegistry) (j : Job) (policy : OptimizationPolicy) (pct : Option ℕ)
      (found feasible : List BatchCandidate) (r : Result BatchError (BatchCandidate × Bool))
      → IsValid cpu mem gpus registry
      → IsValid cpu mem gpus (after_choice registry j policy pct found feasible r).0
  after_choice-IsValid registry j policy pct found feasible (err raised) v = v
  after_choice-IsValid registry j policy pct found feasible (ok (c, spilled)) v =
      allocate-IsValid registry j.region c.start_time j.runtime_minutes j.demand v

  schedule_one-IsValid :
      (env : Environment) (policies : Table) (registry : SlotCapacityRegistry) (j : Job)
      → IsValid cpu mem gpus registry
      → IsValid cpu mem gpus (schedule_one env policies registry j).0
  unfolding schedule_one
  schedule_one-IsValid env policies registry j =
      let (policy, pct) = resolve_effective_policy policies j.tenant_id in
      after_choice-IsValid registry j policy pct (evaluations env registry j)
        (feasible_unconstrained (evaluations env registry j))
        (choose_slot registry j.region policy pct
          (feasible_unconstrained (evaluations env registry j)))

  stop_or-IsValid :
      (next : SlotCapacityRegistry) (r : Result BatchError ScheduleDecision)
      (rest : SlotCapacityRegistry × Result BatchError (List ScheduleDecision))
      → IsValid cpu mem gpus next
      → IsValid cpu mem gpus rest.0
      → IsValid cpu mem gpus (stop_or next r rest).0
  stop_or-IsValid next (err raised) rest v w = v
  stop_or-IsValid next (ok d) (after, err raised) v w = w
  stop_or-IsValid next (ok d) (after, ok ds) v w = w

  schedule_each-IsValid :
      (env : Environment) (policies : Table) (registry : SlotCapacityRegistry) (js : List Job)
      → IsValid cpu mem gpus registry
      → IsValid cpu mem gpus (schedule_each env policies registry js).0
  unfolding schedule_each
  schedule_each-IsValid env policies registry [] v = v
  schedule_each-IsValid env policies registry (j ∷ js) v =
      let (next, outcome) = schedule_one env policies registry j in
      let w = schedule_one-IsValid env policies registry j v in
      stop_or-IsValid next outcome (schedule_each env policies next js) w
        (schedule_each-IsValid env policies next js w)

-- A batch keeps every slot of a valid registry within its capacity, up to the tolerance of 1e-6 of the
-- registry's tests, also where it raises. Where it returns, each job has exactly one decision, in the order of priority, deferrability, slack and id;
-- each is at one of the job's candidate starts and lasts its runtime, is over a minute after the
-- deadline at the latest with known carbon within the budget and known cost unless no candidate was
-- feasible, and its slots have room for it, with the decisions before it, unless no feasible candidate
-- had; the carbon and the cost of a deferrable job's slot are known in any case.
pub schedule_batch_lem :
    (cpu mem gpus : ℕ) (env : Environment) (policies : Table) (registry : SlotCapacityRegistry)
    (jobs : List Job)
    → IsValid cpu mem gpus registry
    → (let (after, outcome) = schedule_batch env policies registry jobs in
        IsValid cpu mem gpus after
        × ((ds : List ScheduleDecision)
            → outcome ≡ ok ds
            → IsPlan env registry (sorted_jobs env.now jobs) ds)
        × Perm (sorted_jobs env.now jobs) jobs
        × IsSortedBy (urgency_key env.now (latest_end env.now jobs)) (sorted_jobs env.now jobs))
unfolding schedule_batch sorted_jobs
schedule_batch_lem cpu mem gpus env policies registry jobs valid =
    let key = urgency_key env.now (latest_end env.now jobs) in
    let sorted = sort_by key jobs in
    (
      schedule_each-IsValid env policies registry sorted valid,
      λ ds h. schedule_each-IsPlan env policies registry sorted ds h,
      sort_by-perm key jobs,
      sort_by-IsSortedBy key jobs,
    )
