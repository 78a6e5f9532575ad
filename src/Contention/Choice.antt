-- ===== src/Contention/Choice.antt =====
-- The choice of app/decide/batch_scheduler.py among some candidates does not raise.
use mathlib.Core.List.Perm
use green_shift.Contention.{Job, BatchCandidate}
use green_shift.Contention.Choosing.{
  head_or_error, ranked_by, least_loaded, choose_from, choose_slot,
}
use green_shift.Policy.{OptimizationPolicy}
use green_shift.Policy.Ranking.{rank_feasible_candidates-perm}
use green_shift.Prelude.Result.{Result, ok, err, ◌>>=◌}
use green_shift.Prelude.{ℕ, ◌≡◌, refl, subst, Option, List, [], ◌∷◌, keep_if}
use green_shift.Settings.{Table, resolve_effective_policy}
use green_shift.Settings.Ranking.{
  Reachable, as_value, rank_feasible_candidates-resolve_effective_policy,
}
use green_shift.Slots.{SlotCapacityRegistry}

abbrev pub IsNonEmpty : {A : Type 0} → List A → Type 0
IsNonEmpty [] = ⊥
IsNonEmpty (x ∷ xs) = Unit {0}

abbrev IsEmpty : {A : Type 0} → List A → Type 0
IsEmpty [] = Unit {0}
IsEmpty (x ∷ xs) = ⊥

-- A value is returned.
abbrev pub Returns {ℓ} : {E : Type 0} {A : Type ℓ} → Result E A → Type 0
Returns (ok value) = Unit {0}
Returns (err raised) = ⊥

pub returned : {E A : Type 0} (r : Result E A) → Returns r → (a : A) × (r ≡ ok a)
returned (ok a) h = (a, refl)
returned (err e) h = absurd h

>>=-Returns :
    {E A B : Type 0} (first : Result E A) (next : A → Result E B)
    → Returns first
    → ((a : A) → Returns (next a))
    → Returns (first >>= next)
>>=-Returns (ok a) next h k = k a
>>=-Returns (err e) next h k = absurd h

head-Returns :
    (cost_of : BatchCandidate → Option ℕ) (policy : OptimizationPolicy) (pct : Option ℕ)
    (cs ranked : List BatchCandidate)
    → IsNonEmpty cs
    → ranked_by cost_of policy pct cs ≡ ok ranked
    → Returns (head_or_error (ranked_by cost_of policy pct cs))
head-Returns cost_of policy pct cs (c ∷ ranked) some_c e = rw e tt
head-Returns cost_of policy pct [] [] some_c e = absurd some_c
head-Returns cost_of policy pct (c ∷ cs) [] some_c e =
    let empty = Perm.nil-eq (
      rank_feasible_candidates-perm (λ (x : BatchCandidate). x.carbon_emission_kg) cost_of
        (λ (x : BatchCandidate). x.start_time) (c ∷ cs) policy (as_value pct) [] e) in
    absurd (subst (λ l. IsEmpty l) empty tt)

module _ (policies : Table) (before : Reachable policies) (j : Job) where
  abbrev policy : OptimizationPolicy
  policy = (resolve_effective_policy policies j.tenant_id).0

  abbrev pct : Option ℕ
  pct = (resolve_effective_policy policies j.tenant_id).1

  ranked_ok :
      (cost_of : BatchCandidate → Option ℕ) (cs : List BatchCandidate)
      → (ranked : List BatchCandidate) × (ranked_by cost_of policy pct cs ≡ ok ranked)
  ranked_ok cost_of cs =
      rank_feasible_candidates-resolve_effective_policy
        (λ (x : BatchCandidate). x.carbon_emission_kg) cost_of
        (λ (x : BatchCandidate). x.start_time) cs policies j.tenant_id before

  best-Returns :
      (cost_of : BatchCandidate → Option ℕ) (cs : List BatchCandidate)
      → IsNonEmpty cs
      → Returns (head_or_error (ranked_by cost_of policy pct cs))
  best-Returns cost_of cs some_c =
      let (ranked, e) = ranked_ok cost_of cs in head-Returns cost_of policy pct cs ranked some_c e

  least-Returns :
      (registry : SlotCapacityRegistry) (cs : List BatchCandidate)
      → IsNonEmpty cs
      → Returns
          (least_loaded registry j.region cs (ranked_by (λ c. c.electricity_cost) policy pct cs))
  least-Returns registry [] some_c = absurd some_c
  least-Returns registry (c ∷ cs) some_c =
      let (ranked, e) = ranked_ok (λ x. x.electricity_cost) (c ∷ cs) in rw e tt

  from-Returns :
      (registry : SlotCapacityRegistry) (feasible : List BatchCandidate)
      (preferred : BatchCandidate) (room : List BatchCandidate)
      → IsNonEmpty feasible
      → Returns (choose_from registry j.region policy pct feasible preferred room)
  from-Returns registry feasible preferred [] some_c =
      >>=-Returns _ _ (least-Returns registry feasible some_c) (λ c. tt)
  from-Returns registry feasible preferred (d ∷ ds) some_c =
      >>=-Returns _ _ (best-Returns (λ x. x.effective_cost) (d ∷ ds) tt) (λ c. tt)

  pub choose-Returns :
      (registry : SlotCapacityRegistry) (feasible : List BatchCandidate)
      → IsNonEmpty feasible
      → Returns (choose_slot registry j.region policy pct feasible)
  unfolding choose_slot
  choose-Returns registry feasible some_c =
      >>=-Returns _ _ (best-Returns (λ x. x.electricity_cost) feasible some_c)
        (λ c. from-Returns registry feasible c (keep_if (λ x. x.has_capacity) feasible) some_c)
