-- ===== src/Contention/Holds.antt =====
-- What holds of every candidate holds of the one that app/decide/batch_scheduler.py chooses.
use green_shift.Contention.{BatchCandidate}
use green_shift.Contention.Choosing.{
  head_or_error, ranked_by, least_loaded, choose_from, choose_slot,
}
use green_shift.Policy.{OptimizationPolicy, InvalidOptimizationPolicyError}
use green_shift.Policy.Ranking.{All-rank}
use green_shift.Prelude.Result.{Result, ok, err, >>=-eq-ok, ok-injective}
use green_shift.Prelude.Sort.{min_by-holds}
use green_shift.Prelude.{
  ℕ, ◌≡◌, ◌⊎◌, refl, sym, subst, Bool, true, false, not, String, Option, List, [], ◌∷◌, keep_if,
  ◌==◌, All, All-map_of, All-both, All-keep_if, All-keep_if_of, All-of-keep_if, Bool-cases, inl,
  inr,
}
use green_shift.Settings.Ranking.{as_value}
use green_shift.Slots.{SlotCapacityRegistry}

module _ (P : BatchCandidate → Type 0) where
  -- What holds of every ranked candidate holds of the first.
  head-holds :
      (cost_of : BatchCandidate → Option ℕ) (policy : OptimizationPolicy) (pct : Option ℕ)
      (cs : List BatchCandidate) (r : Result InvalidOptimizationPolicyError (List BatchCandidate))
      (c : BatchCandidate)
      → ranked_by cost_of policy pct cs ≡ r
      → head_or_error r ≡ ok c
      → All P cs
      → P c
  head-holds cost_of policy pct cs (err e) c ranked h each = absurd cc
  head-holds cost_of policy pct cs (ok []) c ranked h each = absurd cc
  head-holds cost_of policy pct cs (ok (d ∷ ds)) c ranked h each =
      subst P (ok-injective h)
        (All-rank (λ (x : BatchCandidate). x.carbon_emission_kg) cost_of
          (λ (x : BatchCandidate). x.start_time) P cs policy (as_value pct) (d ∷ ds) ranked each).0

  least_loaded-holds :
      (registry : SlotCapacityRegistry) (region : String) (cs : List BatchCandidate)
      (r : Result InvalidOptimizationPolicyError (List BatchCandidate)) (c : BatchCandidate)
      → least_loaded registry region cs r ≡ ok c
      → All P cs
      → P c
  least_loaded-holds registry region cs (err e) c h each = absurd cc
  least_loaded-holds registry region [] (ok ranked) c h each = absurd cc
  least_loaded-holds registry region (d ∷ ds) (ok ranked) c h each =
      subst P (ok-injective h) (min_by-holds _ P d ds each.0 each.1)

-- No element passes a test that leaves nothing.
pub none_fit :
    {A : Type 0} (p : A → Bool) (xs : List A) → keep_if p xs ≡ [] → All (λ x. p x ≡ false) xs
none_fit p xs e =
    All-map_of (λ x h. elim (Bool-cases (p x)) [ inl fits ↦ absurd (h fits) | inr full ↦ full ]) xs
      (All-of-keep_if p (λ x. ⊥) xs (subst (All (λ x. ⊥)) (sym e) tt))

-- The candidate has room, or no feasible one has.
abbrev pub HasRoom : List BatchCandidate → BatchCandidate → Type 0
HasRoom feasible c = (c.has_capacity ≡ true) ⊎ All (λ d. d.has_capacity ≡ false) feasible

module _ (P : BatchCandidate → Type 0) where
  choose_from-holds :
      (registry : SlotCapacityRegistry) (region : String) (policy : OptimizationPolicy)
      (pct : Option ℕ) (feasible : List BatchCandidate) (preferred : BatchCandidate)
      (room : List BatchCandidate) (chosen : BatchCandidate × Bool)
      → keep_if (λ c. c.has_capacity) feasible ≡ room
      → choose_from registry region policy pct feasible preferred room ≡ ok chosen
      → All P feasible
      → P chosen.0 × HasRoom feasible chosen.0
  choose_from-holds registry region policy pct feasible preferred [] chosen e h each =
      let (c, found, done) =
        >>=-eq-ok
          (least_loaded registry region feasible
            (ranked_by (λ d. d.electricity_cost) policy pct feasible))
          (λ d. ok (d, true)) h in
      subst (λ (r : BatchCandidate × Bool). P r.0 × HasRoom feasible r.0) (ok-injective done)
        (
          least_loaded-holds P registry region feasible
              (ranked_by (λ d. d.electricity_cost) policy pct feasible) c found each,
          inr (none_fit (λ d. d.has_capacity) feasible e),
        )
  choose_from-holds registry region policy pct feasible preferred (d ∷ ds) chosen e h each =
      let (c, found, done) =
        >>=-eq-ok (head_or_error (ranked_by (λ x. x.effective_cost) policy pct (d ∷ ds)))
          (λ x. ok (x, not (x.start_time == preferred.start_time))) h in
      let fitting = subst (All (λ x. P x × (x.has_capacity ≡ true))) e (
        All-both P (λ x. x.has_capacity ≡ true) (keep_if (λ x. x.has_capacity) feasible)
          (All-keep_if_of (λ x. x.has_capacity) P feasible each)
          (All-keep_if (λ x. x.has_capacity) feasible)) in
      let best =
        head-holds (λ x. P x × (x.has_capacity ≡ true)) (λ x. x.effective_cost) policy pct (d ∷ ds)
          (ranked_by (λ x. x.effective_cost) policy pct (d ∷ ds)) c refl found fitting in
      subst (λ (r : BatchCandidate × Bool). P r.0 × HasRoom feasible r.0) (ok-injective done)
        (best.0, inl best.1)

  pub choose_slot-holds :
      (registry : SlotCapacityRegistry) (region : String) (policy : OptimizationPolicy)
      (pct : Option ℕ) (feasible : List BatchCandidate) (chosen : BatchCandidate × Bool)
      → choose_slot registry region policy pct feasible ≡ ok chosen
      → All P feasible
      → P chosen.0 × HasRoom feasible chosen.0
  unfolding choose_slot
  choose_slot-holds registry region policy pct feasible chosen h each =
      let (preferred, found, rest) =
        >>=-eq-ok (head_or_error (ranked_by (λ c. c.electricity_cost) policy pct feasible)) _ h in
      choose_from-holds registry region policy pct feasible preferred
        (keep_if (λ c. c.has_capacity) feasible) chosen refl rest each
