-- ===== src/Settings/Ranking.antt =====
-- The policies of all companies, set in any order, in the ranking of app/decide/optimization_policy.py.
use text.Mathlib.TextEquality.{eq_iff}
use green_shift.Access.{User}
use green_shift.Policy.{
  OptimizationPolicy, carbon_first, cost_first, carbon_constrained, Value,
  InvalidOptimizationPolicyError, numeric, finite, validate_carbon_tolerance_pct,
  rank_feasible_candidates, max_carbon_tolerance_pct,
}
use green_shift.Policy.Validation.{validate_carbon_tolerance_pct_iff}
use green_shift.Prelude.Dict.{lookup, string_eq}
use green_shift.Prelude.Result.{Result, ok, err, ok-injective}
use green_shift.Prelude.Texts.{Text}
use green_shift.Prelude.{
  ℕ, ◌≤◌, ◌≡◌, refl, sym, subst, false, String, Option, none, some, List, [], ◌∷◌, str_eq,
  Bool-cases, ltb, inl, inr, arith,
}
use green_shift.Settings.{
  Table, Effective, resolve_effective_policy, active_row, tolerance_for, accepted,
  update_own_company_policy,
}
use green_shift.Settings.Resolve.{update_own_company_policy_lem}

-- A table that changes of policies lead to.
pub data Reachable : Table → Type 0 where
  empty : Reachable []
  updated :
      {t u : Table} (now : ℕ) (user : User) (value : Text) (given : Option Value)
      → Reachable t
      → update_own_company_policy now user value given t ≡ ok u
      → Reachable u

abbrev pub IsInRange : Option ℕ → Type 0
IsInRange none = Unit {0}
IsInRange (some pct) = pct ≤ max_carbon_tolerance_pct

abbrev pub as_value : Option ℕ → Option Value
as_value none = none
as_value (some pct) = some (numeric (finite pct))

validated-IsInRange :
    (v : Value) (pct : ℕ)
    → validate_carbon_tolerance_pct v ≡ ok pct
    → pct ≤ max_carbon_tolerance_pct
validated-IsInRange v pct h = elim ((validate_carbon_tolerance_pct_iff v pct).0 h) [
  | inl finite_one ↦ finite_one.1
  | inr zero_one ↦ omega (arith, zero_one.1)
]

accepted-IsInRange :
    (v : Value) (r : Result InvalidOptimizationPolicyError ℕ) (pct : Option ℕ)
    → validate_carbon_tolerance_pct v ≡ r
    → accepted r ≡ ok pct
    → IsInRange pct
accepted-IsInRange v (err raised) pct e h = absurd cc
accepted-IsInRange v (ok n) pct e h = subst IsInRange (ok-injective h) (validated-IsInRange v n e)

tolerance_for-IsInRange :
    (p : OptimizationPolicy) (given : Option Value) (pct : Option ℕ)
    → tolerance_for p given ≡ ok pct
    → IsInRange pct
tolerance_for-IsInRange carbon_constrained none pct h = absurd cc
tolerance_for-IsInRange carbon_constrained (some v) pct h =
    accepted-IsInRange v (validate_carbon_tolerance_pct v) pct refl h
tolerance_for-IsInRange carbon_first none pct h = subst IsInRange (ok-injective h) tt
tolerance_for-IsInRange cost_first none pct h = subst IsInRange (ok-injective h) tt
tolerance_for-IsInRange carbon_first (some v) pct h = absurd cc
tolerance_for-IsInRange cost_first (some v) pct h = absurd cc

Reachable-IsInRange :
    (t : Table) (k : String) → Reachable t → IsInRange (resolve_effective_policy t (some k)).1
unfolding resolve_effective_policy active_row lookup
Reachable-IsInRange _ k empty = elim (Bool-cases (str_eq k "")) [
  | inl unnamed ↦ rw unnamed tt
  | inr named ↦ rw named tt
]
Reachable-IsInRange u k (updated {t = t} now user value given before h) =
    let (tenant_id, p, pct, admin, named, tolerated, resolved, seen, rest) =
      update_own_company_policy_lem now user value given t u h in
    elim (Bool-cases (str_eq k tenant_id)) [
      | inl same ↦
          subst (λ i. IsInRange (resolve_effective_policy u (some i)).1)
            (sym ((eq_iff k tenant_id).0 same))
            (subst (λ (r : Effective). IsInRange r.1) (sym resolved)
              (tolerance_for-IsInRange p given pct tolerated))
      | inr apart ↦
          subst (λ (r : Effective). IsInRange r.1) (sym (rest k apart))
            (Reachable-IsInRange t k before)
    ]

module _ {ℓ} {C : Type ℓ} (carbon_of cost_of : C → Option ℕ) (start_of : C → ℕ) where
  rank_in_range :
      (p : OptimizationPolicy) (pct : Option ℕ) (cs : List C)
      → IsInRange pct
      → (ranked : List C) × (rank_feasible_candidates carbon_of cost_of start_of cs p (as_value pct)
          ≡ ok ranked)
  unfolding rank_feasible_candidates
  rank_in_range p pct [] fits = ([], refl)
  rank_in_range carbon_first pct (c ∷ cs) fits = (_, refl)
  rank_in_range cost_first pct (c ∷ cs) fits = (_, refl)
  rank_in_range carbon_constrained none (c ∷ cs) fits = (_, refl)
  rank_in_range carbon_constrained (some pct) (c ∷ cs) fits =
      let within : ltb max_carbon_tolerance_pct pct ≡ false = ground (arith, fits) in
      rw within (_, refl)

-- Whatever the companies have set, one after the other, the policy and the tolerance that DECIDE
-- resolves for a job, of any company or of none, are ones with which the ranking of feasible
-- candidates returns and does not raise, for every list of candidates.
pub rank_feasible_candidates-resolve_effective_policy :
    {C : Type 0} (carbon_of cost_of : C → Option ℕ) (start_of : C → ℕ) (cs : List C) (t : Table)
    (tenant_id : Option String)
    → Reachable t
    → (let (policy, pct) = resolve_effective_policy t tenant_id in
        (ranked : List C) × (rank_feasible_candidates carbon_of cost_of start_of cs policy
            (as_value pct)
          ≡ ok ranked))
unfolding resolve_effective_policy
rank_feasible_candidates-resolve_effective_policy carbon_of cost_of start_of cs t none before =
    rank_in_range carbon_of cost_of start_of _ none cs tt
rank_feasible_candidates-resolve_effective_policy carbon_of cost_of start_of cs t (some k) before =
    rank_in_range carbon_of cost_of start_of (resolve_effective_policy t (some k)).0
      (resolve_effective_policy t (some k)).1 cs (Reachable-IsInRange t k before)
