-- ===== src/Settings/Tolerance.antt =====
-- With CARBON_CONSTRAINED a company always has a tolerance.
use text.Mathlib.TextEquality.{eq_iff}
use green_shift.Policy.{
  OptimizationPolicy, carbon_first, cost_first, carbon_constrained, Value,
  validate_carbon_tolerance_pct, InvalidOptimizationPolicyError,
}
use green_shift.Prelude.Dict.{lookup, string_eq}
use green_shift.Prelude.Result.{Result, ok, err, ok-injective}
use green_shift.Prelude.{
  ℕ, ◌≡◌, sym, ap, subst, String, Option, none, some, true, is_some, str_eq, Bool-cases, inl, inr,
}
use green_shift.Settings.{
  Table, Effective, resolve_effective_policy, active_row, tolerance_for, accepted,
}
use green_shift.Settings.Ranking.{Reachable, empty, updated}
use green_shift.Settings.Resolve.{update_own_company_policy_lem}

abbrev pub HasTolerance : Effective → Type 0
HasTolerance (carbon_constrained, pct) = is_some pct ≡ true
HasTolerance (policy, pct) = Unit {0}

accepted-is_some :
    (r : Result InvalidOptimizationPolicyError ℕ) (pct : Option ℕ)
    → accepted r ≡ ok pct
    → is_some pct ≡ true
accepted-is_some (err raised) pct h = absurd cc
accepted-is_some (ok n) pct h = ap is_some (sym (ok-injective h))

tolerance_for-HasTolerance :
    (p : OptimizationPolicy) (given : Option Value) (pct : Option ℕ)
    → tolerance_for p given ≡ ok pct
    → HasTolerance (p, pct)
tolerance_for-HasTolerance carbon_first given pct h = tt
tolerance_for-HasTolerance cost_first given pct h = tt
tolerance_for-HasTolerance carbon_constrained none pct h = absurd cc
tolerance_for-HasTolerance carbon_constrained (some v) pct h =
    accepted-is_some (validate_carbon_tolerance_pct v) pct h

named-HasTolerance :
    (t : Table) (k : String) → Reachable t → HasTolerance (resolve_effective_policy t (some k))
unfolding resolve_effective_policy active_row lookup
named-HasTolerance _ k empty = elim (Bool-cases (str_eq k "")) [
  | inl unnamed ↦ rw unnamed tt
  | inr named ↦ rw named tt
]
named-HasTolerance u k (updated {t = t} now user value given before h) =
    let (tenant_id, p, pct, admin, named, tolerated, resolved, seen, rest) =
      update_own_company_policy_lem now user value given t u h in
    elim (Bool-cases (str_eq k tenant_id)) [
      | inl same ↦
          subst (λ i. HasTolerance (resolve_effective_policy u (some i)))
            (sym ((eq_iff k tenant_id).0 same))
            (subst HasTolerance (sym resolved) (tolerance_for-HasTolerance p given pct tolerated))
      | inr apart ↦ subst HasTolerance (sym (rest k apart)) (named-HasTolerance t k before)
    ]

pub Reachable-HasTolerance :
    (t : Table) (tenant_id : Option String)
    → Reachable t
    → HasTolerance (resolve_effective_policy t tenant_id)
unfolding resolve_effective_policy
Reachable-HasTolerance t none before = tt
Reachable-HasTolerance t (some k) before = named-HasTolerance t k before
