-- ===== src/Settings/Tests.antt =====
-- Two companies that set their policies, and the theorems at them.
use green_shift.Access.{User}
use green_shift.Approval.{company_admin, company_user}
use green_shift.Policy.{
  OptimizationPolicy, cost_first, carbon_constrained, numeric, finite,
  validate_carbon_tolerance_pct, rank_feasible_candidates, round_epsilon,
}
use green_shift.Prelude.Dict.{lookup, insert, string_eq}
use green_shift.Prelude.Result.{ok, err}
use green_shift.Prelude.Sort.{sort_by}
use green_shift.Prelude.Texts.{Text}
use green_shift.Prelude.{ℕ, false, str_eq, ◌≡◌, refl, String, Option, none, some, [], ◌∷◌}
use green_shift.Settings.{
  Table, new_row, value_of, validate_policy, active_row, require_company_admin_of_own_company,
  resolve_effective_policy, update_own_company_policy, get_own_company_policy, tolerance_for,
  not_admin, tolerance_unexpected,
}
use green_shift.Settings.Resolve.{IsAdminOf, update_own_company_policy_lem}

program : Unit {0}
unfolding lookup insert validate_carbon_tolerance_pct validate_policy active_row
    require_company_admin_of_own_company resolve_effective_policy update_own_company_policy
    get_own_company_policy rank_feasible_candidates round_epsilon sort_by
program = tt

abbrev admin : User
admin = record { id = 1; role = company_admin; tenant_id = some "acme"; team_id = none }

-- " cost_ﬁrst", with a ligature.
abbrev typed : Text
typed = 32 ∷ 99 ∷ 111 ∷ 115 ∷ 116 ∷ 95 ∷ 64257 ∷ 114 ∷ 115 ∷ 116 ∷ []

understood : validate_policy typed ≡ some cost_first
unfolding program
understood = refl

abbrev table : Table
table = ("acme", new_row (value_of carbon_constrained) (some 7) 10 1) ∷ []

set_first :
    update_own_company_policy 10 admin (value_of carbon_constrained) (some (numeric (finite 7))) []
    ≡ ok table
unfolding program
set_first = refl

-- A tolerance with another policy is refused.
refused_tolerance :
    update_own_company_policy 10 admin typed (some (numeric (finite 7))) table
    ≡ err tolerance_unexpected
unfolding program
refused_tolerance = refl

refused_user :
    update_own_company_policy 10 (record admin { role = company_user }) typed none table
    ≡ err not_admin
unfolding program
refused_user = refl

update_own_company_policy_lem_example :
    (tenant_id : String) × (p : OptimizationPolicy) × (pct : Option ℕ) × IsAdminOf admin tenant_id
    × (validate_policy (value_of carbon_constrained) ≡ some p)
    × (tolerance_for p (some (numeric (finite 7))) ≡ ok pct)
    × (resolve_effective_policy table (some tenant_id) ≡ (p, pct))
    × (get_own_company_policy admin table ≡ ok (value_of p, pct))
    × ((k : String)
        → str_eq k tenant_id ≡ false
        → resolve_effective_policy table (some k) ≡ resolve_effective_policy [] (some k))
unfolding program
update_own_company_policy_lem_example =
    update_own_company_policy_lem 10 admin (value_of carbon_constrained) (some (numeric (finite 7)))
      [] table set_first
