-- ===== src/Settings.antt =====
-- app/settings/optimization_policy_service.py: the optimization policy of each company, with the
-- validation of app/decide/optimization_policy.py. The table optimization_policies is keyed by the
-- tenant, which is unique; a stored tolerance is a number of nano percent.
pub mod Resolve
pub mod Ranking
pub mod Tolerance
mod Tests
use green_shift.Access.{User, is_platform_admin}
use green_shift.Approval.{company_admin, has_tenant}
use green_shift.Policy.{
  OptimizationPolicy, carbon_first, cost_first, carbon_constrained, default_policy, Value,
  InvalidOptimizationPolicyError, validate_carbon_tolerance_pct,
}
use green_shift.Prelude.Dict.{lookup, insert, string_eq}
use green_shift.Prelude.Result.{Result, ok, err, ◌>>=◌, ◌>>◌}
use green_shift.Prelude.Texts.{Text, text_eq, strip, upper}
use green_shift.Prelude.{
  ℕ, Bool, true, false, String, Option, none, some, List, [], ◌∷◌, if◌then◌else◌,
}

-- "CARBON_FIRST", "COST_FIRST" and "CARBON_CONSTRAINED"
abbrev pub value_of : OptimizationPolicy → Text
value_of carbon_first = 67 ∷ 65 ∷ 82 ∷ 66 ∷ 79 ∷ 78 ∷ 95 ∷ 70 ∷ 73 ∷ 82 ∷ 83 ∷ 84 ∷ []
value_of cost_first = 67 ∷ 79 ∷ 83 ∷ 84 ∷ 95 ∷ 70 ∷ 73 ∷ 82 ∷ 83 ∷ 84 ∷ []
value_of carbon_constrained =
    67 ∷ 65 ∷ 82 ∷ 66 ∷ 79 ∷ 78 ∷ 95 ∷ 67 ∷ 79 ∷ 78 ∷ 83 ∷ 84 ∷ 82 ∷ 65 ∷ 73 ∷ 78 ∷ 69 ∷ 68 ∷ []

-- The member of that value; `none` where `OptimizationPolicy(...)` raises.
abbrev pub of_value : Text → Option OptimizationPolicy
of_value t =
    if text_eq t (value_of carbon_first)
    then some carbon_first
    else if text_eq t (value_of cost_first)
    then some cost_first
    else if text_eq t (value_of carbon_constrained)
    then some carbon_constrained
    else none

unfoldable pub validate_policy : Text → Option OptimizationPolicy
validate_policy value = of_value (upper (strip value))

pub record PolicyRow : Type 0 where
  pub policy : Text
  pub carbon_tolerance_pct : Option ℕ
  pub is_active : Bool
  pub created_at : ℕ
  pub updated_at : Option ℕ
  pub updated_by_user_id : Option ℕ

abbrev pub Table : Type 0
Table = List (String × PolicyRow)

pub data SettingsError : Type 0 where
  no_company platform_admin_denied not_admin : SettingsError
  invalid_policy tolerance_required invalid_tolerance tolerance_unexpected : SettingsError
  duplicate_row : SettingsError

abbrev pub if_active : Option PolicyRow → Option PolicyRow
if_active none = none
if_active (some row) = if row.is_active then some row else none

unfoldable pub active_row : Table → String → Option PolicyRow
active_row t tenant_id = if_active (lookup tenant_id t)

-- `tenant_id` where it is given and not empty.
abbrev pub require_own_company : User → Result SettingsError String
require_own_company u = elim u.tenant_id [
  | none ↦ err no_company
  | some t ↦ if has_tenant (some t) then ok t else err no_company
]

abbrev pub check_role : User → Result SettingsError (Unit {0})
check_role u =
    if is_platform_admin u
    then err platform_admin_denied
    else elim u.role [ company_admin ↦ ok tt | _ ↦ err not_admin ]

unfoldable pub require_company_admin_of_own_company : User → Result SettingsError String
require_company_admin_of_own_company u = do
  tenant_id ← require_own_company u
  check_role u
  ok tenant_id

-- What DECIDE applies.
abbrev pub Effective : Type 0
Effective = OptimizationPolicy × Option ℕ

abbrev pub effective : OptimizationPolicy → Option ℕ → Effective
effective carbon_constrained pct = (carbon_constrained, pct)
effective policy pct = (policy, none)

abbrev pub effective_row : PolicyRow → Option OptimizationPolicy → Effective
effective_row row none = (default_policy, none)
effective_row row (some policy) = effective policy row.carbon_tolerance_pct

abbrev pub of_row : Option PolicyRow → Effective
of_row none = (default_policy, none)
of_row (some row) = effective_row row (validate_policy row.policy)

unfoldable pub resolve_effective_policy : Table → Option String → Effective
resolve_effective_policy t none = (default_policy, none)
resolve_effective_policy t (some tenant_id) =
    if has_tenant (some tenant_id) then of_row (active_row t tenant_id) else (default_policy, none)

abbrev pub policy_or_error : Text → Result SettingsError OptimizationPolicy
policy_or_error value = elim (validate_policy value) [
  | none ↦ err invalid_policy
  | some policy ↦ ok policy
]

abbrev pub accepted : Result InvalidOptimizationPolicyError ℕ → Result SettingsError (Option ℕ)
accepted (ok pct) = ok (some pct)
accepted (err raised) = err invalid_tolerance

-- A tolerance is asked for with CARBON_CONSTRAINED, and refused without.
abbrev pub tolerance_for : OptimizationPolicy → Option Value → Result SettingsError (Option ℕ)
tolerance_for carbon_constrained none = err tolerance_required
tolerance_for carbon_constrained (some v) = accepted (validate_carbon_tolerance_pct v)
tolerance_for policy none = ok none
tolerance_for policy (some v) = err tolerance_unexpected

-- A new row; there may be one that is not active, and then the commit fails.
abbrev pub new_row : Text → Option ℕ → ℕ → ℕ → PolicyRow
new_row policy pct now user_id = record {
  policy = policy;
  carbon_tolerance_pct = pct;
  is_active = true;
  created_at = now;
  updated_at = some now;
  updated_by_user_id = some user_id;
}

abbrev pub changed : PolicyRow → Text → Option ℕ → ℕ → ℕ → PolicyRow
changed row policy pct now user_id = record row {
  policy = policy;
  carbon_tolerance_pct = pct;
  updated_at = some now;
  updated_by_user_id = some user_id;
}

abbrev pub or_duplicate : Bool → Table → Result SettingsError Table
or_duplicate true t = ok t
or_duplicate false t = err duplicate_row

abbrev pub write :
    Table → String → Option PolicyRow → Text → Option ℕ → ℕ → ℕ → Result SettingsError Table
write t tenant_id none policy pct now user_id =
    ok (insert tenant_id (new_row policy pct now user_id) t)
write t tenant_id (some row) policy pct now user_id =
    or_duplicate row.is_active (insert tenant_id (changed row policy pct now user_id) t)

unfoldable pub update_own_company_policy :
    ℕ → User → Text → Option Value → Table → Result SettingsError Table
update_own_company_policy now user policy tolerance t = do
  tenant_id ← require_company_admin_of_own_company user
  validated ← policy_or_error policy
  pct ← tolerance_for validated tolerance
  write t tenant_id (lookup tenant_id t) (value_of validated) pct now user.id

-- `_to_response`, without who changed the policy and when.
abbrev pub to_response : Option PolicyRow → Text × Option ℕ
to_response none = (value_of default_policy, none)
to_response (some row) = (row.policy, row.carbon_tolerance_pct)

unfoldable pub get_own_company_policy : User → Table → Result SettingsError (Text × Option ℕ)
get_own_company_policy user t = do
  tenant_id ← require_own_company user
  ok (to_response (active_row t tenant_id))
