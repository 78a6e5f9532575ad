-- ===== src/Settings/Resolve.antt =====
-- What DECIDE applies after a change of a company's policy, by
-- app/settings/optimization_policy_service.py.
use text.Mathlib.TextEquality.{eq_iff}
use green_shift.Access.{User}
use green_shift.Approval.{company_admin, has_tenant}
use green_shift.Policy.{
  OptimizationPolicy, carbon_first, cost_first, carbon_constrained, default_policy, Value,
}
use green_shift.Prelude.Dict.{lookup, insert, lookup-insert, string_eq}
use green_shift.Prelude.Result.{ok, >>=-eq-ok, ok-injective}
use green_shift.Prelude.Texts.{Text}
use green_shift.Prelude.{
  ℕ, ◌≡◌, refl, sym, ap, ◌∙◌, Bool, true, false, String, Option, none, some, if◌then◌else◌, str_eq,
  arith,
}
use green_shift.Settings.{
  PolicyRow, Table, value_of, validate_policy, active_row, if_active,
  require_company_admin_of_own_company, effective, effective_row, of_row, resolve_effective_policy,
  policy_or_error, tolerance_for, write, new_row, changed, or_duplicate, to_response,
  update_own_company_policy, get_own_company_policy,
}

-- A stored name is read back as the policy it names.
validate_policy-value_of : (p : OptimizationPolicy) → validate_policy (value_of p) ≡ some p
unfolding validate_policy
validate_policy-value_of carbon_first = refl
validate_policy-value_of cost_first = refl
validate_policy-value_of carbon_constrained = refl

policy_or_error-eq-ok :
    (value : Text) (p : OptimizationPolicy)
    → policy_or_error value ≡ ok p
    → validate_policy value ≡ some p
policy_or_error-eq-ok value p h = ground (arith, h)

-- An administrator of a company, and the company.
pub record IsAdminOf (user : User) (tenant_id : String) : Type 0 where
  pub own : user.tenant_id ≡ some tenant_id
  pub named : has_tenant (some tenant_id) ≡ true
  pub role : user.role ≡ company_admin

IsAdminOf-eq-ok :
    (user : User) (tenant_id : String)
    → require_company_admin_of_own_company user ≡ ok tenant_id
    → IsAdminOf user tenant_id
unfolding require_company_admin_of_own_company
IsAdminOf-eq-ok user tenant_id h = record {
  own = ground (arith, h);
  named = ground (arith, h);
  role = ground (arith, h);
}

-- Without CARBON_CONSTRAINED there is no tolerance.
effective-tolerance_for :
    (p : OptimizationPolicy) (given : Option Value) (pct : Option ℕ)
    → tolerance_for p given ≡ ok pct
    → effective p pct ≡ (p, pct)
effective-tolerance_for carbon_constrained given pct h = refl
effective-tolerance_for carbon_first none pct h = ap (λ o. (carbon_first, o)) (ok-injective h)
effective-tolerance_for cost_first none pct h = ap (λ o. (cost_first, o)) (ok-injective h)
effective-tolerance_for carbon_first (some v) pct h = absurd cc
effective-tolerance_for cost_first (some v) pct h = absurd cc

-- The row that is written has the policy and the tolerance, and is the only one that changes.
record IsWritten (t u : Table) (tenant_id : String) (policy : Text) (pct : Option ℕ) : Type 0 where
  pub row : PolicyRow
  pub found : lookup tenant_id u ≡ some row
  pub named : row.policy ≡ policy
  pub tolerated : row.carbon_tolerance_pct ≡ pct
  pub active : row.is_active ≡ true
  pub others : (k : String) → str_eq k tenant_id ≡ false → lookup k u ≡ lookup k t

inserted :
    (t u : Table) (tenant_id : String) (row : PolicyRow)
    → row.is_active ≡ true
    → insert tenant_id row t ≡ u
    → IsWritten t u tenant_id row.policy row.carbon_tolerance_pct
inserted t u tenant_id row active e = record {
  row = row;
  found =
      ap (lookup tenant_id) (sym e)
      ∙ lookup-insert tenant_id tenant_id row t
      ∙ rw ((eq_iff tenant_id tenant_id).1 refl) refl;
  named = refl;
  tolerated = refl;
  active = active;
  others = λ k apart. ap (lookup k) (sym e) ∙ lookup-insert tenant_id k row t ∙ rw apart refl;
}

or_duplicate-eq-ok : (b : Bool) (t u : Table) → or_duplicate b t ≡ ok u → (b ≡ true) × (t ≡ u)
or_duplicate-eq-ok true t u h = (refl, ok-injective h)
or_duplicate-eq-ok false t u h = absurd cc

write-IsWritten :
    (t u : Table) (tenant_id : String) (old : Option PolicyRow) (policy : Text) (pct : Option ℕ)
    (now user_id : ℕ)
    → write t tenant_id old policy pct now user_id ≡ ok u
    → IsWritten t u tenant_id policy pct
write-IsWritten t u tenant_id none policy pct now user_id h =
    inserted t u tenant_id (new_row policy pct now user_id) refl (ok-injective h)
write-IsWritten t u tenant_id (some row) policy pct now user_id h =
    let new = changed row policy pct now user_id in
    let (active, e) = or_duplicate-eq-ok row.is_active (insert tenant_id new t) u h in
    inserted t u tenant_id new active e

-- What the row gives.
resolve-IsWritten :
    (t u : Table) (tenant_id : String) (p : OptimizationPolicy) (pct : Option ℕ)
    → has_tenant (some tenant_id) ≡ true
    → effective p pct ≡ (p, pct)
    → IsWritten t u tenant_id (value_of p) pct
    → resolve_effective_policy u (some tenant_id) ≡ (p, pct)
unfolding resolve_effective_policy active_row
resolve-IsWritten t u tenant_id p pct given fits w =
    let kept : if_active (some w.row) ≡ some w.row =
      ap (λ b. if b then some w.row else none) w.active in
    let read : of_row (some w.row) ≡ (p, pct) =
      ap (λ name. effective_row w.row (validate_policy name)) w.named
      ∙ ap (effective_row w.row) (validate_policy-value_of p)
      ∙ ap (effective p) w.tolerated
      ∙ fits in
    rw given (ap (λ o. of_row (if_active o)) w.found ∙ ap of_row kept ∙ read)

resolve_other :
    (t u : Table) (tenant_id : String) (policy : Text) (pct : Option ℕ) (k : String)
    → IsWritten t u tenant_id policy pct
    → str_eq k tenant_id ≡ false
    → resolve_effective_policy u (some k) ≡ resolve_effective_policy t (some k)
unfolding resolve_effective_policy active_row
resolve_other t u tenant_id policy pct k w apart =
    ap (λ o. if has_tenant (some k) then of_row (if_active o) else (default_policy, none))
      (w.others k apart)

shown :
    (user : User) (t u : Table) (tenant_id : String) (policy : Text) (pct : Option ℕ)
    → IsAdminOf user tenant_id
    → IsWritten t u tenant_id policy pct
    → get_own_company_policy user u ≡ ok (policy, pct)
unfolding get_own_company_policy active_row
shown user t u tenant_id policy pct admin w =
    let kept : if_active (some w.row) ≡ some w.row =
      ap (λ b. if b then some w.row else none) w.active in
    let read : to_response (some w.row) ≡ (policy, pct) =
      ap (λ name. (name, w.row.carbon_tolerance_pct)) w.named ∙ ap (λ o. (policy, o)) w.tolerated in
    rw (admin.own, admin.named)
      (ap ok (ap (λ o. to_response (if_active o)) w.found ∙ ap to_response kept ∙ read))

-- A change that succeeds is by an administrator of a company, with a text that names a policy and a
-- tolerance that goes with it; then DECIDE applies exactly that policy and tolerance to the company's
-- jobs, the administrator is shown them, and what it applies for any other company is as before.
pub update_own_company_policy_lem :
    (now : ℕ) (user : User) (value : Text) (given : Option Value) (t u : Table)
    → update_own_company_policy now user value given t ≡ ok u
    → (tenant_id : String) × (p : OptimizationPolicy) × (pct : Option ℕ) × IsAdminOf user tenant_id
      × (validate_policy value ≡ some p)
      × (tolerance_for p given ≡ ok pct)
      × (resolve_effective_policy u (some tenant_id) ≡ (p, pct))
      × (get_own_company_policy user u ≡ ok (value_of p, pct))
      × ((k : String)
          → str_eq k tenant_id ≡ false
          → resolve_effective_policy u (some k) ≡ resolve_effective_policy t (some k))
unfolding update_own_company_policy
update_own_company_policy_lem now user value given t u h =
    let (tenant_id, own, rest) = >>=-eq-ok (require_company_admin_of_own_company user) _ h in
    let (p, named, last) = >>=-eq-ok (policy_or_error value) _ rest in
    let (pct, tolerated, written) = >>=-eq-ok (tolerance_for p given) _ last in
    let admin = IsAdminOf-eq-ok user tenant_id own in
    let w =
      write-IsWritten t u tenant_id (lookup tenant_id t) (value_of p) pct now user.id written in
    (
      tenant_id,
      p,
      pct,
      admin,
      policy_or_error-eq-ok value p named,
      tolerated,
      resolve-IsWritten t u tenant_id p pct admin.named
          (effective-tolerance_for p given pct tolerated) w,
      shown user t u tenant_id (value_of p) pct admin w,
      λ k apart. resolve_other t u tenant_id (value_of p) pct k w apart,
    )
