-- ===== src/Approval/Permission.antt =====
-- Who may approve or decline, in app/approval/service.py.
use green_shift.Approval.{
  Job, User, UserRole, company_user, company_admin, platform_admin, other_tenant, has_tenant,
  check_user_approval_permission,
}
use green_shift.Prelude.Result.{ok}
use green_shift.Prelude.{String, Option, ◌≡◌, ◌≢◌, ◌↔◌, ◌⊎◌, false, some, arith}

by_role :
    (r : UserRole) (t : Option String) (j : Job)
    → (check_user_approval_permission j (some (record { role = r; tenant_id = t })) ≡ ok tt) ↔ (
        (r ≢ company_user)
        × ((r ≡ platform_admin) × (has_tenant t ≡ false) ⊎ (other_tenant t j.tenant_id ≡ false)))
unfolding check_user_approval_permission
by_role platform_admin t j = ground arith
by_role company_admin t j = ground arith
by_role company_user t j = ground arith

-- A user may decide on a job exactly when they are an administrator and either a platform
-- administrator without a tenant or not of another tenant than the job's, where both have one.
check_user_approval_permission_iff :
    (j : Job) (u : User)
    → (check_user_approval_permission j (some u) ≡ ok tt) ↔ (
        (u.role ≢ company_user)
        × ((u.role ≡ platform_admin) × (has_tenant u.tenant_id ≡ false)
            ⊎ (other_tenant u.tenant_id j.tenant_id ≡ false)))
check_user_approval_permission_iff j u = by_role u.role u.tenant_id j
