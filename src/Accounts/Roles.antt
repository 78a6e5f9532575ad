-- ===== src/Accounts/Roles.antt =====
-- The roles that `require_roles` of app/shared/auth.py admits.
use green_shift.Accounts.Identities.{require_roles}
use green_shift.Approval.{UserRole, platform_admin, company_admin, company_user}
use green_shift.Prelude.Result.{ok}
use green_shift.Prelude.{ℕ, ◌≤◌, ◌≡◌, refl, List, arith}

abbrev pub rank : UserRole → ℕ
rank platform_admin = 2
rank company_admin = 1
rank company_user = 0

-- Whatever roles an endpoint names, a role above one that it admits is admitted too.
pub require_roles-monotone :
    (allowed : List UserRole) (r higher : UserRole)
    → rank r ≤ rank higher
    → require_roles allowed r ≡ ok tt
    → require_roles allowed higher ≡ ok tt
unfolding require_roles
require_roles-monotone allowed r platform_admin above h = refl
require_roles-monotone allowed platform_admin company_admin above h = absurd (omega (arith, above))
require_roles-monotone allowed company_admin company_admin above h = h
require_roles-monotone allowed company_user company_admin above h = ground (arith, h)
require_roles-monotone allowed platform_admin company_user above h = absurd (omega (arith, above))
require_roles-monotone allowed company_admin company_user above h = absurd (omega (arith, above))
require_roles-monotone allowed company_user company_user above h = h
