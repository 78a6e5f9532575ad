-- ===== src/Companies/Members.antt =====
-- What a company's administrator changes in app/companies/service.py: users, teams and the profile.
use green_shift.Access.{User}
use green_shift.Approval.{UserRole, platform_admin}
use green_shift.Companies.{Team, Member, Store, takes_team, takes_user, with_team, with_user}
use green_shift.Companies.Naming.{dash, team_prefix, slugify, local_part}
use green_shift.Companies.Registration.{
  CompanyError, not_allowed, role_denied, duplicate_user, duplicate_team, refuse_if,
}
use green_shift.Prelude.Result.{Result, ok, err, ◌>>=◌, ◌>>◌}
use green_shift.Prelude.Texts.{Text, text_eq, codes}
use green_shift.Prelude.{
  Bool, true, false, not, ◌&&◌, ◌||◌, String, Option, none, some, [], ◌∷◌, ◌++◌, if◌then◌else◌, any,
}
use green_shift.Settings.{SettingsError, require_company_admin_of_own_company}

abbrev pub own_company_of : Result SettingsError String → Result CompanyError Text
own_company_of (ok tenant_id) = ok (codes tenant_id)
own_company_of (err e) = err (not_allowed e)

pub record CompanyUserCreateRequest : Type 0 where
  pub email : Text
  pub username : Option Text
  pub role : UserRole
  pub team_id : Option Text

-- `body.username or body.email.split("@")[0]`
abbrev pub username_of : Text → Option Text → Text
username_of email none = local_part email
username_of email (some []) = local_part email
username_of email (some (c ∷ cs)) = c ∷ cs

abbrev pub is_platform_role : UserRole → Bool
is_platform_role platform_admin = true
is_platform_role _ = false

abbrev pub new_user : Text → CompanyUserCreateRequest → Member
new_user tenant_id body = record {
  username = username_of body.email body.username;
  email = body.email;
  role = body.role;
  tenant_id = some tenant_id;
  team_id = body.team_id;
}

unfoldable pub create_own_company_user :
    User → CompanyUserCreateRequest → Store → Store → Result CompanyError Store
create_own_company_user user body seen s = do
  tenant_id ← own_company_of (require_company_admin_of_own_company user)
  refuse_if (is_platform_role body.role) role_denied
  refuse_if
      (any
        (λ u.
          text_eq body.email u.email || text_eq (username_of body.email body.username) u.username)
        seen.users)
      duplicate_user
  refuse_if (not (takes_user s (new_user tenant_id body))) duplicate_user
  ok (with_user (new_user tenant_id body) s)

abbrev pub is_team : Store → Text → Bool
is_team s id = any (λ t. text_eq id t.id) s.teams

-- The id by the name, or by a random text where that is taken.
abbrev pub team_id_for : Text → Text → Text → Store → Text
team_id_for draw tenant_id name seen =
    let of_name = team_prefix ++ (tenant_id ++ dash ∷ slugify name) in
    if is_team seen of_name then team_prefix ++ (tenant_id ++ dash ∷ draw) else of_name

abbrev pub new_team : Text → Text → Text → Store → Team
new_team draw tenant_id name seen = record {
  id = team_id_for draw tenant_id name seen;
  tenant_id = tenant_id;
  name = name;
}

unfoldable pub create_own_company_team :
    Text → User → Text → Store → Store → Result CompanyError Store
create_own_company_team draw user name seen s = do
  tenant_id ← own_company_of (require_company_admin_of_own_company user)
  refuse_if (any (λ t. text_eq tenant_id t.tenant_id && text_eq name t.name) seen.teams)
      duplicate_team
  refuse_if (not (takes_team s (new_team draw tenant_id name seen))) duplicate_team
  ok (with_team (new_team draw tenant_id name seen) s)
