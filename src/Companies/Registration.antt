-- ===== src/Companies/Registration.antt =====
-- `register_company` of app/companies/service.py. It reads one store and writes to a later one, since
-- other requests may come in between. Recording an audit event commits the session, and rolls it
-- back where another writer was first; how each recording went is an argument. Notifications are not
-- modelled.
use green_shift.Approval.{company_admin}
use green_shift.Companies.{
  Tenant, Team, Member, company_created, company_admin_created, Store, has_tenant_row, takes_tenant,
  takes_team, takes_user, with_tenant, with_team, with_user, with_event, same_email,
}
use green_shift.Companies.Naming.{
  dash, team_prefix, member, generate_unique_tenant_id, generate_unique_username,
}
use green_shift.Prelude.Result.{Result, ok, err, ◌>>=◌, ◌>>◌}
use green_shift.Prelude.Texts.{Text, text_eq}
use green_shift.Prelude.{
  Bool, true, false, ◌&&◌, Option, none, some, List, [], ◌∷◌, ◌++◌, if◌then◌else◌, any, length, map,
}
use green_shift.Settings.{SettingsError}

pub record CompanyRegisterRequest : Type 0 where
  pub company_name : Text
  pub company_email : Text
  pub admin_email : Text

pub data CompanyError : Type 0 where
  duplicate_name duplicate_company_email duplicate_email conflict out_of_draws lost : CompanyError
  duplicate_user duplicate_team role_denied not_found : CompanyError
  not_allowed : SettingsError → CompanyError

-- At the first attempt, at a later one after a rollback, or not at all, after a rollback too.
pub data AuditOutcome : Type 0 where
  recorded recorded_after_rollback not_recorded : AuditOutcome

abbrev pub refuse_if : Bool → CompanyError → Result CompanyError (Unit {0})
refuse_if test e = if test then err e else ok tt

abbrev pub check_new : CompanyRegisterRequest → Store → Result CompanyError (Unit {0})
check_new body seen = do
  refuse_if (any (λ t. text_eq body.company_name t.name) seen.tenants) duplicate_name
  refuse_if (any (λ t. same_email (some body.company_email) t.company_email) seen.tenants)
      duplicate_company_email
  refuse_if (any (λ u. text_eq body.admin_email u.email) seen.users) duplicate_email

abbrev pub or_out_of_draws : Option Text → Result CompanyError Text
or_out_of_draws none = err out_of_draws
or_out_of_draws (some t) = ok t

abbrev pub is_username : Store → Text → Bool
is_username s = member (map (λ (u : Member). u.username) s.users)

-- "default"
abbrev pub default_name : Text
default_name = 100 ∷ 101 ∷ 102 ∷ 97 ∷ 117 ∷ 108 ∷ 116 ∷ []

-- DEFAULT_TEAM_NAME, "General / Administration"
abbrev pub default_team_name : Text
default_team_name =
    71 ∷ 101 ∷ 110 ∷ 101 ∷ 114 ∷ 97 ∷ 108 ∷ 32 ∷ 47 ∷ 32 ∷ 65 ∷ 100 ∷ 109 ∷ 105 ∷ 110 ∷ 105 ∷ 115
    ∷ 116 ∷ 114 ∷ 97 ∷ 116 ∷ 105 ∷ 111 ∷ 110 ∷ []

abbrev pub new_tenant : CompanyRegisterRequest → Text → Tenant
new_tenant body id = record {
  id = id;
  name = body.company_name;
  company_email = some body.company_email;
}

abbrev pub default_team : Text → Team
default_team tenant_id = record {
  id = team_prefix ++ (tenant_id ++ dash ∷ default_name);
  tenant_id = tenant_id;
  name = default_team_name;
}

abbrev pub new_admin : CompanyRegisterRequest → Text → Text → Member
new_admin body tenant_id username = record {
  username = username;
  email = body.admin_email;
  role = company_admin;
  tenant_id = some tenant_id;
  team_id = some (default_team tenant_id).id;
}

abbrev pub with_rows : CompanyRegisterRequest → Text → Text → Store → Store
with_rows body tenant_id username s =
    with_user (new_admin body tenant_id username)
      (with_team (default_team tenant_id) (with_tenant (new_tenant body tenant_id) s))

-- Whether the three rows can be flushed, one after the other.
abbrev pub takes_rows : CompanyRegisterRequest → Text → Text → Store → Bool
takes_rows body tenant_id username s =
    let one = with_tenant (new_tenant body tenant_id) s in
    let two = with_team (default_team tenant_id) one in
    takes_tenant s (new_tenant body tenant_id)
    && (takes_team one (default_team tenant_id)
        && takes_user two (new_admin body tenant_id username))

abbrev pub second_event : AuditOutcome → Text → Store → Store
second_event not_recorded id s = s
second_event _ id s = with_event (company_admin_created id) s

-- The tables after both recordings, and whether the flushed rows are among them.
abbrev pub after_audit : AuditOutcome → AuditOutcome → Text → Store → Store → Store × Bool
after_audit recorded second id flushed s =
    (second_event second id (with_event (company_created id) flushed), true)
after_audit recorded_after_rollback second id flushed s =
    (second_event second id (with_event (company_created id) s), false)
after_audit not_recorded second id flushed s = (s, false)

-- The rows are refreshed after the commit, which raises where they were rolled back.
abbrev pub refreshed : Text → Store × Bool → Store × Result CompanyError Text
refreshed id (s, true) = (s, ok id)
refreshed id (s, false) = (s, err lost)

abbrev pub insert_company :
    AuditOutcome × AuditOutcome
    → CompanyRegisterRequest
    → Store
    → Result CompanyError (Text × Text)
    → Store × Result CompanyError Text
insert_company audits body s (err e) = (s, err e)
insert_company (first, second) body s (ok (tenant_id, username)) =
    if takes_rows body tenant_id username s
    then refreshed tenant_id
        (after_audit first second tenant_id (with_rows body tenant_id username s) s)
    else (s, err conflict)

-- The id and the user name, from the store that was read.
abbrev pub choose_names :
    List Text → CompanyRegisterRequest → Store → Result CompanyError (Text × Text)
choose_names draws body seen = do
  check_new body seen
  tenant_id ←
      or_out_of_draws
        (generate_unique_tenant_id (has_tenant_row seen.tenants) draws body.company_name)
  username ←
      or_out_of_draws
        (generate_unique_username (is_username seen) (length seen.users) body.admin_email)
  ok (tenant_id, username)

unfoldable pub register_company :
    List Text
    → AuditOutcome × AuditOutcome
    → CompanyRegisterRequest
    → Store
    → Store
    → Store × Result CompanyError Text
register_company draws audits body seen s =
    insert_company audits body s (choose_names draws body seen)
