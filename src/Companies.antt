-- ===== src/Companies.antt =====
-- app/companies/service.py: the tables of companies, teams and users, with the constraints that the
-- database puts on them (app/shared/models.py). A company is a row of the table tenants. Passwords
-- and the free texts of a profile are not modelled.
pub mod Naming
pub mod Registration
pub mod Members
pub mod Profile
pub mod Constraints
pub mod Registered
pub mod Lifecycle
mod Tests
use green_shift.Approval.{UserRole}
use green_shift.Prelude.Texts.{Text, text_eq}
use green_shift.Prelude.{
  Bool, true, false, not, ◌&&◌, ◌||◌, Option, none, some, List, [], ◌∷◌, any, option_eq,
}

pub record Tenant : Type 0 where
  pub id : Text
  pub name : Text
  pub company_email : Option Text

pub record Team : Type 0 where
  pub id : Text
  pub tenant_id : Text
  pub name : Text

pub record Member : Type 0 where
  pub username : Text
  pub email : Text
  pub role : UserRole
  pub tenant_id : Option Text
  pub team_id : Option Text

-- The audit events that are recorded here.
pub data CompanyEvent : Type 0 where
  company_created company_admin_created : Text → CompanyEvent

pub record Store : Type 0 where
  pub tenants : List Tenant
  pub teams : List Team
  pub users : List Member
  pub events : List CompanyEvent

-- NULL is equal to nothing in a unique column.
abbrev pub same_email : Option Text → Option Text → Bool
same_email (some a) (some b) = text_eq a b
same_email _ _ = false

-- Two rows that the constraints do not allow beside one another: the primary keys and the unique
-- columns, alone and in pairs.
abbrev pub clash_tenants : Tenant → Tenant → Bool
clash_tenants a b =
    text_eq a.id b.id || (text_eq a.name b.name || same_email a.company_email b.company_email)

abbrev pub clash_teams : Team → Team → Bool
clash_teams a b = text_eq a.id b.id || (text_eq a.tenant_id b.tenant_id && text_eq a.name b.name)

abbrev pub clash_users : Member → Member → Bool
clash_users a b = text_eq a.username b.username || text_eq a.email b.email

abbrev pub has_tenant_row : List Tenant → Text → Bool
has_tenant_row tenants id = any (λ t. text_eq id t.id) tenants

-- The foreign key of a column that may be NULL.
abbrev pub refers : List Tenant → Option Text → Bool
refers tenants none = true
refers tenants (some id) = has_tenant_row tenants id

-- Whether the database takes a new row.
abbrev pub takes_tenant : Store → Tenant → Bool
takes_tenant s t = not (any (clash_tenants t) s.tenants)

abbrev pub takes_team : Store → Team → Bool
takes_team s t = not (any (clash_teams t) s.teams) && has_tenant_row s.tenants t.tenant_id

abbrev pub takes_user : Store → Member → Bool
takes_user s u = not (any (clash_users u) s.users) && refers s.tenants u.tenant_id

abbrev pub with_tenant : Tenant → Store → Store
with_tenant t s = record s { tenants = t ∷ s.tenants }

abbrev pub with_team : Team → Store → Store
with_team t s = record s { teams = t ∷ s.teams }

abbrev pub with_user : Member → Store → Store
with_user u s = record s { users = u ∷ s.users }

abbrev pub with_event : CompanyEvent → Store → Store
with_event e s = record s { events = e ∷ s.events }
