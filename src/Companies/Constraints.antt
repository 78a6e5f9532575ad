-- ===== src/Companies/Constraints.antt =====
-- The constraints of the tables of app/companies/service.py as an invariant, and what registering a
-- company and creating users and teams does to it.
use green_shift.Companies.{
  Tenant, Team, Member, CompanyEvent, Store, clash_tenants, clash_teams, clash_users,
  has_tenant_row, refers, takes_tenant, takes_team, takes_user, with_tenant, with_team, with_user,
  with_event,
}
use green_shift.Prelude.Texts.{Text}
use green_shift.Prelude.{
  ◌≡◌, refl, true, Option, none, some, List, ◌∷◌, All, All-map_of, IsUnique, arith,
}

pub record IsValid (s : Store) : Type 0 where
  pub unique_tenants : IsUnique clash_tenants s.tenants
  pub unique_teams : IsUnique clash_teams s.teams
  pub unique_users : IsUnique clash_users s.users
  pub teams_refer : All (λ t. has_tenant_row s.tenants t.tenant_id ≡ true) s.teams
  pub users_refer : All (λ u. refers s.tenants u.tenant_id ≡ true) s.users

refers_more :
    (t : Tenant) (tenants : List Tenant) (id : Option Text)
    → refers tenants id ≡ true
    → refers (t ∷ tenants) id ≡ true
refers_more t tenants none h = refl
refers_more t tenants (some id) h = ground (arith, h)

pub with_tenant-IsValid :
    (s : Store) (t : Tenant) → takes_tenant s t ≡ true → IsValid s → IsValid (with_tenant t s)
with_tenant-IsValid s t takes v = record {
  unique_tenants = (ground (arith, takes), v.unique_tenants);
  unique_teams = v.unique_teams;
  unique_users = v.unique_users;
  teams_refer =
      All-map_of (λ x h. refers_more t s.tenants (some x.tenant_id) h) s.teams v.teams_refer;
  users_refer = All-map_of (λ x h. refers_more t s.tenants x.tenant_id h) s.users v.users_refer;
}

pub with_team-IsValid :
    (s : Store) (t : Team) → takes_team s t ≡ true → IsValid s → IsValid (with_team t s)
with_team-IsValid s t takes v = record {
  unique_tenants = v.unique_tenants;
  unique_teams = (ground (arith, takes), v.unique_teams);
  unique_users = v.unique_users;
  teams_refer = (ground (arith, takes), v.teams_refer);
  users_refer = v.users_refer;
}

pub with_user-IsValid :
    (s : Store) (u : Member) → takes_user s u ≡ true → IsValid s → IsValid (with_user u s)
with_user-IsValid s u takes v = record {
  unique_tenants = v.unique_tenants;
  unique_teams = v.unique_teams;
  unique_users = (ground (arith, takes), v.unique_users);
  teams_refer = v.teams_refer;
  users_refer = (ground (arith, takes), v.users_refer);
}

pub with_event-IsValid : (s : Store) (e : CompanyEvent) → IsValid s → IsValid (with_event e s)
with_event-IsValid s e v = record {
  unique_tenants = v.unique_tenants;
  unique_teams = v.unique_teams;
  unique_users = v.unique_users;
  teams_refer = v.teams_refer;
  users_refer = v.users_refer;
}
