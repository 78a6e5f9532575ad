-- ===== src/Companies/Tests.antt =====
-- A company and its administrator, and the theorems at them.
use green_shift.Access.{User}
use green_shift.Approval.{company_admin, company_user}
use green_shift.Companies.{Member, Store}
use green_shift.Companies.Constraints.{IsValid}
use green_shift.Companies.Lifecycle.{register, create_user, done, next, IsSafe, Steps-IsSafe}
use green_shift.Companies.Members.{CompanyUserCreateRequest, create_own_company_user}
use green_shift.Companies.Naming.{
  first_free, slugify, local_part, numbered, generate_unique_tenant_id, generate_unique_username,
}
use green_shift.Companies.Naming.Slug.{is_slug, slugify-is_slug}
use green_shift.Companies.Registered.{
  IsAllOrNothing, register_company_lem, generate_unique_username-is_username,
}
use green_shift.Companies.Registration.{
  CompanyRegisterRequest, recorded, register_company, is_username,
}
use green_shift.Prelude.Result.{ok}
use green_shift.Prelude.Texts.{Text, codes, decimal}
use green_shift.Prelude.{◌≡◌, refl, true, false, some, none, [], ◌∷◌, length}
use green_shift.Settings.{require_company_admin_of_own_company}

program : Unit {0}
unfolding slugify first_free generate_unique_tenant_id generate_unique_username local_part numbered
    decimal register_company create_own_company_user require_company_admin_of_own_company
program = tt

slug : slugify (codes "  ACME, Inc. & Co. ") ≡ codes "acme-inc-co"
unfolding program
slug = refl

no_letters : slugify (codes "--- !!") ≡ codes "company"
unfolding program
no_letters = refl

slugify-is_slug_example : is_slug true (slugify (codes "ACME, Inc.")) ≡ true
slugify-is_slug_example = slugify-is_slug (codes "ACME, Inc.")

abbrev empty : Store
empty = record { tenants = []; teams = []; users = []; events = [] }

empty-IsValid : IsValid empty
empty-IsValid = record {
  unique_tenants = tt;
  unique_teams = tt;
  unique_users = tt;
  teams_refer = tt;
  users_refer = tt;
}

abbrev acme : CompanyRegisterRequest
acme = record {
  company_name = codes "Acme";
  company_email = codes "info@acme.org";
  admin_email = codes "ana@acme.org";
}

registered :
    (register_company [] (recorded, recorded) acme empty empty).1 ≡ ok (codes "tenant-acme")
unfolding program
registered = refl

register_company_lem_example :
    IsValid (register_company [] (recorded, recorded) acme empty empty).0
    × IsAllOrNothing acme empty (register_company [] (recorded, recorded) acme empty empty)
register_company_lem_example =
    register_company_lem [] (recorded, recorded) acme empty empty empty-IsValid

abbrev ana : User
ana = record { id = 1; role = company_admin; tenant_id = some "tenant-acme"; team_id = none }

abbrev bob : CompanyUserCreateRequest
bob = record {
  email = codes "bob@acme.org";
  username = none;
  role = company_user;
  team_id = some (codes "team-of-another-company");
}

abbrev founded : Store
founded = (register_company [] (recorded, recorded) acme empty empty).0

abbrev member_bob : Member
member_bob = record {
  username = codes "bob";
  email = codes "bob@acme.org";
  role = company_user;
  tenant_id = some (codes "tenant-acme");
  team_id = some (codes "team-of-another-company");
}

abbrev grown : Store
grown = record founded { users = member_bob ∷ founded.users }

-- The team of another company is taken.
bob_created : create_own_company_user ana bob founded founded ≡ ok grown
unfolding program
bob_created = refl

empty-IsSafe : IsSafe empty
empty-IsSafe = record { valid = empty-IsValid; of_companies = tt }

Steps-IsSafe_example : IsSafe grown
Steps-IsSafe_example =
    Steps-IsSafe empty grown
      (next (register [] (recorded, recorded) acme empty)
        (next (create_user ana bob founded bob_created) done))
      empty-IsSafe

ana_1 :
    generate_unique_username (is_username founded) (length founded.users) (codes "ana@b.org")
    ≡ some (codes "ana1")
unfolding program
ana_1 = refl

generate_unique_username-is_username_example :
    (name : Text) × (generate_unique_username
        (is_username founded)
        (length founded.users)
        (codes "ana@b.org")
      ≡ some name)
    × (is_username founded name ≡ false)
generate_unique_username-is_username_example =
    generate_unique_username-is_username founded (codes "ana@b.org")
