-- ===== src/Companies/Lifecycle.antt =====
-- The tables of app/companies/service.py under any sequence of its requests.
use green_shift.Access.{User}
use green_shift.Companies.{Member, Store, takes_team, takes_user, with_team, with_user}
use green_shift.Companies.Constraints.{IsValid, with_team-IsValid, with_user-IsValid}
use green_shift.Companies.Members.{
  CompanyUserCreateRequest, own_company_of, is_platform_role, username_of, new_user, new_team,
  create_own_company_user, create_own_company_team,
}
use green_shift.Companies.Profile.{
  CompanyProfileUpdateRequest, update_own_company, update_own_company-IsValid,
}
use green_shift.Companies.Registered.{IsAllOrNothing, register_company_lem}
use green_shift.Companies.Registration.{
  CompanyRegisterRequest, CompanyError, AuditOutcome, refuse_if, role_denied, duplicate_user,
  duplicate_team, register_company,
}
use green_shift.Prelude.Result.{Result, ok, >>=-eq-ok, >>-eq-ok, ok-injective}
use green_shift.Prelude.Texts.{Text, text_eq}
use green_shift.Prelude.{
  ◌≡◌, refl, sym, subst, Bool, true, false, not, ◌||◌, ◌&&◌, List, any, All, is_some, inl, inr,
  arith,
}
use green_shift.Settings.{require_company_admin_of_own_company}

refuse_if_lem : (test : Bool) (e : CompanyError) → refuse_if test e ≡ ok tt → test ≡ false
refuse_if_lem true e h = absurd cc
refuse_if_lem false e h = refl

-- A user who belongs to a company, and is not an administrator of the platform.
abbrev pub IsOfCompany : Member → Type 0
IsOfCompany u = (is_platform_role u.role ≡ false) × (is_some u.tenant_id ≡ true)

-- A user is added to the administrator's own company.
pub create_own_company_user_lem :
    (user : User) (body : CompanyUserCreateRequest) (seen s t : Store)
    → create_own_company_user user body seen s ≡ ok t
    → (tenant_id : Text) × (own_company_of (require_company_admin_of_own_company user)
        ≡ ok tenant_id)
      × (is_platform_role body.role ≡ false)
      × (takes_user s (new_user tenant_id body) ≡ true)
      × (t ≡ with_user (new_user tenant_id body) s)
unfolding create_own_company_user
create_own_company_user_lem user body seen s t h =
    let (tenant_id, own, rest) =
      >>=-eq-ok (own_company_of (require_company_admin_of_own_company user)) _ h in
    let (role, rest_1) = >>-eq-ok (refuse_if (is_platform_role body.role) role_denied) _ rest in
    let (fresh, rest_2) =
      >>-eq-ok
        (refuse_if
          (any
            (λ u.
              text_eq body.email u.email
              || text_eq (username_of body.email body.username) u.username)
            seen.users)
          duplicate_user)
        _ rest_1 in
    let (takes, done) =
      >>-eq-ok (refuse_if (not (takes_user s (new_user tenant_id body))) duplicate_user) _ rest_2 in
    (
      tenant_id,
      own,
      refuse_if_lem _ role_denied role,
      ground (arith, refuse_if_lem _ duplicate_user takes),
      sym (ok-injective done),
    )

pub create_own_company_team_lem :
    (draw : Text) (user : User) (name : Text) (seen s t : Store)
    → create_own_company_team draw user name seen s ≡ ok t
    → (tenant_id : Text) × (own_company_of (require_company_admin_of_own_company user)
        ≡ ok tenant_id)
      × (takes_team s (new_team draw tenant_id name seen) ≡ true)
      × (t ≡ with_team (new_team draw tenant_id name seen) s)
unfolding create_own_company_team
create_own_company_team_lem draw user name seen s t h =
    let (tenant_id, own, rest) =
      >>=-eq-ok (own_company_of (require_company_admin_of_own_company user)) _ h in
    let (fresh, rest_1) =
      >>-eq-ok
        (refuse_if (any (λ x. text_eq tenant_id x.tenant_id && text_eq name x.name) seen.teams)
          duplicate_team)
        _ rest in
    let (takes, done) =
      >>-eq-ok (refuse_if (not (takes_team s (new_team draw tenant_id name seen))) duplicate_team) _
        rest_1 in
    (tenant_id, own, ground (arith, refuse_if_lem _ duplicate_team takes), sym (ok-injective done))

-- A request: what it read is any store, for other requests may have come in between.
pub data Step : Store → Store → Type 0 where
  register :
      {s : Store} (draws : List Text) (audits : AuditOutcome × AuditOutcome)
      (body : CompanyRegisterRequest) (seen : Store)
      → Step s (register_company draws audits body seen s).0
  create_user :
      {s t : Store} (user : User) (body : CompanyUserCreateRequest) (seen : Store)
      → create_own_company_user user body seen s ≡ ok t
      → Step s t
  create_team :
      {s t : Store} (draw : Text) (user : User) (name : Text) (seen : Store)
      → create_own_company_team draw user name seen s ≡ ok t
      → Step s t
  update_company :
      {s t : Store} (user : User) (body : CompanyProfileUpdateRequest) (seen : Store)
      → update_own_company user body seen s ≡ ok t
      → Step s t

pub data Steps : Store → Store → Type 0 where
  done : {s : Store} → Steps s s
  next : {s t u : Store} → Step s t → Steps t u → Steps s u

pub record IsSafe (s : Store) : Type 0 where
  pub valid : IsValid s
  pub of_companies : All IsOfCompany s.users

registered-IsOfCompany :
    (body : CompanyRegisterRequest) (s : Store) (p : Store × Result CompanyError Text)
    → IsAllOrNothing body s p
    → All IsOfCompany s.users
    → All IsOfCompany p.0.users
registered-IsOfCompany body s (t, r) (inl (id, username, e, has)) h =
    subst (All IsOfCompany) (sym has.2) ((refl, refl), h)
registered-IsOfCompany body s (t, r) (inr (e, raised, same)) h =
    subst (All IsOfCompany) (sym same.2) h

Step-IsSafe : (s t : Store) → Step s t → IsSafe s → IsSafe t
Step-IsSafe s _ (register draws audits body seen) h =
    let (valid, rows) = register_company_lem draws audits body seen s h.valid in
    record {
      valid = valid;
      of_companies =
          registered-IsOfCompany body s (register_company draws audits body seen s) rows
            h.of_companies;
    }
Step-IsSafe s t (create_user user body seen created) h =
    let (tenant_id, own, role, takes, e) = create_own_company_user_lem user body seen s t created in
    subst IsSafe (sym e) (record {
      valid = with_user-IsValid s (new_user tenant_id body) takes h.valid;
      of_companies = ((role, refl), h.of_companies);
    })
Step-IsSafe s t (create_team draw user name seen created) h =
    let (tenant_id, own, takes, e) = create_own_company_team_lem draw user name seen s t created in
    subst IsSafe (sym e) (record {
      valid = with_team-IsValid s (new_team draw tenant_id name seen) takes h.valid;
      of_companies = h.of_companies;
    })
Step-IsSafe s t (update_company user body seen updated) h =
    let (valid, _, users) = update_own_company-IsValid user body seen s t updated h.valid in
    record { valid = valid; of_companies = subst (All IsOfCompany) (sym users) h.of_companies }

-- Any sequence of registrations of companies, changes of their profiles and creations of users and
-- teams by any users, each decided on whatever store was read before, keeps: the ids, names and
-- addresses of companies, the ids of teams and their names within a company, the user names and the
-- addresses of users unique; every team and every user of an existing company; and no user a
-- platform administrator.
pub Steps-IsSafe : (s t : Store) → Steps s t → IsSafe s → IsSafe t
Steps-IsSafe s _ done h = h
Steps-IsSafe s u (next {t = t} first rest) h = Steps-IsSafe t u rest (Step-IsSafe s t first h)
