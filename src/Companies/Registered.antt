-- ===== src/Companies/Registered.antt =====
-- `register_company` of app/companies/service.py keeps the constraints and is all or nothing.
use green_shift.Companies.{
  Member, Store, company_created, company_admin_created, with_tenant, with_team, with_event,
}
use green_shift.Companies.Constraints.{
  IsValid, with_tenant-IsValid, with_team-IsValid, with_user-IsValid, with_event-IsValid,
}
use green_shift.Companies.Naming.{generate_unique_username}
use green_shift.Companies.Naming.Free.{generate_unique_username_total}
use green_shift.Companies.Registration.{
  is_username, CompanyRegisterRequest, CompanyError, lost, conflict, AuditOutcome, recorded,
  recorded_after_rollback, not_recorded, new_tenant, default_team, new_admin, with_rows, takes_rows,
  second_event, after_audit, refreshed, insert_company, choose_names, register_company,
}
use green_shift.Prelude.Result.{Result, ok, err}
use green_shift.Prelude.Texts.{Text}
use green_shift.Prelude.{
  ◌≡◌, ◌⊎◌, refl, true, false, List, [], ◌∷◌, Bool-cases, ap, sym, suc, map, length, some, inl, inr,
  arith,
}

-- The new rows stand beside those that were there, under a name that was chosen.
abbrev pub HasCompany : CompanyRegisterRequest → Text → Text → Store → Store → Type 0
HasCompany body id username s t =
    (t.tenants ≡ new_tenant body id ∷ s.tenants)
    × (t.teams ≡ default_team id ∷ s.teams)
    × (t.users ≡ new_admin body id username ∷ s.users)

abbrev pub HasSameRows : Store → Store → Type 0
HasSameRows s t = (t.tenants ≡ s.tenants) × (t.teams ≡ s.teams) × (t.users ≡ s.users)

with_rows-IsValid :
    (body : CompanyRegisterRequest) (id username : Text) (s : Store)
    → takes_rows body id username s ≡ true
    → IsValid s
    → IsValid (with_rows body id username s)
with_rows-IsValid body id username s takes v =
    let one = with_tenant (new_tenant body id) s in
    let two = with_team (default_team id) one in
    with_user-IsValid two (new_admin body id username) (ground (arith, takes)) (
      with_team-IsValid one (default_team id) (ground (arith, takes))
        (with_tenant-IsValid s (new_tenant body id) (ground (arith, takes)) v))

second_event-IsValid :
    (second : AuditOutcome) (id : Text) (s : Store) → IsValid s → IsValid (second_event second id s)
second_event-IsValid not_recorded id s v = v
second_event-IsValid recorded id s v = with_event-IsValid s (company_admin_created id) v
second_event-IsValid recorded_after_rollback id s v =
    with_event-IsValid s (company_admin_created id) v

second_event-HasSameRows :
    (second : AuditOutcome) (id : Text) (s : Store) → HasSameRows s (second_event second id s)
second_event-HasSameRows not_recorded id s = (refl, refl, refl)
second_event-HasSameRows recorded id s = (refl, refl, refl)
second_event-HasSameRows recorded_after_rollback id s = (refl, refl, refl)

-- Registered with all its rows, or refused with none.
abbrev pub IsAllOrNothing :
    CompanyRegisterRequest → Store → Store × Result CompanyError Text → Type 0
IsAllOrNothing body s (t, r) =
    ((id : Text) × (username : Text) × (r ≡ ok id) × HasCompany body id username s t)
    ⊎ ((e : CompanyError) × (r ≡ err e) × HasSameRows s t)

abbrev Outcome : CompanyRegisterRequest → Store → Store × Result CompanyError Text → Type 0
Outcome body s p = IsValid p.0 × IsAllOrNothing body s p

audited :
    (body : CompanyRegisterRequest) (first second : AuditOutcome) (id username : Text) (s : Store)
    → takes_rows body id username s ≡ true
    → IsValid s
    → Outcome body s (refreshed id (after_audit first second id (with_rows body id username s) s))
audited body recorded second id username s takes v =
    let rows = with_event (company_created id) (with_rows body id username s) in
    let same = second_event-HasSameRows second id rows in
    (
      second_event-IsValid second id rows (
          with_event-IsValid (with_rows body id username s) (company_created id)
            (with_rows-IsValid body id username s takes v)),
      inl (id, username, refl, same),
    )
audited body recorded_after_rollback second id username s takes v =
    let rows = with_event (company_created id) s in
    (
      second_event-IsValid second id rows (with_event-IsValid s (company_created id) v),
      inr (lost, refl, second_event-HasSameRows second id rows),
    )
audited body not_recorded second id username s takes v = (v, inr (lost, refl, (refl, refl, refl)))

inserted :
    (audits : AuditOutcome × AuditOutcome) (body : CompanyRegisterRequest) (s : Store)
    (names : Result CompanyError (Text × Text))
    → IsValid s
    → Outcome body s (insert_company audits body s names)
inserted (first, second) body s (err e) v = (v, inr (e, refl, (refl, refl, refl)))
inserted (first, second) body s (ok (id, username)) v =
    elim (Bool-cases (takes_rows body id username s)) [
      | inl takes ↦ rw takes (audited body first second id username s takes v)
      | inr refused ↦ rw refused (v, inr (conflict, refl, (refl, refl, refl)))
    ]

-- Whatever was read, however the audit events are recorded: registering a company keeps the unique
-- columns and the references of the tables. Either it returns the id of the company, and the tables
-- have one more company of that id, its default team, and a user with the role COMPANY_ADMIN in
-- both; or it raises, and companies, teams and users are as they were.
pub register_company_lem :
    (draws : List Text) (audits : AuditOutcome × AuditOutcome) (body : CompanyRegisterRequest)
    (seen s : Store)
    → IsValid s
    → IsValid (register_company draws audits body seen s).0
      × IsAllOrNothing body s (register_company draws audits body seen s)
unfolding register_company
register_company_lem draws audits body seen s v =
    inserted audits body s (choose_names draws body seen) v

length-map_usernames :
    (users : List Member) → length (map (λ (u : Member). u.username) users) ≡ length users
length-map_usernames [] = refl
length-map_usernames (u ∷ users) = ap suc (length-map_usernames users)

-- For any users and any address the search for a user name ends within as many numbers as there are
-- users, with a name that none of them has.
pub generate_unique_username-is_username :
    (s : Store) (email : Text)
    → (name : Text) × (generate_unique_username (is_username s) (length s.users) email ≡ some name)
      × (is_username s name ≡ false)
generate_unique_username-is_username s email =
    rw (sym (length-map_usernames s.users))
      (generate_unique_username_total (map (λ (u : Member). u.username) s.users) email)
