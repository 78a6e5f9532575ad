-- ===== src/Companies/Profile.antt =====
-- The change of a company's profile in app/companies/service.py. The columns that are not unique are
-- not modelled. The row is written as it was read, so nobody else changes it meanwhile.
use green_shift.Access.{User}
use green_shift.Companies.{Tenant, Store, clash_tenants, same_email, has_tenant_row, refers}
use green_shift.Companies.Constraints.{IsValid}
use green_shift.Companies.Members.{own_company_of}
use green_shift.Companies.Registration.{CompanyError, conflict, not_found, refuse_if}
use green_shift.Prelude.Result.{Result, ok, err, ◌>>=◌, ◌>>◌, >>=-eq-ok, >>-eq-ok, ok-injective}
use green_shift.Prelude.Texts.{Text, text_eq, text_eq_iff, text_eq_refl}
use green_shift.Prelude.{
  ◌≡◌, ◌∙◌, refl, sym, subst, Bool, true, false, not, ◌&&◌, Option, none, some, List, [], ◌∷◌, map,
  if◌then◌else◌, any, IsUnique, All-map_of, Bool-cases, inl, inr, arith, some-injective, ap,
}
use green_shift.Settings.{require_company_admin_of_own_company}

-- The fields of the update; what is None is left.
pub record CompanyProfileUpdateRequest : Type 0 where
  pub name : Option Text
  pub company_email : Option Text

abbrev pub or_old : Text → Option Text → Text
or_old old none = old
or_old old (some new) = new

abbrev pub or_kept : Option Text → Option Text → Option Text
or_kept old none = old
or_kept old (some new) = some new

abbrev pub with_profile : CompanyProfileUpdateRequest → Tenant → Tenant
with_profile body t = record {
  id = t.id;
  name = or_old t.name body.name;
  company_email = or_kept t.company_email body.company_email;
}

abbrev pub row_of : Text → List Tenant → Option Tenant
row_of id [] = none
row_of id (t ∷ ts) = let rest = row_of id ts in if text_eq t.id id then some t else rest

abbrev pub found_company : Option Tenant → Result CompanyError Tenant
found_company none = err not_found
found_company (some t) = ok t

abbrev pub replaced : Text → Tenant → Tenant → Tenant
replaced id n t = if text_eq t.id id then n else t

-- A row of another company that the constraints do not allow beside the new one.
abbrev pub clash_other : Text → Tenant → Tenant → Bool
clash_other id n t = not (text_eq t.id id) && clash_tenants n t

abbrev pub email_taken : Text → Option Text → Tenant → Bool
email_taken id email t = not (text_eq t.id id) && same_email email t.company_email

-- `seen` are the tables that are read, and `s` those that the commit finds.
unfoldable pub update_own_company :
    User → CompanyProfileUpdateRequest → Store → Store → Result CompanyError Store
update_own_company user body seen s = do
  id ← own_company_of (require_company_admin_of_own_company user)
  t ← found_company (row_of id seen.tenants)
  refuse_if (any (email_taken id body.company_email) seen.tenants) conflict
  refuse_if (any (clash_other id (with_profile body t)) s.tenants) conflict
  ok (record s { tenants = map (replaced id (with_profile body t)) s.tenants })

text_eq_sym : (a b : Text) → text_eq a b ≡ text_eq b a
text_eq_sym a b = elim (Bool-cases (text_eq a b)) [
  | inl same ↦ ground (arith, text_eq_iff a b, text_eq_refl a, text_eq_refl b)
  | inr apart ↦ ground (arith, text_eq_iff a b, text_eq_iff b a)
]

same_email_sym : (a b : Option Text) → same_email a b ≡ same_email b a
same_email_sym none none = refl
same_email_sym none (some b) = refl
same_email_sym (some a) none = refl
same_email_sym (some a) (some b) = text_eq_sym a b

clash_sym : (a b : Tenant) → clash_tenants a b ≡ clash_tenants b a
clash_sym a b =
    rw
      (
        text_eq_sym a.id b.id,
        text_eq_sym a.name b.name,
        same_email_sym a.company_email b.company_email,
      )
      refl

row_of-id : (id : Text) (ts : List Tenant) (t : Tenant) → row_of id ts ≡ some t → t.id ≡ id
row_of-id id [] t h = absurd cc
row_of-id id (x ∷ ts) t h = elim (Bool-cases (text_eq x.id id)) [
  | inl same ↦ subst (λ r. r.id ≡ id) (some-injective (rw same at h)) ((text_eq_iff x.id id).0 same)
  | inr apart ↦ row_of-id id ts t (rw apart at h)
]

-- Rows that are not of the company, against the new one and among themselves.
module _ (id : Text) (n : Tenant) (own : n.id ≡ id) where
  apart_from_new :
      (x : Tenant) (ts : List Tenant)
      → text_eq x.id id ≡ true
      → any (clash_tenants x) ts ≡ false
      → any (clash_other id n) ts ≡ false
      → any (clash_tenants n) (map (replaced id n) ts) ≡ false
  apart_from_new x [] mine alone free = refl
  apart_from_new x (t ∷ ts) mine alone free = elim (Bool-cases (text_eq t.id id)) [
    | inl twice ↦
        let same : text_eq x.id t.id ≡ true =
          (text_eq_iff x.id t.id).1
            ((text_eq_iff x.id id).0 mine ∙ sym ((text_eq_iff t.id id).0 twice)) in
        ground (arith, alone, same)
    | inr other ↦
        let rest = apart_from_new x ts mine (ground (arith, alone)) (ground (arith, free)) in
        rw other (ground (arith, free, other, rest))
  ]

  apart_from_old :
      (x : Tenant) (ts : List Tenant)
      → clash_tenants n x ≡ false
      → any (clash_tenants x) ts ≡ false
      → any (clash_tenants x) (map (replaced id n) ts) ≡ false
  apart_from_old x [] free alone = refl
  apart_from_old x (t ∷ ts) free alone =
      let rest = apart_from_old x ts free (ground (arith, alone)) in
      elim (Bool-cases (text_eq t.id id)) [
        | inl mine ↦ rw mine (ground (arith, free, clash_sym n x, rest))
        | inr other ↦ rw other (ground (arith, alone, rest))
      ]

  replaced-IsUnique :
      (ts : List Tenant)
      → IsUnique clash_tenants ts
      → any (clash_other id n) ts ≡ false
      → IsUnique clash_tenants (map (replaced id n) ts)
  replaced-IsUnique [] unique free = tt
  replaced-IsUnique (t ∷ ts) unique free = elim (Bool-cases (text_eq t.id id)) [
    | inl mine ↦ rw mine (
      apart_from_new t ts mine unique.0 (ground (arith, free)),
      replaced-IsUnique ts unique.1 (ground (arith, free)),
    )
    | inr other ↦ rw other (
      apart_from_old t ts (ground (arith, free, other)) unique.0,
      replaced-IsUnique ts unique.1 (ground (arith, free)),
    )
  ]

  replaced-id : (t : Tenant) → (replaced id n t).id ≡ t.id
  replaced-id t = elim (Bool-cases (text_eq t.id id)) [
    | inl mine ↦ rw mine (own ∙ sym ((text_eq_iff t.id id).0 mine))
    | inr other ↦ rw other refl
  ]

  same_rows :
      (k : Text) (ts : List Tenant)
      → has_tenant_row (map (replaced id n) ts) k ≡ has_tenant_row ts k
  same_rows k [] = refl
  same_rows k (t ∷ ts) = rw (replaced-id t, same_rows k ts) refl

  same_refers :
      (o : Option Text) (ts : List Tenant)
      → refers ts o ≡ true
      → refers (map (replaced id n) ts) o ≡ true
  same_refers none ts h = refl
  same_refers (some k) ts h = same_rows k ts ∙ h

  replaced-IsValid :
      (s : Store)
      → any (clash_other id n) s.tenants ≡ false
      → IsValid s
      → IsValid (record s { tenants = map (replaced id n) s.tenants })
  replaced-IsValid s free v = record {
    unique_tenants = replaced-IsUnique s.tenants v.unique_tenants free;
    unique_teams = v.unique_teams;
    unique_users = v.unique_users;
    teams_refer =
        All-map_of (λ x h. same_refers (some x.tenant_id) s.tenants h) s.teams v.teams_refer;
    users_refer = All-map_of (λ x h. same_refers x.tenant_id s.tenants h) s.users v.users_refer;
  }

found_company-eq-ok : (o : Option Tenant) (t : Tenant) → found_company o ≡ ok t → o ≡ some t
found_company-eq-ok none t h = absurd cc
found_company-eq-ok (some x) t h = ap some (ok-injective h)

refused : (test : Bool) (e : CompanyError) → refuse_if test e ≡ ok tt → test ≡ false
refused true e h = absurd cc
refused false e h = refl

-- A change of a profile keeps the constraints, and changes neither teams nor users.
pub update_own_company-IsValid :
    (user : User) (body : CompanyProfileUpdateRequest) (seen s t : Store)
    → update_own_company user body seen s ≡ ok t
    → IsValid s
    → IsValid t × (t.teams ≡ s.teams) × (t.users ≡ s.users)
unfolding update_own_company
update_own_company-IsValid user body seen s t h v =
    let (id, _, rest) =
      >>=-eq-ok (own_company_of (require_company_admin_of_own_company user)) _ h in
    let (old, read, rest_1) = >>=-eq-ok (found_company (row_of id seen.tenants)) _ rest in
    let (_, rest_2) =
      >>-eq-ok (refuse_if (any (email_taken id body.company_email) seen.tenants) conflict) _
        rest_1 in
    let new = with_profile body old in
    let (free, done) =
      >>-eq-ok (refuse_if (any (clash_other id new) s.tenants) conflict) _ rest_2 in
    let own = row_of-id id seen.tenants old (found_company-eq-ok _ old read) in
    subst (λ (x : Store). IsValid x × (x.teams ≡ s.teams) × (x.users ≡ s.users)) (ok-injective done)
      (replaced-IsValid id new own s (refused _ conflict free) v, refl, refl)
