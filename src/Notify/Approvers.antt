-- ===== src/Notify/Approvers.antt =====
-- Whom app/decide/service.py tells of a schedule that waits for an approval: app/notify/service.py
-- finds the users, app/approval/service.py decides who may approve.
use text.Mathlib.TextEquality.{eq_iff}
use green_shift.Approval.{
  Job, User, UserRole, check_user_approval_permission, has_tenant, other_tenant, platform_admin,
  company_admin, company_user,
}
use green_shift.Notify.{
  Recipient, Store, is_platform_admin_role, is_company_admin_role, is_tenant_admin, is_global_admin,
  tenant_admins, platform_admins,
}
use green_shift.Prelude.Result.{ok}
use green_shift.Prelude.{
  Bool, All-of-keep_if, All-keep_if_of, any, ◌==◌, ==_iff, sym, ap, ◌∙◌, ◌≢◌, ◌⊎◌, ℕ, ◌∷◌, [], ◌||◌,
  some-injective, ◌≡◌, refl, true, false, not, Option, none, some, String, List, ◌++◌, str_eq, All,
  All-map_of, All-keep_if, All-append, keep_if, is_some, option_eq, Bool-cases, inl, inr, arith,
}

abbrev pub as_user : Recipient → User
as_user u = record { role = u.role; tenant_id = u.tenant_id }

-- The two queries of a job's approvers.
abbrev pub approver_ids : Store → Job → List Recipient
approver_ids s j = tenant_admins s j.tenant_id ++ platform_admins s

abbrev pub is_submitter : Option ℕ → Recipient → Bool
is_submitter none u = false
is_submitter (some id) u = u.id == id

-- The users who are told to review the schedule: the approvers, less the submitter.
abbrev pub approvers : Store → Job → Option ℕ → List Recipient
approvers s j submitter = keep_if (λ u. not (is_submitter submitter u)) (approver_ids s j)

abbrev MayApprove : Job → Recipient → Type 0
MayApprove j u = check_user_approval_permission j (some (as_user u)) ≡ ok tt

role_of_platform : (r : UserRole) → is_platform_admin_role r ≡ true → r ≡ platform_admin
role_of_platform platform_admin h = refl
role_of_platform company_admin h = absurd cc
role_of_platform company_user h = absurd cc

role_of_company : (r : UserRole) → is_company_admin_role r ≡ true → r ≡ company_admin
role_of_company platform_admin h = absurd cc
role_of_company company_admin h = refl
role_of_company company_user h = absurd cc

no_tenant : (o : Option String) → not (is_some o) ≡ true → o ≡ none
no_tenant none h = refl
no_tenant (some t) h = absurd cc

platform-MayApprove : (j : Job) (u : Recipient) → is_global_admin u ≡ true → MayApprove j u
unfolding check_user_approval_permission
platform-MayApprove j u h =
    rw (role_of_platform u.role (ground (arith, h)), no_tenant u.tenant_id (ground (arith, h))) refl

same_tenant :
    (o : Option String) (t : String)
    → option_eq str_eq o (some t) ≡ true
    → other_tenant o (some t) ≡ false
same_tenant none t h = refl
same_tenant (some x) t h = rw h (ground arith)

tenant-MayApprove :
    (j : Job) (t : String) (u : Recipient)
    → j.tenant_id ≡ some t
    → is_tenant_admin t u ≡ true
    → MayApprove j u
unfolding check_user_approval_permission
tenant-MayApprove j t u own h =
    rw
      (
        role_of_company u.role (ground (arith, h)),
        own,
        same_tenant u.tenant_id t (ground (arith, h)),
      )
      refl

tenant_admins-MayApprove :
    (s : Store) (j : Job) (o : Option String)
    → j.tenant_id ≡ o
    → All (MayApprove j) (tenant_admins s o)
tenant_admins-MayApprove s j none own = tt
tenant_admins-MayApprove s j (some t) own = elim (Bool-cases (has_tenant (some t))) [
  | inr empty ↦ rw empty tt
  | inl given ↦ rw given (
      All-map_of (λ u h. tenant-MayApprove j t u own h) (keep_if (is_tenant_admin t) s.users)
        (All-keep_if (is_tenant_admin t) s.users))
]

approver_ids-MayApprove : (s : Store) (j : Job) → All (MayApprove j) (approver_ids s j)
approver_ids-MayApprove s j =
    All-append (MayApprove j) (tenant_admins s j.tenant_id) (platform_admins s)
      (tenant_admins-MayApprove s j j.tenant_id refl)
      (All-map_of (λ u h. platform-MayApprove j u h) (platform_admins s)
        (All-keep_if is_global_admin s.users))

not_submitter :
    (submitter : Option ℕ) (u : Recipient)
    → not (is_submitter submitter u) ≡ true
    → submitter ≢ some u.id
not_submitter none u h same = cc
not_submitter (some id) u h same =
    let e = (==_iff u.id id).1 (sym (some-injective same)) in cc (e, h)

abbrev HasId : List Recipient → Recipient → Type 0
HasId us u = any (λ v. v.id == u.id) us ≡ true

or_right : (a b : Bool) → b ≡ true → (a || b) ≡ true
or_right a b h = ground (arith, h)

each_in_itself : (us : List Recipient) → All (HasId us) us
each_in_itself [] = tt
each_in_itself (u ∷ us) = (
  rw ((==_iff u.id u.id).1 refl) refl,
  All-map_of (λ v h. or_right (u.id == v.id) _ h) us (each_in_itself us),
)

each : (P : Recipient → Type 0) → ((u : Recipient) → P u) → (us : List Recipient) → All P us
each P h [] = tt
each P h (u ∷ us) = (h u, each P h us)

All-both :
    (P Q R : Recipient → Type 0) (us : List Recipient)
    → ((u : Recipient) → P u → Q u → R u)
    → All P us
    → All Q us
    → All R us
All-both P Q R [] both p q = tt
All-both P Q R (u ∷ us) both p q = (both u p.0 q.0, All-both P Q R us both p.1 q.1)

All-left : (P : Recipient → Type 0) (us vs : List Recipient) → All P (us ++ vs) → All P us
All-left P [] vs h = tt
All-left P (u ∷ us) vs h = (h.0, All-left P us vs h.1)

All-right : (P : Recipient → Type 0) (us vs : List Recipient) → All P (us ++ vs) → All P vs
All-right P [] vs h = h
All-right P (u ∷ us) vs h = All-right P us vs h.1

-- An active administrator of the company that the job has, or of the platform without a company.
abbrev pub IsApprover : Job → Recipient → Type 0
IsApprover j u =
    (u.is_active ≡ true)
    × (((u.role ≡ company_admin)
          × ((company : String) × (company ≢ "")
              × (j.tenant_id ≡ some company)
              × (u.tenant_id ≡ some company)))
        ⊎ ((u.role ≡ platform_admin) × (u.tenant_id ≡ none)))

module _ (P : Recipient → Type 0) where
  abbrev OfCompany : Option String → Recipient → Type 0
  OfCompany o u =
      (u.is_active ≡ true)
      → u.role ≡ company_admin
      → (company : String) → company ≢ ""
      → o ≡ some company
      → u.tenant_id ≡ some company
      → P u

  of_company :
      (s : Store) (o : Option String) → All P (tenant_admins s o) → All (OfCompany o) s.users
  of_company s none h = each (OfCompany none) (λ u active role c given own same. absurd cc) s.users
  of_company s (some t) h = elim (Bool-cases (str_eq t "")) [
    | inl empty ↦
        each (OfCompany (some t))
          (λ u active role c given own same.
            absurd (given (sym (some-injective own) ∙ (eq_iff t "").0 empty)))
          s.users
    | inr given ↦
        All-map_of
          (λ u passes active role c _ own same.
            passes (rw (active, role, same, (eq_iff c t).1 (sym (some-injective own))) refl))
          s.users (All-of-keep_if (is_tenant_admin t) P s.users (rw given at h))
  ]

module _ (s : Store) (j : Job) (submitter : Option ℕ) where
  abbrev Told : Recipient → Type 0
  Told u = submitter ≢ some u.id → HasId (approvers s j submitter) u

  told : All Told (approver_ids s j)
  told =
      All-map_of (λ u passes other. passes (is_other submitter u other)) (approver_ids s j)
        (All-of-keep_if (λ u. not (is_submitter submitter u)) (HasId (approvers s j submitter))
          (approver_ids s j) (each_in_itself (approvers s j submitter)))
    where
      is_other : (o : Option ℕ) (u : Recipient) → o ≢ some u.id → not (is_submitter o u) ≡ true
      is_other none u other = refl
      is_other (some id) u other = elim (Bool-cases (u.id == id)) [
        | inl same ↦ absurd (other (ap some (sym ((==_iff u.id id).0 same))))
        | inr apart ↦ rw apart refl
      ]

  -- Everybody who is told to review a schedule may approve and decline the job, and is not its
  -- submitter, who gets a notification of its own. Everybody else who is an active administrator of
  -- the job's company, or of the platform without a company, is told.
  pub approvers-check_user_approval_permission :
      All
        (λ u.
          (check_user_approval_permission j (some (as_user u)) ≡ ok tt) × (submitter ≢ some u.id))
        (approvers s j submitter)
      × All
          (λ u.
            IsApprover j u
            → submitter ≢ some u.id
            → any (λ v. v.id == u.id) (approvers s j submitter) ≡ true)
          s.users
  approvers-check_user_approval_permission = (
    All-both (MayApprove j) (λ u. not (is_submitter submitter u) ≡ true) _ (approvers s j submitter)
        (λ u may other. (may, not_submitter submitter u other))
        (All-keep_if_of (λ u. not (is_submitter submitter u)) (MayApprove j) (approver_ids s j)
          (approver_ids-MayApprove s j))
        (All-keep_if (λ u. not (is_submitter submitter u)) (approver_ids s j)),
    All-both (OfCompany Told j.tenant_id) (λ u. is_global_admin u ≡ true → Told u) _ s.users
        (λ u company platform a other. elim a.1 [
          | inl (role, (c, given, own, same)) ↦ company a.0 role c given own same other
          | inr (role, no_company) ↦ platform (rw (a.0, role, no_company) refl) other
        ])
        (of_company Told s j.tenant_id
          (All-left Told (tenant_admins s j.tenant_id) (platform_admins s) told))
        (All-of-keep_if is_global_admin Told s.users
          (All-right Told (tenant_admins s j.tenant_id) (platform_admins s) told)),
  )
