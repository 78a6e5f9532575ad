-- ===== src/Accounts/Answers.antt =====
-- What app/shared/auth.py answers to a request in the name of a user, by the row that the user has.
use green_shift.Accounts.{
  User, Tenant, ApprovalStatus, approved, pending, rejected, Store, Settings, Library, AuthError,
  deactivated, pending_approval, declined, company_inactive, tenant_inactive, check_account,
}
use green_shift.Accounts.Identities.{Identity, of_user, identity_of, by_row, Credentials, or_key}
use green_shift.Prelude.Dict.{lookup}
use green_shift.Prelude.Result.{Result, ok, err, ◌>>◌}
use green_shift.Prelude.Texts.{Text, text_key}
use green_shift.Prelude.{
  ℕ, ◌≡◌, ◌⊎◌, refl, sym, ◌∙◌, true, false, Option, none, some, [], ◌∷◌, Bool-cases, some-injective,
  inl, inr, subst,
}

-- The company of that id is known and inactive; an empty id is no company.
abbrev pub IsClosed : Store → Option Text → Type 0
IsClosed s company =
    (c : ℕ) × (cs : Text) × (x : Tenant) × (company ≡ some (c ∷ cs))
    × (lookup (c ∷ cs) s.tenants ≡ some x)
    × (x.is_active ≡ false)

-- An active, approved user, whose company is not inactive.
abbrev pub IsAdmitted : Store → User → Type 0
IsAdmitted s u = (u.is_active ≡ true) × (u.approval_status ≡ approved) × (¬ IsClosed s u.tenant_id)

-- The checks of an account, each with its condition.
abbrev pub IsChecked : Store → User → Result AuthError (Unit {0}) → Type 0
IsChecked s u r =
    (IsAdmitted s u × (r ≡ ok tt))
    ⊎ (((u.is_active ≡ false) × (r ≡ err deactivated))
        ⊎ (((u.is_active ≡ true) × (u.approval_status ≡ pending) × (r ≡ err pending_approval))
            ⊎ (((u.is_active ≡ true) × (u.approval_status ≡ rejected) × (r ≡ err declined))
                ⊎ ((u.is_active ≡ true)
                    × (u.approval_status ≡ approved)
                    × IsClosed s u.tenant_id
                    × (r ≡ err company_inactive)))))

tenant_cases :
    (s : Store) (company : Option Text)
    → ((tenant_inactive s company ≡ true) × IsClosed s company)
      ⊎ ((tenant_inactive s company ≡ false) × (¬ IsClosed s company))
tenant_cases s none = inr (refl, λ (c, cs, x, own, _, _). absurd cc)
tenant_cases s (some []) = inr (refl, λ (c, cs, x, own, _, _). absurd cc)
tenant_cases s (some (c ∷ cs)) = by_tenant (lookup (c ∷ cs) s.tenants) refl
  where
    by_tenant :
        (o : Option Tenant)
        → lookup (c ∷ cs) s.tenants ≡ o
        → ((tenant_inactive s (some (c ∷ cs)) ≡ true) × IsClosed s (some (c ∷ cs)))
          ⊎ ((tenant_inactive s (some (c ∷ cs)) ≡ false) × (¬ IsClosed s (some (c ∷ cs))))
    by_tenant none row = inr (
      rw row refl,
      λ (d, ds, x, own, there, _).
          let k : lookup (c ∷ cs) s.tenants ≡ some x = rw (some-injective own) there in
          let n : ◌≡◌ {A = Option Tenant} none (some x) = sym row ∙ k in absurd cc,
    )
    by_tenant (some x) row = elim (Bool-cases x.is_active) [
      | inl active ↦ inr (
        rw (row, active) refl,
        λ (d, ds, y, own, there, off).
            let k : lookup (c ∷ cs) s.tenants ≡ some y = rw (some-injective own) there in
            let same : x ≡ y = some-injective (sym row ∙ k) in
            let on : y.is_active ≡ true = rw (← same) active in cc (on, off),
      )
      | inr off ↦ inl (rw (row, off) refl, (c, cs, x, refl, row, off))
    ]

pub check_account-IsChecked : (s : Store) (u : User) → IsChecked s u (check_account s u)
unfolding check_account
check_account-IsChecked s u = elim (Bool-cases u.is_active) [
  | inr off ↦ inr (inl (off, rw off refl))
  | inl on ↦ by_status u.approval_status refl on
]
  where
    by_status :
        (a : ApprovalStatus)
        → u.approval_status ≡ a
        → u.is_active ≡ true
        → IsChecked s u (check_account s u)
    by_status pending now on = inr (inr (inl (on, now, rw (on, now) refl)))
    by_status rejected now on = inr (inr (inr (inl (on, now, rw (on, now) refl))))
    by_status approved now on = elim (tenant_cases s u.tenant_id) [
      | inl (test, closed) ↦ inr (inr (inr (inr (on, now, closed, rw (on, now, test) refl))))
      | inr (test, no_closed) ↦ inl ((on, now, no_closed), rw (on, now, test) refl)
    ]

pub IsChecked-IsAdmitted : (s : Store) (u : User) → check_account s u ≡ ok tt → IsAdmitted s u
IsChecked-IsAdmitted s u passes = elim (check_account-IsChecked s u) [
  | inl (admitted, _) ↦ admitted
  | inr (inl (_, e)) ↦ absurd (refused deactivated (sym e ∙ passes))
  | inr (inr (inl (_, _, e))) ↦ absurd (refused pending_approval (sym e ∙ passes))
  | inr (inr (inr (inl (_, _, e)))) ↦ absurd (refused declined (sym e ∙ passes))
  | inr (inr (inr (inr (_, _, _, e)))) ↦ absurd (refused company_inactive (sym e ∙ passes))
]
  where
    refused : (e : AuthError) → ◌≡◌ {A = Result AuthError (Unit {0})} (err e) (ok tt) → ⊥
    refused e h = cc

-- The answer to a request in the name of user `id`, whose row is `u`: the user's present identity, or
-- the error of the check that refuses it.
abbrev pub IsAnswered : ℕ → User → Store → Store × Result AuthError (Option Identity) → Type 0
IsAnswered id u s answer =
    (IsAdmitted s u
      × (answer ≡ (
        s,
        ok (
            some (record {
              subject = of_user id;
              tenant_id = u.tenant_id;
              team_id = u.team_id;
              role = u.role;
            })),
      )))
    ⊎ ((e : AuthError) × IsChecked s u (err e) × (answer ≡ (s, err e)))

pub by_row-IsAnswered :
    {Token : Type 0} (lib : Library Token) (config : Settings) (now : ℕ) (c : Credentials Token)
    (id : ℕ) (u : User) (s : Store)
    → IsAnswered id u s (or_key lib config now c s (by_row s id (some u)))
by_row-IsAnswered lib config now c id u s = by_check (check_account s u) refl
  where
    by_check :
        (r : Result AuthError (Unit {0}))
        → check_account s u ≡ r
        → IsAnswered id u s (or_key lib config now c s (r >> ok (some (identity_of id u))))
    by_check (ok x) passes = inl (IsChecked-IsAdmitted s u passes, refl)
    by_check (err e) fails =
        inr (e, subst (IsChecked s u) fails (check_account-IsChecked s u), refl)
