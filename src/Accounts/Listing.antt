-- ===== src/Accounts/Listing.antt =====
-- What app/api/routers/admin_router.py lists, in the order of the tables instead of the newest first.
use green_shift.Accounts.{User, Tenant, ApiKey, Store, AuthError, forbidden, internal}
use green_shift.Accounts.Identities.{Identity, is_platform}
use green_shift.Accounts.Administration.{
  given, by_platform, tenant_of, is_foreign, or_default_tenant, check_tenant, found,
}
use green_shift.Prelude.Dict.{lookup, IsKeyed}
use green_shift.Prelude.Result.{Result, ok, err, ◌>>◌, ok-injective}
use green_shift.Prelude.Texts.{Text, text_eq, text_key}
use green_shift.Prelude.{
  ℕ, ◌≡◌, refl, subst, Bool, true, Option, none, some, List, [], ◌∷◌, if◌then◌else◌, keep_if,
  option_eq, All, All-map_of, All-keep_if, All-keep_if_of, All-both, Bool-cases, inl, inr,
}

-- Of the same company; having none counts as one.
abbrev is_own : Identity → Option Text → Bool
is_own i tenant_id = option_eq text_eq tenant_id i.tenant_id

-- The filter of a platform administrator.
abbrev pub wanted : Option Text → Option Text → Bool
wanted none tenant_id = true
wanted (some t) tenant_id = option_eq text_eq tenant_id (some t)

unfoldable pub list_users :
    Option Text → Option Identity → Store → Result AuthError (List (ℕ × User))
list_users tenant_id identity s =
    if by_platform identity
    then ok (keep_if (λ e. wanted (given tenant_id) e.1.tenant_id) s.users)
    else if is_foreign identity tenant_id
    then err forbidden
    else ok (keep_if (λ e. option_eq text_eq e.1.tenant_id (tenant_of identity)) s.users)

unfoldable pub list_api_keys :
    Option Text → Option Identity → Store → Result AuthError (List (Text × ApiKey))
list_api_keys tenant_id identity s =
    if by_platform identity
    then ok (keep_if (λ e. wanted (given tenant_id) (some e.1.tenant_id)) s.api_keys)
    else if is_foreign identity tenant_id
    then err forbidden
    else ok
        (keep_if (λ e. text_eq e.1.tenant_id (or_default_tenant (tenant_of identity))) s.api_keys)

-- Where there is no identity, reading its company raises.
unfoldable pub list_companies : Option Identity → Store → Result AuthError (List (Text × Tenant))
list_companies none s = err internal
list_companies (some i) s =
    if is_platform i.role
    then ok s.tenants
    else ok (keep_if (λ e. option_eq text_eq (some e.0) i.tenant_id) s.tenants)

unfoldable pub get_company : Text → Option Identity → Store → Result AuthError Tenant
get_company id identity s = do check_tenant identity (some id); found (lookup id s.tenants)

-- Who is listed for an identity may be managed by it: the check of `update_user_status` and
-- `deactivate_user` passes for every user in the list.
pub list_users-check_tenant :
    (tenant_id : Option Text) (i : Identity) (s : Store) (users : List (ℕ × User))
    → list_users tenant_id (some i) s ≡ ok users
    → All (λ e. check_tenant (some i) e.1.tenant_id ≡ ok tt) users
unfolding list_users
list_users-check_tenant tenant_id i s users h = elim (Bool-cases (is_platform i.role)) [
  | inl platform ↦ All-of users (λ e. rw platform refl)
  | inr plain ↦ elim (Bool-cases (is_foreign (some i) tenant_id)) [
    | inl foreign ↦
        let k : ◌≡◌ {A = Result AuthError (List (ℕ × User))} (err forbidden) (ok users) =
          rw (plain, foreign) at h in
        absurd cc
    | inr own ↦
        let k = ok-injective (rw (plain, own) at h) in
        subst (All (λ e. check_tenant (some i) e.1.tenant_id ≡ ok tt)) k (
          All-map_of (λ e same. rw (plain, same) refl) _
            (All-keep_if (λ e. is_own i e.1.tenant_id) s.users))
  ]
]
  where
    All-of :
        {P : ℕ × User → Type 0} (users : List (ℕ × User)) → ((e : ℕ × User) → P e) → All P users
    All-of [] f = tt
    All-of (e ∷ es) f = (f e, All-of es f)

-- Where ids are unique, the companies that are listed for an identity are ones that it gets by
-- their ids, as they are listed.
pub list_companies-get_company :
    (i : Identity) (s : Store) (companies : List (Text × Tenant))
    → IsKeyed s.tenants
    → list_companies (some i) s ≡ ok companies
    → All (λ e. get_company e.0 (some i) s ≡ ok e.1) companies
unfolding list_companies get_company
list_companies-get_company i s companies keyed h = elim (Bool-cases (is_platform i.role)) [
  | inl platform ↦
      subst (All (λ e. get_company e.0 (some i) s ≡ ok e.1)) (ok-injective (rw platform at h))
        (All-map_of (λ e there. rw (platform, there) refl) s.tenants keyed)
  | inr plain ↦
      let own = λ (e : Text × Tenant). is_own i (some e.0) in
      subst (All (λ e. get_company e.0 (some i) s ≡ ok e.1)) (ok-injective (rw plain at h)) (
        All-map_of (λ e both. rw (plain, both.0, both.1) refl) (keep_if own s.tenants)
          (All-both (λ e. own e ≡ true) (λ e. lookup e.0 s.tenants ≡ some e.1)
            (keep_if own s.tenants) (All-keep_if own s.tenants)
            (All-keep_if_of own (λ e. lookup e.0 s.tenants ≡ some e.1) s.tenants keyed)))
]
