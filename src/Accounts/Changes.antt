-- ===== src/Accounts/Changes.antt =====
-- What each request of app/api/routers/admin_router.py changes, where it is not one of a platform
-- administrator.
use green_shift.Accounts.{
  User, ApiKey, ApprovalStatus, approved, pending, rejected, Store, Settings, Library, AuthError,
  forbidden, own_role, not_found, bad_request, conflict, internal, refuse_if,
}
use green_shift.Accounts.Identities.{
  Identity, is_platform, is_admin, require_company_admin, require_platform_admin,
}
use green_shift.Accounts.Administration.{
  UserRegisterRequest, UserCreateRequest, UserStatusUpdateRequest, ApiKeyCreateRequest,
  CompanyUpdateRequest, is_taken, refers, add_user, registered, register, by_platform,
  target_tenant, is_foreign, created, create_user, found, check_tenant, is_self, with_approval,
  parsed_status, set_approval, set_active, set_role, put_user, update_user_status, deactivate_user,
  is_company_user, or_default_tenant, create_api_key, other_company, revoke_api_key, set_name,
  set_company_active, name_taken, update_company,
}
use green_shift.Accounts.Requests.{
  Request, post_register, post_users, patch_status, delete_user, post_api_keys, delete_api_key,
  put_company, post_companies, handle,
}
use green_shift.Accounts.Reach.{IsOwnKey, IsPlaced, Change, is_registration, drawn_id, same_company}
use green_shift.Approval.{UserRole}
use green_shift.Companies.Members.{username_of}
use green_shift.Prelude.Dict.{lookup, nat_eq}
use green_shift.Prelude.Result.{Result, ok, err, >>=-eq-ok, >>-eq-ok, ok-injective}
use green_shift.Prelude.Texts.{Text, text_key}
use green_shift.Prelude.{
  ℕ, ◌≡◌, refl, sym, ap, subst, ◌∙◌, ◌⊎◌, inl, inr, Bool, true, false, not, ◌&&◌, [], ◌∷◌, Option,
  none, some, is_some, Bool-cases, arith,
}

found-eq-ok : {A : Type 0} (o : Option A) {a : A} → found o ≡ ok a → o ≡ some a
found-eq-ok none h = absurd cc
found-eq-ok (some b) h = ap some (ok-injective h)

module _ (i : Identity) (company : is_platform i.role ≡ false) where
  add_user-Change :
      (registers : Bool) (u : User) (s t : Store)
      → is_platform u.role ≡ false
      → (u.tenant_id ≡ i.tenant_id) ⊎ ((registers ≡ true) × (u.tenant_id ≡ none))
      → lookup s.next_id s.users ≡ none
      → add_user u s ≡ ok t
      → Change i registers none s t
  add_user-Change registers u s t role place fresh h = elim (Bool-cases (refers s u.tenant_id)) [
    | inl there ↦
        subst (Change i registers none s) (ok-injective (rw there at h))
          (inr (s.next_id, u, refl, rw fresh tt, rw fresh role, placed place), inl refl, inl refl)
    | inr missing ↦
        let k : ◌≡◌ {A = Result AuthError Store} (err internal) (ok t) = rw missing at h in
        absurd cc
  ]
    where
      placed :
          (u.tenant_id ≡ i.tenant_id) ⊎ ((registers ≡ true) × (u.tenant_id ≡ none))
          → IsPlaced i registers u (lookup s.next_id s.users)
      placed (inl own) = inl own
      placed (inr (registered_now, no_company)) = inr (registered_now, fresh, no_company)

  put_user-Change :
      (id : ℕ) (u w : User) (s : Store)
      → lookup id s.users ≡ some u
      → u.tenant_id ≡ i.tenant_id
      → w.tenant_id ≡ u.tenant_id
      → (is_platform w.role ≡ false) ⊎ (w.role ≡ u.role)
      → Change i false none s (put_user id w s)
  put_user-Change id u w s row own same role =
      (inr (id, w, refl, rw row own, rw row role, inl (same ∙ own)), inl refl, inl refl)

  refused : (test : Bool) (e : AuthError) → refuse_if test e ≡ ok tt → test ≡ false
  refused true e h = absurd cc
  refused false e h = refl

  own_tenant : (o : Option Text) → check_tenant (some i) o ≡ ok tt → o ≡ i.tenant_id
  own_tenant o h = same_company o i.tenant_id (ground (arith, company, refused _ not_found h))

  target_tenant-own :
      (wanted found_id : Option Text)
      → target_tenant (some i) wanted ≡ ok found_id
      → found_id ≡ i.tenant_id
  target_tenant-own wanted found_id h = elim (Bool-cases (is_foreign (some i) wanted)) [
    | inl foreign ↦
        let k : ◌≡◌ {A = Result AuthError (Option Text)} (err forbidden) (ok found_id) =
          rw (company, foreign) at h in
        absurd cc
    | inr allowed ↦ sym (ok-injective (rw (company, allowed) at h))
  ]

  register-Change :
      (hash : Text → Text) (config : Settings) (body : UserRegisterRequest) (s t : Store)
      → lookup s.next_id s.users ≡ none
      → register hash config body s ≡ ok t
      → Change i true none s t
  unfolding register
  register-Change hash config body s t fresh h =
      let (_, done) = >>-eq-ok (refuse_if (is_taken s body.username body.email) conflict) _ h in
      add_user-Change true (registered hash config body) s t refl (inr (refl, refl)) fresh done

  create_user-Change :
      (hash : Text → Text) (body : UserCreateRequest) (s t : Store)
      → lookup s.next_id s.users ≡ none
      → create_user hash (some i) body s ≡ ok t
      → Change i false none s t
  unfolding create_user
  create_user-Change hash body s t fresh h =
      let (role, rest) =
        >>-eq-ok (refuse_if (is_platform body.role && not (by_platform (some i))) forbidden) _ h in
      let (_, rest_1) =
        >>-eq-ok (refuse_if (is_taken s (username_of body.email body.username) body.email) conflict)
          _ rest in
      let (tenant_id, target, done) = >>=-eq-ok (target_tenant (some i) body.tenant_id) _ rest_1 in
      add_user-Change false (created hash body tenant_id) s t
        (ground (arith, company, refused _ forbidden role))
        (inl (target_tenant-own body.tenant_id tenant_id target)) fresh done

  set_approval-role : (a : Option Text) (u v : User) → set_approval a u ≡ ok v → v.role ≡ u.role
  set_approval-role none u v h = ap (λ x. x.role) (sym (ok-injective h))
  set_approval-role (some text) u v h =
      let (a, _, done) = >>=-eq-ok (parsed_status text) (λ a. ok (with_approval a u)) h in
      ap (λ x. x.role) (sym (ok-injective done)) ∙ same a
    where
      same : (a : ApprovalStatus) → (with_approval a u).role ≡ u.role
      same approved = refl
      same pending = refl
      same rejected = refl

  set_approval-tenant :
      (a : Option Text) (u v : User) → set_approval a u ≡ ok v → v.tenant_id ≡ u.tenant_id
  set_approval-tenant none u v h = ap (λ x. x.tenant_id) (sym (ok-injective h))
  set_approval-tenant (some text) u v h =
      let (a, _, done) = >>=-eq-ok (parsed_status text) (λ a. ok (with_approval a u)) h in
      ap (λ x. x.tenant_id) (sym (ok-injective done)) ∙ same a
    where
      same : (a : ApprovalStatus) → (with_approval a u).tenant_id ≡ u.tenant_id
      same approved = refl
      same pending = refl
      same rejected = refl

  set_active-tenant : (b : Option Bool) (u : User) → (set_active b u).tenant_id ≡ u.tenant_id
  set_active-tenant none u = refl
  set_active-tenant (some b) u = refl

  set_role-tenant :
      (r : Option UserRole) (u w : User) → set_role (some i) r u ≡ ok w → w.tenant_id ≡ u.tenant_id
  set_role-tenant none u w h = ap (λ x. x.tenant_id) (sym (ok-injective h))
  set_role-tenant (some role) u w h = elim (Bool-cases (is_platform role)) [
    | inl platform ↦
        let k : ◌≡◌ {A = Result AuthError User} (err forbidden) (ok w) =
          rw (platform, company) at h in
        absurd cc
    | inr other ↦ ap (λ (x : User). x.tenant_id) (sym (ok-injective (rw other at h)))
  ]

  set_active-role : (b : Option Bool) (u : User) → (set_active b u).role ≡ u.role
  set_active-role none u = refl
  set_active-role (some b) u = refl

  set_role-HasKept :
      (r : Option UserRole) (u w : User)
      → set_role (some i) r u ≡ ok w
      → (is_platform w.role ≡ false) ⊎ (w.role ≡ u.role)
  set_role-HasKept none u w h = inr (ap (λ x. x.role) (sym (ok-injective h)))
  set_role-HasKept (some role) u w h = elim (Bool-cases (is_platform role)) [
    | inl platform ↦
        let k : ◌≡◌ {A = Result AuthError User} (err forbidden) (ok w) =
          rw (platform, company) at h in
        absurd cc
    | inr other ↦ inl (subst (λ x. is_platform x.role ≡ false) (ok-injective (rw other at h)) other)
  ]

  update_user_status-Change :
      (id : ℕ) (body : UserStatusUpdateRequest) (s t : Store)
      → update_user_status id body (some i) s ≡ ok t
      → Change i false none s t
  unfolding update_user_status
  update_user_status-Change id body s t h =
      let (u, row, rest) = >>=-eq-ok (found (lookup id s.users)) _ h in
      let (own, rest_1) = >>-eq-ok (check_tenant (some i) u.tenant_id) _ rest in
      let (_, rest_2) =
        >>-eq-ok (refuse_if (is_self id (some i) && is_some body.role) own_role) _ rest_1 in
      let (v, approval, rest_3) = >>=-eq-ok (set_approval body.approval_status u) _ rest_2 in
      let (w, role, done) =
        >>=-eq-ok (set_role (some i) body.role (set_active body.is_active v)) _ rest_3 in
      subst (Change i false none s) (ok-injective done) (
        put_user-Change id u w s (found-eq-ok (lookup id s.users) row) (own_tenant u.tenant_id own)
          (set_role-tenant body.role (set_active body.is_active v) w role
            ∙ (set_active-tenant body.is_active v
                ∙ set_approval-tenant body.approval_status u v approval))
          (kept (set_role-HasKept body.role (set_active body.is_active v) w role) (
            set_active-role body.is_active v
            ∙ set_approval-role body.approval_status u v approval)))
    where
      kept :
          {a b c : UserRole}
          → (is_platform a ≡ false) ⊎ (a ≡ b)
          → b ≡ c
          → (is_platform a ≡ false) ⊎ (a ≡ c)
      kept (inl plain) e = inl plain
      kept (inr same) e = inr (same ∙ e)

  deactivate_user-Change :
      (id : ℕ) (s t : Store) → deactivate_user id (some i) s ≡ ok t → Change i false none s t
  unfolding deactivate_user
  deactivate_user-Change id s t h =
      let (u, row, rest) = >>=-eq-ok (found (lookup id s.users)) _ h in
      let (own, rest_1) = >>-eq-ok (check_tenant (some i) u.tenant_id) _ rest in
      let (_, done) = >>-eq-ok (refuse_if (not u.is_active) bad_request) _ rest_1 in
      subst (Change i false none s) (ok-injective done) (
        put_user-Change id u (record u { is_active = false }) s
          (found-eq-ok (lookup id s.users) row) (own_tenant u.tenant_id own) refl (inr refl))

  create_api_key-Change :
      (sha256 : Text → Text) (key_id raw_key : Text) (body : ApiKeyCreateRequest) (s t : Store)
      → create_api_key sha256 key_id raw_key (some i) body s ≡ ok t
      → Change i false (some key_id) s t
  unfolding create_api_key
  create_api_key-Change sha256 key_id raw_key body s t h =
      let (_, rest) = >>-eq-ok (refuse_if (is_admin body.role) bad_request) _ h in
      let (_, rest_1) = >>-eq-ok (refuse_if (not (is_company_user body.role)) bad_request) _ rest in
      let (tenant_id, target, rest_2) =
        >>=-eq-ok (target_tenant (some i) body.tenant_id) _ rest_1 in
      let (_, done) =
        >>-eq-ok
          (refuse_if (not (is_some (lookup (or_default_tenant tenant_id) s.tenants))) bad_request) _
          rest_2 in
      subst (Change i false (some key_id) s) (ok-injective done) (
        inl refl,
        inl refl,
        inr (
          key_id,
          new_key tenant_id,
          refl,
          own_key tenant_id (target_tenant-own body.tenant_id tenant_id target),
          inr refl,
        ),
      )
    where
      new_key : Option Text → ApiKey
      new_key o = record {
        key_hash = sha256 raw_key;
        tenant_id = or_default_tenant o;
        role = body.role;
        is_active = true;
        last_used = none;
      }

      own_key : (o : Option Text) → o ≡ i.tenant_id → IsOwnKey i (new_key o)
      own_key none own = inr (rw (← own) refl, refl)
      own_key (some []) own = inr (rw (← own) refl, refl)
      own_key (some (c ∷ cs)) own = inl own

  revoke_api_key-Change :
      (key_id : Text) (s t : Store)
      → revoke_api_key key_id (some i) s ≡ ok t
      → Change i false none s t
  unfolding revoke_api_key
  revoke_api_key-Change key_id s t h =
      let (k, row, rest) = >>=-eq-ok (found (lookup key_id s.api_keys)) _ h in
      let (own, rest_1) = >>-eq-ok (refuse_if (other_company (some i) k) not_found) _ rest in
      let (_, done) = >>-eq-ok (refuse_if (not k.is_active) bad_request) _ rest_1 in
      let same : some k.tenant_id ≡ i.tenant_id =
        same_company (some k.tenant_id) i.tenant_id
          (ground (arith, company, refused _ not_found own)) in
      subst (Change i false none s) (ok-injective done) (
        inl refl,
        inl refl,
        inr (
          key_id,
          record k { is_active = false },
          refl,
          inl same,
          inl (rw (found-eq-ok (lookup key_id s.api_keys) row) same),
        ),
      )

  update_company-Change :
      (id : Text) (body : CompanyUpdateRequest) (s t : Store)
      → update_company id body (some i) s ≡ ok t
      → Change i false none s t
  unfolding update_company
  update_company-Change id body s t h =
      let (own, rest) = >>-eq-ok (check_tenant (some i) (some id)) _ h in
      let (x, _, rest_1) = >>=-eq-ok (found (lookup id s.tenants)) _ rest in
      let (y, _, rest_2) =
        >>=-eq-ok (set_company_active (some i) body.is_active (set_name body.name x)) _ rest_1 in
      let (_, done) = >>-eq-ok (refuse_if (name_taken id y.name s.tenants) internal) _ rest_2 in
      subst (Change i false none s) (ok-injective done)
        (inl refl, inr (id, y, refl, own_tenant (some id) own), inl refl)

  pub handle-Change :
      {Token : Type 0} (lib : Library Token) (config : Settings) (q : Request) (s t : Store)
      → lookup s.next_id s.users ≡ none
      → handle lib config (some i) q s ≡ ok t
      → Change i (is_registration q) (drawn_id q) s t
  handle-Change lib config (post_register body) s t fresh h =
      register-Change lib.hashpw config body s t fresh h
  handle-Change lib config (post_users body) s t fresh h =
      create_user-Change lib.hashpw body s t fresh (>>-eq-ok (require_company_admin (some i)) _ h).1
  handle-Change lib config (patch_status id body) s t fresh h =
      update_user_status-Change id body s t (>>-eq-ok (require_company_admin (some i)) _ h).1
  handle-Change lib config (delete_user id) s t fresh h =
      deactivate_user-Change id s t (>>-eq-ok (require_company_admin (some i)) _ h).1
  handle-Change lib config (post_api_keys key_id raw_key body) s t fresh h =
      create_api_key-Change lib.sha256 key_id raw_key body s t
        (>>-eq-ok (require_company_admin (some i)) _ h).1
  handle-Change lib config (delete_api_key key_id) s t fresh h =
      revoke_api_key-Change key_id s t (>>-eq-ok (require_company_admin (some i)) _ h).1
  handle-Change lib config (put_company id body) s t fresh h =
      update_company-Change id body s t (>>-eq-ok (require_company_admin (some i)) _ h).1
  handle-Change lib config (post_companies body) s t fresh h =
      let (admin, _) = >>-eq-ok (require_platform_admin (some i)) _ h in
      cc (company, not_false (refused (not (is_platform i.role)) forbidden admin))
    where
      not_false : {b : Bool} → not b ≡ false → b ≡ true
      not_false e = ground (arith, e)
