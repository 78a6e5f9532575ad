-- ===== src/Accounts/Valid.antt =====
-- The tables of users and API keys as an invariant, and what each request does to it.
use green_shift.Accounts.{
  User, ApiKey, Store, Settings, Library, AuthError, forbidden, bad_request, conflict, internal,
  own_role, not_found, refuse_if,
}
use green_shift.Accounts.Identities.{
  is_platform, Identity, is_admin, require_company_admin, require_platform_admin,
}
use green_shift.Accounts.Administration.{
  UserRegisterRequest, UserCreateRequest, UserStatusUpdateRequest, ApiKeyCreateRequest,
  CompanyUpdateRequest, CompanyCreateRequest, create_company, is_company, company_id_of, is_taken,
  refers, add_user, registered, register, by_platform, target_tenant, created, create_user, found,
  check_tenant, is_self, set_approval, set_active, set_role, put_user, update_user_status,
  deactivate_user, is_company_user, or_default_tenant, add_key, create_api_key, other_company,
  revoke_api_key, set_name, set_company_active, name_taken, update_company,
}
use green_shift.Accounts.Requests.{
  Request, post_register, post_users, patch_status, delete_user, post_api_keys, delete_api_key,
  put_company, post_companies, handle,
}
use green_shift.Companies.Members.{username_of}
use green_shift.Prelude.Dict.{lookup, nat_eq, All-insert, All-lookup, lookup-none}
use green_shift.Prelude.Result.{ok, After, After->>=, ok-injective}
use green_shift.Prelude.Texts.{Text, text_key}
use green_shift.Prelude.{
  ℕ, suc, ◌<◌, ◌≡◌, refl, ap, Bool, true, false, not, ◌&&◌, Option, none, some, All, All-map_of,
  is_some, Bool-cases, inl, inr, arith,
}

-- Ids are below the next one, and no key has the role of an administrator.
pub record IsValid (s : Store) : Type 0 where
  pub ids : All (λ e. e.0 < s.next_id) s.users
  pub keys : All (λ e. is_admin e.1.role ≡ false) s.api_keys

-- The id of a new user is free.
pub next_id_free : (s : Store) → IsValid s → lookup s.next_id s.users ≡ none
next_id_free s v =
    lookup-none s.next_id s.users (All-map_of (λ e h. ground (arith, h)) s.users v.ids)

found-eq : {A : Type 0} (o : Option A) {a : A} → found o ≡ ok a → o ≡ some a
found-eq none h = absurd cc
found-eq (some b) h = ap some (ok-injective h)

After-IsValid : {s : Store} → IsValid s → After {E = AuthError} IsValid (ok s)
unfolding After
After-IsValid v = v

add_user-IsValid : (u : User) (s : Store) → IsValid s → After IsValid (add_user u s)
unfolding After
add_user-IsValid u s v = elim (Bool-cases (refers s u.tenant_id)) [
  | inl there ↦ rw there (record {
    ids =
        All-insert (λ e. e.0 < suc s.next_id) s.next_id u s.users (omega arith)
          (All-map_of (λ e h. omega (arith, h)) s.users v.ids);
    keys = v.keys;
  })
  | inr missing ↦ rw missing tt
]

put_user-IsValid :
    (id : ℕ) (u w : User) (s : Store)
    → lookup id s.users ≡ some u
    → IsValid s
    → IsValid (put_user id w s)
put_user-IsValid id u w s row v = record {
  ids =
      All-insert (λ e. e.0 < s.next_id) id w s.users
        (All-lookup (λ e. e.0 < s.next_id) id u s.users row v.ids) v.ids;
  keys = v.keys;
}

add_key-IsValid :
    (id : Text) (k : ApiKey) (s : Store)
    → is_admin k.role ≡ false
    → IsValid s
    → IsValid (add_key id k s)
add_key-IsValid id k s role v = record {
  ids = v.ids;
  keys = All-insert (λ e. is_admin e.1.role ≡ false) id k s.api_keys role v.keys;
}

refuse_if-false : (test : Bool) (e : AuthError) → refuse_if test e ≡ ok tt → test ≡ false
refuse_if-false true e h = absurd cc
refuse_if-false false e h = refl

module _ (identity : Option Identity) (s : Store) (v : IsValid s) where
  pub register-IsValid :
      (hash : Text → Text) (config : Settings) (body : UserRegisterRequest)
      → After IsValid (register hash config body s)
  unfolding register
  register-IsValid hash config body =
      After->>= IsValid _ _ λ _ _. add_user-IsValid (registered hash config body) s v

  create_user-IsValid :
      (hash : Text → Text) (body : UserCreateRequest)
      → After IsValid (create_user hash identity body s)
  unfolding create_user
  create_user-IsValid hash body =
      After->>= IsValid (refuse_if (is_platform body.role && not (by_platform identity)) forbidden)
        _
        λ _ _.
          After->>= IsValid
            (refuse_if (is_taken s (username_of body.email body.username) body.email) conflict) _
            λ _ _.
              After->>= IsValid (target_tenant identity body.tenant_id) _
                λ tenant_id _. add_user-IsValid (created hash body tenant_id) s v

  update_user_status-IsValid :
      (id : ℕ) (body : UserStatusUpdateRequest)
      → After IsValid (update_user_status id body identity s)
  unfolding update_user_status
  update_user_status-IsValid id body = After->>= IsValid (found (lookup id s.users)) _ λ u row.
      After->>= IsValid (check_tenant identity u.tenant_id) _ λ _ _.
        After->>= IsValid (refuse_if (is_self id identity && is_some body.role) own_role) _ λ _ _.
          After->>= IsValid (set_approval body.approval_status u) _ λ x _.
            After->>= IsValid (set_role identity body.role (set_active body.is_active x)) _
              λ w _. After-IsValid (put_user-IsValid id u w s (found-eq (lookup id s.users) row) v)

  deactivate_user-IsValid : (id : ℕ) → After IsValid (deactivate_user id identity s)
  unfolding deactivate_user
  deactivate_user-IsValid id = After->>= IsValid (found (lookup id s.users)) _ λ u row.
      After->>= IsValid (check_tenant identity u.tenant_id) _ λ _ _.
        After->>= IsValid (refuse_if (not u.is_active) bad_request) _ λ _ _. After-IsValid (
          put_user-IsValid id u (record u { is_active = false }) s
            (found-eq (lookup id s.users) row) v)

  create_api_key-IsValid :
      (sha256 : Text → Text) (key_id raw_key : Text) (body : ApiKeyCreateRequest)
      → After IsValid (create_api_key sha256 key_id raw_key identity body s)
  unfolding create_api_key
  create_api_key-IsValid sha256 key_id raw_key body =
      After->>= IsValid (refuse_if (is_admin body.role) bad_request) _ λ _ unprivileged.
        After->>= IsValid (refuse_if (not (is_company_user body.role)) bad_request) _ λ _ _.
          After->>= IsValid (target_tenant identity body.tenant_id) _ λ tenant_id _.
            After->>= IsValid
              (refuse_if (not (is_some (lookup (or_default_tenant tenant_id) s.tenants)))
                bad_request)
              _
              λ _ _.
                After-IsValid
                  (add_key-IsValid key_id _ s (refuse_if-false _ bad_request unprivileged) v)

  revoke_api_key-IsValid : (key_id : Text) → After IsValid (revoke_api_key key_id identity s)
  unfolding revoke_api_key
  revoke_api_key-IsValid key_id = After->>= IsValid (found (lookup key_id s.api_keys)) _ λ k row.
      After->>= IsValid (refuse_if (other_company identity k) not_found) _ λ _ _.
        After->>= IsValid (refuse_if (not k.is_active) bad_request) _ λ _ _. After-IsValid (
          add_key-IsValid key_id (record k { is_active = false }) s
            (All-lookup (λ e. is_admin e.1.role ≡ false) key_id k s.api_keys
              (found-eq (lookup key_id s.api_keys) row) v.keys)
            v)

  update_company-IsValid :
      (id : Text) (body : CompanyUpdateRequest) → After IsValid (update_company id body identity s)
  unfolding update_company
  update_company-IsValid id body = After->>= IsValid (check_tenant identity (some id)) _ λ _ _.
      After->>= IsValid (found (lookup id s.tenants)) _ λ x _.
        After->>= IsValid (set_company_active identity body.is_active (set_name body.name x)) _
          λ y _.
            After->>= IsValid (refuse_if (name_taken id y.name s.tenants) internal) _
              λ _ _. After-IsValid (record { ids = v.ids; keys = v.keys })

  create_company-IsValid : (body : CompanyCreateRequest) → After IsValid (create_company body s)
  unfolding create_company
  create_company-IsValid body =
      After->>= IsValid (refuse_if (is_company (company_id_of body) body.name s.tenants) conflict) _
        λ _ _. After-IsValid (record { ids = v.ids; keys = v.keys })

  pub handle-IsValid :
      {Token : Type 0} (lib : Library Token) (config : Settings) (q : Request)
      → After IsValid (handle lib config identity q s)
  handle-IsValid lib config (post_register body) = register-IsValid lib.hashpw config body
  handle-IsValid lib config (post_users body) =
      After->>= IsValid (require_company_admin identity) _
        λ _ _. create_user-IsValid lib.hashpw body
  handle-IsValid lib config (patch_status id body) =
      After->>= IsValid (require_company_admin identity) _ λ _ _. update_user_status-IsValid id body
  handle-IsValid lib config (delete_user id) =
      After->>= IsValid (require_company_admin identity) _ λ _ _. deactivate_user-IsValid id
  handle-IsValid lib config (post_api_keys key_id raw_key body) =
      After->>= IsValid (require_company_admin identity) _
        λ _ _. create_api_key-IsValid lib.sha256 key_id raw_key body
  handle-IsValid lib config (delete_api_key key_id) =
      After->>= IsValid (require_company_admin identity) _ λ _ _. revoke_api_key-IsValid key_id
  handle-IsValid lib config (put_company id body) =
      After->>= IsValid (require_company_admin identity) _ λ _ _. update_company-IsValid id body
  handle-IsValid lib config (post_companies body) =
      After->>= IsValid (require_platform_admin identity) _ λ _ _. create_company-IsValid body
