-- ===== src/Accounts/Administration.antt =====
-- The registration of app/api/routers/auth.py and the endpoints of app/api/routers/admin_router.py
-- that change users, companies and API keys. An endpoint that raises commits nothing, as its session
-- is closed; `internal` stands for what is not an HTTPException, such as an IntegrityError.
use green_shift.Accounts.{
  User, Tenant, ApiKey, ApprovalStatus, approved, pending, rejected, Store, Settings, AuthError,
  forbidden, own_role, not_found, bad_request, conflict, internal, refuse_if,
}
use green_shift.Accounts.Identities.{Identity, Subject, of_user, of_key, is_platform, is_admin}
use green_shift.Approval.{UserRole, company_user}
use green_shift.Companies.Members.{username_of}
use green_shift.Prelude.Dict.{lookup, insert, nat_eq}
use green_shift.Prelude.Result.{Result, ok, err, ◌>>=◌, ◌>>◌}
use green_shift.Prelude.Texts.{Text, text_eq, text_key, upper, lower, codes}
use green_shift.Prelude.{
  ℕ, suc, Bool, true, false, not, ◌&&◌, ◌||◌, Option, none, some, List, [], ◌∷◌, ◌++◌, map,
  if◌then◌else◌, ◌==◌, any, is_some, option_eq,
}

pub record UserRegisterRequest : Type 0 where
  pub username : Text
  pub email : Text
  pub password : Text
  pub team_id : Option Text

pub record UserCreateRequest : Type 0 where
  pub email : Text
  pub password : Text
  pub role : UserRole
  pub username : Option Text
  pub team_id : Option Text
  pub tenant_id : Option Text

pub record UserStatusUpdateRequest : Type 0 where
  pub approval_status : Option Text
  pub is_active : Option Bool
  pub role : Option UserRole

pub record ApiKeyCreateRequest : Type 0 where
  pub role : UserRole
  pub tenant_id : Option Text

pub record CompanyUpdateRequest : Type 0 where
  pub name : Option Text
  pub is_active : Option Bool

abbrev pub is_taken : Store → Text → Text → Bool
is_taken s username email =
    any (λ e. text_eq e.1.username username || text_eq e.1.email email) s.users

abbrev pub given : Option Text → Option Text
given none = none
given (some []) = none
given (some (c ∷ cs)) = some (c ∷ cs)

abbrev pub or_else : Option Text → Option Text → Option Text
or_else none d = d
or_else (some t) d = some t

abbrev pub refers : Store → Option Text → Bool
refers s none = true
refers s (some id) = is_some (lookup id s.tenants)

-- The commit of a new user, whose company the foreign key checks.
abbrev pub add_user : User → Store → Result AuthError Store
add_user u s =
    if refers s u.tenant_id
    then ok (record s { users = insert s.next_id u s.users; next_id = suc s.next_id })
    else err internal

abbrev pub status_of_new : Bool → ApprovalStatus
status_of_new true = pending
status_of_new false = approved

abbrev pub registered : (Text → Text) → Settings → UserRegisterRequest → User
registered hash config body = record {
  username = body.username;
  email = body.email;
  hashed_password = hash body.password;
  role = company_user;
  approval_status = status_of_new config.auth_enabled;
  team_id = body.team_id;
  tenant_id = none;
  is_active = not config.auth_enabled;
}

unfoldable pub register :
    (Text → Text) → Settings → UserRegisterRequest → Store → Result AuthError Store
register hash config body s = do
  refuse_if (is_taken s body.username body.email) conflict
  add_user (registered hash config body) s

abbrev pub tenant_of : Option Identity → Option Text
tenant_of none = none
tenant_of (some i) = i.tenant_id

abbrev pub by_platform : Option Identity → Bool
by_platform none = false
by_platform (some i) = is_platform i.role

abbrev pub is_foreign : Option Identity → Option Text → Bool
is_foreign none wanted = false
is_foreign (some i) wanted = is_some (given wanted) && not (option_eq text_eq wanted i.tenant_id)

-- The company that a user or a key is made for.
abbrev pub target_tenant : Option Identity → Option Text → Result AuthError (Option Text)
target_tenant identity wanted =
    if by_platform identity
    then ok (or_else (given wanted) (tenant_of identity))
    else if is_foreign identity wanted
    then err forbidden
    else ok (tenant_of identity)

abbrev pub created : (Text → Text) → UserCreateRequest → Option Text → User
created hash body tenant_id = record {
  username = username_of body.email body.username;
  email = body.email;
  hashed_password = hash body.password;
  role = body.role;
  approval_status = approved;
  team_id = body.team_id;
  tenant_id = tenant_id;
  is_active = true;
}

unfoldable pub create_user :
    (Text → Text) → Option Identity → UserCreateRequest → Store → Result AuthError Store
create_user hash identity body s = do
  refuse_if (is_platform body.role && not (by_platform identity)) forbidden
  refuse_if (is_taken s (username_of body.email body.username) body.email) conflict
  tenant_id ← target_tenant identity body.tenant_id
  add_user (created hash body tenant_id) s

abbrev pub found {ℓ} : {A : Type ℓ} → Option A → Result AuthError A
found none = err not_found
found (some a) = ok a

-- Where there is no identity, reading its company raises.
abbrev pub check_tenant : Option Identity → Option Text → Result AuthError (Unit {0})
check_tenant none tenant_id = err internal
check_tenant (some i) tenant_id =
    refuse_if (not (is_platform i.role) && not (option_eq text_eq tenant_id i.tenant_id)) not_found

-- `str` of two numbers is equal where they are, and the id of a key is not that of a number.
abbrev pub is_subject : ℕ → Subject → Bool
is_subject id (of_user n) = n == id
is_subject id (of_key t) = false

abbrev pub is_self : ℕ → Option Identity → Bool
is_self id none = false
is_self id (some i) = is_subject id i.subject

abbrev pub parsed_status : Text → Result AuthError ApprovalStatus
parsed_status t =
    if text_eq (upper t) (codes "APPROVED")
    then ok approved
    else if text_eq (upper t) (codes "PENDING")
    then ok pending
    else if text_eq (upper t) (codes "REJECTED")
    then ok rejected
    else err bad_request

abbrev pub with_approval : ApprovalStatus → User → User
with_approval approved u = record u { approval_status = approved; is_active = true }
with_approval pending u = record u { approval_status = pending }
with_approval rejected u = record u { approval_status = rejected; is_active = false }

abbrev pub set_approval : Option Text → User → Result AuthError User
set_approval none u = ok u
set_approval (some t) u = do a ← parsed_status t; ok (with_approval a u)

abbrev pub set_active : Option Bool → User → User
set_active none u = u
set_active (some b) u = record u { is_active = b }

abbrev pub set_role : Option Identity → Option UserRole → User → Result AuthError User
set_role identity none u = ok u
set_role identity (some role) u =
    if is_platform role && not (by_platform identity)
    then err forbidden
    else ok (record u { role = role })

abbrev pub put_user : ℕ → User → Store → Store
put_user id u s = record s { users = insert id u s.users }

unfoldable pub update_user_status :
    ℕ → UserStatusUpdateRequest → Option Identity → Store → Result AuthError Store
update_user_status id body identity s = do
  u ← found (lookup id s.users)
  check_tenant identity u.tenant_id
  refuse_if (is_self id identity && is_some body.role) own_role
  v ← set_approval body.approval_status u
  w ← set_role identity body.role (set_active body.is_active v)
  ok (put_user id w s)

unfoldable pub deactivate_user : ℕ → Option Identity → Store → Result AuthError Store
deactivate_user id identity s = do
  u ← found (lookup id s.users)
  check_tenant identity u.tenant_id
  refuse_if (not u.is_active) bad_request
  ok (put_user id (record u { is_active = false }) s)

abbrev pub is_company_user : UserRole → Bool
is_company_user company_user = true
is_company_user _ = false

abbrev pub or_default_tenant : Option Text → Text
or_default_tenant none = codes "tenant-default"
or_default_tenant (some []) = codes "tenant-default"
or_default_tenant (some (c ∷ cs)) = c ∷ cs

abbrev pub add_key : Text → ApiKey → Store → Store
add_key id k s = record s { api_keys = insert id k s.api_keys }

-- The id and the key itself are drawn, and taken to be new.
unfoldable pub create_api_key :
    (Text → Text)
    → Text
    → Text
    → Option Identity
    → ApiKeyCreateRequest
    → Store
    → Result AuthError Store
create_api_key sha256 key_id raw_key identity body s = do
  refuse_if (is_admin body.role) bad_request
  refuse_if (not (is_company_user body.role)) bad_request
  tenant_id ← target_tenant identity body.tenant_id
  refuse_if (not (is_some (lookup (or_default_tenant tenant_id) s.tenants))) bad_request
  ok (
      add_key key_id
        (record {
          key_hash = sha256 raw_key;
          tenant_id = or_default_tenant tenant_id;
          role = body.role;
          is_active = true;
          last_used = none;
        })
        s)

abbrev pub other_company : Option Identity → ApiKey → Bool
other_company none k = false
other_company (some i) k =
    not (is_platform i.role) && not (option_eq text_eq (some k.tenant_id) i.tenant_id)

unfoldable pub revoke_api_key : Text → Option Identity → Store → Result AuthError Store
revoke_api_key key_id identity s = do
  k ← found (lookup key_id s.api_keys)
  refuse_if (other_company identity k) not_found
  refuse_if (not k.is_active) bad_request
  ok (add_key key_id (record k { is_active = false }) s)

abbrev pub set_name : Option Text → Tenant → Tenant
set_name none t = t
set_name (some name) t = record t { name = name }

abbrev pub set_company_active : Option Identity → Option Bool → Tenant → Result AuthError Tenant
set_company_active identity none t = ok t
set_company_active identity (some b) t =
    if by_platform identity then ok (record t { is_active = b }) else err forbidden

abbrev pub name_taken : Text → Text → List (Text × Tenant) → Bool
name_taken id name tenants = any (λ e. text_eq e.1.name name && not (text_eq e.0 id)) tenants

unfoldable pub update_company :
    Text → CompanyUpdateRequest → Option Identity → Store → Result AuthError Store
update_company id body identity s = do
  check_tenant identity (some id)
  t ← found (lookup id s.tenants)
  u ← set_company_active identity body.is_active (set_name body.name t)
  refuse_if (name_taken id u.name s.tenants) internal
  ok (record s { tenants = insert id u s.tenants })

pub record CompanyCreateRequest : Type 0 where
  pub id : Option Text
  pub name : Text
  pub is_active : Bool

-- `replace(" ", "-")`
abbrev pub dashed : Text → Text
dashed t = map (λ c. if c == 32 then 45 else c) t

-- Letters outside of ASCII stand for their lower case.
abbrev pub company_id_of : CompanyCreateRequest → Text
company_id_of body = elim (given body.id) [
  | none ↦ codes "tenant-" ++ dashed (lower body.name)
  | some id ↦ id
]

abbrev pub is_company : Text → Text → List (Text × Tenant) → Bool
is_company id name tenants = any (λ e. text_eq e.0 id || text_eq e.1.name name) tenants

unfoldable pub create_company : CompanyCreateRequest → Store → Result AuthError Store
create_company body s = do
  refuse_if (is_company (company_id_of body) body.name s.tenants) conflict
  ok (record s {
    tenants =
        insert (company_id_of body) (record { name = body.name; is_active = body.is_active })
          s.tenants;
  })
