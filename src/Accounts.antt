-- ===== src/Accounts.antt =====
-- Users and who they are: the login of app/api/routers/auth.py, and the tokens and API keys from
-- which app/shared/auth.py takes the identity of a request. Times are whole seconds. The tables
-- users, tenants and api_keys are keyed by the id; a request has them to itself. The library's
-- parts (signing, bcrypt, SHA-256) are parameters. Audit records, notifications, the limits on the
-- rate, how long an answer takes, and the name of an identity are not modelled.
pub mod Login
pub mod Identities
pub mod Administration
pub mod Requests
pub mod Answers
pub mod Sessions
pub mod Reach
pub mod Changes
pub mod Confined
pub mod Listing
pub mod Valid
pub mod Roles
pub mod Keys
mod Tests
use green_shift.Approval.{UserRole, platform_admin, company_admin, company_user}
use green_shift.Prelude.Dict.{lookup, adjust, nat_eq}
use green_shift.Prelude.Result.{Result, ok, err, ◌>>=◌, ◌>>◌}
use green_shift.Prelude.Texts.{Text, text_eq, text_key}
use green_shift.Prelude.{
  ℕ, ◌+◌, ◌*◌, ◌≤◌, ◌<◌, ◌≡◌, Bool, true, false, not, ◌&&◌, ◌||◌, Option, none, some, List, [], ◌∷◌,
  if◌then◌else◌,
}

pub data ApprovalStatus : Type 0 where
  approved pending rejected : ApprovalStatus

-- The columns of UserORM, TenantORM and APIKeyORM that are read or written.
pub record User : Type 0 where
  pub username : Text
  pub email : Text
  pub hashed_password : Text
  pub role : UserRole
  pub approval_status : ApprovalStatus
  pub team_id : Option Text
  pub tenant_id : Option Text
  pub is_active : Bool

pub record Tenant : Type 0 where
  pub name : Text
  pub is_active : Bool

pub record ApiKey : Type 0 where
  pub key_hash : Text
  pub tenant_id : Text
  pub role : UserRole
  pub is_active : Bool
  pub last_used : Option ℕ

pub record Store : Type 0 where
  pub users : List (ℕ × User)
  pub tenants : List (Text × Tenant)
  pub api_keys : List (Text × ApiKey)
  pub next_id : ℕ

pub record Settings : Type 0 where
  pub auth_enabled : Bool
  pub jwt_expire_minutes : ℕ

-- The claims of a token; that of the user may be missing.
pub record Payload : Type 0 where
  pub user_id : Option ℕ
  pub username : Text
  pub role : UserRole
  pub team_id : Option Text
  pub tenant_id : Option Text
  pub company_name : Option Text
  pub approval_status : ApprovalStatus
  pub iat : ℕ
  pub exp : ℕ

pub data TokenError : Type 0 where
  expired_signature invalid_token : TokenError

-- jwt.encode, and jwt.decode at a time, with the key and the algorithm of the settings;
-- bcrypt.checkpw, which is `none` where it raises, and bcrypt.hashpw with the salt that is drawn;
-- hashlib.sha256.
pub record Library (Token : Type 0) : Type 0 where
  pub encode : Payload → Token
  pub decode : ℕ → Token → Result TokenError Payload
  pub checkpw : Text → Text → Option Bool
  pub hashpw : Text → Text
  pub sha256 : Text → Text

-- What their documentation says: a token is read back between the time that it is issued at and the
-- one that it expires at, from which on it is refused; and a password matches its hash.
pub record IsLibrary {Token : Type 0} (lib : Library Token) : Type 0 where
  pub decode-encode :
      (now : ℕ) (p : Payload) → p.iat ≤ now → now < p.exp → lib.decode now (lib.encode p) ≡ ok p
  pub decode_expired :
      (now : ℕ) (p : Payload)
      → p.iat ≤ now
      → p.exp ≤ now
      → lib.decode now (lib.encode p) ≡ err expired_signature
  pub checkpw-hashpw : (password : Text) → lib.checkpw password (lib.hashpw password) ≡ some true

-- The answers 401, 403, 404, 400 and 409, by what refuses, and 500.
pub data AuthError : Type 0 where
  token_required token_expired token_invalid payload_invalid unknown_user bad_credentials :
      AuthError
  deactivated pending_approval declined company_inactive forbidden own_role : AuthError
  not_found bad_request conflict internal : AuthError

abbrev pub inactive_row : Option Tenant → Bool
inactive_row none = false
inactive_row (some t) = not t.is_active

abbrev pub tenant_inactive : Store → Option Text → Bool
tenant_inactive s none = false
tenant_inactive s (some []) = false
tenant_inactive s (some (c ∷ cs)) = inactive_row (lookup (c ∷ cs) s.tenants)

abbrev pub user_company_is_inactive : Store → User → Bool
user_company_is_inactive s u = tenant_inactive s u.tenant_id

abbrev pub refuse_if : Bool → AuthError → Result AuthError (Unit {0})
refuse_if test e = if test then err e else ok tt

abbrev pub check_approval : ApprovalStatus → Result AuthError (Unit {0})
check_approval approved = ok tt
check_approval pending = err pending_approval
check_approval rejected = err declined

-- The checks of `get_current_identity` and `get_current_user` on the row of a token's user.
unfoldable pub check_account : Store → User → Result AuthError (Unit {0})
check_account s u = do
  refuse_if (not u.is_active) deactivated
  check_approval u.approval_status
  refuse_if (user_company_is_inactive s u) company_inactive

abbrev pub is_approved : ApprovalStatus → Bool
is_approved approved = true
is_approved _ = false

abbrev pub is_pending : ApprovalStatus → Bool
is_pending pending = true
is_pending _ = false
