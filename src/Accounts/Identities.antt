-- ===== src/Accounts/Identities.antt =====
-- The identity of a request and the checks of its role, by app/shared/auth.py.
use green_shift.Accounts.{
  ApiKey, AuthError, Library, Settings, Store, User, check_account, forbidden, payload_invalid,
  refuse_if, token_required, unknown_user,
}
use green_shift.Accounts.Login.{decode_access_token}
use green_shift.Approval.{UserRole, platform_admin, company_admin, company_user}
use green_shift.Prelude.Dict.{lookup, adjust, nat_eq}
use green_shift.Prelude.Result.{Result, ok, err, ◌>>=◌, ◌>>◌}
use green_shift.Prelude.Texts.{Text, text_eq, text_key}
use green_shift.Prelude.{
  ℕ, Bool, true, false, not, ◌&&◌, ◌||◌, Option, none, some, List, [], ◌∷◌, if◌then◌else◌,
}

-- The id of a user, or of an API key.
pub data Subject : Type 0 where
  of_user : ℕ → Subject
  of_key : Text → Subject

pub record Identity : Type 0 where
  pub subject : Subject
  pub tenant_id : Option Text
  pub team_id : Option Text
  pub role : UserRole

abbrev pub identity_of : ℕ → User → Identity
identity_of id u = record {
  subject = of_user id;
  tenant_id = u.tenant_id;
  team_id = u.team_id;
  role = u.role;
}

abbrev pub identity_of_key : Text → ApiKey → Identity
identity_of_key id k = record {
  subject = of_key id;
  tenant_id = some k.tenant_id;
  team_id = none;
  role = k.role;
}

abbrev pub by_row : Store → ℕ → Option User → Result AuthError (Option Identity)
by_row s id none = ok none
by_row s id (some u) = check_account s u >> ok (some (identity_of id u))

abbrev pub by_claims : Store → Option ℕ → Result AuthError (Option Identity)
by_claims s none = ok none
by_claims s (some id) = by_row s id (lookup id s.users)

abbrev pub valid_key : Text → ApiKey → Bool
valid_key hash k = text_eq k.key_hash hash && k.is_active

abbrev pub first_key : Text → List (Text × ApiKey) → Option (Text × ApiKey)
first_key hash [] = none
first_key hash ((id, k) ∷ keys) =
    let rest = first_key hash keys in if valid_key hash k then some (id, k) else rest

abbrev pub used_at : ℕ → ApiKey → ApiKey
used_at now k = record k { last_used = some now }

-- Where the commit fails, it is rolled back.
abbrev pub touch : Bool → ℕ → Text → Store → Store
touch false now id s = s
touch true now id s = record s {
  api_keys = adjust (λ j k. if text_eq j id then used_at now k else k) s.api_keys;
}

abbrev pub by_key_row : Bool → ℕ → Store → Option (Text × ApiKey) → Store × Option Identity
by_key_row commits now s none = (s, none)
by_key_row commits now s (some (id, k)) = (touch commits now id s, some (identity_of_key id k))

-- Nobody, in the development mode.
abbrev pub passthrough : Settings → Result AuthError (Option Identity)
passthrough config = if config.auth_enabled then err token_required else ok none

abbrev pub or_passthrough :
    Settings → Store × Option Identity → Store × Result AuthError (Option Identity)
or_passthrough config (s, some i) = (s, ok (some i))
or_passthrough config (s, none) = (s, passthrough config)

-- What a request brings: the token of the header Authorization and the header X-API-Key, which are
-- `none` where they are empty. `commits` tells whether noting the use of a key succeeds.
pub record Credentials (Token : Type 0) : Type 0 where
  pub bearer : Option Token
  pub api_key : Option Text
  pub commits : Bool

module _ {Token : Type 0} (lib : Library Token) where
  abbrev pub by_token : ℕ → Store → Option Token → Result AuthError (Option Identity)
  by_token now s none = ok none
  by_token now s (some token) = do p ← decode_access_token lib now token; by_claims s p.user_id

  abbrev pub by_key : Bool → ℕ → Store → Option Text → Store × Option Identity
  by_key commits now s none = (s, none)
  by_key commits now s (some raw) = by_key_row commits now s (first_key (lib.sha256 raw) s.api_keys)

  abbrev pub or_key :
      Settings
      → ℕ
      → Credentials Token
      → Store
      → Result AuthError (Option Identity)
      → Store × Result AuthError (Option Identity)
  or_key config now c s (err e) = (s, err e)
  or_key config now c s (ok (some i)) = (s, ok (some i))
  or_key config now c s (ok none) = or_passthrough config (by_key c.commits now s c.api_key)

  unfoldable pub get_current_identity :
      Settings → ℕ → Credentials Token → Store → Store × Result AuthError (Option Identity)
  get_current_identity config now c s = or_key config now c s (by_token now s c.bearer)

  abbrev pub checked_user : Store → ℕ → Option User → Result AuthError (ℕ × User)
  checked_user s id none = err unknown_user
  checked_user s id (some u) = check_account s u >> ok (id, u)

  abbrev pub claimed_user : Store → Option ℕ → Result AuthError (ℕ × User)
  claimed_user s none = err payload_invalid
  claimed_user s (some id) = checked_user s id (lookup id s.users)

  unfoldable pub get_current_user : ℕ → Option Token → Store → Result AuthError (ℕ × User)
  get_current_user now none s = err token_required
  get_current_user now (some token) s = do
    p ← decode_access_token lib now token
    claimed_user s p.user_id

abbrev pub is_platform : UserRole → Bool
is_platform platform_admin = true
is_platform _ = false

-- `is_company_admin`, which platform administrators are too.
abbrev pub is_admin : UserRole → Bool
is_admin company_user = false
is_admin _ = true

-- Nobody passes, since that is the development mode.
abbrev pub require_platform_admin : Option Identity → Result AuthError (Unit {0})
require_platform_admin none = ok tt
require_platform_admin (some i) = refuse_if (not (is_platform i.role)) forbidden

abbrev pub require_company_admin : Option Identity → Result AuthError (Unit {0})
require_company_admin none = ok tt
require_company_admin (some i) = refuse_if (not (is_admin i.role)) forbidden

abbrev pub same_role : UserRole → UserRole → Bool
same_role platform_admin platform_admin = true
same_role company_admin company_admin = true
same_role company_user company_user = true
same_role _ _ = false

abbrev pub names_role : List UserRole → UserRole → Bool
names_role [] role = false
names_role (r ∷ allowed) role = same_role r role || names_role allowed role

-- The check of `require_roles` on the current user's role.
unfoldable pub require_roles : List UserRole → UserRole → Result AuthError (Unit {0})
require_roles allowed role =
    if is_platform role
    then ok tt
    else if is_admin role && (names_role allowed company_admin || names_role allowed company_user)
    then ok tt
    else refuse_if (not (names_role allowed role)) forbidden
