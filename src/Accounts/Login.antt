-- ===== src/Accounts/Login.antt =====
-- The logins of app/api/routers/auth.py, and the tokens that app/shared/auth.py makes and reads.
use green_shift.Accounts.{
  AuthError, Library, Payload, Settings, Store, Tenant, TokenError, User, bad_credentials,
  check_approval, company_inactive, deactivated, expired_signature, invalid_token, is_approved,
  is_pending, pending_approval, refuse_if, token_expired, token_invalid, user_company_is_inactive,
}
use green_shift.Prelude.Dict.{lookup, nat_eq}
use green_shift.Prelude.Result.{Result, ok, err, ◌>>=◌, ◌>>◌}
use green_shift.Prelude.Texts.{Text, text_eq, text_key}
use green_shift.Prelude.{
  ℕ, ◌+◌, ◌*◌, Bool, false, not, ◌&&◌, ◌||◌, Option, none, some, List, [], ◌∷◌, if◌then◌else◌,
}

abbrev pub verified : Option Bool → Bool
verified none = false
verified (some b) = b

abbrev pub company_name_of : Option Tenant → Option Text
company_name_of none = none
company_name_of (some t) = some t.name

abbrev pub company_name : Store → Option Text → Option Text
company_name s none = none
company_name s (some id) = company_name_of (lookup id s.tenants)

abbrev pub first_where : (User → Bool) → List (ℕ × User) → Option (ℕ × User)
first_where p [] = none
first_where p ((id, u) ∷ users) =
    let rest = first_where p users in if p u then some (id, u) else rest

-- What a user who may not log in is told.
abbrev pub refusal : User → AuthError
refusal u =
    if not u.is_active && is_approved u.approval_status then deactivated else pending_approval

-- The checks of the two logins, which differ from those of a token in their order.
unfoldable pub check_login : Store → User → Result AuthError (Unit {0})
check_login s u = do
  refuse_if (not u.is_active || is_pending u.approval_status) (refusal u)
  check_approval u.approval_status
  refuse_if (user_company_is_inactive s u) company_inactive

-- The time that a token of that time expires at.
abbrev pub expire : Settings → ℕ → ℕ
expire config now = now + config.jwt_expire_minutes * 60

abbrev pub access_payload : Settings → ℕ → ℕ → User → Option Text → Payload
access_payload config now id u company = record {
  user_id = some id;
  username = u.username;
  role = u.role;
  team_id = u.team_id;
  tenant_id = u.tenant_id;
  company_name = company;
  approval_status = u.approval_status;
  iat = now;
  exp = expire config now;
}

module _ {Token : Type 0} (lib : Library Token) where
  abbrev pub verify_password : Text → Text → Bool
  verify_password plain hashed = verified (lib.checkpw plain hashed)

  abbrev pub create_access_token : Settings → ℕ → ℕ → User → Option Text → Token
  create_access_token config now id u company = lib.encode (access_payload config now id u company)

  abbrev pub raised_as : TokenError → AuthError
  raised_as expired_signature = token_expired
  raised_as invalid_token = token_invalid

  abbrev pub decoded : Result TokenError Payload → Result AuthError Payload
  decoded (ok p) = ok p
  decoded (err e) = err (raised_as e)

  abbrev pub decode_access_token : ℕ → Token → Result AuthError Payload
  decode_access_token now token = decoded (lib.decode now token)

  -- Without a row the password is compared with a fixed hash, and what comes out is not used.
  abbrev pub with_password : Text → Option (ℕ × User) → Result AuthError (ℕ × User)
  with_password password none = err bad_credentials
  with_password password (some (id, u)) =
      if verify_password password u.hashed_password then ok (id, u) else err bad_credentials

  abbrev pub admitted : Settings → ℕ → Store → ℕ × User → Result AuthError Token
  admitted config now s (id, u) =
      check_login s u >> ok (create_access_token config now id u (company_name s u.tenant_id))

  -- The row that the database finds first is the first of the table.
  unfoldable pub login : Settings → ℕ → Text → Text → Store → Result AuthError Token
  login config now name password s = do
    e ←
        with_password password
          (first_where (λ u. text_eq u.username name || text_eq u.email name) s.users)
    admitted config now s e

  unfoldable pub login_email : Settings → ℕ → Text → Text → Store → Result AuthError Token
  login_email config now email password s = do
    e ← with_password password (first_where (λ u. text_eq u.email email) s.users)
    admitted config now s e
