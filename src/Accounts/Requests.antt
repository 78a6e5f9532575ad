-- ===== src/Accounts/Requests.antt =====
-- The requests that change users, companies and API keys, with the credentials that they bring.
use green_shift.Accounts.{Store, Settings, Library, AuthError}
use green_shift.Accounts.Identities.{
  Identity, require_company_admin, require_platform_admin, Credentials, get_current_identity,
}
use green_shift.Prelude.Dict.{nat_eq}
use green_shift.Prelude.Result.{Result, ok, err, ◌>>◌}
use green_shift.Prelude.Texts.{Text, text_key}
use green_shift.Prelude.{ℕ, Option}
use green_shift.Accounts.Administration.{
  ApiKeyCreateRequest, CompanyUpdateRequest, CompanyCreateRequest, create_company,
  UserCreateRequest, UserRegisterRequest, UserStatusUpdateRequest, create_api_key, create_user,
  deactivate_user, register, revoke_api_key, update_company, update_user_status,
}

pub data Request : Type 0 where
  post_register : UserRegisterRequest → Request
  post_users : UserCreateRequest → Request
  patch_status : ℕ → UserStatusUpdateRequest → Request
  delete_user : ℕ → Request
  post_api_keys : Text → Text → ApiKeyCreateRequest → Request
  delete_api_key : Text → Request
  put_company : Text → CompanyUpdateRequest → Request
  post_companies : CompanyCreateRequest → Request

module _ {Token : Type 0} (lib : Library Token) (config : Settings) where
  -- What each endpoint does once the identity is known.
  abbrev pub handle : Option Identity → Request → Store → Result AuthError Store
  handle identity (post_register body) s = register lib.hashpw config body s
  handle identity (post_users body) s =
      require_company_admin identity >> create_user lib.hashpw identity body s
  handle identity (patch_status id body) s =
      require_company_admin identity >> update_user_status id body identity s
  handle identity (delete_user id) s =
      require_company_admin identity >> deactivate_user id identity s
  handle identity (post_api_keys key_id raw_key body) s =
      require_company_admin identity >> create_api_key lib.sha256 key_id raw_key identity body s
  handle identity (delete_api_key key_id) s =
      require_company_admin identity >> revoke_api_key key_id identity s
  handle identity (put_company id body) s =
      require_company_admin identity >> update_company id body identity s
  handle identity (post_companies body) s = require_platform_admin identity >> create_company body s

  abbrev pub kept : Store → Result AuthError Store → Store
  kept s (ok t) = t
  kept s (err e) = s

  abbrev pub answered : Request → Store × Result AuthError (Option Identity) → Store
  answered q (s, err e) = s
  answered q (s, ok identity) = kept s (handle identity q s)

  -- A request with its credentials, and the tables after it. The registration reads no credentials.
  unfoldable pub serve : ℕ → Credentials Token → Request → Store → Store
  serve now c (post_register body) s = kept s (register lib.hashpw config body s)
  serve now c q s = answered q (get_current_identity lib config now c s)
