-- ===== src/Accounts/Tests.antt =====
-- Two companies with their users and keys, a library that signs nothing, and the theorems at them.
use green_shift.Accounts.{
  User, ApiKey, Store, Settings, Payload, Library, IsLibrary, approved, rejected, expired_signature,
  deactivated, pending_approval, forbidden, check_account,
}
use green_shift.Accounts.Login.{login, login_email, check_login}
use green_shift.Accounts.Identities.{
  Credentials, identity_of, identity_of_key, get_current_identity, get_current_user, require_roles,
  require_company_admin, require_platform_admin,
}
use green_shift.Accounts.Administration.{
  update_user_status, deactivate_user, register, create_user, create_api_key, revoke_api_key,
  update_company,
}
use green_shift.Accounts.Requests.{Request, delete_user, serve}
use green_shift.Accounts.Sessions.{
  bearing, IsWorth, login-get_current_identity, deactivate_user-refused,
  get_current_identity-get_current_user,
}
use green_shift.Accounts.Answers.{IsAdmitted}
use green_shift.Accounts.Confined.{
  UserKept, TenantKept, KeyKept, handle-isolated, handle-WasPlatform, WasPlatform,
}
use green_shift.Accounts.Keys.{serve_all, serve_all-key_refused}
use green_shift.Accounts.Valid.{IsValid}
use green_shift.Approval.{UserRole, platform_admin, company_admin, company_user}
use green_shift.Prelude.Dict.{IsKeyed, lookup, insert, adjust, nat_eq}
use green_shift.Prelude.Result.{ok, err}
use green_shift.Prelude.Texts.{Text, text_eq, text_key, text_eq_refl, codes}
use green_shift.Prelude.{
  ℕ, ◌≡◌, ◌⊎◌, ◌↔◌, String, refl, true, false, some, none, Option, List, [], ◌∷◌, if◌then◌else◌,
  ltb, arith,
}

-- A token is its claims, and a hash its text with a mark in front.
abbrev plain : Library Payload
plain = record {
  encode = λ p. p;
  decode = λ now p. if ltb now p.exp then ok p else err expired_signature;
  checkpw = λ password hashed. some (text_eq (36 ∷ password) hashed);
  hashpw = λ password. 36 ∷ password;
  sha256 = λ t. 35 ∷ t;
}

plain-IsLibrary : IsLibrary plain
plain-IsLibrary = record {
  decode-encode = λ now p issued valid. ground arith;
  decode_expired = λ now p issued past. ground arith;
  checkpw-hashpw = λ password. rw (text_eq_refl (36 ∷ password)) refl;
}

abbrev config : Settings
config = record { auth_enabled = true; jwt_expire_minutes = 60 }

abbrev a_user : String → UserRole → Option Text → User
a_user name role company = record {
  username = codes name;
  email = codes name;
  hashed_password = 36 ∷ codes "secret";
  role = role;
  approval_status = approved;
  team_id = none;
  tenant_id = company;
  is_active = true;
}

abbrev acme : Option Text
acme = some (codes "acme")

abbrev ann : User
ann = a_user "ann" company_admin acme

abbrev bob : User
bob = a_user "bob" company_user acme

abbrev eve : User
eve = a_user "eve" company_admin (some (codes "globex"))

abbrev root : User
root = a_user "root" platform_admin none

abbrev acme_key : ApiKey
acme_key = record {
  key_hash = 35 ∷ codes "gs";
  tenant_id = codes "acme";
  role = company_user;
  is_active = true;
  last_used = none;
}

abbrev tables : Store
tables = record {
  users = (1, root) ∷ (2, ann) ∷ (3, bob) ∷ (4, eve) ∷ [];
  tenants =
      (codes "acme", record { name = codes "Acme"; is_active = true })
      ∷ (codes "globex", record { name = codes "Globex"; is_active = true })
      ∷ [];
  api_keys = (codes "k", acme_key) ∷ [];
  next_id = 5;
}

tables-IsValid : IsValid tables
tables-IsValid = record {
  ids = (omega arith, (omega arith, (omega arith, (omega arith, tt))));
  keys = (refl, tt);
}

program : Unit {0}
unfolding login login_email check_login check_account get_current_identity get_current_user
    require_roles update_user_status deactivate_user register create_user create_api_key
    revoke_api_key update_company serve serve_all lookup insert adjust
program = tt

abbrev bobs_token : Payload
bobs_token = record {
  user_id = some 3;
  username = codes "bob";
  role = company_user;
  team_id = none;
  tenant_id = acme;
  company_name = some (codes "Acme");
  approval_status = approved;
  iat = 100;
  exp = 3700;
}

bob_logs_in : login plain config 100 (codes "bob") (codes "secret") tables ≡ ok bobs_token
unfolding program
bob_logs_in = refl

-- Bob's row after Ann has deactivated it.
abbrev without_bob : Store
without_bob = record tables {
  users = (1, root) ∷ (2, ann) ∷ (3, record bob { is_active = false }) ∷ (4, eve) ∷ [];
}

ann_deactivates : deactivate_user 3 (some (identity_of 2 ann)) tables ≡ ok without_bob
unfolding program
ann_deactivates = refl

-- Bob's row after Ann has declined it.
abbrev declined_bob : User
declined_bob = record bob { approval_status = rejected; is_active = false }

abbrev with_declined : Store
with_declined = record tables { users = (1, root) ∷ (2, ann) ∷ (3, declined_bob) ∷ (4, eve) ∷ [] }

ann_declines :
    update_user_status 3
      (record { approval_status = some (codes "rejected"); is_active = none; role = none })
      (some (identity_of 2 ann))
      tables
    ≡ ok with_declined
unfolding program
ann_declines = refl

-- One who is declined, and so inactive, is told that the approval is pending.
declined_login :
    login plain config 100 (codes "bob") (codes "secret") with_declined ≡ err pending_approval
unfolding program
declined_login = refl

tables-IsKeyed : IsKeyed tables.users
unfolding lookup
tables-IsKeyed = (refl, (refl, (refl, (refl, tt))))

login-get_current_identity_example :
    (id : ℕ) × (u : User) × (lookup id tables.users ≡ some u)
    × ((u.username ≡ codes "bob") ⊎ (u.email ≡ codes "bob"))
    × (plain.checkpw (codes "secret") u.hashed_password ≡ some true)
    × IsAdmitted tables u
    × IsWorth plain config 3700 200 id none true without_bob (
        get_current_identity plain config 200
          (bearing plain config bobs_token none true)
          without_bob)
login-get_current_identity_example =
    login-get_current_identity plain config 100 200 (codes "bob") (codes "secret") tables
      without_bob bobs_token none true plain-IsLibrary tables-IsKeyed (omega arith) bob_logs_in

deactivate_user-refused_example :
    (get_current_identity plain config 200 (bearing plain config bobs_token none true) without_bob
      ≡ (without_bob, err deactivated))
    × (get_current_user plain 200 (some bobs_token) without_bob ≡ err deactivated)
deactivate_user-refused_example =
    deactivate_user-refused plain config 3 200 (some (identity_of 2 ann)) tables without_bob
      bobs_token bobs_token none true ann_deactivates refl refl

get_current_identity-get_current_user_example :
    ((get_current_identity plain config 200 (bearing plain config bobs_token none true) tables).1
      ≡ ok (some (identity_of 3 bob)))
    ↔ ((e : ℕ × User) × (get_current_user plain 200 (some bobs_token) tables ≡ ok e)
        × (identity_of e.0 e.1 ≡ identity_of 3 bob))
get_current_identity-get_current_user_example =
    get_current_identity-get_current_user plain config 200 bobs_token true tables
      (identity_of 3 bob)

handle-isolated_example :
    UserKept (identity_of 2 ann) (delete_user 3) 3 tables without_bob
    × TenantKept (identity_of 2 ann) (codes "globex") tables without_bob
    × KeyKept (identity_of 2 ann) (codes "key") tables without_bob
handle-isolated_example =
    handle-isolated plain config (identity_of 2 ann) (delete_user 3) tables without_bob 3
      (codes "globex") (codes "key") refl tables-IsValid (λ id drawn. absurd cc) ann_deactivates

handle-WasPlatform_example : WasPlatform tables 1
unfolding lookup
handle-WasPlatform_example =
    handle-WasPlatform plain config (identity_of 2 ann) (delete_user 3) tables without_bob 1 root
      refl tables-IsValid ann_deactivates refl refl

-- Ann deactivates Bob, and someone with the key tries to deactivate Ann.
abbrev with_key : Credentials Payload
with_key = record { bearer = none; api_key = some (codes "gs"); commits = true }

abbrev anns_token : Payload
anns_token = record bobs_token { user_id = some 2 }

abbrev requests : List (ℕ × Credentials Payload × Request)
requests =
    (200, bearing plain config anns_token none true, delete_user 3)
    ∷ (300, with_key, delete_user 2)
    ∷ []

abbrev used_key : ℕ → ApiKey
used_key now = record acme_key { last_used = some now }

abbrev served : ℕ → Store
served now = record without_bob { api_keys = (codes "k", used_key now) ∷ [] }

serve_all-requests : serve_all plain config requests tables ≡ served 300
unfolding program
serve_all-requests = refl

key_identity :
    get_current_identity plain config 400 with_key (serve_all plain config requests tables)
    ≡ (served 400, ok (some (identity_of_key (codes "k") acme_key)))
unfolding program
key_identity = refl

serve_all-key_refused_example :
    (require_company_admin (some (identity_of_key (codes "k") acme_key)) ≡ err forbidden)
    × (require_platform_admin (some (identity_of_key (codes "k") acme_key)) ≡ err forbidden)
    × ((served 400).users ≡ (serve_all plain config requests tables).users)
    × ((served 400).tenants ≡ (serve_all plain config requests tables).tenants)
serve_all-key_refused_example =
    serve_all-key_refused plain config requests 400 (codes "gs") true tables (served 400)
      (identity_of_key (codes "k") acme_key) tables-IsValid key_identity
