-- ===== src/Accounts/Reach.antt =====
-- What a request of app/api/routers/admin_router.py may change for its requester, who is no platform
-- administrator.
use green_shift.Accounts.{User, Tenant, ApiKey, Store}
use green_shift.Accounts.Identities.{Identity, is_platform}
use green_shift.Accounts.Administration.{given}
use green_shift.Accounts.Requests.{Request, post_register, post_api_keys}
use green_shift.Prelude.Dict.{lookup, insert, nat_eq}
use green_shift.Prelude.Texts.{Text, text_eq, text_eq_iff, text_key, codes}
use green_shift.Prelude.{ℕ, ◌≡◌, refl, ap, ◌⊎◌, Bool, true, false, Option, none, some, option_eq}

-- Of the same company; having none counts as one.
abbrev pub IsOwned : Identity → Option User → Type 0
IsOwned i none = Unit {0}
IsOwned i (some v) = v.tenant_id ≡ i.tenant_id

-- In the own company, or registered without one.
abbrev pub IsPlaced : Identity → Bool → User → Option User → Type 0
IsPlaced i registers w old =
    (w.tenant_id ≡ i.tenant_id) ⊎ ((registers ≡ true) × (old ≡ none) × (w.tenant_id ≡ none))

abbrev pub HasKept : User → Option User → Type 0
HasKept w none = is_platform w.role ≡ false
HasKept w (some v) = (is_platform w.role ≡ false) ⊎ (w.role ≡ v.role)

-- What a request does to the users: nothing, or one row, which was not there or is of the own
-- company, which comes to be in the own company, or without one by a registration, and which does
-- not become that of a platform administrator.
abbrev pub UsersChange : Identity → Bool → Store → Store → Type 0
UsersChange i registers s t =
    (t.users ≡ s.users)
    ⊎ ((id : ℕ) × (w : User) × (t.users ≡ insert id w s.users)
        × IsOwned i (lookup id s.users)
        × HasKept w (lookup id s.users)
        × IsPlaced i registers w (lookup id s.users))

abbrev pub TenantsChange : Identity → Store → Store → Type 0
TenantsChange i s t =
    (t.tenants ≡ s.tenants)
    ⊎ ((id : Text) × (x : Tenant) × (t.tenants ≡ insert id x s.tenants) × (some id ≡ i.tenant_id))

-- A key of the own company, or of the default one where the requester has none.
abbrev pub IsOwnKey : Identity → ApiKey → Type 0
IsOwnKey i k =
    (some k.tenant_id ≡ i.tenant_id)
    ⊎ ((given i.tenant_id ≡ none) × (k.tenant_id ≡ codes "tenant-default"))

abbrev pub IsOwnedKey : Identity → Option ApiKey → Type 0
IsOwnedKey i none = Unit {0}
IsOwnedKey i (some k) = some k.tenant_id ≡ i.tenant_id

-- What it does to the keys: nothing, or one row, of the own company, or of the id that was drawn.
abbrev pub KeysChange : Identity → Option Text → Store → Store → Type 0
KeysChange i drawn s t =
    (t.api_keys ≡ s.api_keys)
    ⊎ ((id : Text) × (k : ApiKey) × (t.api_keys ≡ insert id k s.api_keys)
        × IsOwnKey i k
        × (IsOwnedKey i (lookup id s.api_keys) ⊎ (drawn ≡ some id)))

abbrev pub Change : Identity → Bool → Option Text → Store → Store → Type 0
Change i registers drawn s t =
    UsersChange i registers s t × TenantsChange i s t × KeysChange i drawn s t

abbrev pub is_registration : Request → Bool
is_registration (post_register body) = true
is_registration _ = false

-- The id that is drawn for a new key.
abbrev pub drawn_id : Request → Option Text
drawn_id (post_api_keys key_id raw_key body) = some key_id
drawn_id _ = none

pub same_company : (o p : Option Text) → option_eq text_eq o p ≡ true → o ≡ p
same_company none none h = refl
same_company none (some t) h = absurd cc
same_company (some t) none h = absurd cc
same_company (some t) (some u) h = ap some ((text_eq_iff t u).0 h)
