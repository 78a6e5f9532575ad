-- ===== src/Accounts/Confined.antt =====
-- What an administrator of a company can reach by app/api/routers/admin_router.py.
use green_shift.Accounts.{ApiKey, User, Store, Settings, Library}
use green_shift.Accounts.Identities.{Identity, is_platform}
use green_shift.Accounts.Requests.{Request, handle}
use green_shift.Accounts.Changes.{handle-Change}
use green_shift.Accounts.Reach.{
  IsOwned, IsPlaced, HasKept, UsersChange, TenantsChange, KeysChange, IsOwnKey, IsOwnedKey,
  is_registration, drawn_id,
}
use green_shift.Accounts.Valid.{IsValid, next_id_free}
use green_shift.Prelude.Dict.{lookup, nat_eq, lookup-insert}
use green_shift.Prelude.Result.{ok}
use green_shift.Prelude.Texts.{Text, text_eq, text_key, text_eq_iff, text_eq_refl}
use green_shift.Prelude.{
  ℕ, ◌≡◌, ◌⊎◌, ap, ◌∙◌, Bool, refl, sym, subst, inl, inr, true, false, Option, none, some,
  if◌then◌else◌, ◌==◌, ==_iff, Bool-cases, some-injective,
}

-- What became of a user's row: nothing; or it was not there, or of the requester's company, and is
-- of that company now, or of none and registered.
abbrev pub UserKept : Identity → Request → ℕ → Store → Store → Type 0
UserKept i q id s t =
    (lookup id t.users ≡ lookup id s.users)
    ⊎ ((w : User) × (lookup id t.users ≡ some w)
        × IsOwned i (lookup id s.users)
        × IsPlaced i (is_registration q) w (lookup id s.users))

abbrev pub TenantKept : Identity → Text → Store → Store → Type 0
TenantKept i id s t = (lookup id t.tenants ≡ lookup id s.tenants) ⊎ (some id ≡ i.tenant_id)

abbrev pub KeyKept : Identity → Text → Store → Store → Type 0
KeyKept i id s t =
    (lookup id t.api_keys ≡ lookup id s.api_keys)
    ⊎ ((k : ApiKey) × (lookup id t.api_keys ≡ some k)
        × IsOwnedKey i (lookup id s.api_keys)
        × IsOwnKey i k)

user_kept :
    (i : Identity) (q : Request) (s t : Store) (j : ℕ)
    → UsersChange i (is_registration q) s t
    → UserKept i q j s t
user_kept i q s t j (inl same) = inl (rw same refl)
user_kept i q s t j (inr (id, w, e, owned, _, placed)) = elim (Bool-cases (j == id)) [
  | inl here ↦
      subst (λ n. UserKept i q n s t) (sym ((==_iff j id).0 here))
        (inr (w, rw (e, lookup-insert id id w s.users, (==_iff id id).1 refl) refl, owned, placed))
  | inr apart ↦ inl (rw (e, lookup-insert id j w s.users, apart) refl)
]

tenant_kept : (i : Identity) (s t : Store) (id : Text) → TenantsChange i s t → TenantKept i id s t
tenant_kept i s t id (inl same) = inl (rw same refl)
tenant_kept i s t id (inr (own_id, x, e, own)) = elim (Bool-cases (text_eq id own_id)) [
  | inl here ↦ inr (ap some ((text_eq_iff id own_id).0 here) ∙ own)
  | inr apart ↦ inl (rw (e, lookup-insert own_id id x s.tenants, apart) refl)
]

key_kept :
    (i : Identity) (drawn : Option Text) (s t : Store) (j : Text)
    → ((id : Text) → drawn ≡ some id → lookup id s.api_keys ≡ none)
    → KeysChange i drawn s t
    → KeyKept i j s t
key_kept i drawn s t j new (inl same) = inl (rw same refl)
key_kept i drawn s t j new (inr (id, k, e, own, old)) = elim (Bool-cases (text_eq j id)) [
  | inl here ↦
      subst (λ n. KeyKept i n s t) (sym ((text_eq_iff j id).0 here))
        (inr
          (k, rw (e, lookup-insert id id k s.api_keys, text_eq_refl id) refl, was_owned old, own))
  | inr apart ↦ inl (rw (e, lookup-insert id j k s.api_keys, apart) refl)
]
  where
    was_owned :
        IsOwnedKey i (lookup id s.api_keys) ⊎ (drawn ≡ some id)
        → IsOwnedKey i (lookup id s.api_keys)
    was_owned (inl owned) = owned
    was_owned (inr chosen) = rw (new id chosen) tt

-- A platform administrator before.
abbrev pub WasPlatform : Store → ℕ → Type 0
WasPlatform s id = (v : User) × (lookup id s.users ≡ some v) × (is_platform v.role ≡ true)

kept-WasPlatform :
    (s : Store) (id : ℕ) (w : User) (o : Option User)
    → lookup id s.users ≡ o
    → HasKept w o
    → is_platform w.role ≡ true
    → WasPlatform s id
kept-WasPlatform s id w none row plain platform = cc (plain, platform)
kept-WasPlatform s id w (some v) row (inl plain) platform = cc (plain, platform)
kept-WasPlatform s id w (some v) row (inr same) platform = (v, row, rw (← same) platform)

platform_before :
    (i : Identity) (registers : Bool) (s t : Store) (j : ℕ) (u : User)
    → UsersChange i registers s t
    → lookup j t.users ≡ some u
    → is_platform u.role ≡ true
    → WasPlatform s j
platform_before i registers s t j u (inl same) row platform = (u, rw (← same) row, platform)
platform_before i registers s t j u (inr (id, w, e, _, kept, _)) row platform =
    let now : (if j == id then some w else lookup j s.users) ≡ some u =
      rw (e, lookup-insert id j w s.users) at row in
    elim (Bool-cases (j == id)) [
      | inl here ↦
          let w_role : is_platform w.role ≡ true = rw (some-injective (rw here at now)) platform in
          subst (WasPlatform s) (sym ((==_iff j id).0 here))
            (kept-WasPlatform s id w (lookup id s.users) refl kept w_role)
      | inr apart ↦ (u, rw apart at now, platform)
    ]

-- Where a request is made by someone who is no platform administrator and does not fail, on tables
-- in which ids are below the next one and no key has the role of an administrator, and the id drawn
-- for a new key is not in use, then for any three ids. The row of the user is as it was; or it was not
-- there or of the requester's company, and is of that company afterwards, or of none where a new
-- user registers. The row of the company is as it was, or it is the requester's. The row of the API
-- key is as it was; or it was not there or of the requester's company, and is of that company
-- afterwards, or of the default one where the requester has none. Users and requesters without a
-- company count as those of one.
pub handle-isolated :
    {Token : Type 0} (lib : Library Token) (config : Settings) (i : Identity) (q : Request)
    (s t : Store) (user_id : ℕ) (company_id key_id : Text)
    → is_platform i.role ≡ false
    → IsValid s
    → ((id : Text) → drawn_id q ≡ some id → lookup id s.api_keys ≡ none)
    → handle lib config (some i) q s ≡ ok t
    → UserKept i q user_id s t × TenantKept i company_id s t × KeyKept i key_id s t
handle-isolated lib config i q s t user_id company_id key_id plain v new h =
    let (users, tenants, keys) = handle-Change i plain lib config q s t (next_id_free s v) h in
    (
      user_kept i q s t user_id users,
      tenant_kept i s t company_id tenants,
      key_kept i (drawn_id q) s t key_id new keys,
    )

-- Where a request is made by someone who is no platform administrator and does not fail, on such
-- tables, whoever is a platform administrator afterwards was one before.
pub handle-WasPlatform :
    {Token : Type 0} (lib : Library Token) (config : Settings) (i : Identity) (q : Request)
    (s t : Store) (user_id : ℕ) (u : User)
    → is_platform i.role ≡ false
    → IsValid s
    → handle lib config (some i) q s ≡ ok t
    → lookup user_id t.users ≡ some u
    → is_platform u.role ≡ true
    → WasPlatform s user_id
handle-WasPlatform lib config i q s t user_id u plain v h row platform =
    platform_before i (is_registration q) s t user_id u
      (handle-Change i plain lib config q s t (next_id_free s v) h).0 row platform
