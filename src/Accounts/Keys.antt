-- ===== src/Accounts/Keys.antt =====
-- The tables under any sequence of requests, and what a request with an API key may do.
use green_shift.Accounts.{ApiKey, Store, Settings, Library, AuthError, forbidden}
use green_shift.Accounts.Identities.{
  Identity, identity_of_key, is_admin, first_key, valid_key, used_at, touch, by_key_row,
  or_passthrough, Credentials, by_token, by_key, or_key, get_current_identity,
  require_company_admin, require_platform_admin,
}
use green_shift.Accounts.Administration.{register}
use green_shift.Accounts.Requests.{
  Request, post_register, post_users, patch_status, delete_user, post_api_keys, delete_api_key,
  put_company, post_companies, handle, kept, answered, serve,
}
use green_shift.Prelude.Dict.{nat_eq, All-adjust}
use green_shift.Prelude.Result.{Result, ok, err, After, ok-injective}
use green_shift.Prelude.Texts.{Text, text_eq, text_key}
use green_shift.Prelude.{
  ℕ, ◌≡◌, refl, sym, ap, subst, Bool, true, false, Option, none, some, List, [], ◌∷◌, if◌then◌else◌,
  All, All-map_of, Bool-cases, inl, inr, arith, some-injective,
}
use green_shift.Accounts.Sessions.{nobody}
use green_shift.Accounts.Valid.{IsValid, register-IsValid, handle-IsValid}

touch-same :
    (commits : Bool) (now : ℕ) (id : Text) (s : Store)
    → ((touch commits now id s).users ≡ s.users) × ((touch commits now id s).tenants ≡ s.tenants)
touch-same false now id s = (refl, refl)
touch-same true now id s = (refl, refl)

first_key-All :
    (P : Text × ApiKey → Type 0) (hash : Text) (keys : List (Text × ApiKey)) (e : Text × ApiKey)
    → All P keys
    → first_key hash keys ≡ some e
    → P e
first_key-All P hash [] e all first = absurd cc
first_key-All P hash ((id, k) ∷ keys) e all first = elim (Bool-cases (valid_key hash k)) [
  | inl valid ↦ subst P (some-injective (rw valid at first)) all.0
  | inr other ↦ first_key-All P hash keys e all.1 (rw other at first)
]

touch-IsValid :
    (commits : Bool) (now : ℕ) (id : Text) (s : Store)
    → IsValid s
    → IsValid (touch commits now id s)
touch-IsValid false now id s v = v
touch-IsValid true now id s v = record {
  ids = v.ids;
  keys =
      All-adjust (λ e. is_admin e.1.role ≡ false) (λ j k. if text_eq j id then used_at now k else k)
        s.api_keys (All-map_of (λ e h. same_role e.1 (text_eq e.0 id) h) s.api_keys v.keys);
}
  where
    same_role :
        (k : ApiKey) (b : Bool)
        → is_admin k.role ≡ false
        → is_admin (if b then used_at now k else k).role ≡ false
    same_role k true h = h
    same_role k false h = h

by_key_row-IsValid :
    (commits : Bool) (now : ℕ) (s : Store) (o : Option (Text × ApiKey))
    → IsValid s
    → IsValid (by_key_row commits now s o).0
by_key_row-IsValid commits now s none v = v
by_key_row-IsValid commits now s (some (id, k)) v = touch-IsValid commits now id s v

or_passthrough-same :
    (config : Settings) (p : Store × Option Identity) → (or_passthrough config p).0 ≡ p.0
or_passthrough-same config (s, none) = refl
or_passthrough-same config (s, some i) = refl

module _ {Token : Type 0} (lib : Library Token) (config : Settings) where
  by_key-IsValid :
      (commits : Bool) (now : ℕ) (s : Store) (o : Option Text)
      → IsValid s
      → IsValid (by_key lib commits now s o).0
  by_key-IsValid commits now s none v = v
  by_key-IsValid commits now s (some raw) v =
      by_key_row-IsValid commits now s (first_key (lib.sha256 raw) s.api_keys) v

  or_key-IsValid :
      (now : ℕ) (c : Credentials Token) (s : Store) (r : Result AuthError (Option Identity))
      → IsValid s
      → IsValid (or_key lib config now c s r).0
  or_key-IsValid now c s (err e) v = v
  or_key-IsValid now c s (ok (some i)) v = v
  or_key-IsValid now c s (ok none) v =
      subst IsValid (sym (or_passthrough-same config (by_key lib c.commits now s c.api_key)))
        (by_key-IsValid c.commits now s c.api_key v)

  kept-IsValid :
      (s : Store) (r : Result AuthError Store)
      → IsValid s
      → After IsValid r
      → IsValid (kept lib config s r)
  unfolding After
  kept-IsValid s (err e) v h = v
  kept-IsValid s (ok t) v h = h

  answered-IsValid :
      (q : Request) (p : Store × Result AuthError (Option Identity))
      → IsValid p.0
      → IsValid (answered lib config q p)
  answered-IsValid q (s, err e) v = v
  answered-IsValid q (s, ok identity) v =
      kept-IsValid s (handle lib config identity q s) v (handle-IsValid identity s v lib config q)

  with_identity :
      (now : ℕ) (c : Credentials Token) (q : Request) (s : Store)
      → IsValid s
      → IsValid (answered lib config q (get_current_identity lib config now c s))
  unfolding get_current_identity
  with_identity now c q s v =
      answered-IsValid q (get_current_identity lib config now c s)
        (or_key-IsValid now c s (by_token lib now s c.bearer) v)

  serve-IsValid :
      (now : ℕ) (c : Credentials Token) (q : Request) (s : Store)
      → IsValid s
      → IsValid (serve lib config now c q s)
  unfolding serve
  serve-IsValid now c (post_register body) s v =
      kept-IsValid s (register lib.hashpw config body s) v
        (register-IsValid none s v lib.hashpw config body)
  serve-IsValid now c (post_users body) s v = with_identity now c (post_users body) s v
  serve-IsValid now c (patch_status id body) s v = with_identity now c (patch_status id body) s v
  serve-IsValid now c (delete_user id) s v = with_identity now c (delete_user id) s v
  serve-IsValid now c (post_api_keys key_id raw_key body) s v =
      with_identity now c (post_api_keys key_id raw_key body) s v
  serve-IsValid now c (delete_api_key key_id) s v = with_identity now c (delete_api_key key_id) s v
  serve-IsValid now c (put_company id body) s v = with_identity now c (put_company id body) s v
  serve-IsValid now c (post_companies body) s v = with_identity now c (post_companies body) s v

  -- Requests one after the other, each at its time and with its credentials.
  unfoldable pub serve_all : List (ℕ × Credentials Token × Request) → Store → Store
  serve_all [] s = s
  serve_all ((now, c, q) ∷ rest) s = serve_all rest (serve lib config now c q s)

  pub serve_all-IsValid :
      (requests : List (ℕ × Credentials Token × Request)) (s : Store)
      → IsValid s
      → IsValid (serve_all requests s)
  unfolding serve_all
  serve_all-IsValid [] s v = v
  serve_all-IsValid ((now, c, q) ∷ rest) s v =
      serve_all-IsValid rest (serve lib config now c q s) (serve-IsValid now c q s v)

  by_found :
      (commits : Bool) (now : ℕ) (s : Store) (o : Option (Text × ApiKey)) (t : Store) (i : Identity)
      → ((e : Text × ApiKey) → o ≡ some e → is_admin e.1.role ≡ false)
      → or_passthrough config (by_key_row commits now s o) ≡ (t, ok (some i))
      → (is_admin i.role ≡ false) × (t.users ≡ s.users) × (t.tenants ≡ s.tenants)
  by_found commits now s none t i plain h = absurd (nobody lib config i (ap (λ p. p.1) h))
  by_found commits now s (some (id, k)) t i plain h =
      let same : touch commits now id s ≡ t = ap (λ p. p.0) h in
      let own : identity_of_key id k ≡ i = some-injective (ok-injective (ap (λ p. p.1) h)) in
      (
        subst (λ x. is_admin x.role ≡ false) own (plain (id, k) refl),
        subst (λ x. x.users ≡ s.users) same (touch-same commits now id s).0,
        subst (λ x. x.tenants ≡ s.tenants) same (touch-same commits now id s).1,
      )

  found_by_key :
      (commits : Bool) (now : ℕ) (s : Store) (hash : Text) (t : Store) (i : Identity)
      → IsValid s
      → or_passthrough config (by_key_row commits now s (first_key hash s.api_keys))
        ≡ (t, ok (some i))
      → (is_admin i.role ≡ false) × (t.users ≡ s.users) × (t.tenants ≡ s.tenants)
  found_by_key commits now s hash t i v h =
      by_found commits now s (first_key hash s.api_keys) t i
        (λ e first. first_key-All (λ x. is_admin x.1.role ≡ false) hash s.api_keys e v.keys first) h

  -- After any sequence of requests, with whatever credentials, from tables in which no key has the
  -- role of an administrator: an identity that an API key gives is refused by everything that wants
  -- an administrator of a company or of the platform. Using the key changes no user or company.
  pub serve_all-key_refused :
      (requests : List (ℕ × Credentials Token × Request)) (now : ℕ) (raw : Text) (commits : Bool)
      (s t : Store) (i : Identity)
      → IsValid s
      → get_current_identity lib config now
          (record { bearer = none; api_key = some raw; commits = commits })
          (serve_all requests s)
        ≡ (t, ok (some i))
      → (require_company_admin (some i) ≡ err forbidden)
        × (require_platform_admin (some i) ≡ err forbidden)
        × (t.users ≡ (serve_all requests s).users)
        × (t.tenants ≡ (serve_all requests s).tenants)
  unfolding get_current_identity
  serve_all-key_refused requests now raw commits s t i v h =
      let (plain, users, tenants) =
        found_by_key commits now (serve_all requests s) (lib.sha256 raw) t i
          (serve_all-IsValid requests s v) h in
      (rw plain refl, ground (arith, plain), users, tenants)
