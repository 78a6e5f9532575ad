-- ===== src/Accounts/Sessions.antt =====
-- What a token of a login in app/api/routers/auth.py is worth later, by app/shared/auth.py.
use green_shift.Accounts.{
  User, Store, Settings, Payload, Library, IsLibrary, AuthError, TokenError, token_required,
  token_expired, bad_credentials, bad_request, deactivated, refuse_if, check_account,
}
use green_shift.Accounts.Login.{
  expire, access_payload, check_login, verify_password, verified, create_access_token, first_where,
  with_password, admitted, login, decoded, company_name,
}
use green_shift.Accounts.Identities.{
  Identity, identity_of, by_row, by_claims, by_token, checked_user, claimed_user, Credentials,
  or_key, get_current_identity, get_current_user, passthrough,
}
use green_shift.Accounts.Answers.{IsAdmitted, IsAnswered, IsChecked-IsAdmitted, by_row-IsAnswered}
use green_shift.Accounts.Administration.{deactivate_user, found, check_tenant}
use green_shift.Prelude.Dict.{lookup, nat_eq, IsKeyed, lookup-insert, same_refl}
use green_shift.Prelude.Result.{Result, ok, err, ◌>>=◌, ◌>>◌, >>=-eq-ok, >>-eq-ok, ok-injective}
use green_shift.Prelude.Texts.{Text, text_eq, text_eq_iff}
use green_shift.Prelude.{
  ℕ, ◌≤◌, ◌<◌, ◌+◌, ◌*◌, ◌≡◌, ◌⊎◌, ◌↔◌, refl, sym, ap, subst, ◌∙◌, Bool, true, false, not, ◌||◌,
  Option, none, some, List, [], ◌∷◌, if◌then◌else◌, All, Bool-cases, Option-cases, inl, inr, arith,
  some-injective, ltb, ltb→lt,
}

-- A login and a token admit the same users.
pub check_login-check_account :
    (s : Store) (u : User) → (check_login s u ≡ ok tt) ↔ (check_account s u ≡ ok tt)
unfolding check_login check_account
check_login-check_account s u = ground arith

-- The first row that passes a test is a row, and passes it.
first_where_lem :
    (P : ℕ × User → Type 0) (p : User → Bool) (users : List (ℕ × User)) (e : ℕ × User)
    → All P users
    → first_where p users ≡ some e
    → P e × (p e.1 ≡ true)
first_where_lem P p [] e all first = absurd cc
first_where_lem P p ((id, u) ∷ users) e all first = elim (Bool-cases (p u)) [
  | inl passes ↦
      subst (λ x. P x × (p x.1 ≡ true)) (some-injective (rw passes at first)) (all.0, passes)
  | inr fails ↦ first_where_lem P p users e all.1 (rw fails at first)
]

-- Whom a name finds.
abbrev is_named : Text → User → Bool
is_named name u = text_eq u.username name || text_eq u.email name

module _ {Token : Type 0} (lib : Library Token) (config : Settings) where
  with_password-eq-ok :
      (password : Text) (o : Option (ℕ × User)) (e : ℕ × User)
      → with_password lib password o ≡ ok e
      → (o ≡ some e) × (verify_password lib password e.1.hashed_password ≡ true)
  with_password-eq-ok password none e h = absurd cc
  with_password-eq-ok password (some (id, u)) e h =
      elim (Bool-cases (verify_password lib password u.hashed_password)) [
        | inl same ↦
            let k : (id, u) ≡ e = ok-injective (rw same at h) in
            (ap some k, subst (λ x. verify_password lib password x.1.hashed_password ≡ true) k same)
        | inr apart ↦
            let k : ◌≡◌ {A = Result AuthError (ℕ × User)} (err bad_credentials) (ok e) =
              rw apart at h in
            absurd cc
      ]

  -- The user of a login, where ids are unique.
  pub login_user :
      (now : ℕ) (name password : Text) (s : Store) (token : Token)
      → IsKeyed s.users
      → login lib config now name password s ≡ ok token
      → (id : ℕ) × (u : User) × (lookup id s.users ≡ some u)
        × (is_named name u ≡ true)
        × (verify_password lib password u.hashed_password ≡ true)
        × (check_account s u ≡ ok tt)
        × (token ≡ create_access_token lib config now id u (company_name s u.tenant_id))
  unfolding login
  login_user now name password s token keyed h =
      let (e, passed, rest) =
        >>=-eq-ok (with_password lib password (first_where (is_named name) s.users))
          (admitted lib config now s) h in
      let (first, same) =
        with_password-eq-ok password (first_where (is_named name) s.users) e passed in
      let (row, named) =
        first_where_lem (λ x. lookup x.0 s.users ≡ some x.1) (is_named name) s.users e keyed
          first in
      let (checked, made) = >>-eq-ok (check_login s e.1) _ rest in
      (
        e.0,
        e.1,
        row,
        named,
        same,
        (check_login-check_account s e.1).0 checked,
        sym (ok-injective made),
      )

  issued :
      (now later id : ℕ) (u : User) (company : Option Text) (t : Store)
      → IsLibrary lib
      → now ≤ later
      → by_token lib later t (some (create_access_token lib config now id u company)) ≡ (
          if ltb later (expire config now)
          then by_row t id (lookup id t.users)
          else err token_expired)
  issued now later id u company t laws after =
      let p = access_payload config now id u company in
      elim (Bool-cases (ltb later (expire config now))) [
        | inl valid ↦
            rw (valid, laws.decode-encode later p after (ltb→lt later (expire config now) valid))
              refl
        | inr past ↦ rw (past, laws.decode_expired later p after (ground arith)) refl
      ]

  -- A request with a token, and maybe with a key.
  abbrev pub bearing : Token → Option Text → Bool → Credentials Token
  bearing token key commits = record { bearer = some token; api_key = key; commits = commits }

  branches :
      (c : Credentials Token) (later id : ℕ) (t : Store) (b : Bool)
      → or_key lib config later c t
          (if b then by_row t id (lookup id t.users) else err token_expired)
        ≡ (if b
            then or_key lib config later c t (by_row t id (lookup id t.users))
            else (t, err token_expired))
  branches c later id t true = refl
  branches c later id t false = refl

  verified_lem : (o : Option Bool) → verified o ≡ true → o ≡ some true
  verified_lem none h = absurd cc
  verified_lem (some b) h = ap some h

  named_lem :
      (name : Text) (u : User) → is_named name u ≡ true → (u.username ≡ name) ⊎ (u.email ≡ name)
  named_lem name u h = elim (Bool-cases (text_eq u.username name)) [
    | inl same ↦ inl ((text_eq_iff u.username name).0 same)
    | inr apart ↦ inr ((text_eq_iff u.email name).0 (rw apart at h))
  ]

  -- The answer to a request that bears a token of user `id`, which expires at that time.
  abbrev pub IsWorth :
      ℕ → ℕ → ℕ → Option Text → Bool → Store → Store × Result AuthError (Option Identity) → Type 0
  IsWorth expires later id key commits t answer =
      ((expires ≤ later) × (answer ≡ (t, err token_expired)))
      ⊎ (((later < expires)
            × (lookup id t.users ≡ none)
            × (answer
                ≡ get_current_identity lib config later
                    (record { bearer = none; api_key = key; commits = commits }) t))
          ⊎ ((later < expires)
              × (v : User) × (lookup id t.users ≡ some v)
              × IsAnswered id v t answer))

  worth :
      (expires later id : ℕ) (token : Token) (key : Option Text) (commits : Bool) (t : Store)
      → IsWorth expires later id key commits t (
          if ltb later expires
          then or_key lib config later
              (bearing token key commits)
              t
              (by_row t id (lookup id t.users))
          else (t, err token_expired))
  unfolding get_current_identity
  worth expires later id token key commits t = elim (Bool-cases (ltb later expires)) [
    | inr past ↦ rw past (inl (ground (arith, past), refl))
    | inl valid ↦ elim (Option-cases (lookup id t.users)) [
      | inl gone ↦ rw (valid, gone) (inr (inl (ltb→lt later expires valid, refl, refl)))
      | inr (v, there) ↦
          rw (valid, there)
            (inr (
              inr (
                ltb→lt later expires valid,
                v,
                refl,
                by_row-IsAnswered lib config later (bearing token key commits) id v t,
              )))
    ]
  ]

  -- A login gives a token of an active, approved user, whose company is not inactive and who has
  -- that name or address and that password. From then on, whatever becomes of the tables: once the
  -- minutes of the settings are over, a request that bears the token is refused. Until then, where
  -- the user has no row any more, it is answered as one without the token; where the user has a row
  -- and the account and its company are still active and approved, it gets the identity of that user
  -- with the present role, company and team; and otherwise the error for what is the matter.
  pub login-get_current_identity :
      (now later : ℕ) (name password : Text) (s t : Store) (token : Token) (key : Option Text)
      (commits : Bool)
      → IsLibrary lib
      → IsKeyed s.users
      → now ≤ later
      → login lib config now name password s ≡ ok token
      → (id : ℕ) × (u : User) × (lookup id s.users ≡ some u)
        × ((u.username ≡ name) ⊎ (u.email ≡ name))
        × (lib.checkpw password u.hashed_password ≡ some true)
        × IsAdmitted s u
        × IsWorth
            (now + config.jwt_expire_minutes * 60)
            later
            id
            key
            commits
            t
            (get_current_identity lib config later (bearing token key commits) t)
  unfolding get_current_identity
  login-get_current_identity now later name password s t token key commits laws keyed after h =
      let (id, u, row, named, same, checked, made) = login_user now name password s token keyed h in
      let c = bearing token key commits in
      let e = issued now later id u (company_name s u.tenant_id) t laws after in
      (
        id,
        u,
        row,
        named_lem name u named,
        verified_lem (lib.checkpw password u.hashed_password) same,
        IsChecked-IsAdmitted s u checked,
        rw (made, e, branches c later id t (ltb later (expire config now)))
            (worth (expire config now) later id token key commits t),
      )

  -- Once a user is deactivated, a token that names the user is refused by both ways to read one, as
  -- long as it would have been valid, whether or not a key is sent along.
  pub deactivate_user-refused :
      (id now : ℕ) (admin : Option Identity) (s t : Store) (token : Token) (p : Payload)
      (key : Option Text) (commits : Bool)
      → deactivate_user id admin s ≡ ok t
      → lib.decode now token ≡ ok p
      → p.user_id ≡ some id
      → (get_current_identity lib config now (bearing token key commits) t ≡ (t, err deactivated))
        × (get_current_user lib now (some token) t ≡ err deactivated)
  unfolding deactivate_user get_current_identity get_current_user check_account
  deactivate_user-refused id now admin s t token p key commits h read names =
      let (u, row, rest) = >>=-eq-ok (found (lookup id s.users)) _ h in
      let (_, rest_1) = >>-eq-ok (check_tenant admin u.tenant_id) _ rest in
      let (_, done) = >>-eq-ok (refuse_if (not u.is_active) bad_request) _ rest_1 in
      let off : User = record u { is_active = false } in
      let there : lookup id t.users ≡ some off =
        subst (λ (x : Store). lookup id x.users ≡ some off) (ok-injective done)
          (rw (lookup-insert id id off s.users, same_refl id) refl) in
      (rw (read, names, there) refl, rw (read, names, there) refl)

  -- The development mode gives no identity.
  pub nobody : (i : Identity) → passthrough config ≡ ok (some i) → ⊥
  nobody i h = elim (Bool-cases config.auth_enabled) [
    | inl on ↦
        let k : ◌≡◌ {A = Result AuthError (Option Identity)} (err token_required) (ok (some i)) =
          rw on at h in
        absurd cc
    | inr off ↦
        let k : ◌≡◌ {A = Result AuthError (Option Identity)} (ok none) (ok (some i)) =
          rw off at h in
        absurd cc
  ]

  -- Both ways to read a token find the same user, or none.
  abbrev Agree :
      Credentials Token
      → ℕ
      → Store
      → Identity
      → Result AuthError (Option Identity)
      → Result AuthError (ℕ × User)
      → Type 0
  Agree c now s i r q =
      ((or_key lib config now c s r).1 ≡ ok (some i))
      ↔ ((e : ℕ × User) × (q ≡ ok e) × (identity_of e.0 e.1 ≡ i))

  checked-Agree :
      (c : Credentials Token) (now id : ℕ) (u : User) (s : Store) (i : Identity)
      (m : Result AuthError (Unit {0}))
      → Agree c now s i (m >> ok (some (identity_of id u))) (m >> ok (id, u))
  checked-Agree c now id u s i (err e) = (λ h. absurd cc, λ h. absurd cc)
  checked-Agree c now id u s i (ok x) = (
    λ h. ((id, u), refl, some-injective (ok-injective h)),
    λ (e, same, owner).
        ap (λ o. ok (some o)) (ap (λ x. identity_of x.0 x.1) (ok-injective same) ∙ owner),
  )

  row-Agree :
      (token : Token) (commits : Bool) (now id : ℕ) (s : Store) (i : Identity) (o : Option User)
      → Agree (bearing token none commits) now s i (by_row s id o) (checked_user lib s id o)
  row-Agree token commits now id s i none = (λ h. absurd (nobody i h), λ h. absurd cc)
  row-Agree token commits now id s i (some u) =
      checked-Agree (bearing token none commits) now id u s i (check_account s u)

  claims-Agree :
      (token : Token) (commits : Bool) (now : ℕ) (s : Store) (i : Identity) (o : Option ℕ)
      → Agree (bearing token none commits) now s i (by_claims s o) (claimed_user lib s o)
  claims-Agree token commits now s i none = (λ h. absurd (nobody i h), λ h. absurd cc)
  claims-Agree token commits now s i (some id) =
      row-Agree token commits now id s i (lookup id s.users)

  token-Agree :
      (token : Token) (commits : Bool) (now : ℕ) (s : Store) (i : Identity)
      (r : Result TokenError Payload)
      → Agree
          (bearing token none commits)
          now
          s
          i
          (decoded lib r >>= λ p. by_claims s p.user_id)
          (decoded lib r >>= λ p. claimed_user lib s p.user_id)
  token-Agree token commits now s i (err e) = (λ h. absurd cc, λ h. absurd cc)
  token-Agree token commits now s i (ok p) = claims-Agree token commits now s i p.user_id

  -- The identity of a request with a token only, is that of the user
  -- whom `get_current_user` finds, and there is one just where the other is.
  pub get_current_identity-get_current_user :
      (now : ℕ) (token : Token) (commits : Bool) (s : Store) (i : Identity)
      → ((get_current_identity lib config now (bearing token none commits) s).1 ≡ ok (some i)) ↔ (
          (e : ℕ × User) × (get_current_user lib now (some token) s ≡ ok e)
          × (identity_of e.0 e.1 ≡ i))
  unfolding get_current_identity get_current_user
  get_current_identity-get_current_user now token commits s i =
      token-Agree token commits now s i (lib.decode now token)
