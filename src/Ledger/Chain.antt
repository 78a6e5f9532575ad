-- ===== src/Ledger/Chain.antt =====
-- What `verify_chain` of app/trust/ledger.py accepts.
use green_shift.Ledger.{
  Payload, AuditEvent, FailedCheck, duplicate_sequence, sequence_gap, payload_hash_mismatch,
  previous_hash_mismatch, current_hash_mismatch, column_tampered, checked, ContextField, tenant_id,
  team_id, actor_user_id, actor_username, actor_role, actor_type, request_id, source_service, Value,
  null, text, other, context_crosscheck_fields, matches, context_matches, columns_match, in_order,
  genesis_hash, compute_payload_hash, compute_current_hash, verify_payload, verify_event,
  verify_from, verify_chain,
}
use green_shift.Prelude.Result.{ok, ◌>>◌, >>-ok_iff}
use green_shift.Prelude.Texts.{Text, text_eq_iff}
use green_shift.Prelude.{
  ℕ, ◌+◌, ◌<◌, ◌≡◌, ◌↔◌, refl, ap, sym, Bool, true, false, not, Option, none, some, List, [], ◌∷◌,
  arith, any, all, All, All-map_of, ◌==◌, ==_iff, Option-cases, inl, inr,
}

checked-ok_iff : (b : Bool) (f : FailedCheck) → (checked b f ≡ ok tt) ↔ (b ≡ true)
checked-ok_iff true f = ground arith
checked-ok_iff false f = ground arith

All-of-all {ℓ} :
    {A : Type ℓ} (p : A → Bool) (xs : List A) → all p xs ≡ true → All (λ x. p x ≡ true) xs
All-of-all p [] h = tt
All-of-all p (x ∷ xs) h = (ground (arith, h), All-of-all p xs (ground (arith, h)))

-- A column holds what the payload declares under its key, if the payload has the key.
abbrev pub IsDeclared : Option Text → Option Value → Type 0
IsDeclared column none = Unit
IsDeclared none (some v) = v ≡ null
IsDeclared (some s) (some v) = v ≡ text s

abbrev pub HasContext : AuditEvent → Option (ContextField → Option Value) → Type 0
HasContext e none = Unit
HasContext e (some declared) = (f : ContextField) → IsDeclared (e.context f) (declared f)

matches_iff :
    (column : Option Text) (o : Option Value) → (matches column o ≡ true) ↔ IsDeclared column o
matches_iff column none = (λ h. tt, λ h. refl)
matches_iff none (some null) = (λ h. refl, λ h. refl)
matches_iff none (some (text t)) = (λ h. absurd cc, λ h. absurd cc)
matches_iff none (some (other t)) = (λ h. absurd cc, λ h. absurd cc)
matches_iff (some s) (some null) = (λ h. absurd cc, λ h. absurd cc)
matches_iff (some s) (some (text t)) =
    (λ h. ap text (sym ((text_eq_iff s t).0 h)), λ h. (text_eq_iff s t).1 (sym (text_injective h)))
  where
    content : Value → Text
    content null = []
    content (text u) = u
    content (other u) = []

    text_injective : text t ≡ text s → t ≡ s
    text_injective e = ap content e
matches_iff (some s) (some (other t)) = (λ h. absurd cc, λ h. absurd cc)

-- Each of the fields is among those that are checked.
context_matches_iff :
    (e : AuditEvent) (o : Option (ContextField → Option Value))
    → (context_matches e o ≡ true) ↔ HasContext e o
context_matches_iff e none = (λ h. tt, λ h. refl)
context_matches_iff e (some declared) = (
  λ h f.
      (matches_iff (e.context f) (declared f)).0
        (each (All-of-all (λ g. matches (e.context g) (declared g)) context_crosscheck_fields h) f),
  λ has.
      rw
        (
          (matches_iff (e.context tenant_id) (declared tenant_id)).1 (has tenant_id),
          (matches_iff (e.context team_id) (declared team_id)).1 (has team_id),
          (matches_iff (e.context actor_user_id) (declared actor_user_id)).1 (has actor_user_id),
          (matches_iff (e.context actor_username) (declared actor_username)).1 (has actor_username),
          (matches_iff (e.context actor_role) (declared actor_role)).1 (has actor_role),
          (matches_iff (e.context actor_type) (declared actor_type)).1 (has actor_type),
          (matches_iff (e.context request_id) (declared request_id)).1 (has request_id),
          (matches_iff (e.context source_service) (declared source_service)).1 (has source_service),
        )
        refl,
)
  where
    each :
        All (λ f. matches (e.context f) (declared f) ≡ true) context_crosscheck_fields
        → (f : ContextField) → matches (e.context f) (declared f) ≡ true
    each h tenant_id = h.0
    each h team_id = h.1.0
    each h actor_user_id = h.1.1.0
    each h actor_username = h.1.1.1.0
    each h actor_role = h.1.1.1.1.0
    each h actor_type = h.1.1.1.1.1.0
    each h request_id = h.1.1.1.1.1.1.0
    each h source_service = h.1.1.1.1.1.1.1.0

pub columns_match_iff :
    (e : AuditEvent) (p : Payload)
    → (columns_match e p ≡ true) ↔ (IsDeclared e.job_id p.job_id × HasContext e p.audit_ctx)
columns_match_iff e p = (
  λ h. (
    (matches_iff e.job_id p.job_id).0 (ground (arith, h)),
    (context_matches_iff e p.audit_ctx).0 (ground (arith, h)),
  ),
  λ h. rw ((matches_iff e.job_id p.job_id).1 h.0, (context_matches_iff e p.audit_ctx).1 h.1) refl,
)

module _ (sha256 : Text → Text) (dumps : Payload → Text) (loads : Text → Option Payload) where
  -- A row in its place: the next number, a readable payload with its hash, the link to the row
  -- before, its own hash, and columns for the job and the context that hold what the payload declares.
  pub record IsLinked (expected : ℕ) (previous : Text) (e : AuditEvent) : Type 0 where
    pub payload : Payload
    pub in_place : e.sequence ≡ expected
    pub readable : loads e.payload_json ≡ some payload
    pub payload_hashed : e.payload_hash ≡ compute_payload_hash sha256 dumps loads payload
    pub linked : e.previous_hash ≡ previous
    pub hashed :
        e.current_hash ≡ compute_current_hash sha256 dumps loads e.payload_hash e.previous_hash
    pub job : IsDeclared e.job_id payload.job_id
    pub in_context : HasContext e payload.audit_ctx

  abbrev pub IsChain : ℕ → Text → List AuditEvent → Type 0
  IsChain expected previous [] = Unit
  IsChain expected previous (e ∷ es) =
      IsLinked expected previous e × IsChain (expected + 1) e.current_hash es

  verify_payload→IsLinked :
      (expected : ℕ) (previous : Text) (e : AuditEvent) (p : Payload)
      → e.sequence ≡ expected
      → loads e.payload_json ≡ some p
      → verify_payload sha256 dumps loads (some p) previous e ≡ ok tt
      → IsLinked expected previous e
  verify_payload→IsLinked expected previous e p place read h =
      let (first_three, columns) = (>>-ok_iff _ _).0 h in
      let (first_two, own) = (>>-ok_iff _ _).0 first_three in
      let (hash, link) = (>>-ok_iff _ _).0 first_two in
      let (job, in_context) =
        (columns_match_iff e p).0 ((checked-ok_iff _ column_tampered).0 columns) in
      record {
        payload = p;
        in_place = place;
        readable = read;
        payload_hashed = (text_eq_iff _ _).0 ((checked-ok_iff _ payload_hash_mismatch).0 hash);
        linked = (text_eq_iff _ _).0 ((checked-ok_iff _ previous_hash_mismatch).0 link);
        hashed = (text_eq_iff _ _).0 ((checked-ok_iff _ current_hash_mismatch).0 own);
        job = job;
        in_context = in_context;
      }

  verify_event→IsLinked :
      (seen : List ℕ) (expected : ℕ) (previous : Text) (e : AuditEvent)
      → verify_event sha256 dumps loads seen expected previous e ≡ ok tt
      → IsLinked expected previous e
  unfolding verify_event
  verify_event→IsLinked seen expected previous e h =
      let new = checked (not (any (λ s. s == e.sequence) seen)) duplicate_sequence in
      let next = checked (e.sequence == expected) sequence_gap in
      let (numbers, rest) =
        (>>-ok_iff (new >> next)
            (verify_payload sha256 dumps loads (loads e.payload_json) previous e)).0
          h in
      let (_, place) = (>>-ok_iff new next).0 numbers in
      elim (Option-cases (loads e.payload_json)) [
        | inl unreadable ↦
            let refused : verify_payload sha256 dumps loads none previous e ≡ ok tt =
              rw unreadable at rest in
            absurd cc
        | inr (p, read) ↦
            verify_payload→IsLinked expected previous e p
              ((==_iff _ _).0 ((checked-ok_iff _ sequence_gap).0 place)) read (rw read at rest)
      ]

  none_seen : (s : ℕ) (seen : List ℕ) → All (λ t. t < s) seen → not (any (λ t. t == s) seen) ≡ true
  none_seen s [] h = refl
  none_seen s (t ∷ seen) h = ground (arith, none_seen s seen h.1, h.0)

  IsLinked→verify_event :
      (seen : List ℕ) (expected : ℕ) (previous : Text) (e : AuditEvent)
      → All (λ s. s < expected) seen
      → IsLinked expected previous e
      → verify_event sha256 dumps loads seen expected previous e ≡ ok tt
  unfolding verify_event
  IsLinked→verify_event seen expected previous e new l =
      let new_number = none_seen e.sequence seen (rw l.in_place new) in
      let place = (==_iff e.sequence expected).1 l.in_place in
      let hash = (text_eq_iff e.payload_hash _).1 l.payload_hashed in
      let link = (text_eq_iff e.previous_hash previous).1 l.linked in
      let own = (text_eq_iff e.current_hash _).1 l.hashed in
      let columns = (columns_match_iff e l.payload).1 (l.job, l.in_context) in
      rw (new_number, place, l.readable, hash, link, own, columns) refl

  -- The loop accepts exactly the chains.
  verify_from-IsChain :
      (seen : List ℕ) (expected : ℕ) (previous : Text) (es : List AuditEvent)
      → verify_from sha256 dumps loads seen expected previous es ≡ ok tt
      → IsChain expected previous es
  unfolding verify_from
  verify_from-IsChain seen expected previous [] h = tt
  verify_from-IsChain seen expected previous (e ∷ es) h =
      let (here, rest) = (>>-ok_iff _ _).0 h in
      (
        verify_event→IsLinked seen expected previous e here,
        verify_from-IsChain (e.sequence ∷ seen) (expected + 1) e.current_hash es rest,
      )

  IsChain-verify_from :
      (seen : List ℕ) (expected : ℕ) (previous : Text) (es : List AuditEvent)
      → All (λ s. s < expected) seen
      → IsChain expected previous es
      → verify_from sha256 dumps loads seen expected previous es ≡ ok tt
  unfolding verify_from
  IsChain-verify_from seen expected previous [] new h = refl
  IsChain-verify_from seen expected previous (e ∷ es) new h =
      let here = IsLinked→verify_event seen expected previous e new h.0 in
      let later : All (λ s. s < expected + 1) (e.sequence ∷ seen) =
        (omega (arith, h.0.in_place), All-map_of (λ s less. omega arith) seen new) in
      rw here (IsChain-verify_from (e.sequence ∷ seen) (expected + 1) e.current_hash es later h.1)

  -- The ledger is reported valid exactly when its rows, in order of their numbers, form a chain
  -- from the genesis hash: numbered from 1 without a gap, each row's payload readable, its payload
  -- hash that of its payload, its previous hash the hash of the row before, its own hash that of
  -- both, and its columns for the job and for the eight fields of the context equal to what the
  -- payload declares under their keys, where it has the key. The columns for the event type and the
  -- time are not compared with the payload, although the payload has them.
  pub verify_chain_iff :
      (table : List AuditEvent)
      → (verify_chain sha256 dumps loads table ≡ ok tt) ↔ IsChain 1 genesis_hash (in_order table)
  unfolding verify_chain
  verify_chain_iff table = (
    verify_from-IsChain [] 1 genesis_hash (in_order table),
    IsChain-verify_from [] 1 genesis_hash (in_order table) tt,
  )
