-- ===== src/Ledger.antt =====
-- app/trust/ledger.py: the hash-chained audit ledger. A text is the list of its code points, and
-- time is a number. SHA-256 and the JSON printer and parser are parameters: `sha256` gives the hex
-- digest, `dumps` is `json.dumps(..., sort_keys=True, default=str)`, and `loads` is `json.loads`,
-- with `none` for the errors it raises. Retries wait and log; neither is modelled.
pub mod Chain
pub mod Append
pub mod History
pub mod Binding
pub mod Anchor
mod Tests
use green_shift.Prelude.Result.{Result, ok, err, ◌>>=◌, ◌>>◌}
use green_shift.Prelude.Sort.{sort_by}
use green_shift.Prelude.Texts.{Text, text_eq}
use green_shift.Prelude.{
  ℕ, zero, suc, ◌+◌, Bool, true, false, not, ◌&&◌, ◌||◌, Option, none, some, List, [], ◌∷◌, ◌++◌,
  if◌then◌else◌, ◌==◌, all, any,
}

abbrev zeros : ℕ → Text
zeros zero = []
zeros (suc n) = 48 ∷ zeros n

-- "0" * 64
abbrev pub genesis_hash : Text
genesis_hash = zeros 64

-- _CONTEXT_CROSSCHECK_FIELDS
pub data ContextField : Type 0 where
  tenant_id team_id actor_user_id actor_username : ContextField
  actor_role actor_type request_id source_service : ContextField

abbrev pub context_crosscheck_fields : List ContextField
context_crosscheck_fields =
    tenant_id ∷ team_id ∷ actor_user_id ∷ actor_username ∷ actor_role ∷ actor_type ∷ request_id
    ∷ source_service ∷ []

-- A JSON value under one of the checked keys; `other` is neither null nor a text.
pub data Value : Type 0 where
  null : Value
  text other : Text → Value

-- The decoded payload: the keys that the ledger writes, each of which may be absent, and what
-- else the caller put there. `audit_ctx` is `none` where the key is absent or not an object.
pub record Payload : Type 0 where
  pub event_type : Option Value
  pub job_id : Option Value
  pub timestamp : Option Value
  pub audit_ctx : Option (ContextField → Option Value)
  pub business : Text

-- A row of audit_events; `context` holds the columns of the context fields.
pub record AuditEvent : Type 0 where
  pub event_id : Text
  pub timestamp : ℕ
  pub event_type : Text
  pub job_id : Option Text
  pub payload_hash : Text
  pub previous_hash : Text
  pub current_hash : Text
  pub payload_json : Text
  pub sequence : ℕ
  pub context : ContextField → Option Text

-- What a caller passes to `append_event`, with the clock, the new id and the resolved context.
pub record Draft : Type 0 where
  pub event_id : Text
  pub now : ℕ
  pub now_text : Text
  pub event_type : Text
  pub job_id : Option Text
  pub business : Text
  pub context : ContextField → Option Text

-- The user or identity that acts, with the attributes that are read of it.
pub record Actor : Type 0 where
  pub id : Option Text
  pub user_id : Option Text
  pub username : Option Text
  pub role : Option Text
  pub tenant : Option Text
  pub team : Option Text

abbrev or_else : Option Text → Option Text → Option Text
or_else none b = b
or_else (some a) b = some a

-- Python's `or`: an empty text is false.
abbrev truthy_or : Option Text → Option Text → Option Text
truthy_or none b = b
truthy_or (some []) b = b
truthy_or (some (c ∷ a)) b = some (c ∷ a)

-- "SYSTEM" and "USER"
abbrev pub system_type : Text
system_type = 83 ∷ 89 ∷ 83 ∷ 84 ∷ 69 ∷ 77 ∷ []

abbrev pub user_type : Text
user_type = 85 ∷ 83 ∷ 69 ∷ 82 ∷ []

-- `_resolve_actor_context`, with the two fields that `append_event` adds.
unfoldable pub resolve_actor_context :
    Option Actor → (tenant team request service : Option Text) → ContextField → Option Text
resolve_actor_context actor tenant team request service request_id = request
resolve_actor_context actor tenant team request service source_service = service
resolve_actor_context none tenant team request service tenant_id = tenant
resolve_actor_context none tenant team request service team_id = team
resolve_actor_context none tenant team request service actor_type = some system_type
resolve_actor_context none tenant team request service _ = none
resolve_actor_context (some a) tenant team request service tenant_id = or_else tenant a.tenant
resolve_actor_context (some a) tenant team request service team_id = or_else team a.team
resolve_actor_context (some a) tenant team request service actor_user_id = truthy_or a.id a.user_id
resolve_actor_context (some a) tenant team request service actor_username = a.username
resolve_actor_context (some a) tenant team request service actor_role = a.role
resolve_actor_context (some a) tenant team request service actor_type = some user_type

abbrev pub of_column : Option Text → Value
of_column none = null
of_column (some s) = text s

-- `column_value != payload_value` fails on what this accepts.
abbrev pub agrees : Option Text → Value → Bool
agrees none null = true
agrees (some s) (text t) = text_eq s t
agrees _ _ = false

abbrev pub payload_of : Draft → Payload
payload_of d = record {
  event_type = some (text d.event_type);
  job_id = some (of_column d.job_id);
  timestamp = some (text d.now_text);
  audit_ctx = some (λ f. some (of_column (d.context f)));
  business = d.business;
}

-- The rows, in the order of the query of `verify_chain`.
abbrev pub in_order : List AuditEvent → List AuditEvent
in_order = sort_by (λ (e : AuditEvent). e.sequence ∷ e.timestamp ∷ e.event_id)

abbrev pub last_of : List AuditEvent → Option AuditEvent
last_of [] = none
last_of (e ∷ []) = some e
last_of (e ∷ f ∷ es) = last_of (f ∷ es)

-- `_get_latest_record`
abbrev pub latest : List AuditEvent → Option AuditEvent
latest table = last_of (in_order table)

abbrev pub next_sequence : Option AuditEvent → ℕ
next_sequence none = 1
next_sequence (some e) = e.sequence + 1

abbrev pub last_hash : Option AuditEvent → Text
last_hash none = genesis_hash
last_hash (some e) = e.current_hash

pub data FailedCheck : Type 0 where
  duplicate_sequence sequence_gap invalid_payload_json payload_hash_mismatch : FailedCheck
  previous_hash_mismatch current_hash_mismatch column_tampered : FailedCheck

abbrev pub checked : Bool → FailedCheck → Result FailedCheck (Unit {0})
checked true failed = ok tt
checked false failed = err failed

-- A field is checked where the payload declares it.
abbrev pub matches : Option Text → Option Value → Bool
matches column none = true
matches column (some v) = agrees column v

abbrev pub context_matches : AuditEvent → Option (ContextField → Option Value) → Bool
context_matches e none = true
context_matches e (some ctx) = all (λ f. matches (e.context f) (ctx f)) context_crosscheck_fields

abbrev pub columns_match : AuditEvent → Payload → Bool
columns_match e p = matches e.job_id p.job_id && context_matches e p.audit_ctx

module _ (sha256 : Text → Text) (dumps : Payload → Text) (loads : Text → Option Payload) where
  abbrev pub compute_payload_hash : Payload → Text
  compute_payload_hash p = sha256 (dumps p)

  abbrev pub compute_current_hash : Text → Text → Text
  compute_current_hash payload previous = sha256 (payload ++ previous)

  -- The record that one attempt of `append_event` builds on the latest row it reads.
  unfoldable pub build_record : Draft → Option AuditEvent → AuditEvent
  build_record d before =
      let payload = compute_payload_hash (payload_of d) in
      record {
        event_id = d.event_id;
        timestamp = d.now;
        event_type = d.event_type;
        job_id = d.job_id;
        payload_hash = payload;
        previous_hash = last_hash before;
        current_hash = compute_current_hash payload (last_hash before);
        payload_json = dumps (payload_of d);
        sequence = next_sequence before;
        context = d.context;
      }

  -- Reading, building and committing with nobody in between.
  abbrev pub append_one : List AuditEvent → Draft → List AuditEvent
  append_one table d = build_record d (latest table) ∷ table

  -- What other writers commit, each with nobody in between.
  abbrev pub append_all : List AuditEvent → List Draft → List AuditEvent
  append_all table [] = table
  append_all table (d ∷ ds) = append_all (append_one table d) ds

  -- The unique constraint on `sequence`.
  unfoldable pub violates_unique : AuditEvent → List AuditEvent → Bool
  violates_unique r table = any (λ e. e.sequence == r.sequence) table

  -- The loop of `append_event`, on the writes of others that come between the read and the commit
  -- of each attempt left: the table at the end, and whether the record was committed.
  unfoldable pub append_event : Draft → List (List Draft) → List AuditEvent → List AuditEvent × Bool
  append_event d [] table = (table, false)
  append_event d (others ∷ attempts) table =
      let r = build_record d (latest table) in
      let now_there = append_all table others in
      let retried = append_event d attempts now_there in
      if violates_unique r now_there then retried else (r ∷ now_there, true)

  abbrev verify_payload : Option Payload → Text → AuditEvent → Result FailedCheck (Unit {0})
  verify_payload none previous e = err invalid_payload_json
  verify_payload (some p) previous e =
      checked (text_eq e.payload_hash (compute_payload_hash p)) payload_hash_mismatch
      >> checked (text_eq e.previous_hash previous) previous_hash_mismatch
      >> checked (text_eq e.current_hash (compute_current_hash e.payload_hash e.previous_hash))
          current_hash_mismatch
      >> checked (columns_match e p) column_tampered

  -- The checks on one row of `verify_chain`, in their order.
  unfoldable pub verify_event : List ℕ → ℕ → Text → AuditEvent → Result FailedCheck (Unit {0})
  verify_event seen expected previous e =
      checked (not (any (λ s. s == e.sequence) seen)) duplicate_sequence
      >> checked (e.sequence == expected) sequence_gap
      >> verify_payload (loads e.payload_json) previous e

  unfoldable pub verify_from : List ℕ → ℕ → Text → List AuditEvent → Result FailedCheck (Unit {0})
  verify_from seen expected previous [] = ok tt
  verify_from seen expected previous (e ∷ es) =
      verify_event seen expected previous e
      >> verify_from (e.sequence ∷ seen) (expected + 1) e.current_hash es

  -- What is modelled of the response: valid, or the check that failed first.
  unfoldable pub verify_chain : List AuditEvent → Result FailedCheck (Unit {0})
  verify_chain table = verify_from [] 1 genesis_hash (in_order table)
