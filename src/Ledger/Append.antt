-- ===== src/Ledger/Append.antt =====
-- `append_event` of app/trust/ledger.py keeps a verified ledger verified, under concurrent writers.
use green_shift.Ledger.{
  Payload, AuditEvent, Draft, tenant_id, team_id, actor_user_id, actor_username, actor_role,
  actor_type, request_id, source_service, of_column, agrees, columns_match, payload_of, in_order,
  last_of, latest, next_sequence, last_hash, genesis_hash, build_record, append_one, append_all,
}
use green_shift.Ledger.Chain.{IsLinked, IsChain, columns_match_iff}
use green_shift.Prelude.Sort.{All-of-sort_by, lex_leb_greater, sort_by_last}
use green_shift.Prelude.Texts.{Text, text_eq_iff}
use green_shift.Prelude.{
  ℕ, ◌+◌, ◌<◌, ◌≡◌, refl, true, Option, none, some, List, [], ◌∷◌, ◌++◌, arith, All, All-map_of,
}

agrees-of_column : (c : Option Text) → agrees c (of_column c) ≡ true
agrees-of_column none = refl
agrees-of_column (some s) = (text_eq_iff s s).1 refl

-- What the ledger writes into the columns is what it writes into the payload.
module _ (sha256 : Text → Text) (dumps : Payload → Text) (loads : Text → Option Payload) where
  build_record-columns :
      (d : Draft) (before : Option AuditEvent)
      → columns_match (build_record sha256 dumps loads d before) (payload_of d) ≡ true
  unfolding build_record
  build_record-columns d before =
      rw
        (
          agrees-of_column d.job_id,
          agrees-of_column (d.context tenant_id),
          agrees-of_column (d.context team_id),
          agrees-of_column (d.context actor_user_id),
          agrees-of_column (d.context actor_username),
          agrees-of_column (d.context actor_role),
          agrees-of_column (d.context actor_type),
          agrees-of_column (d.context request_id),
          agrees-of_column (d.context source_service),
        )
        refl

  -- json.loads of what json.dumps printed of the payload is that payload again.
  abbrev pub IsReadable : Draft → Type 0
  IsReadable d = loads (dumps (payload_of d)) ≡ some (payload_of d)

  build_record-IsLinked :
      (d : Draft) (before : Option AuditEvent)
      → IsReadable d
      → IsLinked sha256 dumps loads
          (next_sequence before)
          (last_hash before)
          (build_record sha256 dumps loads d before)
  unfolding build_record
  build_record-IsLinked d before readable = record {
    payload = payload_of d;
    in_place = refl;
    readable = readable;
    payload_hashed = refl;
    linked = refl;
    hashed = refl;
    job =
        ((columns_match_iff (build_record sha256 dumps loads d before) (payload_of d)).0
          (build_record-columns d before)).0;
    in_context =
        ((columns_match_iff (build_record sha256 dumps loads d before) (payload_of d)).0
          (build_record-columns d before)).1;
  }

  -- The number and the hash that the row after a chain is built on.
  abbrev end_number : ℕ → List AuditEvent → ℕ
  end_number n [] = n
  end_number n (e ∷ es) = end_number (n + 1) es

  abbrev end_hash : Text → List AuditEvent → Text
  end_hash h [] = h
  end_hash h (e ∷ es) = end_hash e.current_hash es

  IsChain-append :
      (n : ℕ) (h : Text) (es : List AuditEvent) (r : AuditEvent)
      → IsChain sha256 dumps loads n h es
      → IsLinked sha256 dumps loads (end_number n es) (end_hash h es) r
      → IsChain sha256 dumps loads n h (es ++ r ∷ [])
  IsChain-append n h [] r c l = (l, tt)
  IsChain-append n h (e ∷ es) r c l = (c.0, IsChain-append (n + 1) e.current_hash es r c.1 l)

  -- The latest row tells where the chain ends.
  end_of_chain :
      (n : ℕ) (h : Text) (e : AuditEvent) (es : List AuditEvent)
      → IsChain sha256 dumps loads n h (e ∷ es)
      → (next_sequence (last_of (e ∷ es)) ≡ end_number n (e ∷ es))
        × (last_hash (last_of (e ∷ es)) ≡ end_hash h (e ∷ es))
  end_of_chain n h e [] c = (omega (arith, c.0.in_place), refl)
  end_of_chain n h e (f ∷ es) c = end_of_chain (n + 1) e.current_hash f es c.1

  below_end :
      (n : ℕ) (h : Text) (es : List AuditEvent)
      → IsChain sha256 dumps loads n h es
      → All (λ e. e.sequence < end_number n es) es × (n < end_number n es + 1)
  below_end n h [] c = (tt, omega arith)
  below_end n h (e ∷ es) c =
      let (rest, up) = below_end (n + 1) e.current_hash es c.1 in
      ((omega (arith, c.0.in_place), rest), omega arith)

  abbrev pub IsVerified : List AuditEvent → Type 0
  IsVerified table = IsChain sha256 dumps loads 1 genesis_hash (in_order table)

  latest_end :
      (es : List AuditEvent)
      → IsChain sha256 dumps loads 1 genesis_hash es
      → (next_sequence (last_of es) ≡ end_number 1 es)
        × (last_hash (last_of es) ≡ end_hash genesis_hash es)
  latest_end [] c = (refl, refl)
  latest_end (e ∷ es) c = end_of_chain 1 genesis_hash e es c

  -- Every number is below the next one.
  pub IsVerified-below :
      (table : List AuditEvent)
      → IsVerified table
      → All (λ e. e.sequence < next_sequence (latest table)) table
  IsVerified-below table v =
      let below = (below_end 1 genesis_hash (in_order table) v).0 in
      let number = (latest_end (in_order table) v).0 in
      All-of-sort_by (λ (e : AuditEvent). e.sequence ∷ e.timestamp ∷ e.event_id)
        (λ e. e.sequence < next_sequence (latest table)) table
        (All-map_of (λ e less. rw number less) (in_order table) below)

  -- A new record comes last.
  pub in_order-append_one :
      (d : Draft) (table : List AuditEvent)
      → IsVerified table
      → in_order (append_one sha256 dumps loads table d)
        ≡ in_order table ++ build_record sha256 dumps loads d (latest table) ∷ []
  unfolding build_record
  in_order-append_one d table v =
      let below = (below_end 1 genesis_hash (in_order table) v).0 in
      let number = (latest_end (in_order table) v).0 in
      sort_by_last (λ (e : AuditEvent). e.sequence ∷ e.timestamp ∷ e.event_id)
        (build_record sha256 dumps loads d (latest table)) table
        (All-map_of
          (λ e less. lex_leb_greater (next_sequence (latest table)) e.sequence _ _ (rw number less))
          (in_order table) below)

  pub append_one-IsVerified :
      (d : Draft) (table : List AuditEvent)
      → IsReadable d
      → IsVerified table
      → IsVerified (append_one sha256 dumps loads table d)
  append_one-IsVerified d table readable v =
      let (number, hash) = latest_end (in_order table) v in
      let linked = build_record-IsLinked d (latest table) readable in
      rw (in_order-append_one d table v)
        (IsChain-append 1 genesis_hash (in_order table) _ v (rw (number, hash) at linked))

  pub append_all-IsVerified :
      (ds : List Draft) (table : List AuditEvent)
      → All IsReadable ds
      → IsVerified table
      → IsVerified (append_all sha256 dumps loads table ds)
  append_all-IsVerified [] table readable v = v
  append_all-IsVerified (d ∷ ds) table readable v =
      append_all-IsVerified ds (append_one sha256 dumps loads table d) readable.1
        (append_one-IsVerified d table readable.0 v)
