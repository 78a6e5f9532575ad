-- ===== src/Ledger/History.antt =====
-- The retry loop of `append_event` of app/trust/ledger.py: when it commits, and what the table
-- holds afterwards.
use mathlib.Core.List.{append_assoc, append-nil}
use green_shift.Ledger.{
  Payload, AuditEvent, Draft, in_order, latest, next_sequence, build_record, append_one, payload_of,
  append_all, append_event, violates_unique, verify_chain,
}
use green_shift.Ledger.Chain.{verify_chain_iff}
use green_shift.Ledger.Append.{
  IsReadable, IsVerified, IsVerified-below, in_order-append_one, append_one-IsVerified,
  append_all-IsVerified,
}
use green_shift.Prelude.Result.{ok}
use green_shift.Prelude.Texts.{Text}
use green_shift.Prelude.{
  ℕ, ◌<◌, ◌≡◌, refl, sym, ap, ◌∙◌, Bool, true, false, Option, List, [], ◌∷◌, ◌++◌, arith, any, All,
  ◌==◌, ==_iff,
}

abbrev pub undisturbed : List Draft → Bool
undisturbed [] = true
undisturbed (d ∷ ds) = false

module _ (sha256 : Text → Text) (dumps : Payload → Text) (loads : Text → Option Payload) where
  any-append_all :
      (p : AuditEvent → Bool) (ds : List Draft) (table : List AuditEvent)
      → any p table ≡ true
      → any p (append_all sha256 dumps loads table ds) ≡ true
  any-append_all p [] table h = h
  any-append_all p (d ∷ ds) table h =
      any-append_all p ds (append_one sha256 dumps loads table d) (ground (arith, h))

  -- Another writer took the number.
  collision :
      (d o : Draft) (os : List Draft) (table : List AuditEvent)
      → violates_unique sha256 dumps loads
          (build_record sha256 dumps loads d (latest table))
          (append_all sha256 dumps loads table (o ∷ os))
        ≡ true
  unfolding violates_unique build_record
  collision d o os table =
      any-append_all (λ e. e.sequence == next_sequence (latest table)) os _
        (rw ((==_iff (next_sequence (latest table)) _).1 refl) refl)

  none_equal :
      (n : ℕ) (table : List AuditEvent)
      → All (λ e. e.sequence < n) table
      → any (λ e. e.sequence == n) table ≡ false
  none_equal n [] h = refl
  none_equal n (e ∷ es) h = ground (arith, none_equal n es h.1, h.0)

  no_collision :
      (d : Draft) (table : List AuditEvent)
      → IsVerified sha256 dumps loads table
      → violates_unique sha256 dumps loads (build_record sha256 dumps loads d (latest table)) table
        ≡ false
  unfolding violates_unique build_record
  no_collision d table v =
      none_equal (next_sequence (latest table)) table (IsVerified-below sha256 dumps loads table v)

  committed :
      (d : Draft) (attempts : List (List Draft)) (table : List AuditEvent)
      → IsVerified sha256 dumps loads table
      → All (All (IsReadable sha256 dumps loads)) attempts
      → (append_event sha256 dumps loads d attempts table).1 ≡ any undisturbed attempts
  unfolding append_event
  committed d [] table v readable = refl
  committed d ([] ∷ attempts) table v readable = rw (no_collision d table v) refl
  committed d ((o ∷ os) ∷ attempts) table v readable = rw (collision d o os table) (
      committed d attempts (append_all sha256 dumps loads table (o ∷ os))
        (append_all-IsVerified sha256 dumps loads (o ∷ os) table readable.0 v) readable.1)

  -- On a valid ledger, where the payloads of other writers are read back as printed, the record is
  -- committed exactly when in some attempt nobody commits between its read and its write.
  pub append_event-committed :
      (d : Draft) (attempts : List (List Draft)) (table : List AuditEvent)
      → verify_chain sha256 dumps loads table ≡ ok tt
      → All (All (IsReadable sha256 dumps loads)) attempts
      → (append_event sha256 dumps loads d attempts table).1 ≡ any undisturbed attempts
  append_event-committed d attempts table valid readable =
      committed d attempts table ((verify_chain_iff sha256 dumps loads table).0 valid) readable

  kept :
      (d : Draft) (attempts : List (List Draft)) (table : List AuditEvent)
      → IsReadable sha256 dumps loads d
      → IsVerified sha256 dumps loads table
      → All (All (IsReadable sha256 dumps loads)) attempts
      → IsVerified sha256 dumps loads (append_event sha256 dumps loads d attempts table).0
  unfolding append_event
  kept d [] table own v readable = v
  kept d ([] ∷ attempts) table own v readable =
      rw (no_collision d table v) (append_one-IsVerified sha256 dumps loads d table own v)
  kept d ((o ∷ os) ∷ attempts) table own v readable = rw (collision d o os table) (
      kept d attempts (append_all sha256 dumps loads table (o ∷ os)) own
        (append_all-IsVerified sha256 dumps loads (o ∷ os) table readable.0 v) readable.1)

  -- Where the payloads that are appended are read back as printed, a valid ledger is valid after an
  -- append, whatever the writers that come between, and whether or not the record is committed.
  pub append_event-verify_chain :
      (d : Draft) (attempts : List (List Draft)) (table : List AuditEvent)
      → IsReadable sha256 dumps loads d
      → All (All (IsReadable sha256 dumps loads)) attempts
      → verify_chain sha256 dumps loads table ≡ ok tt
      → verify_chain sha256 dumps loads (append_event sha256 dumps loads d attempts table).0 ≡ ok tt
  append_event-verify_chain d attempts table own readable valid =
      (verify_chain_iff sha256 dumps loads _).1
        (kept d attempts table own ((verify_chain_iff sha256 dumps loads table).0 valid) readable)

  -- `later` is `earlier` with rows after it.
  abbrev pub Extends : List AuditEvent → List AuditEvent → Type 0
  Extends earlier later = (more : List AuditEvent) × (in_order later ≡ in_order earlier ++ more)

  pub append_all-Extends :
      (ds : List Draft) (table : List AuditEvent)
      → All (IsReadable sha256 dumps loads) ds
      → IsVerified sha256 dumps loads table
      → Extends table (append_all sha256 dumps loads table ds)
  append_all-Extends [] table readable v = ([], sym (append-nil (in_order table)))
  append_all-Extends (d ∷ ds) table readable v =
      let next = append_one sha256 dumps loads table d in
      let (more, rest) =
        append_all-Extends ds next readable.1
          (append_one-IsVerified sha256 dumps loads d table readable.0 v) in
      let here = in_order-append_one sha256 dumps loads d table v in
      (
        build_record sha256 dumps loads d (latest table) ∷ more,
        rest ∙ (rw here (append_assoc (in_order table) _ more)),
      )

  extended :
      (d : Draft) (attempts : List (List Draft)) (table : List AuditEvent)
      → IsReadable sha256 dumps loads d
      → IsVerified sha256 dumps loads table
      → All (All (IsReadable sha256 dumps loads)) attempts
      → (append_event sha256 dumps loads d attempts table).1 ≡ true
      → (others : List AuditEvent) × (r : AuditEvent) × (in_order
            (append_event sha256 dumps loads d attempts table).0
          ≡ in_order table ++ others ++ r ∷ [])
        × (r.payload_json ≡ dumps (payload_of d))
  unfolding append_event build_record
  extended d [] table own v readable done = absurd cc
  extended d ([] ∷ attempts) table own v readable done = rw (no_collision d table v) (
    [],
    build_record sha256 dumps loads d (latest table),
    in_order-append_one sha256 dumps loads d table v
        ∙ ap (λ l. l ++ build_record sha256 dumps loads d (latest table) ∷ [])
            (sym (append-nil (in_order table))),
    refl,
  )
  extended d ((o ∷ os) ∷ attempts) table own v readable done =
      let next = append_all sha256 dumps loads table (o ∷ os) in
      let taken = collision d o os table in
      let (more, step) = append_all-Extends (o ∷ os) table readable.0 v in
      let (others, r, rest, same) =
        extended d attempts next own
          (append_all-IsVerified sha256 dumps loads (o ∷ os) table readable.0 v) readable.1
          (rw taken at done) in
      (
        more ++ others,
        r,
        rw taken (
            rest
            ∙ ap (λ l. l ++ others ++ r ∷ []) step
            ∙ ap (λ l. l ++ r ∷ []) (append_assoc (in_order table) more others)),
        same,
      )

  -- Where the payloads are read back as printed, a record that is committed to a valid ledger becomes
  -- its last row with the payload it was given; the rows that were there stay as they were, before
  -- it.
  append_event-extends :
      (d : Draft) (attempts : List (List Draft)) (table : List AuditEvent)
      → IsReadable sha256 dumps loads d
      → All (All (IsReadable sha256 dumps loads)) attempts
      → verify_chain sha256 dumps loads table ≡ ok tt
      → (append_event sha256 dumps loads d attempts table).1 ≡ true
      → (others : List AuditEvent) × (r : AuditEvent) × (in_order
            (append_event sha256 dumps loads d attempts table).0
          ≡ in_order table ++ others ++ r ∷ [])
        × (r.payload_json ≡ dumps (payload_of d))
  append_event-extends d attempts table own readable valid =
      extended d attempts table own ((verify_chain_iff sha256 dumps loads table).0 valid) readable
