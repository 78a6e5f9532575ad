-- ===== src/Ledger/Anchor.antt =====
-- app/trust/anchor.py: historical anchors of the ledger in the table audit_anchors. The anchor file
-- is not modelled.
use green_shift.Prelude.Dict.{lookup, nat_eq}
use green_shift.Ledger.{
  Payload, AuditEvent, Draft, in_order, latest, last_of, genesis_hash, append_all, verify_chain,
}
use green_shift.Ledger.Chain.{IsChain, verify_chain_iff}
use green_shift.Ledger.Append.{IsReadable}
use green_shift.Ledger.History.{append_all-Extends}
use green_shift.Prelude.Result.{ok}
use green_shift.Prelude.Texts.{Text, text_eq, text_eq_iff}
use green_shift.Prelude.{
  ℕ, ◌+◌, ◌≤◌, ◌≡◌, refl, ap, All, Option-cases, Bool-cases, inl, inr, true, Option, none, some,
  List, [], ◌∷◌, ◌++◌, arith, if◌then◌else◌, ◌==◌, ==_iff, some-injective,
}

-- The columns of AuditAnchorORM that are checked.
pub record Anchor : Type 0 where
  pub sequence : ℕ
  pub root_hash : Text

abbrev anchor_of : Option AuditEvent → Option Anchor
anchor_of none = none
anchor_of (some e) = some (record { sequence = e.sequence; root_hash = e.current_hash })

unfoldable pub compute_root_hash : List AuditEvent → Option Anchor
compute_root_hash table = anchor_of (latest table)

-- The row with this number: `sequence` is unique.
unfoldable pub event_at : ℕ → List AuditEvent → Option AuditEvent
event_at n [] = none
event_at n (e ∷ es) = let rest = event_at n es in if e.sequence == n then some e else rest

pub data AnchorStatus : Type 0 where
  anchor_not_found event_missing tampered verified : AnchorStatus

abbrev compared : Anchor → Option AuditEvent → AnchorStatus
compared a none = event_missing
compared a (some e) = if text_eq e.current_hash a.root_hash then verified else tampered

abbrev status_of : List AuditEvent → Option Anchor → AnchorStatus
status_of table none = anchor_not_found
status_of table (some a) = compared a (event_at a.sequence (in_order table))

unfoldable pub verify_anchor_by_id : List (ℕ × Anchor) → List AuditEvent → ℕ → AnchorStatus
verify_anchor_by_id anchors table anchor_id = status_of table (lookup anchor_id anchors)

module _ (sha256 : Text → Text) (dumps : Payload → Text) (loads : Text → Option Payload) where
  not_anchored : (a : Anchor) → ◌≡◌ {A = Option Anchor} none (some a) → ⊥
  not_anchored a h = cc

  last_number :
      (n : ℕ) (h : Text) (es : List AuditEvent) (l : AuditEvent)
      → IsChain sha256 dumps loads n h es
      → last_of es ≡ some l
      → n ≤ l.sequence
  last_number n h [] l c e = cc
  last_number n h (f ∷ []) l c e =
      let same : f ≡ l = some-injective e in
      omega (arith, c.0.in_place, ap (λ (x : AuditEvent). x.sequence) same)
  last_number n h (f ∷ g ∷ es) l c e =
      omega (arith, last_number (n + 1) f.current_hash (g ∷ es) l c.1 e)

  event_at-last :
      (n : ℕ) (h : Text) (es more : List AuditEvent) (l : AuditEvent)
      → IsChain sha256 dumps loads n h es
      → last_of es ≡ some l
      → event_at l.sequence (es ++ more) ≡ some l
  unfolding event_at
  event_at-last n h [] more l c e = cc
  event_at-last n h (f ∷ []) more l c e =
      let number : (f.sequence == l.sequence) ≡ true =
        (==_iff f.sequence l.sequence).1 (ap (λ (x : AuditEvent). x.sequence) (some-injective e)) in
      rw number e
  event_at-last n h (f ∷ g ∷ es) more l c e =
      let later = last_number (n + 1) f.current_hash (g ∷ es) l c.1 e in
      elim (Bool-cases (f.sequence == l.sequence)) [
        | inl equal ↦
            absurd (omega (arith, (==_iff f.sequence l.sequence).0 equal, c.0.in_place, later))
        | inr apart ↦ rw apart (event_at-last (n + 1) f.current_hash (g ∷ es) more l c.1 e)
      ]

  -- An anchor on the end of a valid ledger is verified however many events are appended after it,
  -- where their payloads are read back as printed.
  pub verify_anchor_by_id-append_all :
      (table : List AuditEvent) (ds : List Draft) (anchors : List (ℕ × Anchor)) (anchor_id : ℕ)
      (a : Anchor)
      → verify_chain sha256 dumps loads table ≡ ok tt
      → All (IsReadable sha256 dumps loads) ds
      → compute_root_hash table ≡ some a
      → lookup anchor_id anchors ≡ some a
      → verify_anchor_by_id anchors (append_all sha256 dumps loads table ds) anchor_id ≡ verified
  unfolding compute_root_hash verify_anchor_by_id
  verify_anchor_by_id-append_all table ds anchors anchor_id a valid readable root kept =
      let v = (verify_chain_iff sha256 dumps loads table).0 valid in
      let (more, split) = append_all-Extends sha256 dumps loads ds table readable v in
      elim (Option-cases (latest table)) [
        | inl empty ↦ absurd (not_anchored a (rw empty at root))
        | inr (l, last) ↦
            let here = event_at-last 1 genesis_hash (in_order table) more l v last in
            let same = some-injective (rw last at root) in
            rw (kept, split)
              (rw⁻¹ same (rw (here, (text_eq_iff l.current_hash l.current_hash).1 refl) refl))
      ]
