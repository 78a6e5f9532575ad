-- ===== src/Ledger/Binding.antt =====
-- What the last hash of the ledger of app/trust/ledger.py, and an anchor of app/trust/anchor.py,
-- commit to.
use green_shift.Ledger.{Payload, AuditEvent, in_order, genesis_hash, verify_chain}
use green_shift.Ledger.Chain.{IsLinked, IsChain, verify_chain_iff}
use green_shift.Prelude.Result.{ok}
use green_shift.Prelude.Texts.{Text, text_eq, text_eq_iff}
use green_shift.Prelude.{
  ℕ, ◌+◌, ◌≡◌, ◌≢◌, ◌⊎◌, refl, sym, ap, ◌∙◌, Option, none, some, List, [], ◌∷◌, ◌++◌, map, arith,
  length, Bool-cases, inl, inr,
}

module _ (sha256 : Text → Text) (dumps : Payload → Text) (loads : Text → Option Payload) where
  -- Two texts with one digest.
  abbrev pub Collision : Type 0
  Collision = (s : Text) × (t : Text) × (s ≢ t) × (sha256 s ≡ sha256 t)

  -- The payload of a row in its canonical print: what its payload hash is the digest of.
  abbrev print_of : Option Payload → Option Text
  print_of none = none
  print_of (some p) = some (dumps p)

  abbrev pub canonical : AuditEvent → Option Text
  canonical e = print_of (loads e.payload_json)

  same_or_Collision : (s t : Text) → sha256 s ≡ sha256 t → (s ≡ t) ⊎ Collision
  same_or_Collision s t h = elim (Bool-cases (text_eq s t)) [
    | inl e ↦ inl ((text_eq_iff s t).0 e)
    | inr e ↦ inr (s, t, λ same. cc (e, (text_eq_iff s t).1 same), h)
  ]

  -- Two concatenations whose first parts are equally long agree in both parts.
  append-injective : (s t u v : Text) → length s ≡ length t → s ++ u ≡ t ++ v → (s ≡ t) × (u ≡ v)
  append-injective [] [] u v l h = (refl, h)
  append-injective [] (b ∷ t) u v l h = absurd (omega (arith, l))
  append-injective (a ∷ s) [] u v l h = absurd (omega (arith, l))
  append-injective (a ∷ s) (b ∷ t) u v l h =
      let (front, back) = append-injective s t u v (omega (arith, l)) cc in (cc, back)

  abbrev pub last_current : Text → List AuditEvent → Text
  last_current h [] = h
  last_current h (e ∷ es) = last_current e.current_hash es

  canonical-IsLinked :
      (n : ℕ) (h : Text) (e : AuditEvent) (l : IsLinked sha256 dumps loads n h e)
      → canonical e ≡ some (dumps l.payload)
  canonical-IsLinked n h e l = rw l.readable refl

  -- The digests of SHA-256 are all as long.
  abbrev pub EqualLength : Type 0
  EqualLength = (s t : Text) → length (sha256 s) ≡ length (sha256 t)

  bound_row :
      (n : ℕ) (h k : Text) (e f : AuditEvent)
      → EqualLength
      → IsLinked sha256 dumps loads n h e
      → IsLinked sha256 dumps loads n k f
      → e.current_hash ≡ f.current_hash
      → ((h ≡ k) × (canonical e ≡ canonical f)) ⊎ Collision
  bound_row n h k e f len c d same =
      let digests : sha256 (e.payload_hash ++ h) ≡ sha256 (f.payload_hash ++ k) =
        ap (λ t. sha256 (e.payload_hash ++ t)) (sym c.linked)
        ∙ (sym c.hashed ∙ (same ∙ d.hashed))
        ∙ ap (λ t. sha256 (f.payload_hash ++ t)) d.linked in
      elim (same_or_Collision (e.payload_hash ++ h) (f.payload_hash ++ k) digests) [
        | inr found ↦ inr found
        | inl texts ↦
            let long : length e.payload_hash ≡ length f.payload_hash =
              ap length c.payload_hashed ∙ len _ _ ∙ sym (ap length d.payload_hashed) in
            let (payloads, links) = append-injective e.payload_hash f.payload_hash h k long texts in
            elim (same_or_Collision (dumps c.payload) (dumps d.payload)
              (sym c.payload_hashed ∙ payloads ∙ d.payload_hashed)) [
                | inr found ↦ inr found
                | inl prints ↦ inl (
                  links,
                  canonical-IsLinked n h e c ∙ ap some prints ∙ sym (canonical-IsLinked n k f d),
                )
              ]
      ]

  bound_rows :
      (n : ℕ) (h k : Text) (es fs : List AuditEvent)
      → EqualLength
      → IsChain sha256 dumps loads n h es
      → IsChain sha256 dumps loads n k fs
      → length es ≡ length fs
      → last_current h es ≡ last_current k fs
      → ((h ≡ k) × (map canonical es ≡ map canonical fs)) ⊎ Collision
  bound_rows n h k [] [] len c d l e = inl (e, refl)
  bound_rows n h k [] (f ∷ fs) len c d l e = absurd (omega (arith, l))
  bound_rows n h k (e ∷ es) [] len c d l eq = absurd (omega (arith, l))
  bound_rows n h k (e ∷ es) (f ∷ fs) len c d l eq =
      elim (bound_rows (n + 1) e.current_hash f.current_hash es fs len c.1 d.1 (omega (arith, l))
        eq) [
          | inr found ↦ inr found
          | inl (same, rest) ↦ elim (bound_row n h k e f len c.0 d.0 same) [
            | inr found ↦ inr found
            | inl (links, here) ↦ inl (links, cc)
          ]
        ]

  -- Two valid ledgers of one length whose last rows have the same hash hold the same payloads, row
  -- by row, or exhibit two texts with one digest. The digests are assumed to be equally long.
  pub verify_chain-binding :
      (table other : List AuditEvent)
      → EqualLength
      → verify_chain sha256 dumps loads table ≡ ok tt
      → verify_chain sha256 dumps loads other ≡ ok tt
      → length (in_order table) ≡ length (in_order other)
      → last_current genesis_hash (in_order table) ≡ last_current genesis_hash (in_order other)
      → (map canonical (in_order table) ≡ map canonical (in_order other)) ⊎ Collision
  verify_chain-binding table other len valid also long same =
      elim (bound_rows 1 genesis_hash genesis_hash (in_order table) (in_order other) len
        ((verify_chain_iff sha256 dumps loads table).0 valid)
        ((verify_chain_iff sha256 dumps loads other).0 also) long same) [
          | inl (_, rows) ↦ inl rows
          | inr found ↦ inr found
        ]
