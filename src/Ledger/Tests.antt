-- ===== src/Ledger/Tests.antt =====
-- A ledger of two events under a sum of code points in place of SHA-256, and the theorems at it.
use green_shift.Ledger.{
  Payload, AuditEvent, Draft, payload_of, in_order, latest, genesis_hash, build_record, append_one,
  append_all, append_event, violates_unique, verify_event, verify_from, verify_chain,
  resolve_actor_context, sequence_gap,
}
use green_shift.Ledger.Chain.{IsChain, verify_chain_iff}
use green_shift.Ledger.History.{append_event-committed, append_event-verify_chain}
use green_shift.Ledger.Binding.{canonical, Collision, verify_chain-binding}
use green_shift.Ledger.Anchor.{
  Anchor, compute_root_hash, event_at, verify_anchor_by_id, verified,
  verify_anchor_by_id-append_all,
}
use green_shift.Prelude.Dict.{lookup, nat_eq}
use green_shift.Prelude.Result.{ok, err}
use green_shift.Prelude.Sort.{sort_by}
use green_shift.Prelude.Texts.{Text}
use green_shift.Prelude.{
  ℕ, ◌+◌, ◌*◌, ◌≡◌, ◌↔◌, ◌⊎◌, refl, true, false, Option, none, some, List, [], ◌∷◌, map,
}

program : Unit {0}
unfolding build_record append_event violates_unique verify_event verify_from verify_chain sort_by
    resolve_actor_context compute_root_hash verify_anchor_by_id event_at lookup
program = tt

abbrev sum : Text → ℕ
sum [] = 7
sum (c ∷ s) = c + 3 * sum s

abbrev digest : Text → Text
digest s = sum s ∷ []

abbrev draft : ℕ → Draft
draft n = record {
  event_id = n ∷ [];
  now = n;
  now_text = n ∷ [];
  event_type = 1 ∷ [];
  job_id = some (9 ∷ []);
  business = n ∷ [];
  context = resolve_actor_context none (some (5 ∷ [])) none none none;
}

abbrev print : Payload → Text
print p = p.business

abbrev read : Text → Option Payload
read [] = none
read (n ∷ _) = some (payload_of (draft n))

abbrev ledger : List AuditEvent
ledger = append_one digest print read (append_one digest print read [] (draft 1)) (draft 2)

abbrev attempts : List (List Draft)
attempts = (draft 3 ∷ []) ∷ [] ∷ []

valid : verify_chain digest print read ledger ≡ ok tt
unfolding program
valid = refl

gap_found :
    verify_chain digest print read (build_record digest print read (draft 2) (latest ledger) ∷ [])
    ≡ err sequence_gap
unfolding program
gap_found = refl

gives_up : (append_event digest print read (draft 4) ((draft 3 ∷ []) ∷ []) ledger).1 ≡ false
unfolding program
gives_up = refl

verify_chain_iff_example :
    (verify_chain digest print read ledger ≡ ok tt)
    ↔ IsChain digest print read 1 genesis_hash (in_order ledger)
verify_chain_iff_example = verify_chain_iff digest print read ledger

append_event-committed_example : (append_event digest print read (draft 4) attempts ledger).1 ≡ true
append_event-committed_example =
    append_event-committed digest print read (draft 4) attempts ledger valid ((refl, tt), (tt, tt))

append_event-verify_chain_example :
    verify_chain digest print read (append_event digest print read (draft 4) attempts ledger).0
    ≡ ok tt
append_event-verify_chain_example =
    append_event-verify_chain digest print read (draft 4) attempts ledger refl
      ((refl, tt), (tt, tt)) valid

verify_chain-binding_example :
    (map (canonical digest print read) (in_order ledger)
      ≡ map (canonical digest print read) (in_order ledger))
    ⊎ Collision digest print read
verify_chain-binding_example =
    verify_chain-binding digest print read ledger ledger (λ s t. refl) valid valid refl refl

abbrev anchor : Anchor
anchor = record {
  sequence = 2;
  root_hash =
      (build_record digest print read (draft 2)
        (latest (append_one digest print read [] (draft 1)))).current_hash;
}

verify_anchor_by_id-append_all_example :
    verify_anchor_by_id
      ((1, anchor) ∷ [])
      (append_all digest print read ledger (draft 3 ∷ draft 4 ∷ []))
      1
    ≡ verified
unfolding program
verify_anchor_by_id-append_all_example =
    verify_anchor_by_id-append_all digest print read ledger (draft 3 ∷ draft 4 ∷ [])
      ((1, anchor) ∷ []) 1 anchor valid (refl, (refl, tt)) refl refl
