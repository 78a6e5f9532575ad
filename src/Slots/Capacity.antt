-- ===== src/Slots/Capacity.antt =====
-- No slot of the registry of app/decide/slot_capacity.py is ever filled past its capacity.
use green_shift.Slots.{
  SlotCapacity, Demand, SlotCapacityRegistry, slot_allocate, slot_can_fit, can_fit, reserve,
  reserve_from, allocate, get_span_hours, normalize_time, eps, new_registry,
}
use green_shift.Slots.Reserve.{slot_or_empty, lookup-reserve, defaults-reserve}
use green_shift.Prelude.Dict.{lookup, pair_eq, pair_same}
use green_shift.Prelude.{
  ℕ, zero, suc, ◌+◌, ◌≤◌, ◌≡◌, refl, sym, ◌∙◌, subst, String, Option, none, some, arith, Bool-cases,
  some-injective, inl, inr,
}

-- A slot with the capacity of the registry, filled at most to it, up to the tolerance of 1e-6 that
-- `can_fit` allows.
pub record IsWithin (cpu mem gpus : ℕ) (s : SlotCapacity) : Type 0 where
  pub max_cpu : s.max_cpu ≡ cpu
  pub max_mem : s.max_memory_mib ≡ mem
  pub max_gpus : s.max_gpus ≡ gpus
  pub used_cpu : s.allocated_cpu ≤ cpu + eps
  pub used_mem : s.allocated_memory_mib ≤ mem + eps
  pub used_gpus : s.allocated_gpus ≤ gpus

pub record IsValid (cpu mem gpus : ℕ) (r : SlotCapacityRegistry) : Type 0 where
  pub default_cpu : r.default_max_cpu ≡ cpu
  pub default_mem : r.default_max_mem_mib ≡ mem
  pub default_gpus : r.default_max_gpus ≡ gpus
  pub each :
      (region : String) (h : ℕ) (s : SlotCapacity)
      → lookup (region, h) r.slots ≡ some s
      → IsWithin cpu mem gpus s

module _ {cpu mem gpus : ℕ} where
  slot_allocate-IsWithin :
      (s : SlotCapacity) (d : Demand)
      → IsWithin cpu mem gpus s
      → IsWithin cpu mem gpus (slot_allocate s d).0
  unfolding slot_allocate slot_can_fit
  slot_allocate-IsWithin s d v = ground arith

  slot_or_empty-IsWithin :
      (r : SlotCapacityRegistry) (h : ℕ) (o : Option SlotCapacity)
      → IsValid cpu mem gpus r
      → ((s : SlotCapacity) → o ≡ some s → IsWithin cpu mem gpus s)
      → IsWithin cpu mem gpus (slot_or_empty r h o)
  slot_or_empty-IsWithin r h none v each = record {
    max_cpu = v.default_cpu;
    max_mem = v.default_mem;
    max_gpus = v.default_gpus;
    used_cpu = omega arith;
    used_mem = omega arith;
    used_gpus = omega arith;
  }
  slot_or_empty-IsWithin r h (some s) v each = each s refl

  reserve-IsValid :
      (r : SlotCapacityRegistry) (region : String) (h : ℕ) (d : Demand)
      → IsValid cpu mem gpus r
      → IsValid cpu mem gpus (reserve r region h d)
  reserve-IsValid r region h d v =
      let defaults = defaults-reserve region d r h in
      let at_region = slot_or_empty-IsWithin r h (lookup (region, h) r.slots) v (v.each region h) in
      record {
        default_cpu = defaults.0 ∙ v.default_cpu;
        default_mem = defaults.1 ∙ v.default_mem;
        default_gpus = defaults.2 ∙ v.default_gpus;
        each = λ g t s here. elim (Bool-cases (pair_same (g, t) (region, h))) [
          | inl e ↦
              subst (IsWithin cpu mem gpus)
                (some-injective (rw e at (sym (lookup-reserve region d r h g t) ∙ here)))
                (slot_allocate-IsWithin _ d at_region)
          | inr e ↦ v.each g t s (rw e at (sym (lookup-reserve region d r h g t) ∙ here))
        ];
      }

  reserve_from-IsValid :
      (n : ℕ) (r : SlotCapacityRegistry) (region : String) (h : ℕ) (d : Demand)
      → IsValid cpu mem gpus r
      → IsValid cpu mem gpus (reserve_from r region n h d)
  unfolding reserve_from
  reserve_from-IsValid zero r region h d v = v
  reserve_from-IsValid (suc n) r region h d v =
      reserve_from-IsValid n (reserve r region h d) region (h + 1) d
        (reserve-IsValid r region h d v)

  -- Granted or refused, an allocation keeps every slot of the registry within its capacity, up to the
  -- tolerance of 1e-6 that its tests leave.
  pub allocate-IsValid :
      (r : SlotCapacityRegistry) (region : String) (start_time minutes : ℕ) (d : Demand)
      → IsValid cpu mem gpus r
      → IsValid cpu mem gpus (allocate r region start_time minutes d).0
  unfolding allocate
  allocate-IsValid r region start_time minutes d v =
      elim (Bool-cases (can_fit r region start_time minutes d)) [
        | inl fits ↦
            rw fits (
              reserve_from-IsValid (get_span_hours minutes) r region (normalize_time start_time) d
                v)
        | inr full ↦ rw full v
      ]

-- A new registry has no slot, so it is valid.
pub new_registry-IsValid : (cpu mem gpus : ℕ) → IsValid cpu mem gpus (new_registry cpu mem gpus)
unfolding lookup
new_registry-IsValid cpu mem gpus = record {
  default_cpu = refl;
  default_mem = refl;
  default_gpus = refl;
  each = λ region h s e. cc;
}
