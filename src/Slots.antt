-- ===== src/Slots.antt =====
-- app/decide/slot_capacity.py: capacity of one-hour slots and the registry of slots.
-- CPU cores and MiB are numbers of nano units; a time is a number of microseconds in UTC, and the
-- normalized time of a slot is given by its hour number.
pub mod Span
pub mod Reserve
pub mod Capacity
mod Tests
use green_shift.Prelude.Dict.{Eq, lookup, insert, pair_eq}
use green_shift.Prelude.{
  ℕ, zero, suc, ◌+◌, ◌-◌, ◌*◌, ◌/◌, ◌%◌, String, Bool, true, false, ◌&&◌, Option, none, some, List,
  [], if◌then◌else◌, ltb, leb, ◌==◌,
}

-- 1e-6 in nano units.
abbrev pub eps : ℕ
eps = 1000

-- An hour and a minute in microseconds.
abbrev pub hour : ℕ
hour = 3_600_000_000

abbrev pub minute : ℕ
minute = 60_000_000

pub record SlotCapacity : Type 0 where
  pub slot_start : ℕ
  pub max_cpu : ℕ
  pub max_memory_mib : ℕ
  pub max_gpus : ℕ
  pub allocated_cpu : ℕ
  pub allocated_memory_mib : ℕ
  pub allocated_gpus : ℕ
  pub job_count : ℕ

-- What a job asks for: the arguments `cpu`, `mem_mib` and `gpus` of the methods.
pub record Demand : Type 0 where
  pub cpu : ℕ
  pub mem_mib : ℕ
  pub gpus : ℕ

unfoldable pub slot_can_fit : SlotCapacity → Demand → Bool
slot_can_fit s d =
    if ltb (s.max_cpu + eps) (s.allocated_cpu + d.cpu)
    then false
    else if ltb (s.max_memory_mib + eps) (s.allocated_memory_mib + d.mem_mib)
    then false
    else if ltb s.max_gpus (s.allocated_gpus + d.gpus)
    then false
    else true

unfoldable pub slot_allocate : SlotCapacity → Demand → SlotCapacity × Bool
slot_allocate s d =
    if slot_can_fit s d
    then (
      record s {
        allocated_cpu = s.allocated_cpu + d.cpu;
        allocated_memory_mib = s.allocated_memory_mib + d.mem_mib;
        allocated_gpus = s.allocated_gpus + d.gpus;
        job_count = s.job_count + 1;
      },
      true,
    )
    else (s, false)

-- Nano percent of the CPU in use, at most 100 %, rounded down.
unfoldable pub utilization_pct : SlotCapacity → ℕ
utilization_pct s =
    let ratio = s.allocated_cpu * 100_000_000_000 / s.max_cpu in
    if s.max_cpu == 0
    then 100_000_000_000
    else if ltb 100_000_000_000 ratio
    then 100_000_000_000
    else ratio

pub record SlotCapacityRegistry : Type 0 where
  pub default_max_cpu : ℕ
  pub default_max_mem_mib : ℕ
  pub default_max_gpus : ℕ
  pub slots : List ((String × ℕ) × SlotCapacity)

-- `__init__` with explicit defaults.
abbrev pub new_registry : ℕ → ℕ → ℕ → SlotCapacityRegistry
new_registry cpu mem gpus = record {
  default_max_cpu = cpu;
  default_max_mem_mib = mem;
  default_max_gpus = gpus;
  slots = [];
}

-- The hour that the normalized time begins.
abbrev pub normalize_time : ℕ → ℕ
normalize_time dt = dt / hour

abbrev pub empty_slot : SlotCapacityRegistry → ℕ → SlotCapacity
empty_slot r h = record {
  slot_start = h;
  max_cpu = r.default_max_cpu;
  max_memory_mib = r.default_max_mem_mib;
  max_gpus = r.default_max_gpus;
  allocated_cpu = 0;
  allocated_memory_mib = 0;
  allocated_gpus = 0;
  job_count = 0;
}

abbrev or_created :
    Option SlotCapacity → String → ℕ → SlotCapacityRegistry → SlotCapacityRegistry × SlotCapacity
or_created (some s) region h r = (r, s)
or_created none region h r =
    (record r { slots = insert (region, h) (empty_slot r h) r.slots }, empty_slot r h)

unfoldable pub get_or_create_slot :
    SlotCapacityRegistry → String → ℕ → SlotCapacityRegistry × SlotCapacity
get_or_create_slot r region dt =
    let h = normalize_time dt in or_created (lookup (region, h) r.slots) region h r

-- `max(1, ceil(minutes / 60))`: every caller passes `runtime_minutes / 60`.
unfoldable pub get_span_hours : ℕ → ℕ
get_span_hours minutes = let hours = (minutes + 59) / 60 in if ltb hours 1 then 1 else hours

-- One round of the loop of `can_fit`: the slot of hour `h`, or the defaults where there is none.
unfoldable pub fits_at : SlotCapacityRegistry → String → ℕ → Demand → Bool
fits_at r region h d = elim (lookup (region, h) r.slots) [
  | some s ↦ slot_can_fit s d
  | none ↦
      if ltb (r.default_max_cpu + eps) d.cpu
      then false
      else if ltb (r.default_max_mem_mib + eps) d.mem_mib
      then false
      else if ltb r.default_max_gpus d.gpus
      then false
      else true
]

-- The rounds from hour `h` on, with `n` of them left.
unfoldable pub can_fit_from : SlotCapacityRegistry → String → ℕ → ℕ → Demand → Bool
can_fit_from r region zero h d = true
can_fit_from r region (suc n) h d =
    let rest = can_fit_from r region n (h + 1) d in if fits_at r region h d then rest else false

unfoldable pub can_fit : SlotCapacityRegistry → String → ℕ → ℕ → Demand → Bool
can_fit r region start_time minutes d =
    can_fit_from r region (get_span_hours minutes) (normalize_time start_time) d

-- One round of the loop of `allocate`: the slot's own result is not looked at, and the slot that
-- was changed is the one in the registry.
unfoldable pub reserve : SlotCapacityRegistry → String → ℕ → Demand → SlotCapacityRegistry
unfolding get_or_create_slot
reserve r region h d =
    let (r', s) = get_or_create_slot r region (h * hour) in
    record r' { slots = insert (region, h) (slot_allocate s d).0 r'.slots }

unfoldable pub reserve_from : SlotCapacityRegistry → String → ℕ → ℕ → Demand → SlotCapacityRegistry
reserve_from r region zero h d = r
reserve_from r region (suc n) h d = reserve_from (reserve r region h d) region n (h + 1) d

unfoldable pub allocate :
    SlotCapacityRegistry → String → ℕ → ℕ → Demand → SlotCapacityRegistry × Bool
allocate r region start_time minutes d =
    if can_fit r region start_time minutes d
    then (reserve_from r region (get_span_hours minutes) (normalize_time start_time) d, true)
    else (r, false)

unfoldable pub utilization_at : SlotCapacityRegistry → String → ℕ → ℕ
utilization_at r region dt = elim (lookup (region, normalize_time dt) r.slots) [
  | some s ↦ utilization_pct s
  | none ↦ 0
]
