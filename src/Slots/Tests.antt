-- ===== src/Slots/Tests.antt =====
-- A registry of 4 cores, 8 GiB and one GPU, and the theorems at it.
use green_shift.Slots.{
  Demand, SlotCapacityRegistry, new_registry, allocate, can_fit, can_fit_from, fits_at, reserve,
  reserve_from, get_or_create_slot, slot_allocate, slot_can_fit, get_span_hours, hour,
}
use green_shift.Slots.Reserve.{usage, add_job, IsReserved, usage-allocate}
use green_shift.Slots.Capacity.{IsValid, allocate-IsValid, new_registry-IsValid}
use green_shift.Prelude.Dict.{lookup, insert}
use green_shift.Prelude.{◌*◌, ◌≡◌, ◌⊎◌, refl, true, false}

abbrev small : SlotCapacityRegistry
small = new_registry 4_000_000_000 8_192_000_000_000 1

abbrev two_cores : Demand
two_cores = record { cpu = 2_000_000_000; mem_mib = 512_000_000_000; gpus = 0 }

program : Unit {0}
unfolding allocate can_fit can_fit_from fits_at reserve reserve_from get_or_create_slot
    slot_allocate slot_can_fit get_span_hours lookup insert
program = tt

abbrev once : SlotCapacityRegistry
once = (allocate small "IN-TG" (5 * hour) 90 two_cores).0

abbrev twice : SlotCapacityRegistry
twice = (allocate once "IN-TG" (6 * hour) 30 two_cores).0

granted : allocate small "IN-TG" (5 * hour) 90 two_cores ≡ (once, true)
unfolding program
granted = refl

third_job_refused :
    ((allocate once "IN-TG" (6 * hour) 30 two_cores).1 ≡ true)
    × ((allocate twice "IN-TG" (6 * hour) 30 two_cores).1 ≡ false)
    × ((allocate twice "IN-TG" (7 * hour) 30 two_cores).1 ≡ true)
unfolding program
third_job_refused = (refl, refl, refl)

usage-allocate_example :
    (IsReserved "IN-TG" (5 * hour) 90 "IN-TG" 6
      × (usage once "IN-TG" 6 ≡ add_job (usage small "IN-TG" 6) two_cores))
    ⊎ ((¬ IsReserved "IN-TG" (5 * hour) 90 "IN-TG" 6)
        × (usage once "IN-TG" 6 ≡ usage small "IN-TG" 6))
usage-allocate_example = usage-allocate "IN-TG" two_cores small once (5 * hour) 90 "IN-TG" 6 granted

allocate-IsValid_example : IsValid 4_000_000_000 8_192_000_000_000 1 once
allocate-IsValid_example =
    allocate-IsValid small "IN-TG" (5 * hour) 90 two_cores
      (new_registry-IsValid 4_000_000_000 8_192_000_000_000 1)
