-- ===== src/Slots/Reserve.antt =====
-- What `allocate` of app/decide/slot_capacity.py does to the usage of every slot.
use mathlib.Core.Bool.{false≢true}
use text.Mathlib.TextEquality.{eq_iff}
use green_shift.Slots.{
  SlotCapacity, Demand, SlotCapacityRegistry, slot_allocate, slot_can_fit, fits_at, can_fit_from,
  can_fit, get_or_create_slot, or_created, reserve, reserve_from, allocate, get_span_hours,
  normalize_time, empty_slot, hour,
}
use green_shift.Prelude.Dict.{lookup, lookup-insert, pair_eq, pair_same, pair_same_iff}
use green_shift.Prelude.{
  ℕ, zero, suc, ◌+◌, ◌*◌, ◌/◌, ◌≤◌, ◌<◌, ◌≡◌, ◌⊎◌, refl, sym, ap, ◌∙◌, subst, String, Bool, true,
  false, ◌&&◌, Option, none, some, arith, if◌then◌else◌, ltb, leb, ◌==◌, str_eq, Bool-cases, inl,
  inr, Option-cases,
}

-- What the jobs of a slot use together, and how many they are; an absent slot is unused.
pub record Usage : Type 0 where
  pub cpu : ℕ
  pub mem_mib : ℕ
  pub gpus : ℕ
  pub jobs : ℕ

abbrev pub slot_usage : Option SlotCapacity → Usage
slot_usage none = record { cpu = 0; mem_mib = 0; gpus = 0; jobs = 0 }
slot_usage (some s) = record {
  cpu = s.allocated_cpu;
  mem_mib = s.allocated_memory_mib;
  gpus = s.allocated_gpus;
  jobs = s.job_count;
}

abbrev pub usage : SlotCapacityRegistry → String → ℕ → Usage
usage r region h = slot_usage (lookup (region, h) r.slots)

-- A slot that a granted job reserves: of its region, not before the hour in which it starts, and
-- either that hour or one that begins less than the runtime after that hour's beginning.
abbrev pub IsReserved : String → ℕ → ℕ → String → ℕ → Type 0
IsReserved region start_time minutes g t =
    (g ≡ region)
    × (start_time / hour ≤ t)
    × ((t ≡ start_time / hour) ⊎ (t * 60 < start_time / hour * 60 + minutes))

abbrev pub add_job : Usage → Demand → Usage
add_job u d = record {
  cpu = u.cpu + d.cpu;
  mem_mib = u.mem_mib + d.mem_mib;
  gpus = u.gpus + d.gpus;
  jobs = u.jobs + 1;
}

abbrev pub slot_or_empty : SlotCapacityRegistry → ℕ → Option SlotCapacity → SlotCapacity
slot_or_empty r h none = empty_slot r h
slot_or_empty r h (some s) = s

-- The hour of a slot's start is the slot's hour.
normalize_time-hour : (h : ℕ) → normalize_time (h * hour) ≡ h
normalize_time-hour h = omega arith

slot_usage-slot_allocate :
    (s : SlotCapacity) (d : Demand)
    → slot_can_fit s d ≡ true
    → slot_usage (some (slot_allocate s d).0) ≡ add_job (slot_usage (some s)) d
unfolding slot_allocate
slot_usage-slot_allocate s d fits = rw fits

slot_usage-or_empty :
    (r : SlotCapacityRegistry) (h : ℕ) (o : Option SlotCapacity)
    → slot_usage (some (slot_or_empty r h o)) ≡ slot_usage o
slot_usage-or_empty r h none = refl
slot_usage-or_empty r h (some s) = refl

-- A change at hour `h` and one in the `n` hours after it are a change in `n + 1` hours.
one_more_hour {ℓ} :
    {A : Type ℓ} (f : A → A) (b : Bool) (t h n : ℕ) (x z : A)
    → z ≡ (if b && t == h then f x else x)
    → (if b && (leb (h + 1) t && ltb t (h + 1 + n)) then f z else z)
      ≡ (if b && (leb h t && ltb t (h + suc n)) then f x else x)
one_more_hour f b t h n x z e = ground arith

module _ (region : String) (d : Demand) where
  pub lookup-reserve :
      (r : SlotCapacityRegistry) (h : ℕ) (g : String) (t : ℕ)
      → lookup (g, t) (reserve r region h d).slots ≡ (
          if pair_same (g, t) (region, h)
          then some (slot_allocate (slot_or_empty r h (lookup (region, h) r.slots)) d).0
          else lookup (g, t) r.slots)
  unfolding reserve
  lookup-reserve r h g t =
      rw (normalize_time-hour h) (elim (Option-cases (lookup (region, h) r.slots)) [
        | inl absent ↦ simp (absent, lookup-insert) (ground arith)
        | inr (s, here) ↦ simp (here, lookup-insert)
      ])

  -- The test with the defaults is the test of an empty slot.
  pub fits_at_lem :
      (r : SlotCapacityRegistry) (h : ℕ)
      → fits_at r region h d ≡ slot_can_fit (slot_or_empty r h (lookup (region, h) r.slots)) d
  unfolding fits_at slot_can_fit
  fits_at_lem r h = ground arith

  usage-reserve :
      (r : SlotCapacityRegistry) (h : ℕ) (g : String) (t : ℕ)
      → fits_at r region h d ≡ true
      → usage (reserve r region h d) g t
        ≡ (if str_eq g region && t == h then add_job (usage r g t) d else usage r g t)
  usage-reserve r h g t fits =
      let s = slot_or_empty r h (lookup (region, h) r.slots) in
      let grown =
        slot_usage-slot_allocate s d (sym (fits_at_lem r h) ∙ fits)
        ∙ ap (λ u. add_job u d) (slot_usage-or_empty r h (lookup (region, h) r.slots)) in
      rw (lookup-reserve r h g t) (elim (Bool-cases (pair_same (g, t) (region, h))) [
        | inl e ↦ rw e (
            grown
            ∙ ap (λ (k : String × ℕ). add_job (slot_usage (lookup k r.slots)) d)
                (sym ((pair_same_iff (g, t) (region, h)).0 e)))
        | inr e ↦ rw e
      ])

  or_created_defaults :
      (r : SlotCapacityRegistry) (h : ℕ) (o : Option SlotCapacity)
      → ((or_created o region h r).0.default_max_cpu ≡ r.default_max_cpu)
        × ((or_created o region h r).0.default_max_mem_mib ≡ r.default_max_mem_mib)
        × ((or_created o region h r).0.default_max_gpus ≡ r.default_max_gpus)
  or_created_defaults r h none = (refl, refl, refl)
  or_created_defaults r h (some s) = (refl, refl, refl)

  pub defaults-reserve :
      (r : SlotCapacityRegistry) (h : ℕ)
      → ((reserve r region h d).default_max_cpu ≡ r.default_max_cpu)
        × ((reserve r region h d).default_max_mem_mib ≡ r.default_max_mem_mib)
        × ((reserve r region h d).default_max_gpus ≡ r.default_max_gpus)
  unfolding reserve get_or_create_slot
  defaults-reserve r h =
      rw (normalize_time-hour h, reserve) (or_created_defaults r h (lookup (region, h) r.slots))

  -- A reservation changes no other hour's test.
  fits_at-reserve_ne :
      (r : SlotCapacityRegistry) (h t : ℕ)
      → (t == h) ≡ false
      → fits_at (reserve r region h d) region t d ≡ fits_at r region t d
  unfolding fits_at
  fits_at-reserve_ne r h t ne =
      let defaults = defaults-reserve r h in
      ground (arith, lookup-reserve r h region t, defaults.0, defaults.1, defaults.2, ne)

  can_fit_from-reserve :
      (r : SlotCapacityRegistry) (h n t : ℕ)
      → h < t
      → can_fit_from (reserve r region h d) region n t d ≡ can_fit_from r region n t d
  unfolding can_fit_from
  can_fit_from-reserve r h zero t before = refl
  can_fit_from-reserve r h (suc n) t before =
      rw (fits_at-reserve_ne r h t (ground arith), can_fit_from-reserve r h n (t + 1) (omega arith))

  abbrev pub in_span : String → ℕ → ℕ → ℕ → Bool
  in_span g t h n = str_eq g region && (leb h t && ltb t (h + n))

  usage-reserve_from :
      (n : ℕ) (r : SlotCapacityRegistry) (h : ℕ) (g : String) (t : ℕ)
      → can_fit_from r region n h d ≡ true
      → usage (reserve_from r region n h d) g t
        ≡ (if in_span g t h n then add_job (usage r g t) d else usage r g t)
  unfolding reserve_from can_fit_from
  usage-reserve_from zero r h g t fits = ground arith
  usage-reserve_from (suc n) r h g t fits = elim (Bool-cases (fits_at r region h d)) [
    | inl here ↦
        let later : can_fit_from r region n (h + 1) d ≡ true = rw here at fits in
        rw
          (usage-reserve_from n (reserve r region h d) (h + 1) g t
            (can_fit_from-reserve r h n (h + 1) (omega arith) ∙ later))
          (one_more_hour (λ u. add_job u d) (str_eq g region) t h n (usage r g t)
            (usage (reserve r region h d) g t) (usage-reserve r h g t here))
    | inr full ↦ cc (full, fits)
  ]

  in_span→IsReserved :
      (start_time minutes : ℕ) (g : String) (t : ℕ)
      → in_span g t (normalize_time start_time) (get_span_hours minutes) ≡ true
      → IsReserved region start_time minutes g t
  unfolding get_span_hours
  in_span→IsReserved start_time minutes g t h =
      ((eq_iff g region).0 (ground (arith, h)), ground (arith, h), ground (arith, h))

  IsReserved→in_span :
      (start_time minutes : ℕ) (g : String) (t : ℕ)
      → IsReserved region start_time minutes g t
      → in_span g t (normalize_time start_time) (get_span_hours minutes) ≡ true
  unfolding get_span_hours
  IsReserved→in_span start_time minutes g t (here, from, until) =
      rw ((eq_iff g region).1 here) (ground (arith, from, until))

  usage-span :
      (r r' : SlotCapacityRegistry) (start_time minutes : ℕ) (g : String) (t : ℕ)
      → allocate r region start_time minutes d ≡ (r', true)
      → usage r' g t ≡ (
          if in_span g t (normalize_time start_time) (get_span_hours minutes)
          then add_job (usage r g t) d
          else usage r g t)
  unfolding allocate can_fit
  usage-span r r' start_time minutes g t e =
      elim (Bool-cases (can_fit r region start_time minutes d)) [
        | inl fits ↦
            subst
              (λ (q : SlotCapacityRegistry). usage q g t ≡ (
                if in_span g t (normalize_time start_time) (get_span_hours minutes)
                then add_job (usage r g t) d
                else usage r g t))
              (ap (λ p. p.0) (rw fits at e))
              (usage-reserve_from (get_span_hours minutes) r (normalize_time start_time) g t fits)
        | inr full ↦ absurd (false≢true (ap (λ p. p.1) (rw full at e)))
      ]

  -- A job that is granted raises the usage of the slots that it reserves by exactly its demand, and
  -- leaves every other hour and region as it was: each slot's own allocation has succeeded. The
  -- slots are counted from the hour in which the job starts, as if it started with that hour, so
  -- where it starts within an hour the last hour that it runs in may be missing.
  pub usage-allocate :
      (r r' : SlotCapacityRegistry) (start_time minutes : ℕ) (g : String) (t : ℕ)
      → allocate r region start_time minutes d ≡ (r', true)
      → (IsReserved region start_time minutes g t × (usage r' g t ≡ add_job (usage r g t) d))
        ⊎ ((¬ IsReserved region start_time minutes g t) × (usage r' g t ≡ usage r g t))
  usage-allocate r r' start_time minutes g t e =
      let change = usage-span r r' start_time minutes g t e in
      elim (Bool-cases (in_span g t (normalize_time start_time) (get_span_hours minutes))) [
        | inl inside ↦ inl (in_span→IsReserved start_time minutes g t inside, rw inside at change)
        | inr outside ↦ inr (
          λ reserved. false≢true (sym outside ∙ IsReserved→in_span start_time minutes g t reserved),
          rw outside at change,
        )
      ]
