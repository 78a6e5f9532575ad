-- ===== src/Dispatch/Claims.antt =====
-- What a claim of app/dispatch/job_claimer.py takes, and what it leaves.
use text.Mathlib.TextEquality.{eq_iff}
use green_shift.Dispatch.{
  Job, Jobs, claim_key, holds, is_claimable, select_ready, ids_of, claimed, claim_ready_jobs,
}
use green_shift.Prelude.Dict.{lookup, lookup-adjust, applied_same, string_eq}
use green_shift.Prelude.Sort.{sort_by, All-sort_by, All-of-sort_by, length-sort_by, tally-sort_by}
use green_shift.Prelude.{
  ℕ, ◌≤◌, ◌≡◌, refl, ◌∙◌, Bool, true, false, String, some, List, [], ◌∷◌, arith, All, All-map_of,
  All-of-keep_if, All-take, take_all, tally, tally-take, tally-keep_if, take, keep_if, length,
  if◌then◌else◌,
}

holds_head : (id : String) (ids : List String) → holds (id ∷ ids) id ≡ true
holds_head id ids = rw ((eq_iff id id).1 refl) refl

All-held : (es : Jobs) → All (λ e. holds (ids_of es) e.0 ≡ true) es
All-held [] = tt
All-held (e ∷ es) =
    (holds_head e.0 (ids_of es), All-map_of (λ f held. ground (arith, held)) es (All-held es))

module _ (worker : String) (locked : List String) (batch_size now : ℕ) (jobs : Jobs) where
  abbrev pub batch : Jobs
  batch = select_ready locked batch_size jobs

  abbrev pub after : Jobs
  after = (claim_ready_jobs worker locked batch_size now jobs).0

  abbrev queue : Jobs
  queue = sort_by claim_key (keep_if (is_claimable locked) jobs)

  -- A fact about the queue is a fact about the jobs that can be claimed.
  of_queue :
      (P : String × Job → Type 0) → All P queue → All (λ e. is_claimable locked e ≡ true → P e) jobs
  of_queue P h = All-of-keep_if (is_claimable locked) P jobs (All-of-sort_by claim_key P _ h)

  pub to_batch :
      (P : String × Job → Type 0) → All P (keep_if (is_claimable locked) jobs) → All P batch
  unfolding select_ready
  to_batch P h = All-take P batch_size queue (All-sort_by claim_key P _ h)

  pub lookup-taken :
      (e : String × Job)
      → lookup e.0 jobs ≡ some e.1
      → holds (ids_of batch) e.0 ≡ true
      → lookup e.0 after ≡ some (claimed worker now e.1)
  unfolding claim_ready_jobs
  lookup-taken e found held =
      lookup-adjust (λ id j. if holds (ids_of batch) id then claimed worker now j else j) e.0 jobs
      ∙ rw (found, held) refl

  pub lookup-left :
      (id : String) → holds (ids_of batch) id ≡ false → lookup id after ≡ lookup id jobs
  unfolding claim_ready_jobs
  lookup-left id held =
      lookup-adjust (λ i j. if holds (ids_of batch) i then claimed worker now j else j) id jobs
      ∙ rw held (applied_same (lookup id jobs))

  -- Where there is room, all that can be claimed is taken.
  pub held_of_room :
      length (keep_if (is_claimable locked) jobs) ≤ batch_size
      → All (λ e. is_claimable locked e ≡ true → holds (ids_of batch) e.0 ≡ true) jobs
  unfolding select_ready
  held_of_room room =
      let all : take batch_size queue ≡ queue =
        take_all batch_size queue
          (omega (arith, length-sort_by claim_key (keep_if (is_claimable locked) jobs), room)) in
      of_queue _ (rw all (All-held queue))

  -- A job is taken once.
  pub tally-batch : (p : String × Job → Bool) → tally p batch ≤ tally p jobs
  unfolding select_ready
  tally-batch p = omega (
    arith,
    tally-take p batch_size queue,
    tally-sort_by claim_key p (keep_if (is_claimable locked) jobs),
    tally-keep_if (is_claimable locked) p jobs,
  )
