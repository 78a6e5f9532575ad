-- ===== src/Decide/Pending.antt =====
-- The pass of app/decide/service.py over the jobs that await a schedule.
use mathlib.Core.Bool.{true≢false}
use text.Mathlib.TextEquality.{eq_iff}
use green_shift.Approval.{JobStatus, failed}
use green_shift.Decide.{
  Job, StoredDecision, Store, DecideError, passed_on, with_status, plan, schedule_and_store,
  store_decision, is_new, is_awaiting, get_jobs_awaiting_schedule, after_round, process_each,
  process_pending_jobs,
}
use green_shift.Decide.Storing.{
  plan-IsAllowed, status_of_plan, status_after, decision_after, IsRound, after_round-IsRound,
}
use green_shift.Prelude.Dict.{lookup, applied, IsKeyed, string_eq}
use green_shift.Prelude.Result.{Result, ok, err, ◌>>=◌}
use green_shift.Prelude.{
  ℕ, ◌≡◌, ◌⊎◌, refl, sym, ap, subst, ◌∙◌, Bool, true, false, ◌||◌, String, Option, none, some, List,
  [], ◌∷◌, if◌then◌else◌, str_eq, any, All, All-map_of, All-keep_if, All-keep_if_of, All-both,
  Bool-cases, some-injective, inl, inr, arith, keep_if,
}
use green_shift.Schedule.Choice.{ScheduleDecision}
use green_shift.Schedule.Evaluation.{Environment}
use green_shift.Schedule.Sound.{IsAllowed}

abbrev names : String → List (String × Job) → Bool
names k es = any (λ e. str_eq k e.0) es

-- The rows of `k` after a pass over entries, one of which names it where `named` is true.
abbrev row_if : Bool → Job → Result DecideError ScheduleDecision → Option Job → Option Job
row_if named j r o = if named then applied (with_status (status_after j r)) o else o

abbrev decision_if :
    Bool → ℕ → Result DecideError ScheduleDecision → Option StoredDecision → Option StoredDecision
decision_if named now r o = if named then decision_after now r o else o

applied_twice :
    (status : JobStatus) (o : Option Job)
    → applied (with_status status) (applied (with_status status) o) ≡ applied (with_status status) o
applied_twice status none = refl
applied_twice status (some j) = refl

decision_after_twice :
    (now : ℕ) (r : Result DecideError ScheduleDecision) (o : Option StoredDecision)
    → decision_after now r (decision_after now r o) ≡ decision_after now r o
decision_after_twice now (ok d) o = refl
decision_after_twice now (err e) o = refl

-- Entries of one id are the same row.
abbrev AreOf : String → Job → List (String × Job) → Type 0
AreOf k j es = All (λ e. (str_eq k e.0 ≡ true → e.1 ≡ j) × (is_new e.1.status ≡ true)) es

policies_of :
    (now : ℕ) (job_id : String) (seen : Job) (r : Result DecideError ScheduleDecision) (s : Store)
    → (after_round job_id seen s (r >>= λ d. ok (store_decision now job_id seen d s, d))).0.policies
      ≡ s.policies
policies_of now job_id seen (ok d) s = refl
policies_of now job_id seen (err e) s = refl

row_twice :
    (rest : Bool) (j : Job) (r : Result DecideError ScheduleDecision) (o : Option Job)
    → row_if rest j r (applied (with_status (status_after j r)) o)
      ≡ applied (with_status (status_after j r)) o
row_twice true j r o = applied_twice (status_after j r) o
row_twice false j r o = refl

decision_twice :
    (rest : Bool) (now : ℕ) (r : Result DecideError ScheduleDecision) (o : Option StoredDecision)
    → decision_if rest now r (decision_after now r o) ≡ decision_after now r o
decision_twice true now r o = decision_after_twice now r o
decision_twice false now r o = refl

abbrev IsPassed : (Job → Option Environment) → ℕ → String → Job → Bool → Store → Store → Type 0
IsPassed fetch now k j named s t =
    (lookup k t.jobs ≡ row_if named j (plan fetch s.policies j) (lookup k s.jobs))
    × (lookup k t.decisions
        ≡ decision_if named now (plan fetch s.policies j) (lookup k s.decisions))

-- A round, and a pass over the rest.
IsRound-IsPassed :
    (fetch : Job → Option Environment) (now : ℕ) (job_id k : String) (seen j : Job) (rest : Bool)
    (s t u : Store)
    → (str_eq k job_id ≡ true → seen ≡ j)
    → t.policies ≡ s.policies
    → IsRound now job_id seen (plan fetch s.policies seen) s t k
    → IsPassed fetch now k j rest t u
    → IsPassed fetch now k j (str_eq k job_id || rest) s u
IsRound-IsPassed fetch now job_id k seen j rest s t u own kept first later =
    let r = plan fetch s.policies j in
    let of_rest : (lookup k u.jobs ≡ row_if rest j r (lookup k t.jobs))
        × (lookup k u.decisions ≡ decision_if rest now r (lookup k t.decisions)) =
      subst
        (λ p.
          (lookup k u.jobs ≡ row_if rest j (plan fetch p j) (lookup k t.jobs))
          × (lookup k u.decisions ≡ decision_if rest now (plan fetch p j) (lookup k t.decisions)))
        kept later in
    elim (Bool-cases (str_eq k job_id)) [
      | inl same ↦
          let now_own =
            subst (λ x. IsRound now job_id x (plan fetch s.policies x) s t k) (own same) first in
          rw same (
            of_rest.0
                ∙ ap (row_if rest j r) (rw same at now_own.0)
                ∙ row_twice rest j r (lookup k s.jobs),
            of_rest.1
                ∙ ap (decision_if rest now r) (rw same at now_own.1)
                ∙ decision_twice rest now r (lookup k s.decisions),
          )
      | inr apart ↦ rw apart (
        of_rest.0 ∙ ap (row_if rest j r) (rw apart at first.0),
        of_rest.1 ∙ ap (decision_if rest now r) (rw apart at first.1),
      )
    ]

process_each-IsPassed :
    (fetch : Job → Option Environment) (now : ℕ) (k : String) (j : Job) (es : List (String × Job))
    (s : Store)
    → AreOf k j es
    → IsPassed fetch now k j (names k es) s (process_each fetch now es s).0
unfolding process_each
process_each-IsPassed fetch now k j [] s h = (refl, refl)
process_each-IsPassed fetch now k j ((job_id, seen) ∷ es) s h =
    let t = (after_round job_id seen s (schedule_and_store fetch now job_id seen s)).0 in
    IsRound-IsPassed fetch now job_id k seen j (names k es) s t (process_each fetch now es t).0
      h.0.0
      (unfold schedule_and_store in (policies_of now job_id seen (plan fetch s.policies seen) s))
      (after_round-IsRound fetch now job_id seen s k h.0.1)
      (process_each-IsPassed fetch now k j es t h.1)

-- Whether a job is taken up depends on its row.
module _ (p : Job → Bool) (k : String) (j : Job) where
  names_none :
      (es : List (String × Job))
      → All (λ e. str_eq k e.0 ≡ true → e.1 ≡ j) es
      → p j ≡ false
      → names k (keep_if (λ e. p e.1) es) ≡ false
  names_none [] h waits = refl
  names_none ((i, x) ∷ es) h waits = elim (Bool-cases (p x)) [
    | inr out ↦ rw out (names_none es h.1 waits)
    | inl kept ↦ elim (Bool-cases (str_eq k i)) [
      | inl same ↦ absurd (true≢false (sym kept ∙ ap p (h.0 same) ∙ waits))
      | inr apart ↦ rw (kept, apart) (names_none es h.1 waits)
    ]
  ]

  names-keep_if :
      (es : List (String × Job))
      → All (λ e. str_eq k e.0 ≡ true → e.1 ≡ j) es
      → lookup k es ≡ some j
      → names k (keep_if (λ e. p e.1) es) ≡ p j
  unfolding lookup
  names-keep_if [] h there = absurd cc
  names-keep_if ((i, x) ∷ es) h there = elim (Bool-cases (str_eq k i)) [
    | inr apart ↦ elim (Bool-cases (p x)) [
      | inl kept ↦ rw (kept, apart) (names-keep_if es h.1 (rw apart at there))
      | inr out ↦ rw out (names-keep_if es h.1 (rw apart at there))
    ]
    | inl same ↦
        let e = ap p (h.0 same) in
        elim (Bool-cases (p x)) [
          | inl kept ↦ rw (kept, same) (sym kept ∙ e)
          | inr out ↦ rw out (names_none es h.1 (sym e ∙ out) ∙ sym out ∙ e)
        ]
  ]

same_row :
    (jobs : List (String × Job)) (k : String) (j : Job)
    → IsKeyed jobs
    → lookup k jobs ≡ some j
    → All (λ e. str_eq k e.0 ≡ true → e.1 ≡ j) jobs
same_row jobs k j keyed there =
    All-map_of
      (λ e found same.
        some-injective (sym found ∙ ap (λ i. lookup i jobs) (sym ((eq_iff k e.0).0 same)) ∙ there))
      jobs keyed

new_of_awaiting : (now : ℕ) (j : Job) → is_awaiting now j ≡ true → is_new j.status ≡ true
new_of_awaiting now j h = ground (arith, h)

-- What a pass makes of the job `k`, whose row was `j`.
abbrev pub IsProcessed : (Job → Option Environment) → ℕ → String → Job → Store → Store → Type 0
IsProcessed fetch now k j s t =
    ((is_awaiting now j ≡ false)
      × (lookup k t.jobs ≡ some j)
      × (lookup k t.decisions ≡ lookup k s.decisions))
    ⊎ ((d : ScheduleDecision) × (is_awaiting now j ≡ true)
        × ((env : Environment) × (fetch j ≡ some env) × IsAllowed env (passed_on j) d.selected)
        × (lookup k t.jobs ≡ some (with_status (status_of_plan j) j))
        × (lookup k t.decisions ≡ some (record { decision = d; created_at = now })))
    ⊎ ((e : DecideError) × (is_awaiting now j ≡ true)
        × (schedule_and_store fetch now k j s ≡ err e)
        × (lookup k t.jobs ≡ some (with_status failed j))
        × (lookup k t.decisions ≡ lookup k s.decisions))

of_plan :
    (fetch : Job → Option Environment) (now : ℕ) (k : String) (j : Job) (s t : Store)
    (r : Result DecideError ScheduleDecision)
    → plan fetch s.policies j ≡ r
    → is_awaiting now j ≡ true
    → lookup k t.jobs ≡ some (with_status (status_after j r) j)
    → lookup k t.decisions ≡ decision_after now r (lookup k s.decisions)
    → IsProcessed fetch now k j s t
unfolding schedule_and_store
of_plan fetch now k j s t (ok d) planned waits row decided =
    inr (inl (d, waits, plan-IsAllowed fetch s.policies j d planned, row, decided))
of_plan fetch now k j s t (err e) planned waits row decided =
    inr (inr (e, waits, rw planned refl, row, decided))

-- A pass leaves a job that is not SUBMITTED or VALIDATED, or whose deadline is not ahead, as it is,
-- with its decision. Any other job gets a decision that satisfies every hard constraint for the
-- job without its GPU request, and becomes APPROVED if it is not deferrable and PENDING_APPROVAL
-- otherwise; or scheduling it raises, and it becomes FAILED with its decision as it was. This is
-- where the ids of the jobs are unique and nothing else writes to the tables meanwhile.
pub process_pending_jobs_lem :
    (fetch : Job → Option Environment) (now : ℕ) (s : Store) (k : String) (j : Job)
    → IsKeyed s.jobs
    → lookup k s.jobs ≡ some j
    → IsProcessed fetch now k j s (process_pending_jobs fetch now s).0
unfolding process_pending_jobs get_jobs_awaiting_schedule
process_pending_jobs_lem fetch now s k j keyed there =
    let same = same_row s.jobs k j keyed there in
    let awaiting = get_jobs_awaiting_schedule now s.jobs in
    let entries : AreOf k j awaiting =
      All-map_of (λ e h. (h.0, new_of_awaiting now e.1 h.1)) awaiting
        (All-both _ _ awaiting (All-keep_if_of (λ e. is_awaiting now e.1) _ s.jobs same)
          (All-keep_if (λ e. is_awaiting now e.1) s.jobs)) in
    let passed = process_each-IsPassed fetch now k j awaiting s entries in
    let named = names-keep_if (is_awaiting now) k j s.jobs same there in
    elim (Bool-cases (is_awaiting now j)) [
      | inr out ↦ let e = named ∙ out in inl (out, rw e at passed.0 ∙ there, rw e at passed.1)
      | inl waits ↦
          let e = named ∙ waits in
          of_plan fetch now k j s (process_each fetch now awaiting s).0 (plan fetch s.policies j)
            refl waits (rw (e, there) at passed.0) (rw e at passed.1)
    ]
