-- ===== src/Dispatch/Batch.antt =====
-- The dispatches of one batch by the loop of app/dispatch/service.py.
use text.Mathlib.TextEquality.{eq_iff}
use green_shift.Approval.{JobStatus, dispatching, queued}
use green_shift.Dispatch.{Job, Jobs, Decision, holds, ids_of}
use green_shift.Dispatch.Dispatcher.{
  System, Cluster, Call, validate_job_for_dispatch, check_decision, submitted_by, check_status,
  dispatch_job, DispatchError, submit, record_execution, dispatch_checked, dispatch_found, set_job,
  with_status,
}
use green_shift.Dispatch.Gate.{status_at, status_of, dispatch_job-queued}
use green_shift.Dispatch.Rows.{IsSameAt, IsSameAt-trans, dispatch_job-IsSameAt}
use green_shift.Dispatch.Keys.{go_on-both}
use green_shift.Dispatch.Tick.{dispatch_each, breaks_session, go_on}
use green_shift.Prelude.Dict.{lookup, string_eq}
use green_shift.Prelude.Result.{Result, ok, err, ◌>>◌}
use green_shift.Prelude.{
  ℕ, ◌≤◌, ◌≡◌, refl, sym, ap, subst, ◌∙◌, Bool, true, false, String, Option, none, some, List, [],
  ◌∷◌, str_eq, is_some, arith, Bool-cases, inl, inr, All, tally,
}

-- Once in a list at most.
abbrev pub is_id : String → String → Bool
is_id id i = str_eq i id

tally-none : (id : String) (ids : List String) → holds ids id ≡ false → tally (is_id id) ids ≡ 0
tally-none id [] h = refl
tally-none id (i ∷ ids) h = ground (arith, tally-none id ids)

not_held : (id : String) (ids : List String) → tally (is_id id) ids ≡ 0 → holds ids id ≡ false
not_held id [] h = refl
not_held id (i ∷ ids) h = ground (arith, not_held id ids)

-- Each id once.
abbrev pub IsUnique : List String → Type 0
IsUnique [] = Unit {0}
IsUnique (i ∷ ids) = (holds ids i ≡ false) × IsUnique ids

pub tally-IsUnique : (id : String) (ids : List String) → IsUnique ids → tally (is_id id) ids ≤ 1
tally-IsUnique id [] h = omega arith
tally-IsUnique id (i ∷ ids) h = elim (Bool-cases (str_eq i id)) [
  | inr apart ↦ rw apart (omega (arith, tally-IsUnique id ids h.1))
  | inl same ↦
      rw same (
        omega (arith, tally-none id ids (ap (λ k. holds ids k) (sym ((eq_iff i id).0 same)) ∙ h.0)))
]

pub dispatch_each_other :
    (now : ℕ) (clusters : String → Cluster) (ids : List String) (id : String) (s : System)
    → holds ids id ≡ false
    → IsSameAt id s (dispatch_each now clusters ids s).0
unfolding dispatch_each
dispatch_each_other now clusters [] id s h = (refl, refl)
dispatch_each_other now clusters (i ∷ ids) id s h =
    let (t, calls, outcome) = dispatch_job now none (clusters i) i s in
    let first =
      dispatch_job-IsSameAt now none (clusters i) i id s
        (ground (arith, eq_iff i id, eq_iff id i)) in
    go_on-both (IsSameAt id s) (breaks_session outcome) t calls (dispatch_each now clusters ids t)
      first
      (IsSameAt-trans id s t (dispatch_each now clusters ids t).0 first
        (dispatch_each_other now clusters ids id t (ground (arith, h))))

-- A dispatch of a job without an execution does not break the session.
submit-unbroken :
    (c : Cluster) (id : String) (d : Option Decision) (s : System)
    → is_some (lookup id s.executions) ≡ false
    → breaks_session (submit c id d s).1 ≡ false
unfolding record_execution
submit-unbroken c id none s fresh = refl
submit-unbroken c id (some d) s fresh = elim (Bool-cases (submitted_by c)) [
  | inl taken ↦ rw (taken, fresh) refl
  | inr refused ↦ rw refused refl
]

decision_unbroken :
    (now : ℕ) (id : String) (o : Option Decision) → breaks_session (check_decision now id o) ≡ false
decision_unbroken now id none = refl
decision_unbroken now id (some d) = ground arith

status_unbroken :
    (status : JobStatus) (r : Result DispatchError (Unit {0}))
    → breaks_session r ≡ false
    → breaks_session (check_status status >> r) ≡ false
status_unbroken status r h = ground (arith, h)

validate-unbroken :
    (now : ℕ) (id : String) (j : Job)
    → breaks_session (validate_job_for_dispatch now id j none) ≡ false
unfolding validate_job_for_dispatch
validate-unbroken now id j =
    status_unbroken j.status (check_decision now id j.schedule_decision)
      (decision_unbroken now id j.schedule_decision)

checked-unbroken :
    (c : Cluster) (id : String) (j : Job) (s : System) (r : Result DispatchError (Unit {0}))
    → is_some (lookup id s.executions) ≡ false
    → breaks_session r ≡ false
    → breaks_session (dispatch_checked c id j s r).2 ≡ false
checked-unbroken c id j s (err e) fresh valid = valid
checked-unbroken c id j s (ok u) fresh valid =
    submit-unbroken c id j.schedule_decision (set_job id (with_status dispatching) s) fresh

found-unbroken :
    (now : ℕ) (c : Cluster) (id : String) (s : System) (o : Option Job)
    → is_some (lookup id s.executions) ≡ false
    → breaks_session (dispatch_found now none c id s o).2 ≡ false
found-unbroken now c id s none fresh = refl
found-unbroken now c id s (some j) fresh =
    checked-unbroken c id j s (validate_job_for_dispatch now id j none) fresh
      (validate-unbroken now id j)

dispatch_job-unbroken :
    (now : ℕ) (c : Cluster) (id : String) (s : System)
    → is_some (lookup id s.executions) ≡ false
    → breaks_session (dispatch_job now none c id s).2 ≡ false
unfolding dispatch_job
dispatch_job-unbroken now c id s fresh = found-unbroken now c id s (lookup id s.jobs) fresh

-- The session that a dispatch of a job without an execution leaves is usable.
on_and_on :
    (b : Bool) (t : System) (calls : List Call) (u : System × List Call × Bool)
    → b ≡ false
    → (go_on b t calls u).0 ≡ u.0
on_and_on true t calls u h = cc
on_and_on false t calls u h = refl

abbrev pub IsFresh : System → String → Type 0
IsFresh s k = is_some (lookup k s.executions) ≡ false

IsFresh-after :
    (now : ℕ) (c : Cluster) (i : String) (ids : List String) (s : System)
    → holds ids i ≡ false
    → All (IsFresh s) ids
    → All (IsFresh (dispatch_job now none c i s).0) ids
IsFresh-after now c i [] s h fresh = tt
IsFresh-after now c i (k ∷ ids) s h fresh =
    let same = dispatch_job-IsSameAt now none c i k s (ground (arith, eq_iff i k, eq_iff k i)) in
    (ap is_some same.1 ∙ fresh.0, IsFresh-after now c i ids s (ground (arith, h)) fresh.1)

pub dispatch_each_own :
    (now : ℕ) (clusters : String → Cluster) (ids : List String) (id : String) (s : System) (j : Job)
    → lookup id s.jobs ≡ some j
    → validate_job_for_dispatch now id j none ≡ ok tt
    → IsFresh s id
    → submitted_by (clusters id) ≡ true
    → holds ids id ≡ true
    → IsUnique ids
    → All (IsFresh s) ids
    → status_at id (dispatch_each now clusters ids s).0 ≡ some queued
unfolding dispatch_each
dispatch_each_own now clusters [] id s j there valid own taken held unique fresh = absurd cc
dispatch_each_own now clusters (i ∷ ids) id s j there valid own taken held unique fresh =
    let (t, calls, outcome) = dispatch_job now none (clusters i) i s in
    let rest = dispatch_each now clusters ids t in
    ap (status_at id) (
      on_and_on (breaks_session outcome) t calls rest
        (dispatch_job-unbroken now (clusters i) i s fresh.0))
    ∙ elim (Bool-cases (str_eq i id)) [
      | inl same ↦
          let e = (eq_iff i id).0 same in
          ap status_of
            (dispatch_each_other now clusters ids id t (ap (λ k. holds ids k) (sym e) ∙ unique.0)).0
          ∙ subst (λ k. status_at id (dispatch_job now none (clusters k) k s).0 ≡ some queued)
              (sym e) (dispatch_job-queued now none (clusters id) id s j there valid own taken)
      | inr apart ↦
          let kept =
            dispatch_job-IsSameAt now none (clusters i) i id s
              (ground (arith, eq_iff i id, eq_iff id i)) in
          dispatch_each_own now clusters ids id t j (kept.0 ∙ there) valid (ap is_some kept.1 ∙ own)
            taken (ground (arith, held)) unique.1
            (IsFresh-after now (clusters i) i ids s unique.0 fresh.1)
    ]

pub tally-ids_of :
    (id : String) (es : Jobs) → tally (is_id id) (ids_of es) ≡ tally (λ e. is_id id e.0) es
tally-ids_of id [] = refl
tally-ids_of id (e ∷ es) = omega (arith, tally-ids_of id es)

pub IsUnique-tally : (ids : List String) → ((k : String) → tally (is_id k) ids ≤ 1) → IsUnique ids
IsUnique-tally [] h = tt
IsUnique-tally (i ∷ ids) h =
    let own = (eq_iff i i).1 refl in
    let later : tally (is_id i) ids ≡ 0 = ground (arith, h i, eq_iff i i) in
    (not_held i ids later, IsUnique-tally ids (λ k. omega (arith, h k)))
