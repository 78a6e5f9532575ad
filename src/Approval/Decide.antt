-- ===== src/Approval/Decide.antt =====
-- What a decision on a schedule changes, in app/approval/service.py.
use text.Mathlib.TextEquality.{eq_iff}
use green_shift.Approval.{
  found, settle, wrong_status, JobStatus, pending_approval, Job, User, Decision, grant, decline,
  Approval, Store, ApprovalError, target, is_pending, is_target, existing,
  check_user_approval_permission, validate_approval_request, update_if_pending, commit_decision,
  decide_schedule,
}
use green_shift.Prelude.Dict.{lookup, insert, lookup-insert, string_eq, nat_eq}
use green_shift.Prelude.Result.{Result, ok, err, ◌>>◌, ok-injective, >>=-eq-ok}
use green_shift.Prelude.{
  some-injective, ◌≢◌, ℕ, ◌≡◌, ◌⊎◌, refl, ap, sym, ◌∙◌, ◌||◌, Bool, true, false, String, ◌∷◌, List,
  [], Option, none, some, arith, Bool-cases, Option-cases, inl, inr, if◌then◌else◌, str_eq,
}

abbrev status_of : Option Job → Option JobStatus
status_of none = none
status_of (some j) = some j.status

abbrev pub status : Store → String → Option JobStatus
status s job_id = status_of (lookup job_id s.jobs)

is_pending→eq : (t : JobStatus) → is_pending t ≡ true → t ≡ pending_approval
is_pending→eq t h = ground arith

not_ok :
    (e : ApprovalError) (x : Store × Approval)
    → ◌≡◌ {A = Result ApprovalError (Store × Approval)} (err e) (ok x)
    → ⊥
not_ok e x h = cc

if_status :
    (j : Job) (o : Option Job) (b : Bool)
    → status_of (if b then some j else o) ≡ (if b then some j.status else status_of o)
if_status j o true = refl
if_status j o false = refl

committed :
    (s after : Store) (a b : Approval) (j : Job)
    → lookup a.job_id s.jobs ≡ some j
    → update_if_pending s a (some j) ≡ ok (after, b)
    → (status s a.job_id ≡ some pending_approval)
      × ((k : String)
          → status after k ≡ (if str_eq k a.job_id then some (target a.decision) else status s k))
committed s after a b j there h = elim (Bool-cases (is_pending j.status)) [
  | inr f ↦ absurd (not_ok _ _ (rw f at h))
  | inl t ↦
      let jobs = insert a.job_id (record j { status = target a.decision }) s.jobs in
      let same : ok (record s { jobs = jobs; approvals = a ∷ s.approvals }, a) ≡ ok (after, b) =
        rw t at h in
      (
        ap status_of there ∙ ap some (is_pending→eq j.status t),
        λ k.
            ap (λ (x : Store × Approval). status x.0 k) (sym (ok-injective same))
            ∙ (ap status_of
                  (lookup-insert a.job_id k (record j { status = target a.decision }) s.jobs)
                ∙ if_status (record j { status = target a.decision }) _ (str_eq k a.job_id)),
      )
]

-- A commit happens on a pending job only, and changes the status of that job and of no other.
commit_decision_lem :
    (s after : Store) (a b : Approval)
    → commit_decision s a ≡ ok (after, b)
    → (status s a.job_id ≡ some pending_approval)
      × ((k : String)
          → status after k ≡ (if str_eq k a.job_id then some (target a.decision) else status s k))
unfolding commit_decision
commit_decision_lem s after a b h = elim (Option-cases (lookup a.job_id s.jobs)) [
  | inl missing ↦ absurd (not_ok _ _ (rw missing at h))
  | inr (j, there) ↦ committed s after a b j there (rw there at h)
]

found_lem :
    (job_id : String) (j : Job) (owner : Option String) (o : Option Job)
    → found job_id owner o ≡ ok j
    → (o ≡ some j) × (owner ≡ some job_id)
found_lem job_id j owner none h = cc
found_lem job_id j none (some i) h = cc
found_lem job_id j (some owner) (some i) h = ground (arith, eq_iff owner job_id)

validate_approval_request_lem :
    (s : Store) (job_id : String) (schedule_id : ℕ) (j : Job)
    → validate_approval_request s job_id schedule_id ≡ ok j
    → (lookup job_id s.jobs ≡ some j) × (lookup schedule_id s.schedules ≡ some job_id)
unfolding validate_approval_request
validate_approval_request_lem s job_id schedule_id j h =
    found_lem job_id j (lookup schedule_id s.schedules) (lookup job_id s.jobs) h

settle_lem :
    (current after : Store) (a b : Approval) (j : Job) (already : Option Approval)
    → settle current a j already ≡ ok (after, b)
    → (after ≡ current) ⊎ (commit_decision current a ≡ ok (after, b))
settle_lem current after a b j none h =
    elim (Bool-cases (is_pending j.status || is_target a.decision j.status)) [
      | inl t ↦ inr (rw t at h)
      | inr f ↦ absurd (not_ok _ _ (rw f at h))
    ]
settle_lem current after a b j (some e) h = elim (Bool-cases (is_target a.decision j.status)) [
  | inl t ↦
      let same : ok (current, e) ≡ ok (after, b) = rw t at h in
      inl (sym (ap (λ (x : Store × Approval). x.0) (ok-injective same)))
  | inr f ↦
      let rest : (if is_pending j.status then commit_decision current a else err wrong_status)
          ≡ ok (after, b) =
        rw f at h in
      elim (Bool-cases (is_pending j.status)) [
        | inl p ↦ inr (rw p at rest)
        | inr q ↦ absurd (not_ok _ _ (rw q at rest))
      ]
]

-- Where a decision is answered with success, the job and the schedule of that job exist and the
-- user may decide on it; and either the store is as it was, or the job was pending when the
-- decision was written, has the status decided on, and no other job has changed its status.
pub decide_schedule_lem :
    (seen current after : Store) (user : Option User) (a b : Approval)
    → decide_schedule seen current user a ≡ ok (after, b)
    → (lookup a.schedule_decision_id seen.schedules ≡ some a.job_id)
      × ((j : Job) × (lookup a.job_id seen.jobs ≡ some j)
          × (check_user_approval_permission j user ≡ ok tt))
      × ((after ≡ current)
          ⊎ (status current a.job_id ≡ some pending_approval)
            × ((k : String)
                → status after k
                  ≡ (if str_eq k a.job_id then some (target a.decision) else status current k)))
unfolding decide_schedule
decide_schedule_lem seen current after user a b h =
    let settled : Job → Result ApprovalError (Store × Approval) = λ i.
      settle current a i (existing a.decision a.job_id a.schedule_decision_id seen.approvals) in
    let (j, valid, rest) =
      >>=-eq-ok (validate_approval_request seen a.job_id a.schedule_decision_id)
        (λ i. check_user_approval_permission i user >> settled i) h in
    let (_, allowed, done) =
      >>=-eq-ok (check_user_approval_permission j user) (λ _. settled j) rest in
    let (there, owned) =
      validate_approval_request_lem seen a.job_id a.schedule_decision_id j valid in
    (
      owned,
      (j, there, allowed),
      elim (settle_lem current after a b j _ done) [
        | inl unchanged ↦ inl unchanged
        | inr written ↦ inr (commit_decision_lem current after a b written)
      ],
    )

target-not_pending : (d : Decision) → target d ≢ pending_approval
target-not_pending grant h = cc
target-not_pending decline h = cc

-- A request to decide: what it has read, its user and the decision.
pub record Request : Type 0 where
  pub seen : Store
  pub user : Option User
  pub decision : Approval

-- The store after a request; one that is refused changes nothing.
abbrev pub stored : Store → Result ApprovalError (Store × Approval) → Store
stored s (err e) = s
stored s (ok (t, d)) = t

abbrev pub decide_all : Store → List Request → Store
decide_all s [] = s
decide_all s (q ∷ qs) = decide_all (stored s (decide_schedule q.seen s q.user q.decision)) qs

-- A status other than PENDING_APPROVAL survives a request, on whichever job.
stored-status :
    (seen s : Store) (user : Option User) (c : Approval) (k : String) (x : JobStatus)
    (r : Result ApprovalError (Store × Approval))
    → decide_schedule seen s user c ≡ r
    → status s k ≡ some x
    → x ≢ pending_approval
    → status (stored s r) k ≡ some x
stored-status seen s user c k x (err e) answer now apart = now
stored-status seen s user c k x (ok (t, d)) answer now apart =
    let (_, _, change) = decide_schedule_lem seen s t user c d answer in
    elim change [
      | inl unchanged ↦ rw unchanged now
      | inr (pending, statuses) ↦ elim (Bool-cases (str_eq k c.job_id)) [
        | inl own ↦
            let here : status s k ≡ some pending_approval =
              rw ((eq_iff k c.job_id).0 own) pending in
            absurd (apart (some-injective (sym now ∙ here)))
        | inr other ↦ statuses k ∙ rw other now
      ]
    ]

decide_all-status :
    (s : Store) (qs : List Request) (k : String) (x : JobStatus)
    → status s k ≡ some x
    → x ≢ pending_approval
    → status (decide_all s qs) k ≡ some x
decide_all-status s [] k x now apart = now
decide_all-status s (q ∷ qs) k x now apart =
    let r = decide_schedule q.seen s q.user q.decision in
    decide_all-status (stored s r) qs k x
      (stored-status q.seen s q.user q.decision k x r refl now apart) apart

-- Once a decision on a job is committed, and after any further requests to decide on schedules,
-- whoever makes them on whichever job and however old the store that each has read: the job has the
-- status decided on, and the next request to decide on it leaves the store as it is where it is
-- answered with success. Nothing but such requests comes in between, so no resubmission of the job.
pub commit_decision_once :
    (seen s after final : Store) (user : Option User) (a b c d : Approval) (between : List Request)
    → commit_decision s a ≡ ok (after, b)
    → c.job_id ≡ a.job_id
    → decide_schedule seen (decide_all after between) user c ≡ ok (final, d)
    → (status (decide_all after between) a.job_id ≡ some (target a.decision))
      × (final ≡ decide_all after between)
commit_decision_once seen s after final user a b c d between first same later =
    let (_, _, change) = decide_schedule_lem seen (decide_all after between) final user c d later in
    let (_, statuses) = commit_decision_lem s after a b first in
    let at_commit : status after a.job_id ≡ some (target a.decision) =
      statuses a.job_id ∙ rw ((eq_iff a.job_id a.job_id).1 refl) refl in
    let decided =
      decide_all-status after between a.job_id (target a.decision) at_commit
        (target-not_pending a.decision) in
    (
      decided,
      elim change [
        | inl unchanged ↦ unchanged
        | inr (pending, _) ↦
            let still : status (decide_all after between) a.job_id ≡ some pending_approval =
              rw (← same) pending in
            absurd (target-not_pending a.decision (some-injective (sym decided ∙ still)))
      ],
    )
