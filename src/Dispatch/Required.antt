-- ===== src/Dispatch/Required.antt =====
-- What a dispatch by app/dispatch/dispatcher.py requires.
use mathlib.Core.Bool.{true≢false}
use text.Mathlib.TextEquality.{eq_iff}
use green_shift.Approval.{
  JobStatus, User, approved, scheduled, ready, claiming, queued, dispatching, other_tenant,
}
use green_shift.Dispatch.{Job, Decision}
use green_shift.Dispatch.Dispatcher.{
  validate_job_for_dispatch, check_user, check_status, check_decision,
}
use green_shift.Prelude.Dict.{string_eq}
use green_shift.Prelude.Result.{ok, ◌>>=◌, >>-ok_iff}
use green_shift.Prelude.{
  ℕ, ◌≤◌, ◌≡◌, ◌⊎◌, refl, ◌∙◌, false, String, Option, none, some, arith, Bool-cases, ◌↔◌, sym,
  some-injective, inl, inr,
}

-- A decision of this job whose start has come.
pub record IsDue (now : ℕ) (job_id : String) (o : Option Decision) : Type 0 where
  pub decision : Decision
  pub chosen : o ≡ some decision
  pub own : decision.job_id ≡ job_id
  pub due : decision.selected_start ≤ now

abbrev pub HasNoCompany : Option String → Type 0
HasNoCompany o = (o ≡ none) ⊎ (o ≡ some "")

-- Without a user, or where one of them has no company, or where both have the same.
abbrev pub IsPermitted : Job → Option User → Type 0
IsPermitted j none = Unit {0}
IsPermitted j (some u) =
    HasNoCompany u.tenant_id ⊎ (HasNoCompany j.tenant_id ⊎ (u.tenant_id ≡ j.tenant_id))

-- The six statuses that a job may be dispatched in.
abbrev pub IsPastApproval : JobStatus → Type 0
IsPastApproval t =
    (t ≡ approved)
    ⊎ ((t ≡ scheduled) ⊎ ((t ≡ ready) ⊎ ((t ≡ claiming) ⊎ ((t ≡ queued) ⊎ (t ≡ dispatching)))))

-- What a dispatch requires.
pub record IsDispatchable (now : ℕ) (job_id : String) (j : Job) (user : Option User) : Type 0 where
  pub permitted : IsPermitted j user
  pub in_status : IsPastApproval j.status
  pub timely : IsDue now job_id j.schedule_decision

same_company :
    (o p : Option String)
    → (other_tenant o p ≡ false) ↔ (HasNoCompany o ⊎ (HasNoCompany p ⊎ (o ≡ p)))
same_company none p = (λ h. inl (inl refl), λ h. refl)
same_company (some t) none = (λ h. inr (inl (inl refl)), λ h. refl)
same_company (some t) (some u) = (
  λ h. ground (arith, h, eq_iff t "", eq_iff u "", eq_iff t u),
  λ h. elim h [
    | inl (inl e) ↦ absurd cc
    | inl (inr e) ↦ rw ((eq_iff t "").1 (some-injective e)) refl
    | inr (inl (inl e)) ↦ absurd cc
    | inr (inl (inr e)) ↦ rw ((eq_iff u "").1 (some-injective e)) (ground arith)
    | inr (inr e) ↦ rw ((eq_iff t u).1 (some-injective e)) (ground arith)
  ],
)

check_user_iff : (j : Job) (user : Option User) → (check_user j user ≡ ok tt) ↔ IsPermitted j user
check_user_iff j none = (λ h. tt, λ h. refl)
check_user_iff j (some u) = elim (Bool-cases (other_tenant u.tenant_id j.tenant_id)) [
  | inl foreign ↦ rw foreign (
    λ h. absurd cc,
    λ h. absurd (true≢false (sym foreign ∙ (same_company u.tenant_id j.tenant_id).1 h)),
  )
  | inr own ↦ rw own (λ h. (same_company u.tenant_id j.tenant_id).0 own, λ h. refl)
]

pub check_status_iff : (t : JobStatus) → (check_status t ≡ ok tt) ↔ IsPastApproval t
check_status_iff t = ground arith

check_decision-IsDue :
    (now : ℕ) (job_id : String) (o : Option Decision)
    → check_decision now job_id o ≡ ok tt
    → IsDue now job_id o
check_decision-IsDue now job_id none h = absurd cc
check_decision-IsDue now job_id (some d) h = record {
  decision = d;
  chosen = refl;
  own = ground (arith, eq_iff d.job_id job_id);
  due = ground arith;
}

check_decision_iff :
    (now : ℕ) (job_id : String) (o : Option Decision)
    → IsDue now job_id o
    → check_decision now job_id o ≡ ok tt
check_decision_iff now job_id o due =
    rw (due.chosen, (eq_iff due.decision.job_id job_id).1 due.own) (ground (arith, due.due))

pub validate-IsDispatchable :
    (now : ℕ) (job_id : String) (j : Job) (user : Option User)
    → validate_job_for_dispatch now job_id j user ≡ ok tt
    → IsDispatchable now job_id j user
unfolding validate_job_for_dispatch
validate-IsDispatchable now job_id j user h =
    let (permitted, rest) =
      (>>-ok_iff (check_user j user)
          (check_status j.status >>= λ _. check_decision now job_id j.schedule_decision)).0
        h in
    let (in_status, last) =
      (>>-ok_iff (check_status j.status) (check_decision now job_id j.schedule_decision)).0 rest in
    record {
      permitted = (check_user_iff j user).0 permitted;
      in_status = (check_status_iff j.status).0 in_status;
      timely = check_decision-IsDue now job_id j.schedule_decision last;
    }

pub IsDispatchable-validate :
    (now : ℕ) (job_id : String) (j : Job) (user : Option User)
    → IsDispatchable now job_id j user
    → validate_job_for_dispatch now job_id j user ≡ ok tt
unfolding validate_job_for_dispatch
IsDispatchable-validate now job_id j user can =
    rw ((check_user_iff j user).1 can.permitted, (check_status_iff j.status).1 can.in_status)
      (check_decision_iff now job_id j.schedule_decision can.timely)
