-- ===== src/Approval/Tests.antt =====
-- A store of two pending jobs, and the theorems at it.
use green_shift.Approval.{
  target, pending_approval, approved, company_admin, Job, User, Approval, grant, decline, Store,
  not_found, conflict, reason_required, check_user_approval_permission, validate_approval_request,
  commit_decision, decide_schedule, approve_schedule, decline_schedule, resubmit_workload,
}
use green_shift.Approval.Decide.{
  Request, decide_all, status, decide_schedule_lem, commit_decision_once,
}
use green_shift.Prelude.Dict.{lookup, insert, nat_eq, string_eq}
use green_shift.Prelude.Result.{ok, err}
use green_shift.Prelude.{List, ◌≡◌, ◌⊎◌, refl, String, some, none, [], ◌∷◌, if◌then◌else◌, str_eq}

program : Unit {0}
unfolding lookup insert check_user_approval_permission validate_approval_request commit_decision
    decide_schedule approve_schedule decline_schedule resubmit_workload
program = tt

abbrev pending : Job
pending = record { status = pending_approval; tenant_id = some "acme" }

abbrev store : Store
store = record {
  jobs = ("a", pending) ∷ ("b", pending) ∷ [];
  schedules = (1, "a") ∷ (2, "b") ∷ [];
  approvals = [];
}

abbrev admin : User
admin = record { role = company_admin; tenant_id = some "acme" }

abbrev stranger : User
stranger = record { role = company_admin; tenant_id = some "other" }

abbrev granted : Approval
granted = record {
  job_id = "a";
  schedule_decision_id = 1;
  decision = grant;
  reason = 111 ∷ 107 ∷ [];
  approved_by = "admin";
}

abbrev refused : Approval
refused = record granted { decision = decline }

abbrev after : Store
after = record {
  jobs = ("a", record { status = approved; tenant_id = some "acme" }) ∷ ("b", pending) ∷ [];
  schedules = (1, "a") ∷ (2, "b") ∷ [];
  approvals = granted ∷ [];
}

approved_once :
    approve_schedule store store "a" 1 (some (111 ∷ 107 ∷ [])) none (some admin)
    ≡ ok (after, granted)
unfolding program
approved_once = refl

hidden_from_strangers : approve_schedule store store "a" 1 none none (some stranger) ≡ err not_found
unfolding program
hidden_from_strangers = refl

late_decline_conflicts :
    decline_schedule store after "a" 1 (some (32 ∷ 110 ∷ 111 ∷ [])) none (some admin) ≡ err conflict
unfolding program
late_decline_conflicts = refl

blank_reason_refused :
    decline_schedule store store "a" 1 (some (32 ∷ 9 ∷ [])) none (some admin) ≡ err reason_required
unfolding program
blank_reason_refused = refl

committed : decide_schedule store store (some admin) granted ≡ ok (after, granted)
unfolding program
committed = refl

again : decide_schedule after after (some admin) granted ≡ ok (after, granted)
unfolding program
again = refl

-- A request that has read the store before the decision, and one by nobody.
abbrev requests : List Request
requests =
    record { seen = store; user = some admin; decision = granted }
    ∷ record { seen = after; user = none; decision = granted }
    ∷ []

decided_already :
    decide_schedule after (decide_all after requests) (some admin) granted ≡ ok (after, granted)
unfolding program
decided_already = refl

first_commit : commit_decision store granted ≡ ok (after, granted)
unfolding program
first_commit = refl

decide_schedule_lem_example :
    (lookup 1 store.schedules ≡ some "a")
    × ((j : Job) × (lookup "a" store.jobs ≡ some j)
        × (check_user_approval_permission j (some admin) ≡ ok tt))
    × ((after ≡ store)
        ⊎ (status store "a" ≡ some pending_approval)
          × ((k : String)
              → status after k ≡ (if str_eq k "a" then some approved else status store k)))
decide_schedule_lem_example =
    decide_schedule_lem store store after (some admin) granted granted committed

commit_decision_once_example :
    (status (decide_all after requests) "a" ≡ some (target grant))
    × (after ≡ decide_all after requests)
unfolding program
commit_decision_once_example =
    commit_decision_once after store after after (some admin) granted granted granted granted
      requests first_commit refl decided_already
