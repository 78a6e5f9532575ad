-- ===== src/Notify/Tests.antt =====
-- Two users of a company, and the theorems at them.
use green_shift.Approval.{
  Job, pending_approval, check_user_approval_permission, platform_admin, company_admin,
  company_user,
}
use green_shift.Notify.{
  Store, NotificationRequest, workload, request_key, new_notification, get_or_create_preferences,
  update_preferences, email_allowed_by_preference, create_notification, notify_users,
  resolve_tenant_admin_user_ids, resolve_platform_admin_user_ids, get_unread_count, mark_all_read,
}
use green_shift.Notify.Approvers.{
  IsApprover, as_user, approvers, approvers-check_user_approval_permission,
}
use green_shift.Notify.Created.{IsCreated, create_notification_lem}
use green_shift.Prelude.Dict.{lookup, insert, nat_eq}
use green_shift.Prelude.Result.{ok}
use green_shift.Prelude.Texts.{codes}
use green_shift.Prelude.{any, ◌==◌, Option, ℕ, ◌≡◌, refl, true, false, some, none, [], ◌∷◌, All}

program : Unit {0}
unfolding lookup insert get_or_create_preferences update_preferences email_allowed_by_preference
    create_notification notify_users resolve_tenant_admin_user_ids resolve_platform_admin_user_ids
    get_unread_count mark_all_read
program = tt

abbrev tables : Store
tables = record {
  users =
      (record { id = 1; role = company_admin; tenant_id = some "acme"; is_active = true })
      ∷ (record { id = 2; role = company_user; tenant_id = some "acme"; is_active = true })
      ∷ (record { id = 3; role = platform_admin; tenant_id = none; is_active = true })
      ∷ [];
  preferences =
      (
        2,
        record {
          email_workload = false;
          email_scheduling = true;
          email_approval = true;
          email_execution = true;
        },
      )
      ∷ [];
  notifications = [];
  next_id = 1;
}

abbrev submitted : NotificationRequest
submitted = record {
  event_type = codes "JOB_SUBMITTED";
  category = workload;
  job_id = some (codes "a");
  action_url = none;
  dedup_suffix = none;
  email_required = true;
}

company_admins : resolve_tenant_admin_user_ids tables (some "acme") ≡ 1 ∷ []
unfolding program
company_admins = refl

-- Disabled, so no e-mail is asked for.
abbrev told : Store
told = record tables { notifications = new_notification 9 2 submitted false 1 ∷ []; next_id = 2 }

created :
    create_notification (λ s. s) 9 2 submitted tables
    ≡ ok (told, some (new_notification 9 2 submitted false 1))
unfolding program
created = refl

create_notification_lem_example :
    IsCreated 2 submitted tables (create_notification (λ s. s) 9 2 submitted tables)
create_notification_lem_example =
    create_notification_lem (λ s. s) 9 2 submitted tables (λ u h. h) tt

one_unread : get_unread_count told 2 ≡ 1
unfolding program
one_unread = refl

-- A request without a job has the key of one whose job has the id "none".
same_key :
    request_key (record submitted { job_id = none })
    ≡ request_key (record submitted { job_id = some (codes "none") })
same_key = refl

abbrev waiting : Job
waiting = record { status = pending_approval; tenant_id = some "acme" }

approvers-check_user_approval_permission_example :
    All
      (λ u.
        (check_user_approval_permission waiting (some (as_user u)) ≡ ok tt)
        × (◌≡◌ {A = Option ℕ} (some 1) (some u.id) → ⊥))
      (approvers tables waiting (some 1))
    × All
        (λ u.
          IsApprover waiting u
          → (◌≡◌ {A = Option ℕ} (some 1) (some u.id) → ⊥)
          → any (λ v. v.id == u.id) (approvers tables waiting (some 1)) ≡ true)
        tables.users
approvers-check_user_approval_permission_example =
    approvers-check_user_approval_permission tables waiting (some 1)
