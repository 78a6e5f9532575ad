-- ===== src/Notify.antt =====
-- app/notify/service.py: notifications, each once for a recipient and an event, and the preferences
-- that gate their e-mails. The tables notifications and notification_preferences, the latter keyed by
-- the user, who is unique. Publishing to open connections and the texts are not modelled.
pub mod Once
pub mod Created
pub mod Reading
pub mod Approvers
mod Tests
use green_shift.Approval.{has_tenant, UserRole, platform_admin, company_admin}
use green_shift.Prelude.Dict.{lookup, insert, nat_eq}
use green_shift.Prelude.Result.{Result, ok, err, ◌>>=◌}
use green_shift.Prelude.Texts.{Text, text_eq}
use green_shift.Prelude.{
  ℕ, suc, ◌+◌, Bool, true, false, not, ◌&&◌, ◌||◌, Option, none, some, List, [], ◌∷◌, ◌++◌, map,
  if◌then◌else◌, ◌==◌, any, keep_if, length, is_some, option_eq, String, str_eq,
}

-- ACCOUNT, SECURITY and INFRASTRUCTURE are `other`.
pub data Category : Type 0 where
  workload scheduling approval execution other : Category

pub record Preferences : Type 0 where
  pub email_workload : Bool
  pub email_scheduling : Bool
  pub email_approval : Bool
  pub email_execution : Bool

pub data EmailStatus : Type 0 where
  pending not_required : EmailStatus

pub record Notification : Type 0 where
  pub id : ℕ
  pub recipient_user_id : ℕ
  pub job_id : Option Text
  pub event_type : Text
  pub category : Category
  pub action_url : Option Text
  pub created_at : ℕ
  pub read_at : Option ℕ
  pub dedup_key : Text
  pub email_required : Bool
  pub email_status : EmailStatus

pub record Recipient : Type 0 where
  pub id : ℕ
  pub role : UserRole
  pub tenant_id : Option String
  pub is_active : Bool

pub record Store : Type 0 where
  pub users : List Recipient
  pub preferences : List (ℕ × Preferences)
  pub notifications : List Notification
  pub next_id : ℕ

-- The user of a new row of preferences does not exist.
pub data NotifyError : Type 0 where
  unknown_user : NotifyError

abbrev pub colon : ℕ
colon = 58

-- `x or "none"`
abbrev pub or_none : Option Text → Text
or_none none = 110 ∷ 111 ∷ 110 ∷ 101 ∷ []
or_none (some []) = 110 ∷ 111 ∷ 110 ∷ 101 ∷ []
or_none (some (c ∷ cs)) = c ∷ cs

abbrev pub suffixed : Option Text → Text
suffixed none = []
suffixed (some []) = []
suffixed (some (c ∷ cs)) = colon ∷ c ∷ cs

abbrev pub dedup_key_of : Text → Option Text → Option Text → Text
dedup_key_of event_type job_id suffix = event_type ++ (colon ∷ or_none job_id) ++ suffixed suffix

-- "SCHEDULE_PROPOSED"
abbrev pub schedule_proposed : Text
schedule_proposed =
    83 ∷ 67 ∷ 72 ∷ 69 ∷ 68 ∷ 85 ∷ 76 ∷ 69 ∷ 95 ∷ 80 ∷ 82 ∷ 79 ∷ 80 ∷ 79 ∷ 83 ∷ 69 ∷ 68 ∷ []

-- "/approvals" and "/workloads/"
abbrev pub approvals_url : Text
approvals_url = 47 ∷ 97 ∷ 112 ∷ 112 ∷ 114 ∷ 111 ∷ 118 ∷ 97 ∷ 108 ∷ 115 ∷ []

abbrev pub workloads_url : Text
workloads_url = 47 ∷ 119 ∷ 111 ∷ 114 ∷ 107 ∷ 108 ∷ 111 ∷ 97 ∷ 100 ∷ 115 ∷ 47 ∷ []

abbrev pub is_approval : Category → Bool
is_approval approval = true
is_approval _ = false

abbrev pub job_url : Option Text → Option Text
job_url none = none
job_url (some []) = none
job_url (some (c ∷ cs)) = some (workloads_url ++ c ∷ cs)

abbrev pub default_action_url : Category → Option Text → Text → Option Text
default_action_url category job_id event_type =
    if is_approval category && text_eq event_type schedule_proposed
    then some approvals_url
    else job_url job_id

abbrev pub all_enabled : Preferences
all_enabled = record {
  email_workload = true;
  email_scheduling = true;
  email_approval = true;
  email_execution = true;
}

abbrev pub is_user : Store → ℕ → Bool
is_user s user_id = any (λ u. u.id == user_id) s.users

abbrev pub create_preferences :
    Store → ℕ → Option Preferences → Result NotifyError (Store × Preferences)
create_preferences s user_id (some p) = ok (s, p)
create_preferences s user_id none =
    if is_user s user_id
    then ok (record s { preferences = insert user_id all_enabled s.preferences }, all_enabled)
    else err unknown_user

unfoldable pub get_or_create_preferences : Store → ℕ → Result NotifyError (Store × Preferences)
get_or_create_preferences s user_id = create_preferences s user_id (lookup user_id s.preferences)

-- The fields of an update; what is None, or is no preference of a category, is left.
pub record PreferenceUpdate : Type 0 where
  pub email_workload : Option Bool
  pub email_scheduling : Option Bool
  pub email_approval : Option Bool
  pub email_execution : Option Bool

abbrev pub or_old : Bool → Option Bool → Bool
or_old old none = old
or_old old (some new) = new

abbrev pub updated : PreferenceUpdate → Preferences → Preferences
updated fields p = record {
  email_workload = or_old p.email_workload fields.email_workload;
  email_scheduling = or_old p.email_scheduling fields.email_scheduling;
  email_approval = or_old p.email_approval fields.email_approval;
  email_execution = or_old p.email_execution fields.email_execution;
}

unfoldable pub update_preferences : Store → ℕ → PreferenceUpdate → Result NotifyError Store
update_preferences s user_id fields = do
  (t, p) ← get_or_create_preferences s user_id
  ok (record t { preferences = insert user_id (updated fields p) t.preferences })

abbrev pub preference : Category → Preferences → Bool
preference workload p = p.email_workload
preference scheduling p = p.email_scheduling
preference approval p = p.email_approval
preference execution p = p.email_execution
preference other p = true

-- Whether an e-mail may be sent, with the row of preferences that this may create.
unfoldable pub email_allowed_by_preference :
    Store → ℕ → Category → Result NotifyError (Store × Bool)
email_allowed_by_preference s user_id other = ok (s, true)
email_allowed_by_preference s user_id category = do
  (t, p) ← get_or_create_preferences s user_id
  ok (t, preference category p)

pub record NotificationRequest : Type 0 where
  pub event_type : Text
  pub category : Category
  pub job_id : Option Text
  pub action_url : Option Text
  pub dedup_suffix : Option Text
  pub email_required : Bool

abbrev pub request_key : NotificationRequest → Text
request_key q = dedup_key_of q.event_type q.job_id q.dedup_suffix

abbrev pub or_default : Option Text → Option Text → Option Text
or_default none d = d
or_default (some u) d = some u

abbrev pub status_for : Bool → EmailStatus
status_for true = pending
status_for false = not_required

abbrev pub new_notification : ℕ → ℕ → NotificationRequest → Bool → ℕ → Notification
new_notification now recipient q email_required id = record {
  id = id;
  recipient_user_id = recipient;
  job_id = q.job_id;
  event_type = q.event_type;
  category = q.category;
  action_url = or_default q.action_url (default_action_url q.category q.job_id q.event_type);
  created_at = now;
  read_at = none;
  dedup_key = request_key q;
  email_required = email_required;
  email_status = status_for email_required;
}

-- The unique pair of columns.
abbrev pub is_at : ℕ → Text → Notification → Bool
is_at recipient key n = n.recipient_user_id == recipient && text_eq n.dedup_key key

abbrev pub is_present : ℕ → Text → Store → Bool
is_present recipient key s = any (is_at recipient key) s.notifications

-- The commit, which the constraints of the table may stop.
abbrev pub insert_notification :
    ℕ → ℕ → NotificationRequest → Bool → Store → Store × Option Notification
insert_notification now recipient q email_required s =
    let n = new_notification now recipient q email_required s.next_id in
    if is_present recipient (request_key q) s || not (is_user s recipient)
    then (s, none)
    else (record s { notifications = n ∷ s.notifications; next_id = suc s.next_id }, some n)

-- The check, and what others commit before the row is inserted.
abbrev pub checked_insert :
    (Store → Store) → ℕ → ℕ → NotificationRequest → Store × Bool → Store × Option Notification
checked_insert outside now recipient q (s, email_required) =
    if is_present recipient (request_key q) s
    then (s, none)
    else insert_notification now recipient q email_required (outside s)

abbrev pub gate_email : Store → ℕ → NotificationRequest → Result NotifyError (Store × Bool)
gate_email s recipient q =
    let asked = email_allowed_by_preference s recipient q.category in
    if q.email_required then asked else ok (s, false)

unfoldable pub create_notification :
    (Store → Store)
    → ℕ
    → ℕ
    → NotificationRequest
    → Store
    → Result NotifyError (Store × Option Notification)
create_notification outside now recipient q s = do
  gated ← gate_email s recipient q
  ok (checked_insert outside now recipient q gated)

abbrev pub kept : Option Notification → List Notification → List Notification
kept none ns = ns
kept (some n) ns = n ∷ ns

-- One recipient after the other; what is raised ends the loop.
unfoldable pub notify_users :
    ℕ → List ℕ → NotificationRequest → Store → Result NotifyError (Store × List Notification)
notify_users now [] q s = ok (s, [])
notify_users now (uid ∷ uids) q s = do
  (t, n) ← create_notification (λ u. u) now uid q s
  (last, ns) ← notify_users now uids q t
  ok (last, kept n ns)

abbrev pub is_platform_admin_role : UserRole → Bool
is_platform_admin_role platform_admin = true
is_platform_admin_role _ = false

abbrev pub is_company_admin_role : UserRole → Bool
is_company_admin_role company_admin = true
is_company_admin_role _ = false

abbrev pub is_tenant_admin : String → Recipient → Bool
is_tenant_admin tenant_id u =
    option_eq str_eq u.tenant_id (some tenant_id) && (is_company_admin_role u.role && u.is_active)

abbrev pub tenant_admins : Store → Option String → List Recipient
tenant_admins s none = []
tenant_admins s (some t) = if has_tenant (some t) then keep_if (is_tenant_admin t) s.users else []

abbrev pub is_global_admin : Recipient → Bool
is_global_admin u = is_platform_admin_role u.role && (not (is_some u.tenant_id) && u.is_active)

abbrev pub platform_admins : Store → List Recipient
platform_admins s = keep_if is_global_admin s.users

abbrev pub ids : List Recipient → List ℕ
ids = map (λ u. u.id)

unfoldable pub resolve_tenant_admin_user_ids : Store → Option String → List ℕ
resolve_tenant_admin_user_ids s tenant_id = ids (tenant_admins s tenant_id)

unfoldable pub resolve_platform_admin_user_ids : Store → List ℕ
resolve_platform_admin_user_ids s = ids (platform_admins s)

abbrev pub is_unread : ℕ → Notification → Bool
is_unread recipient n = n.recipient_user_id == recipient && not (is_some n.read_at)

unfoldable pub get_unread_count : Store → ℕ → ℕ
get_unread_count s recipient = length (keep_if (is_unread recipient) s.notifications)

abbrev pub read_now : ℕ → Notification → Notification
read_now now n = record n { read_at = some now }

-- The row of that id, where it is the caller's, is read unless it was.
unfoldable pub mark_read : ℕ → ℕ → ℕ → Store → Store
mark_read now recipient notification_id s = record s {
  notifications =
      map (λ n. if n.id == notification_id && is_unread recipient n then read_now now n else n)
        s.notifications;
}

-- The number of rows that are changed.
unfoldable pub mark_all_read : ℕ → ℕ → Store → Store × ℕ
mark_all_read now recipient s = (
  record s {
    notifications = map (λ n. if is_unread recipient n then read_now now n else n) s.notifications;
  },
  length (keep_if (is_unread recipient) s.notifications),
)
