-- ===== src/Notify/Once.antt =====
-- A notification of app/notify/service.py is created once, with the e-mail that its recipient wants.
use green_shift.Notify.{
  Category, workload, scheduling, approval, execution, other, Preferences, Notification,
  NotificationRequest, Store, all_enabled, is_user, create_preferences, get_or_create_preferences,
  preference, email_allowed_by_preference, gate_email,
}
use green_shift.Prelude.Dict.{lookup, insert, nat_eq}
use green_shift.Prelude.Result.{ok, >>=-eq-ok, ok-injective, ◌>>=◌}
use green_shift.Prelude.Texts.{text_eq}
use green_shift.Prelude.{
  ◌==◌, ℕ, ◌≡◌, refl, ap, subst, Bool, true, false, ◌&&◌, Option, none, some, List, IsUnique,
  Bool-cases, inl, inr,
}

-- At most one row for a recipient and a key.
abbrev pub AreOnce : List Notification → Type 0
AreOnce =
    IsUnique (λ m n. n.recipient_user_id == m.recipient_user_id && text_eq n.dedup_key m.dedup_key)

abbrev pub or_enabled : Option Preferences → Preferences
or_enabled none = all_enabled
or_enabled (some p) = p

-- Whether the recipient's stored preferences, or those of a new row, allow an e-mail.
abbrev pub wants_email : Store → ℕ → Category → Bool
wants_email s recipient category = preference category (or_enabled (lookup recipient s.preferences))

abbrev pub HasSameTables : Store → Store → Type 0
HasSameTables s t =
    (t.notifications ≡ s.notifications) × (t.users ≡ s.users) × (t.next_id ≡ s.next_id)

create_preferences_lem :
    (s : Store) (user_id : ℕ) (o : Option Preferences) (r : Store × Preferences)
    → create_preferences s user_id o ≡ ok r
    → HasSameTables s r.0 × (r.1 ≡ or_enabled o)
create_preferences_lem s user_id (some p) r h =
    subst (λ x. HasSameTables s x.0 × (x.1 ≡ p)) (ok-injective h) ((refl, refl, refl), refl)
create_preferences_lem s user_id none r h = elim (Bool-cases (is_user s user_id)) [
  | inl there ↦
      subst (λ x. HasSameTables s x.0 × (x.1 ≡ all_enabled)) (ok-injective (rw there at h))
        ((refl, refl, refl), refl)
  | inr missing ↦ absurd (cc (rw missing at h))
]

abbrev IsAllowed : Store → ℕ → Category → Store × Bool → Type 0
IsAllowed s recipient category r = HasSameTables s r.0 × (r.1 ≡ wants_email s recipient category)

gated :
    (s : Store) (recipient : ℕ) (category : Category) (r : Store × Bool)
    → (get_or_create_preferences s recipient >>= λ p. ok (p.0, preference category p.1)) ≡ ok r
    → IsAllowed s recipient category r
unfolding get_or_create_preferences
gated s recipient category r h =
    let (p, made, e) =
      >>=-eq-ok (create_preferences s recipient (lookup recipient s.preferences))
        (λ p. ok (p.0, preference category p.1)) h in
    let (same, value) =
      create_preferences_lem s recipient (lookup recipient s.preferences) p made in
    subst (IsAllowed s recipient category) (ok-injective e) (same, ap (preference category) value)

allowed_lem :
    (s : Store) (recipient : ℕ) (category : Category) (r : Store × Bool)
    → email_allowed_by_preference s recipient category ≡ ok r
    → IsAllowed s recipient category r
unfolding email_allowed_by_preference
allowed_lem s recipient other r h =
    subst (IsAllowed s recipient other) (ok-injective h) ((refl, refl, refl), refl)
allowed_lem s recipient workload r h = gated s recipient workload r h
allowed_lem s recipient scheduling r h = gated s recipient scheduling r h
allowed_lem s recipient approval r h = gated s recipient approval r h
allowed_lem s recipient execution r h = gated s recipient execution r h

pub gate_email_lem :
    (s : Store) (recipient : ℕ) (q : NotificationRequest) (r : Store × Bool)
    → gate_email s recipient q ≡ ok r
    → HasSameTables s r.0 × (r.1 ≡ q.email_required && wants_email s recipient q.category)
gate_email_lem s recipient q r h = elim (Bool-cases q.email_required) [
  | inl asked ↦ rw asked (allowed_lem s recipient q.category r (rw asked at h))
  | inr not_asked ↦ rw not_asked (
      subst (λ x. HasSameTables s x.0 × (x.1 ≡ false)) (ok-injective (rw not_asked at h))
        ((refl, refl, refl), refl))
]

created :
    (s : Store) (user_id : ℕ) (o : Option Preferences)
    → is_user s user_id ≡ true
    → (r : Store × Preferences) × (create_preferences s user_id o ≡ ok r)
created s user_id (some p) there = ((s, p), refl)
created s user_id none there = (
  (record s { preferences = insert user_id all_enabled s.preferences }, all_enabled),
  rw there refl,
)

allowed_total :
    (s : Store) (recipient : ℕ) (category : Category)
    → is_user s recipient ≡ true
    → (r : Store × Bool) × (email_allowed_by_preference s recipient category ≡ ok r)
unfolding email_allowed_by_preference get_or_create_preferences
allowed_total s recipient other there = ((s, true), refl)
allowed_total s recipient workload there =
    let (p, e) = created s recipient (lookup recipient s.preferences) there in
    ((p.0, preference workload p.1), rw e refl)
allowed_total s recipient scheduling there =
    let (p, e) = created s recipient (lookup recipient s.preferences) there in
    ((p.0, preference scheduling p.1), rw e refl)
allowed_total s recipient approval there =
    let (p, e) = created s recipient (lookup recipient s.preferences) there in
    ((p.0, preference approval p.1), rw e refl)
allowed_total s recipient execution there =
    let (p, e) = created s recipient (lookup recipient s.preferences) there in
    ((p.0, preference execution p.1), rw e refl)

pub gate_email_total :
    (s : Store) (recipient : ℕ) (q : NotificationRequest)
    → is_user s recipient ≡ true
    → (r : Store × Bool) × (gate_email s recipient q ≡ ok r)
gate_email_total s recipient q there = elim (Bool-cases q.email_required) [
  | inl asked ↦ let (r, e) = allowed_total s recipient q.category there in (r, rw asked e)
  | inr not_asked ↦ ((s, false), rw not_asked refl)
]
