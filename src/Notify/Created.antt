-- ===== src/Notify/Created.antt =====
-- `create_notification` of app/notify/service.py: the constraint of the table, and repeated events.
use green_shift.Notify.{
  NotifyError, Notification, NotificationRequest, Store, is_user, request_key, new_notification,
  is_at, is_present, insert_notification, checked_insert, gate_email, create_notification,
}
use green_shift.Notify.Once.{AreOnce, wants_email, gate_email_lem, gate_email_total}
use green_shift.Prelude.Result.{Result, ok, err, ◌>>=◌, >>=-eq-ok, ok-injective}
use green_shift.Prelude.Texts.{Text, text_eq, text_eq_refl}
use green_shift.Prelude.{
  ℕ, ◌≡◌, ◌⊎◌, refl, sym, ap, subst, Bool, true, not, ◌&&◌, ◌||◌, false, ◌==◌, List, ◌∷◌, any, ◌∙◌,
  Option, none, some, Bool-cases, inl, inr, arith,
}

-- There is a row of that recipient and key.
abbrev pub HasRow : ℕ → Text → Store → Type 0
HasRow recipient key t =
    any (λ n. n.recipient_user_id == recipient && text_eq n.dedup_key key) t.notifications ≡ true

-- The new row, which is in the table; or nothing, where the row was there before or the recipient
-- is not a user.
abbrev pub IsReturned : ℕ → Text → Bool → Store × Option Notification → Type 0
IsReturned recipient key email_required (t, o) =
    ((o ≡ none) × (HasRow recipient key t ⊎ (is_user t recipient ≡ false)))
    ⊎ ((m : Notification) × (o ≡ some m)
        × (m.recipient_user_id ≡ recipient)
        × (m.dedup_key ≡ key)
        × (m.email_required ≡ email_required)
        × (m.read_at ≡ none)
        × ((before : List Notification) × (t.notifications ≡ m ∷ before)))

insert_lem :
    (now recipient : ℕ) (q : NotificationRequest) (email_required : Bool) (s : Store)
    → AreOnce s.notifications
    → (let r = insert_notification now recipient q email_required s in
        AreOnce r.0.notifications × IsReturned recipient (request_key q) email_required r)
insert_lem now recipient q email_required s once =
    elim (Bool-cases (is_present recipient (request_key q) s || not (is_user s recipient))) [
      | inl refused ↦ rw refused (once, inl (refl, why refused))
      | inr taken ↦ rw taken (
        (ground (arith, taken), once),
        inr (
          new_notification now recipient q email_required s.next_id,
          refl,
          refl,
          refl,
          refl,
          refl,
          (s.notifications, refl),
        ),
      )
    ]
  where
    why :
        (is_present recipient (request_key q) s || not (is_user s recipient)) ≡ true
        → HasRow recipient (request_key q) s ⊎ (is_user s recipient ≡ false)
    why h = elim (Bool-cases (is_user s recipient)) [
      | inr missing ↦ inr missing
      | inl there ↦ inl (ground (arith, h, there))
    ]

checked_lem :
    (outside : Store → Store) (now recipient : ℕ) (q : NotificationRequest) (s : Store) (b : Bool)
    → ((u : Store) → AreOnce u.notifications → AreOnce (outside u).notifications)
    → AreOnce s.notifications
    → (let r = checked_insert outside now recipient q (s, b) in
        AreOnce r.0.notifications × IsReturned recipient (request_key q) b r)
checked_lem outside now recipient q s b keeps once =
    elim (Bool-cases (is_present recipient (request_key q) s)) [
      | inl there ↦ rw there (once, inl (refl, inl there))
      | inr new ↦ rw new (insert_lem now recipient q b (outside s) (keeps s once))
    ]

-- What becomes of a creation; `err` stands for what is raised.
abbrev pub IsCreated :
    ℕ → NotificationRequest → Store → Result NotifyError (Store × Option Notification) → Type 0
IsCreated recipient q s (err e) = is_user s recipient ≡ false
IsCreated recipient q s (ok r) =
    AreOnce r.0.notifications
    × IsReturned recipient (request_key q) (q.email_required && wants_email s recipient q.category)
        r

checked-IsCreated :
    (outside : Store → Store) (now recipient : ℕ) (q : NotificationRequest) (s : Store)
    (g : Store × Bool)
    → ((u : Store) → AreOnce u.notifications → AreOnce (outside u).notifications)
    → AreOnce s.notifications
    → gate_email s recipient q ≡ ok g
    → IsCreated recipient q s (ok (checked_insert outside now recipient q g))
checked-IsCreated outside now recipient q s g keeps once gates =
    let (same, allowed) = gate_email_lem s recipient q g gates in
    let found =
      checked_lem outside now recipient q g.0 g.1 keeps (subst AreOnce (sym same.0) once) in
    (
      found.0,
      subst (λ b. IsReturned recipient (request_key q) b (checked_insert outside now recipient q g))
          allowed found.1,
    )

gated-IsCreated :
    (outside : Store → Store) (now recipient : ℕ) (q : NotificationRequest) (s : Store)
    (x : Result NotifyError (Store × Bool))
    → ((u : Store) → AreOnce u.notifications → AreOnce (outside u).notifications)
    → AreOnce s.notifications
    → gate_email s recipient q ≡ x
    → IsCreated recipient q s (x >>= λ g. ok (checked_insert outside now recipient q g))
gated-IsCreated outside now recipient q s (ok g) keeps once gates =
    checked-IsCreated outside now recipient q s g keeps once gates
gated-IsCreated outside now recipient q s (err e) keeps once raises =
    elim (Bool-cases (is_user s recipient)) [
      | inr missing ↦ missing
      | inl there ↦
          let (g, gates) = gate_email_total s recipient q there in
          let k : ◌≡◌ {A = Result NotifyError (Store × Bool)} (err e) (ok g) = sym raises ∙ gates in
          absurd cc
    ]

-- Whatever others commit between the check and the insertion, as long as they keep at most one row
-- for a recipient and a key: a creation raises only where the recipient is not a user. Otherwise
-- there is at most one row for a recipient and a key in the end, and either the creation returns
-- an unread row of its recipient and key, which is the newest of the table and asks for an e-mail
-- where one is required and the recipient's preferences for the category allow it; or it returns
-- nothing, and there is a row of that recipient and key, or no such user.
pub create_notification_lem :
    (outside : Store → Store) (now recipient : ℕ) (q : NotificationRequest) (s : Store)
    → ((u : Store) → AreOnce u.notifications → AreOnce (outside u).notifications)
    → AreOnce s.notifications
    → IsCreated recipient q s (create_notification outside now recipient q s)
unfolding create_notification
create_notification_lem outside now recipient q s keeps once =
    gated-IsCreated outside now recipient q s (gate_email s recipient q) keeps once refl

own_row :
    (now recipient : ℕ) (q : NotificationRequest) (email_required : Bool) (id : ℕ)
    → is_at recipient (request_key q) (new_notification now recipient q email_required id) ≡ true
own_row now recipient q email_required id = rw (text_eq_refl (request_key q)) (ground arith)

-- The key is present after an undisturbed creation for a user who exists.
present_after :
    (now recipient : ℕ) (q : NotificationRequest) (s : Store) (b : Bool)
    → is_user s recipient ≡ true
    → is_present recipient (request_key q) (checked_insert (λ u. u) now recipient q (s, b)).0 ≡ true
present_after now recipient q s b there =
    elim (Bool-cases (is_present recipient (request_key q) s)) [
      | inl old ↦ rw old old
      | inr new ↦ rw (new, there, own_row now recipient q b s.next_id) refl
    ]

users_after :
    (now recipient : ℕ) (q : NotificationRequest) (s : Store) (b : Bool)
    → (checked_insert (λ u. u) now recipient q (s, b)).0.users ≡ s.users
users_after now recipient q s b = ground arith

repeated :
    (outside : Store → Store) (now recipient : ℕ) (q : NotificationRequest) (t : Store) (b : Bool)
    → is_present recipient (request_key q) t ≡ true
    → checked_insert outside now recipient q (t, b) ≡ (t, none)
repeated outside now recipient q t b present = rw present refl

-- A later creation with the same key for the same user returns no row, and changes none, also where
-- the texts, the category or the wish for an e-mail differ and whatever others commit meanwhile.
create_notification-again :
    (outside : Store → Store) (now later recipient : ℕ) (q again : NotificationRequest) (s : Store)
    (r : Store × Option Notification)
    → is_user s recipient ≡ true
    → request_key again ≡ request_key q
    → create_notification (λ u. u) now recipient q s ≡ ok r
    → (t : Store) × (create_notification outside later recipient again r.0 ≡ ok (t, none))
      × (t.notifications ≡ r.0.notifications)
unfolding create_notification
create_notification-again outside now later recipient q again s r there key done =
    let (g, gates, e) =
      >>=-eq-ok (gate_email s recipient q) (λ g. ok (checked_insert (λ u. u) now recipient q g))
        done in
    let (same, allowed) = gate_email_lem s recipient q g gates in
    let user_g : is_user g.0 recipient ≡ true = rw same.1 there in
    let made = ok-injective e in
    let present : is_present recipient (request_key q) r.0 ≡ true =
      subst (λ x. is_present recipient (request_key q) x.0 ≡ true) made
        (present_after now recipient q g.0 g.1 user_g) in
    let users : r.0.users ≡ g.0.users =
      subst (λ x. x.0.users ≡ g.0.users) made (users_after now recipient q g.0 g.1) in
    let user_r : is_user r.0 recipient ≡ true = rw users user_g in
    let (h, gates_again) = gate_email_total r.0 recipient again user_r in
    let (same_again, _) = gate_email_lem r.0 recipient again h gates_again in
    let present_h : is_present recipient (request_key again) h.0 ≡ true =
      rw (key, same_again.0) present in
    (
      h.0,
      rw gates_again (ap ok (repeated outside later recipient again h.0 h.1 present_h)),
      same_again.0,
    )
