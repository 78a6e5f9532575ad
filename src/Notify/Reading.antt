-- ===== src/Notify/Reading.antt =====
-- Reading notifications in app/notify/service.py.
use green_shift.Notify.{
  Notification, Store, is_unread, get_unread_count, read_now, mark_read, mark_all_read,
}
use green_shift.Prelude.{
  ℕ, ◌+◌, ◌≡◌, refl, Bool, not, ◌&&◌, List, [], ◌∷◌, map, if◌then◌else◌, ◌==◌, keep_if, length,
  arith,
}

abbrev pub count : ℕ → List Notification → ℕ
count v ns = length (keep_if (is_unread v) ns)

abbrev read_all : ℕ → ℕ → List Notification → List Notification
read_all now u = map (λ n. if is_unread u n then read_now now n else n)

count-read_all :
    (now u v : ℕ) (ns : List Notification)
    → count v (read_all now u ns) ≡ (if v == u then 0 else count v ns)
count-read_all now u v [] = ground arith
count-read_all now u v (n ∷ ns) = ground (arith, count-read_all now u v ns)

-- The rows of others, and what is not the time of reading.
abbrev pub is_other : ℕ → Notification → Bool
is_other u n = not (n.recipient_user_id == u)

others-read_all :
    (now u : ℕ) (ns : List Notification)
    → keep_if (is_other u) (read_all now u ns) ≡ keep_if (is_other u) ns
others-read_all now u [] = refl
others-read_all now u (n ∷ ns) = ground (arith, others-read_all now u ns)

abbrev read_one : ℕ → ℕ → ℕ → List Notification → List Notification
read_one now u id = map (λ n. if n.id == id && is_unread u n then read_now now n else n)

others-read_one :
    (now u id : ℕ) (ns : List Notification)
    → keep_if (is_other u) (read_one now u id ns) ≡ keep_if (is_other u) ns
others-read_one now u id [] = refl
others-read_one now u id (n ∷ ns) = ground (arith, others-read_one now u id ns)

-- Those of that id that are unread.
abbrev pub is_picked : ℕ → ℕ → Notification → Bool
is_picked u id n = n.id == id && is_unread u n

count-read_one :
    (now u id : ℕ) (ns : List Notification)
    → count u (read_one now u id ns) + length (keep_if (is_picked u id) ns) ≡ count u ns
count-read_one now u id [] = omega arith
count-read_one now u id (n ∷ ns) = ground (arith, count-read_one now u id ns)

-- Reading all notifications leaves the reader none that is unread, and reading one leaves as many
-- less as there are unread ones of that id among the reader's. The number that reading
-- all returns is that of the unread ones before, and neither changes the rows of others.
mark_all_read-get_unread_count :
    (now u v id : ℕ) (s : Store)
    → (get_unread_count (mark_all_read now u s).0 v ≡ (if v == u then 0 else get_unread_count s v))
      × (get_unread_count (mark_read now u id s) u
            + length (keep_if (is_picked u id) s.notifications)
          ≡ get_unread_count s u)
      × (keep_if (is_other u) (mark_all_read now u s).0.notifications
          ≡ keep_if (is_other u) s.notifications)
      × (keep_if (is_other u) (mark_read now u id s).notifications
          ≡ keep_if (is_other u) s.notifications)
      × ((mark_all_read now u s).1 ≡ get_unread_count s u)
unfolding get_unread_count mark_all_read mark_read
mark_all_read-get_unread_count now u v id s = (
  count-read_all now u v s.notifications,
  count-read_one now u id s.notifications,
  others-read_all now u s.notifications,
  others-read_one now u id s.notifications,
  refl,
)
