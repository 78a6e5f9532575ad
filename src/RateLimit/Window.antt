-- ===== src/RateLimit/Window.antt =====
-- The window of a client of app/api/rate_limit.py is what its whole history says.
use mathlib.Core.List.{append-nil}
use green_shift.RateLimit.{RateLimiter, window_of, evict, allowed, answer, refusal, or_empty, check}
use green_shift.Prelude.Dict.{insert, lookup-insert, string_eq}
use green_shift.Prelude.{
  ℕ, ◌+◌, ◌≤◌, ◌<◌, ◌≢◌, leb→le, ◌≡◌, ◌↔◌, refl, sym, ap, ◌∙◌, Bool, true, false, not, String,
  Option, some, List, [], ◌∷◌, ◌++◌, arith, All, All-map_of, All-keep_if_of, if◌then◌else◌, ltb,
  leb, length, keep_if, str_eq, Bool-cases, inl, inr,
}

-- Times in the order of the requests.
abbrev pub IsAscending : List ℕ → Type 0
IsAscending [] = Unit
IsAscending (t ∷ ts) = All (λ s. t ≤ s) ts × IsAscending ts

-- The times of a history that are not before `now - window`.
abbrev pub recent : ℕ → ℕ → List ℕ → List ℕ
recent window now history = keep_if (λ t. not (ltb (t + window) now)) history

recent_same :
    (window now : ℕ) (ts : List ℕ) → All (λ t. now ≤ t + window) ts → recent window now ts ≡ ts
recent_same window now [] h = refl
recent_same window now (t ∷ ts) h = ground (arith, recent_same window now ts h.1, h.0)

-- Popping from the front finds every old time, since the times ascend.
evict-recent :
    (window now : ℕ) (ts : List ℕ) → IsAscending ts → evict window now ts ≡ recent window now ts
unfolding evict
evict-recent window now [] up = refl
evict-recent window now (t ∷ ts) up = elim (Bool-cases (ltb (t + window) now)) [
  | inl old ↦ rw old (evict-recent window now ts up.1)
  | inr new ↦ rw new (
      ap (λ l. t ∷ l)
        (sym (recent_same window now ts (All-map_of (λ s less. ground arith) ts up.0))))
]

recent-recent :
    (window prior now : ℕ) (ts : List ℕ)
    → prior ≤ now
    → recent window now (recent window prior ts) ≡ recent window now ts
recent-recent window prior now [] h = refl
recent-recent window prior now (t ∷ ts) h = ground (arith, recent-recent window prior now ts h)

All-recent :
    (P : ℕ → Type 0) (window now : ℕ) (ts : List ℕ) → All P ts → All P (recent window now ts)
All-recent P window now ts h = All-keep_if_of (λ t. not (ltb (t + window) now)) P ts h

recent-IsAscending :
    (window now : ℕ) (ts : List ℕ) → IsAscending ts → IsAscending (recent window now ts)
recent-IsAscending window now [] up = tt
recent-IsAscending window now (t ∷ ts) up = elim (Bool-cases (ltb (t + window) now)) [
  | inl old ↦ rw old (recent-IsAscending window now ts up.1)
  | inr new ↦
      rw new (All-recent (λ s. t ≤ s) window now ts up.0, recent-IsAscending window now ts up.1)
]

refusal-not_allowed : (window now : ℕ) (ts : List ℕ) → refusal window now ts ≢ allowed
refusal-not_allowed window now [] h = cc
refusal-not_allowed window now (t ∷ ts) h = cc

or_empty-if :
    (b : Bool) (ts : List ℕ) (o : Option (List ℕ))
    → or_empty (if b then some ts else o) ≡ (if b then ts else or_empty o)
or_empty-if true ts o = refl
or_empty-if false ts o = refl

window_of-insert :
    (r : RateLimiter) (key k : String) (ts : List ℕ)
    → window_of (record r { windows = insert key ts r.windows }) k
      ≡ (if str_eq k key then ts else window_of r k)
window_of-insert r key k ts =
    ap or_empty (lookup-insert key k ts r.windows) ∙ or_empty-if (str_eq k key) ts _

answer_lem :
    (r : RateLimiter) (key : String) (now : ℕ) (kept : List ℕ)
    → (((answer r key now kept).1 ≡ allowed) ↔ (length kept < r.max_requests))
      × ((k : String)
          → window_of (answer r key now kept).0 k ≡ (
              if str_eq k key
              then kept ++ (if leb r.max_requests (length kept) then [] else now ∷ [])
              else window_of r k))
unfolding answer
answer_lem r key now kept = elim (Bool-cases (leb r.max_requests (length kept))) [
  | inl full ↦ rw full (
    (
      λ h. absurd (refusal-not_allowed r.window now kept h),
      λ h. absurd (omega (arith, leb→le r.max_requests (length kept) full)),
    ),
    λ k. rw (append-nil kept) (window_of-insert r key k kept),
  )
  | inr room ↦
      rw room ((λ h. ground arith, λ h. refl), λ k. window_of-insert r key k (kept ++ now ∷ []))
]

-- For a client whose window was what its history had at an earlier time: a request is allowed
-- exactly when fewer than the limit of its allowed requests lie within the window before it; its
-- window is afterwards what the history then has, with the request where it is allowed; and no
-- other client's window changes.
pub check_lem :
    (r : RateLimiter) (key : String) (prior now : ℕ) (history : List ℕ)
    → IsAscending history
    → prior ≤ now
    → window_of r key ≡ recent r.window prior history
    → (((check r key now).1 ≡ allowed) ↔ (length (recent r.window now history) < r.max_requests))
      × ((k : String)
          → window_of (check r key now).0 k ≡ (
              if str_eq k key
              then recent r.window now history
                ++ (if leb r.max_requests (length (recent r.window now history))
                    then []
                    else now ∷ [])
              else window_of r k))
unfolding check
check_lem r key prior now history up later same =
    let kept : recent r.window now history ≡ evict r.window now (window_of r key) = sym (
      ap (evict r.window now) same
      ∙ (evict-recent r.window now (recent r.window prior history)
            (recent-IsAscending r.window prior history up)
          ∙ recent-recent r.window prior now history later)) in
    rw kept (answer_lem r key now (evict r.window now (window_of r key)))
