-- ===== src/RateLimit.antt =====
-- app/api/rate_limit.py: the sliding-window rate limiter. Times are microseconds of the monotonic
-- clock, and the window is given in them; the lock makes a check one step.
pub mod Window
mod Tests
use green_shift.Prelude.Dict.{lookup, insert, string_eq}
use green_shift.Prelude.{
  ℕ, ◌+◌, ◌-◌, ◌/◌, Bool, true, false, not, String, Option, none, some, List, [], ◌∷◌, ◌++◌,
  if◌then◌else◌, ltb, leb, length, keep_if, str_eq,
}

pub record RateLimiter : Type 0 where
  pub max_requests : ℕ
  pub window : ℕ
  pub windows : List (String × List ℕ)

abbrev pub or_empty : Option (List ℕ) → List ℕ
or_empty none = []
or_empty (some ts) = ts

-- A key that is missing gets an empty window.
abbrev pub window_of : RateLimiter → String → List ℕ
window_of r key = or_empty (lookup key r.windows)

-- The loop that pops while the oldest time is before `now - window`.
unfoldable pub evict : ℕ → ℕ → List ℕ → List ℕ
evict window now [] = []
evict window now (t ∷ ts) =
    let rest = evict window now ts in if ltb (t + window) now then rest else t ∷ ts

-- The answer 429 carries the seconds to wait; a limit of 0 fails on the empty window.
pub data Outcome : Type 0 where
  allowed index_error : Outcome
  limited : ℕ → Outcome

abbrev pub refusal : ℕ → ℕ → List ℕ → Outcome
refusal window now [] = index_error
refusal window now (t ∷ ts) = limited ((window - (now - t)) / 1_000_000 + 1)

-- From the evicted window on.
unfoldable pub answer : RateLimiter → String → ℕ → List ℕ → RateLimiter × Outcome
answer r client_key now kept =
    if leb r.max_requests (length kept)
    then (record r { windows = insert client_key kept r.windows }, refusal r.window now kept)
    else (record r { windows = insert client_key (kept ++ now ∷ []) r.windows }, allowed)

unfoldable pub check : RateLimiter → String → ℕ → RateLimiter × Outcome
check r client_key now = answer r client_key now (evict r.window now (window_of r client_key))

abbrev without : String → List (String × List ℕ) → List (String × List ℕ)
without key windows = keep_if (λ entry. not (str_eq entry.0 key)) windows

-- An empty key resets every window, as None does.
unfoldable pub reset : RateLimiter → Option String → RateLimiter
reset r none = record r { windows = [] }
reset r (some key) =
    if str_eq key ""
    then record r { windows = [] }
    else record r { windows = without key r.windows }
