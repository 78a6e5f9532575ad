-- ===== src/RateLimit/Tests.antt =====
-- A limit of two requests a minute, and the theorem at it.
use green_shift.RateLimit.{RateLimiter, window_of, evict, allowed, limited, answer, check, reset}
use green_shift.RateLimit.Window.{recent, check_lem}
use green_shift.Prelude.Dict.{lookup, insert}
use green_shift.Prelude.{
  ◌<◌, ◌≡◌, ◌↔◌, refl, String, some, [], ◌∷◌, ◌++◌, arith, if◌then◌else◌, leb, length, str_eq,
}

program : Unit {0}
unfolding lookup insert evict answer check reset
program = tt

abbrev limiter : RateLimiter
limiter = record {
  max_requests = 2;
  window = 60_000_000;
  windows = ("x", 10_000_000 ∷ 20_000_000 ∷ []) ∷ [];
}

third_is_limited : (check limiter "x" 65_000_000).1 ≡ limited 6
unfolding program
third_is_limited = refl

allowed_when_the_first_is_old : (check limiter "x" 71_000_000).1 ≡ allowed
unfolding program
allowed_when_the_first_is_old = refl

reset_forgets : window_of (reset limiter (some "x")) "x" ≡ []
unfolding program
reset_forgets = refl

check_lem_example :
    (((check limiter "x" 71_000_000).1 ≡ allowed)
      ↔ (length (recent 60_000_000 71_000_000 (10_000_000 ∷ 20_000_000 ∷ [])) < 2))
    × ((k : String)
        → window_of (check limiter "x" 71_000_000).0 k ≡ (
            if str_eq k "x"
            then recent 60_000_000 71_000_000 (10_000_000 ∷ 20_000_000 ∷ [])
              ++ (if leb 2 (length (recent 60_000_000 71_000_000 (10_000_000 ∷ 20_000_000 ∷ [])))
                  then []
                  else 71_000_000 ∷ [])
            else window_of limiter k))
unfolding program
check_lem_example =
    check_lem limiter "x" 20_000_000 71_000_000 (10_000_000 ∷ 20_000_000 ∷ [])
      ((omega arith, tt), (tt, tt)) (omega arith) refl
