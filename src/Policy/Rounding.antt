-- ===== src/Policy/Rounding.antt =====
-- Rounding to whole epsilons in app/decide/optimization_policy.py.
use green_shift.Policy.{round_epsilon, within_tolerance}
use green_shift.Prelude.{ℕ, ◌+◌, ◌*◌, ◌≤◌, ◌≡◌, true, arith}

pub round_epsilon_bounds :
    (x : ℕ) → (1000 * round_epsilon x ≤ x + 500) × (x ≤ 1000 * round_epsilon x + 500)
unfolding round_epsilon
round_epsilon_bounds x = ground arith

pub round_epsilon_mono : (a b : ℕ) → a ≤ b → round_epsilon a ≤ round_epsilon b
unfolding round_epsilon
round_epsilon_mono a b h = ground arith

-- Rounded figures in order differ by at most one epsilon before rounding.
pub round_epsilon_gap : (a b : ℕ) → round_epsilon a ≤ round_epsilon b → a ≤ b + 1000
round_epsilon_gap a b h = omega (arith, round_epsilon_bounds a, round_epsilon_bounds b)

-- The least carbon is within its own limit.
pub within_tolerance_self : (least pct : ℕ) → within_tolerance least pct least ≡ true
unfolding within_tolerance
within_tolerance_self least pct = grind arith
