-- ===== src/Policy/Validation.antt =====
-- Which tolerances app/decide/optimization_policy.py accepts.
use green_shift.Policy.{
  Value, numeric, not_numeric, finite, negative, nan, infinity, minus_infinity,
  validate_carbon_tolerance_pct, max_carbon_tolerance_pct,
}
use green_shift.Prelude.Result.{ok}
use green_shift.Prelude.{ℕ, ◌≤◌, ◌≡◌, ◌↔◌, ◌⊎◌, arith}

-- A tolerance is accepted exactly when it is a number between 0 and 100 (zero may have a sign), and
-- the percentage that is applied is the one that was given.
pub validate_carbon_tolerance_pct_iff :
    (given : Value) (pct : ℕ)
    → (validate_carbon_tolerance_pct given ≡ ok pct) ↔ (
        (given ≡ numeric (finite pct)) × (pct ≤ max_carbon_tolerance_pct)
        ⊎ (given ≡ numeric (negative 0)) × (pct ≡ 0))
unfolding validate_carbon_tolerance_pct
validate_carbon_tolerance_pct_iff not_numeric pct = ground arith
validate_carbon_tolerance_pct_iff (numeric (finite n)) pct = ground arith
validate_carbon_tolerance_pct_iff (numeric (negative n)) pct = ground arith
validate_carbon_tolerance_pct_iff (numeric nan) pct = ground arith
validate_carbon_tolerance_pct_iff (numeric infinity) pct = ground arith
validate_carbon_tolerance_pct_iff (numeric minus_infinity) pct = ground arith
