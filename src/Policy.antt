-- ===== src/Policy.antt =====
-- app/decide/optimization_policy.py: the optimization policies, their validation, and the ranking
-- of feasible candidates. A carbon or cost figure is a number of nano units (1e-9 kg, 1e-9 USD),
-- a percentage a number of nano percent; the source's floats are read as exact decimals.
pub mod Rounding
pub mod Ranking
pub mod Validation
mod Tests
use green_shift.Prelude.Result.{Result, ok, err, ◌>>=◌}
use green_shift.Prelude.Sort.{sort_by}
use green_shift.Prelude.{
  ℕ, ◌+◌, ◌*◌, ◌/◌, ◌%◌, Bool, true, false, not, Option, none, some, List, [], ◌∷◌, ◌++◌,
  if◌then◌else◌, ltb, leb, ◌==◌, keep_if,
}

pub data OptimizationPolicy : Type 0 where
  carbon_first cost_first carbon_constrained : OptimizationPolicy

abbrev pub default_policy : OptimizationPolicy
default_policy = carbon_first

-- 1e-6 in nano units: CARBON_EPSILON and COST_EPSILON.
abbrev pub carbon_epsilon : ℕ
carbon_epsilon = 1000

abbrev pub cost_epsilon : ℕ
cost_epsilon = 1000

-- 100.0 and 5.0 percent in nano percent.
abbrev pub max_carbon_tolerance_pct : ℕ
max_carbon_tolerance_pct = 100_000_000_000

abbrev pub default_carbon_tolerance_pct : ℕ
default_carbon_tolerance_pct = 5_000_000_000

-- What `float(value)` may give; `negative n` is -n.
pub data Float : Type 0 where
  finite : ℕ → Float
  negative : ℕ → Float
  nan infinity minus_infinity : Float

-- A value as it comes in: `float(value)` raises on what is not numeric.
pub data Value : Type 0 where
  numeric : Float → Value
  not_numeric : Value

pub data InvalidOptimizationPolicyError : Type 0 where
  bad_policy tolerance_not_numeric tolerance_not_finite tolerance_out_of_range :
      InvalidOptimizationPolicyError

check_range : Float → Result InvalidOptimizationPolicyError ℕ
check_range nan = err tolerance_not_finite
check_range infinity = err tolerance_not_finite
check_range minus_infinity = err tolerance_not_finite
check_range (finite pct) =
    if ltb max_carbon_tolerance_pct pct then err tolerance_out_of_range else ok pct
check_range (negative pct) = if ltb 0 pct then err tolerance_out_of_range else ok 0

unfoldable pub validate_carbon_tolerance_pct : Value → Result InvalidOptimizationPolicyError ℕ
unfolding check_range
validate_carbon_tolerance_pct not_numeric = err tolerance_not_numeric
validate_carbon_tolerance_pct (numeric pct) = check_range pct

-- `round(x / 1e-6)`: to the nearest whole number of epsilons, a tie to the even one.
unfoldable pub round_epsilon : ℕ → ℕ
round_epsilon x =
    let quotient = x / 1000 in
    let rest = x % 1000 in
    if ltb rest 500
    then quotient
    else if ltb 500 rest
    then quotient + 1
    else if quotient % 2 == 0
    then quotient
    else quotient + 1

-- `x or 0.0`
abbrev pub or_zero : Option ℕ → ℕ
or_zero none = 0
or_zero (some x) = x

abbrev pub lesser : ℕ → ℕ → ℕ
lesser a b = if leb a b then a else b

-- carbon <= min_carbon * (1 + pct / 100) + CARBON_EPSILON, multiplied out.
unfoldable pub within_tolerance : ℕ → ℕ → ℕ → Bool
within_tolerance least pct carbon =
    leb (carbon * 100_000_000_000)
      (least * (100_000_000_000 + pct) + carbon_epsilon * 100_000_000_000)

-- The tolerance to apply when none is passed is the default one.
abbrev pub given_or_default : Option Value → Value
given_or_default none = numeric (finite default_carbon_tolerance_pct)
given_or_default (some v) = v

module _ {ℓ} {C : Type ℓ} (carbon_of cost_of : C → Option ℕ) (start_of : C → ℕ) where
  abbrev pub carbon : C → ℕ
  carbon c = or_zero (carbon_of c)

  abbrev pub cost : C → ℕ
  cost c = or_zero (cost_of c)

  -- `min(carbon_of(c) or 0.0 for c in candidates)`, for candidates `c ∷ cs`.
  pub min_carbon_kg : C → List C → ℕ
  min_carbon_kg c [] = carbon c
  min_carbon_kg c (d ∷ ds) = lesser (carbon c) (min_carbon_kg d ds)

  abbrev pub carbon_first_key : C → List ℕ
  carbon_first_key c = round_epsilon (carbon c) ∷ round_epsilon (cost c) ∷ start_of c ∷ []

  abbrev pub cost_first_key : C → List ℕ
  cost_first_key c = round_epsilon (cost c) ∷ round_epsilon (carbon c) ∷ start_of c ∷ []

  abbrev pub within_key : C → List ℕ
  within_key c = round_epsilon (cost c) ∷ start_of c ∷ []

  -- The two loops of CARBON_CONSTRAINED, with the limit that the least carbon gives.
  pub rank_constrained : ℕ → ℕ → List C → List C
  rank_constrained least pct cs =
      sort_by within_key (keep_if (λ c. within_tolerance least pct (carbon c)) cs)
      ++ sort_by carbon_first_key (keep_if (λ c. not (within_tolerance least pct (carbon c))) cs)

  unfoldable pub rank_feasible_candidates :
      List C → OptimizationPolicy → Option Value → Result InvalidOptimizationPolicyError (List C)
  unfolding validate_carbon_tolerance_pct rank_constrained min_carbon_kg
  rank_feasible_candidates [] policy tolerance = ok []
  rank_feasible_candidates (c ∷ cs) carbon_first tolerance = ok (sort_by carbon_first_key (c ∷ cs))
  rank_feasible_candidates (c ∷ cs) cost_first tolerance = ok (sort_by cost_first_key (c ∷ cs))
  rank_feasible_candidates (c ∷ cs) carbon_constrained tolerance = do
    pct ← validate_carbon_tolerance_pct (given_or_default tolerance)
    ok (rank_constrained (min_carbon_kg c cs) pct (c ∷ cs))
