-- ===== src/Policy/Tests.antt =====
-- Three candidate windows ranked under each policy, and the theorems at them.
use green_shift.Policy.{
  carbon_first, cost_first, carbon_constrained, Value, numeric, finite, rank_feasible_candidates,
  round_epsilon, within_tolerance, validate_carbon_tolerance_pct, within_key, or_zero,
}
use green_shift.Policy.Ranking.{IsWithin, rank-carbon_constrained}
use green_shift.Prelude.Result.{ok}
use green_shift.Prelude.Sort.{sort_by, ◌≼◌}
use green_shift.Prelude.{ℕ, ◌≡◌, refl, true, Option, none, some, List, [], ◌∷◌, All, any, ◌==◌, ◌≤◌}

record Window : Type 0 where
  carbon : Option ℕ
  cost : Option ℕ
  start : ℕ

-- 2 kg and 5 USD at 0, 2.05 kg and 3 USD at 1, 3 kg and 1 USD at 2.
abbrev early : Window
early = record { carbon = some 2_000_000_000; cost = some 5_000_000_000; start = 0 }

abbrev middle : Window
middle = record { carbon = some 2_050_000_000; cost = some 3_000_000_000; start = 1 }

abbrev late : Window
late = record { carbon = some 3_000_000_000; cost = some 1_000_000_000; start = 2 }

abbrev windows : List Window
windows = middle ∷ late ∷ early ∷ []

abbrev five_percent : Value
five_percent = numeric (finite 5_000_000_000)

ranked_by_carbon :
    rank_feasible_candidates (λ w. w.carbon) (λ w. w.cost) (λ w. w.start) windows carbon_first none
    ≡ ok (early ∷ middle ∷ late ∷ [])
unfolding rank_feasible_candidates round_epsilon sort_by
ranked_by_carbon = refl

ranked_by_cost :
    rank_feasible_candidates (λ w. w.carbon) (λ w. w.cost) (λ w. w.start) windows cost_first none
    ≡ ok (late ∷ middle ∷ early ∷ [])
unfolding rank_feasible_candidates round_epsilon sort_by
ranked_by_cost = refl

ranked_within_five_percent :
    rank_feasible_candidates
      (λ w. w.carbon)
      (λ w. w.cost)
      (λ w. w.start)
      windows
      carbon_constrained
      (some five_percent)
    ≡ ok (middle ∷ early ∷ late ∷ [])
unfolding rank_feasible_candidates round_epsilon within_tolerance sort_by
ranked_within_five_percent = refl

abbrev least : ℕ
least = 2_000_000_000

five_percent_valid : validate_carbon_tolerance_pct five_percent ≡ ok 5_000_000_000
unfolding validate_carbon_tolerance_pct
five_percent_valid = refl

rank-carbon_constrained_example :
    (l : ℕ) × (any (λ (d : Window). or_zero d.carbon == l) (middle ∷ late ∷ early ∷ []) ≡ true)
    × All (λ (d : Window). l ≤ or_zero d.carbon) (middle ∷ late ∷ early ∷ [])
    × IsWithin l 5_000_000_000 2_050_000_000
    × All
        (λ (d : Window).
          IsWithin l 5_000_000_000 (or_zero d.carbon)
          → within_key (λ (w : Window). w.carbon) (λ w. w.cost) (λ w. w.start) middle
            ≼ within_key (λ (w : Window). w.carbon) (λ w. w.cost) (λ w. w.start) d)
        (middle ∷ late ∷ early ∷ [])
rank-carbon_constrained_example =
    rank-carbon_constrained (λ w. w.carbon) (λ w. w.cost) (λ w. w.start) middle (late ∷ early ∷ [])
      five_percent 5_000_000_000 middle (early ∷ late ∷ []) five_percent_valid
      ranked_within_five_percent
