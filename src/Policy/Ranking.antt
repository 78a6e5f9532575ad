-- ===== src/Policy/Ranking.antt =====
-- What `rank_feasible_candidates` promises: a permutation, best first under each policy.
use mathlib.Core.List.{Perm}
use mathlib.Core.List.Perm
use green_shift.Policy.{
  or_zero, given_or_default, OptimizationPolicy, carbon_first, cost_first, carbon_constrained,
  Value, carbon, cost, carbon_first_key, cost_first_key, within_key, min_carbon_kg,
  rank_constrained, carbon_epsilon, cost_epsilon, rank_feasible_candidates, within_tolerance,
  validate_carbon_tolerance_pct,
}
use green_shift.Policy.Rounding.{round_epsilon_gap, within_tolerance_self}
use green_shift.Prelude.Result.{ok, ok-injective, >>=-eq-ok}
use green_shift.Prelude.Sort.{
  sort_by, ◌≼◌, ≼_head, sort_by-perm, sort_by-least, All-sort_by, All-of-sort_by,
}
use green_shift.Prelude.{
  ℕ, ◌+◌, ◌*◌, ◌≤◌, ◌≡◌, sym, ◌∙◌, subst, Bool, true, false, Option, some, List, [], ◌∷◌, ◌++◌, not,
  arith, All, All-map_of, keep_if, keep_if-append-reject-perm, All-of-keep_if, All-keep_if,
  All-keep_if_of, All-append, List-cases, Bool-cases, leb, ◌≢◌, refl, ◌||◌, any, ◌==◌, ==_iff, inl,
  inr, leb→le, le→leb,
}

-- carbon <= least * (1 + pct / 100) + 1e-6, with the percentage in nano percent.
abbrev pub IsWithin : ℕ → ℕ → ℕ → Type 0
IsWithin least pct x =
    x * 100_000_000_000 ≤ least * (100_000_000_000 + pct) + carbon_epsilon * 100_000_000_000

IsWithin→test : (least pct x : ℕ) → IsWithin least pct x → within_tolerance least pct x ≡ true
unfolding within_tolerance
IsWithin→test least pct x h = le→leb _ _ h

test→IsWithin : (least pct x : ℕ) → within_tolerance least pct x ≡ true → IsWithin least pct x
unfolding within_tolerance
test→IsWithin least pct x h = leb→le _ _ h

or_right : (a b : Bool) → b ≡ true → (a || b) ≡ true
or_right a b h = ground (arith, h)

head-append {ℓ} :
    {A : Type ℓ} (xs ys : List A) {x y : A} {us vs : List A}
    → xs ≡ x ∷ us
    → xs ++ ys ≡ y ∷ vs
    → x ≡ y
head-append [] ys h k = cc
head-append (z ∷ zs) ys h k = cc

module _ {ℓ} {C : Type ℓ} (carbon_of cost_of : C → Option ℕ) (start_of : C → ℕ) where
  rank_constrained-perm :
      (least pct : ℕ) (cs : List C)
      → Perm (rank_constrained carbon_of cost_of start_of least pct cs) cs
  unfolding rank_constrained
  rank_constrained-perm least pct cs =
      Perm.trans (Perm.append (sort_by-perm _ _) (sort_by-perm _ _)) (
        keep_if-append-reject-perm
          (λ c. within_tolerance least pct (carbon carbon_of cost_of start_of c)) cs)

  -- Whatever the policy, a ranking that is returned holds the candidates that were passed in, each
  -- as often.
  pub rank_feasible_candidates-perm :
      (cs : List C) (policy : OptimizationPolicy) (tolerance : Option Value) (ranked : List C)
      → rank_feasible_candidates carbon_of cost_of start_of cs policy tolerance ≡ ok ranked
      → Perm ranked cs
  unfolding rank_feasible_candidates
  rank_feasible_candidates-perm [] policy t ranked e =
      subst (λ l. Perm l []) (ok-injective e) (Perm.refl [])
  rank_feasible_candidates-perm (c ∷ cs) carbon_first t ranked e =
      rw (ok-injective e) at (sort_by-perm (carbon_first_key carbon_of cost_of start_of) (c ∷ cs))
  rank_feasible_candidates-perm (c ∷ cs) cost_first t ranked e =
      rw (ok-injective e) at (sort_by-perm (cost_first_key carbon_of cost_of start_of) (c ∷ cs))
  rank_feasible_candidates-perm (c ∷ cs) carbon_constrained t ranked e =
      let least = min_carbon_kg carbon_of cost_of start_of c cs in
      let (pct, _, done) =
        >>=-eq-ok (validate_carbon_tolerance_pct (given_or_default t))
          (λ pct. ok (rank_constrained carbon_of cost_of start_of least pct (c ∷ cs))) e in
      rw (ok-injective done) at (rank_constrained-perm least pct (c ∷ cs))

  All-rank_constrained {κ} :
      (P : C → Type κ) (least pct : ℕ) (cs : List C)
      → All P cs
      → All P (rank_constrained carbon_of cost_of start_of least pct cs)
  unfolding rank_constrained
  All-rank_constrained P least pct cs h =
      let within : C → Bool =
        λ c. within_tolerance least pct (carbon carbon_of cost_of start_of c) in
      let beyond : C → Bool = λ c. not (within c) in
      All-append P _ _
        (All-sort_by (within_key carbon_of cost_of start_of) P _ (All-keep_if_of within P cs h))
        (All-sort_by (carbon_first_key carbon_of cost_of start_of) P _
          (All-keep_if_of beyond P cs h))

  -- What holds of every candidate holds of every ranked one.
  pub All-rank {κ} :
      (P : C → Type κ) (cs : List C) (policy : OptimizationPolicy) (tolerance : Option Value)
      (ranked : List C)
      → rank_feasible_candidates carbon_of cost_of start_of cs policy tolerance ≡ ok ranked
      → All P cs
      → All P ranked
  unfolding rank_feasible_candidates
  All-rank P [] policy t ranked e h = subst (All P) (ok-injective e) h
  All-rank P (c ∷ cs) carbon_first t ranked e h =
      subst (All P) (ok-injective e)
        (All-sort_by (carbon_first_key carbon_of cost_of start_of) P (c ∷ cs) h)
  All-rank P (c ∷ cs) cost_first t ranked e h =
      subst (All P) (ok-injective e)
        (All-sort_by (cost_first_key carbon_of cost_of start_of) P (c ∷ cs) h)
  All-rank P (c ∷ cs) carbon_constrained t ranked e h =
      let least = min_carbon_kg carbon_of cost_of start_of c cs in
      let (pct, _, done) =
        >>=-eq-ok (validate_carbon_tolerance_pct (given_or_default t))
          (λ pct. ok (rank_constrained carbon_of cost_of start_of least pct (c ∷ cs))) e in
      subst (All P) (ok-injective done) (All-rank_constrained P least pct (c ∷ cs) h)

  abbrev pub CarbonFirstBest : C → C → Type 0
  CarbonFirstBest best c =
      (carbon_first_key carbon_of cost_of start_of best
        ≼ carbon_first_key carbon_of cost_of start_of c)
      × (carbon carbon_of cost_of start_of best
          ≤ carbon carbon_of cost_of start_of c + carbon_epsilon)

  -- Under CARBON_FIRST the first candidate has the least (carbon, cost, start), carbon and cost
  -- rounded to an epsilon, and no candidate has less carbon by more than one epsilon.
  pub rank-carbon_first :
      (cs : List C) (tolerance : Option Value) (best : C) (rest : List C)
      → rank_feasible_candidates carbon_of cost_of start_of cs carbon_first tolerance
        ≡ ok (best ∷ rest)
      → All (CarbonFirstBest best) cs
  unfolding rank_feasible_candidates
  rank-carbon_first [] t best rest e = tt
  rank-carbon_first (c ∷ cs) t best rest e =
      All-map_of (λ x h. (h, round_epsilon_gap _ _ (≼_head _ _ _ _ h))) (c ∷ cs)
        (sort_by-least (carbon_first_key carbon_of cost_of start_of) (c ∷ cs) best rest
          (ok-injective e))

  abbrev pub CostFirstBest : C → C → Type 0
  CostFirstBest best c =
      (cost_first_key carbon_of cost_of start_of best ≼ cost_first_key carbon_of cost_of start_of c)
      × (cost carbon_of cost_of start_of best ≤ cost carbon_of cost_of start_of c + cost_epsilon)

  -- Under COST_FIRST the first candidate has the least (cost, carbon, start), cost and carbon
  -- rounded to an epsilon, and no candidate is cheaper by more than one epsilon.
  rank-cost_first :
      (cs : List C) (tolerance : Option Value) (best : C) (rest : List C)
      → rank_feasible_candidates carbon_of cost_of start_of cs cost_first tolerance
        ≡ ok (best ∷ rest)
      → All (CostFirstBest best) cs
  unfolding rank_feasible_candidates
  rank-cost_first [] t best rest e = tt
  rank-cost_first (c ∷ cs) t best rest e =
      All-map_of (λ x h. (h, round_epsilon_gap _ _ (≼_head _ _ _ _ h))) (c ∷ cs)
        (sort_by-least (cost_first_key carbon_of cost_of start_of) (c ∷ cs) best rest
          (ok-injective e))

  -- The least carbon is the carbon of a candidate, and no candidate has less.
  min_carbon_kg_attained :
      (P : ℕ → Type 0) (c : C) (cs : List C)
      → All (λ d. ¬ P (carbon carbon_of cost_of start_of d)) (c ∷ cs)
      → ¬ P (min_carbon_kg carbon_of cost_of start_of c cs)
  unfolding min_carbon_kg
  min_carbon_kg_attained P c [] h p = h.0 p
  min_carbon_kg_attained P c (d ∷ ds) h p =
      let rest = min_carbon_kg carbon_of cost_of start_of d ds in
      elim (Bool-cases (leb (carbon carbon_of cost_of start_of c) rest)) [
        | inl e ↦ h.0 (rw e at p)
        | inr e ↦ min_carbon_kg_attained P d ds h.1 (rw e at p)
      ]

  pub min_carbon_kg-le :
      (c : C) (cs : List C)
      → All
          (λ d. min_carbon_kg carbon_of cost_of start_of c cs ≤ carbon carbon_of cost_of start_of d)
          (c ∷ cs)
  unfolding min_carbon_kg
  min_carbon_kg-le c [] = (omega arith, tt)
  min_carbon_kg-le c (d ∷ ds) =
      (ground arith, All-map_of (λ x h. ground arith) (d ∷ ds) (min_carbon_kg-le d ds))

  min_carbon_kg-any :
      (c : C) (cs : List C)
      → any
          (λ d.
            carbon carbon_of cost_of start_of d == min_carbon_kg carbon_of cost_of start_of c cs)
          (c ∷ cs)
        ≡ true
  unfolding min_carbon_kg
  min_carbon_kg-any c [] = rw ((==_iff (carbon carbon_of cost_of start_of c) _).1 refl) refl
  min_carbon_kg-any c (d ∷ ds) =
      elim (Bool-cases (
        leb (carbon carbon_of cost_of start_of c)
          (min_carbon_kg carbon_of cost_of start_of d ds))) [
            | inl e ↦ rw (e, (==_iff (carbon carbon_of cost_of start_of c) _).1 refl) refl
            | inr e ↦
                subst
                  (λ least.
                    any (λ x. carbon carbon_of cost_of start_of x == least) (c ∷ d ∷ ds) ≡ true)
                  (sym (beyond e)) (or_right _ _ (min_carbon_kg-any d ds))
          ]
    where
      beyond :
          leb (carbon carbon_of cost_of start_of c) (min_carbon_kg carbon_of cost_of start_of d ds)
            ≡ false
          → min_carbon_kg carbon_of cost_of start_of c (d ∷ ds)
            ≡ min_carbon_kg carbon_of cost_of start_of d ds
      beyond e = rw e refl

  abbrev is_within : ℕ → ℕ → C → Bool
  is_within least pct c = within_tolerance least pct (carbon carbon_of cost_of start_of c)

  -- Some candidate is within the tolerance: the one with the least carbon.
  some_within :
      (pct : ℕ) (c : C) (cs : List C)
      → sort_by
          (within_key carbon_of cost_of start_of)
          (keep_if (is_within (min_carbon_kg carbon_of cost_of start_of c cs) pct) (c ∷ cs))
        ≢ []
  some_within pct c cs empty =
      let least = min_carbon_kg carbon_of cost_of start_of c cs in
      let none_kept : All (λ _. ⊥) (keep_if (is_within least pct) (c ∷ cs)) =
        All-of-sort_by (within_key carbon_of cost_of start_of) (λ _. ⊥) _ (rw empty tt) in
      min_carbon_kg_attained (λ x. within_tolerance least pct x ≡ true) c cs
        (All-of-keep_if (is_within least pct) (λ _. ⊥) (c ∷ cs) none_kept)
        (within_tolerance_self least pct)

  rank-eq-rank_constrained :
      (c : C) (cs : List C) (given : Value) (pct : ℕ)
      → validate_carbon_tolerance_pct given ≡ ok pct
      → rank_feasible_candidates carbon_of cost_of start_of (c ∷ cs) carbon_constrained (some given)
        ≡ ok (
            rank_constrained carbon_of cost_of start_of
              (min_carbon_kg carbon_of cost_of start_of c cs)
              pct
              (c ∷ cs))
  unfolding rank_feasible_candidates
  rank-eq-rank_constrained c cs given pct valid = rw valid

  first_of_constrained :
      (least pct : ℕ) (cs : List C) (best : C) (rest : List C) (b : C) (bs : List C)
      → rank_constrained carbon_of cost_of start_of least pct cs ≡ best ∷ rest
      → sort_by (within_key carbon_of cost_of start_of) (keep_if (is_within least pct) cs) ≡ b ∷ bs
      → b ≡ best
  unfolding rank_constrained
  first_of_constrained least pct cs best rest b bs whole split = head-append _ _ split whole

  rank-IsWithin :
      (c : C) (cs : List C) (given : Value) (pct : ℕ) (best : C) (rest : List C)
      → validate_carbon_tolerance_pct given ≡ ok pct
      → rank_feasible_candidates carbon_of cost_of start_of (c ∷ cs) carbon_constrained (some given)
        ≡ ok (best ∷ rest)
      → IsWithin
          (min_carbon_kg carbon_of cost_of start_of c cs)
          pct
          (carbon carbon_of cost_of start_of best)
        × All
            (λ d.
              IsWithin
                (min_carbon_kg carbon_of cost_of start_of c cs)
                pct
                (carbon carbon_of cost_of start_of d)
              → within_key carbon_of cost_of start_of best
                ≼ within_key carbon_of cost_of start_of d)
            (c ∷ cs)
  rank-IsWithin c cs given pct best rest valid e =
      let least = min_carbon_kg carbon_of cost_of start_of c cs in
      let kept = keep_if (is_within least pct) (c ∷ cs) in
      let key = within_key carbon_of cost_of start_of in
      elim (List-cases (sort_by key kept)) [
        | inl empty ↦ absurd (some_within pct c cs empty)
        | inr (b, bs, split) ↦
            let same : b ≡ best =
              first_of_constrained least pct (c ∷ cs) best rest b bs
                (ok-injective (sym (rank-eq-rank_constrained c cs given pct valid) ∙ e)) split in
            let passes =
              All-sort_by key (λ d. is_within least pct d ≡ true) kept
                (All-keep_if (is_within least pct) (c ∷ cs)) in
            let best_passes : is_within least pct best ≡ true =
              rw same at ((rw split at passes).0) in
            let least_key = sort_by-least key kept b bs split in
            (
              test→IsWithin least pct _ best_passes,
              All-map_of (λ d h w. rw same at (h (IsWithin→test least pct _ w))) (c ∷ cs)
                  (All-of-keep_if (is_within least pct) (λ d. key b ≼ key d) (c ∷ cs) least_key),
            )
      ]

  -- Under CARBON_CONSTRAINED some candidate has the least carbon, no candidate having less; the
  -- first of the ranking exceeds it by the tolerance and another 1e-6 kg at most; and of the
  -- candidates within that bound none has a lower rounded cost, or the same and an earlier start.
  pub rank-carbon_constrained :
      (c : C) (cs : List C) (given : Value) (pct : ℕ) (best : C) (rest : List C)
      → validate_carbon_tolerance_pct given ≡ ok pct
      → rank_feasible_candidates carbon_of cost_of start_of (c ∷ cs) carbon_constrained (some given)
        ≡ ok (best ∷ rest)
      → (least : ℕ) × (any (λ d. or_zero (carbon_of d) == least) (c ∷ cs) ≡ true)
        × All (λ d. least ≤ or_zero (carbon_of d)) (c ∷ cs)
        × IsWithin least pct (or_zero (carbon_of best))
        × All
            (λ d.
              IsWithin least pct (or_zero (carbon_of d))
              → within_key carbon_of cost_of start_of best
                ≼ within_key carbon_of cost_of start_of d)
            (c ∷ cs)
  rank-carbon_constrained c cs given pct best rest valid e =
      let (best_within, cheapest) = rank-IsWithin c cs given pct best rest valid e in
      (
        min_carbon_kg carbon_of cost_of start_of c cs,
        min_carbon_kg-any c cs,
        min_carbon_kg-le c cs,
        best_within,
        cheapest,
      )
