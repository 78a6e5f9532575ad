-- ===== src/Companies/Naming/Slug.antt =====
-- What `_slugify` of app/companies/service.py returns.
use green_shift.Companies.Naming.{
  dash, is_alnum, dashed, drop_dash, end_with, end_dash, or_company, slugify,
}
use green_shift.Prelude.Texts.{Text, strip, lower}
use green_shift.Prelude.{
  ℕ, ◌≡◌, ◌⊎◌, refl, Bool, true, false, not, ◌&&◌, ◌||◌, [], ◌∷◌, if◌then◌else◌, ◌==◌, Bool-cases,
  inl, inr, arith,
}

-- Letters and digits with single dashes between them, and none at the end; `after` tells whether
-- there is a dash, or nothing at all, before.
abbrev pub is_slug : Bool → Text → Bool
is_slug after [] = not after
is_slug after (c ∷ cs) =
    (is_alnum c && is_slug false cs) || (c == dash && (not after && is_slug true cs))

-- The same, where there may be a dash at the end, or nothing.
abbrev is_open : Bool → Text → Bool
is_open after [] = true
is_open after (c ∷ cs) =
    (is_alnum c && is_open false cs) || (c == dash && (not after && is_open true cs))

dashed-is_open : (after : Bool) (t : Text) → is_open after (dashed after t) ≡ true
unfolding dashed
dashed-is_open after [] = refl
dashed-is_open after (c ∷ cs) = elim (Bool-cases (is_alnum c)) [
  | inl kept ↦ rw kept (ground (arith, kept, dashed-is_open false cs))
  | inr out ↦ rw out (replaced after (dashed true cs) (dashed-is_open true cs))
]
  where
    replaced :
        (after : Bool) (t : Text)
        → is_open true t ≡ true
        → is_open after (if after then t else dash ∷ t) ≡ true
    replaced true t h = h
    replaced false t h = ground (arith, h)

drop_dash-is_open :
    (after : Bool) (t : Text) → is_open after t ≡ true → is_open true (drop_dash t) ≡ true
unfolding drop_dash
drop_dash-is_open after [] h = refl
drop_dash-is_open after (c ∷ cs) h = elim (Bool-cases (c == dash)) [
  | inl found ↦ rw found (drop_dash-is_open true cs (ground (arith, h, found)))
  | inr other ↦ rw other (ground (arith, h, other))
]

ended_more :
    (after rest : Bool) (c d : ℕ) (ds : Text)
    → ((is_alnum c ≡ true) × (rest ≡ false))
      ⊎ ((c == dash ≡ true) × (after ≡ false) × (rest ≡ true))
    → (◌≡◌ {A = Text} (d ∷ ds) []) ⊎ (is_slug rest (d ∷ ds) ≡ true)
    → is_slug after (c ∷ d ∷ ds) ≡ true
ended_more after rest c d ds h (inl none_left) = absurd cc
ended_more after rest c d ds (inl (kept, e)) (inr more) =
    let more' : is_slug false (d ∷ ds) ≡ true = rw e at more in rw (kept, more') refl
ended_more after rest c d ds (inr (found, first, e)) (inr more) =
    let more' : is_slug true (d ∷ ds) ≡ true = rw e at more in
    rw (first, found, more') (or_true (is_alnum c && is_slug false (d ∷ ds)))
  where
    or_true : (b : Bool) → (b || true) ≡ true
    or_true true = refl
    or_true false = refl

ended :
    (after : Bool) (c : ℕ) (cs t : Text)
    → is_open after (c ∷ cs) ≡ true
    → ((rest : Bool) → is_open rest cs ≡ true → (t ≡ []) ⊎ (is_slug rest t ≡ true))
    → (end_with c t ≡ []) ⊎ (is_slug after (end_with c t) ≡ true)
ended after c cs [] h ih = elim (Bool-cases (c == dash)) [
  | inl found ↦ inl (rw found refl)
  | inr other ↦ rw other (inr (ground (arith, h, other)))
]
ended after c cs (d ∷ ds) h ih = elim (Bool-cases (is_alnum c)) [
  | inl kept ↦
      inr (ended_more after false c d ds (inl (kept, refl)) (ih false (ground (arith, h, kept))))
  | inr out ↦ inr (
      ended_more after true c d ds (inr (ground (arith, h, out), ground (arith, h, out), refl))
        (ih true (ground (arith, h, out))))
]

end_dash-is_slug :
    (after : Bool) (t : Text)
    → is_open after t ≡ true
    → (end_dash t ≡ []) ⊎ (is_slug after (end_dash t) ≡ true)
unfolding end_dash
end_dash-is_slug after [] h = inl refl
end_dash-is_slug after (c ∷ cs) h =
    ended after c cs (end_dash cs) h (λ rest h. end_dash-is_slug rest cs h)

or_company-is_slug :
    (t : Text) → (t ≡ []) ⊎ (is_slug true t ≡ true) → is_slug true (or_company t) ≡ true
or_company-is_slug [] h = refl
or_company-is_slug (c ∷ cs) (inl h) = absurd cc
or_company-is_slug (c ∷ cs) (inr h) = h

-- A slug consists of ASCII lower case letters, digits and dashes, is not empty, starts and ends with
-- no dash and has no two dashes beside one another, whatever text it is made of.
pub slugify-is_slug : (value : Text) → is_slug true (slugify value) ≡ true
unfolding slugify
slugify-is_slug value =
    let t = lower (strip value) in
    or_company-is_slug (end_dash (drop_dash (dashed false t))) (
      end_dash-is_slug true (drop_dash (dashed false t))
        (drop_dash-is_open false (dashed false t) (dashed-is_open false t)))
