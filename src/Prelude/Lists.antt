-- ===== src/Prelude/Lists.antt =====
-- Lists measured by native numbers, predicates on all members, and filters by a Boolean test.
use Prim.Native.Nat.{ℕ, zero, suc, ◌+◌, ◌≤◌}
use mathlib.Core.Path.{◌≡◌, refl, ap}
use mathlib.Core.Bool.{Bool, true, false, not, ◌&&◌, ◌||◌}
use mathlib.Core.Logic.{◌⊎◌, inl, inr}
use mathlib.Core.List.{List, [], ◌∷◌, ◌++◌, map, Perm, perm_middle}
use mathlib.Core.List.Perm
use native.Mathlib.Omega.{arith}
use green_shift.Prelude.Tests.{if◌then◌else◌, Bool-cases}

module _ {ℓ} {A : Type ℓ} where
  abbrev pub length : List A → ℕ
  length [] = 0
  length (x ∷ xs) = suc (length xs)

  pub length-append : (xs ys : List A) → length (xs ++ ys) ≡ length xs + length ys
  length-append [] ys = omega arith
  length-append (x ∷ xs) ys = omega (arith, length-append xs ys)

  abbrev pub take : ℕ → List A → List A
  take zero xs = []
  take (suc n) [] = []
  take (suc n) (x ∷ xs) = x ∷ take n xs

  abbrev pub drop : ℕ → List A → List A
  drop zero xs = xs
  drop (suc n) [] = []
  drop (suc n) (x ∷ xs) = drop n xs

  pub length-take : (n : ℕ) (xs : List A) → length (take n xs) ≤ n
  length-take zero xs = omega arith
  length-take (suc n) [] = omega arith
  length-take (suc n) (x ∷ xs) = omega (arith, length-take n xs)

  -- How many pass a test.
  abbrev pub tally : (A → Bool) → List A → ℕ
  tally p [] = 0
  tally p (x ∷ xs) = (if p x then 1 else 0) + tally p xs

  pub tally-take : (p : A → Bool) (n : ℕ) (xs : List A) → tally p (take n xs) ≤ tally p xs
  tally-take p zero xs = omega arith
  tally-take p (suc n) [] = omega arith
  tally-take p (suc n) (x ∷ xs) = omega (arith, tally-take p n xs)

  pub take_all : (n : ℕ) (xs : List A) → length xs ≤ n → take n xs ≡ xs
  take_all zero [] h = refl
  take_all zero (x ∷ xs) h = absurd (omega (arith, h))
  take_all (suc n) [] h = refl
  take_all (suc n) (x ∷ xs) h = ap (λ l. x ∷ l) (take_all n xs (omega (arith, h)))

  abbrev pub all : (A → Bool) → List A → Bool
  all p [] = true
  all p (x ∷ xs) = p x && all p xs

  abbrev pub any : (A → Bool) → List A → Bool
  any p [] = false
  any p (x ∷ xs) = p x || any p xs

  abbrev pub keep_if : (A → Bool) → List A → List A
  keep_if p [] = []
  keep_if p (x ∷ xs) = let rest = keep_if p xs in if p x then x ∷ rest else rest

module _ {ℓ κ} {A : Type ℓ} where
  -- A predicate on every member; it computes to a tuple.
  abbrev pub All : (A → Type κ) → List A → Type κ
  All P [] = Unit
  All P (x ∷ xs) = P x × All P xs

  pub All-map_of : {P Q : A → Type κ} → ((x : A) → P x → Q x) → (xs : List A) → All P xs → All Q xs
  All-map_of f [] h = tt
  All-map_of f (x ∷ xs) h = (f x h.0, All-map_of f xs h.1)

  pub All-append : (P : A → Type κ) (xs ys : List A) → All P xs → All P ys → All P (xs ++ ys)
  All-append P [] ys hx hy = hy
  All-append P (x ∷ xs) ys hx hy = (hx.0, All-append P xs ys hx.1 hy)

  pub All-take : (P : A → Type κ) (n : ℕ) (xs : List A) → All P xs → All P (take n xs)
  All-take P zero xs h = tt
  All-take P (suc n) [] h = tt
  All-take P (suc n) (x ∷ xs) h = (h.0, All-take P n xs h.1)

pub All-both {ℓ κ μ} :
    {A : Type ℓ} (P : A → Type κ) (Q : A → Type μ) (xs : List A)
    → All P xs
    → All Q xs
    → All (λ x. P x × Q x) xs
All-both P Q [] h k = tt
All-both P Q (x ∷ xs) h k = ((h.0, k.0), All-both P Q xs h.1 k.1)

module _ {ℓ} {A : Type ℓ} (p : A → Bool) where
  -- Whatever a filter keeps passes its test.
  pub All-keep_if : (xs : List A) → All (λ x. p x ≡ true) (keep_if p xs)
  All-keep_if [] = tt
  All-keep_if (x ∷ xs) = elim (Bool-cases (p x)) [
    | inl e ↦ rw e (e, All-keep_if xs)
    | inr e ↦ rw e (All-keep_if xs)
  ]

  pub tally-keep_if : (q : A → Bool) (xs : List A) → tally q (keep_if p xs) ≤ tally q xs
  tally-keep_if q [] = omega arith
  tally-keep_if q (x ∷ xs) = elim (Bool-cases (p x)) [
    | inl e ↦ rw e (omega (arith, tally-keep_if q xs))
    | inr e ↦ rw e (omega (arith, tally-keep_if q xs))
  ]

  -- What held of every member still holds of those that a filter keeps.
  pub All-keep_if_of {κ} : (P : A → Type κ) (xs : List A) → All P xs → All P (keep_if p xs)
  All-keep_if_of P [] h = tt
  All-keep_if_of P (x ∷ xs) h = elim (Bool-cases (p x)) [
    | inl e ↦ rw e (h.0, All-keep_if_of P xs h.1)
    | inr e ↦ rw e (All-keep_if_of P xs h.1)
  ]

  -- A conditional fact about all is a fact about those that pass the test.
  pub All-keep_if_holds {κ} :
      (P : A → Type κ) (xs : List A) → All (λ x. p x ≡ true → P x) xs → All P (keep_if p xs)
  All-keep_if_holds P [] h = tt
  All-keep_if_holds P (x ∷ xs) h = elim (Bool-cases (p x)) [
    | inl e ↦ rw e (h.0 e, All-keep_if_holds P xs h.1)
    | inr e ↦ rw e (All-keep_if_holds P xs h.1)
  ]

  -- Those that pass a test, followed by those that fail it, are the elements again.
  pub keep_if-append-reject-perm :
      (xs : List A) → Perm (keep_if p xs ++ keep_if (λ x. not (p x)) xs) xs
  keep_if-append-reject-perm [] = Perm.refl []
  keep_if-append-reject-perm (x ∷ xs) = elim (Bool-cases (p x)) [
    | inl e ↦ rw e (Perm.cons x (keep_if-append-reject-perm xs))
    | inr e ↦ rw e (
        Perm.trans (perm_middle (keep_if p xs) (keep_if (λ y. not (p y)) xs))
          (Perm.cons x (keep_if-append-reject-perm xs)))
  ]

  -- A fact about those that pass the test is a conditional fact about all.
  pub All-of-keep_if {κ} :
      (P : A → Type κ) (xs : List A) → All P (keep_if p xs) → All (λ x. p x ≡ true → P x) xs
  All-of-keep_if P [] h = tt
  All-of-keep_if P (x ∷ xs) h = elim (Bool-cases (p x)) [
    | inl e ↦ let k : All P (x ∷ keep_if p xs) = rw e at h in (λ _. k.0, All-of-keep_if P xs k.1)
    | inr e ↦ let k : All P (keep_if p xs) = rw e at h in (λ t. cc (e, t), All-of-keep_if P xs k)
  ]

pub All-map_intro {ℓ κ μ} :
    {A : Type ℓ} {B : Type κ} (f : A → B) (P : B → Type μ) (xs : List A)
    → All (λ x. P (f x)) xs
    → All P (map f xs)
All-map_intro f P [] h = tt
All-map_intro f P (x ∷ xs) h = (h.0, All-map_intro f P xs h.1)

pub List-cases {ℓ} :
    {A : Type ℓ} (xs : List A) → (xs ≡ []) ⊎ ((y : A) × (ys : List A) × (xs ≡ y ∷ ys))
List-cases [] = inl refl
List-cases (y ∷ ys) = inr (y, ys, refl)

-- No two members clash.
abbrev pub IsUnique {ℓ} : {A : Type ℓ} → (A → A → Bool) → List A → Type 0
IsUnique clash [] = Unit
IsUnique clash (x ∷ xs) = (any (clash x) xs ≡ false) × IsUnique clash xs
