-- ===== src/Companies/Naming/Free.antt =====
-- The loops of app/companies/service.py that look for a free name end.
use mathlib.Core.List.{append-nil}
use green_shift.Companies.Naming.{
  member, first_free, local_part, numbered, generate_unique_username,
}
use green_shift.Prelude.Texts.{
  Text, text_eq, text_eq_iff, decimal, decimal-ne-nil, number_from, number_from-decimal,
}
use green_shift.Prelude.{
  ℕ, zero, suc, ◌≤◌, ◌<◌, ◌≡◌, ◌⊎◌, refl, sym, ap, ◌∙◌, Bool, true, false, some, List, [], ◌∷◌,
  ◌++◌, if◌then◌else◌, All, length, Bool-cases, inl, inr, arith,
}

-- One occurrence less.
remove : Text → List Text → List Text
remove x [] = []
remove x (y ∷ ys) = if text_eq x y then ys else y ∷ remove x ys

length-remove :
    (x : Text) (ys : List Text) → member ys x ≡ true → length ys ≡ suc (length (remove x ys))
unfolding remove
length-remove x [] h = absurd cc
length-remove x (y ∷ ys) h = elim (Bool-cases (text_eq x y)) [
  | inl same ↦ rw same refl
  | inr apart ↦ rw apart (ap suc (length-remove x ys (rw apart at h)))
]

member-remove :
    (x z : Text) (ys : List Text)
    → text_eq z x ≡ false
    → member ys z ≡ true
    → member (remove x ys) z ≡ true
unfolding remove
member-remove x z [] apart h = h
member-remove x z (y ∷ ys) apart h = elim (Bool-cases (text_eq x y)) [
  | inl same ↦ rw same (ground (arith, h, ap (text_eq z) ((text_eq_iff x y).0 same)))
  | inr other ↦ rw other (elim (Bool-cases (text_eq z y)) [
    | inl here ↦ rw here refl
    | inr there ↦ rw there (member-remove x z ys apart (rw there at h))
  ])
]

-- No text of the list is another.
abbrev AreDistinct : List Text → Type 0
AreDistinct [] = Unit
AreDistinct (x ∷ xs) = All (λ z. text_eq z x ≡ false) xs × AreDistinct xs

-- Distinct texts that are all taken are not more than those taken.
length-le-taken :
    (xs ys : List Text) → AreDistinct xs → All (λ x. member ys x ≡ true) xs → length xs ≤ length ys
length-le-taken [] ys d h = omega arith
length-le-taken (x ∷ xs) ys d h =
    let rest = length-le-taken xs (remove x ys) d.1 (others x xs ys d.0 h.1) in
    omega (arith, rest, length-remove x ys h.0)
  where
    others :
        (x : Text) (xs ys : List Text)
        → All (λ z. text_eq z x ≡ false) xs
        → All (λ z. member ys z ≡ true) xs
        → All (λ z. member (remove x ys) z ≡ true) xs
    others x [] ys d h = tt
    others x (z ∷ zs) ys d h = (member-remove x z ys d.0 h.0, others x zs ys d.1 h.1)

-- What is found is not taken; where nothing is, all are.
first_free_lem :
    (taken : Text → Bool) (cs : List Text)
    → ((c : Text) × (first_free taken cs ≡ some c) × (taken c ≡ false))
      ⊎ All (λ c. taken c ≡ true) cs
unfolding first_free
first_free_lem taken [] = inr tt
first_free_lem taken (c ∷ cs) = elim (Bool-cases (taken c)) [
  | inr free ↦ inl (c, rw free refl, free)
  | inl used ↦ elim (first_free_lem taken cs) [
    | inl (d, found, free) ↦ inl (d, rw used found, free)
    | inr rest ↦ inr (used, rest)
  ]
]

pub first_free-some :
    (ys cs : List Text)
    → AreDistinct cs
    → length ys < length cs
    → (c : Text) × (first_free (member ys) cs ≡ some c) × (member ys c ≡ false)
first_free-some ys cs d h = elim (first_free_lem (member ys) cs) [
  | inl found ↦ found
  | inr all_taken ↦ absurd (omega (arith, h, length-le-taken cs ys d all_taken))
]

append-injective : (b s t : Text) → b ++ s ≡ b ++ t → s ≡ t
append-injective [] s t h = h
append-injective (c ∷ b) s t h = append-injective b s t cc

decimal-injective : (m n : ℕ) → decimal m ≡ decimal n → m ≡ n
decimal-injective m n h = sym (number_from-decimal m) ∙ ap (number_from 0) h ∙ number_from-decimal n

apart_of_ne : (s t : Text) → (s ≡ t → ⊥) → text_eq s t ≡ false
apart_of_ne s t differ = elim (Bool-cases (text_eq s t)) [
  | inl same ↦ absurd (differ ((text_eq_iff s t).0 same))
  | inr apart ↦ apart
]

numbered-apart :
    (rounds n m : ℕ) (base : Text)
    → m < n
    → All (λ z. text_eq z (base ++ decimal m) ≡ false) (numbered rounds n base)
unfolding numbered
numbered-apart zero n m base h = tt
numbered-apart (suc rounds) n m base h = (
  apart_of_ne (base ++ decimal n) (base ++ decimal m) (λ e.
      absurd (
        omega (arith, h, decimal-injective n m (append-injective base (decimal n) (decimal m) e)))),
  numbered-apart rounds (suc n) m base (omega (arith, h)),
)

numbered-AreDistinct : (rounds n : ℕ) (base : Text) → AreDistinct (numbered rounds n base)
unfolding numbered
numbered-AreDistinct zero n base = tt
numbered-AreDistinct (suc rounds) n base =
    (numbered-apart rounds (suc n) n base (omega arith), numbered-AreDistinct rounds (suc n) base)

longer : (base : Text) (n : ℕ) → (base ++ decimal n ≡ base → ⊥)
longer base n e =
    decimal-ne-nil n (append-injective base (decimal n) [] (e ∙ sym (append-nil base)))

numbered-longer :
    (rounds n : ℕ) (base : Text) → All (λ z. text_eq z base ≡ false) (numbered rounds n base)
unfolding numbered
numbered-longer zero n base = tt
numbered-longer (suc rounds) n base =
    (apart_of_ne (base ++ decimal n) base (longer base n), numbered-longer rounds (suc n) base)

length-numbered : (rounds n : ℕ) (base : Text) → length (numbered rounds n base) ≡ rounds
unfolding numbered
length-numbered zero n base = refl
length-numbered (suc rounds) n base = ap suc (length-numbered rounds (suc n) base)

-- On as many rounds as there are names, and hence without a bound, the search for a user name ends,
-- with a name that nobody has.
pub generate_unique_username_total :
    (names : List Text) (email : Text)
    → (c : Text) × (generate_unique_username (member names) (length names) email ≡ some c)
      × (member names c ≡ false)
unfolding generate_unique_username
generate_unique_username_total names email =
    let base = local_part email in
    first_free-some names (base ∷ numbered (length names) 1 base)
      (numbered-longer (length names) 1 base, numbered-AreDistinct (length names) 1 base)
      (omega (arith, length-numbered (length names) 1 base))
