-- ===== src/Prelude/Sort.antt =====
-- Python's `sorted` and `list.sort` with a tuple as key: a stable insertion sort over
-- lexicographic keys, and `min` with a key, which returns the first of the least.
use Prim.Native.Nat.{ℕ, suc, ◌≤◌, ◌<◌}
use mathlib.Core.Path.{◌≡◌, refl, ap, ◌∙◌}
use mathlib.Core.Logic.{inl, inr}
use mathlib.Core.Bool.{Bool, true, false}
use mathlib.Core.List.{List, [], ◌∷◌, ◌++◌, Perm}
use mathlib.Core.List.Perm
use native.Mathlib.Omega.{arith}
use green_shift.Prelude.Tests.{if◌then◌else◌, Bool-cases, ltb, ◌==◌}
use green_shift.Prelude.Lists.{length, tally, All, All-map_of}

-- Tuples compare lexicographically.
pub lex_leb : List ℕ → List ℕ → Bool
lex_leb [] b = true
lex_leb (x ∷ a) [] = false
lex_leb (x ∷ a) (y ∷ b) =
    let rest = lex_leb a b in if ltb x y then true else if x == y then rest else false

infix 50 ◌≼◌
abbrev pub ◌≼◌ : List ℕ → List ℕ → Type 0
a ≼ b = lex_leb a b ≡ true

pub ≼_refl : (a : List ℕ) → a ≼ a
unfolding lex_leb
≼_refl [] = refl
≼_refl (x ∷ a) = ground (arith, ≼_refl a)

pub ≼_trans : (a b c : List ℕ) → a ≼ b → b ≼ c → a ≼ c
unfolding lex_leb
≼_trans [] b c h k = refl
≼_trans (x ∷ a) [] c h k = cc
≼_trans (x ∷ a) (y ∷ b) [] h k = cc
≼_trans (x ∷ a) (y ∷ b) (z ∷ c) h k = ground (arith, ≼_trans a b c)

-- The order is total: what is not at most is at least.
pub ≼_total : (a b : List ℕ) → lex_leb a b ≡ false → b ≼ a
unfolding lex_leb
≼_total [] b h = cc
≼_total (x ∷ a) [] h = refl
≼_total (x ∷ a) (y ∷ b) h = ground (arith, ≼_total a b)

-- A greater first component decides.
pub lex_leb_greater : (x y : ℕ) (a b : List ℕ) → y < x → lex_leb (x ∷ a) (y ∷ b) ≡ false
unfolding lex_leb
lex_leb_greater x y a b h = ground arith

-- The first components of ordered tuples are ordered.
pub ≼_head : (x y : ℕ) (a b : List ℕ) → (x ∷ a) ≼ (y ∷ b) → x ≤ y
unfolding lex_leb
≼_head x y a b h = ground arith

-- Tuples with the same first component are ordered by the rest.
pub ≼_tail : (x y : ℕ) (a b : List ℕ) → (x ∷ a) ≼ (y ∷ b) → y ≤ x → a ≼ b
unfolding lex_leb
≼_tail x y a b h k = ground arith

module _ {ℓ} {A : Type ℓ} (key : A → List ℕ) where
  -- Before the first element whose key is not smaller: equal keys keep their order.
  insert_by : A → List A → List A
  insert_by x [] = x ∷ []
  insert_by x (y ∷ ys) =
      let rest = insert_by x ys in if lex_leb (key x) (key y) then x ∷ y ∷ ys else y ∷ rest

  unfoldable pub sort_by : List A → List A
  unfolding insert_by lex_leb
  sort_by [] = []
  sort_by (x ∷ xs) = insert_by x (sort_by xs)

  abbrev pub IsSortedBy : List A → Type 0
  IsSortedBy [] = Unit
  IsSortedBy (x ∷ xs) = All (λ y. key x ≼ key y) xs × IsSortedBy xs

  All-insert_by {κ} :
      (P : A → Type κ) (x : A) (ys : List A) → P x → All P ys → All P (insert_by x ys)
  unfolding insert_by
  All-insert_by P x [] h hs = (h, tt)
  All-insert_by P x (y ∷ ys) h hs = elim (Bool-cases (lex_leb (key x) (key y))) [
    | inl e ↦ rw e (h, hs)
    | inr e ↦ rw e (hs.0, All-insert_by P x ys h hs.1)
  ]

  -- What holds of every element holds of every element of the sorted list.
  pub All-sort_by {κ} : (P : A → Type κ) (xs : List A) → All P xs → All P (sort_by xs)
  unfolding sort_by
  All-sort_by P [] h = tt
  All-sort_by P (x ∷ xs) h = All-insert_by P x (sort_by xs) h.0 (All-sort_by P xs h.1)

  insert_by-IsSortedBy : (x : A) (ys : List A) → IsSortedBy ys → IsSortedBy (insert_by x ys)
  unfolding insert_by
  insert_by-IsSortedBy x [] s = (tt, tt)
  insert_by-IsSortedBy x (y ∷ ys) s = elim (Bool-cases (lex_leb (key x) (key y))) [
    | inl e ↦ rw e ((e, All-map_of (λ z h. ≼_trans (key x) (key y) (key z) e h) ys s.0), s)
    | inr e ↦ rw e (
      All-insert_by (λ z. key y ≼ key z) x ys (≼_total (key x) (key y) e) s.0,
      insert_by-IsSortedBy x ys s.1,
    )
  ]

  pub sort_by-IsSortedBy : (xs : List A) → IsSortedBy (sort_by xs)
  unfolding sort_by
  sort_by-IsSortedBy [] = tt
  sort_by-IsSortedBy (x ∷ xs) = insert_by-IsSortedBy x (sort_by xs) (sort_by-IsSortedBy xs)

  tally-insert_by :
      (p : A → Bool) (x : A) (ys : List A) → tally p (insert_by x ys) ≡ tally p (x ∷ ys)
  unfolding insert_by
  tally-insert_by p x [] = refl
  tally-insert_by p x (y ∷ ys) = elim (Bool-cases (lex_leb (key x) (key y))) [
    | inl e ↦ rw e refl
    | inr e ↦ rw e (omega (arith, tally-insert_by p x ys))
  ]

  -- Sorting keeps how many pass a test.
  pub tally-sort_by : (p : A → Bool) (xs : List A) → tally p (sort_by xs) ≡ tally p xs
  unfolding sort_by
  tally-sort_by p [] = refl
  tally-sort_by p (x ∷ xs) = omega (arith, tally-insert_by p x (sort_by xs), tally-sort_by p xs)

  length-insert_by : (x : A) (ys : List A) → length (insert_by x ys) ≡ suc (length ys)
  unfolding insert_by
  length-insert_by x [] = refl
  length-insert_by x (y ∷ ys) = elim (Bool-cases (lex_leb (key x) (key y))) [
    | inl e ↦ rw e refl
    | inr e ↦ rw e (ap suc (length-insert_by x ys))
  ]

  pub length-sort_by : (xs : List A) → length (sort_by xs) ≡ length xs
  unfolding sort_by
  length-sort_by [] = refl
  length-sort_by (x ∷ xs) = length-insert_by x (sort_by xs) ∙ ap suc (length-sort_by xs)

  insert_by_last :
      (x : A) (ys : List A)
      → All (λ y. lex_leb (key x) (key y) ≡ false) ys
      → insert_by x ys ≡ ys ++ x ∷ []
  unfolding insert_by
  insert_by_last x [] h = refl
  insert_by_last x (y ∷ ys) h = rw (h.0, insert_by_last x ys h.1) refl

  -- A new element with a greater key than all others comes last.
  pub sort_by_last :
      (x : A) (xs : List A)
      → All (λ y. lex_leb (key x) (key y) ≡ false) (sort_by xs)
      → sort_by (x ∷ xs) ≡ sort_by xs ++ x ∷ []
  unfolding sort_by
  sort_by_last x xs h = insert_by_last x (sort_by xs) h

  insert_by-perm : (x : A) (ys : List A) → Perm (insert_by x ys) (x ∷ ys)
  unfolding insert_by
  insert_by-perm x [] = Perm.refl (x ∷ [])
  insert_by-perm x (y ∷ ys) = elim (Bool-cases (lex_leb (key x) (key y))) [
    | inl e ↦ rw e (Perm.refl (x ∷ y ∷ ys))
    | inr e ↦ rw e (Perm.trans (Perm.cons y (insert_by-perm x ys)) (Perm.swap x y ys))
  ]

  pub sort_by-perm : (xs : List A) → Perm (sort_by xs) xs
  unfolding sort_by
  sort_by-perm [] = Perm.refl []
  sort_by-perm (x ∷ xs) = Perm.trans (insert_by-perm x (sort_by xs)) (Perm.cons x (sort_by-perm xs))

  All-of-insert_by {κ} :
      (P : A → Type κ) (x : A) (ys : List A) → All P (insert_by x ys) → P x × All P ys
  unfolding insert_by
  All-of-insert_by P x [] h = (h.0, tt)
  All-of-insert_by P x (y ∷ ys) h = elim (Bool-cases (lex_leb (key x) (key y))) [
    | inl e ↦ let k : All P (x ∷ y ∷ ys) = rw e at h in (k.0, k.1)
    | inr e ↦
        let k : All P (y ∷ insert_by x ys) = rw e at h in
        let r = All-of-insert_by P x ys k.1 in (r.0, (k.0, r.1))
  ]

  -- What holds of every element of the sorted list holds of every element.
  pub All-of-sort_by {κ} : (P : A → Type κ) (xs : List A) → All P (sort_by xs) → All P xs
  unfolding sort_by
  All-of-sort_by P [] h = tt
  All-of-sort_by P (x ∷ xs) h =
      let r = All-of-insert_by P x (sort_by xs) h in (r.0, All-of-sort_by P xs r.1)

  -- The first element of the sorted list has the least key.
  pub sort_by-least :
      (xs : List A) (b : A) (rest : List A) → sort_by xs ≡ b ∷ rest → All (λ x. key b ≼ key x) xs
  sort_by-least xs b rest e =
      All-of-sort_by (λ x. key b ≼ key x) xs
        (rw e (≼_refl (key b), (rw e at (sort_by-IsSortedBy xs)).0))

  -- The least of `x` and the list; of several least elements the first.
  unfoldable pub min_by : A → List A → A
  unfolding lex_leb
  min_by x [] = x
  min_by x (y ∷ ys) = min_by (if lex_leb (key x) (key y) then x else y) ys

  -- What holds of every element holds of the least.
  pub min_by-holds {κ} : (P : A → Type κ) (x : A) (xs : List A) → P x → All P xs → P (min_by x xs)
  unfolding min_by
  min_by-holds P x [] h hs = h
  min_by-holds P x (y ∷ ys) h hs = elim (Bool-cases (lex_leb (key x) (key y))) [
    | inl e ↦ rw e (min_by-holds P x ys h hs.1)
    | inr e ↦ rw e (min_by-holds P y ys hs.0 hs.1)
  ]
