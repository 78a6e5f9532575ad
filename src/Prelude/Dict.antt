-- ===== src/Prelude/Dict.antt =====
-- Python's `dict` as an association list in the order of first insertion, over any key type with a
-- lawful `==`.
use Prim.Native.Nat.{ℕ}
use Prim.Native.String.{String}
use mathlib.Core.Path.{◌≡◌, refl, sym, ap, subst, ◌∙◌}
use mathlib.Core.Logic.{◌↔◌, inl, inr}
use mathlib.Core.Bool.{Bool, true, false, ◌&&◌}
use mathlib.Core.Option.{Option, none, some}
use mathlib.Core.List.{List, [], ◌∷◌}
use native.Mathlib.Omega.{arith}
use text.Mathlib.TextEquality.{eq_iff}
use green_shift.Prelude.Tests.{if◌then◌else◌, ◌==◌, ==_iff, str_eq, Bool-cases, some-injective}
use green_shift.Prelude.Lists.{tally, All, All-map_of}

pub record Eq {ℓ} (A : Type ℓ) : Type ℓ where
  pub same : A → A → Bool
  pub same_iff : (a b : A) → (same a b ≡ true) ↔ (a ≡ b)

instance abbrev pub nat_eq : Eq ℕ
nat_eq = record { same = ◌==◌; same_iff = ==_iff }

instance abbrev pub string_eq : Eq String
string_eq = record { same = str_eq; same_iff = eq_iff }

abbrev pub pair_same : String × ℕ → String × ℕ → Bool
pair_same (a, m) (b, n) = str_eq a b && m == n

pub pair_same_iff : (p q : String × ℕ) → (pair_same p q ≡ true) ↔ (p ≡ q)
pair_same_iff (a, m) (b, n) = ground (arith, eq_iff a b)

instance abbrev pub pair_eq : Eq (String × ℕ)
pair_eq = record { same = pair_same; same_iff = pair_same_iff }

module _ {ℓ κ} {K : Type ℓ} {V : Type κ} ⦃e : Eq K⦄ where
  unfoldable pub lookup : K → List (K × V) → Option V
  lookup k [] = none
  lookup k ((j, v) ∷ d) = if e.same k j then some v else lookup k d

  -- d[k] = v
  unfoldable pub insert : K → V → List (K × V) → List (K × V)
  insert k v [] = (k, v) ∷ []
  insert k v ((j, w) ∷ d) = if e.same k j then (j, v) ∷ d else (j, w) ∷ insert k v d

  pub lookup-insert :
      (k j : K) (v : V) (d : List (K × V))
      → lookup j (insert k v d) ≡ (if e.same j k then some v else lookup j d)
  unfolding lookup insert
  lookup-insert k j v [] = refl
  lookup-insert k j v ((i, w) ∷ d) =
      ground (arith, lookup-insert k j v d, e.same_iff k i, e.same_iff j i, e.same_iff j k)

-- Every value changed by a function of its key.
unfoldable pub adjust {ℓ κ} : {K : Type ℓ} {V : Type κ} → (K → V → V) → List (K × V) → List (K × V)
adjust f [] = []
adjust f ((k, v) ∷ d) = (k, f k v) ∷ adjust f d

abbrev pub applied {κ} : {V : Type κ} → (V → V) → Option V → Option V
applied f none = none
applied f (some v) = some (f v)

pub applied_same {κ} : {V : Type κ} (o : Option V) → applied (λ v. v) o ≡ o
applied_same none = refl
applied_same (some v) = refl

module _ {ℓ κ} {K : Type ℓ} {V : Type κ} ⦃e : Eq K⦄ where
  pub lookup-adjust :
      (f : K → V → V) (k : K) (d : List (K × V))
      → lookup k (adjust f d) ≡ applied (f k) (lookup k d)
  unfolding adjust lookup
  lookup-adjust f k [] = refl
  lookup-adjust f k ((j, v) ∷ d) = elim (Bool-cases (e.same k j)) [
    | inr apart ↦ rw apart (lookup-adjust f k d)
    | inl same ↦ rw same (ap (λ i. some (f i v)) (sym ((e.same_iff k j).0 same)))
  ]

  -- The keys are unique: each entry is the one that its key finds.
  abbrev pub IsKeyed : List (K × V) → Type κ
  IsKeyed d = All (λ entry. lookup entry.0 d ≡ some entry.1) d

  pub All-adjust {μ} :
      (P : K × V → Type μ) (f : K → V → V) (d : List (K × V))
      → All (λ entry. P (entry.0, f entry.0 entry.1)) d
      → All P (adjust f d)
  unfolding adjust
  All-adjust P f [] h = tt
  All-adjust P f ((k, v) ∷ d) h = (h.0, All-adjust P f d h.1)

  -- What holds of every entry holds of the one that is found.
  pub All-lookup {μ} :
      (P : K × V → Type μ) (k : K) (v : V) (d : List (K × V))
      → lookup k d ≡ some v
      → All P d
      → P (k, v)
  unfolding lookup
  All-lookup P k v [] found h = absurd cc
  All-lookup P k v ((j, w) ∷ d) found h = elim (Bool-cases (e.same k j)) [
    | inr apart ↦ All-lookup P k v d (rw apart at found) h.1
    | inl same ↦
        subst (λ x. P (k, x)) (some-injective (rw same at found))
          (subst (λ i. P (i, w)) (sym ((e.same_iff k j).0 same)) h.0)
  ]

  pub All-insert {μ} :
      (P : K × V → Type μ) (k : K) (v : V) (d : List (K × V))
      → P (k, v)
      → All P d
      → All P (insert k v d)
  unfolding insert
  All-insert P k v [] new h = (new, tt)
  All-insert P k v ((j, w) ∷ d) new h = elim (Bool-cases (e.same k j)) [
    | inl same ↦ rw same (subst (λ i. P (i, v)) ((e.same_iff k j).0 same) new, h.1)
    | inr apart ↦ rw apart (h.0, All-insert P k v d new h.1)
  ]

  -- A key that no entry has is not found.
  pub lookup-none :
      (k : K) (d : List (K × V)) → All (λ entry. e.same k entry.0 ≡ false) d → lookup k d ≡ none
  unfolding lookup
  lookup-none k [] h = refl
  lookup-none k ((j, w) ∷ d) h = rw h.0 (lookup-none k d h.1)

  pub tally-adjust :
      (p : K → Bool) (f : K → V → V) (d : List (K × V))
      → tally (λ entry. p entry.0) (adjust f d) ≡ tally (λ entry. p entry.0) d
  unfolding adjust
  tally-adjust p f [] = refl
  tally-adjust p f ((k, v) ∷ d) = omega (arith, tally-adjust p f d)

  pub adjust-IsKeyed : (f : K → V → V) (d : List (K × V)) → IsKeyed d → IsKeyed (adjust f d)
  adjust-IsKeyed f d h =
      All-adjust (λ entry. lookup entry.0 (adjust f d) ≡ some entry.1) f d
        (All-map_of (λ entry found. lookup-adjust f entry.0 d ∙ ap (applied (f entry.0)) found) d h)

pub same_refl {ℓ} : {K : Type ℓ} ⦃e : Eq K⦄ (k : K) → e.same k k ≡ true
same_refl ⦃e⦄ k = (e.same_iff k k).1 refl
