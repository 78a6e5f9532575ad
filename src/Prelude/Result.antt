-- ===== src/Prelude/Result.antt =====
-- Exceptions as values: `err` carries what was raised.
use mathlib.Core.Path.{◌≡◌, refl}
use mathlib.Core.Logic.{◌↔◌}

pub data Result {ℓ} (E : Type 0) (A : Type ℓ) : Type ℓ where
  ok : (value : A) → Result E A
  err : (raised : E) → Result E A

infixl 5 ◌>>=◌
abbrev pub ◌>>=◌ {ℓ κ} :
    {E : Type 0} {A : Type ℓ} {B : Type κ} → Result E A → (A → Result E B) → Result E B
err raised >>= next = err raised
ok value >>= next = next value

-- Inversion: where the whole has a value, its first part has one that the rest goes on with.
pub >>=-eq-ok {ℓ κ} :
    {E : Type 0} {A : Type ℓ} {B : Type κ} (first : Result E A) (next : A → Result E B) {last : B}
    → (first >>= next) ≡ ok last
    → (value : A) × (first ≡ ok value) × (next value ≡ ok last)
>>=-eq-ok (err raised) next h = cc
>>=-eq-ok (ok value) next h = (value, refl, h)

infixl 5 ◌>>◌
abbrev pub ◌>>◌ {ℓ} : {E : Type 0} {B : Type ℓ} → Result E (Unit {0}) → Result E B → Result E B
check >> next = check >>= λ _. next

-- A sequence of checks passes when each of them does.
pub >>-ok_iff :
    {E : Type 0} (m k : Result E (Unit {0})) → ((m >> k) ≡ ok tt) ↔ (m ≡ ok tt) × (k ≡ ok tt)
>>-ok_iff (ok u) k = (λ h. (refl, h), λ h. h.1)
>>-ok_iff (err e) k = (λ h. absurd cc, λ h. absurd cc)

pub ok-injective {ℓ} :
    {E : Type 0} {A : Type ℓ} {a b : A} → ◌≡◌ {A = Result E A} (ok a) (ok b) → a ≡ b
ok-injective h = cc

-- Inversion of a check that is followed by the rest.
pub >>-eq-ok {ℓ} :
    {E : Type 0} {B : Type ℓ} (check : Result E (Unit {0})) (rest : Result E B) {last : B}
    → (check >> rest) ≡ ok last
    → (check ≡ ok tt) × (rest ≡ ok last)
>>-eq-ok (err raised) rest h = absurd cc
>>-eq-ok (ok u) rest h = (refl, h)

-- What holds of the value, where there is one.
unfoldable pub After {ℓ κ} : {E : Type 0} {A : Type ℓ} → (A → Type κ) → Result E A → Type κ
After P (err raised) = Unit
After P (ok value) = P value

pub After->>= {ℓ κ μ} :
    {E : Type 0} {A : Type ℓ} {B : Type κ} (P : B → Type μ) (first : Result E A)
    (next : A → Result E B)
    → ((value : A) → first ≡ ok value → After P (next value))
    → After P (first >>= next)
unfolding After
After->>= P (err raised) next h = tt
After->>= P (ok value) next h = h value refl
