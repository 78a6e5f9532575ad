-- ===== src/Prelude/Texts.antt =====
-- Texts as lists of code points: Python's `==`, `str.strip`, `str.upper`,
-- `str.lower` and `str` of a number.
use Prim.Native.Nat.{ℕ, zero, suc, ◌+◌, ◌-◌, ◌*◌, ◌/◌, ◌%◌, ◌<◌}
use Prim.Native.Char.{code}
use Prim.Native.String.{String}
use mathlib.Core.Path.{◌≡◌, refl, ap}
use mathlib.Core.Logic.{◌↔◌, inl, inr}
use mathlib.Core.Bool.{Bool, true, false, ◌&&◌, ◌||◌}
use mathlib.Core.List.{List, [], ◌∷◌, ◌++◌}
use native.Mathlib.Omega.{arith}
use green_shift.Prelude.Tests.{if◌then◌else◌, ◌==◌, leb, Bool-cases}
use green_shift.Prelude.Lists.{length, length-append}
use green_shift.Prelude.Dict.{Eq}

abbrev pub Text : Type 0
Text = List ℕ

abbrev pub text_eq : Text → Text → Bool
text_eq [] [] = true
text_eq (a ∷ s) (b ∷ t) = a == b && text_eq s t
text_eq _ _ = false

pub text_eq_iff : (s t : Text) → (text_eq s t ≡ true) ↔ (s ≡ t)
text_eq_iff [] [] = ground arith
text_eq_iff [] (b ∷ t) = ground arith
text_eq_iff (a ∷ s) [] = ground arith
text_eq_iff (a ∷ s) (b ∷ t) = ground (arith, text_eq_iff s t)

instance abbrev pub text_key : Eq Text
text_key = record { same = text_eq; same_iff = text_eq_iff }

pub text_eq_refl : (t : Text) → text_eq t t ≡ true
text_eq_refl t = (text_eq_iff t t).1 refl

-- What `str.isspace` holds of.
abbrev is_space : ℕ → Bool
is_space c =
    c == 32
    || (leb 9 c && leb c 13)
    || (leb 28 c && leb c 31)
    || c == 133
    || c == 160
    || c == 5760
    || (leb 8192 c && leb c 8202)
    || c == 8232
    || c == 8233
    || c == 8239
    || c == 8287
    || c == 12288

abbrev drop_spaces : Text → Text
drop_spaces [] = []
drop_spaces (c ∷ cs) = let rest = drop_spaces cs in if is_space c then rest else c ∷ cs

abbrev reversed : Text → Text
reversed [] = []
reversed (c ∷ cs) = reversed cs ++ c ∷ []

abbrev pub strip : Text → Text
strip t = reversed (drop_spaces (reversed (drop_spaces t)))

-- The code points whose upper case consists of ASCII letters: the dotless i, the long s, the sharp s
-- and seven ligatures beside a to z. Any other stands here for its upper case, which is not in
-- ASCII where it is not, so a comparison with a text in ASCII comes out as Python's.
abbrev upper_of : ℕ → Text
upper_of c =
    if leb 97 c && leb c 122
    then (c - 32) ∷ []
    else if c == 305
    then 73 ∷ []
    else if c == 383
    then 83 ∷ []
    else if c == 223
    then 83 ∷ 83 ∷ []
    else if c == 64256
    then 70 ∷ 70 ∷ []
    else if c == 64257
    then 70 ∷ 73 ∷ []
    else if c == 64258
    then 70 ∷ 76 ∷ []
    else if c == 64259
    then 70 ∷ 70 ∷ 73 ∷ []
    else if c == 64260
    then 70 ∷ 70 ∷ 76 ∷ []
    else if c == 64261 || c == 64262
    then 83 ∷ 84 ∷ []
    else c ∷ []

abbrev pub upper : Text → Text
upper [] = []
upper (c ∷ cs) = upper_of c ++ upper cs

-- The code points whose lower case has letters of ASCII: beside A to Z, the Kelvin sign and the
-- capital i with a dot, which is followed by a combining dot. Any other stands for its lower case.
abbrev lower_of : ℕ → Text
lower_of c =
    if leb 65 c && leb c 90
    then (c + 32) ∷ []
    else if c == 8490
    then 107 ∷ []
    else if c == 304
    then 105 ∷ 775 ∷ []
    else c ∷ []

abbrev pub lower : Text → Text
lower [] = []
lower (c ∷ cs) = lower_of c ++ lower cs

-- The decimal digits of a number, on as many rounds as it is large.
pub digits : ℕ → ℕ → Text
digits zero n = []
digits (suc rounds) n =
    let more = digits rounds (n / 10) ++ (48 + n % 10) ∷ [] in
    if leb n 9 then (48 + n) ∷ [] else more

-- `str(n)`
unfoldable pub decimal : ℕ → Text
unfolding digits
decimal n = digits (suc n) n

-- The number that digits stand for.
abbrev pub number_from : ℕ → Text → ℕ
number_from acc [] = acc
number_from acc (c ∷ cs) = number_from (acc * 10 + (c - 48)) cs

pub number_from-append :
    (acc : ℕ) (s t : Text) → number_from acc (s ++ t) ≡ number_from (number_from acc s) t
number_from-append acc [] t = refl
number_from-append acc (c ∷ s) t = number_from-append (acc * 10 + (c - 48)) s t

number_from-digits : (rounds n : ℕ) → n < rounds → number_from 0 (digits rounds n) ≡ n
unfolding digits
number_from-digits zero n h = absurd (omega (arith, h))
number_from-digits (suc rounds) n h = elim (Bool-cases (leb n 9)) [
  | inl small ↦ rw small (ground arith)
  | inr large ↦
      rw
        (
          large,
          number_from-append 0 (digits rounds (n / 10)) ((48 + n % 10) ∷ []),
          number_from-digits rounds (n / 10) (ground arith),
        )
        (omega arith)
]

-- What is printed is read back.
pub number_from-decimal : (n : ℕ) → number_from 0 (decimal n) ≡ n
unfolding decimal
number_from-decimal n = number_from-digits (suc n) n (omega arith)

pub decimal-ne-nil : (n : ℕ) → decimal n ≡ [] → ⊥
unfolding decimal
decimal-ne-nil n h = elim (Bool-cases (leb n 9)) [
  | inl small ↦ cc (rw (small) at h)
  | inr large ↦ absurd (
      omega
        (arith, ap length (rw large at h), length-append (digits n (n / 10)) ((48 + n % 10) ∷ [])))
]

-- The code points of a native text.
abbrev pub codes : String → Text
codes String.[] = []
codes (String.◌∷◌ c s) = code c ∷ codes s
