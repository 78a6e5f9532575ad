-- ===== src/Companies/Naming.antt =====
-- The ids and user names that app/companies/service.py generates.
pub mod Slug
pub mod Free
use green_shift.Prelude.Texts.{Text, text_eq, strip, lower, decimal}
use green_shift.Prelude.{
  ℕ, zero, suc, ◌+◌, Bool, true, false, not, ◌&&◌, ◌||◌, Option, none, some, List, [], ◌∷◌, ◌++◌,
  map, if◌then◌else◌, leb, ◌==◌, any,
}

abbrev pub dash : ℕ
dash = 45

-- [a-z0-9]
abbrev pub is_alnum : ℕ → Bool
is_alnum c = (leb 97 c && leb c 122) || (leb 48 c && leb c 57)

-- `re.sub(r"[^a-z0-9]+", "-", ...)`; the flag tells whether the code point before was replaced.
pub dashed : Bool → Text → Text
dashed after [] = []
dashed after (c ∷ cs) =
    let kept = dashed false cs in
    let skipped = dashed true cs in
    if is_alnum c then c ∷ kept else if after then skipped else dash ∷ skipped

-- `.strip("-")`
pub drop_dash : Text → Text
drop_dash [] = []
drop_dash (c ∷ cs) = let rest = drop_dash cs in if c == dash then rest else c ∷ cs

abbrev pub end_with : ℕ → Text → Text
end_with c [] = if c == dash then [] else c ∷ []
end_with c (d ∷ ds) = c ∷ d ∷ ds

pub end_dash : Text → Text
end_dash [] = []
end_dash (c ∷ cs) = end_with c (end_dash cs)

abbrev pub or_company : Text → Text
or_company [] = 99 ∷ 111 ∷ 109 ∷ 112 ∷ 97 ∷ 110 ∷ 121 ∷ []
or_company (c ∷ cs) = c ∷ cs

unfoldable pub slugify : Text → Text
unfolding dashed drop_dash end_dash
slugify value = or_company (end_dash (drop_dash (dashed false (lower (strip value)))))

abbrev pub member : List Text → Text → Bool
member ys x = any (λ y. text_eq x y) ys

-- The first of the candidates that is not taken; `none` where all are.
unfoldable pub first_free : (Text → Bool) → List Text → Option Text
first_free taken [] = none
first_free taken (c ∷ cs) = let rest = first_free taken cs in if taken c then rest else some c

-- "tenant-"
abbrev pub tenant_prefix : Text
tenant_prefix = 116 ∷ 101 ∷ 110 ∷ 97 ∷ 110 ∷ 116 ∷ 45 ∷ []

-- "team-"
abbrev pub team_prefix : Text
team_prefix = 116 ∷ 101 ∷ 97 ∷ 109 ∷ 45 ∷ []

-- The loop tries the name, the name with 1, and then the name with one random text after another;
-- `none` where the draws that are given do not suffice.
unfoldable pub generate_unique_tenant_id : (Text → Bool) → List Text → Text → Option Text
generate_unique_tenant_id taken draws name =
    let base = tenant_prefix ++ slugify name in
    first_free taken
      (base ∷ (base ++ dash ∷ 49 ∷ []) ∷ map (λ (draw : Text). base ++ dash ∷ draw) draws)

-- `split("@")[0]`
unfoldable pub local_part : Text → Text
local_part [] = []
local_part (c ∷ cs) = let rest = c ∷ local_part cs in if c == 64 then [] else rest

-- base, base1, base2 and so on, on the rounds that are left.
unfoldable pub numbered : ℕ → ℕ → Text → List Text
numbered zero n base = []
numbered (suc rounds) n base = (base ++ decimal n) ∷ numbered rounds (suc n) base

unfoldable pub generate_unique_username : (Text → Bool) → ℕ → Text → Option Text
generate_unique_username taken rounds email =
    let base = local_part email in first_free taken (base ∷ numbered rounds 1 base)
