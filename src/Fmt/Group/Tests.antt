-- ===== src/Fmt/Group/Tests.antt =====
-- Groups of formats at concrete inputs, with thresholds that are whole numbers of dB.
use opensand.Prelude.{
  ℕ, ◌≡◌, refl, Bool, true, false, Option, some, List, [], ◌∷◌, ltb, leb, ◌==◌, arith, ◌⊎◌,
}
use opensand.Fmt.{Levels}
use opensand.Fmt.Modcod.{TotalOrder}
use opensand.Dama.Alloc.Sort.{Each}
use opensand.Fmt.Group.{parse, get_fmt_ids, get_nearest}
use opensand.Fmt.Group.Nearest.{Strict, Known, required, TooDemanding, Best, get_nearest-Best}

abbrev decibels : Levels
decibels = record { Level = ℕ; greater = λ a b. ltb b a; at_least = λ a b. leb b a }

decibels-TotalOrder : TotalOrder decibels
decibels-TotalOrder = record {
  at_least_refl = λ a. ground arith;
  at_least_trans = λ a b c h k. ground arith;
  at_least_total = λ a b h. ground arith;
}

decibels-Strict : Strict decibels
decibels-Strict = record {
  greater_not = λ a b h. ground arith;
  greater_asym = λ a b h. ground arith;
}

abbrev absent : ℕ → Bool
absent level = level == 0

abbrev own : ℕ → ℕ
own level = level

-- Formats whose thresholds do not grow with their ids.
abbrev table : List (ℕ × ℕ)
table = (1, 2) ∷ (2, 9) ∷ (3, 5) ∷ (4, 7) ∷ (6, 11) ∷ []

-- `1-3;6`
abbrev text : List (List (Option ℕ))
text = (some 1 ∷ some 3 ∷ []) ∷ (some 6 ∷ []) ∷ []

group_ids :
    get_fmt_ids decibels 0 absent own own table (parse decibels 0 absent own own table text)
    ≡ 1 ∷ 3 ∷ 2 ∷ 6 ∷ []
unfolding get_fmt_ids parse
group_ids = refl

get_nearest-Best_example :
    let fs = parse decibels 0 absent own own table text in
    let id = get_nearest decibels 0 absent own own table 4 fs in
    Each (Known decibels 0 absent own own table) fs
    × (((absent (required decibels 0 absent own own table 4) ≡ true) × (id ≡ 0))
        ⊎ ((absent (required decibels 0 absent own own table 4) ≡ false)
            × ((TooDemanding decibels 0 absent own own table
                    (required decibels 0 absent own own table 4)
                    fs
                  × (id ≡ 0))
                ⊎ Best decibels 0 absent own own table
                    (required decibels 0 absent own own table 4)
                    fs
                    id)))
get_nearest-Best_example =
    get_nearest-Best decibels 0 absent own own table text 4 decibels-TotalOrder decibels-Strict

nearest_of_four :
    get_nearest decibels 0 absent own own table 4 (parse decibels 0 absent own own table text) ≡ 3
unfolding get_nearest parse
nearest_of_four = refl
