-- ===== src/Fmt/Tests.antt =====
-- The table at concrete inputs, with thresholds that are whole numbers of dB.
use opensand.Prelude.{ℕ, ◌≡◌, refl, true, List, [], ◌∷◌, ltb, leb, arith, All}
use opensand.Fmt.{Levels, get_required_modcod, get_min_id}
use opensand.Fmt.Modcod.{TotalOrder, Supported, Best, get_required_modcod-Best}

abbrev whole : Levels
whole = record { Level = ℕ; greater = λ a b. ltb b a; at_least = λ a b. leb b a }

whole-TotalOrder : TotalOrder whole
whole-TotalOrder = record {
  at_least_refl = λ a. ground arith;
  at_least_trans = λ a b c h k. ground arith;
  at_least_total = λ a b h. ground arith;
}

abbrev three : List (ℕ × ℕ)
three = (1, 2) ∷ (2, 5) ∷ (3, 9) ∷ []

chosen :
    (get_required_modcod whole (λ d. d) 6 three ≡ 2)
    × (get_required_modcod whole (λ d. d) 9 three ≡ 3)
    × (get_required_modcod whole (λ d. d) 1 three ≡ 1)
unfolding get_required_modcod
chosen = (refl, refl, refl)

-- Where the first format is not the least demanding, a format that is supported is passed over.
passed_over : get_required_modcod whole (λ d. d) 6 ((1, 7) ∷ (2, 5) ∷ []) ≡ 1
unfolding get_required_modcod
passed_over = refl

get_required_modcod-Best_example :
    (Supported whole (λ d. d) 6 (1, 2)
      → Best whole (λ d. d) 6 three (get_required_modcod whole (λ d. d) 6 three))
    × (All (λ e. leb 2 e.1 ≡ true → ltb 6 e.1 ≡ true) three
        → get_required_modcod whole (λ d. d) 6 three ≡ get_min_id three)
get_required_modcod-Best_example =
    get_required_modcod-Best whole (λ d. d) 6 whole-TotalOrder 1 2 ((2, 5) ∷ (3, 9) ∷ [])
      (omega arith, (omega arith, (omega arith, tt)))
