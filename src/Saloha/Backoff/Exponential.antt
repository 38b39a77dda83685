-- ===== src/Saloha/Backoff/Exponential.antt =====
-- Binary exponential backoff: the window after a number of collisions in a row.
use native.Mathlib.Nat.{pow-suc, pow-zero, mul-le-mul_right, mul-le-mul_left, mul-one}
use native.Mathlib.Decide.{dec_lt}
use opensand.Prelude.{
  ℕ, ◌*◌, ◌^◌, ◌≤◌, ◌<◌, ◌≡◌, refl, ap, ap₂, sym, ◌∙◌, some, List, [], ◌∷◌, min, u16, u16_mod,
  arith, length, ltb, true,
}
use opensand.Saloha.Backoff.{
  beb, Backoff, set_ready, set_collision, next_window, randomize, int_limit,
}

-- Collisions in a row, each with its draw, the latest one first.
unfoldable pub collide : List (ℕ → ℕ) → Backoff → Backoff
unfolding set_collision
collide [] b = b
collide (draw ∷ draws) b = set_collision draw (collide draws b)

-- One more factor, under the maximum, as it is stored.
step-min : (p m max : ℕ) → 1 ≤ m → max < u16_mod → u16 (min (min p max * m) max) ≡ min (p * m) max
step-min p m max h k = elim (dec_lt max p) [
  | yes above ↦
      let e : min p max ≡ max = omega arith in
      let big : max ≤ max * m = omega (arith, mul-le-mul_left max h, mul-one max) in
      let bigger : max ≤ p * m =
        omega (arith, big, mul-le-mul_right {m = max} {n = p} m (omega arith)) in
      rw e (omega arith)
  | no within ↦ let e : min p max ≡ p = omega arith in rw e (omega arith)
]

next_window-min :
    (p m max : ℕ)
    → 1 ≤ m
    → max < u16_mod
    → max * m < int_limit
    → next_window (min p max) m max ≡ min (p * m) max
unfolding next_window
next_window-min p m max h k small =
    let below : min p max * m ≤ max * m = mul-le-mul_right m (omega arith) in
    let fits : ltb (min p max * m) int_limit ≡ true = ground (arith, below, small) in
    rw fits (step-min p m max h k)

fields-collide :
    (draws : List (ℕ → ℕ)) (b : Backoff)
    → ((collide draws b).multiple ≡ b.multiple) × ((collide draws b).cw_max ≡ b.cw_max)
unfolding collide set_collision randomize
fields-collide [] b = (refl, refl)
fields-collide (draw ∷ draws) b = fields-collide draws b

cw-collide :
    (draws : List (ℕ → ℕ)) (b : Backoff)
    → b.cw ≡ 1
    → 1 ≤ b.cw_max
    → 1 ≤ b.multiple
    → b.cw_max < u16_mod
    → b.cw_max * b.multiple < int_limit
    → (collide draws b).cw ≡ min (b.multiple ^ length draws) b.cw_max
unfolding collide set_collision randomize
cw-collide [] b e h k l s = omega (arith, e, pow-zero b.multiple)
cw-collide (draw ∷ draws) b e h k l s =
    let (m, x) = fields-collide draws b in
    let again = cw-collide draws b e h k l s in
    ap₂ (λ w f. next_window w f (collide draws b).cw_max) again m
    ∙ ap (λ y. next_window (min (b.multiple ^ length draws) b.cw_max) b.multiple y) x
    ∙ next_window-min (b.multiple ^ length draws) b.multiple b.cw_max k l s
    ∙ ap (λ y. min y b.cw_max) (sym (pow-suc b.multiple (length draws)))

-- After a success and `n` collisions in a row, whatever is drawn, the window of the BEB backoff is the
-- `n`-th power of its factor, up to the maximum. The maximum and the factor are at least 1, the smallest
-- window is 1, the maximum is a 16-bit word, and the product of the maximum and the factor fits an `int`.
pub set_ready-collide :
    (draw : ℕ → ℕ) (draws : List (ℕ → ℕ)) (b : Backoff)
    → b.cw_min ≡ 1
    → 1 ≤ b.cw_max
    → 1 ≤ b.multiple
    → b.cw_max < u16_mod
    → b.cw_max * b.multiple < int_limit
    → (c : Backoff) × (set_ready beb draw b ≡ some c)
      × ((collide draws c).cw ≡ min (b.multiple ^ length draws) b.cw_max)
unfolding set_ready randomize
set_ready-collide draw draws b e h k l s = (_, refl, cw-collide draws _ e h k l s)
