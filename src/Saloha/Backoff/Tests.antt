-- ===== src/Saloha/Backoff/Tests.antt =====
-- Backoffs at concrete values, and the instances of their theorems. A draw takes half of the window.
use opensand.Prelude.{ℕ, ◌/◌, ◌^◌, ◌≤◌, ◌≡◌, refl, true, some, List, [], ◌∷◌, arith, min}
use opensand.Saloha.Backoff.{
  beb, eied, Backoff, set_ready, set_collision, is_ready, new_backoff, Call, ready, collision,
  ticks, run,
}
use opensand.Saloha.Backoff.Windows.{Bounded, AllDraw, raw, run-Bounded, new_backoff-Closed}
use opensand.Saloha.Backoff.Exponential.{collide, set_ready-collide}

abbrev half : ℕ → ℕ
half cw = cw / 2

half-le : (cw : ℕ) → half cw ≤ cw
half-le cw = ground arith

abbrev calls : List Call
calls = ready half ∷ collision half ∷ collision half ∷ ticks ∷ collision half ∷ []

draws : AllDraw calls
draws = (half-le, (half-le, (half-le, (tt, (half-le, tt)))))

abbrev opened : Backoff
opened = record (raw beb 50 4) { cw = 1 }

run-Bounded_example : (b : Backoff) × (run opened calls ≡ some b) × Bounded b
run-Bounded_example = run-Bounded opened calls draws (record {
  least = refl;
  factor = omega arith;
  room = omega arith;
  word = omega arith;
  product = omega arith;
  window = omega arith;
  wait = omega arith;
})

new_backoff-Closed_example :
    (b b' : Backoff) × (new_backoff eied half 50 4 ≡ some b)
    × (run b calls ≡ some b')
    × (b'.cw ≡ 0)
    × (is_ready b' ≡ true)
new_backoff-Closed_example =
    new_backoff-Closed eied half 50 4 calls (λ e. cc) (omega arith) (half-le, draws)

-- 1, 4, 16, and then the maximum.
set_ready-collide_example :
    (c : Backoff) × (set_ready beb half (raw beb 50 4) ≡ some c)
    × ((collide (half ∷ half ∷ half ∷ []) c).cw ≡ min (4 ^ 3) 50)
set_ready-collide_example =
    set_ready-collide half (half ∷ half ∷ half ∷ []) (raw beb 50 4) refl (omega arith) (omega arith)
      (omega arith) (omega arith)

-- With a large factor the product overflows, and the window is more than the maximum.
overflows :
    (set_collision half (set_collision half (record (raw beb 40000 60001) { cw = 1 }))).cw ≡ 46144
unfolding set_collision
overflows = refl
