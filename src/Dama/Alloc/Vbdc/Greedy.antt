-- ===== src/Dama/Alloc/Vbdc/Greedy.antt =====
-- The volume allocation of a carrier, against the greedy rule.
use mathlib.Core.List.{Perm}
use mathlib.Core.List.Perm
use opensand.Prelude.{ℕ, ◌-◌, ◌≡◌, List, [], ◌∷◌, min, sum, arith}
use opensand.Dama.Terminal.{Terminal}
use opensand.Dama.Alloc.Vbdc.{fill}

-- The greedy grants use the capacity as far as it is asked for, and none is above its demand.
pub sum-fill : (c : ℕ) (ds : List ℕ) → sum (fill c ds) ≡ min c (sum ds)
unfolding fill sum
sum-fill c [] = omega arith
sum-fill c (d ∷ ds) = omega (arith, sum-fill (c - min d c) ds)
