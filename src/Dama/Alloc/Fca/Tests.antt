-- ===== src/Dama/Alloc/Fca/Tests.antt =====
-- Free capacity at concrete values, and the instances of the theorems.
use mathlib.Core.List.{Perm}
use opensand.Prelude.{◌+◌, ◌≡◌, refl, none, some, List, [], ◌∷◌, arith, sum}
use opensand.Dama.Terminal.{Terminal, set_fca_allocation, sort_by_remaining_credit}
use opensand.Dama.Alloc.{Totals}
use opensand.Dama.Alloc.Examples.{units, tens, fmt, terminal, room}
use opensand.Dama.Alloc.Sort.{stable_sort, Ordered}
use opensand.Dama.Alloc.Fca.{compute_fca, fca_loop}
use opensand.Dama.Alloc.Fca.Portions.{
  demands, portions, grant_each, compute_fca-portions, fca_loop-stuck,
}

abbrev tal : List (Terminal units)
tal = terminal 1 0 0 ∷ terminal 2 0 0 ∷ []

-- Five packets each, of eight.
fca_run :
    (r : List (Terminal units) × Totals) × (compute_fca units tens 3 50 tal (room 8) ≡ some r)
    × (r.1.alloc ≡ 80)
unfolding compute_fca stable_sort sort_by_remaining_credit set_fca_allocation
fca_run = (_, refl, refl)

compute_fca-portions_example :
    (order : List (Terminal units)) × Perm order tal
    × Ordered (sort_by_remaining_credit units) order
    × (end : Totals) × (let ps = portions 8 (demands units tens 50 2 order) in
        (compute_fca units tens 3 50 tal (room 8) ≡ some (grant_each units tens 2 ps order, end))
        × (end.remaining + sum ps ≡ 8))
compute_fca-portions_example =
    compute_fca-portions units tens 50 tal (room 8) (λ a b h. ground arith)
      ((fmt, refl), ((fmt, refl), tt)) (omega arith) (omega arith)

fca_loop-stuck_example :
    fca_loop units tens 1000 50 (record (terminal 1 0 0) { fmt = none } ∷ tal) (room 8) ≡ none
fca_loop-stuck_example =
    fca_loop-stuck units tens 1000 50 (record (terminal 1 0 0) { fmt = none }) tal (room 8) refl
      (omega arith)
