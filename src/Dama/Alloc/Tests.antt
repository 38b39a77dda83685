-- ===== src/Dama/Alloc/Tests.antt =====
-- Allocations at concrete values, and the instances of their theorems.
use opensand.Prelude.{◌+◌, ◌≤◌, ◌≡◌, refl, List, [], ◌∷◌, sum}
use opensand.Dama.Terminal.{Terminal, sort_by_vbdc_req, set_vbdc_allocation, set_cra_allocation}
use opensand.Dama.Alloc.{Totals}
use opensand.Dama.Alloc.Examples.{units, tens, terminal}
use opensand.Dama.Alloc.Sort.{stable_sort}
use opensand.Dama.Alloc.Vbdc
use opensand.Dama.Alloc.Vbdc.{compute_vbdc}
use opensand.Dama.Alloc.Cra
use opensand.Dama.Alloc.Cra.{compute_cra}
use opensand.Dama.Alloc.Cra.FirstFit
use opensand.Dama.Alloc.Cra.FirstFit.{taken, served, compute_cra-first_fit}

abbrev terminals : List (Terminal units)
terminals = terminal 1 40 25 ∷ terminal 2 90 100 ∷ terminal 3 15 60 ∷ []

abbrev totals : Totals
totals = record { efficiency = 2; remaining = 12; request = 0; alloc = 0; req_num = 0 }

-- Terminal 2 gets 10 packets, terminal 3 the two that are left.
vbdc_run : (compute_vbdc units tens terminals totals).1.alloc ≡ 120
unfolding compute_vbdc stable_sort sort_by_vbdc_req set_vbdc_allocation
vbdc_run = refl

-- Terminals 1 and 3 fit, terminal 2 does not.
cra_run :
    ((compute_cra units tens terminals totals).1.remaining ≡ 6)
    × ((compute_cra units tens terminals totals).1.alloc ≡ 60)
unfolding compute_cra set_cra_allocation
cra_run = (refl, refl)

compute_cra-first_fit_example :
    let ds = Cra.demands units tens terminals in
    let out = compute_cra units tens terminals totals in
    (out.0 ≡ FirstFit.grant_each units tens (served 12 ds) terminals)
    × (out.1.remaining + taken 12 ds ≡ 12)
    × (sum ds ≤ 12 → out.1.remaining + sum ds ≡ 12)
compute_cra-first_fit_example = compute_cra-first_fit units tens terminals totals
