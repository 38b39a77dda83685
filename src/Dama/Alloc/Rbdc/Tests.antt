-- ===== src/Dama/Alloc/Rbdc/Tests.antt =====
-- Rate-based allocations at concrete values, and the instances of their theorems.
use native.Mathlib.Nat.{div-mul-le_self, div-eq_of_eq-mul_left}
use opensand.Prelude.{◌+◌, ◌*◌, ◌≤◌, ◌≡◌, refl, List, [], ◌∷◌, arith, sum}
use opensand.Dama.Terminal.{
  Terminal, set_rbdc_allocation, add_rbdc_credit, sort_by_remaining_credit,
}
use opensand.Dama.Alloc.{each}
use opensand.Dama.Alloc.Examples.{units, tens, exact, wants, room}
use opensand.Dama.Alloc.Sort.{stable_sort}
use opensand.Dama.Alloc.Rbdc.{compute_rbdc, entry}
use opensand.Dama.Alloc.Rbdc.Quotients.{DoubleLaws}
use opensand.Dama.Alloc.Rbdc.Shares.{demands, Distinct, grant_each, integer_shares}
use opensand.Dama.Alloc.Rbdc.Fair.{compute_rbdc-full, compute_rbdc-cut}

abbrev tal : List (Terminal units)
tal = wants 1 40 ∷ wants 2 90 ∷ wants 3 50 ∷ []

-- 18 packets into 12: 2 + 6 + 3 are shared, and terminal 1 gets the slot that is left.
cut_run :
    ((compute_rbdc units tens exact tal (room 12)).1.remaining ≡ 0)
    × ((compute_rbdc units tens exact tal (room 12)).1.alloc ≡ 120)
unfolding compute_rbdc stable_sort sort_by_remaining_credit set_rbdc_allocation add_rbdc_credit each
    entry
cut_run = (refl, refl)

exact_laws : DoubleLaws exact
exact_laws = record {
  less_one = λ n d a b c. ground arith;
  one_less = λ n d a b c. ground arith;
  one_one = refl;
  floor_same = λ n d a b c. div-eq_of_eq-mul_left {n = 1 * (d * 1)} (omega arith) (omega arith);
  floor_one = λ n a. ground arith;
  floor_most = λ n t d a b c e.
      let most = div-mul-le_self (n * d) t in
      let same : 1 * d ≡ d = omega arith in
      let one : 1 * (t * 1) ≡ t = omega arith in rw (same, one) most;
}

distinct : Distinct units tens exact tal
distinct = ((omega arith, (omega arith, tt)), ((omega arith, tt), (tt, tt)))

demands_run : demands units tens exact tal ≡ 4 ∷ 9 ∷ 5 ∷ []
unfolding demands
demands_run = refl

compute_rbdc-full_example :
    ((compute_rbdc units tens exact tal (room 30)).0 ≡ grant_each units tens exact tal)
    × ((compute_rbdc units tens exact tal (room 30)).1.remaining
          + sum (demands units tens exact tal)
        ≡ 30)
compute_rbdc-full_example =
    compute_rbdc-full units tens exact exact_laws tal (room 30) distinct
      (unfold demands sum in omega arith) (unfold demands sum in omega arith)

compute_rbdc-cut_example :
    let dealt = sum (
      integer_shares units tens exact
        (sum (demands units tens exact tal))
        12
        (demands units tens exact tal)) in
    let left = (compute_rbdc units tens exact tal (room 12)).1.remaining in
    (dealt ≤ 12) × (left + dealt ≤ 12) × (12 ≤ left + dealt + 3)
compute_rbdc-cut_example =
    compute_rbdc-cut units tens exact exact_laws tal (room 12) distinct (omega arith)
      (unfold demands sum in omega arith) (unfold demands sum in omega arith)
