-- ===== src/Dama/Alloc/Rbdc/Fair.antt =====
-- The rate-based allocation of a carrier, without congestion and with it.
use native.Mathlib.Nat.{le_of_mul-le-mul_right, mul_comm}
use opensand.Prelude.{
  ℕ, ◌+◌, ◌*◌, ◌≤◌, ◌<◌, ◌≡◌, refl, ap, ap₂, ◌∙◌, true, false, List, [], ◌∷◌, ◌==◌, u16, u16_mod,
  sum, arith, length, ltb_of_le,
}
use opensand.Dama.Terminal.{Credits, Terminal, sort_by_remaining_credit}
use opensand.Dama.Alloc.{Rates, Totals, Doubles, each}
use opensand.Dama.Alloc.Sort.{stable_sort, length-stable_sort}
use opensand.Dama.Alloc.Rbdc.{Table, Gathered, read_all, share, compute_rbdc, congested, fair_floor}
use opensand.Dama.Alloc.Rbdc.Quotients.{DoubleLaws, congested-ltb, fair_floor-whole, fair_floor-cut}
use opensand.Dama.Alloc.Rbdc.Shares.{
  demands, Distinct, Agree, integer_shares, grant_each, total-read_all, read_all-Agree,
  remaining-each, remaining-slots, length-each, sum_mul-cut, sum-whole, share-whole,
}

module _ (K : Credits) (R : Rates) (F : Doubles K) (laws : DoubleLaws F) where
  -- The state before the requests are read.
  abbrev first : Totals → Gathered
  first s = record {
    table = [];
    total = 0;
    totals = record s { remaining = u16 s.remaining; request = 0; alloc = 0 };
  }

  each-whole :
      (table : Table) (total capacity : ℕ) (ts : List (Terminal K)) (s : Totals)
      → Agree K R F table ts
      → total ≤ capacity
      → 0 < capacity
      → capacity < u16_mod
      → sum (demands K R F ts) < u16_mod
      → (each (share K R F table total capacity) ts s).0 ≡ grant_each K R F ts
  unfolding each demands sum grant_each
  each-whole table total capacity [] s a h p k b = refl
  each-whole table total capacity (t ∷ ts) s a h p k b =
      ap₂ ◌∷◌ (share-whole K R F laws table total capacity t s a.0 h p k (omega arith)) (
        each-whole table total capacity ts (share K R F table total capacity t s).1 a.1 h p k
          (omega arith))

  -- Let doubles divide, compare and round down 16-bit words as IEEE 754 has it, and the terminals' ids be
  -- distinct. If there are requests and they fit into the capacity, every terminal gets the rate of all the packets that it asks
  -- for, and the rest of the capacity remains.
  pub compute_rbdc-full :
      (tal : List (Terminal K)) (s : Totals)
      → Distinct K R F tal
      → let total = sum (demands K R F tal) in
        0 < total
        → total ≤ u16 s.remaining
        → ((compute_rbdc K R F tal s).0 ≡ grant_each K R F tal)
          × ((compute_rbdc K R F tal s).1.remaining + total ≡ u16 s.remaining)
  unfolding compute_rbdc
  compute_rbdc-full tal s d p h =
      let c : ℕ = u16 s.remaining in
      let g = read_all K R F tal (first s) in
      let (e, r) = total-read_all K R F tal (first s) (omega arith) in
      let a = read_all-Agree K R F tal (first s) d in
      let nonzero : (u16 s.remaining == 0) ≡ false = ground arith in
      let some_request : (g.total == 0) ≡ false = ground arith in
      let calm : congested F g.total c ≡ false =
        congested-ltb F laws g.total c (omega arith) (omega arith) (omega arith)
        ∙ ltb_of_le c g.total (omega arith) in
      let small : sum (demands K R F tal) < u16_mod = omega arith in
      let left =
        remaining-each K R F g.table g.total c tal g.totals a
          (fair_floor-whole F laws g.total c 0 (omega arith) (omega arith) (omega arith)
            (omega arith))
          (omega (
            arith,
            sum-whole K R F laws g.total c (demands K R F tal) (omega arith) (omega arith)
                (omega arith) small,
          ))
          (omega arith) in
      rw (nonzero, some_request, calm)
        (
          each-whole g.table g.total c tal g.totals a (omega arith) (omega arith) (omega arith)
              small,
          omega (
            arith,
            left,
            sum-whole K R F laws g.total c (demands K R F tal) (omega arith) (omega arith)
                (omega arith) small,
          ),
        )

  dealt-le :
      (total capacity : ℕ) (ds : List ℕ)
      → total ≡ sum ds
      → 0 < capacity
      → capacity < total
      → total < u16_mod
      → sum (integer_shares K R F total capacity ds) ≤ capacity
  dealt-le total capacity ds e p h k =
      le_of_mul-le-mul_right {k = total}
        (omega (
          arith,
          sum_mul-cut K R F laws total capacity ds p h k (omega arith),
          ap (λ x. x * capacity) e,
          mul_comm total capacity,
        ))
        (omega arith)

  fair_floor-zero :
      (total capacity : ℕ)
      → 0 < capacity
      → capacity < total
      → total < u16_mod
      → fair_floor F total capacity 0 ≡ 0
  fair_floor-zero total capacity p h k =
      let below : fair_floor F total capacity 0 ≤ 0 =
        le_of_mul-le-mul_right {k = total}
          (omega (arith, fair_floor-cut F laws total capacity 0 p h k (omega arith)))
          (omega arith) in
      omega arith

  -- Let doubles divide, compare and round down 16-bit words as IEEE 754 has it, and the terminals' ids be
  -- distinct. If there is capacity and the requests exceed it, in total a 16-bit word, every terminal is due the integer part of its fair share;
  -- these shares fit into the capacity, and what they leave goes down by at most one packet for each
  -- terminal. The remaining capacity never wraps.
  pub compute_rbdc-cut :
      (tal : List (Terminal K)) (s : Totals)
      → Distinct K R F tal
      → let total = sum (demands K R F tal) in
        let c = u16 s.remaining in
        let dealt = sum (integer_shares K R F total c (demands K R F tal)) in
        let left = (compute_rbdc K R F tal s).1.remaining in
        0 < c
        → c < total
        → total < u16_mod
        → (dealt ≤ c) × (left + dealt ≤ c) × (c ≤ left + dealt + length tal)
  unfolding compute_rbdc
  compute_rbdc-cut tal s d p h k =
      let c : ℕ = u16 s.remaining in
      let g = read_all K R F tal (first s) in
      let (e, r) = total-read_all K R F tal (first s) (omega arith) in
      let a = read_all-Agree K R F tal (first s) d in
      let ds = demands K R F tal in
      let total_eq : g.total ≡ sum ds = omega arith in
      let dealt_eq = ap (λ x. sum (integer_shares K R F x c ds)) total_eq in
      let within = dealt-le (sum ds) c ds refl p h k in
      let left =
        remaining-each K R F g.table g.total c tal g.totals a
          (fair_floor-zero g.total c p (omega arith) (omega arith)) (omega arith) (omega arith) in
      let shared = each (share K R F g.table g.total c) tal g.totals in
      let order = stable_sort (sort_by_remaining_credit K) shared.0 in
      let (low, high) = remaining-slots K R F order shared.1 (omega arith) in
      let many =
        length-stable_sort (sort_by_remaining_credit K) shared.0
        ∙ length-each K R F g.table g.total c tal g.totals in
      let nonzero : (c == 0) ≡ false = ground arith in
      let some_request : (g.total == 0) ≡ false = ground arith in
      let busy : congested F g.total c ≡ true =
        congested-ltb F laws g.total c (omega arith) p (omega arith) ∙ (ground arith) in
      rw (nonzero, some_request, busy) (within, omega arith, omega arith)
