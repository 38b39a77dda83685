-- ===== src/Dama/Alloc/Rbdc/Shares.antt =====
-- What the rate-based allocation of a carrier hands out.
use native.Mathlib.Nat.{add-mul}
use opensand.Prelude.{
  ltb_of_le, ℕ, suc, ◌+◌, ◌-◌, ◌*◌, ◌≤◌, ◌<◌, ◌≡◌, ◌≢◌, refl, ap, ◌∙◌, false, none, some, List, [],
  ◌∷◌, ltb, u16_mod, sum, arith, length, Bool-cases, inl, inr, Option-cases,
}
use opensand.Dama.Terminal.{Credits, Fmt, Terminal, set_rbdc_allocation}
use opensand.Dama.Alloc.{Rates, Totals, Doubles, each}
use opensand.Dama.Alloc.Rbdc.{
  congested, fair_floor, Table, entry, Gathered, rbdc_rate, rbdc_packets, read_request, read_all,
  share_with, share, slot_with, slot, slots,
}
use opensand.Dama.Alloc.Rbdc.Quotients.{DoubleLaws, congested-ltb, fair_floor-whole, fair_floor-cut}

module _ (K : Credits) (R : Rates) (F : Doubles K) where
  -- The packets that a terminal asks for.
  unfoldable pub demand : Terminal K → ℕ
  demand t = elim t.fmt [ none ↦ 0 | some f ↦ rbdc_packets K R F f t ]

  unfoldable pub demands : List (Terminal K) → List ℕ
  unfolding demand
  demands [] = []
  demands (t ∷ ts) = demand t ∷ demands ts

  -- No terminal of the list has the identifier.
  abbrev pub NotIn : ℕ → List (Terminal K) → Type 0
  NotIn id [] = Unit {0}
  NotIn id (t ∷ ts) = (t.tal_id ≢ id) × NotIn id ts

  abbrev pub Distinct : List (Terminal K) → Type 0
  Distinct [] = Unit {0}
  Distinct (t ∷ ts) = NotIn t.tal_id ts × Distinct ts

  -- The table holds the demands of the terminals with a format.
  abbrev pub Agree : Table → List (Terminal K) → Type 0
  Agree table [] = Unit {0}
  Agree table (t ∷ ts) =
      ((f : Fmt) → t.fmt ≡ some f → entry t.tal_id table ≡ demand t) × Agree table ts

  abbrev pub reads : Terminal K → Gathered → Gathered
  reads t g = elim t.fmt [ none ↦ g | some f ↦ read_request K R F f t g ]

  total-reads :
      (t : Terminal K) (g : Gathered)
      → g.total + demand t < u16_mod
      → ((reads t g).total ≡ g.total + demand t)
        × ((reads t g).totals.remaining ≡ g.totals.remaining)
  unfolding demand read_request
  total-reads t g h = ground arith

  pub total-read_all :
      (ts : List (Terminal K)) (g : Gathered)
      → g.total + sum (demands ts) < u16_mod
      → ((read_all K R F ts g).total ≡ g.total + sum (demands ts))
        × ((read_all K R F ts g).totals.remaining ≡ g.totals.remaining)
  unfolding read_all demands sum
  total-read_all [] g h = (omega arith, refl)
  total-read_all (t ∷ ts) g h =
      let (e, r) = total-reads t g (omega arith) in
      let (e', r') = total-read_all ts (reads t g) (omega arith) in (omega arith, r' ∙ r)

  entry-reads :
      (id : ℕ) (t : Terminal K) (g : Gathered)
      → t.tal_id ≢ id
      → entry id (reads t g).table ≡ entry id g.table
  unfolding entry read_request
  entry-reads id t g h = ground arith

  entry-read_all :
      (id : ℕ) (ts : List (Terminal K)) (g : Gathered)
      → NotIn id ts
      → entry id (read_all K R F ts g).table ≡ entry id g.table
  unfolding read_all
  entry-read_all id [] g h = refl
  entry-read_all id (t ∷ ts) g h = entry-read_all id ts (reads t g) h.1 ∙ entry-reads id t g h.0

  entry-own :
      (t : Terminal K) (g : Gathered) (f : Fmt)
      → t.fmt ≡ some f
      → entry t.tal_id (reads t g).table ≡ demand t
  unfolding entry read_request demand
  entry-own t g f e = ground arith

  pub read_all-Agree :
      (ts : List (Terminal K)) (g : Gathered) → Distinct ts → Agree (read_all K R F ts g).table ts
  unfolding read_all
  read_all-Agree [] g d = tt
  read_all-Agree (t ∷ ts) g d = (
    λ f e. entry-read_all t.tal_id ts (reads t g) d.0 ∙ entry-own t g f e,
    read_all-Agree ts (reads t g) d.1,
  )

  -- The integer shares of the demands.
  unfoldable pub integer_shares : ℕ → ℕ → List ℕ → List ℕ
  integer_shares total capacity [] = []
  integer_shares total capacity (d ∷ ds) =
      fair_floor F total capacity d ∷ integer_shares total capacity ds

  demand-none : (t : Terminal K) → t.fmt ≡ none → demand t ≡ 0
  unfolding demand
  demand-none t e = rw e refl

  remaining-share :
      (table : Table) (total capacity : ℕ) (t : Terminal K) (s : Totals)
      → ((f : Fmt) → t.fmt ≡ some f → entry t.tal_id table ≡ demand t)
      → fair_floor F total capacity 0 ≡ 0
      → fair_floor F total capacity (demand t) ≤ s.remaining
      → s.remaining < u16_mod
      → (share K R F table total capacity t s).1.remaining
        ≡ s.remaining - fair_floor F total capacity (demand t)
  unfolding share share_with
  remaining-share table total capacity t s a z h b = elim (Option-cases t.fmt) [
    | inl e ↦ let d = demand-none t e in ground (arith, ap (fair_floor F total capacity) d)
    | inr (f, e) ↦ let d = ap (fair_floor F total capacity) (a f e) in ground (arith, d)
  ]

  pub remaining-each :
      (table : Table) (total capacity : ℕ) (ts : List (Terminal K)) (s : Totals)
      → Agree table ts
      → fair_floor F total capacity 0 ≡ 0
      → sum (integer_shares total capacity (demands ts)) ≤ s.remaining
      → s.remaining < u16_mod
      → (each (share K R F table total capacity) ts s).1.remaining
        ≡ s.remaining - sum (integer_shares total capacity (demands ts))
  unfolding each demands integer_shares sum
  remaining-each table total capacity [] s a z h b = omega arith
  remaining-each table total capacity (t ∷ ts) s a z h b =
      let e = remaining-share table total capacity t s a.0 z (omega arith) b in
      omega (
        arith,
        e,
        remaining-each table total capacity ts (share K R F table total capacity t s).1 a.1 z
            (omega arith) (omega arith),
      )

  remaining-slot :
      (t : Terminal K) (s : Totals)
      → 0 < s.remaining
      → s.remaining < u16_mod
      → ((slot K R F t s).1.remaining ≤ s.remaining)
        × (s.remaining ≤ (slot K R F t s).1.remaining + 1)
  unfolding slot slot_with
  remaining-slot t s p b = ground arith

  -- The last loop hands out at most one slot to each terminal, and none that is not there.
  pub remaining-slots :
      (ts : List (Terminal K)) (s : Totals)
      → s.remaining < u16_mod
      → ((slots K R F ts s).1.remaining ≤ s.remaining)
        × (s.remaining ≤ (slots K R F ts s).1.remaining + length ts)
  unfolding slots
  remaining-slots [] s b = (omega arith, omega arith)
  remaining-slots (t ∷ ts) s b = elim (Bool-cases (ltb 0 s.remaining)) [
    | inl more ↦
        let (e, l) = remaining-slot t s (ground arith) b in
        let (e', l') = remaining-slots ts (slot K R F t s).1 (omega arith) in
        rw more (omega arith, omega arith)
    | inr used ↦ rw used (omega arith, omega arith)
  ]

  pub length-each :
      (table : Table) (total capacity : ℕ) (ts : List (Terminal K)) (s : Totals)
      → length (each (share K R F table total capacity) ts s).0 ≡ length ts
  unfolding each
  length-each table total capacity [] s = refl
  length-each table total capacity (t ∷ ts) s =
      ap suc (length-each table total capacity ts (share K R F table total capacity t s).1)

  -- A terminal that is granted all that it asks for.
  unfoldable pub grant_all : Terminal K → Terminal K
  grant_all t = elim t.fmt [
    | none ↦ t
    | some f ↦ set_rbdc_allocation K (rbdc_rate K R F f (demand t)) t
  ]

  unfoldable pub grant_each : List (Terminal K) → List (Terminal K)
  unfolding grant_all
  grant_each [] = []
  grant_each (t ∷ ts) = grant_all t ∷ grant_each ts

  module _ (laws : DoubleLaws F) where
    pub sum_mul-cut :
        (total capacity : ℕ) (ds : List ℕ)
        → 0 < capacity
        → capacity < total
        → total < u16_mod
        → sum ds < u16_mod
        → sum (integer_shares total capacity ds) * total ≤ sum ds * capacity
    unfolding integer_shares sum
    sum_mul-cut total capacity [] p h k b = omega arith
    sum_mul-cut total capacity (d ∷ ds) p h k b =
        let e =
          add-mul (fair_floor F total capacity d) (sum (integer_shares total capacity ds)) total in
        let e' = add-mul d (sum ds) capacity in
        omega (
          arith,
          e,
          e',
          fair_floor-cut F laws total capacity d p h k (omega arith),
          sum_mul-cut total capacity ds p h k (omega arith),
        )

    pub sum-whole :
        (total capacity : ℕ) (ds : List ℕ)
        → total ≤ capacity
        → 0 < capacity
        → capacity < u16_mod
        → sum ds < u16_mod
        → sum (integer_shares total capacity ds) ≡ sum ds
    unfolding integer_shares sum
    sum-whole total capacity [] h p k b = refl
    sum-whole total capacity (d ∷ ds) h p k b = omega (
      arith,
      fair_floor-whole F laws total capacity d h p k (omega arith),
      sum-whole total capacity ds h p k (omega arith),
    )

    pub share-whole :
        (table : Table) (total capacity : ℕ) (t : Terminal K) (s : Totals)
        → ((f : Fmt) → t.fmt ≡ some f → entry t.tal_id table ≡ demand t)
        → total ≤ capacity
        → 0 < capacity
        → capacity < u16_mod
        → demand t < u16_mod
        → (share K R F table total capacity t s).0 ≡ grant_all t
    unfolding share share_with grant_all
    share-whole table total capacity t s a h p k b = elim (Option-cases t.fmt) [
      | inl e ↦ ground arith
      | inr (f, e) ↦
          let d = a f e in
          let w =
            ap (fair_floor F total capacity) d
            ∙ fair_floor-whole F laws total capacity (demand t) h p k b in
          let c : congested F total capacity ≡ false =
            congested-ltb F laws total capacity (omega arith) p k ∙ ltb_of_le capacity total h in
          ground (arith, w, c)
    ]
