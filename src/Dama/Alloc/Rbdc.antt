-- ===== src/Dama/Alloc/Rbdc.antt =====
-- `computeDamaRbdcPerCarrier`: rates are cut by a common factor when they exceed the capacity, and the
-- slots that the rounding leaves go to the terminals by their credits.
pub mod Quotients
pub mod Shares
pub mod Fair
mod Tests
use opensand.Prelude.{
  ℕ, ◌+◌, ◌-◌, Bool, Option, none, some, List, [], ◌∷◌, ltb, ◌==◌, if◌then◌else◌, u16, add16, sub16,
}
use opensand.Dama.Terminal.{
  Credits, Fmt, Terminal, set_rbdc_allocation, add_rbdc_credit, sort_by_remaining_credit,
}
use opensand.Dama.Alloc.{Rates, Totals, Doubles, each}
use opensand.Dama.Alloc.Sort.{stable_sort}

-- `tal_request_pktpf`: the entry in front hides those behind it. A missing entry reads as 0.
abbrev pub Table : Type 0
Table = List (ℕ × ℕ)

unfoldable pub entry : ℕ → Table → ℕ
entry tal_id [] = 0
entry tal_id ((id, pkt) ∷ es) = if id == tal_id then pkt else entry tal_id es

-- The loop that reads the requests: the table, their sum in packets, and the totals.
pub record Gathered : Type 0 where
  pub table : Table
  pub total : ℕ
  pub totals : Totals

module _ {K : Credits} (F : Doubles K) where
  open F use {Double, to_double, divide, less, floor}

  -- The factor by which requests are divided: at least 1.0.
  unfoldable pub fair_share : ℕ → ℕ → Double
  fair_share total_request_pktpf remaining_capacity_pktpf =
      let ratio = divide (to_double total_request_pktpf) (to_double remaining_capacity_pktpf) in
      if less ratio (to_double 1) then to_double 1 else ratio

  -- `fair_share > 1.0`
  unfoldable pub congested : ℕ → ℕ → Bool
  unfolding fair_share
  congested total capacity = less (to_double 1) (fair_share total capacity)

  -- `request_pktpf / fair_share`
  unfoldable pub fair_rbdc : ℕ → ℕ → ℕ → Double
  unfolding fair_share
  fair_rbdc total capacity request_pktpf =
      divide (to_double request_pktpf) (fair_share total capacity)

  -- Its integer part.
  unfoldable pub fair_floor : ℕ → ℕ → ℕ → ℕ
  unfolding fair_rbdc
  fair_floor total capacity request_pktpf = floor (fair_rbdc total capacity request_pktpf)

module _ (K : Credits) (R : Rates) (F : Doubles K) where
  open R use {kbps_to_pktpf, pktpf_to_kbps, add_fec, remove_fec}
  open F use {decimal_part, exceeds, minus_slot}

  abbrev pub rbdc_rate : Fmt → ℕ → ℕ
  rbdc_rate f pkt = u16 (remove_fec f (u16 (pktpf_to_kbps f.modulation_efficiency pkt)))

  abbrev pub rbdc_packets : Fmt → Terminal K → ℕ
  rbdc_packets f t =
      u16 (kbps_to_pktpf f.modulation_efficiency (u16 (add_fec f t.rbdc_request_kbps)))

  unfoldable pub read_request : Fmt → Terminal K → Gathered → Gathered
  read_request f t g =
      let request_pktpf = rbdc_packets f t in
      record {
        table = (t.tal_id, request_pktpf) ∷ g.table;
        total = add16 g.total request_pktpf;
        totals = record g.totals {
          efficiency = f.modulation_efficiency;
          request = add16 g.totals.request (rbdc_rate f request_pktpf);
          req_num = if ltb 0 request_pktpf then g.totals.req_num + 1 else g.totals.req_num;
        };
      }

  unfoldable pub read_all : List (Terminal K) → Gathered → Gathered
  unfolding read_request
  read_all [] g = g
  read_all (t ∷ ts) g = read_all ts (elim t.fmt [ none ↦ g | some f ↦ read_request f t g ])

  -- The first step, for the requests and the capacity before it: the integer part of the fair share.
  unfoldable pub share_with : Table → ℕ → ℕ → Fmt → Terminal K → Totals → Terminal K × Totals
  unfolding congested fair_rbdc fair_floor
  share_with table total capacity f t s =
      let request_pktpf = entry t.tal_id table in
      let alloc_pktpf = u16 (fair_floor F total capacity request_pktpf) in
      let alloc_kbps = rbdc_rate f alloc_pktpf in
      let t' = set_rbdc_allocation K alloc_kbps t in
      (
        if congested F total capacity
            then add_rbdc_credit K
                (decimal_part f (fair_rbdc F total capacity request_pktpf) alloc_pktpf) t'
            else t',
        record s {
          efficiency = f.modulation_efficiency;
          alloc = add16 s.alloc alloc_kbps;
          remaining = sub16 s.remaining alloc_pktpf;
        },
      )

  unfoldable pub share : Table → ℕ → ℕ → Terminal K → Totals → Terminal K × Totals
  unfolding share_with
  share table total capacity t s = elim t.fmt [
    | none ↦ (t, s)
    | some f ↦ share_with table total capacity f t s
  ]

  -- The second step: one slot to a terminal whose credit and limit allow it. The test is on `int`s.
  unfoldable pub slot_with : Fmt → Terminal K → Totals → Terminal K × Totals
  slot_with f t s =
      let slot_kbps = rbdc_rate f 1 in
      let s' = record s { efficiency = f.modulation_efficiency } in
      if exceeds t.rbdc_credit slot_kbps
      then (if ltb (slot_kbps + t.rbdc_alloc_kbps + t.cra_alloc_kbps) t.max_rbdc_kbps
          then (
            add_rbdc_credit K (minus_slot slot_kbps)
                (set_rbdc_allocation K (add16 t.rbdc_alloc_kbps slot_kbps) t),
            record s' { alloc = add16 s.alloc slot_kbps; remaining = sub16 s.remaining 1 },
          )
          else (t, s'))
      else (t, s')

  unfoldable pub slot : Terminal K → Totals → Terminal K × Totals
  unfolding slot_with
  slot t s = elim t.fmt [ none ↦ (t, s) | some f ↦ slot_with f t s ]

  unfoldable pub slots : List (Terminal K) → Totals → List (Terminal K) × Totals
  unfolding slot
  slots [] s = ([], s)
  slots (t ∷ ts) s =
      let (t', s') = slot t s in
      let rest = slots ts s' in if ltb 0 s.remaining then (t' ∷ rest.0, rest.1) else (t ∷ ts, s)

  -- The function: the terminals in the order of the last loop, and the totals. `request` and `alloc`
  -- are reset first.
  unfoldable pub compute_rbdc : List (Terminal K) → Totals → List (Terminal K) × Totals
  unfolding read_all share slots congested
  compute_rbdc tal s =
      let start = record s { remaining = u16 s.remaining; request = 0; alloc = 0 } in
      let g = read_all tal (record { table = []; total = 0; totals = start }) in
      let (shared, s') = each (share g.table g.total start.remaining) tal g.totals in
      let rest = slots (stable_sort (sort_by_remaining_credit K) shared) s' in
      if start.remaining == 0
      then (tal, start)
      else if g.total == 0
      then (tal, g.totals)
      else if congested F g.total start.remaining
      then rest
      else (shared, s')
