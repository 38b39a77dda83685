-- ===== src/Dama/Alloc/Fca.antt =====
-- `computeDamaFcaPerCarrier`: the free capacity is given out in equal portions, in the order of the
-- credits, until it is used up. The loop does not advance at a terminal without a format: it runs on
-- fuel, and `none` says that the fuel was used up.
pub mod Portions
mod Tests
use opensand.Prelude.{
  ℕ, zero, suc, ◌+◌, ◌-◌, Bool, Option, none, some, List, [], ◌∷◌, ltb, if◌then◌else◌, ◌==◌, u16,
  add16, sub16, length,
}
use opensand.Dama.Terminal.{Credits, Fmt, Terminal, set_fca_allocation, sort_by_remaining_credit}
use opensand.Dama.Alloc.{Rates, Totals}
use opensand.Dama.Alloc.Sort.{stable_sort}

module _ (K : Credits) (R : Rates) where
  open R use {kbps_to_pktpf, pktpf_to_kbps, add_fec, remove_fec}

  -- The packets of a terminal's portion. The converter keeps the efficiency that it was left with.
  abbrev pub fca_packets : ℕ → Fmt → ℕ → ℕ
  fca_packets fca_kbps f efficiency = u16 (kbps_to_pktpf efficiency (u16 (add_fec f fca_kbps)))

  abbrev pub fca_rate : Fmt → ℕ → ℕ → ℕ
  fca_rate f efficiency pkt = u16 (remove_fec f (u16 (pktpf_to_kbps efficiency pkt)))

  -- The body of the loop, for a terminal with a format.
  unfoldable pub fca_step : ℕ → Fmt → Terminal K → Totals → Terminal K × Totals
  fca_step fca_kbps f t s =
      let fca_pktpf = fca_packets fca_kbps f s.efficiency in
      let more = ltb fca_pktpf s.remaining in
      let alloc_pktpf = if more then fca_pktpf else s.remaining in
      let alloc_kbps = fca_rate f s.efficiency alloc_pktpf in
      (
        set_fca_allocation K alloc_kbps t,
        record s {
          remaining = if more then sub16 s.remaining fca_pktpf else 0;
          alloc = add16 s.alloc alloc_kbps;
        },
      )

  unfoldable pub fca_loop : ℕ → ℕ → List (Terminal K) → Totals → Option (List (Terminal K) × Totals)
  unfolding fca_step
  fca_loop zero fca_kbps ts s = none
  fca_loop (suc fuel) fca_kbps [] s = some ([], s)
  fca_loop (suc fuel) fca_kbps (t ∷ ts) s =
      let stuck = fca_loop fuel fca_kbps (t ∷ ts) s in
      if ltb 0 s.remaining
      then elim t.fmt [
        | none ↦ stuck
        | some f ↦
            let (t', s') = fca_step fca_kbps f t s in
            elim (fca_loop fuel fca_kbps ts s') [ none ↦ none | some r ↦ some (t' ∷ r.0, r.1) ]
      ]
      else some (t ∷ ts, s)

  -- The function: the terminals in the order in which they were served, and the totals.
  unfoldable pub compute_fca :
      ℕ → ℕ → List (Terminal K) → Totals → Option (List (Terminal K) × Totals)
  unfolding fca_loop
  compute_fca fuel fca_kbps tal s =
      let start = record s { remaining = u16 s.remaining; alloc = 0 } in
      if length tal == 0
      then some (tal, record s { alloc = 0 })
      else if start.remaining == 0
      then some (tal, start)
      else fca_loop fuel fca_kbps (stable_sort (sort_by_remaining_credit K) tal) start
