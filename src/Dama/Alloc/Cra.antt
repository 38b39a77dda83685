-- ===== src/Dama/Alloc/Cra.antt =====
-- `computeDamaCraPerCarrier` and `computeTerminalsCraAllocation`: constant rates are served in the
-- order of the terminals, each in full or not at all.
pub mod FirstFit
use opensand.Prelude.{
  ℕ, ◌+◌, ◌-◌, Bool, true, false, Option, none, some, List, [], ◌∷◌, ltb, ◌&&◌, not, if◌then◌else◌,
  u16, add16, sub16,
}
use opensand.Dama.Terminal.{Credits, Fmt, Terminal, set_cra_allocation}
use opensand.Dama.Alloc.{Rates, Totals, each}

module _ (K : Credits) (R : Rates) where
  open R use {kbps_to_pktpf, pktpf_to_kbps, add_fec, remove_fec}

  -- The packets for a rate with FEC, and the rate of these packets without it.
  abbrev pub packets : Fmt → ℕ → ℕ
  packets f kbps = u16 (kbps_to_pktpf f.modulation_efficiency (u16 (add_fec f kbps)))

  abbrev pub rate : Fmt → ℕ → ℕ
  rate f pkt = u16 (remove_fec f (u16 (pktpf_to_kbps f.modulation_efficiency pkt)))

  unfoldable pub cra_step_with : Fmt → Terminal K → Totals → Terminal K × Totals
  cra_step_with f t s =
      let cra_pktpf = packets f t.cra_request_kbps in
      let cra_kbps = rate f cra_pktpf in
      let asked = record s {
        efficiency = f.modulation_efficiency;
        request = add16 s.request t.cra_request_kbps;
      } in
      if ltb s.remaining cra_pktpf then (t, asked) else (
        set_cra_allocation K cra_kbps t,
        record asked { remaining = sub16 s.remaining cra_pktpf; alloc = add16 s.alloc cra_kbps },
      )

  unfoldable pub cra_step : Terminal K → Totals → Terminal K × Totals
  unfolding cra_step_with
  cra_step t s = elim t.fmt [ none ↦ (t, s) | some f ↦ cra_step_with f t s ]

  -- The caller starts `request` and `alloc` at 0.
  unfoldable pub compute_cra : List (Terminal K) → Totals → List (Terminal K) × Totals
  unfolding cra_step each
  compute_cra tal s = each cra_step tal (record s { remaining = u16 s.remaining })

  -- A group of carriers with its terminals.
  pub record Carrier : Type 0 where
    pub remaining_capacity : ℕ
    pub terminals : List (Terminal K)

  -- The loop over the carriers of all categories: the carriers, the converter's efficiency, the sum of
  -- what is granted, and whether every carrier could serve its terminals.
  unfoldable pub compute_cra_all : List Carrier → ℕ → ℕ → List Carrier × ℕ × ℕ × Bool
  unfolding compute_cra
  compute_cra_all [] efficiency gw_alloc = ([], efficiency, gw_alloc, true)
  compute_cra_all (c ∷ cs) efficiency gw_alloc =
      let (tal, s) = compute_cra c.terminals (record {
        efficiency = efficiency;
        remaining = c.remaining_capacity;
        request = 0;
        alloc = 0;
        req_num = 0;
      }) in
      let (cs', efficiency', gw_alloc', stat) =
        compute_cra_all cs s.efficiency (add16 gw_alloc s.alloc) in
      (
        record { remaining_capacity = s.remaining; terminals = tal } ∷ cs',
        efficiency',
        gw_alloc',
        not (ltb s.alloc s.request) && stat,
      )

  -- The packets that a terminal asks for.
  unfoldable pub demand : Terminal K → ℕ
  demand t = elim t.fmt [ none ↦ 0 | some f ↦ packets f t.cra_request_kbps ]

  unfoldable pub demands : List (Terminal K) → List ℕ
  demands [] = []
  demands (t ∷ ts) = demand t ∷ demands ts
