-- ===== src/Dama/Alloc/Vbdc.antt =====
-- `computeDamaVbdcPerCarrier`: volumes are served in the order of the requests, the largest first,
-- until the capacity is used up.
pub mod Greedy
use mathlib.Core.List.{Perm}
use mathlib.Core.List.Perm
use opensand.Prelude.{
  u16_mod, ◌<◌, ℕ, zero, suc, ◌+◌, ◌-◌, ◌≤◌, ◌≡◌, refl, ap, ap₂, ◌∙◌, Bool, true, false, Option,
  none, some, List, [], ◌∷◌, ltb, leb, ◌==◌, if◌then◌else◌, u16, add16, sub16, min, sum, map, arith,
  Option-cases, inl, inr,
}
use opensand.Dama.Terminal.{Credits, Fmt, Terminal, set_vbdc_allocation, sort_by_vbdc_req}
use opensand.Dama.Alloc.{Rates, Totals}
use opensand.Dama.Alloc.Sort.{stable_sort, stable_sort-perm}

-- Each demand in turn gets what is left of the capacity.
unfoldable pub fill : ℕ → List ℕ → List ℕ
fill capacity [] = []
fill capacity (d ∷ ds) = min d capacity ∷ fill (capacity - min d capacity) ds

module _ (K : Credits) (R : Rates) where
  open R use {kbits_to_pkt, pkt_to_kbits, add_fec, remove_fec}

  -- The volume of `pkt` packets without FEC.
  abbrev pub volume : Fmt → ℕ → ℕ
  volume f pkt = u16 (remove_fec f (u16 (pkt_to_kbits f.modulation_efficiency pkt)))

  -- The body of the loop, for a terminal with a format.
  unfoldable pub serve_with : Fmt → Terminal K → Totals → Terminal K × Totals
  serve_with f t s =
      let request_kb = u16 (add_fec f t.vbdc_request_kb) in
      let request_pkt = u16 (kbits_to_pkt f.modulation_efficiency request_kb) in
      let alloc_pkt = if leb request_pkt s.remaining then request_pkt else s.remaining in
      if leb request_pkt 0 then (t, record s { efficiency = f.modulation_efficiency }) else (
        set_vbdc_allocation K (volume f alloc_pkt) t,
        record {
          efficiency = f.modulation_efficiency;
          remaining = sub16 s.remaining alloc_pkt;
          request = add16 s.request request_kb;
          alloc = add16 s.alloc (volume f alloc_pkt);
          req_num = s.req_num + 1;
        },
      )

  unfoldable pub serve : Terminal K → Totals → Terminal K × Totals
  unfolding serve_with
  serve t s = elim t.fmt [ none ↦ (t, s) | some f ↦ serve_with f t s ]

  -- The loop that counts what is left over.
  unfoldable pub count_rest : List (Terminal K) → Totals → Totals
  count_rest [] s = s
  count_rest (t ∷ ts) s = count_rest ts (
      if ltb 0 t.vbdc_request_kb
      then record s { request = add16 s.request t.vbdc_request_kb; req_num = s.req_num + 1 }
      else s)

  unfoldable pub serve_all : List (Terminal K) → Totals → List (Terminal K) × Totals
  unfolding serve count_rest
  serve_all [] s = ([], s)
  serve_all (t ∷ ts) s =
      let (t', s') = serve t s in
      let rest = serve_all ts s' in
      if ltb 0 s.remaining then (t' ∷ rest.0, rest.1) else (t ∷ ts, count_rest (t ∷ ts) s)

  -- The function: the terminals in the order in which they were served, and the totals. `request` and
  -- `alloc` are reset first.
  unfoldable pub compute_vbdc : List (Terminal K) → Totals → List (Terminal K) × Totals
  unfolding serve_all
  compute_vbdc tal s =
      let start = record s { remaining = u16 s.remaining; request = 0; alloc = 0 } in
      if start.remaining == 0
      then (tal, start)
      else serve_all (stable_sort (sort_by_vbdc_req K) (stable_sort (sort_by_vbdc_req K) tal)) start

  -- The packets that a terminal asks for.
  unfoldable pub demand : Terminal K → ℕ
  demand t = elim t.fmt [
    | none ↦ 0
    | some f ↦ u16 (kbits_to_pkt f.modulation_efficiency (u16 (add_fec f t.vbdc_request_kb)))
  ]

  unfoldable pub demands : List (Terminal K) → List ℕ
  demands [] = []
  demands (t ∷ ts) = demand t ∷ demands ts

  -- A terminal that is granted `pkt` packets; a grant of none leaves it as it is.
  unfoldable pub grant : ℕ → Terminal K → Terminal K
  grant pkt t = elim t.fmt [
    | none ↦ t
    | some f ↦ if pkt == 0 then t else set_vbdc_allocation K (volume f pkt) t
  ]

  unfoldable pub grant_each : List ℕ → List (Terminal K) → List (Terminal K)
  unfolding grant
  grant_each [] ts = ts
  grant_each (p ∷ ps) [] = []
  grant_each (p ∷ ps) (t ∷ ts) = grant p t ∷ grant_each ps ts
