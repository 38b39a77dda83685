-- ===== src/Dama/Alloc.antt =====
-- opensand-core/src/dvb/dama/DamaCtrlRcs2Legacy.cpp: the allocation of a carrier's timeslots to its
-- terminals, for each kind of demand. A capacity is a 16-bit number of packets per superframe.
--
-- The conversions between rates, volumes and packets, the FEC and the credits are floating-point
-- computations: they are parameters, and so are the operations on doubles of the fair share. Probes and the statistics of remaining capacity
-- are left out.
pub mod Sort
pub mod Cra
pub mod Rbdc
pub mod Vbdc
pub mod Fca
pub mod Examples
mod Tests
use opensand.Prelude.{
  ℕ, ◌+◌, ◌-◌, Bool, Option, none, some, List, [], ◌∷◌, ltb, leb, ◌==◌, if◌then◌else◌, u16, add16,
  sub16,
}
use opensand.Dama.Terminal.{Credits, Fmt, Terminal}

-- `UnitConverterFixedSymbolLength` at a modulation efficiency, and the FEC of a `FmtDefinition`.
pub record Rates : Type 0 where
  pub kbps_to_pktpf : ℕ → ℕ → ℕ
  pub pktpf_to_kbps : ℕ → ℕ → ℕ
  pub kbits_to_pkt : ℕ → ℕ → ℕ
  pub pkt_to_kbits : ℕ → ℕ → ℕ
  pub add_fec : Fmt → ℕ → ℕ
  pub remove_fec : Fmt → ℕ → ℕ

-- The operations on doubles that the rate-based allocation uses.
pub record Doubles (K : Credits) : Type 1 where
  pub Double : Type 0
  -- `(double) n`
  pub to_double : ℕ → Double
  -- `x / y`
  pub divide : Double → Double → Double
  -- `x < y`
  pub less : Double → Double → Bool
  -- `floor(x)`, as an integer
  pub floor : Double → ℕ
  -- The decimal part of a fair request, in kbits/s, for a format, the fair request and its integer part.
  pub decimal_part : Fmt → Double → ℕ → K.Credit
  -- `credit_kbps > slot_kbps`
  pub exceeds : K.Credit → ℕ → Bool
  -- `-slot_kbps`
  pub minus_slot : ℕ → K.Credit

-- The variables of a loop: the converter's modulation efficiency, the remaining capacity, the sums of
-- what is requested and granted, and the number of requests.
pub record Totals : Type 0 where
  pub efficiency : ℕ
  pub remaining : ℕ
  pub request : ℕ
  pub alloc : ℕ
  pub req_num : ℕ

-- A loop over the terminals, each of which it may change.
module _ {ℓ κ} {T : Type ℓ} {S : Type κ} (step : T → S → T × S) where
  unfoldable pub each : List T → S → List T × S
  each [] s = ([], s)
  each (t ∷ ts) s = let (t', s') = step t s in let (ts', s'') = each ts s' in (t' ∷ ts', s'')
