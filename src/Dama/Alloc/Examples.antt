-- ===== src/Dama/Alloc/Examples.antt =====
-- Parameters of the allocation for its tests. A packet carries 10 kbits, and there is no FEC.
use opensand.Prelude.{ℕ, ◌+◌, ◌*◌, ◌/◌, some, ltb}
use opensand.Dama.Terminal.{Credits, Terminal, Fmt}
use opensand.Dama.Alloc.{Rates, Doubles, Totals}

abbrev pub units : Credits
units = record { Credit = ℕ; zero_credit = 0; add_credit = λ a b. a + b; greater = λ a b. ltb b a }

abbrev pub tens : Rates
tens = record {
  kbps_to_pktpf = λ e r. (r + 9) / 10;
  pktpf_to_kbps = λ e p. p * 10;
  kbits_to_pkt = λ e v. (v + 9) / 10;
  pkt_to_kbits = λ e p. p * 10;
  add_fec = λ f v. v;
  remove_fec = λ f v. v;
}

abbrev pub fmt : Fmt
fmt = record { id = 3; modulation_efficiency = 2 }

abbrev pub terminal : ℕ → ℕ → ℕ → Terminal units
terminal tal_id cra vbdc = record {
  tal_id = tal_id;
  cra_request_kbps = cra;
  cra_alloc_kbps = 0;
  max_rbdc_kbps = 500;
  rbdc_timeout_sf = 16;
  max_vbdc_kb = 200;
  rbdc_credit = 0;
  timer_sf = 0;
  rbdc_request_kbps = 0;
  rbdc_alloc_kbps = 0;
  vbdc_request_kb = vbdc;
  vbdc_alloc_kb = 0;
  fca_alloc_kbps = 0;
  required_fmt = some fmt;
  fmt = some fmt;
  carrier_id = 1;
}

-- Doubles without rounding: fractions, with a numerator and a denominator.
abbrev pub exact : Doubles units
exact = record {
  Double = ℕ × ℕ;
  to_double = λ n. (n, 1);
  divide = λ x y. (x.0 * y.1, x.1 * y.0);
  less = λ x y. ltb (x.0 * y.1) (y.0 * x.1);
  floor = λ x. x.0 / x.1;
  decimal_part = λ f fair alloc. 15;
  exceeds = λ credit slot. ltb slot credit;
  minus_slot = λ slot. 0;
}

abbrev pub wants : ℕ → ℕ → Terminal units
wants tal_id rbdc = record (terminal tal_id 0 0) { rbdc_request_kbps = rbdc }

abbrev pub room : ℕ → Totals
room remaining = record {
  efficiency = 2;
  remaining = remaining;
  request = 0;
  alloc = 0;
  req_num = 0;
}
