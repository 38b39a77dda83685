-- ===== src/Dama/Agent/Examples.antt =====
-- An agent and its FIFOs for the tests.
use opensand.Prelude.{ℕ, true, false, some, [], ◌∷◌}
use opensand.Access.{return, dama_vbdc, dama_rbdc, ReturnAccess}
use opensand.Fifo.Dvb.{DvbFifo, no_stats}
use opensand.Dama.Buffer.{CircularBuffer}
use opensand.Dama.Agent.{Agent}

-- A FIFO of an access with one packet.
abbrev pub fifo : ReturnAccess → ℕ → DvbFifo
fifo access len = record {
  queue = record { ident = 0; total_length = len; tick_in = 0; tick_out = 0 } ∷ [];
  fifo_priority = 0;
  access_type = return access;
  vcm_id = 0;
  new_size_pkt = 1;
  cur_length_bytes = len;
  new_length_bytes = len;
  max_size_pkt = 10;
  carrier_id = 0;
  stats = no_stats;
  cni = 0;
}

abbrev pub last_rates : CircularBuffer
last_rates = record {
  save_only_last_value = false;
  size = 2;
  index = 1;
  nbr_values = 2;
  sum = 30;
  min_value = 0;
  values = some (10 ∷ 20 ∷ []);
}

-- A terminal with a rate-based and a volume-based FIFO of 1500 and 500 bytes.
abbrev pub both : Agent
both = record {
  dvb_fifos = fifo dama_rbdc 1500 ∷ fifo dama_vbdc 500 ∷ [];
  tal_id = 4;
  group_id = 1;
  current_superframe_sf = 7;
  rbdc_enabled = true;
  vbdc_enabled = true;
  frame_duration_ms = 10;
  msl_sf = 5;
  sync_period_sf = 2;
  allocated_kb = 0;
  dynamic_allocation_kb = 0;
  remaining_allocation_b = 0;
  burst_length_b = 0;
  rbdc_request_buffer = some last_rates;
  rbdc_timer_sf = 3;
  modulation_efficiency = 2;
  modcod_id = 1;
  vbdc_credit_kb = 0;
}
