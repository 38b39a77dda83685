-- ===== src/Dama/Agent/Tests.antt =====
-- A terminal's agent at concrete inputs, and the instances of its theorems.
use opensand.Prelude.{
  ℕ, ◌*◌, ◌+◌, ◌≤◌, ◌<◌, ◌≡◌, refl, true, false, none, some, [], ◌∷◌, ltb, arith, min, u16, All,
}
use opensand.Access.{access_eq, dama_vbdc}
use opensand.Fifo.Element.{bytes}
use opensand.Fifo.Dvb.{current_data_length}
use opensand.Fifo.Dvb.Inv.{Counted}
use opensand.Dama.Buffer.{get_sum}
use opensand.Dama.Sac.{new_sac}
use opensand.Dama.Agent.Examples.{fifo, last_rates, both}
use opensand.Dama.Agent.{
  Agent, new_agent, init_parent, mac_buffer_length, mac_buffer_arrivals, compute_rbdc_request,
  compute_vbdc_request, rbdc_to_send, build_sac,
}
use opensand.Dama.Agent.Requests.{rate, compute_rbdc_request-exact, volume, Built, build_sac-Built}
use opensand.Dama.Agent.Volume.{held, compute_vbdc_request-covers}

-- 12000 bits that arrived in 30 ms, and 12000 - 30 * 30 bits over 50 ms.
both_rate : compute_rbdc_request both last_rates ≡ some 622
unfolding compute_rbdc_request get_sum current_data_length access_eq
both_rate = refl

compute_rbdc_request-exact_example :
    compute_rbdc_request both last_rates ≡ some (min (u16 (rate 12000 12000 30 30 50)) 16320)
unfolding mac_buffer_length mac_buffer_arrivals get_sum current_data_length access_eq
compute_rbdc_request-exact_example =
    compute_rbdc_request-exact both last_rates (omega arith) (omega arith) (omega arith)
      (omega arith) (omega arith) (omega arith) (omega arith)

build_sac-Built_example :
    Built (build_sac both (new_sac 0 4 1)) last_rates true (ltb 0 (volume both)) 622 (volume both) 4
unfolding rbdc_to_send get_sum mac_buffer_length current_data_length access_eq
build_sac-Built_example = build_sac-Built 0 4 1 both last_rates true 622 (omega arith) refl refl

-- What `initParent` and `init` make of a terminal that has volume-based FIFOs alone.
abbrev volume_only : Agent
volume_only = record both {
  dvb_fifos = fifo dama_vbdc 500 ∷ [];
  rbdc_enabled = false;
  rbdc_request_buffer = none;
}

volume_only_init : (init_parent 10 5 2 (fifo dama_vbdc 500 ∷ []) new_agent).0 ≡ true
unfolding init_parent
volume_only_init = refl

counted : All Counted both.dvb_fifos
unfolding bytes
counted = (
  record { bounded = omega arith; counted = refl },
  (record { bounded = omega arith; counted = refl }, tt),
)

compute_vbdc_request-covers_example :
    (request : ℕ) × (compute_vbdc_request both
      ≡ some (request, record both { vbdc_credit_kb = request }))
    × (8 * held dama_vbdc both.dvb_fifos ≤ 4080 * 1000
        → (8 * held dama_vbdc both.dvb_fifos ≤ 1000 * request)
          × (1000 * request < 8 * held dama_vbdc both.dvb_fifos + 1000))
    × (4080 * 1000 < 8 * held dama_vbdc both.dvb_fifos → request ≡ 4080)
unfolding held access_eq bytes
compute_vbdc_request-covers_example = compute_vbdc_request-covers both counted (omega arith)
