-- ===== src/Dama/Terminal/Tests.antt =====
-- Terminals at concrete values, and the instances of their theorems. Credits are counted in units.
use opensand.Prelude.{ℕ, ◌+◌, ◌≡◌, refl, List, [], ◌∷◌, none, ltb}
use opensand.Dama.Terminal.{
  Credits, Terminal, new_terminal, set_required_rbdc, set_required_vbdc, set_vbdc_allocation,
  set_max_rbdc, decrement_timer,
}
use opensand.Dama.Terminal.Limits.{
  Limited, Event, requires_rbdc, requires_vbdc, grants_vbdc, limits_rbdc, ticks, react_all,
  react_all-Limited, highest, last_limit,
}

abbrev units : Credits
units = record { Credit = ℕ; zero_credit = 0; add_credit = λ a b. a + b; greater = λ a b. ltb b a }

abbrev terminal : Terminal units
terminal = record {
  tal_id = 4;
  cra_request_kbps = 64;
  cra_alloc_kbps = 0;
  max_rbdc_kbps = 500;
  rbdc_timeout_sf = 16;
  max_vbdc_kb = 200;
  rbdc_credit = 0;
  timer_sf = 0;
  rbdc_request_kbps = 0;
  rbdc_alloc_kbps = 0;
  vbdc_request_kb = 30;
  vbdc_alloc_kb = 0;
  fca_alloc_kbps = 0;
  required_fmt = none;
  fmt = none;
  carrier_id = 0;
}

new_requests_are_limited : (set_required_rbdc units 900 terminal).rbdc_request_kbps ≡ 500
unfolding set_required_rbdc
new_requests_are_limited = refl

timer_stops_at_zero : (decrement_timer units terminal).timer_sf ≡ 0
unfolding decrement_timer
timer_stops_at_zero = refl

abbrev events : List (Event units)
events =
    requires_rbdc 900
    ∷ requires_vbdc 120
    ∷ grants_vbdc 50
    ∷ ticks
    ∷ requires_vbdc 300
    ∷ limits_rbdc 400
    ∷ []

react_all-Limited_example :
    Limited units 500 400 200 (react_all units (new_terminal units 0 4 64 500 16 200) events)
unfolding highest last_limit
react_all-Limited_example = react_all-Limited units 0 4 64 500 16 200 events

-- The limit goes below the request that was made under the old one.
lowered :
    ((react_all units (new_terminal units 0 4 64 500 16 200) events).rbdc_request_kbps ≡ 500)
    × ((react_all units (new_terminal units 0 4 64 500 16 200) events).max_rbdc_kbps ≡ 400)
unfolding react_all new_terminal set_required_rbdc set_required_vbdc set_vbdc_allocation
    decrement_timer set_max_rbdc
lowered = (refl, refl)
