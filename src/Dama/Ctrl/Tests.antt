-- ===== src/Dama/Ctrl/Tests.antt =====
-- The controller at concrete inputs, and the instances of its theorems.
use opensand.Prelude.{
  ℕ, ◌-◌, ◌*◌, ◌≡◌, ◌≢◌, refl, true, false, none, some, List, [], ◌∷◌, ltb, ◌==◌, if◌then◌else◌,
  arith, Bool-cases, inl, inr, sym, ap, subst, ◌∙◌,
}
use opensand.Maps.{find, insert, change, total, Unique}
use opensand.Fmt.{get_max_id}
use opensand.Maps.Every.{Every}
use opensand.Dama.Terminal.{Terminal, new_terminal, set_required_fmt, set_required_rbdc}
use opensand.Dama.Ttp.{Ttp}
use opensand.Access.{access_eq}
use opensand.Dama.Buffer.{get_sum}
use opensand.Fifo.Dvb.{current_data_length}
use opensand.Dama.Agent.{build_sac, rbdc_to_send, mac_buffer_length}
use opensand.Dama.Agent.Examples.{both, last_rates}
use opensand.Dama.Ctrl.{here_is_sac}
use opensand.Dama.Ctrl.Demands.{Noted, build_sac-Noted}
use opensand.Dama.Agent.{Agent, new_agent}
use opensand.Dama.Alloc.Examples.{units, fmt, terminal}
use opensand.Dama.Ctrl.{
  Ctrl, Logged, LogonRequest, here_is_logon, here_is_logoff, apply_pep_command,
}
use opensand.Dama.Ctrl.Counters.{Accounted}
use opensand.Dama.Ctrl.History.{Message, logs_on, logs_off, asks, commands, handle_all}
use opensand.Dama.Ctrl.Served.{Low, handle_all-Served}
use opensand.Access.{dama_rbdc}
use opensand.Dama.Sac.{
  Sac, new_sac, add_request, get_requests, read_requests, cr_info, decoded_value, emu_cr,
  encoded_value, scale_and_value,
}
use opensand.Dama.Ctrl.Members.{count, Registered}
use opensand.Dama.Ctrl.Leaving.{here_is_logoff-Registered}
use opensand.Dama.Ctrl.Superframe.{
  CreditSteps, Methods, renew, Renewed, renew-Renewed, run_on_superframe_change,
}

-- A controller with one category that uses DAMA and nobody logged on.
abbrev empty_ctrl : Ctrl units
empty_ctrl = record {
  terminals = [];
  categories = (1, []) ∷ [];
  terminal_affectation = (9, none) ∷ [];
  default_category = some 1;
  input_modcod_def = (3, fmt) ∷ [];
  rbdc_timeout_sf = 16;
  enable_rbdc = false;
  enable_vbdc = false;
  current_superframe_sf = 0;
  gw_st_num = 0;
  gw_rbdc_max_kbps = 0;
}

empty_Accounted : Accounted units empty_ctrl
unfolding Unique Every total
empty_Accounted = record { unique = tt; own = tt; st_num = refl; rbdc_max = refl }

abbrev request : ℕ → ℕ → LogonRequest
request mac max_rbdc = record { mac = mac; rt_bandwidth = 100; max_rbdc = max_rbdc; max_vbdc = 200 }

-- A rate request of terminal 5.
abbrev rate_sac : Sac
rate_sac = (add_request 0 dama_rbdc 300 (new_sac 0 5 1)).1

rate_sac_readable : get_requests rate_sac ≢ none
unfolding get_requests read_requests cr_info decoded_value add_request new_sac emu_cr encoded_value
    scale_and_value
rate_sac_readable = λ e. cc

-- Two logons, a duplicate, a request, a command and a logoff.
abbrev messages : List Message
messages =
    logs_on 0 (request 4 500)
    ∷ logs_on 0 (request 5 300)
    ∷ logs_on 0 (request 4 900)
    ∷ asks rate_sac
    ∷ commands record { st_id = 5; cra = 50; rbdc = 0; rbdc_max = 700 }
    ∷ logs_off 4
    ∷ []

handle_all-Served_example :
    (c' : Ctrl units) × (handle_all units (λ _. false) messages empty_ctrl ≡ some c')
    × Accounted units c'
    × Every (Low units) c'.terminals
handle_all-Served_example =
    handle_all-Served units (λ _. false) messages empty_ctrl
      (omega arith, (omega arith, (omega arith, ((refl, rate_sac_readable), (tt, (tt, tt))))))
      empty_Accounted (unfold Every in tt)

-- One terminal is left, with its new maximum.
left_counters :
    elim (handle_all units (λ _. false) messages empty_ctrl) as (λ _. ℕ) [
      | none ↦ 0
      | some c ↦ c.gw_rbdc_max_kbps
    ]
    ≡ 700
unfolding handle_all find insert change get_max_id set_required_fmt new_terminal get_requests
    read_requests cr_info decoded_value add_request new_sac emu_cr encoded_value scale_and_value
    set_required_rbdc
left_counters = refl

-- The command for a terminal whose id is above 30 reads through the pointer of a missing probe.
probe_crash :
    apply_pep_command units
      record { st_id = 40; cra = 0; rbdc = 0; rbdc_max = 700 }
      (here_is_logon units 0 (request 40 500) empty_ctrl).1
    ≡ none
unfolding apply_pep_command here_is_logon find insert get_max_id set_required_fmt new_terminal
probe_crash = refl

-- Terminal 4, with 60 kbits and 130 kbits/s granted, alone in the category.
abbrev granted : Terminal units
granted = record (terminal 4 100 0) {
  vbdc_alloc_kb = 60;
  rbdc_alloc_kbps = 30;
  cra_alloc_kbps = 100;
}

abbrev one : Logged units
one = record { terminal = granted; category = 1 }

abbrev with_one : Ctrl units
with_one = record empty_ctrl {
  terminals = (4, one) ∷ [];
  categories = (1, 4 ∷ []) ∷ [];
  gw_st_num = 1;
  gw_rbdc_max_kbps = 500;
}

one_Accounted : Accounted units with_one
unfolding Unique Every total find
one_Accounted = record { unique = (refl, tt); own = (refl, tt); st_num = refl; rbdc_max = refl }

one_Registered : Registered units with_one
unfolding total count find
one_Registered = record {
  once = λ id. ground arith;
  home = λ id l h. elim (Bool-cases (4 == id)) [
    | inl e ↦
        let mine : some one ≡ some l = sym (ap (λ b. if b then some one else none) e) ∙ h in
        let here : 1 ≡ l.category =
          ap (λ o. elim o as (λ _. ℕ) [ none ↦ 1 | some x ↦ x.category ]) mine in
        (4 ∷ [], subst (λ k. find k with_one.categories ≡ some (4 ∷ [])) here refl, ground arith)
    | inr e ↦
        let gone : none ≡ some l = sym (ap (λ b. if b then some one else none) e) ∙ h in absurd cc
  ];
}

-- Terminal 4 asks for 622 kbits/s.
build_sac-Noted_example :
    (a : Agent) × (sac : Sac) × (c : Ctrl units) × (build_sac both (new_sac 0 4 1)
      ≡ some (true, false, a, sac))
    × (here_is_sac units (λ _. false) sac with_one ≡ some (true, c))
    × Noted units 622 4 one c
unfolding rbdc_to_send get_sum mac_buffer_length current_data_length access_eq find
build_sac-Noted_example =
    build_sac-Noted units (λ _. false) 0 1 622 both last_rates with_one one (omega arith) refl refl
      (omega arith) refl

here_is_logoff-Registered_example :
    Registered units (here_is_logoff units 4 with_one).1
    × ((here_is_logoff units 4 with_one).0 ≡ true)
    × (find 4 (here_is_logoff units 4 with_one).1.terminals ≡ none)
unfolding find
here_is_logoff-Registered_example =
    here_is_logoff-Registered units 4 with_one one_Accounted one_Registered

abbrev listener : Agent
listener = record new_agent { tal_id = 4; group_id = 2 }

abbrev whole_steps : CreditSteps units
whole_steps = record {
  positive = λ credit. ltb 0 credit;
  spend = λ credit timeslot. credit - timeslot;
  timeslot_kbps = λ efficiency. 10 * efficiency;
}

-- A terminal whose timer runs, with a credit of 25.
abbrev in_credit : Terminal units
in_credit = record granted { rbdc_credit = 25; timer_sf = 3; rbdc_request_kbps = 40 }

renew-Renewed_example : Renewed units whole_steps in_credit (renew units whole_steps in_credit)
renew-Renewed_example = renew-Renewed units whole_steps in_credit

renewed_rate :
    ((renew units whole_steps in_credit).1.rbdc_request_kbps ≡ 60)
    × ((renew units whole_steps in_credit).1.rbdc_credit ≡ 5)
unfolding renew
renewed_rate = (refl, refl)

-- Steps that all succeed and change nothing.
abbrev idle : Methods units
idle = record {
  reset_carriers_capacity = λ c. (true, c);
  update_wave_forms = λ c. (true, c);
  reset_terminals = λ c. (true, c);
  compute_cra = λ c. (true, c);
  compute_rbdc = λ c. (true, c);
  compute_vbdc = λ c. (true, c);
  compute_fca = λ c. (true, c);
}

idle_superframe : (run_on_superframe_change units idle 8 with_one).0 ≡ false
unfolding run_on_superframe_change
idle_superframe = refl
