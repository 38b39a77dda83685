-- ===== src/Dama/Agent.antt =====
-- opensand-core/src/dvb/dama/DamaAgent.cpp, DamaAgentRcs2.cpp and DamaAgentRcs2Legacy.cpp: the part of
-- a terminal that asks for capacity, by a SAC, and takes in what is granted, by a TTP.
--
-- `none` stands for undefined behaviour: a null pointer or an address past the message that is read, a
-- division by zero, or a conversion out of range. The map of FIFOs is the list of its FIFOs. The
-- configured burst length, the size of a burst and the FEC are parameters. The scheduling of the
-- FIFOs, probes and logging are left out.
pub mod Alloc
pub mod Requests
pub mod Schedule
pub mod Volume
pub mod Examples
mod Tests
use opensand.Prelude.{
  ℕ, ◌+◌, ◌-◌, ◌*◌, ◌/◌, ◌%◌, Bool, true, false, ◌&&◌, ◌||◌, not, Option, none, some, List, [], ◌∷◌,
  map, ltb, ◌==◌, if◌then◌else◌, u16, u32, add16, add32, sub32, u32_mod, min,
}
use opensand.Access.{
  FifoAccess, unknown, forward, return, access_eq, dama_rbdc, dama_vbdc, dama_avbdc, dama_cra,
  saloha, ReturnAccess,
}
use opensand.Fifo.Dvb.{DvbFifo, current_data_length, reset_new}
use opensand.Fmt.{get_definition, get_max_id}
use opensand.Dama.Terminal.{Fmt}
use opensand.Dama.Buffer.{CircularBuffer, new_buffer, update, get_sum, previous_value}
use opensand.Dama.Sac.{Sac, add_request}
use opensand.Dama.Ttp.{Ttp, EmuTp, get_tp}

-- The states of `DamaAgent`, `DamaAgentRcs2` and `DamaAgentRcs2Legacy`. `modulation_efficiency` is the
-- unit converter's.
pub record Agent : Type 0 where
  pub dvb_fifos : List DvbFifo
  pub tal_id : ℕ
  pub group_id : ℕ
  pub current_superframe_sf : ℕ
  pub rbdc_enabled : Bool
  pub vbdc_enabled : Bool
  pub frame_duration_ms : ℕ
  pub msl_sf : ℕ
  pub sync_period_sf : ℕ
  pub allocated_kb : ℕ
  pub dynamic_allocation_kb : ℕ
  pub remaining_allocation_b : ℕ
  pub burst_length_b : ℕ
  pub rbdc_request_buffer : Option CircularBuffer
  pub rbdc_timer_sf : ℕ
  pub modulation_efficiency : ℕ
  pub modcod_id : ℕ
  pub vbdc_credit_kb : ℕ

-- The constructors. The memory of the fields that they do not set is cleared here; `initParent`,
-- `init` and the logon response set them.
unfoldable pub new_agent : Agent
new_agent = record {
  dvb_fifos = [];
  tal_id = 0;
  group_id = 0;
  current_superframe_sf = 0;
  rbdc_enabled = false;
  vbdc_enabled = false;
  frame_duration_ms = 0;
  msl_sf = 0;
  sync_period_sf = 0;
  allocated_kb = 0;
  dynamic_allocation_kb = 0;
  remaining_allocation_b = 0;
  burst_length_b = 0;
  rbdc_request_buffer = none;
  rbdc_timer_sf = 0;
  modulation_efficiency = 0;
  modcod_id = 0;
  vbdc_credit_kb = 0;
}

-- What `initParent` does for a FIFO of each access. `none` is the error.
unfoldable pub enable : FifoAccess → Agent → Option Agent
enable (return dama_rbdc) a = some record a { rbdc_enabled = true }
enable (return dama_vbdc) a = some record a { vbdc_enabled = true }
enable (return dama_cra) a = some a
enable (return saloha) a = some a
enable _ a = none

-- The loop of `initParent`. After an error the agent keeps what was set before it.
unfoldable pub enable_all : List DvbFifo → Agent → Bool × Agent
unfolding enable
enable_all [] a = (true, a)
enable_all (f ∷ fs) a = elim (enable f.access_type a) [
  | none ↦ (false, a)
  | some a' ↦ enable_all fs a'
]

unfoldable pub init_parent : ℕ → ℕ → ℕ → List DvbFifo → Agent → Bool × Agent
unfolding enable_all
init_parent frame_duration_ms msl_sf sync_period_sf dvb_fifos a = enable_all dvb_fifos record a {
  frame_duration_ms = frame_duration_ms;
  msl_sf = msl_sf;
  sync_period_sf = sync_period_sf;
  dvb_fifos = dvb_fifos;
}

-- The start of `init`. `none` is the division by zero.
unfoldable pub init_buffer : Bool → Agent → Option Agent
init_buffer allocated a =
    if a.rbdc_enabled
    then if a.sync_period_sf == 0
      then none
      else some record a {
        rbdc_request_buffer = some (new_buffer allocated (a.msl_sf / a.sync_period_sf));
      }
    else some a

-- The rest of `init`, with the burst length that the configuration gives, if it does.
unfoldable pub init_modcod : Option ℕ → List (ℕ × Fmt) → Agent → Bool × Agent
init_modcod none defs a = (false, a)
init_modcod (some length_sym) defs a =
    let modcod_id = get_max_id defs in
    if length_sym == 0 then (false, a) else (
      true,
      record a {
        modcod_id = modcod_id;
        modulation_efficiency = elim (get_definition modcod_id defs) [
          | none ↦ 0
          | some def ↦ def.modulation_efficiency
        ];
      },
    )

unfoldable pub init : Bool → Option ℕ → List (ℕ × Fmt) → Agent → Option (Bool × Agent)
unfolding init_buffer init_modcod
init allocated length_sym defs a = elim (init_buffer allocated a) [
  | none ↦ none
  | some a' ↦ some (init_modcod length_sym defs a')
]

unfoldable pub here_is_logon_resp : ℕ → ℕ → Agent → Bool × Agent
here_is_logon_resp group_id logon_id a = (true, record a { group_id = group_id; tal_id = logon_id })

-- `DamaAgentRcs2::hereIsSOF`, its parent's included.
unfoldable pub here_is_sof : ℕ → Agent → Bool × Agent
here_is_sof superframe_number_sf a = (
  true,
  record a {
    current_superframe_sf = superframe_number_sf;
    rbdc_timer_sf = add16 a.rbdc_timer_sf 1;
    dynamic_allocation_kb = a.allocated_kb;
    allocated_kb = 0;
  },
)

-- `packet_bits` is the unit converter's `getPacketBitLength` at a modulation efficiency.
unfoldable pub process_on_frame_tick :
    (ℕ → ℕ) → (Fmt → ℕ → ℕ) → List (ℕ × Fmt) → Agent → Bool × Agent
process_on_frame_tick packet_bits remove_fec defs a =
    let remaining_allocation_b = u32 (a.dynamic_allocation_kb * 1000) in
    let burst_length_b = packet_bits a.modulation_efficiency in
    elim (get_definition a.modcod_id defs) [
      | none ↦ (
        false,
        record a {
          remaining_allocation_b = remaining_allocation_b;
          burst_length_b = burst_length_b;
        },
      )
      | some def ↦ (
        true,
        record a {
          remaining_allocation_b = remaining_allocation_b;
          burst_length_b = remove_fec def burst_length_b;
        },
      )
    ]

-- One round of the loop of `hereIsTTP`: the plan of one frame.
unfoldable pub take_plan : List (ℕ × Fmt) → EmuTp → Agent → Agent
take_plan defs tp a = elim (get_definition tp.fmt_id defs) [
  | none ↦ record a { modcod_id = tp.fmt_id; modulation_efficiency = 0 }
  | some def ↦ record a {
    modcod_id = tp.fmt_id;
    modulation_efficiency = def.modulation_efficiency;
    allocated_kb = add16 a.allocated_kb tp.assignment_count;
  }
]

unfoldable pub take_plans : List (ℕ × Fmt) → List (ℕ × EmuTp) → Agent → Agent
unfolding take_plan
take_plans defs [] a = a
take_plans defs ((frame, tp) ∷ tps) a = take_plans defs tps (take_plan defs tp a)

unfoldable pub here_is_ttp : List (ℕ × Fmt) → Ttp → Agent → Option (Bool × Agent)
unfolding take_plans
here_is_ttp defs ttp a =
    let cleared = record a { allocated_kb = 0 } in
    if not (a.group_id == ttp.group_id) then some (true, cleared) else elim (get_tp a.tal_id ttp) [
      | none ↦ none
      | some (false, tps) ↦ some (true, cleared)
      | some (true, tps) ↦ some (true, take_plans defs tps cleared)
    ]

unfoldable pub mac_buffer_length : ReturnAccess → List DvbFifo → ℕ
mac_buffer_length cr_type [] = 0
mac_buffer_length cr_type (f ∷ fs) =
    let rest = mac_buffer_length cr_type fs in
    if access_eq f.access_type (return cr_type)
    then add32 (u32 (current_data_length f * 8)) rest
    else rest

unfoldable pub mac_buffer_arrivals : ReturnAccess → List DvbFifo → ℕ
mac_buffer_arrivals cr_type [] = 0
mac_buffer_arrivals cr_type (f ∷ fs) =
    let rest = mac_buffer_arrivals cr_type fs in
    if access_eq f.access_type (return cr_type)
    then add32 (u32 (f.new_length_bytes * 8)) rest
    else rest

abbrev pub check_rbdc_request : ℕ → ℕ
check_rbdc_request request_kbps = min request_kbps 16320

abbrev pub check_vbdc_request : ℕ → ℕ
check_vbdc_request request_kb = min request_kb 4080

-- 2 ^ 31
abbrev pub int_limit : ℕ
int_limit = 2147483648

-- The magnitude of the `int` of a 32-bit word.
unfoldable pub magnitude : ℕ → ℕ
magnitude x = if ltb x int_limit then x else u32_mod - x

-- `max(0, (int) a / (int) b)` on 32-bit words. `none` is the division by zero and the quotient 2 ^ 31.
unfoldable pub positive_quotient : ℕ → ℕ → Option ℕ
unfolding magnitude
positive_quotient a b =
    let quotient = magnitude a / magnitude b in
    let same_sign =
      (ltb a int_limit && ltb b int_limit) || (not (ltb a int_limit) && not (ltb b int_limit)) in
    if b == 0
    then none
    else if same_sign
    then if ltb quotient int_limit then some quotient else none
    else some 0

-- The rate of the arrivals since the last request.
unfoldable pub arrival_rate : ℕ → ℕ → Option ℕ
arrival_rate arrivals_b elapsed_ms =
    if elapsed_ms == 0 then none else some (arrivals_b / elapsed_ms)

-- The sum of two `int`s, converted to 16 bits. `none` is an overflow of the `int`.
unfoldable pub int_sum : ℕ → ℕ → Option ℕ
int_sum a b = if ltb (a + b) int_limit then some (u16 (a + b)) else none

-- The end of `computeRbdcRequest`, with `req_kbps`: the rate of the arrivals is added where the timer
-- runs, and the sum is converted and limited.
unfoldable pub limited_rate : ℕ → ℕ → ℕ → Option ℕ → Option ℕ
unfolding arrival_rate int_sum
limited_rate timer_sf arrivals_b elapsed_ms none = none
limited_rate timer_sf arrivals_b elapsed_ms (some req_kbps) =
    if timer_sf == 0
    then some (check_rbdc_request (u16 req_kbps))
    else elim (arrival_rate arrivals_b elapsed_ms) [
      | none ↦ none
      | some arrivals_kbps ↦ elim (int_sum arrivals_kbps req_kbps) [
        | none ↦ none
        | some request_kbps ↦ some (check_rbdc_request request_kbps)
      ]
    ]

-- `DamaAgentRcs2Legacy::computeRbdcRequest`. Its divisions are of integers, and `ceil` has no effect.
unfoldable pub compute_rbdc_request : Agent → CircularBuffer → Option ℕ
unfolding positive_quotient limited_rate mac_buffer_length mac_buffer_arrivals
compute_rbdc_request a buffer =
    let elapsed_ms = u32 (a.rbdc_timer_sf * a.frame_duration_ms) in
    limited_rate a.rbdc_timer_sf (mac_buffer_arrivals dama_rbdc a.dvb_fifos) elapsed_ms (
      positive_quotient
        (sub32 (mac_buffer_length dama_rbdc a.dvb_fifos) (u32 (elapsed_ms * get_sum buffer)))
        (u32 (a.frame_duration_ms * a.msl_sf)))

-- `DamaAgentRcs2Legacy::computeVbdcRequest`. `none` is a volume out of the range of 16 bits.
unfoldable pub compute_vbdc_request : Agent → Option (ℕ × Agent)
unfolding mac_buffer_length
compute_vbdc_request a =
    let vbdc_need_kb = (mac_buffer_length dama_vbdc a.dvb_fifos + 999) / 1000 in
    let vbdc_request_kb = check_vbdc_request vbdc_need_kb in
    if ltb vbdc_need_kb 65536
    then some (vbdc_request_kb, record a { vbdc_credit_kb = vbdc_request_kb })
    else none

-- Whether a rate is sent, and which.
unfoldable pub rbdc_to_send : Agent → Option (Bool × ℕ)
unfolding compute_rbdc_request
rbdc_to_send a =
    if a.rbdc_enabled
    then elim a.rbdc_request_buffer [
      | none ↦ none
      | some buffer ↦ elim (compute_rbdc_request a buffer) [
        | none ↦ none
        | some request_kbps ↦
            if ltb 0 request_kbps
            then some (true, request_kbps)
            else some (not (previous_value buffer == request_kbps), request_kbps)
      ]
    ]
    else some (false, 0)

unfoldable pub vbdc_to_send : Agent → Option (ℕ × Agent)
unfolding compute_vbdc_request
vbdc_to_send a = if a.vbdc_enabled then compute_vbdc_request a else some (0, a)

-- The rate request, or its absence, is entered in the buffer. `none` is the null pointer.
unfoldable pub enter_rbdc : Bool → ℕ → Agent → Sac → Option (Agent × Sac)
enter_rbdc send_rbdc_request request_kbps a sac = elim a.rbdc_request_buffer [
  | none ↦ none
  | some buffer ↦
      if send_rbdc_request
      then some (
        record a {
          rbdc_timer_sf = 0;
          rbdc_request_buffer = some (update request_kbps buffer);
          dvb_fifos = map (reset_new (return dama_rbdc)) a.dvb_fifos;
        },
        (add_request 0 dama_rbdc request_kbps sac).1,
      )
      else some (record a { rbdc_request_buffer = some (update 0 buffer) }, sac)
]

unfoldable pub enter_vbdc : Bool → ℕ → Option (Agent × Sac) → Option (Bool × Bool × Agent × Sac)
enter_vbdc send_vbdc_request request_kb none = none
enter_vbdc send_vbdc_request request_kb (some (a, sac)) =
    some (
      true,
      false,
      a,
      if send_vbdc_request then (add_request 0 dama_vbdc request_kb sac).1 else sac,
    )

-- The end of `buildSAC`, once it is known what is sent.
unfoldable pub fill_sac : Bool → Bool → ℕ → ℕ → Agent → Sac → Option (Bool × Bool × Agent × Sac)
unfolding enter_rbdc enter_vbdc
fill_sac send_rbdc_request send_vbdc_request request_kbps request_kb a sac =
    if not send_rbdc_request && not send_vbdc_request
    then some (true, true, a, sac)
    else enter_vbdc send_vbdc_request request_kb (enter_rbdc send_rbdc_request request_kbps a sac)

-- `buildSAC`: the result, whether the SAC is empty, the agent and the SAC.
unfoldable pub build_sac : Agent → Sac → Option (Bool × Bool × Agent × Sac)
unfolding rbdc_to_send vbdc_to_send fill_sac
build_sac a sac = elim (rbdc_to_send a) [
  | none ↦ none
  | some (send_rbdc_request, request_kbps) ↦ elim (vbdc_to_send a) [
    | none ↦ none
    | some (request_kb, a') ↦
        fill_sac send_rbdc_request (ltb 0 request_kb) request_kbps request_kb a' sac
  ]
]
