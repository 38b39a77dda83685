-- ===== src/Dama/Agent/Requests.antt =====
-- What a terminal asks for: the rate that it computes and the SAC that it builds.
use opensand.Prelude.{
  ℕ, zero, suc, ◌+◌, ◌-◌, ◌*◌, ◌/◌, ◌≤◌, ◌<◌, ◌≡◌, refl, sym, ◌∙◌, ap, Bool, true, false, ◌&&◌, not,
  Option, none, some, List, [], ◌∷◌, map, ltb, leb, leb→le, lt→ltb, ltb_of_le, ◌==◌, if◌then◌else◌,
  u16, u32, sub32, min, arith, Bool-cases, inl, inr,
}
use native.Mathlib.Nat.{div-le_self, div-zero, zero-div, zero-mul, mul-pos, zero-add}
use opensand.Access.{return, dama_rbdc, dama_vbdc}
use opensand.Fifo.Dvb.{reset_new}
use opensand.Dama.Buffer.{CircularBuffer, update, get_sum}
use opensand.Dama.Sac.{Sac, CrInfo, new_sac, get_requests, add_request}
use opensand.Dama.Sac.Codec.{received}
use opensand.Dama.Sac.Message.{Wish, add_all, add_all-first_only, get_requests-new_sac}
use opensand.Dama.Agent.{
  Agent, mac_buffer_length, mac_buffer_arrivals, magnitude, positive_quotient, arrival_rate,
  int_sum, limited_rate, compute_rbdc_request, compute_vbdc_request, rbdc_to_send, vbdc_to_send,
  enter_rbdc, enter_vbdc, fill_sac, build_sac,
}

-- The integer arithmetic of the rate request, with differences that stop at 0.
abbrev pub rate : ℕ → ℕ → ℕ → ℕ → ℕ → ℕ
rate length_b arrivals_b previous_kbps elapsed_ms window_ms =
    arrivals_b / elapsed_ms + (length_b - elapsed_ms * previous_kbps) / window_ms

quotient-positive :
    (a b : ℕ) → a < 1073741824 → 1 ≤ b → b < 2147483648 → positive_quotient a b ≡ some (a / b)
unfolding positive_quotient magnitude
quotient-positive a b ha h1 h2 =
    let pos : (b == 0) ≡ false = ground arith in
    let le = div-le_self a b in
    rw
      (
        pos,
        lt→ltb a 2147483648 (omega arith),
        lt→ltb b 2147483648 h2,
        lt→ltb (a / b) 2147483648 (omega arith),
      )
      refl

quotient-negative :
    (a b : ℕ) → 2147483648 ≤ a → 1 ≤ b → b < 2147483648 → positive_quotient a b ≡ some 0
unfolding positive_quotient magnitude
quotient-negative a b ha h1 h2 =
    let pos : (b == 0) ≡ false = ground arith in
    rw (pos, ltb_of_le a 2147483648 ha, lt→ltb b 2147483648 h2) refl

positive_quotient-exact :
    (length_b x window_ms : ℕ)
    → length_b < 1073741824
    → x < 1073741824
    → 1 ≤ window_ms
    → window_ms < 2147483648
    → positive_quotient (sub32 length_b (u32 x)) (u32 window_ms) ≡ some ((length_b - x) / window_ms)
positive_quotient-exact length_b x window_ms hl hx h1 h2 =
    let window : u32 window_ms ≡ window_ms = omega arith in
    elim (Bool-cases (leb x length_b)) [
      | inl le ↦
          let le' = leb→le x length_b le in
          let d : sub32 length_b (u32 x) ≡ length_b - x = omega arith in
          rw (window, d) (quotient-positive (length_b - x) window_ms (omega arith) h1 h2)
      | inr gt ↦
          let none_left : length_b - x ≡ 0 = ground arith in
          let high : 2147483648 ≤ sub32 length_b (u32 x) = ground arith in
          rw (window, none_left)
            (quotient-negative (sub32 length_b (u32 x)) window_ms high h1 h2
              ∙ ap some (sym (zero-div window_ms)))
    ]

limited_rate-exact :
    (timer frame arrivals_b req_kbps : ℕ)
    → arrivals_b < 1073741824
    → req_kbps < 1073741824
    → 1 ≤ frame
    → limited_rate timer arrivals_b (timer * frame) (some req_kbps)
      ≡ some (min (u16 (arrivals_b / (timer * frame) + req_kbps)) 16320)
unfolding limited_rate arrival_rate int_sum
limited_rate-exact zero frame arrivals_b req_kbps ha hr hf =
    rw (zero-mul frame, div-zero arrivals_b, zero-add req_kbps) refl
limited_rate-exact (suc timer) frame arrivals_b req_kbps ha hr hf =
    let elapsed = suc timer * frame in
    let le = div-le_self arrivals_b elapsed in
    let runs : 1 ≤ elapsed = mul-pos (omega arith) hf in
    let pos : (elapsed == 0) ≡ false = ground arith in
    let small : ltb (arrivals_b / elapsed + req_kbps) 2147483648 ≡ true =
      lt→ltb (arrivals_b / elapsed + req_kbps) 2147483648 (omega arith) in
    let late : (suc timer == 0) ≡ false = ground arith in rw (late, pos, small) refl

-- In the ranges where no word wraps, the request is the integer rate of the arrivals plus what is
-- left of the queue over the window, converted to 16 bits and then limited to 16320.
pub compute_rbdc_request-exact :
    (a : Agent) (buffer : CircularBuffer)
    → mac_buffer_length dama_rbdc a.dvb_fifos < 1073741824
    → mac_buffer_arrivals dama_rbdc a.dvb_fifos < 1073741824
    → a.rbdc_timer_sf * a.frame_duration_ms < 4294967296
    → a.rbdc_timer_sf * a.frame_duration_ms * get_sum buffer < 1073741824
    → 1 ≤ a.frame_duration_ms
    → 1 ≤ a.msl_sf
    → a.frame_duration_ms * a.msl_sf < 2147483648
    → compute_rbdc_request a buffer
      ≡ some (
          min
            (u16 (
              rate
                (mac_buffer_length dama_rbdc a.dvb_fifos)
                (mac_buffer_arrivals dama_rbdc a.dvb_fifos)
                (get_sum buffer)
                (a.rbdc_timer_sf * a.frame_duration_ms)
                (a.frame_duration_ms * a.msl_sf)))
            16320)
unfolding compute_rbdc_request
compute_rbdc_request-exact a buffer hl ha ht hx hf hm h2 =
    let length_b = mac_buffer_length dama_rbdc a.dvb_fifos in
    let arrivals_b = mac_buffer_arrivals dama_rbdc a.dvb_fifos in
    let elapsed = a.rbdc_timer_sf * a.frame_duration_ms in
    let window = a.frame_duration_ms * a.msl_sf in
    let whole : u32 elapsed ≡ elapsed = omega arith in
    let request =
      positive_quotient-exact length_b (elapsed * get_sum buffer) window hl hx (mul-pos hf hm) h2 in
    let le = div-le_self (length_b - elapsed * get_sum buffer) window in
    ap
      (λ ms.
        limited_rate a.rbdc_timer_sf arrivals_b ms
          (positive_quotient (sub32 length_b (u32 (ms * get_sum buffer))) (u32 window)))
      whole
    ∙ ap (limited_rate a.rbdc_timer_sf arrivals_b elapsed) request
    ∙ limited_rate-exact a.rbdc_timer_sf a.frame_duration_ms arrivals_b
        ((length_b - elapsed * get_sum buffer) / window) ha (omega arith) hf

-- The volume that is asked for: the queue in kbits, rounded up, and at most 4080.
unfoldable pub volume : Agent → ℕ
volume a =
    if a.vbdc_enabled then min ((mac_buffer_length dama_vbdc a.dvb_fifos + 999) / 1000) 4080 else 0

unfoldable credited : Agent → Agent
unfolding volume
credited a = if a.vbdc_enabled then record a { vbdc_credit_kb = volume a } else a

credited-buffer : (a : Agent) → (credited a).rbdc_request_buffer ≡ a.rbdc_request_buffer
unfolding credited
credited-buffer a = elim (Bool-cases a.vbdc_enabled) [ inl e ↦ rw e refl | inr e ↦ rw e refl ]

vbdc_to_send-volume :
    (a : Agent)
    → mac_buffer_length dama_vbdc a.dvb_fifos < 65535000
    → vbdc_to_send a ≡ some (volume a, credited a)
unfolding vbdc_to_send compute_vbdc_request volume credited
vbdc_to_send-volume a h =
    let fits =
      lt→ltb ((mac_buffer_length dama_vbdc a.dvb_fifos + 999) / 1000) 65536 (omega arith) in
    elim (Bool-cases a.vbdc_enabled) [ inl e ↦ rw (e, fits) refl | inr e ↦ rw e refl ]

-- What a new SAC carries when a rate is due or not, and a volume is.
abbrev pub carried : Bool → Bool → ℕ → ℕ → List CrInfo
carried true volume_due r v = received 0 dama_rbdc r ∷ []
carried false true r v = received 0 dama_vbdc v ∷ []
carried false false r v = []

-- What is entered in the buffer of the last rates.
abbrev pub entered : Bool → Bool → ℕ → CircularBuffer → CircularBuffer
entered true volume_due r buffer = update r buffer
entered false true r buffer = update 0 buffer
entered false false r buffer = buffer

-- A call that returns, with what it leaves: a message of the terminal and a buffer.
pub record Built (call : Option (Bool × Bool × Agent × Sac)) (buffer : CircularBuffer)
    (rate_due volume_due : Bool) (r v tal_id : ℕ) : Type 0 where
  pub agent : Agent
  pub sac : Sac
  pub returns : call ≡ some (true, not rate_due && not volume_due, agent, sac)
  pub requests : get_requests sac ≡ some (carried rate_due volume_due r v)
  pub sender : sac.tal_id ≡ tal_id
  pub buffered : agent.rbdc_request_buffer ≡ some (entered rate_due volume_due r buffer)

after_rate : ℕ → CircularBuffer → Agent → Agent
after_rate r buffer a = record a {
  rbdc_timer_sf = 0;
  rbdc_request_buffer = some (update r buffer);
  dvb_fifos = map (reset_new (return dama_rbdc)) a.dvb_fifos;
}

module _ (lowest tal_id group_id : ℕ) where
  fill_sac-Built :
      (a : Agent) (buffer : CircularBuffer) (rate_due volume_due : Bool) (r v : ℕ)
      → a.rbdc_request_buffer ≡ some buffer
      → Built
          (fill_sac rate_due volume_due r v a (new_sac lowest tal_id group_id))
          buffer
          rate_due
          volume_due
          r
          v
          tal_id
  unfolding fill_sac enter_rbdc enter_vbdc add_all after_rate add_request new_sac
  fill_sac-Built a buffer true true r v h =
      let rate_wish : Wish = record { prio = 0; access = dama_rbdc; value = r } in
      let volume_wish : Wish = record { prio = 0; access = dama_vbdc; value = v } in
      rw h record {
        agent = after_rate r buffer a;
        sac = add_all (rate_wish ∷ volume_wish ∷ []) (new_sac lowest tal_id group_id);
        returns = refl;
        requests =
            (add_all-first_only lowest tal_id group_id rate_wish (volume_wish ∷ [])).0.requests;
        sender = refl;
        buffered = refl;
      }
  fill_sac-Built a buffer true false r v h =
      let rate_wish : Wish = record { prio = 0; access = dama_rbdc; value = r } in
      rw h record {
        agent = after_rate r buffer a;
        sac = add_all (rate_wish ∷ []) (new_sac lowest tal_id group_id);
        returns = refl;
        requests = (add_all-first_only lowest tal_id group_id rate_wish []).0.requests;
        sender = refl;
        buffered = refl;
      }
  fill_sac-Built a buffer false true r v h =
      let volume_wish : Wish = record { prio = 0; access = dama_vbdc; value = v } in
      rw h record {
        agent = record a { rbdc_request_buffer = some (update 0 buffer) };
        sac = add_all (volume_wish ∷ []) (new_sac lowest tal_id group_id);
        returns = refl;
        requests = (add_all-first_only lowest tal_id group_id volume_wish []).0.requests;
        sender = refl;
        buffered = refl;
      }
  fill_sac-Built a buffer false false r v h = record {
    agent = a;
    sac = new_sac lowest tal_id group_id;
    returns = refl;
    requests = get_requests-new_sac lowest tal_id group_id;
    sender = unfold new_sac in refl;
    buffered = h;
  }

  -- With a buffer and a defined rate request, `buildSAC` returns; the SAC carries the rate if it is
  -- due, and the volume only where no rate is due, so a volume that is due beside a rate is not sent;
  -- it is reported empty just when neither is due, and it names its terminal. The buffer takes the rate, or 0 with the volume.
  pub build_sac-Built :
      (a : Agent) (buffer : CircularBuffer) (rate_due : Bool) (r : ℕ)
      → mac_buffer_length dama_vbdc a.dvb_fifos < 65535000
      → a.rbdc_request_buffer ≡ some buffer
      → rbdc_to_send a ≡ some (rate_due, r)
      → Built
          (build_sac a (new_sac lowest tal_id group_id))
          buffer
          rate_due
          (ltb 0 (volume a))
          r
          (volume a)
          tal_id
  unfolding build_sac volume
  build_sac-Built a buffer rate_due r hv hb hr =
      rw (build_sac, hr, vbdc_to_send-volume a hv)
        (fill_sac-Built (credited a) buffer rate_due (ltb 0 (volume a)) r (volume a)
          (credited-buffer a ∙ hb))

fill_sac-null :
    (a : Agent) (s : Sac) (r v : ℕ)
    → a.rbdc_request_buffer ≡ none
    → fill_sac false true r v a s ≡ none
unfolding fill_sac enter_rbdc enter_vbdc
fill_sac-null a s r v h = rw h refl

-- An agent whose FIFOs have no rate-based access has no buffer: as soon as it has a volume to ask for,
-- `buildSAC` reads through the null pointer.
build_sac-null :
    (a : Agent) (s : Sac)
    → a.rbdc_enabled ≡ false
    → a.rbdc_request_buffer ≡ none
    → mac_buffer_length dama_vbdc a.dvb_fifos < 65535000
    → 1 ≤ volume a
    → build_sac a s ≡ none
unfolding build_sac rbdc_to_send volume
build_sac-null a s disabled null hv positive =
    let due : ltb 0 (volume a) ≡ true = lt→ltb 0 (volume a) positive in
    rw (build_sac, disabled, vbdc_to_send-volume a hv, due)
      (fill_sac-null (credited a) s 0 (volume a) (credited-buffer a ∙ null))
