-- ===== src/Dama/Terminal/Limits.antt =====
-- The limits on what a terminal may request, and the accounting of its volume.
use opensand.Prelude.{ℕ, ◌+◌, ◌-◌, ◌≤◌, ◌<◌, ◌≡◌, arith, u16_mod, min, max, List, [], ◌∷◌, Option}
use opensand.Dama.Terminal.{
  Credits, Fmt, Terminal, set_required_rbdc, set_required_vbdc, set_vbdc_allocation,
  decrement_timer, set_rbdc_allocation, set_cra_allocation, set_fca_allocation, set_max_rbdc,
  set_required_cra, update_rbdc_timeout, add_rbdc_credit, set_rbdc_credit, set_required_fmt,
  set_fmt, set_carrier_id, new_terminal,
}

module _ (K : Credits) where
  -- The calls that the controller makes on a context while a terminal is logged on.
  pub data Event : Type 0 where
    requires_rbdc requires_vbdc requires_cra : ℕ → Event
    grants_cra grants_rbdc grants_vbdc grants_fca : ℕ → Event
    limits_rbdc times_out_after assigns_carrier : ℕ → Event
    adds_credit sets_credit : K.Credit → Event
    requires_fmt assigns_fmt : Option Fmt → Event
    ticks : Event

  unfoldable pub react : Terminal K → Event → Terminal K
  react t (requires_rbdc v) = set_required_rbdc K v t
  react t (requires_vbdc v) = set_required_vbdc K v t
  react t (requires_cra v) = set_required_cra K v t
  react t (grants_cra v) = set_cra_allocation K v t
  react t (grants_rbdc v) = set_rbdc_allocation K v t
  react t (grants_vbdc v) = set_vbdc_allocation K v t
  react t (grants_fca v) = set_fca_allocation K v t
  react t (limits_rbdc v) = set_max_rbdc K v t
  react t (times_out_after v) = update_rbdc_timeout K v t
  react t (assigns_carrier v) = set_carrier_id K v t
  react t (adds_credit c) = add_rbdc_credit K c t
  react t (sets_credit c) = set_rbdc_credit K c t
  react t (requires_fmt f) = set_required_fmt K f t
  react t (assigns_fmt f) = set_fmt K f t
  react t ticks = decrement_timer K t

  unfoldable pub react_all : Terminal K → List Event → Terminal K
  unfolding react
  react_all t [] = t
  react_all t (e ∷ es) = react_all (react t e) es

  -- The largest limit on the rate that a terminal has had, from the first one on.
  unfoldable pub highest : ℕ → List Event → ℕ
  highest limit [] = limit
  highest limit (limits_rbdc v ∷ es) = highest (max limit v) es
  highest limit (_ ∷ es) = highest limit es

  -- The limit on the rate in force at the end.
  unfoldable pub last_limit : ℕ → List Event → ℕ
  last_limit limit [] = limit
  last_limit limit (limits_rbdc v ∷ es) = last_limit v es
  last_limit limit (_ ∷ es) = last_limit limit es

  -- The limits on the volume and on the rate, and the bound on the rate that is requested.
  pub record Limited (bound limit max_vbdc_kb : ℕ) (t : Terminal K) : Type 0 where
    pub rate : t.rbdc_request_kbps ≤ bound
    pub below : t.max_rbdc_kbps ≤ bound
    pub rate_limit : t.max_rbdc_kbps ≡ limit
    pub volume : t.vbdc_request_kb ≤ max_vbdc_kb
    pub volume_limit : t.max_vbdc_kb ≡ max_vbdc_kb

  run-Limited :
      (t : Terminal K) (bound limit v : ℕ) (es : List Event)
      → Limited bound limit v t
      → Limited (highest bound es) (last_limit limit es) v (react_all t es)
  unfolding react_all react highest last_limit set_required_rbdc set_required_vbdc
      set_cra_allocation set_rbdc_allocation set_vbdc_allocation set_fca_allocation decrement_timer
      set_max_rbdc set_required_cra update_rbdc_timeout add_rbdc_credit set_rbdc_credit
      set_required_fmt set_fmt set_carrier_id
  run-Limited t b m v [] l = l
  run-Limited t b m v (limits_rbdc w ∷ es) l =
      run-Limited (react t (limits_rbdc w)) (max b w) w v es (ground arith)
  run-Limited t b m v (requires_rbdc w ∷ es) l =
      run-Limited (react t (requires_rbdc w)) b m v es (ground arith)
  run-Limited t b m v (requires_vbdc w ∷ es) l =
      run-Limited (react t (requires_vbdc w)) b m v es (ground arith)
  run-Limited t b m v (requires_cra w ∷ es) l =
      run-Limited (react t (requires_cra w)) b m v es (ground arith)
  run-Limited t b m v (grants_cra w ∷ es) l =
      run-Limited (react t (grants_cra w)) b m v es (ground arith)
  run-Limited t b m v (grants_rbdc w ∷ es) l =
      run-Limited (react t (grants_rbdc w)) b m v es (ground arith)
  run-Limited t b m v (grants_vbdc w ∷ es) l =
      run-Limited (react t (grants_vbdc w)) b m v es (ground arith)
  run-Limited t b m v (grants_fca w ∷ es) l =
      run-Limited (react t (grants_fca w)) b m v es (ground arith)
  run-Limited t b m v (times_out_after w ∷ es) l =
      run-Limited (react t (times_out_after w)) b m v es (ground arith)
  run-Limited t b m v (assigns_carrier w ∷ es) l =
      run-Limited (react t (assigns_carrier w)) b m v es (ground arith)
  run-Limited t b m v (adds_credit c ∷ es) l =
      run-Limited (react t (adds_credit c)) b m v es (ground arith)
  run-Limited t b m v (sets_credit c ∷ es) l =
      run-Limited (react t (sets_credit c)) b m v es (ground arith)
  run-Limited t b m v (requires_fmt f ∷ es) l =
      run-Limited (react t (requires_fmt f)) b m v es (ground arith)
  run-Limited t b m v (assigns_fmt f ∷ es) l =
      run-Limited (react t (assigns_fmt f)) b m v es (ground arith)
  run-Limited t b m v (ticks ∷ es) l = run-Limited (react t ticks) b m v es (ground arith)

  -- From a new context on, whatever is requested, granted and changed, the volume request never exceeds
  -- the terminal's limit, which stays as it was, and the rate request never exceeds the largest limit
  -- that the terminal has had. Its limit on the rate is the last one that was set: where that is the
  -- largest, the rate request does not exceed it.
  pub react_all-Limited :
      (cra_memory tal_id cra_kbps max_rbdc_kbps rbdc_timeout_sf max_vbdc_kb : ℕ) (es : List Event)
      → Limited (highest max_rbdc_kbps es) (last_limit max_rbdc_kbps es) max_vbdc_kb (
          react_all
            (new_terminal K cra_memory tal_id cra_kbps max_rbdc_kbps rbdc_timeout_sf max_vbdc_kb)
            es)
  react_all-Limited cra_memory tal_id cra_kbps max_rbdc_kbps rbdc_timeout_sf max_vbdc_kb es =
      run-Limited _ max_rbdc_kbps max_rbdc_kbps max_vbdc_kb es (unfold new_terminal in ground arith)

  -- A volume request that does not wrap is added up to the limit; what is then granted is taken off,
  -- and the rest stays requested.
  vbdc_accounting :
      (t : Terminal K) (asked granted : ℕ)
      → t.vbdc_request_kb + asked < u16_mod
      → let due = min (t.vbdc_request_kb + asked) t.max_vbdc_kb in
        ((set_required_vbdc K asked t).vbdc_request_kb ≡ due)
        × ((set_vbdc_allocation K granted (set_required_vbdc K asked t)).vbdc_request_kb
            ≡ due - granted)
        × ((set_vbdc_allocation K granted (set_required_vbdc K asked t)).vbdc_alloc_kb ≡ granted)
  unfolding set_required_vbdc set_vbdc_allocation
  vbdc_accounting t asked granted h = ground arith
