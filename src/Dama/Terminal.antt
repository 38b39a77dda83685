-- ===== src/Dama/Terminal.antt =====
-- opensand-core/src/dvb/utils/TerminalContextDama.cpp and TerminalContextDamaRcs.cpp: what the
-- controller keeps of a terminal. Rates, volumes and times are 16-bit words. The credit is a
-- floating-point number: its type and operations are a parameter.
pub mod Limits
mod Tests
use opensand.Prelude.{
  ℕ, ◌+◌, ◌-◌, Bool, Option, none, some, ltb, leb, if◌then◌else◌, u16, add16, min,
}

-- The floating-point operations on credits, and those that tie them to rates.
pub record Credits : Type 1 where
  pub Credit : Type 0
  pub zero_credit : Credit
  pub add_credit : Credit → Credit → Credit
  pub greater : Credit → Credit → Bool

-- `FmtDefinition`, as far as the allocation reads it.
pub record Fmt : Type 0 where
  pub id : ℕ
  pub modulation_efficiency : ℕ

module _ (K : Credits) where
  open K use {Credit, zero_credit, add_credit, greater}

  pub record Terminal : Type 0 where
    pub tal_id : ℕ
    pub cra_request_kbps : ℕ
    pub cra_alloc_kbps : ℕ
    pub max_rbdc_kbps : ℕ
    pub rbdc_timeout_sf : ℕ
    pub max_vbdc_kb : ℕ
    pub rbdc_credit : Credit
    pub timer_sf : ℕ
    pub rbdc_request_kbps : ℕ
    pub rbdc_alloc_kbps : ℕ
    pub vbdc_request_kb : ℕ
    pub vbdc_alloc_kb : ℕ
    pub fca_alloc_kbps : ℕ
    pub required_fmt : Option Fmt
    pub fmt : Option Fmt
    pub carrier_id : ℕ

  -- Both constructors. `cra_memory` is what the memory of `cra_alloc_kbps` holds: nothing sets it.
  unfoldable pub new_terminal : ℕ → ℕ → ℕ → ℕ → ℕ → ℕ → Terminal
  new_terminal cra_memory tal_id cra_kbps max_rbdc_kbps rbdc_timeout_sf max_vbdc_kb = record {
    tal_id = tal_id;
    cra_request_kbps = cra_kbps;
    cra_alloc_kbps = cra_memory;
    max_rbdc_kbps = max_rbdc_kbps;
    rbdc_timeout_sf = rbdc_timeout_sf;
    max_vbdc_kb = max_vbdc_kb;
    rbdc_credit = zero_credit;
    timer_sf = 0;
    rbdc_request_kbps = 0;
    rbdc_alloc_kbps = 0;
    vbdc_request_kb = 0;
    vbdc_alloc_kb = 0;
    fca_alloc_kbps = 0;
    required_fmt = none;
    fmt = none;
    carrier_id = 0;
  }

  unfoldable pub update_rbdc_timeout : ℕ → Terminal → Terminal
  update_rbdc_timeout timeout_sf t = record t { rbdc_timeout_sf = timeout_sf }

  unfoldable pub set_required_cra : ℕ → Terminal → Terminal
  set_required_cra val_kbps t = record t { cra_request_kbps = val_kbps }

  unfoldable pub set_cra_allocation : ℕ → Terminal → Terminal
  set_cra_allocation val_kbps t = record t { cra_alloc_kbps = val_kbps }

  unfoldable pub set_max_rbdc : ℕ → Terminal → Terminal
  set_max_rbdc val_kbps t = record t { max_rbdc_kbps = val_kbps }

  -- A new request is limited, clears the credit and starts the timer.
  unfoldable pub set_required_rbdc : ℕ → Terminal → Terminal
  set_required_rbdc val_kbps t = record t {
    rbdc_request_kbps = min val_kbps t.max_rbdc_kbps;
    rbdc_credit = zero_credit;
    timer_sf = t.rbdc_timeout_sf;
  }

  unfoldable pub set_rbdc_allocation : ℕ → Terminal → Terminal
  set_rbdc_allocation val_kbps t = record t { rbdc_alloc_kbps = val_kbps }

  unfoldable pub add_rbdc_credit : Credit → Terminal → Terminal
  add_rbdc_credit credit t = record t { rbdc_credit = add_credit t.rbdc_credit credit }

  unfoldable pub set_rbdc_credit : Credit → Terminal → Terminal
  set_rbdc_credit credit t = record t { rbdc_credit = credit }

  unfoldable pub decrement_timer : Terminal → Terminal
  decrement_timer t =
      if ltb 0 t.timer_sf then record t { timer_sf = t.timer_sf - 1 } else record t { timer_sf = 0 }

  -- The sum wraps before it is limited.
  unfoldable pub set_required_vbdc : ℕ → Terminal → Terminal
  set_required_vbdc val_kb t = record t {
    vbdc_request_kb = min (add16 t.vbdc_request_kb val_kb) t.max_vbdc_kb;
  }

  -- What is granted is no longer requested.
  unfoldable pub set_vbdc_allocation : ℕ → Terminal → Terminal
  set_vbdc_allocation val_kb t = record t {
    vbdc_alloc_kb = val_kb;
    vbdc_request_kb = if leb val_kb t.vbdc_request_kb then t.vbdc_request_kb - val_kb else 0;
  }

  unfoldable pub set_fca_allocation : ℕ → Terminal → Terminal
  set_fca_allocation val_kbps t = record t { fca_alloc_kbps = val_kbps }

  unfoldable pub set_required_fmt : Option Fmt → Terminal → Terminal
  set_required_fmt fmt t = record t { required_fmt = fmt }

  unfoldable pub set_fmt : Option Fmt → Terminal → Terminal
  set_fmt fmt t = record t { fmt = fmt }

  unfoldable pub set_carrier_id : ℕ → Terminal → Terminal
  set_carrier_id carrier_id t = record t { carrier_id = carrier_id }

  unfoldable pub total_rate_allocation : Terminal → ℕ
  total_rate_allocation t = u16 (t.rbdc_alloc_kbps + t.fca_alloc_kbps + t.cra_alloc_kbps)

  -- `getFmtId`
  unfoldable pub fmt_id : Terminal → ℕ
  fmt_id t = elim t.fmt [ none ↦ 0 | some f ↦ f.id ]

  unfoldable pub sort_by_remaining_credit : Terminal → Terminal → Bool
  sort_by_remaining_credit e1 e2 = greater e1.rbdc_credit e2.rbdc_credit

  unfoldable pub sort_by_vbdc_req : Terminal → Terminal → Bool
  sort_by_vbdc_req e1 e2 = ltb e2.vbdc_request_kb e1.vbdc_request_kb
