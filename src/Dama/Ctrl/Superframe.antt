-- ===== src/Dama/Ctrl/Superframe.antt =====
-- The work of the controller at each superframe: `DamaCtrl::runOnSuperFrameChange`, which calls the
-- methods that the class declares abstract, and `DamaCtrlRcs2::resetTerminalsAllocations`.
use opensand.Prelude.{
  ℕ, ◌-◌, ◌≤◌, ◌⊎◌, ◌≡◌, refl, sym, ap₂, Bool, true, false, ◌&&◌, Option, none, some, List, [], ◌∷◌,
  ltb, if◌then◌else◌, add16, min, arith, Bool-cases, inl, inr,
}
use opensand.Dama.Terminal.{
  Credits, Fmt, Terminal, set_cra_allocation, set_rbdc_allocation, set_vbdc_allocation,
  set_fca_allocation, set_rbdc_credit, set_required_rbdc, decrement_timer,
}
use opensand.Dama.Ctrl.{Ctrl, Logged}

-- The floating-point operations on a credit, and the rate of a timeslot at a modulation efficiency.
pub record CreditSteps (K : Credits) : Type 0 where
  -- `0.0 < credit_kbps`
  pub positive : K.Credit → Bool
  -- `std::max(credit_kbps - timeslot_kbps, 0.0)`
  pub spend : K.Credit → ℕ → K.Credit
  -- `converter->pktpfToKbps(1)`
  pub timeslot_kbps : ℕ → ℕ

module _ (K : Credits) (R : CreditSteps K) where
  open R use {positive, spend, timeslot_kbps}

  -- The four resets and the timer. A volume of 0 is granted, and leaves the request as it was.
  unfoldable pub clear : Terminal K → Terminal K
  unfolding set_cra_allocation set_rbdc_allocation set_vbdc_allocation set_fca_allocation
      decrement_timer
  clear t = decrement_timer K (
      set_fca_allocation K 0
        (set_vbdc_allocation K 0 (set_rbdc_allocation K 0 (set_cra_allocation K 0 t))))

  -- Once it is known whether the timer runs with a credit left, and the format.
  unfoldable pub renew_in : Bool → Option Fmt → Terminal K → Terminal K → Bool × Terminal K
  unfolding set_rbdc_credit set_required_rbdc
  renew_in false fmt t cleared = (true, cleared)
  renew_in true none t cleared = (false, set_rbdc_credit K K.zero_credit cleared)
  renew_in true (some def) t cleared =
      let timeslot = timeslot_kbps def.modulation_efficiency in
      (
        true,
        set_rbdc_credit K (spend t.rbdc_credit timeslot)
            (set_required_rbdc K (add16 t.rbdc_request_kbps timeslot) cleared),
      )

  -- One round of the loop of `resetTerminalsAllocations`. The request and the credit that are renewed
  -- are those from before the reset.
  unfoldable pub renew : Terminal K → Bool × Terminal K
  unfolding clear renew_in
  renew t =
      let cleared = clear t in
      renew_in (ltb 0 cleared.timer_sf && positive t.rbdc_credit) cleared.fmt t cleared

  -- What the start of a superframe makes of a terminal.
  pub record Renewed (t : Terminal K) (r : Bool × Terminal K) : Type 0 where
    pub granted :
        (r.1.cra_alloc_kbps ≡ 0)
        × (r.1.rbdc_alloc_kbps ≡ 0)
        × (r.1.vbdc_alloc_kb ≡ 0)
        × (r.1.fca_alloc_kbps ≡ 0)
    pub volume : r.1.vbdc_request_kb ≡ t.vbdc_request_kb
    pub asked :
        (def : Fmt)
        → t.fmt ≡ some def
        → 2 ≤ t.timer_sf
        → positive t.rbdc_credit ≡ true
        → (r.0 ≡ true)
          × (r.1.timer_sf ≡ t.rbdc_timeout_sf)
          × (r.1.rbdc_request_kbps
              ≡ min
                  (add16 t.rbdc_request_kbps (timeslot_kbps def.modulation_efficiency))
                  t.max_rbdc_kbps)
    pub missing :
        t.fmt ≡ none
        → 2 ≤ t.timer_sf
        → positive t.rbdc_credit ≡ true
        → (r.0 ≡ false)
          × (r.1.timer_sf ≡ t.timer_sf - 1)
          × (r.1.rbdc_request_kbps ≡ t.rbdc_request_kbps)
    pub idle :
        ((t.timer_sf ≤ 1) ⊎ (positive t.rbdc_credit ≡ false))
        → (r.0 ≡ true)
          × (r.1.timer_sf ≡ t.timer_sf - 1)
          × (r.1.rbdc_request_kbps ≡ t.rbdc_request_kbps)

  -- What `clear` leaves of each field that the rest reads.
  record Cleared (t r : Terminal K) : Type 0 where
    granted :
        (r.cra_alloc_kbps ≡ 0)
        × (r.rbdc_alloc_kbps ≡ 0)
        × (r.vbdc_alloc_kb ≡ 0)
        × (r.fca_alloc_kbps ≡ 0)
    volume : r.vbdc_request_kb ≡ t.vbdc_request_kb
    timer : r.timer_sf ≡ t.timer_sf - 1
    format : r.fmt ≡ t.fmt
    rate : r.rbdc_request_kbps ≡ t.rbdc_request_kbps
    most : r.max_rbdc_kbps ≡ t.max_rbdc_kbps
    timeout : r.rbdc_timeout_sf ≡ t.rbdc_timeout_sf

  clear-Cleared : (t : Terminal K) → Cleared t (clear t)
  unfolding clear set_cra_allocation set_rbdc_allocation set_vbdc_allocation set_fca_allocation
      decrement_timer
  clear-Cleared t = elim (Bool-cases (ltb 0 t.timer_sf)) [
    | inl e ↦ rw e record {
      granted = (refl, refl, refl, refl);
      volume = ground arith;
      timer = refl;
      format = refl;
      rate = refl;
      most = refl;
      timeout = refl;
    }
    | inr e ↦ rw e record {
      granted = (refl, refl, refl, refl);
      volume = ground arith;
      timer = ground arith;
      format = refl;
      rate = refl;
      most = refl;
      timeout = refl;
    }
  ]

  renewed :
      (due : Bool) (fmt : Option Fmt) (t cleared : Terminal K)
      → (ltb 0 cleared.timer_sf && positive t.rbdc_credit) ≡ due
      → cleared.fmt ≡ fmt
      → Cleared t cleared
      → Renewed t (renew_in due fmt t cleared)
  unfolding renew_in set_rbdc_credit set_required_rbdc
  renewed false fmt t cleared d f h =
      let timer = h.timer in
      record {
        granted = h.granted;
        volume = h.volume;
        asked = λ def known late credit. absurd (ground arith);
        missing = λ unknown late credit. absurd (ground arith);
        idle = λ _. (refl, h.timer, h.rate);
      }
  renewed true none t cleared d f h =
      let timer = h.timer in
      let format = h.format in
      record {
        granted = h.granted;
        volume = h.volume;
        asked = λ def known late credit. absurd cc;
        missing = λ unknown late credit. (refl, h.timer, h.rate);
        idle = λ idle. absurd (ground arith);
      }
  renewed true (some def) t cleared d f h =
      let timer = h.timer in
      let format = h.format in
      record {
        granted = h.granted;
        volume = h.volume;
        asked = λ known_def known late credit.
            let same : known_def ≡ def = cc in
            (
              refl,
              h.timeout,
              ap₂ (λ m d. min (add16 t.rbdc_request_kbps (timeslot_kbps d.modulation_efficiency)) m)
                  h.most (sym same),
            );
        missing = λ unknown late credit. let format = h.format in absurd cc;
        idle = λ idle. absurd (ground arith);
      }

  -- At the start of a superframe what was granted to a terminal is forgotten and its timer runs down.
  -- Where the timer still runs and a credit is left, a timeslot is added to the rate request, modulo
  -- 2 ^ 16 and within the maximum, and the timer starts again; without a format it fails, and the
  -- request stays. Where the timer runs out or no credit is left, the request stays as it was. The
  -- volume request stays in every case.
  pub renew-Renewed : (t : Terminal K) → Renewed t (renew t)
  unfolding renew
  renew-Renewed t = renewed _ _ t (clear t) refl refl (clear-Cleared t)

  unfoldable pub renew_all : List (ℕ × Logged K) → Bool × List (ℕ × Logged K)
  unfolding renew
  renew_all [] = (true, [])
  renew_all ((id, l) ∷ ls) =
      let (ok, t) = renew l.terminal in
      let (ok', ls') = renew_all ls in (ok && ok', (id, record l { terminal = t }) ∷ ls')

  unfoldable pub reset_terminals_allocations : Ctrl K → Bool × Ctrl K
  unfolding renew_all
  reset_terminals_allocations c =
      let (ok, terminals) = renew_all c.terminals in (ok, record c { terminals = terminals })

module _ (K : Credits) where
  -- The abstract methods of `DamaCtrl`.
  pub record Methods : Type 0 where
    pub reset_carriers_capacity : Ctrl K → Bool × Ctrl K
    pub update_wave_forms : Ctrl K → Bool × Ctrl K
    pub reset_terminals : Ctrl K → Bool × Ctrl K
    pub compute_cra : Ctrl K → Bool × Ctrl K
    pub compute_rbdc : Ctrl K → Bool × Ctrl K
    pub compute_vbdc : Ctrl K → Bool × Ctrl K
    pub compute_fca : Ctrl K → Bool × Ctrl K

  -- A step, and what follows it when it succeeds.
  unfoldable pub and_then : Bool × Ctrl K → (Ctrl K → Bool × Ctrl K) → Bool × Ctrl K
  and_then (true, c) next = next c
  and_then (false, c) next = (false, c)

  module _ (M : Methods) where
    unfoldable pub compute_terminals_allocations : Ctrl K → Bool × Ctrl K
    unfolding and_then
    compute_terminals_allocations c = and_then (M.reset_terminals c) (λ c1.
        and_then (M.compute_cra c1) (λ c2.
          and_then (if c2.enable_rbdc then M.compute_rbdc c2 else (true, c2)) (λ c3.
            and_then (if c3.enable_vbdc then M.compute_vbdc c3 else (true, c3))
              (λ c4. M.compute_fca c4))))

    -- `return 0` is `false`.
    unfoldable pub run_on_superframe_change : ℕ → Ctrl K → Bool × Ctrl K
    unfolding and_then compute_terminals_allocations
    run_on_superframe_change superframe c =
        and_then (M.reset_carriers_capacity record c { current_superframe_sf = superframe }) (λ c1.
          and_then (M.update_wave_forms c1)
            (λ c2. and_then (compute_terminals_allocations c2) (λ c3. (false, c3))))

    and_then-false :
        (p : Bool × Ctrl K) (next : Ctrl K → Bool × Ctrl K)
        → ((c : Ctrl K) → (next c).0 ≡ false)
        → (and_then p next).0 ≡ false
    unfolding and_then
    and_then-false (true, c) next h = h c
    and_then-false (false, c) next h = refl

    and_then-dropped : (ok : Bool) (c : Ctrl K) → and_then (ok, c) (λ c'. (false, c')) ≡ (false, c)
    unfolding and_then
    and_then-dropped true c = refl
    and_then-dropped false c = refl

    -- The method returns false whatever its steps return. Where the carriers are reset and the wave
    -- forms updated, the controller is what the allocations leave, if they return.
    run_on_superframe_change-false :
        (superframe : ℕ) (c : Ctrl K)
        → ((run_on_superframe_change superframe c).0 ≡ false)
          × ((c1 c2 : Ctrl K) (ok : Bool) (c3 : Ctrl K)
              → M.reset_carriers_capacity record c { current_superframe_sf = superframe }
                ≡ (true, c1)
              → M.update_wave_forms c1 ≡ (true, c2)
              → compute_terminals_allocations c2 ≡ (ok, c3)
              → run_on_superframe_change superframe c ≡ (false, c3))
    unfolding run_on_superframe_change
    run_on_superframe_change-false superframe c = (
      and_then-false (M.reset_carriers_capacity record c { current_superframe_sf = superframe }) _
          (λ c1.
            and_then-false (M.update_wave_forms c1) _
              (λ c2. and_then-false (compute_terminals_allocations c2) _ (λ c3. refl))),
      λ c1 c2 ok c3 h1 h2 h3. rw (h1, and_then, h2, and_then, h3) (and_then-dropped ok c3),
    )
