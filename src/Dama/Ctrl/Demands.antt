-- ===== src/Dama/Ctrl/Demands.antt =====
-- From the agent's message to the controller: what a terminal asks for is what the controller notes.
use opensand.Prelude.{
  ℕ, ◌-◌, ◌<◌, ◌≤◌, ◌≡◌, refl, ◌∙◌, ap, true, false, Bool, some, [], ◌∷◌, min, arith,
}
use opensand.Access.{dama_rbdc, dama_vbdc}
use opensand.Maps.{find}
use opensand.Maps.Laws.{find-change_self}
use opensand.Dama.Terminal.{Credits, set_required_rbdc}
use opensand.Dama.Sac.{Sac, CrInfo, new_sac, get_requests}
use opensand.Dama.Sac.Codec.{received, Within, received-rbdc}
use opensand.Dama.Buffer.{CircularBuffer}
use opensand.Dama.Agent.{Agent, build_sac, rbdc_to_send, mac_buffer_length}
use opensand.Dama.Agent.Requests.{build_sac-Built}
use opensand.Dama.Ctrl.{Ctrl, Logged, change_terminal, take_request, take_requests, here_is_sac}

module _ (K : Credits) where
  -- The controller has noted the rate of a terminal that was `l`, up to what its coding keeps: the part
  -- beyond the constant rate, up to the maximum. The timer of the request starts again.
  pub record Noted (r tal_id : ℕ) (l : Logged K) (c : Ctrl K) : Type 0 where
    pub logged : Logged K
    pub found : find tal_id c.terminals ≡ some logged
    pub asked : ℕ
    pub near : Within 32 asked r
    pub request :
        logged.terminal.rbdc_request_kbps
        ≡ min (asked - l.terminal.cra_request_kbps) l.terminal.max_rbdc_kbps
    pub timer : logged.terminal.timer_sf ≡ l.terminal.rbdc_timeout_sf
    pub enabled : c.enable_rbdc ≡ true

  min_twice : (a b : ℕ) → min (min a b) b ≡ min a b
  min_twice a b = ground arith

  here_is_sac-single :
      (is_gw : ℕ → Bool) (sac : Sac) (cr : CrInfo) (c : Ctrl K) (l : Logged K)
      → find sac.tal_id c.terminals ≡ some l
      → get_requests sac ≡ some (cr ∷ [])
      → here_is_sac K is_gw sac c ≡ some (true, take_request K l.terminal sac.tal_id cr c)
  unfolding here_is_sac take_requests
  here_is_sac-single is_gw sac cr c l h g = rw (here_is_sac, g, h) refl

  take_request-Noted :
      (r tal_id : ℕ) (cr : CrInfo) (c : Ctrl K) (l : Logged K)
      → find tal_id c.terminals ≡ some l
      → cr.access ≡ dama_rbdc
      → Within 32 cr.value r
      → Noted r tal_id l (take_request K l.terminal tal_id cr c)
  unfolding take_request change_terminal set_required_rbdc
  take_request-Noted r tal_id cr c l h access near =
      rw (take_request, access)
        record {
          logged = _;
          found = find-change_self tal_id _ l c.terminals h;
          asked = cr.value;
          near = near;
          request = min_twice (cr.value - l.terminal.cra_request_kbps) l.terminal.max_rbdc_kbps;
          timer = refl;
          enabled = refl;
        }

  -- A terminal that is logged on and has a rate to ask for sends a message, and the controller that
  -- receives it notes that rate within 32 kbits/s: the part beyond the terminal's constant rate, up to
  -- its maximum. The timer of its request starts again, and requests for rates are enabled.
  pub build_sac-Noted :
      (is_gw : ℕ → Bool) (lowest group_id r : ℕ) (a : Agent) (buffer : CircularBuffer) (c : Ctrl K)
      (l : Logged K)
      → mac_buffer_length dama_vbdc a.dvb_fifos < 65535000
      → a.rbdc_request_buffer ≡ some buffer
      → rbdc_to_send a ≡ some (true, r)
      → r ≤ 16320
      → find a.tal_id c.terminals ≡ some l
      → (a' : Agent) × (sac : Sac) × (c' : Ctrl K) × (build_sac a (new_sac lowest a.tal_id group_id)
          ≡ some (true, false, a', sac))
        × (here_is_sac K is_gw sac c ≡ some (true, c'))
        × Noted r a.tal_id l c'
  build_sac-Noted is_gw lowest group_id r a buffer c l hv hb hr small known =
      let b = build_sac-Built lowest a.tal_id group_id a buffer true r hv hb hr in
      let known' : find b.sac.tal_id c.terminals ≡ some l =
        ap (λ i. find i c.terminals) b.sender ∙ known in
      let (access, _, _, near) = received-rbdc 0 r small in
      (
        b.agent,
        b.sac,
        take_request K l.terminal a.tal_id (received 0 dama_rbdc r) c,
        b.returns,
        here_is_sac-single is_gw b.sac (received 0 dama_rbdc r) c l known' b.requests
            ∙ ap (λ i. some (true, take_request K l.terminal i (received 0 dama_rbdc r) c))
                b.sender,
        take_request-Noted r a.tal_id (received 0 dama_rbdc r) c l known access near,
      )
