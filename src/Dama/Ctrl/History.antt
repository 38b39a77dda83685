-- ===== src/Dama/Ctrl/History.antt =====
-- The controller over any history of the messages that it takes in.
use opensand.Prelude.{
  ℕ, ◌-◌, ◌≡◌, refl, ◌∙◌, subst, Bool, true, Option, none, some, List, [], ◌∷◌, ltb, ◌==◌, ==_refl,
  min, arith, Bool-cases, Option-cases, inl, inr,
}
use opensand.Access.{ReturnAccess, dama_vbdc, dama_rbdc, dama_avbdc, dama_cra, saloha}
use opensand.Maps.{find}
use opensand.Maps.Laws.{find-change, total-change, total-change_same, change-Unique}
use opensand.Maps.Every.{change-Every}
use opensand.Dama.Terminal.{
  Credits, Terminal, set_required_vbdc, set_required_rbdc, set_required_cra, set_max_rbdc,
  update_rbdc_timeout,
}
use opensand.Dama.Sac.{Sac, CrInfo, get_requests}
use opensand.Dama.Ctrl.{
  Ctrl, Logged, LogonRequest, PepRequest, change_terminal, here_is_logon, here_is_logoff,
  take_request, take_requests, here_is_sac, pep_cra, pep_rbdc_max, pep_rbdc, apply_pep_command,
}
use opensand.Dama.Ctrl.Counters.{
  max_rbdc, Own, Accounted, change_terminal-Accounted, here_is_logon-Accounted,
  here_is_logoff-Accounted,
}

-- The messages that reach the controller.
pub data Message : Type 0 where
  logs_on : ℕ → LogonRequest → Message
  logs_off : ℕ → Message
  asks : Sac → Message
  commands : PepRequest → Message

module _ (K : Credits) where
  flagged :
      (rbdc vbdc : Bool) (c : Ctrl K)
      → Accounted K c
      → Accounted K record c { enable_rbdc = rbdc; enable_vbdc = vbdc }
  flagged rbdc vbdc c a = record {
    unique = a.unique;
    own = a.own;
    st_num = a.st_num;
    rbdc_max = a.rbdc_max;
  }

  take_request-Accounted :
      (terminal : Terminal K) (tal_id : ℕ) (cr : CrInfo) (c : Ctrl K)
      → Accounted K c
      → Accounted K (take_request K terminal tal_id cr c)
  unfolding take_request
  take_request-Accounted terminal tal_id cr c a = by_access cr.access
    where
      by_access :
          (access : ReturnAccess)
          → Accounted K (take_request K terminal tal_id record cr { access = access } c)
      by_access dama_vbdc =
          flagged c.enable_rbdc true
            (change_terminal K tal_id (set_required_vbdc K (min cr.value terminal.max_vbdc_kb)) c)
            (unfold set_required_vbdc in
              change_terminal-Accounted K tal_id
                (set_required_vbdc K (min cr.value terminal.max_vbdc_kb)) c (λ t. refl) (λ t. refl)
                a)
      by_access dama_rbdc =
          flagged true c.enable_vbdc
            (change_terminal K tal_id
              (set_required_rbdc K
                (min (cr.value - terminal.cra_request_kbps) terminal.max_rbdc_kbps))
              c)
            (unfold set_required_rbdc in
              change_terminal-Accounted K tal_id
                (set_required_rbdc K
                  (min (cr.value - terminal.cra_request_kbps) terminal.max_rbdc_kbps))
                c (λ t. refl) (λ t. refl) a)
      by_access dama_avbdc = a
      by_access dama_cra = a
      by_access saloha = a

  -- A call that does not return has nothing to keep.
  abbrev pub Kept : Option (Ctrl K) → Type 0
  Kept none = Unit
  Kept (some c) = Accounted K c

  without_terminal :
      (access : ReturnAccess) (rest : Option (Ctrl K))
      → Kept rest
      → Kept (elim access [ dama_vbdc ↦ none | dama_rbdc ↦ none | _ ↦ rest ])
  without_terminal dama_vbdc rest k = tt
  without_terminal dama_rbdc rest k = tt
  without_terminal dama_avbdc rest k = k
  without_terminal dama_cra rest k = k
  without_terminal saloha rest k = k

  take_requests-Kept :
      (tal_id : ℕ) (crs : List CrInfo) (c : Ctrl K)
      → Accounted K c
      → Kept (take_requests K tal_id crs c)
  unfolding take_requests
  take_requests-Kept tal_id [] c a = a
  take_requests-Kept tal_id (cr ∷ crs) c a = elim (Option-cases (find tal_id c.terminals)) [
    | inl e ↦
        rw (take_requests, e)
          (without_terminal cr.access (take_requests K tal_id crs c)
            (take_requests-Kept tal_id crs c a))
    | inr (l, e) ↦
        rw (take_requests, e)
          (take_requests-Kept tal_id crs (take_request K l.terminal tal_id cr c)
            (take_request-Accounted l.terminal tal_id cr c a))
  ]

  pep_cra-Accounted :
      (request : PepRequest) (c : Ctrl K) → Accounted K c → Accounted K (pep_cra K request c)
  unfolding pep_cra
  pep_cra-Accounted request c a = elim (Bool-cases (request.cra == 0)) [
    | inl e ↦ rw e a
    | inr e ↦ rw e (
        unfold set_required_cra in
        change_terminal-Accounted K request.st_id (set_required_cra K request.cra) c (λ t. refl)
          (λ t. refl) a)
  ]

  pep_cra-found :
      (request : PepRequest) (l : Logged K) (c : Ctrl K)
      → find request.st_id c.terminals ≡ some l
      → (l' : Logged K) × (find request.st_id (pep_cra K request c).terminals ≡ some l')
        × (max_rbdc K l' ≡ max_rbdc K l)
  unfolding pep_cra set_required_cra change_terminal
  pep_cra-found request l c h =
      let g : Logged K → Logged K =
        λ l. record l { terminal = set_required_cra K request.cra l.terminal } in
      let found = find-change request.st_id request.st_id g c.terminals in
      let self = ==_refl request.st_id in
      elim (Bool-cases (request.cra == 0)) [
        | inl e ↦ rw e (l, h, refl)
        | inr e ↦ rw e (g l, found ∙ (rw (self, h) refl), refl)
      ]

  pep_rbdc_max-Kept :
      (request : PepRequest) (t : Terminal K) (l : Logged K) (c : Ctrl K)
      → find request.st_id c.terminals ≡ some l
      → max_rbdc K l ≡ t.max_rbdc_kbps
      → Accounted K c
      → Kept (pep_rbdc_max K request t c)
  unfolding pep_rbdc_max set_max_rbdc change_terminal
  pep_rbdc_max-Kept request t l c h same a =
      let g : Logged K → Logged K =
        λ l. record l { terminal = set_max_rbdc K request.rbdc_max l.terminal } in
      let rates = total-change (max_rbdc K) g request.st_id l c.terminals h in
      let number = total-change_same (λ _. 1) g request.st_id c.terminals (λ l. refl) in
      let st_num = a.st_num in
      let rbdc_max = a.rbdc_max in
      elim (Bool-cases (request.rbdc_max == 0)) [
        | inl e ↦ rw e a
        | inr e ↦ elim (Bool-cases (ltb t.tal_id 31)) [
          | inl p ↦
              rw (e, p)
                record {
                  unique = change-Unique request.st_id g c.terminals a.unique;
                  own = change-Every (Own K) request.st_id g c.terminals (λ k l h. h) a.own;
                  st_num = omega (arith, number, st_num);
                  rbdc_max = omega (arith, rates, rbdc_max, same);
                }
          | inr p ↦ rw (e, p) tt
        ]
      ]

  pep_rbdc-Accounted :
      (request : PepRequest) (c : Ctrl K) → Accounted K c → Accounted K (pep_rbdc K request c)
  unfolding pep_rbdc
  pep_rbdc-Accounted request c a = elim (Bool-cases (request.rbdc == 0)) [
    | inl e ↦ rw e a
    | inr e ↦ rw e (
        unfold set_required_rbdc update_rbdc_timeout in
        change_terminal-Accounted K request.st_id
          (λ t.
            update_rbdc_timeout K c.rbdc_timeout_sf
              (set_required_rbdc K request.rbdc (update_rbdc_timeout K 100 t)))
          c (λ t. refl) (λ t. refl) a)
  ]

  -- The controller after a call, whatever the call returned.
  unfoldable pub left : Option (Bool × Ctrl K) → Option (Ctrl K)
  left none = none
  left (some (b, c)) = some c

  here_is_sac-Kept :
      (is_gw : ℕ → Bool) (sac : Sac) (c : Ctrl K)
      → Accounted K c
      → Kept (left (here_is_sac K is_gw sac c))
  unfolding here_is_sac left
  here_is_sac-Kept is_gw sac c a = elim (Option-cases (get_requests sac)) [
    | inl e ↦ rw (here_is_sac, e) tt
    | inr (requests, e) ↦
        let kept = take_requests-Kept sac.tal_id requests c a in
        elim (Bool-cases (elim (find sac.tal_id c.terminals) as (λ _. Bool) [
          | none ↦ is_gw sac.tal_id
          | some logged ↦ true
        ])) [
          | inl k ↦ elim (Option-cases (take_requests K sac.tal_id requests c)) [
            | inl n ↦ rw (here_is_sac, e, k, n) tt
            | inr (c', n) ↦ rw (here_is_sac, e, k, n) (subst Kept n kept)
          ]
          | inr k ↦ rw (here_is_sac, e, k) a
        ]
  ]

  apply_pep_command-Kept :
      (request : PepRequest) (c : Ctrl K)
      → Accounted K c
      → Kept (left (apply_pep_command K request c))
  unfolding apply_pep_command left
  apply_pep_command-Kept request c a = elim (Option-cases (find request.st_id c.terminals)) [
    | inl e ↦ rw (apply_pep_command, e) a
    | inr (l, e) ↦
        let (l', found, same) = pep_cra-found request l c e in
        let kept =
          pep_rbdc_max-Kept request l.terminal l' (pep_cra K request c) found same
            (pep_cra-Accounted request c a) in
        elim (Option-cases (pep_rbdc_max K request l.terminal (pep_cra K request c))) [
          | inl n ↦ rw (apply_pep_command, e, n) tt
          | inr (c', n) ↦
              rw (apply_pep_command, e, n) (pep_rbdc-Accounted request c' (subst Kept n kept))
        ]
  ]

  unfoldable pub handle : (ℕ → Bool) → Message → Ctrl K → Option (Ctrl K)
  unfolding here_is_logon here_is_logoff here_is_sac apply_pep_command left
  handle is_gw (logs_on cra_memory request) c = some (here_is_logon K cra_memory request c).1
  handle is_gw (logs_off tal_id) c = some (here_is_logoff K tal_id c).1
  handle is_gw (asks s) c = left (here_is_sac K is_gw s c)
  handle is_gw (commands request) c = left (apply_pep_command K request c)

  pub handle-Kept :
      (is_gw : ℕ → Bool) (m : Message) (c : Ctrl K) → Accounted K c → Kept (handle is_gw m c)
  unfolding handle
  handle-Kept is_gw (logs_on cra_memory request) c a =
      here_is_logon-Accounted K cra_memory request c a
  handle-Kept is_gw (logs_off tal_id) c a = here_is_logoff-Accounted K tal_id c a
  handle-Kept is_gw (asks s) c a = here_is_sac-Kept is_gw s c a
  handle-Kept is_gw (commands request) c a = apply_pep_command-Kept request c a

  unfoldable pub handle_all : (ℕ → Bool) → List Message → Ctrl K → Option (Ctrl K)
  unfolding handle
  handle_all is_gw [] c = some c
  handle_all is_gw (m ∷ ms) c = elim (handle is_gw m c) [
    | none ↦ none
    | some c' ↦ handle_all is_gw ms c'
  ]

  -- The counters stay right over any history of messages, up to the first one that crashes.
  handle_all-Accounted :
      (is_gw : ℕ → Bool) (ms : List Message) (c : Ctrl K)
      → Accounted K c
      → Kept (handle_all is_gw ms c)
  unfolding handle_all
  handle_all-Accounted is_gw [] c a = a
  handle_all-Accounted is_gw (m ∷ ms) c a =
      let kept = handle-Kept is_gw m c a in
      elim (Option-cases (handle is_gw m c)) [
        | inl e ↦ rw (Kept, e) tt
        | inr (c', e) ↦ rw (Kept, e) (handle_all-Accounted is_gw ms c' (subst Kept e kept))
      ]
