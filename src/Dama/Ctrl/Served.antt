-- ===== src/Dama/Ctrl/Served.antt =====
-- The controller reads through no null pointer where the terminals have ids below the broadcast one
-- and no gateway sends requests.
use opensand.Prelude.{
  ℕ, ◌<◌, ◌≡◌, ◌≢◌, refl, Bool, false, Option, none, some, List, [], ◌∷◌, lt→ltb, ◌==◌, arith, All,
  Bool-cases, Option-cases, inl, inr, min, ◌-◌, subst,
}
use opensand.Access.{ReturnAccess, dama_rbdc, dama_vbdc, dama_avbdc, dama_cra, saloha}
use opensand.Maps.{find}
use opensand.Maps.Laws.{find-change_self}
use opensand.Maps.Every.{Every, find-Every, insert-Every, erase-Every, change-Every}
use opensand.Dama.Terminal.{Credits, Terminal, set_required_vbdc, set_required_rbdc}
use opensand.Dama.Sac.{Sac, CrInfo, get_requests}
use opensand.Dama.Ctrl.{
  Ctrl, Logged, LogonRequest, PepRequest, change_terminal, admit, admit_if_dama, admit_somewhere,
  choose_category, here_is_logon, remove_terminal, dismiss, here_is_logoff, take_request,
  take_requests, here_is_sac, pep_cra, pep_rbdc_max, pep_rbdc, apply_pep_command,
}
use opensand.Dama.Ctrl.Counters.{Accounted, Own}
use opensand.Dama.Ctrl.History.{
  Message, logs_on, logs_off, asks, commands, left, handle, handle_all, Kept, handle-Kept,
}

module _ (K : Credits) where
  abbrev pub Low : ℕ → Logged K → Type 0
  Low id l = id < 31

  -- A call that returns, and leaves terminals with low ids.
  abbrev Bounded : Option (Ctrl K) → Type 0
  Bounded none = ⊥
  Bounded (some c) = Every Low c.terminals

  change_terminal-Low :
      (tal_id : ℕ) (f : Terminal K → Terminal K) (c : Ctrl K)
      → Every Low c.terminals
      → Every Low (change_terminal K tal_id f c).terminals
  unfolding change_terminal
  change_terminal-Low tal_id f c e =
      change-Every Low tal_id (λ l. record l { terminal = f l.terminal }) c.terminals (λ k l h. h) e

  admit_if_dama-Low :
      (cra_memory : ℕ) (logon : LogonRequest) (label : ℕ) (c : Ctrl K)
      → logon.mac < 31
      → Every Low c.terminals
      → Every Low (admit_if_dama K cra_memory logon label c).1.terminals
  unfolding admit_if_dama admit
  admit_if_dama-Low cra_memory logon label c low e = elim (Option-cases (find label c.categories)) [
    | inl n ↦ rw (admit_if_dama, n) e
    | inr (ids, n) ↦ rw (admit_if_dama, n) (insert-Every Low logon.mac _ c.terminals low e)
  ]

  here_is_logon-Low :
      (cra_memory : ℕ) (logon : LogonRequest) (c : Ctrl K)
      → logon.mac < 31
      → Every Low c.terminals
      → Every Low (here_is_logon K cra_memory logon c).1.terminals
  unfolding here_is_logon admit_somewhere
  here_is_logon-Low cra_memory logon c low e = elim (Option-cases (find logon.mac c.terminals)) [
    | inl n ↦
        elim (Option-cases
          (choose_category (find logon.mac c.terminal_affectation) c.default_category)) [
            | inl a ↦ rw (here_is_logon, n, admit_somewhere, a) e
            | inr (none, a) ↦ rw (here_is_logon, n, admit_somewhere, a) e
            | inr (some label, a) ↦
                rw (here_is_logon, n, admit_somewhere, a)
                  (admit_if_dama-Low cra_memory logon label c low e)
          ]
    | inr (l, n) ↦ rw (here_is_logon, n) e
  ]

  here_is_logoff-Low :
      (tal_id : ℕ) (c : Ctrl K)
      → Every Low c.terminals
      → Every Low (here_is_logoff K tal_id c).1.terminals
  unfolding here_is_logoff dismiss
  here_is_logoff-Low tal_id c e = elim (Option-cases (find tal_id c.terminals)) [
    | inl n ↦ rw (here_is_logoff, n) e
    | inr (l, n) ↦
        let gone = erase-Every Low l.terminal.tal_id c.terminals e in
        elim (Option-cases (find l.category c.categories)) [
          | inl a ↦ rw (here_is_logoff, n, dismiss, a) gone
          | inr (ids, a) ↦ elim (Option-cases (remove_terminal l.terminal.tal_id ids)) [
            | inl r ↦ rw (here_is_logoff, n, dismiss, a, r) gone
            | inr (ids', r) ↦ rw (here_is_logoff, n, dismiss, a, r) gone
          ]
        ]
  ]

  -- A request keeps the ids low and its terminal logged on.
  take_request-Low :
      (terminal : Terminal K) (tal_id : ℕ) (cr : CrInfo) (c : Ctrl K) (l : Logged K)
      → find tal_id c.terminals ≡ some l
      → Every Low c.terminals
      → Every Low (take_request K terminal tal_id cr c).terminals
        × ((l' : Logged K) × (find tal_id (take_request K terminal tal_id cr c).terminals
              ≡ some l'))
  unfolding take_request change_terminal
  take_request-Low terminal tal_id cr c l h e = by_access cr.access
    where
      by_access :
          (access : ReturnAccess)
          → Every Low (take_request K terminal tal_id record cr { access = access } c).terminals
            × ((l' : Logged K) × (find tal_id
                    (take_request K terminal tal_id record cr { access = access } c).terminals
                  ≡ some l'))
      by_access dama_vbdc = (
        change_terminal-Low tal_id (set_required_vbdc K (min cr.value terminal.max_vbdc_kb)) c e,
        (_, find-change_self tal_id _ l c.terminals h),
      )
      by_access dama_rbdc = (
        change_terminal-Low tal_id
            (set_required_rbdc K
              (min (cr.value - terminal.cra_request_kbps) terminal.max_rbdc_kbps))
            c e,
        (_, find-change_self tal_id _ l c.terminals h),
      )
      by_access dama_avbdc = (e, (l, h))
      by_access dama_cra = (e, (l, h))
      by_access saloha = (e, (l, h))

  take_requests-Bounded :
      (tal_id : ℕ) (crs : List CrInfo) (c : Ctrl K) (l : Logged K)
      → find tal_id c.terminals ≡ some l
      → Every Low c.terminals
      → Bounded (take_requests K tal_id crs c)
  unfolding take_requests
  take_requests-Bounded tal_id [] c l h e = e
  take_requests-Bounded tal_id (cr ∷ crs) c l h e =
      let (low, (l', found)) = take_request-Low l.terminal tal_id cr c l h e in
      rw (take_requests, h)
        (take_requests-Bounded tal_id crs (take_request K l.terminal tal_id cr c) l' found low)

  here_is_sac-Bounded :
      (is_gw : ℕ → Bool) (sac : Sac) (c : Ctrl K)
      → is_gw sac.tal_id ≡ false
      → get_requests sac ≢ none
      → Every Low c.terminals
      → Bounded (left K (here_is_sac K is_gw sac c))
  unfolding here_is_sac left
  here_is_sac-Bounded is_gw sac c gw readable e = elim (Option-cases (get_requests sac)) [
    | inl n ↦ absurd (readable n)
    | inr (requests, n) ↦ elim (Option-cases (find sac.tal_id c.terminals)) [
      | inl f ↦ rw (here_is_sac, n, f, gw) e
      | inr (l, f) ↦
          let low = take_requests-Bounded sac.tal_id requests c l f e in
          elim (Option-cases (take_requests K sac.tal_id requests c)) [
            | inl t ↦ absurd (subst Bounded t low)
            | inr (c', t) ↦ rw (here_is_sac, n, f, t) (subst Bounded t low)
          ]
    ]
  ]

  pep_cra-Low :
      (request : PepRequest) (c : Ctrl K)
      → Every Low c.terminals
      → Every Low (pep_cra K request c).terminals
  unfolding pep_cra
  pep_cra-Low request c e = elim (Bool-cases (request.cra == 0)) [
    | inl z ↦ rw z e
    | inr z ↦ rw z (change_terminal-Low request.st_id _ c e)
  ]

  pep_rbdc_max-Bounded :
      (request : PepRequest) (t : Terminal K) (c : Ctrl K)
      → t.tal_id < 31
      → Every Low c.terminals
      → Bounded (pep_rbdc_max K request t c)
  unfolding pep_rbdc_max
  pep_rbdc_max-Bounded request t c low e = elim (Bool-cases (request.rbdc_max == 0)) [
    | inl z ↦ rw z e
    | inr z ↦ rw (z, lt→ltb t.tal_id 31 low) (change_terminal-Low request.st_id _ c e)
  ]

  pep_rbdc-Low :
      (request : PepRequest) (c : Ctrl K)
      → Every Low c.terminals
      → Every Low (pep_rbdc K request c).terminals
  unfolding pep_rbdc
  pep_rbdc-Low request c e = elim (Bool-cases (request.rbdc == 0)) [
    | inl z ↦ rw z e
    | inr z ↦ rw z (change_terminal-Low request.st_id _ c e)
  ]

  apply_pep_command-Bounded :
      (request : PepRequest) (c : Ctrl K)
      → Every (Own K) c.terminals
      → Every Low c.terminals
      → Bounded (left K (apply_pep_command K request c))
  unfolding apply_pep_command left
  apply_pep_command-Bounded request c own e = elim (Option-cases (find request.st_id c.terminals)) [
    | inl f ↦ rw (apply_pep_command, f) e
    | inr (l, f) ↦
        let id : l.terminal.tal_id ≡ request.st_id =
          find-Every (Own K) request.st_id l c.terminals f own in
        let known : request.st_id < 31 = find-Every Low request.st_id l c.terminals f e in
        let low =
          pep_rbdc_max-Bounded request l.terminal (pep_cra K request c) (omega (arith, id, known))
            (pep_cra-Low request c e) in
        elim (Option-cases (pep_rbdc_max K request l.terminal (pep_cra K request c))) [
          | inl t ↦ absurd (subst Bounded t low)
          | inr (c', t) ↦
              rw (apply_pep_command, f, t) (pep_rbdc-Low request c' (subst Bounded t low))
        ]
  ]

  -- A message that the controller can answer whatever its state.
  abbrev pub Answerable : (ℕ → Bool) → Message → Type 0
  Answerable is_gw (logs_on cra_memory request) = request.mac < 31
  Answerable is_gw (logs_off tal_id) = Unit
  Answerable is_gw (asks sac) = (is_gw sac.tal_id ≡ false) × (get_requests sac ≢ none)
  Answerable is_gw (commands request) = Unit

  handle-Bounded :
      (is_gw : ℕ → Bool) (m : Message) (c : Ctrl K)
      → Answerable is_gw m
      → Every (Own K) c.terminals
      → Every Low c.terminals
      → Bounded (handle K is_gw m c)
  unfolding handle
  handle-Bounded is_gw (logs_on cra_memory request) c h own e =
      here_is_logon-Low cra_memory request c h e
  handle-Bounded is_gw (logs_off tal_id) c h own e = here_is_logoff-Low tal_id c e
  handle-Bounded is_gw (asks sac) c (gw, readable) own e =
      here_is_sac-Bounded is_gw sac c gw readable e
  handle-Bounded is_gw (commands request) c h own e = apply_pep_command-Bounded request c own e

  -- From a controller whose counters are right and whose terminals have ids below 31, every history of
  -- logons with such ids, of logoffs, of PEP commands and of SACs that can be read and are not from a
  -- gateway is handled to its end. The counters are right then, and the ids are below 31.
  pub handle_all-Served :
      (is_gw : ℕ → Bool) (ms : List Message) (c : Ctrl K)
      → All (Answerable is_gw) ms
      → Accounted K c
      → Every Low c.terminals
      → (c' : Ctrl K) × (handle_all K is_gw ms c ≡ some c')
        × Accounted K c'
        × Every Low c'.terminals
  unfolding handle_all
  handle_all-Served is_gw [] c h a e = (c, refl, a, e)
  handle_all-Served is_gw (m ∷ ms) c h a e =
      let kept = handle-Kept K is_gw m c a in
      let low = handle-Bounded is_gw m c h.0 a.own e in
      elim (Option-cases (handle K is_gw m c)) [
        | inl n ↦ absurd (subst Bounded n low)
        | inr (c1, n) ↦
            let (c', done, a', e') =
              handle_all-Served is_gw ms c1 h.1 (subst (Kept K) n kept) (subst Bounded n low) in
            (c', rw (handle_all, n) done, a', e')
      ]
