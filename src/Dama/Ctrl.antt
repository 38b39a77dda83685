-- ===== src/Dama/Ctrl.antt =====
-- opensand-core/src/dvb/dama/DamaCtrl.cpp and DamaCtrlRcs2.cpp, with the terminals of
-- opensand-core/src/dvb/utils/TerminalCategory.h: the controller that logs terminals on and off, takes
-- in their requests, runs the allocation of each superframe and tells each terminal what it may send.
--
-- A label is a number that names it. A terminal is one object that the map of terminals and its
-- category share: it stands in the map, and the category holds its id. `int` counters are 32-bit
-- words. `none` stands for a null pointer that is read. Probes are left out, but for the null pointer
-- of a probe that is not registered; so are the event file and logging.
pub mod Counters
pub mod History
pub mod Members
pub mod Leaving
pub mod Served
pub mod Demands
pub mod Plans
pub mod Delivery
pub mod Superframe
mod Tests
use opensand.Prelude.{
  ℕ, ◌+◌, ◌-◌, Bool, true, false, ◌||◌, not, Option, none, some, List, [], ◌∷◌, ◌++◌, map, ltb,
  ◌==◌, if◌then◌else◌, u16, add16, add32, sub32, min,
}
use opensand.Access.{ReturnAccess, dama_rbdc, dama_vbdc}
use opensand.Maps.{find, insert, erase, change}
use opensand.Fmt.{get_definition, get_max_id}
use opensand.Dama.Terminal.{
  Credits, Fmt, Terminal, new_terminal, set_required_fmt, set_required_vbdc, set_required_rbdc,
  set_required_cra, set_max_rbdc, update_rbdc_timeout, set_cra_allocation, set_rbdc_allocation,
  set_vbdc_allocation, set_fca_allocation, set_rbdc_credit, decrement_timer, fmt_id,
  total_rate_allocation,
}
use opensand.Dama.Sac.{Sac, CrInfo, get_requests}
use opensand.Dama.Ttp.{Ttp, add_time_plan, build}

-- `BROADCAST_TAL_ID`
abbrev pub broadcast_tal_id : ℕ
broadcast_tal_id = 31

-- `LogonRequest` and `PepRequest`, as far as the controller reads them.
pub record LogonRequest : Type 0 where
  pub mac : ℕ
  pub rt_bandwidth : ℕ
  pub max_rbdc : ℕ
  pub max_vbdc : ℕ

pub record PepRequest : Type 0 where
  pub st_id : ℕ
  pub cra : ℕ
  pub rbdc : ℕ
  pub rbdc_max : ℕ

-- The first terminal with an id is taken off a category. `none` is the failure of `removeTerminal`.
unfoldable pub remove_terminal : ℕ → List ℕ → Option (List ℕ)
remove_terminal tal_id [] = none
remove_terminal tal_id (id ∷ ids) =
    let later = remove_terminal tal_id ids in
    if id == tal_id then some ids else elim later [ none ↦ none | some ids' ↦ some (id ∷ ids') ]

-- The category of a new terminal, from its affectation and the default: `none` is the refusal, and
-- `some none` a terminal that does not use DAMA.
unfoldable pub choose_category : Option (Option ℕ) → Option ℕ → Option (Option ℕ)
choose_category none none = none
choose_category none (some label) = some (some label)
choose_category (some affected) default = some affected

module _ (K : Credits) where
  -- A terminal with the label of its category.
  pub record Logged : Type 0 where
    pub terminal : Terminal K
    pub category : ℕ

  -- `terminal_affectation` gives a label, or the null pointer; `categories` are those that use DAMA.
  pub record Ctrl : Type 0 where
    pub terminals : List (ℕ × Logged)
    pub categories : List (ℕ × List ℕ)
    pub terminal_affectation : List (ℕ × Option ℕ)
    pub default_category : Option ℕ
    pub input_modcod_def : List (ℕ × Fmt)
    pub rbdc_timeout_sf : ℕ
    pub enable_rbdc : Bool
    pub enable_vbdc : Bool
    pub current_superframe_sf : ℕ
    pub gw_st_num : ℕ
    pub gw_rbdc_max_kbps : ℕ

  -- A change of a terminal, through its pointer.
  unfoldable pub change_terminal : ℕ → (Terminal K → Terminal K) → Ctrl → Ctrl
  change_terminal tal_id f c = record c {
    terminals = change tal_id (λ l. record l { terminal = f l.terminal }) c.terminals;
  }

  -- `createTerminal`. `cra_memory` is what the memory of a field that is not set holds.
  unfoldable pub create_terminal : ℕ → LogonRequest → Ctrl → Terminal K
  create_terminal cra_memory logon c =
      let terminal =
        new_terminal K cra_memory logon.mac logon.rt_bandwidth logon.max_rbdc c.rbdc_timeout_sf
          logon.max_vbdc in
      let fmt_id = get_max_id c.input_modcod_def in
      if fmt_id == 0
      then terminal
      else set_required_fmt K (get_definition fmt_id c.input_modcod_def) terminal

  -- The end of `hereIsLogon`, for a category that uses DAMA.
  unfoldable pub admit : ℕ → LogonRequest → ℕ → Ctrl → Ctrl
  unfolding create_terminal
  admit cra_memory logon label c =
      let logged : Logged = record {
        terminal = create_terminal cra_memory logon c;
        category = label;
      } in
      record c {
        terminals = insert logon.mac logged c.terminals;
        categories = change label (λ ids. ids ++ logon.mac ∷ []) c.categories;
        gw_st_num = add32 c.gw_st_num 1;
        gw_rbdc_max_kbps = add32 c.gw_rbdc_max_kbps logon.max_rbdc;
      }

  unfoldable pub admit_if_dama : ℕ → LogonRequest → ℕ → Ctrl → Bool × Ctrl
  unfolding admit
  admit_if_dama cra_memory logon label c = elim (find label c.categories) [
    | none ↦ (true, c)
    | some ids ↦ (true, admit cra_memory logon label c)
  ]

  -- `hereIsLogon`, for a terminal that is not logged on.
  unfoldable pub admit_somewhere : ℕ → LogonRequest → Ctrl → Bool × Ctrl
  unfolding admit_if_dama choose_category
  admit_somewhere cra_memory logon c =
      elim (choose_category (find logon.mac c.terminal_affectation) c.default_category) [
        | none ↦ (false, c)
        | some none ↦ (true, c)
        | some (some label) ↦ admit_if_dama cra_memory logon label c
      ]

  -- `hereIsLogon`. A duplicate logon changes nothing. The last check, of the constant rate against the
  -- carriers, only logs and is left out: it reads the last format of each group of carriers, which is
  -- taken to be there.
  unfoldable pub here_is_logon : ℕ → LogonRequest → Ctrl → Bool × Ctrl
  unfolding admit_somewhere
  here_is_logon cra_memory logon c = elim (find logon.mac c.terminals) [
    | none ↦ admit_somewhere cra_memory logon c
    | some logged ↦ (true, c)
  ]

  -- `hereIsLogoff`, for a terminal that is found.
  unfoldable pub dismiss : Logged → Ctrl → Bool × Ctrl
  unfolding remove_terminal
  dismiss logged c =
      let c' = record c {
        gw_st_num = sub32 c.gw_st_num 1;
        gw_rbdc_max_kbps = sub32 c.gw_rbdc_max_kbps logged.terminal.max_rbdc_kbps;
        terminals = erase logged.terminal.tal_id c.terminals;
      } in
      elim (find logged.category c.categories) [
        | none ↦ (true, c')
        | some ids ↦ elim (remove_terminal logged.terminal.tal_id ids) [
          | none ↦ (false, c')
          | some ids' ↦
              (true, record c' { categories = change logged.category (λ _. ids') c.categories })
        ]
      ]

  unfoldable pub here_is_logoff : ℕ → Ctrl → Bool × Ctrl
  unfolding dismiss
  here_is_logoff tal_id c = elim (find tal_id c.terminals) [
    | none ↦ (false, c)
    | some logged ↦ dismiss logged c
  ]

  -- One request of `hereIsSAC`. The difference with the CRA is of `int`s, and not below 0.
  unfoldable pub take_request : Terminal K → ℕ → CrInfo → Ctrl → Ctrl
  unfolding change_terminal
  take_request terminal tal_id cr c = elim cr.access [
    | dama_vbdc ↦
        let request_kb = min cr.value terminal.max_vbdc_kb in
        record (change_terminal tal_id (set_required_vbdc K request_kb) c) { enable_vbdc = true }
    | dama_rbdc ↦
        let request_kbps = min (cr.value - terminal.cra_request_kbps) terminal.max_rbdc_kbps in
        record (change_terminal tal_id (set_required_rbdc K request_kbps) c) { enable_rbdc = true }
    | _ ↦ c
  ]

  -- The loop of `hereIsSAC`. A request from the gateway itself reads through the null pointer.
  unfoldable pub take_requests : ℕ → List CrInfo → Ctrl → Option Ctrl
  unfolding take_request
  take_requests tal_id [] c = some c
  take_requests tal_id (cr ∷ crs) c = elim (find tal_id c.terminals) [
    | none ↦ elim cr.access [ dama_vbdc ↦ none | dama_rbdc ↦ none | _ ↦ take_requests tal_id crs c ]
    | some logged ↦ take_requests tal_id crs (take_request logged.terminal tal_id cr c)
  ]

  -- `hereIsSAC`. `is_gw` is the configuration's `isGw`.
  unfoldable pub here_is_sac : (ℕ → Bool) → Sac → Ctrl → Option (Bool × Ctrl)
  unfolding take_requests
  here_is_sac is_gw sac c =
      let known : Bool = elim (find sac.tal_id c.terminals) [
        | none ↦ is_gw sac.tal_id
        | some logged ↦ true
      ] in
      elim (get_requests sac) [
        | none ↦ none
        | some requests ↦
            if known
            then elim (take_requests sac.tal_id requests c) [
              | none ↦ none
              | some c' ↦ some (true, c')
            ]
            else some (false, c)
      ]

  -- The steps of `applyPepCommand`: a rate of 0 is no request.
  unfoldable pub pep_cra : PepRequest → Ctrl → Ctrl
  unfolding change_terminal
  pep_cra request c =
      if request.cra == 0
      then c
      else change_terminal request.st_id (set_required_cra K request.cra) c

  -- The probe of the terminal's maximum is registered for the ids below `BROADCAST_TAL_ID` alone.
  unfoldable pub pep_rbdc_max : PepRequest → Terminal K → Ctrl → Option Ctrl
  unfolding change_terminal
  pep_rbdc_max request terminal c =
      if request.rbdc_max == 0
      then some c
      else if ltb terminal.tal_id broadcast_tal_id
      then some record (change_terminal request.st_id (set_max_rbdc K request.rbdc_max) c) {
        gw_rbdc_max_kbps = add32 (sub32 c.gw_rbdc_max_kbps terminal.max_rbdc_kbps) request.rbdc_max;
      }
      else none

  -- The timeout is raised to 100 for the request, and then set to the controller's.
  unfoldable pub pep_rbdc : PepRequest → Ctrl → Ctrl
  unfolding change_terminal
  pep_rbdc request c =
      if request.rbdc == 0
      then c
      else change_terminal request.st_id
          (λ t.
            update_rbdc_timeout K c.rbdc_timeout_sf
              (set_required_rbdc K request.rbdc (update_rbdc_timeout K 100 t)))
          c

  unfoldable pub apply_pep_command : PepRequest → Ctrl → Option (Bool × Ctrl)
  unfolding pep_cra pep_rbdc_max pep_rbdc
  apply_pep_command request c = elim (find request.st_id c.terminals) [
    | none ↦ some (false, c)
    | some logged ↦ elim (pep_rbdc_max request logged.terminal (pep_cra request c)) [
      | none ↦ none
      | some c' ↦ some (true, pep_rbdc request c')
    ]
  ]
