-- ===== src/Dama/Ctrl/Counters.antt =====
-- The controller's counts of terminals and of their maximal rates, over any history of messages.
use opensand.Prelude.{
  ℕ, ◌≡◌, refl, sym, ◌∙◌, ap, none, some, List, ◌==◌, u32, sub32, arith, Bool-cases, Option-cases,
  inl, inr,
}
use opensand.Maps.{find, change, erase, total, Unique}
use opensand.Maps.Laws.{
  total-insert, total-erase, total-change_same, insert-Unique, erase-Unique, change-Unique,
}
use opensand.Maps.Every.{Every, find-Every, insert-Every, erase-Every, change-Every}
use opensand.Fmt.{get_max_id}
use opensand.Dama.Terminal.{Credits, Terminal, new_terminal, set_required_fmt}
use opensand.Dama.Ctrl.{
  Ctrl, Logged, LogonRequest, change_terminal, create_terminal, admit, admit_if_dama,
  admit_somewhere, here_is_logon, dismiss, here_is_logoff, remove_terminal, choose_category,
}

module _ (K : Credits) where
  abbrev pub max_rbdc : Logged K → ℕ
  max_rbdc l = l.terminal.max_rbdc_kbps

  abbrev pub Own : ℕ → Logged K → Type 0
  Own id l = l.terminal.tal_id ≡ id

  -- Each terminal stands once, under its own id, and the counters are the number of the terminals and
  -- the sum of their maximal rates, as 32-bit words.
  pub record Accounted (c : Ctrl K) : Type 0 where
    pub unique : Unique c.terminals
    pub own : Every Own c.terminals
    pub st_num : c.gw_st_num ≡ u32 (total (λ _. 1) c.terminals)
    pub rbdc_max : c.gw_rbdc_max_kbps ≡ u32 (total max_rbdc c.terminals)

  create_terminal-fields :
      (cra_memory : ℕ) (logon : LogonRequest) (c : Ctrl K)
      → ((create_terminal K cra_memory logon c).tal_id ≡ logon.mac)
        × ((create_terminal K cra_memory logon c).max_rbdc_kbps ≡ logon.max_rbdc)
  unfolding create_terminal new_terminal set_required_fmt
  create_terminal-fields cra_memory logon c =
      elim (Bool-cases (get_max_id c.input_modcod_def == 0)) [
        | inl e ↦ rw e (refl, refl)
        | inr e ↦ rw e (refl, refl)
      ]

  -- A change that keeps a terminal's id and its maximal rate.
  pub change_terminal-Accounted :
      (tal_id : ℕ) (f : Terminal K → Terminal K) (c : Ctrl K)
      → ((t : Terminal K) → (f t).tal_id ≡ t.tal_id)
      → ((t : Terminal K) → (f t).max_rbdc_kbps ≡ t.max_rbdc_kbps)
      → Accounted c
      → Accounted (change_terminal K tal_id f c)
  unfolding change_terminal
  change_terminal-Accounted tal_id f c same_id same_max a =
      let g : Logged K → Logged K = λ l. record l { terminal = f l.terminal } in
      record {
        unique = change-Unique tal_id g c.terminals a.unique;
        own = change-Every Own tal_id g c.terminals (λ k l h. same_id l.terminal ∙ h) a.own;
        st_num =
            a.st_num ∙ ap u32 (sym (total-change_same (λ _. 1) g tal_id c.terminals (λ l. refl)));
        rbdc_max =
            a.rbdc_max
            ∙ ap u32
                (sym (total-change_same max_rbdc g tal_id c.terminals (λ l. same_max l.terminal)));
      }

  admit-Accounted :
      (cra_memory : ℕ) (logon : LogonRequest) (label : ℕ) (c : Ctrl K)
      → find logon.mac c.terminals ≡ none
      → Accounted c
      → Accounted (admit K cra_memory logon label c)
  unfolding admit
  admit-Accounted cra_memory logon label c h a =
      let l : Logged K = record {
        terminal = create_terminal K cra_memory logon c;
        category = label;
      } in
      let (id, most) = create_terminal-fields cra_memory logon c in
      let number = total-insert (λ _. 1) logon.mac l c.terminals h in
      let rates = total-insert max_rbdc logon.mac l c.terminals h in
      let st_num = a.st_num in
      let rbdc_max = a.rbdc_max in
      record {
        unique = insert-Unique logon.mac l c.terminals h a.unique;
        own = insert-Every Own logon.mac l c.terminals id a.own;
        st_num = omega (arith, number, st_num);
        rbdc_max = omega (arith, rates, rbdc_max, most);
      }

  dismissed-Accounted :
      (tal_id : ℕ) (l : Logged K) (c : Ctrl K) (categories : List (ℕ × List ℕ))
      → find tal_id c.terminals ≡ some l
      → Accounted c
      → Accounted record c {
        gw_st_num = sub32 c.gw_st_num 1;
        gw_rbdc_max_kbps = sub32 c.gw_rbdc_max_kbps l.terminal.max_rbdc_kbps;
        terminals = erase l.terminal.tal_id c.terminals;
        categories = categories;
      }
  dismissed-Accounted tal_id l c categories h a =
      let id : l.terminal.tal_id ≡ tal_id = find-Every Own tal_id l c.terminals h a.own in
      let found : find l.terminal.tal_id c.terminals ≡ some l =
        ap (λ i. find i c.terminals) id ∙ h in
      let number = total-erase (λ _. 1) l.terminal.tal_id l c.terminals found in
      let rates = total-erase max_rbdc l.terminal.tal_id l c.terminals found in
      let st_num = a.st_num in
      let rbdc_max = a.rbdc_max in
      record {
        unique = erase-Unique l.terminal.tal_id c.terminals a.unique;
        own = erase-Every Own l.terminal.tal_id c.terminals a.own;
        st_num = omega (arith, number, st_num);
        rbdc_max = omega (arith, rates, rbdc_max);
      }

  dismiss-Accounted :
      (tal_id : ℕ) (l : Logged K) (c : Ctrl K)
      → find tal_id c.terminals ≡ some l
      → Accounted c
      → Accounted (dismiss K l c).1
  unfolding dismiss
  dismiss-Accounted tal_id l c h a = elim (Option-cases (find l.category c.categories)) [
    | inl e ↦ rw (dismiss, e) (dismissed-Accounted tal_id l c c.categories h a)
    | inr (ids, there) ↦ elim (Option-cases (remove_terminal l.terminal.tal_id ids)) [
      | inl e ↦ rw (dismiss, there, e) (dismissed-Accounted tal_id l c c.categories h a)
      | inr (ids', e) ↦
          rw (dismiss, there, e)
            (dismissed-Accounted tal_id l c (change l.category (λ _. ids') c.categories) h a)
    ]
  ]

  pub here_is_logoff-Accounted :
      (tal_id : ℕ) (c : Ctrl K) → Accounted c → Accounted (here_is_logoff K tal_id c).1
  unfolding here_is_logoff
  here_is_logoff-Accounted tal_id c a = elim (Option-cases (find tal_id c.terminals)) [
    | inl e ↦ rw (here_is_logoff, e) a
    | inr (l, e) ↦ rw (here_is_logoff, e) (dismiss-Accounted tal_id l c e a)
  ]

  admit_if_dama-Accounted :
      (cra_memory : ℕ) (logon : LogonRequest) (label : ℕ) (c : Ctrl K)
      → find logon.mac c.terminals ≡ none
      → Accounted c
      → Accounted (admit_if_dama K cra_memory logon label c).1
  unfolding admit_if_dama
  admit_if_dama-Accounted cra_memory logon label c h a =
      elim (Option-cases (find label c.categories)) [
        | inl e ↦ rw (admit_if_dama, e) a
        | inr (ids, e) ↦ rw (admit_if_dama, e) (admit-Accounted cra_memory logon label c h a)
      ]

  admit_somewhere-Accounted :
      (cra_memory : ℕ) (logon : LogonRequest) (c : Ctrl K)
      → find logon.mac c.terminals ≡ none
      → Accounted c
      → Accounted (admit_somewhere K cra_memory logon c).1
  unfolding admit_somewhere
  admit_somewhere-Accounted cra_memory logon c h a =
      elim (Option-cases
        (choose_category (find logon.mac c.terminal_affectation) c.default_category)) [
          | inl e ↦ rw (admit_somewhere, e) a
          | inr (none, e) ↦ rw (admit_somewhere, e) a
          | inr (some label, e) ↦
              rw (admit_somewhere, e) (admit_if_dama-Accounted cra_memory logon label c h a)
        ]

  pub here_is_logon-Accounted :
      (cra_memory : ℕ) (logon : LogonRequest) (c : Ctrl K)
      → Accounted c
      → Accounted (here_is_logon K cra_memory logon c).1
  unfolding here_is_logon
  here_is_logon-Accounted cra_memory logon c a = elim (Option-cases (find logon.mac c.terminals)) [
    | inl e ↦ rw (here_is_logon, e) (admit_somewhere-Accounted cra_memory logon c e a)
    | inr (l, e) ↦ rw (here_is_logon, e) a
  ]
