-- ===== src/Dama/Ctrl/Delivery.antt =====
-- From the controller's message to the terminal: each terminal that is logged on may send what the
-- controller grants it.
use opensand.Prelude.{
  ℕ, ◌<◌, ◌≡◌, refl, sym, ◌∙◌, ap, Option, none, some, List, [], ◌∷◌, ◌==◌, if◌then◌else◌, arith,
  Bool-cases, Option-cases, ◌⊎◌, inl, inr,
}
use opensand.Maps.{find}
use opensand.Maps.Every.{Every, find-Every}
use opensand.Dama.Terminal.{Credits, Terminal, fmt_id}
use opensand.Dama.Ttp.{Ttp}
use opensand.Dama.Ttp.Single.{Plan, last_plan}
use opensand.Dama.Agent.{Agent}
use opensand.Dama.Ctrl.{Ctrl, Logged}
use opensand.Dama.Ctrl.Counters.{Own}
use opensand.Dama.Ctrl.Plans.{plan_of, plans_of}

-- The id of a terminal and that of its format are words of the widths that the message has for them.
abbrev pub Worded : (K : Credits) → ℕ → Logged K → Type 0
Worded K id m = (m.terminal.tal_id < 65536) × (fmt_id K m.terminal < 256)

module _ (K : Credits) (ps_to_pf : ℕ → ℕ) where
  module _ (terminals : List (ℕ × Logged K)) (own : Every (Own K) terminals) (tal : ℕ)
      (l : Logged K) (known : find tal terminals ≡ some l) where
    abbrev mine : Option Plan
    mine = some (plan_of K ps_to_pf l.terminal)

    -- One more terminal: its plan replaces the one found only if it is this terminal's.
    pick :
        (id : ℕ) (m : Logged K) (found : Option Plan)
        → find id terminals ≡ some m
        → ((found ≡ mine) ⊎ (id ≡ tal))
        → (if (plan_of K ps_to_pf m.terminal).tal_id == tal
            then some (plan_of K ps_to_pf m.terminal)
            else found)
          ≡ mine
    unfolding plan_of
    pick id m found e h =
        let theirs : m.terminal.tal_id ≡ id = find-Every (Own K) id m terminals e own in
        elim (Bool-cases (m.terminal.tal_id == tal)) [
          | inl same ↦
              let id_eq : id ≡ tal = ground arith in
              let both : some m ≡ some l = sym e ∙ ap (λ i. find i terminals) id_eq ∙ known in
              rw same (
                ap
                  (λ o. elim o as (λ _. Option Plan) [
                    | none ↦ none
                    | some x ↦ some (plan_of K ps_to_pf x.terminal)
                  ])
                  both)
          | inr other ↦ elim h [ inl f ↦ rw other f | inr id_eq ↦ absurd (ground arith) ]
        ]

    keep : (ids : List ℕ) → last_plan tal mine (plans_of K ps_to_pf terminals ids) ≡ mine
    unfolding plans_of last_plan
    keep [] = refl
    keep (id ∷ ids) = elim (Option-cases (find id terminals)) [
      | inl e ↦ rw (plans_of, e) (keep ids)
      | inr (m, e) ↦
          rw (plans_of, e)
            (ap (λ f. last_plan tal f (plans_of K ps_to_pf terminals ids))
                (pick id m mine e (inl refl))
              ∙ keep ids)
    ]
