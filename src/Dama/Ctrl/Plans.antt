-- ===== src/Dama/Ctrl/Plans.antt =====
-- `DamaCtrlRcs2::buildTTP`: the plan of every terminal, category by category.
use opensand.Prelude.{
  ℕ, ◌≤◌, ◌≡◌, refl, sym, ◌∙◌, ap, Bool, true, Option, none, some, List, [], ◌∷◌, ◌++◌, ◌==◌,
  ==_refl, if◌then◌else◌, add16, arith,
}
use opensand.Maps.{find, total}
use opensand.Dama.Terminal.{Credits, Terminal, fmt_id, total_rate_allocation}
use opensand.Dama.Ttp.{Ttp, add_time_plan, build}
use opensand.Dama.Ttp.Single.{Plan, add_plans}
use opensand.Dama.Ctrl.{Ctrl, Logged}
use opensand.Dama.Ctrl.Members.{count}

-- `ps_to_pf` is the unit converter's `psToPf`: from a rate to a volume in a superframe.
module _ (K : Credits) (ps_to_pf : ℕ → ℕ) where
  -- What a terminal is granted, in kbits: nothing where it has no format.
  unfoldable pub total_allocation_kb : Terminal K → ℕ
  unfolding fmt_id total_rate_allocation
  total_allocation_kb t =
      if fmt_id K t == 0
      then 0
      else add16 (add16 0 t.vbdc_alloc_kb) (ps_to_pf (total_rate_allocation K t))

  unfoldable pub plan_terminal : Terminal K → Ttp → Ttp
  unfolding total_allocation_kb fmt_id add_time_plan
  plan_terminal t ttp = (add_time_plan 0 t.tal_id 0 (total_allocation_kb t) (fmt_id K t) 0 ttp).1

  -- The loop over the terminals of a category. `none` is a pointer to a terminal that is gone.
  unfoldable pub plan_members : List (ℕ × Logged K) → List ℕ → Ttp → Option Ttp
  unfolding plan_terminal
  plan_members terminals [] ttp = some ttp
  plan_members terminals (id ∷ ids) ttp = elim (find id terminals) [
    | none ↦ none
    | some l ↦ plan_members terminals ids (plan_terminal l.terminal ttp)
  ]

  unfoldable pub plan_categories : List (ℕ × Logged K) → List (ℕ × List ℕ) → Ttp → Option Ttp
  unfolding plan_members
  plan_categories terminals [] ttp = some ttp
  plan_categories terminals ((label, ids) ∷ categories) ttp =
      elim (plan_members terminals ids ttp) [
        | none ↦ none
        | some ttp' ↦ plan_categories terminals categories ttp'
      ]

  unfoldable pub build_ttp : ℕ → Ctrl K → Ttp → Option (Bool × Ttp)
  unfolding plan_categories build
  build_ttp garbage c ttp = elim (plan_categories c.terminals c.categories ttp) [
    | none ↦ none
    | some ttp' ↦ some (true, (build garbage ttp').1)
  ]

  -- The plan of a terminal.
  unfoldable pub plan_of : Terminal K → Plan
  plan_of t = record {
    tal_id = t.tal_id;
    offset = 0;
    assignment_count = total_allocation_kb t;
    fmt_id = fmt_id K t;
    priority = 0;
  }

  unfoldable pub plans_of : List (ℕ × Logged K) → List ℕ → List Plan
  unfolding plan_of
  plans_of terminals [] = []
  plans_of terminals (id ∷ ids) = elim (find id terminals) [
    | none ↦ plans_of terminals ids
    | some l ↦ plan_of l.terminal ∷ plans_of terminals ids
  ]

  unfoldable pub all_plans : List (ℕ × Logged K) → List (ℕ × List ℕ) → List Plan
  unfolding plans_of
  all_plans terminals [] = []
  all_plans terminals ((label, ids) ∷ categories) =
      plans_of terminals ids ++ all_plans terminals categories

  -- Every id of a list, and of the categories, is that of a terminal.
  unfoldable pub Known : List (ℕ × Logged K) → (ℕ → ℕ) → Type 0
  Known terminals occurs = (id : ℕ) → 1 ≤ occurs id → (l : Logged K) × (find id terminals ≡ some l)

  plan_members-plans :
      (terminals : List (ℕ × Logged K)) (ids : List ℕ) (ttp : Ttp)
      → Known terminals (λ id. count id ids)
      → plan_members terminals ids ttp ≡ some (add_plans 0 (plans_of terminals ids) ttp)
  unfolding plan_members plans_of plan_terminal add_plans Known count plan_of
  plan_members-plans terminals [] ttp k = refl
  plan_members-plans terminals (id ∷ ids) ttp k =
      let (l, e) = k id (rw (==_refl id) (omega arith)) in
      rw (plan_members, plans_of, e)
        (plan_members-plans terminals ids (plan_terminal l.terminal ttp)
          (λ x h. k x (omega (arith, h))))

  add_plans-append :
      (ps qs : List Plan) (ttp : Ttp)
      → add_plans 0 (ps ++ qs) ttp ≡ add_plans 0 qs (add_plans 0 ps ttp)
  unfolding add_plans
  add_plans-append [] qs ttp = refl
  add_plans-append (p ∷ ps) qs ttp =
      add_plans-append ps qs
        (add_time_plan 0 p.tal_id p.offset p.assignment_count p.fmt_id p.priority ttp).1

  pub plan_categories-plans :
      (terminals : List (ℕ × Logged K)) (categories : List (ℕ × List ℕ)) (ttp : Ttp)
      → Known terminals (λ id. total (count id) categories)
      → plan_categories terminals categories ttp
        ≡ some (add_plans 0 (all_plans terminals categories) ttp)
  unfolding plan_categories all_plans Known total add_plans
  plan_categories-plans terminals [] ttp k = refl
  plan_categories-plans terminals ((label, ids) ∷ categories) ttp k =
      let own = plan_members-plans terminals ids ttp (λ id h. k id (omega (arith, h))) in
      let rest =
        plan_categories-plans terminals categories (add_plans 0 (plans_of terminals ids) ttp)
          (λ id h. k id (omega (arith, h))) in
      rw (plan_categories, own)
        (rest
          ∙ ap some (
              sym (add_plans-append (plans_of terminals ids) (all_plans terminals categories) ttp)))
