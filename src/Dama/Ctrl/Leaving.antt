-- ===== src/Dama/Ctrl/Leaving.antt =====
-- A logoff takes the terminal off the map and off its category.
use opensand.Prelude.{
  ℕ, ◌+◌, ◌≡◌, refl, sym, ◌∙◌, ap, subst, Bool, true, false, Option, none, some, List, ◌==◌,
  ==_refl, if◌then◌else◌, arith, Bool-cases, Option-cases, inl, inr,
}
use opensand.Maps.{find, change, erase, total}
use opensand.Maps.Laws.{find-change_self, find-change_other, find-erase, total-change}
use opensand.Maps.Every.{find-Every}
use opensand.Dama.Terminal.{Credits}
use opensand.Dama.Ctrl.{Ctrl, Logged, dismiss, here_is_logoff}
use opensand.Dama.Ctrl.Counters.{Accounted, Own}
use opensand.Dama.Ctrl.Members.{count, present, Registered, remove_terminal-count}

module _ (K : Credits) where
  module _ (tal label : ℕ) (ids ids' : List ℕ) (c : Ctrl K) (a : Accounted K c) (r : Registered K c)
      (there : find label c.categories ≡ some ids)
      (counts : (id : ℕ) → count id ids' + (if tal == id then 1 else 0) ≡ count id ids) where
    shrink : List ℕ → List ℕ
    shrink _ = ids'

    pick : ℕ → Bool → Option (Logged K)
    pick id b = if b then none else find id c.terminals

    shrunk :
        (id : ℕ) (b : Bool) → (tal == id) ≡ b → count id ids' + (if b then 1 else 0) ≡ count id ids
    shrunk id b e = ap (λ b. count id ids' + (if b then 1 else 0)) (sym e) ∙ counts id

    left-once :
        (l : Logged K)
        → find tal c.terminals ≡ some l
        → (id : ℕ)
        → total (count id) (change label shrink c.categories)
          ≡ present K (find id (erase tal c.terminals))
    unfolding shrink pick
    left-once l known id =
        let sum = total-change (count id) shrink label ids c.categories there in
        let old = r.once id in
        let got = find-erase tal id c.terminals a.unique in
        elim (Bool-cases (tal == id)) [
          | inl e ↦
              let same : tal ≡ id = ground arith in
              let one : total (count id) c.categories ≡ 1 =
                old ∙ ap (λ i. present K (find i c.terminals)) (sym same) ∙ ap (present K) known in
              let less = shrunk id true e in
              let now : total (count id) (change label shrink c.categories) ≡ 0 =
                omega (arith, sum, one, less) in
              now ∙ ap (present K) (sym (got ∙ ap (pick id) e))
          | inr e ↦
              let less = shrunk id false e in
              let now : total (count id) (change label shrink c.categories)
                  ≡ total (count id) c.categories =
                omega (arith, sum, less) in
              now ∙ old ∙ ap (present K) (sym (got ∙ ap (pick id) e))
        ]

    left-home :
        (id : ℕ) (m : Logged K)
        → find id (erase tal c.terminals) ≡ some m
        → (ids : List ℕ) × (find m.category (change label shrink c.categories) ≡ some ids)
          × (count id ids ≡ 1)
    unfolding shrink pick
    left-home id m found =
        let got = sym (find-erase tal id c.terminals a.unique) ∙ found in
        elim (Bool-cases (tal == id)) [
          | inl e ↦ let gone : none ≡ some m = sym (ap (pick id) e) ∙ got in absurd cc
          | inr e ↦
              let was : find id c.terminals ≡ some m = sym (ap (pick id) e) ∙ got in
              let (ids1, at, once) = r.home id m was in
              elim (Bool-cases (label == m.category)) [
                | inl k ↦
                    let here : label ≡ m.category = ground arith in
                    let both : some ids ≡ some ids1 =
                      sym there ∙ ap (λ k. find k c.categories) here ∙ at in
                    let ids_eq : ids ≡ ids1 = cc in
                    let less = shrunk id false e in
                    let once' : count id ids ≡ 1 = ap (count id) ids_eq ∙ once in
                    let self = find-change_self label shrink ids c.categories there in
                    (
                      ids',
                      subst (λ k. find k (change label shrink c.categories) ≡ some ids') here self,
                      omega (arith, less, once'),
                    )
                | inr k ↦
                    (ids1, find-change_other label m.category shrink c.categories k ∙ at, once)
              ]
        ]

  dismiss-Registered :
      (tal_id : ℕ) (l : Logged K) (c : Ctrl K)
      → Accounted K c
      → Registered K c
      → find tal_id c.terminals ≡ some l
      → Registered K (dismiss K l c).1
        × ((dismiss K l c).0 ≡ true)
        × (find tal_id (dismiss K l c).1.terminals ≡ none)
  unfolding dismiss
  dismiss-Registered tal_id l c a r e =
      let tal = l.terminal.tal_id in
      let id : tal ≡ tal_id = find-Every (Own K) tal_id l c.terminals e a.own in
      let known : find tal c.terminals ≡ some l = ap (λ i. find i c.terminals) id ∙ e in
      let (ids, there, once) = r.home tal l known in
      let (ids', removed, counts) = remove_terminal-count tal ids (omega (arith, once)) in
      let gone : find tal_id (erase tal c.terminals) ≡ none =
        ap (λ i. find i (erase tal c.terminals)) (sym id)
        ∙ find-erase tal tal c.terminals a.unique
        ∙ ap (λ b. if b then none else find tal c.terminals) (==_refl tal) in
      rw (dismiss, there, removed)
        (
          record {
            once = unfold shrink in left-once tal l.category ids ids' c a r there counts l known;
            home = unfold shrink in left-home tal l.category ids ids' c a r there counts;
          },
          refl,
          gone,
        )

  -- A logoff returns true just where the terminal is logged on: the category then always holds it. The
  -- categories and the map of terminals agree afterwards, and the terminal is in neither.
  pub here_is_logoff-Registered :
      (tal_id : ℕ) (c : Ctrl K)
      → Accounted K c
      → Registered K c
      → Registered K (here_is_logoff K tal_id c).1
        × ((here_is_logoff K tal_id c).0
            ≡ elim (find tal_id c.terminals) [ none ↦ false | some l ↦ true ])
        × (find tal_id (here_is_logoff K tal_id c).1.terminals ≡ none)
  unfolding here_is_logoff
  here_is_logoff-Registered tal_id c a r = elim (Option-cases (find tal_id c.terminals)) [
    | inl e ↦ rw (here_is_logoff, e) (r, refl, e)
    | inr (l, e) ↦ rw (here_is_logoff, e) (dismiss-Registered tal_id l c a r e)
  ]
