-- ===== src/Dama/Ctrl/Members.antt =====
-- The categories and the map of terminals agree: each terminal that is logged on stands in its own
-- category, once, and nobody else stands in any.
use opensand.Prelude.{
  ℕ, ◌+◌, ◌≤◌, ◌≡◌, refl, sym, ◌∙◌, ap, subst, Bool, true, false, Option, none, some, List, [], ◌∷◌,
  ◌++◌, ◌==◌, if◌then◌else◌, arith, Bool-cases, Option-cases, inl, inr,
}
use opensand.Maps.{find, change, insert, total}
use opensand.Maps.Laws.{find-insert, find-change_self, find-change_other, total-erase, total-change}
use opensand.Dama.Terminal.{Credits}
use opensand.Dama.Ctrl.{
  Ctrl, Logged, LogonRequest, create_terminal, admit, admit_if_dama, admit_somewhere,
  choose_category, here_is_logon, remove_terminal,
}

unfoldable pub count : ℕ → List ℕ → ℕ
count id [] = 0
count id (x ∷ xs) = (if x == id then 1 else 0) + count id xs

count-snoc :
    (id x : ℕ) (xs : List ℕ) → count id (xs ++ x ∷ []) ≡ count id xs + (if x == id then 1 else 0)
unfolding count
count-snoc id x [] = omega arith
count-snoc id x (y ∷ ys) = let ih = count-snoc id x ys in omega (arith, ih)

-- A terminal that stands in a category is taken off it, once.
pub remove_terminal-count :
    (tal_id : ℕ) (ids : List ℕ)
    → 1 ≤ count tal_id ids
    → (ids' : List ℕ) × (remove_terminal tal_id ids ≡ some ids')
      × ((id : ℕ) → count id ids' + (if tal_id == id then 1 else 0) ≡ count id ids)
unfolding count remove_terminal
remove_terminal-count tal_id [] h = absurd (omega arith)
remove_terminal-count tal_id (x ∷ xs) h = elim (Bool-cases (x == tal_id)) [
  | inl e ↦ rw e (xs, refl, λ id. ground arith)
  | inr e ↦
      let later : 1 ≤ count tal_id xs = ground arith in
      let (xs', removed, counts) = remove_terminal-count tal_id xs later in
      rw (e, removed) (x ∷ xs', refl, λ id. let c = counts id in omega (arith, c))
]

-- What is found in a map is part of its sum.
find-total :
    {V : Type 0} (f : V → ℕ) (key : ℕ) (v : V) (m : List (ℕ × V))
    → find key m ≡ some v
    → f v ≤ total f m
find-total f key v m h = let sum = total-erase f key v m h in omega (arith, sum)

module _ (K : Credits) where
  abbrev pub present : Option (Logged K) → ℕ
  present none = 0
  present (some l) = 1

  pub record Registered (c : Ctrl K) : Type 0 where
    pub once : (id : ℕ) → total (count id) c.categories ≡ present (find id c.terminals)
    pub home :
        (id : ℕ) (l : Logged K)
        → find id c.terminals ≡ some l
        → (ids : List ℕ) × (find l.category c.categories ≡ some ids) × (count id ids ≡ 1)

  module _ (mac label : ℕ) (l : Logged K) (ids : List ℕ) (c : Ctrl K)
      (new : find mac c.terminals ≡ none) (there : find label c.categories ≡ some ids)
      (r : Registered c) where
    grow : List ℕ → List ℕ
    grow ids = ids ++ mac ∷ []

    pick : ℕ → Bool → Option (Logged K)
    pick id b = if b then some l else find id c.terminals

    apart : count mac ids ≡ 0
    apart =
        let old : total (count mac) c.categories ≡ 0 = r.once mac ∙ ap present new in
        let part = find-total (count mac) label ids c.categories there in omega (arith, old, part)

    grown :
        (id : ℕ) (b : Bool)
        → (mac == id) ≡ b
        → count id (grow ids) ≡ count id ids + (if b then 1 else 0)
    unfolding grow
    grown id b e = count-snoc id mac ids ∙ ap (λ b. count id ids + (if b then 1 else 0)) e

    admit-once :
        (id : ℕ)
        → total (count id) (change label grow c.categories)
          ≡ present (find id (insert mac l c.terminals))
    unfolding pick
    admit-once id =
        let sum = total-change (count id) grow label ids c.categories there in
        let old = r.once id in
        let got = find-insert mac id l c.terminals new in
        elim (Bool-cases (mac == id)) [
          | inl e ↦
              let same : mac ≡ id = ground arith in
              let gone : total (count id) c.categories ≡ 0 =
                old ∙ ap (λ i. present (find i c.terminals)) (sym same) ∙ ap present new in
              let more = grown id true e in
              let now : total (count id) (change label grow c.categories) ≡ 1 =
                omega (arith, sum, gone, more) in
              now ∙ ap present (sym (got ∙ ap (pick id) e))
          | inr e ↦
              let more = grown id false e in
              let now : total (count id) (change label grow c.categories)
                  ≡ total (count id) c.categories =
                omega (arith, sum, more) in
              now ∙ old ∙ ap present (sym (got ∙ ap (pick id) e))
        ]

    abbrev Home : ℕ → Logged K → Type 0
    Home id m =
        (ids : List ℕ) × (find m.category (change label grow c.categories) ≡ some ids)
        × (count id ids ≡ 1)

    admit-Home :
        l.category ≡ label
        → (id : ℕ) (m : Logged K) → find id (insert mac l c.terminals) ≡ some m
        → Home id m
    unfolding pick
    admit-Home own id m found =
        let got = sym (find-insert mac id l c.terminals new) ∙ found in
        let self = find-change_self label grow ids c.categories there in
        elim (Bool-cases (mac == id)) [
          | inl e ↦
              let same : mac ≡ id = ground arith in
              let mine : some l ≡ some m = sym (ap (pick id) e) ∙ got in
              let here : label ≡ m.category =
                sym own
                ∙ ap (λ o. elim o as (λ _. ℕ) [ none ↦ label | some x ↦ x.category ]) mine in
              let more = grown id true e in
              let none_yet : count id ids ≡ 0 = ap (λ i. count i ids) (sym same) ∙ apart in
              (
                grow ids,
                subst (λ k. find k (change label grow c.categories) ≡ some (grow ids)) here self,
                omega (arith, more, none_yet),
              )
          | inr e ↦
              let was : find id c.terminals ≡ some m = sym (ap (pick id) e) ∙ got in
              let (ids1, at, once) = r.home id m was in
              elim (Bool-cases (label == m.category)) [
                | inl k ↦
                    let here : label ≡ m.category = ground arith in
                    let both : some ids ≡ some ids1 =
                      sym there ∙ ap (λ k. find k c.categories) here ∙ at in
                    let ids_eq : ids ≡ ids1 = cc in
                    let more = grown id false e in
                    let once' : count id ids ≡ 1 = ap (count id) ids_eq ∙ once in
                    (
                      grow ids,
                      subst (λ k. find k (change label grow c.categories) ≡ some (grow ids)) here
                          self,
                      omega (arith, more, once'),
                    )
                | inr k ↦ (ids1, find-change_other label m.category grow c.categories k ∙ at, once)
              ]
        ]

  admit-Registered :
      (cra_memory : ℕ) (logon : LogonRequest) (label : ℕ) (ids : List ℕ) (c : Ctrl K)
      → find logon.mac c.terminals ≡ none
      → find label c.categories ≡ some ids
      → Registered c
      → Registered (admit K cra_memory logon label c)
  unfolding admit grow
  admit-Registered cra_memory logon label ids c new there r =
      let l : Logged K = record {
        terminal = create_terminal K cra_memory logon c;
        category = label;
      } in
      record {
        once = admit-once logon.mac label l ids c new there r;
        home = admit-Home logon.mac label l ids c new there r refl;
      }

  admit_if_dama-Registered :
      (cra_memory : ℕ) (logon : LogonRequest) (label : ℕ) (c : Ctrl K)
      → find logon.mac c.terminals ≡ none
      → Registered c
      → Registered (admit_if_dama K cra_memory logon label c).1
  unfolding admit_if_dama
  admit_if_dama-Registered cra_memory logon label c new r =
      elim (Option-cases (find label c.categories)) [
        | inl e ↦ rw (admit_if_dama, e) r
        | inr (ids, e) ↦
            rw (admit_if_dama, e) (admit-Registered cra_memory logon label ids c new e r)
      ]

  admit_somewhere-Registered :
      (cra_memory : ℕ) (logon : LogonRequest) (c : Ctrl K)
      → find logon.mac c.terminals ≡ none
      → Registered c
      → Registered (admit_somewhere K cra_memory logon c).1
  unfolding admit_somewhere
  admit_somewhere-Registered cra_memory logon c new r =
      elim (Option-cases
        (choose_category (find logon.mac c.terminal_affectation) c.default_category)) [
          | inl e ↦ rw (admit_somewhere, e) r
          | inr (none, e) ↦ rw (admit_somewhere, e) r
          | inr (some label, e) ↦
              rw (admit_somewhere, e) (admit_if_dama-Registered cra_memory logon label c new r)
        ]

  -- A logon, whatever it returns, keeps the categories and the map of terminals in agreement.
  pub here_is_logon-Registered :
      (cra_memory : ℕ) (logon : LogonRequest) (c : Ctrl K)
      → Registered c
      → Registered (here_is_logon K cra_memory logon c).1
  unfolding here_is_logon
  here_is_logon-Registered cra_memory logon c r = elim (Option-cases (find logon.mac c.terminals)) [
    | inl e ↦ rw (here_is_logon, e) (admit_somewhere-Registered cra_memory logon c e r)
    | inr (l, e) ↦ rw (here_is_logon, e) r
  ]
