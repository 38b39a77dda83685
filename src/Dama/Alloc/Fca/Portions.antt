-- ===== src/Dama/Alloc/Fca/Portions.antt =====
-- The end of the free capacity allocation, and what it hands out.
use mathlib.Core.List.{Perm}
use opensand.Prelude.{
  ℕ, zero, suc, ◌+◌, ◌-◌, ◌<◌, ◌≡◌, refl, sym, ap, ap₂, ◌∙◌, true, false, none, some, List, [], ◌∷◌,
  ltb, ◌==◌, if◌then◌else◌, u16, u16_mod, min, sum, arith, Bool-cases, inl, inr, length,
}
use opensand.Dama.Terminal.{Credits, Fmt, Terminal, set_fca_allocation, sort_by_remaining_credit}
use opensand.Dama.Alloc.{Rates, Totals}
use opensand.Dama.Alloc.Sort.{
  stable_sort, stable_sort-perm, Ordered, stable_sort-Ordered, Each, stable_sort-Each,
  length-stable_sort,
}
use opensand.Dama.Alloc.Fca.{fca_packets, fca_rate, fca_step, fca_loop, compute_fca}

-- Each demand in turn gets what is left of the capacity, until nothing is left.
unfoldable pub portions : ℕ → List ℕ → List ℕ
portions c [] = []
portions c (d ∷ ds) = if ltb 0 c then min d c ∷ portions (c - min d c) ds else []

portions-more :
    (c d : ℕ) (ds : List ℕ)
    → ltb 0 c ≡ true
    → portions c (d ∷ ds) ≡ min d c ∷ portions (c - min d c) ds
unfolding portions
portions-more c d ds more = rw more refl

sum-portions : (c : ℕ) (ds : List ℕ) → sum (portions c ds) ≡ min c (sum ds)
unfolding portions sum
sum-portions c [] = omega arith
sum-portions c (d ∷ ds) = ground (arith, sum-portions (c - min d c) ds)

module _ (K : Credits) (R : Rates) where
  abbrev pub HasFmt : Terminal K → Type 0
  HasFmt t = (f : Fmt) × (t.fmt ≡ some f)

  -- The packets of a terminal's portion at an efficiency.
  unfoldable pub demand : ℕ → ℕ → Terminal K → ℕ
  demand fca_kbps efficiency t = elim t.fmt [
    | none ↦ 0
    | some f ↦ fca_packets K R fca_kbps f efficiency
  ]

  unfoldable pub demands : ℕ → ℕ → List (Terminal K) → List ℕ
  unfolding demand
  demands fca_kbps efficiency [] = []
  demands fca_kbps efficiency (t ∷ ts) =
      demand fca_kbps efficiency t ∷ demands fca_kbps efficiency ts

  -- A terminal with its portion, as a rate.
  unfoldable pub grant : ℕ → ℕ → Terminal K → Terminal K
  grant efficiency pkt t = elim t.fmt [
    | none ↦ t
    | some f ↦ set_fca_allocation K (fca_rate K R f efficiency pkt) t
  ]

  unfoldable pub grant_each : ℕ → List ℕ → List (Terminal K) → List (Terminal K)
  unfolding grant
  grant_each efficiency [] ts = ts
  grant_each efficiency (p ∷ ps) [] = []
  grant_each efficiency (p ∷ ps) (t ∷ ts) = grant efficiency p t ∷ grant_each efficiency ps ts

  step-grant :
      (fca_kbps : ℕ) (f : Fmt) (t : Terminal K) (s : Totals)
      → t.fmt ≡ some f
      → s.remaining < u16_mod
      → ((fca_step K R fca_kbps f t s).0
          ≡ grant s.efficiency (min (demand fca_kbps s.efficiency t) s.remaining) t)
        × ((fca_step K R fca_kbps f t s).1.remaining
            ≡ s.remaining - min (demand fca_kbps s.efficiency t) s.remaining)
        × ((fca_step K R fca_kbps f t s).1.efficiency ≡ s.efficiency)
  unfolding fca_step grant demand
  step-grant fca_kbps f t s e h = ground arith

  -- A round with capacity left, at a terminal with a format.
  loop-round :
      (fuel fca_kbps : ℕ) (f : Fmt) (t : Terminal K) (ts : List (Terminal K)) (s : Totals)
      (r : List (Terminal K) × Totals)
      → ltb 0 s.remaining ≡ true
      → t.fmt ≡ some f
      → fca_loop K R fuel fca_kbps ts (fca_step K R fca_kbps f t s).1 ≡ some r
      → fca_loop K R (suc fuel) fca_kbps (t ∷ ts) s
        ≡ some ((fca_step K R fca_kbps f t s).0 ∷ r.0, r.1)
  unfolding fca_loop
  loop-round fuel fca_kbps f t ts s r more e h = simp (more, e, h)

  loop-portions :
      (fca_kbps : ℕ) (ts : List (Terminal K)) (s : Totals)
      → Each HasFmt ts
      → s.remaining < u16_mod
      → (end : Totals) × (fca_loop K R (suc (length ts)) fca_kbps ts s
          ≡ some (
            grant_each s.efficiency (portions s.remaining (demands fca_kbps s.efficiency ts)) ts,
            end,
          ))
        × (end.remaining ≡ s.remaining - sum (demands fca_kbps s.efficiency ts))
  unfolding fca_loop demands grant_each portions sum
  loop-portions fca_kbps [] s v h = (s, refl, omega arith)
  loop-portions fca_kbps (t ∷ ts) s ((f, e), v) h = elim (Bool-cases (ltb 0 s.remaining)) [
    | inl more ↦
        let (g, r, same) = step-grant fca_kbps f t s e h in
        let (end, e', r') =
          loop-portions fca_kbps ts (fca_step K R fca_kbps f t s).1 v (omega arith) in
        (
          end,
          loop-round (suc (length ts)) fca_kbps f t ts s _ more e e'
              ∙ ap (λ x. some (x, end))
                  (ap₂ ◌∷◌ g
                      (ap₂ (λ c x. grant_each x (portions c (demands fca_kbps x ts)) ts) r same)
                    ∙ ap (λ ps. grant_each s.efficiency ps (t ∷ ts))
                        (sym (portions-more s.remaining (demand fca_kbps s.efficiency t) _ more))),
          omega (arith, ap (λ x. sum (demands fca_kbps x ts)) same),
        )
    | inr used ↦ (s, rw used refl, ground arith)
  ]

  -- If every terminal has a format and `>` on credits is strict, the loop ends, after one round for each and one more. The terminals
  -- are served in the order of their credits, each with its portion or what is left, until nothing is
  -- left; what is handed out and what remains make up the capacity.
  pub compute_fca-portions :
      (fca_kbps : ℕ) (tal : List (Terminal K)) (s : Totals)
      → ((a b : K.Credit) → K.greater a b ≡ true → K.greater b a ≡ false)
      → Each HasFmt tal
      → 0 < u16 s.remaining
      → 0 < length tal
      → (order : List (Terminal K)) × Perm order tal
        × Ordered (sort_by_remaining_credit K) order
        × (end : Totals) × (let ps =
              portions (u16 s.remaining) (demands fca_kbps s.efficiency order) in
            (compute_fca K R (suc (length tal)) fca_kbps tal s
              ≡ some (grant_each s.efficiency ps order, end))
            × (end.remaining + sum ps ≡ u16 s.remaining))
  unfolding compute_fca
  compute_fca-portions fca_kbps tal s strict v c n =
      let order = stable_sort (sort_by_remaining_credit K) tal in
      let perm = stable_sort-perm (sort_by_remaining_credit K) tal in
      let start = record s { remaining = u16 s.remaining; alloc = 0 } in
      let (end, e', r) =
        loop-portions fca_kbps order start
          (stable_sort-Each (sort_by_remaining_credit K) HasFmt tal v) (omega arith) in
      let length_eq = sym (length-stable_sort (sort_by_remaining_credit K) tal) in
      let nonempty : (length tal == 0) ≡ false = ground arith in
      let nonzero : (u16 s.remaining == 0) ≡ false = ground arith in
      (
        order,
        perm,
        stable_sort-Ordered (sort_by_remaining_credit K)
            (λ a b. unfold sort_by_remaining_credit in strict a.rbdc_credit b.rbdc_credit) tal,
        end,
        (
          rw (nonempty, nonzero, length_eq, e') refl,
          omega (arith, sum-portions (u16 s.remaining) (demands fca_kbps s.efficiency order)),
        ),
      )

  -- At a terminal without a format, with capacity left, no fuel is enough.
  pub fca_loop-stuck :
      (fuel fca_kbps : ℕ) (t : Terminal K) (ts : List (Terminal K)) (s : Totals)
      → t.fmt ≡ none
      → 0 < s.remaining
      → fca_loop K R fuel fca_kbps (t ∷ ts) s ≡ none
  unfolding fca_loop
  fca_loop-stuck zero fca_kbps t ts s e h = refl
  fca_loop-stuck (suc fuel) fca_kbps t ts s e h =
      let more : ltb 0 s.remaining ≡ true = ground arith in
      rw (more, e) (fca_loop-stuck fuel fca_kbps t ts s e h)
