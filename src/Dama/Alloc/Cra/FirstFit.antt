-- ===== src/Dama/Alloc/Cra/FirstFit.antt =====
-- The constant-rate allocation of a carrier, against the first-fit rule.
use opensand.Prelude.{
  ℕ, ◌+◌, ◌-◌, ◌≤◌, ◌<◌, ◌≡◌, refl, ap, ap₂, ◌∙◌, Bool, none, some, List, [], ◌∷◌, ltb,
  if◌then◌else◌, u16, u16_mod, sum, arith, not,
}
use opensand.Dama.Terminal.{Credits, Terminal, set_cra_allocation}
use opensand.Dama.Alloc.{Rates, Totals, each}
use opensand.Dama.Alloc.Cra.{packets, rate, cra_step, cra_step_with, compute_cra, demand, demands}

-- What first fit takes of a capacity, and whom it serves.
unfoldable pub taken : ℕ → List ℕ → ℕ
taken c [] = 0
taken c (d ∷ ds) = if ltb c d then taken c ds else d + taken (c - d) ds

unfoldable pub served : ℕ → List ℕ → List Bool
served c [] = []
served c (d ∷ ds) = not (ltb c d) ∷ served (if ltb c d then c else c - d) ds

taken-le : (c : ℕ) (ds : List ℕ) → taken c ds ≤ c
unfolding taken
taken-le c [] = omega arith
taken-le c (d ∷ ds) = ground (arith, taken-le c ds, taken-le (c - d) ds)

taken-all : (c : ℕ) (ds : List ℕ) → sum ds ≤ c → taken c ds ≡ sum ds
unfolding taken sum
taken-all c [] h = refl
taken-all c (d ∷ ds) h = ground (arith, taken-all (c - d) ds)

module _ (K : Credits) (R : Rates) where
  -- A terminal that is served gets the rate of its packets.
  unfoldable pub grant : Bool → Terminal K → Terminal K
  grant b t = elim t.fmt [
    | none ↦ t
    | some f ↦
        if b then set_cra_allocation K (rate K R f (packets K R f t.cra_request_kbps)) t else t
  ]

  unfoldable pub grant_each : List Bool → List (Terminal K) → List (Terminal K)
  unfolding grant
  grant_each [] ts = ts
  grant_each (b ∷ bs) [] = []
  grant_each (b ∷ bs) (t ∷ ts) = grant b t ∷ grant_each bs ts

  cra_step-grant :
      (t : Terminal K) (s : Totals)
      → s.remaining < u16_mod
      → ((cra_step K R t s).0 ≡ grant (not (ltb s.remaining (demand K R t))) t)
        × ((cra_step K R t s).1.remaining
            ≡ (if ltb s.remaining (demand K R t) then s.remaining else s.remaining - demand K R t))
  unfolding cra_step cra_step_with grant demand
  cra_step-grant t s h = ground arith

  each-first_fit :
      (ts : List (Terminal K)) (s : Totals)
      → s.remaining < u16_mod
      → ((each (cra_step K R) ts s).0 ≡ grant_each (served s.remaining (demands K R ts)) ts)
        × ((each (cra_step K R) ts s).1.remaining
            ≡ s.remaining - taken s.remaining (demands K R ts))
  unfolding each served taken demands grant_each
  each-first_fit [] s h = (refl, omega arith)
  each-first_fit (t ∷ ts) s h =
      let (e, r) = cra_step-grant t s h in
      let (e', r') = each-first_fit ts (cra_step K R t s).1 (ground arith) in
      (ap₂ ◌∷◌ e (e' ∙ ap (λ c. grant_each (served c (demands K R ts)) ts) r), ground arith)

  -- The constant rates of a carrier are served first fit: a terminal whose packets fit into what the
  -- ones before it have left gets them all, any other nothing. What is taken and what remains make up
  -- the capacity, without wrapping, and if the capacity suffices for all, all are served.
  pub compute_cra-first_fit :
      (tal : List (Terminal K)) (s : Totals)
      → let c = u16 s.remaining in
        let ds = demands K R tal in
        let out = compute_cra K R tal s in
        (out.0 ≡ grant_each (served c ds) tal)
        × (out.1.remaining + taken c ds ≡ c)
        × (sum ds ≤ c → out.1.remaining + sum ds ≡ c)
  unfolding compute_cra
  compute_cra-first_fit tal s =
      let c = u16 s.remaining in
      let ds = demands K R tal in
      let (e, r) = each-first_fit tal (record s { remaining = c }) (omega arith) in
      (e, omega (arith, taken-le c ds), λ h. omega (arith, taken-le c ds, taken-all c ds h))
