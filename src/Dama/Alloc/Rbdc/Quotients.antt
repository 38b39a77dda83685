-- ===== src/Dama/Alloc/Rbdc/Quotients.antt =====
-- The fair share of a congested carrier, as doubles compute it.
use opensand.Prelude.{
  ℕ, ◌*◌, ◌≤◌, ◌<◌, ◌≡◌, refl, ap, ◌∙◌, false, true, ltb, ltb→lt, u16_mod, arith, Bool-cases, inl,
  inr,
}
use opensand.Dama.Terminal.{Credits}
use opensand.Dama.Alloc.{Doubles}
use opensand.Dama.Alloc.Rbdc.{fair_share, congested, fair_rbdc, fair_floor}

-- What IEEE 754 guarantees of the double quotients of 16-bit words.
pub record DoubleLaws {K : Credits} (F : Doubles K) : Type 0 where
  pub less_one :
      (n d : ℕ)
      → n < u16_mod
      → 0 < d
      → d < u16_mod
      → F.less (F.divide (F.to_double n) (F.to_double d)) (F.to_double 1) ≡ ltb n d
  pub one_less :
      (n d : ℕ)
      → n < u16_mod
      → 0 < d
      → d < u16_mod
      → F.less (F.to_double 1) (F.divide (F.to_double n) (F.to_double d)) ≡ ltb d n
  pub one_one : F.less (F.to_double 1) (F.to_double 1) ≡ false
  pub floor_same :
      (n d : ℕ)
      → n < u16_mod
      → 0 < d
      → d < u16_mod
      → F.floor (F.divide (F.to_double n) (F.divide (F.to_double d) (F.to_double d))) ≡ n
  pub floor_one : (n : ℕ) → n < u16_mod → F.floor (F.divide (F.to_double n) (F.to_double 1)) ≡ n
  -- Rounding does not reach the next integer.
  pub floor_most :
      (n t d : ℕ)
      → n < u16_mod
      → 0 < d
      → d < t
      → t < u16_mod
      → F.floor (F.divide (F.to_double n) (F.divide (F.to_double t) (F.to_double d))) * t ≤ n * d

module _ {K : Credits} (F : Doubles K) (laws : DoubleLaws F) where
  fair_share-one :
      (total capacity : ℕ)
      → total < capacity
      → capacity < u16_mod
      → fair_share F total capacity ≡ F.to_double 1
  unfolding fair_share
  fair_share-one total capacity h k =
      let few : ltb total capacity ≡ true = ground arith in
      rw (fair_share, laws.less_one total capacity (omega arith) (omega arith) k, few) refl

  fair_share-ratio :
      (total capacity : ℕ)
      → 0 < capacity
      → capacity ≤ total
      → total < u16_mod
      → fair_share F total capacity ≡ F.divide (F.to_double total) (F.to_double capacity)
  unfolding fair_share
  fair_share-ratio total capacity p h k =
      let many : ltb total capacity ≡ false = ground arith in
      rw (fair_share, laws.less_one total capacity k p (omega arith), many) refl

  pub congested-ltb :
      (total capacity : ℕ)
      → total < u16_mod
      → 0 < capacity
      → capacity < u16_mod
      → congested F total capacity ≡ ltb capacity total
  unfolding congested
  congested-ltb total capacity h p k = elim (Bool-cases (ltb total capacity)) [
    | inl few ↦
        ap (λ x. F.less (F.to_double 1) x)
          (fair_share-one total capacity (ltb→lt total capacity few) k)
        ∙ laws.one_one
        ∙ ground arith
    | inr many ↦
        ap (λ x. F.less (F.to_double 1) x) (fair_share-ratio total capacity p (ground arith) h)
        ∙ laws.one_less total capacity h p k
  ]

  -- Without congestion the factor is 1.
  pub fair_floor-whole :
      (total capacity r : ℕ)
      → total ≤ capacity
      → 0 < capacity
      → capacity < u16_mod
      → r < u16_mod
      → fair_floor F total capacity r ≡ r
  unfolding fair_floor fair_rbdc
  fair_floor-whole total capacity r h p k b =
      let of : F.Double → ℕ = λ x. F.floor (F.divide (F.to_double r) x) in
      elim (Bool-cases (ltb total capacity)) [
        | inl few ↦
            ap of (fair_share-one total capacity (ltb→lt total capacity few) k) ∙ laws.floor_one r b
        | inr full ↦
            let same : total ≡ capacity = ground arith in
            ap of (fair_share-ratio total capacity p (omega arith) (omega arith))
            ∙ ap (λ n. of (F.divide (F.to_double n) (F.to_double capacity))) same
            ∙ laws.floor_same r capacity b p k
      ]

  -- With congestion a share is at most the request times the capacity, by the total.
  pub fair_floor-cut :
      (total capacity r : ℕ)
      → 0 < capacity
      → capacity < total
      → total < u16_mod
      → r < u16_mod
      → fair_floor F total capacity r * total ≤ r * capacity
  unfolding fair_floor fair_rbdc
  fair_floor-cut total capacity r p h k b =
      let share : ℕ = fair_floor F total capacity r in
      let ratio : F.Double = F.divide (F.to_double total) (F.to_double capacity) in
      let exact : share ≡ F.floor (F.divide (F.to_double r) ratio) =
        ap (λ x. F.floor (F.divide (F.to_double r) x))
          (fair_share-ratio total capacity p (omega arith) k) in
      let most = laws.floor_most r total capacity b p h k in rw exact most
