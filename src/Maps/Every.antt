-- ===== src/Maps/Every.antt =====
-- A property of every entry of a map.
use opensand.Prelude.{
  ℕ, ◌≡◌, sym, ◌∙◌, ap, subst, some, List, [], ◌∷◌, ltb, ◌==◌, if◌then◌else◌, arith, Bool-cases,
  inl, inr,
}
use opensand.Maps.{find, insert, erase, change}

module _ {V : Type 0} (P : ℕ → V → Type 0) where
  unfoldable pub Every : List (ℕ × V) → Type 0
  Every [] = Unit
  Every ((k, v) ∷ m) = P k v × Every m

  pub find-Every : (key : ℕ) (v : V) (m : List (ℕ × V)) → find key m ≡ some v → Every m → P key v
  unfolding find Every
  find-Every key v [] h e = absurd cc
  find-Every key v ((k, w) ∷ m) h e = elim (Bool-cases (k == key)) [
    | inl same ↦
        (let key_eq : k ≡ key = ground arith in
          let found : some w ≡ some v = sym (ap (λ b. if b then some w else find key m) same) ∙ h in
          let value_eq : w ≡ v = cc in subst (λ q. P q v) key_eq (subst (P k) value_eq e.0))
    | inr other ↦
        find-Every key v m (sym (ap (λ b. if b then some w else find key m) other) ∙ h) e.1
  ]

  pub insert-Every :
      (key : ℕ) (v : V) (m : List (ℕ × V)) → P key v → Every m → Every (insert key v m)
  unfolding insert Every
  insert-Every key v [] p e = (p, tt)
  insert-Every key v ((k, w) ∷ m) p e = elim (Bool-cases (k == key)) [
    | inl same ↦ rw same e
    | inr other ↦ elim (Bool-cases (ltb key k)) [
      | inl less ↦ rw (other, less) (p, e)
      | inr more ↦ rw (other, more) (e.0, insert-Every key v m p e.1)
    ]
  ]

  pub erase-Every : (key : ℕ) (m : List (ℕ × V)) → Every m → Every (erase key m)
  unfolding erase Every
  erase-Every key [] e = tt
  erase-Every key ((k, w) ∷ m) e = elim (Bool-cases (k == key)) [
    | inl same ↦ rw same e.1
    | inr other ↦ rw other (e.0, erase-Every key m e.1)
  ]

  pub change-Every :
      (key : ℕ) (f : V → V) (m : List (ℕ × V))
      → ((k : ℕ) (v : V) → P k v → P k (f v))
      → Every m
      → Every (change key f m)
  unfolding change Every
  change-Every key f [] h e = tt
  change-Every key f ((k, w) ∷ m) h e = elim (Bool-cases (k == key)) [
    | inl same ↦ rw same (h k w e.0, e.1)
    | inr other ↦ rw other (e.0, change-Every key f m h e.1)
  ]
