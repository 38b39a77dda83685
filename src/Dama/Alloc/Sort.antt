-- ===== src/Dama/Alloc/Sort.antt =====
-- `std::stable_sort`, as an insertion sort, and what the allocation relies on.
use mathlib.Core.List.{Perm}
use mathlib.Core.List.Perm
use opensand.Prelude.{
  ◌≡◌, refl, suc, arith, length, Bool, true, false, List, [], ◌∷◌, if◌then◌else◌, Bool-cases, inl,
  inr,
}

-- Every element satisfies `P`.
abbrev pub Each {ℓ} : {A : Type ℓ} → (A → Type 0) → List A → Type 0
Each P [] = Unit {0}
Each P (a ∷ as') = P a × Each P as'

module _ {ℓ} {A : Type ℓ} (before : A → A → Bool) where
  unfoldable pub insert : A → List A → List A
  insert a [] = a ∷ []
  insert a (b ∷ bs) = if before b a then b ∷ insert a bs else a ∷ b ∷ bs

  unfoldable pub stable_sort : List A → List A
  unfolding insert
  stable_sort [] = []
  stable_sort (a ∷ as') = insert a (stable_sort as')

  insert-perm : (a : A) (bs : List A) → Perm (insert a bs) (a ∷ bs)
  unfolding insert
  insert-perm a [] = Perm.refl (a ∷ [])
  insert-perm a (b ∷ bs) = elim (Bool-cases (before b a)) [
    | inl h ↦ rw h (Perm.trans (Perm.cons b (insert-perm a bs)) (Perm.swap a b bs))
    | inr h ↦ rw h (Perm.refl (a ∷ b ∷ bs))
  ]

  -- Sorting loses and invents nothing.
  pub stable_sort-perm : (bs : List A) → Perm (stable_sort bs) bs
  unfolding stable_sort
  stable_sort-perm [] = Perm.refl []
  stable_sort-perm (a ∷ bs) =
      Perm.trans (insert-perm a (stable_sort bs)) (Perm.cons a (stable_sort-perm bs))

  length-insert : (a : A) (bs : List A) → length (insert a bs) ≡ suc (length bs)
  unfolding insert
  length-insert a [] = refl
  length-insert a (b ∷ bs) = ground (arith, length-insert a bs)

  pub length-stable_sort : (bs : List A) → length (stable_sort bs) ≡ length bs
  unfolding stable_sort
  length-stable_sort [] = refl
  length-stable_sort (a ∷ bs) =
      omega (arith, length-insert a (stable_sort bs), length-stable_sort bs)

  module _ (P : A → Type 0) where
    insert-Each : (a : A) (bs : List A) → P a → Each P bs → Each P (insert a bs)
    unfolding insert
    insert-Each a [] h v = (h, tt)
    insert-Each a (b ∷ bs) h v = elim (Bool-cases (before b a)) [
      | inl k ↦ rw k (v.0, insert-Each a bs h v.1)
      | inr k ↦ rw k (h, v)
    ]

    pub stable_sort-Each : (bs : List A) → Each P bs → Each P (stable_sort bs)
    unfolding stable_sort
    stable_sort-Each [] v = tt
    stable_sort-Each (a ∷ bs) v = insert-Each a (stable_sort bs) v.0 (stable_sort-Each bs v.1)

  -- No element comes strictly before the one in front of it.
  abbrev pub LedBy : A → List A → Type 0
  LedBy a [] = Unit {0}
  LedBy a (b ∷ bs) = (before b a ≡ false) × LedBy b bs

  abbrev pub Ordered : List A → Type 0
  Ordered [] = Unit {0}
  Ordered (a ∷ bs) = LedBy a bs

  module _ (asymmetric : (a b : A) → before a b ≡ true → before b a ≡ false) where
    insert-LedBy : (c a : A) (bs : List A) → before a c ≡ false → LedBy c bs → LedBy c (insert a bs)
    unfolding insert
    insert-LedBy c a [] h l = (h, tt)
    insert-LedBy c a (b ∷ bs) h l = elim (Bool-cases (before b a)) [
      | inl k ↦ rw k (l.0, insert-LedBy b a bs (asymmetric b a k) l.1)
      | inr k ↦ rw k (h, (k, l.1))
    ]

    insert-Ordered : (a : A) (bs : List A) → Ordered bs → Ordered (insert a bs)
    unfolding insert
    insert-Ordered a [] l = tt
    insert-Ordered a (b ∷ bs) l = elim (Bool-cases (before b a)) [
      | inl k ↦ rw k (insert-LedBy b a bs (asymmetric b a k) l)
      | inr k ↦ rw k (k, l)
    ]

    -- The result is in order.
    pub stable_sort-Ordered : (bs : List A) → Ordered (stable_sort bs)
    unfolding stable_sort
    stable_sort-Ordered [] = tt
    stable_sort-Ordered (a ∷ bs) = insert-Ordered a (stable_sort bs) (stable_sort-Ordered bs)
