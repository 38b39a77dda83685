-- ===== src/Maps/Laws.antt =====
-- What each operation does to lookups, to sums, and to the uniqueness of keys.
use opensand.Prelude.{
  ℕ, ◌+◌, ◌≡◌, refl, ◌∙◌, false, none, some, List, [], ◌∷◌, ltb, ◌==◌, ==_refl, if◌then◌else◌,
  arith, Bool-cases, inl, inr,
}
use opensand.Maps.{find, insert, erase, change, total, Unique}

module _ {V : Type 0} where
  pub find-insert :
      (key other : ℕ) (v : V) (m : List (ℕ × V))
      → find key m ≡ none
      → find other (insert key v m) ≡ (if key == other then some v else find other m)
  unfolding find insert
  find-insert key other v [] h = refl
  find-insert key other v ((k, w) ∷ m) h = let ih = find-insert key other v m in ground (arith, ih)

  pub find-change :
      (key other : ℕ) (f : V → V) (m : List (ℕ × V))
      → find other (change key f m) ≡ (
          if key == other
          then elim (find other m) [ none ↦ none | some v ↦ some (f v) ]
          else find other m)
  unfolding find change
  find-change key other f [] = ground arith
  find-change key other f ((k, w) ∷ m) = let ih = find-change key other f m in ground (arith, ih)

  pub find-erase :
      (key other : ℕ) (m : List (ℕ × V))
      → Unique m
      → find other (erase key m) ≡ (if key == other then none else find other m)
  unfolding find erase Unique
  find-erase key other [] u = ground arith
  find-erase key other ((k, w) ∷ m) u = let ih = find-erase key other m u.1 in ground (arith, ih)

  pub total-insert :
      (f : V → ℕ) (key : ℕ) (v : V) (m : List (ℕ × V))
      → find key m ≡ none
      → total f (insert key v m) ≡ f v + total f m
  unfolding total find insert
  total-insert f key v [] h = refl
  total-insert f key v ((k, w) ∷ m) h = let ih = total-insert f key v m in ground (arith, ih)

  pub total-erase :
      (f : V → ℕ) (key : ℕ) (v : V) (m : List (ℕ × V))
      → find key m ≡ some v
      → f v + total f (erase key m) ≡ total f m
  unfolding total find erase
  total-erase f key v [] h = absurd cc
  total-erase f key v ((k, w) ∷ m) h = let ih = total-erase f key v m in ground (arith, ih)

  pub total-change :
      (f : V → ℕ) (g : V → V) (key : ℕ) (v : V) (m : List (ℕ × V))
      → find key m ≡ some v
      → total f (change key g m) + f v ≡ total f m + f (g v)
  unfolding total find change
  total-change f g key v [] h = absurd cc
  total-change f g key v ((k, w) ∷ m) h = let ih = total-change f g key v m in ground (arith, ih)

  pub insert-Unique :
      (key : ℕ) (v : V) (m : List (ℕ × V)) → find key m ≡ none → Unique m → Unique (insert key v m)
  unfolding insert Unique
  insert-Unique key v [] h u = (h, tt)
  insert-Unique key v ((k, w) ∷ m) h u =
      let other = find-insert key k v m in
      let rest = insert-Unique key v m in
      elim (Bool-cases (k == key)) [
        | inl e ↦ rw e u
        | inr e ↦ elim (Bool-cases (ltb key k)) [
          | inl l ↦ rw (e, l) (h, u)
          | inr l ↦
              let absent : find key m ≡ none = unfold find in ground arith in
              let alone : find k m ≡ none = u.0 in
              rw (e, l) (ground (arith, other), rest absent u.1)
        ]
      ]

  pub erase-Unique : (key : ℕ) (m : List (ℕ × V)) → Unique m → Unique (erase key m)
  unfolding erase Unique
  erase-Unique key [] u = tt
  erase-Unique key ((k, w) ∷ m) u =
      let other = find-erase key k m u.1 in
      let alone : find k m ≡ none = u.0 in
      elim (Bool-cases (k == key)) [
        | inl e ↦ rw e u.1
        | inr e ↦ rw e (ground (arith, other), erase-Unique key m u.1)
      ]

  pub change-Unique : (key : ℕ) (f : V → V) (m : List (ℕ × V)) → Unique m → Unique (change key f m)
  unfolding change Unique
  change-Unique key f [] u = tt
  change-Unique key f ((k, w) ∷ m) u =
      let other = find-change key k f m in
      let alone : find k m ≡ none = u.0 in
      elim (Bool-cases (k == key)) [
        | inl e ↦ rw e u
        | inr e ↦ rw e (ground (arith, other), change-Unique key f m u.1)
      ]

  pub total-change_same :
      (f : V → ℕ) (g : V → V) (key : ℕ) (m : List (ℕ × V))
      → ((v : V) → f (g v) ≡ f v)
      → total f (change key g m) ≡ total f m
  unfolding total change
  total-change_same f g key [] h = refl
  total-change_same f g key ((k, w) ∷ m) h =
      let ih = total-change_same f g key m h in let own = h w in ground (arith, ih, own)

  pub find-change_self :
      (key : ℕ) (f : V → V) (v : V) (m : List (ℕ × V))
      → find key m ≡ some v
      → find key (change key f m) ≡ some (f v)
  find-change_self key f v m h = find-change key key f m ∙ (rw (==_refl key, h) refl)

  pub find-change_other :
      (key other : ℕ) (f : V → V) (m : List (ℕ × V))
      → (key == other) ≡ false
      → find other (change key f m) ≡ find other m
  find-change_other key other f m h = find-change key other f m ∙ (rw h refl)
