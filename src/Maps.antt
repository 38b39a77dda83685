-- ===== src/Maps.antt =====
-- Maps with numbers as keys, as `std::map` keeps them: a list of keys and values in the order of the
-- keys, and what a value adds up to over a map. A map has each key once (`Unique`).
pub mod Laws
pub mod Every
use opensand.Prelude.{ℕ, ◌+◌, ◌≡◌, Option, none, some, List, [], ◌∷◌, ltb, ◌==◌, if◌then◌else◌}

module _ {V : Type 0} where
  unfoldable pub find : ℕ → List (ℕ × V) → Option V
  find key [] = none
  find key ((k, v) ∷ m) = let later = find key m in if k == key then some v else later

  -- `insert`: a key that is there keeps its value.
  unfoldable pub insert : ℕ → V → List (ℕ × V) → List (ℕ × V)
  insert key value [] = (key, value) ∷ []
  insert key value ((k, v) ∷ m) =
      let later = insert key value m in
      if k == key
      then (k, v) ∷ m
      else if ltb key k
      then (key, value) ∷ (k, v) ∷ m
      else (k, v) ∷ later

  unfoldable pub erase : ℕ → List (ℕ × V) → List (ℕ × V)
  erase key [] = []
  erase key ((k, v) ∷ m) = let later = erase key m in if k == key then m else (k, v) ∷ later

  -- A write to the object that the value of a key points to.
  unfoldable pub change : ℕ → (V → V) → List (ℕ × V) → List (ℕ × V)
  change key f [] = []
  change key f ((k, v) ∷ m) =
      let later = change key f m in if k == key then (k, f v) ∷ m else (k, v) ∷ later

  unfoldable pub total : (V → ℕ) → List (ℕ × V) → ℕ
  total f [] = 0
  total f ((k, v) ∷ m) = f v + total f m

  unfoldable pub Unique : List (ℕ × V) → Type 0
  Unique [] = Unit
  Unique ((k, v) ∷ m) = (find k m ≡ none) × Unique m
