-- ===== src/Fmt/Extremes.antt =====
-- The least and the greatest key of a table, and the definitions that it returns.
use opensand.Prelude.{
  ℕ, ◌≤◌, ◌≡◌, refl, sym, ◌∙◌, ap, true, false, some, List, [], ◌∷◌, ltb, ltb→lt, ◌==◌, ==_refl,
  if◌then◌else◌, arith, All, Bool-cases, inl, inr, ◌⊎◌,
}
use opensand.Fmt.{
  get_definition, do_fmt_id_exist, set_definition, add, min_id_from, max_id_from, get_min_id,
  get_max_id,
}

module _ {D : Type 0} where
  Listed : ℕ → ℕ → List (ℕ × D) → Type 0
  Listed m id defs = (m ≡ id) ⊎ (do_fmt_id_exist m defs ≡ true)

  -- `m` is the greatest key, or the least one, of a table and of an id before it.
  record Greatest (m id : ℕ) (defs : List (ℕ × D)) : Type 0 where
    top : id ≤ m
    above : All (λ e. e.0 ≤ m) defs
    listed : Listed m id defs

  record Least (m id : ℕ) (defs : List (ℕ × D)) : Type 0 where
    bottom : m ≤ id
    below : All (λ e. m ≤ e.0) defs
    listed : Listed m id defs

  exist-cons :
      (m key : ℕ) (def : D) (defs : List (ℕ × D))
      → Listed m key defs
      → do_fmt_id_exist m ((key, def) ∷ defs) ≡ true
  unfolding Listed do_fmt_id_exist
  exist-cons m key def defs (inl e) = rw (e, ==_refl key) refl
  exist-cons m key def defs (inr e) = elim (Bool-cases (key == m)) [
    | inl k ↦ rw k refl
    | inr k ↦ rw (k, e) refl
  ]

  Listed-cons :
      (m id key : ℕ) (def : D) (defs : List (ℕ × D))
      → Listed m id defs
      → Listed m id ((key, def) ∷ defs)
  unfolding Listed
  Listed-cons m id key def defs (inl e) = inl e
  Listed-cons m id key def defs (inr e) = inr (exist-cons m key def defs (inr e))

  max_id_from-Greatest : (id : ℕ) (defs : List (ℕ × D)) → Greatest (max_id_from id defs) id defs
  unfolding max_id_from Listed
  max_id_from-Greatest id [] = record { top = omega arith; above = tt; listed = inl refl }
  max_id_from-Greatest id ((key, def) ∷ defs) = elim (Bool-cases (ltb id key)) [
    | inl k ↦
        let g = max_id_from-Greatest key defs in
        let less = ltb→lt id key k in
        let above_key = g.top in
        rw k record {
          top = omega arith;
          above = (g.top, g.above);
          listed = inr (exist-cons (max_id_from key defs) key def defs g.listed);
        }
    | inr k ↦
        let g = max_id_from-Greatest id defs in
        let above_id = g.top in
        rw k record {
          top = g.top;
          above = (ground arith, g.above);
          listed = Listed-cons (max_id_from id defs) id key def defs g.listed;
        }
  ]

  min_id_from-Least : (id : ℕ) (defs : List (ℕ × D)) → Least (min_id_from id defs) id defs
  unfolding min_id_from Listed
  min_id_from-Least id [] = record { bottom = omega arith; below = tt; listed = inl refl }
  min_id_from-Least id ((key, def) ∷ defs) = elim (Bool-cases (ltb key id)) [
    | inl k ↦
        let g = min_id_from-Least key defs in
        let less = ltb→lt key id k in
        let below_key = g.bottom in
        rw k record {
          bottom = omega arith;
          below = (g.bottom, g.below);
          listed = inr (exist-cons (min_id_from key defs) key def defs g.listed);
        }
    | inr k ↦
        let g = min_id_from-Least id defs in
        let below_id = g.bottom in
        rw k record {
          bottom = g.bottom;
          below = (ground arith, g.below);
          listed = Listed-cons (min_id_from id defs) id key def defs g.listed;
        }
  ]

  -- The ids that a table which is not empty gives as its least and its greatest are ids of it, and
  -- all its ids lie between them.
  pub extreme_ids :
      (entry : ℕ × D) (defs : List (ℕ × D))
      → (do_fmt_id_exist (get_min_id (entry ∷ defs)) (entry ∷ defs) ≡ true)
        × (do_fmt_id_exist (get_max_id (entry ∷ defs)) (entry ∷ defs) ≡ true)
        × All (λ e. get_min_id (entry ∷ defs) ≤ e.0) (entry ∷ defs)
        × All (λ e. e.0 ≤ get_max_id (entry ∷ defs)) (entry ∷ defs)
  unfolding get_min_id get_max_id
  extreme_ids (key, def) defs =
      let least = min_id_from-Least key defs in
      let greatest = max_id_from-Greatest key defs in
      (
        exist-cons (min_id_from key defs) key def defs least.listed,
        exist-cons (max_id_from key defs) key def defs greatest.listed,
        (least.bottom, least.below),
        (greatest.top, greatest.above),
      )

  exist-get_definition :
      (id : ℕ) (defs : List (ℕ × D))
      → do_fmt_id_exist id defs ≡ true
      → (def : D) × (get_definition id defs ≡ some def)
  unfolding do_fmt_id_exist get_definition
  exist-get_definition id [] h = absurd cc
  exist-get_definition id ((key, def) ∷ defs) h = elim (Bool-cases (key == id)) [
    | inl k ↦ rw k (def, refl)
    | inr k ↦ rw k (
        exist-get_definition id defs
          (sym (ap (λ b. if b then true else do_fmt_id_exist id defs) k) ∙ h))
  ]

  get_definition-set_definition :
      (id other : ℕ) (def : D) (defs : List (ℕ × D))
      → get_definition other (set_definition id def defs)
        ≡ (if id == other then some def else get_definition other defs)
  unfolding get_definition set_definition
  get_definition-set_definition id other def [] = refl
  get_definition-set_definition id other def ((key, old) ∷ defs) =
      let ih = get_definition-set_definition id other def defs in ground (arith, ih)

  -- A definition is added where its id is free, and then found under that id; nothing else changes.
  -- Where the id is taken the table stays as it was, and an id that is taken has a definition.
  pub add-get_definition :
      (id other : ℕ) (def : D) (defs : List (ℕ × D))
      → ((do_fmt_id_exist id defs ≡ false)
          × ((add id def defs).0 ≡ true)
          × (get_definition other (add id def defs).1
              ≡ (if id == other then some def else get_definition other defs)))
        ⊎ (((old : D) × (get_definition id defs ≡ some old)) × (add id def defs ≡ (false, defs)))
  unfolding add
  add-get_definition id other def defs = elim (Bool-cases (do_fmt_id_exist id defs)) [
    | inl e ↦ inr (exist-get_definition id defs e, rw e refl)
    | inr e ↦ rw e (inl (refl, refl, get_definition-set_definition id other def defs))
  ]
