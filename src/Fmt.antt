-- ===== src/Fmt.antt =====
-- opensand-core/src/dvb/fmt/FmtDefinitionTable.cpp: the table of the modulation and coding formats.
-- The table is a map that is walked in the order of its keys: it is a list of keys and definitions.
-- The definitions themselves, and their thresholds, which are floating-point numbers, are parameters.
pub mod Extremes
pub mod Group
pub mod Modcod
mod Tests
use opensand.Prelude.{
  ℕ, Bool, true, false, not, Option, none, some, List, [], ◌∷◌, ltb, ◌==◌, if◌then◌else◌,
}

module _ {D : Type 0} where
  -- `getDefinition`. `none` is the null pointer.
  unfoldable pub get_definition : ℕ → List (ℕ × D) → Option D
  get_definition id [] = none
  get_definition id ((key, def) ∷ defs) =
      let later = get_definition id defs in if key == id then some def else later

  -- `doFmtIdExist`
  unfoldable pub do_fmt_id_exist : ℕ → List (ℕ × D) → Bool
  do_fmt_id_exist id [] = false
  do_fmt_id_exist id ((key, def) ∷ defs) =
      let later = do_fmt_id_exist id defs in if key == id then true else later

  -- `definitions[id] = def`, in the order of the keys.
  unfoldable pub set_definition : ℕ → D → List (ℕ × D) → List (ℕ × D)
  set_definition id def [] = (id, def) ∷ []
  set_definition id def ((key, old) ∷ defs) =
      let later = set_definition id def defs in
      if id == key
      then (key, def) ∷ defs
      else if ltb id key
      then (id, def) ∷ (key, old) ∷ defs
      else (key, old) ∷ later

  -- `add`, for the id and the value of a definition that is not null.
  unfoldable pub add : ℕ → D → List (ℕ × D) → Bool × List (ℕ × D)
  unfolding do_fmt_id_exist set_definition
  add id def defs =
      if do_fmt_id_exist id defs then (false, defs) else (true, set_definition id def defs)

  -- The loops of `getMinId` and `getMaxId`, with the id found so far.
  unfoldable pub min_id_from : ℕ → List (ℕ × D) → ℕ
  min_id_from id [] = id
  min_id_from id ((key, def) ∷ defs) = min_id_from (if ltb key id then key else id) defs

  unfoldable pub max_id_from : ℕ → List (ℕ × D) → ℕ
  max_id_from id [] = id
  max_id_from id ((key, def) ∷ defs) = max_id_from (if ltb id key then key else id) defs

  unfoldable pub get_min_id : List (ℕ × D) → ℕ
  unfolding min_id_from
  get_min_id [] = 0
  get_min_id ((key, def) ∷ defs) = min_id_from key defs

  unfoldable pub get_max_id : List (ℕ × D) → ℕ
  unfolding max_id_from
  get_max_id [] = 0
  get_max_id ((key, def) ∷ defs) = max_id_from key defs

-- The thresholds: `greater` is `>`, and `at_least` is `>=`, between floating-point numbers.
pub record Levels : Type 1 where
  pub Level : Type 0
  pub greater : Level → Level → Bool
  pub at_least : Level → Level → Bool

module _ {D : Type 0} (L : Levels) (required_es_n0 : D → L.Level) (cni : L.Level) where
  -- The loop of `getRequiredModcod`, with the threshold and the id of the best format so far.
  unfoldable pub best_modcod : L.Level → ℕ → List (ℕ × D) → ℕ
  best_modcod previous_cni modcod_id [] = modcod_id
  best_modcod previous_cni modcod_id ((key, def) ∷ defs) =
      let current_cni = required_es_n0 def in
      let better =
        if L.greater current_cni cni then false else L.at_least current_cni previous_cni in
      best_modcod (if better then current_cni else previous_cni) (if better then key else modcod_id)
        defs

  -- `getRequiredModcod`. Where the table is empty the loop has no round, and 0.0 has no effect.
  unfoldable pub get_required_modcod : List (ℕ × D) → ℕ
  unfolding best_modcod get_min_id
  get_required_modcod [] = 0
  get_required_modcod ((key, def) ∷ defs) =
      let modcod_id = best_modcod (required_es_n0 def) 0 ((key, def) ∷ defs) in
      if modcod_id == 0 then get_min_id ((key, def) ∷ defs) else modcod_id
