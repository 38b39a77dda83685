-- ===== src/Fmt/Group.antt =====
-- opensand-core/src/dvb/utils/FmtGroup.cpp and FmtGroup.h: a group of formats, and the format of the
-- group that is nearest to one that is desired.
--
-- The text of the configuration is given as its tokens: the parts between `;`, each as the parts
-- between `-` with the number that is read, or `none` where no number can be read. The thresholds of
-- the table are of type `double`, and `narrow` makes them the `float`s of a group.
pub mod Nearest
mod Tests
use opensand.Prelude.{
  ℕ, zero, suc, ◌+◌, ◌-◌, Bool, true, false, Option, none, some, List, [], ◌∷◌, ◌++◌, map, ltb,
  ◌==◌, if◌then◌else◌, min, u8,
}
use opensand.Fmt.{Levels, get_definition}
use opensand.Dama.Alloc.Sort.{stable_sort}

module _ {D W : Type 0} (L : Levels) (zero_level : W) (is_zero : W → Bool) (es_n0_of : D → W)
    (narrow : W → L.Level) where
  pub record FmtId : Type 0 where
    pub id : ℕ
    pub es_n0 : L.Level

  -- `getRequiredEsN0` of the table.
  unfoldable pub get_required_es_n0 : ℕ → List (ℕ × D) → W
  unfolding get_definition
  get_required_es_n0 id defs = elim (get_definition id defs) [
    | none ↦ zero_level
    | some def ↦ es_n0_of def
  ]

  -- `operator <` on the thresholds.
  abbrev pub less_demanding : FmtId → FmtId → Bool
  less_demanding a b = L.greater b.es_n0 a.es_n0

  -- `std::find` on the ids.
  unfoldable pub has_id : ℕ → List FmtId → Bool
  has_id id [] = false
  has_id id (f ∷ fs) = let later = has_id id fs in if f.id == id then true else later

  module _ (modcod_def : List (ℕ × D)) where
    -- An id is added unless it is there; `false` where its threshold is 0.
    unfoldable pub add_id : ℕ → List FmtId → Bool × List FmtId
    unfolding has_id get_required_es_n0
    add_id id fs =
        let es_n0 = get_required_es_n0 id modcod_def in
        if has_id id fs
        then (true, fs)
        else if is_zero es_n0
        then (false, fs)
        else (true, fs ++ record { id = id; es_n0 = narrow es_n0 } ∷ [])

    -- The loop over the ids between two tokens, with the number of its rounds.
    unfoldable pub add_between : ℕ → ℕ → List FmtId → List FmtId
    unfolding add_id
    add_between zero i fs = fs
    add_between (suc n) i fs = add_between n (i + 1) (add_id i fs).1

    -- One token, with the id before it, or 0. `i` is a byte, and `previous_id + 1` is not.
    unfoldable pub add_token : Option ℕ → ℕ × List FmtId → ℕ × List FmtId
    unfolding add_id add_between
    add_token none (previous_id, fs) = (previous_id, fs)
    add_token (some dummy) (previous_id, fs) =
        let val = u8 dummy in
        let first = u8 (min (previous_id + 1) (val + 1)) in
        let last = if ltb previous_id val then val else previous_id in
        let (known, fs') = add_id val fs in
        let between = add_between (last - first) first fs' in
        if known then if previous_id == 0 then (val, fs') else (val, between) else (previous_id, fs)

    unfoldable pub add_tokens : List (Option ℕ) → ℕ × List FmtId → ℕ × List FmtId
    unfolding add_token
    add_tokens [] state = state
    add_tokens (t ∷ ts) state = add_tokens ts (add_token t state)

    unfoldable pub add_parts : List (List (Option ℕ)) → List FmtId → List FmtId
    unfolding add_tokens
    add_parts [] fs = fs
    add_parts (part ∷ parts) fs = add_parts parts (add_tokens part (0, fs)).1

    -- The constructor.
    unfoldable pub parse : List (List (Option ℕ)) → List FmtId
    unfolding add_parts stable_sort
    parse parts = stable_sort less_demanding (add_parts parts [])

    unfoldable pub get_fmt_ids : List FmtId → List ℕ
    get_fmt_ids fs = map (λ f. f.id) fs

    -- The loop of `getNearest`, which walks the list from its end.
    unfoldable pub nearest_from_end : L.Level → List FmtId → Option ℕ
    nearest_from_end desired [] = none
    nearest_from_end desired (f ∷ fs) = elim (nearest_from_end desired fs) [
      | some id ↦ some id
      | none ↦ if L.at_least desired f.es_n0 then some f.id else none
    ]

    unfoldable pub get_nearest : ℕ → List FmtId → ℕ
    unfolding get_required_es_n0 nearest_from_end
    get_nearest fmt_id fs =
        let esn0 = get_required_es_n0 fmt_id modcod_def in
        if is_zero esn0
        then 0
        else elim (nearest_from_end (narrow esn0) fs) [ none ↦ 0 | some id ↦ id ]
