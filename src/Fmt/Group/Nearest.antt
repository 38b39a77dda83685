-- ===== src/Fmt/Group/Nearest.antt =====
-- The nearest format of a group: the most demanding one of the group that a link for the desired
-- format supports.
use opensand.Prelude.{
  ℕ, zero, suc, ◌+◌, ◌-◌, ◌≡◌, refl, Bool, true, false, Option, none, some, List, [], ◌∷◌, ◌++◌,
  ltb, ◌==◌, if◌then◌else◌, min, u8, Bool-cases, Option-cases, ◌⊎◌, inl, inr, subst,
}
use opensand.Fmt.{Levels}
use opensand.Fmt.Modcod.{TotalOrder, Some}
use opensand.Fmt.Group.{
  FmtId, has_id, get_required_es_n0, less_demanding, add_id, add_between, add_token, add_tokens,
  add_parts, parse, nearest_from_end, get_nearest,
}
use opensand.Dama.Alloc.Sort.{
  stable_sort, Each, LedBy, Ordered, stable_sort-Ordered, stable_sort-Each,
}

-- `>` is the negation of `<=`.
pub record Strict (L : Levels) : Type 0 where
  pub greater_not : (a b : L.Level) → L.greater a b ≡ false → L.at_least b a ≡ true
  pub greater_asym : (a b : L.Level) → L.greater a b ≡ true → L.greater b a ≡ false

module _ {D W : Type 0} (L : Levels) (zero_level : W) (is_zero : W → Bool) (es_n0_of : D → W)
    (narrow : W → L.Level) (modcod_def : List (ℕ × D)) where
  abbrev F : Type 0
  F = FmtId L zero_level is_zero es_n0_of narrow

  abbrev pub required : ℕ → W
  required id = get_required_es_n0 L zero_level is_zero es_n0_of narrow id modcod_def

  -- A format with the threshold that the table has for its id, which is not 0 there.
  abbrev pub Known : F → Type 0
  Known f = (f.es_n0 ≡ narrow (required f.id)) × (is_zero (required f.id) ≡ false)

  -- The id of a format of the group that demands at most as much as is desired, and at least as much as
  -- every other such one.
  pub record Best (desired : L.Level) (fs : List F) (id : ℕ) : Type 0 where
    pub best : F
    pub listed : Some (λ f. f ≡ best) fs
    pub named : best.id ≡ id
    pub enough : L.at_least desired best.es_n0 ≡ true
    pub greatest :
        Each (λ f. L.at_least desired f.es_n0 ≡ true → L.at_least best.es_n0 f.es_n0 ≡ true) fs

  abbrev pub TooDemanding : L.Level → List F → Type 0
  TooDemanding desired fs = Each (λ f. L.at_least desired f.es_n0 ≡ false) fs

  abbrev Found : L.Level → List F → Option ℕ → Type 0
  Found desired fs none = TooDemanding desired fs
  Found desired fs (some id) = Best desired fs id

  module _ (O : TotalOrder L) (S : Strict L) where
    -- In an ordered list every format demands at least as much as the first.
    least_first :
        (f e : F) (fs : List F)
        → LedBy (less_demanding L zero_level is_zero es_n0_of narrow) f fs
        → Some (λ x. x ≡ e) fs
        → L.at_least e.es_n0 f.es_n0 ≡ true
    least_first f e [] l s = absurd s
    least_first f e (b ∷ bs) l s =
        let next : L.at_least b.es_n0 f.es_n0 ≡ true = S.greater_not f.es_n0 b.es_n0 l.0 in
        elim s [
          | inl same ↦ subst (λ x. L.at_least x.es_n0 f.es_n0 ≡ true) same next
          | inr later ↦ O.at_least_trans e.es_n0 b.es_n0 f.es_n0 (least_first b e bs l.1 later) next
        ]

    led-Ordered :
        (f : F) (fs : List F)
        → LedBy (less_demanding L zero_level is_zero es_n0_of narrow) f fs
        → Ordered (less_demanding L zero_level is_zero es_n0_of narrow) fs
    led-Ordered f [] l = tt
    led-Ordered f (b ∷ bs) l = l.1

    too_demanding :
        (desired : L.Level) (e : F) (fs : List F)
        → TooDemanding desired fs
        → Each (λ f. L.at_least desired f.es_n0 ≡ true → L.at_least e.es_n0 f.es_n0 ≡ true) fs
    too_demanding desired e [] h = tt
    too_demanding desired e (f ∷ fs) h =
        ((λ k. let no = h.0 in absurd cc), too_demanding desired e fs h.1)

    nearest_from_end-Found :
        (desired : L.Level) (fs : List F)
        → Ordered (less_demanding L zero_level is_zero es_n0_of narrow) fs
        → Found desired fs
            (nearest_from_end L zero_level is_zero es_n0_of narrow modcod_def desired fs)
    unfolding nearest_from_end
    nearest_from_end-Found desired [] o = tt
    nearest_from_end-Found desired (f ∷ fs) o =
        let ih = nearest_from_end-Found desired fs (led-Ordered f fs o) in
        elim (Option-cases
          (nearest_from_end L zero_level is_zero es_n0_of narrow modcod_def desired fs)) [
            | inl n ↦
                let none_later = subst (Found desired fs) n ih in
                elim (Bool-cases (L.at_least desired f.es_n0)) [
                  | inl k ↦
                      rw (n, k)
                        record {
                          best = f;
                          listed = inl refl;
                          named = refl;
                          enough = k;
                          greatest = (
                            (λ _. O.at_least_refl f.es_n0),
                            too_demanding desired f fs none_later,
                          );
                        }
                  | inr k ↦ rw (n, k) (k, none_later)
                ]
            | inr (id, n) ↦
                let b = subst (Found desired fs) n ih in
                rw n record {
                  best = b.best;
                  listed = inr b.listed;
                  named = b.named;
                  enough = b.enough;
                  greatest = ((λ _. least_first f b.best fs o b.listed), b.greatest);
                }
          ]

  snoc-Known : (f : F) (fs : List F) → Known f → Each Known fs → Each Known (fs ++ f ∷ [])
  snoc-Known f [] k h = (k, tt)
  snoc-Known f (g ∷ fs) k h = (h.0, snoc-Known f fs k h.1)

  abbrev one : ℕ → List F → Bool × List F
  one id fs = add_id L zero_level is_zero es_n0_of narrow modcod_def id fs

  one-Known : (id : ℕ) (fs : List F) → Each Known fs → Each Known (one id fs).1
  unfolding add_id
  one-Known id fs h = elim (Bool-cases (has_id L zero_level is_zero es_n0_of narrow id fs)) [
    | inl there ↦ rw there h
    | inr new ↦ elim (Bool-cases (is_zero (required id))) [
      | inl z ↦ rw (new, z) h
      | inr z ↦
          rw (new, z) (snoc-Known record { id = id; es_n0 = narrow (required id) } fs (refl, z) h)
    ]
  ]

  add_between-Known :
      (n i : ℕ) (fs : List F)
      → Each Known fs
      → Each Known (add_between L zero_level is_zero es_n0_of narrow modcod_def n i fs)
  unfolding add_between
  add_between-Known zero i fs h = h
  add_between-Known (suc n) i fs h = add_between-Known n (i + 1) (one i fs).1 (one-Known i fs h)

  add_token-Known :
      (t : Option ℕ) (previous_id : ℕ) (fs : List F)
      → Each Known fs
      → Each Known (add_token L zero_level is_zero es_n0_of narrow modcod_def t (previous_id, fs)).1
  unfolding add_token
  add_token-Known none previous_id fs h = h
  add_token-Known (some dummy) previous_id fs h =
      let added = one-Known (u8 dummy) fs h in
      let first : ℕ = u8 (min (previous_id + 1) (u8 dummy + 1)) in
      let last : ℕ = if ltb previous_id (u8 dummy) then u8 dummy else previous_id in
      elim (Bool-cases (one (u8 dummy) fs).0) [
        | inl k ↦ elim (Bool-cases (previous_id == 0)) [
          | inl z ↦ rw (k, z) added
          | inr z ↦ rw (k, z) (add_between-Known (last - first) first (one (u8 dummy) fs).1 added)
        ]
        | inr k ↦ rw k h
      ]

  add_tokens-Known :
      (ts : List (Option ℕ)) (previous_id : ℕ) (fs : List F)
      → Each Known fs
      → Each Known
          (add_tokens L zero_level is_zero es_n0_of narrow modcod_def ts (previous_id, fs)).1
  unfolding add_tokens
  add_tokens-Known [] previous_id fs h = h
  add_tokens-Known (t ∷ ts) previous_id fs h =
      add_tokens-Known ts
        (add_token L zero_level is_zero es_n0_of narrow modcod_def t (previous_id, fs)).0
        (add_token L zero_level is_zero es_n0_of narrow modcod_def t (previous_id, fs)).1
        (add_token-Known t previous_id fs h)

  add_parts-Known :
      (parts : List (List (Option ℕ))) (fs : List F)
      → Each Known fs
      → Each Known (add_parts L zero_level is_zero es_n0_of narrow modcod_def parts fs)
  unfolding add_parts
  add_parts-Known [] fs h = h
  add_parts-Known (part ∷ parts) fs h = add_parts-Known parts _ (add_tokens-Known part 0 fs h)

  -- Each format of a group is one of the table, with its threshold. If the comparisons of thresholds are
  -- a total order, the nearest format of the group to a desired one is 0 where the table does not
  -- have that one or its threshold is 0, and where each format of the group demands more; otherwise it
  -- is one of the group that demands at most as much, and no other such one demands more.
  pub get_nearest-Best :
      (parts : List (List (Option ℕ))) (fmt_id : ℕ)
      → TotalOrder L
      → Strict L
      → Each Known (parse L zero_level is_zero es_n0_of narrow modcod_def parts)
        × (((is_zero (required fmt_id) ≡ true)
              × (get_nearest L zero_level is_zero es_n0_of narrow modcod_def fmt_id
                    (parse L zero_level is_zero es_n0_of narrow modcod_def parts)
                  ≡ 0))
            ⊎ ((is_zero (required fmt_id) ≡ false)
                × ((TooDemanding
                        (narrow (required fmt_id))
                        (parse L zero_level is_zero es_n0_of narrow modcod_def parts)
                      × (get_nearest L zero_level is_zero es_n0_of narrow modcod_def fmt_id
                            (parse L zero_level is_zero es_n0_of narrow modcod_def parts)
                          ≡ 0))
                    ⊎ Best
                        (narrow (required fmt_id))
                        (parse L zero_level is_zero es_n0_of narrow modcod_def parts)
                        (get_nearest L zero_level is_zero es_n0_of narrow modcod_def fmt_id
                          (parse L zero_level is_zero es_n0_of narrow modcod_def parts)))))
  unfolding parse get_nearest
  get_nearest-Best parts fmt_id O S =
      let added = add_parts L zero_level is_zero es_n0_of narrow modcod_def parts [] in
      let before = less_demanding L zero_level is_zero es_n0_of narrow in
      let fs = stable_sort before added in
      let ordered = stable_sort-Ordered before (λ a b. S.greater_asym b.es_n0 a.es_n0) added in
      let found = nearest_from_end-Found O S (narrow (required fmt_id)) fs ordered in
      (
        stable_sort-Each before Known added (add_parts-Known parts [] tt),
        elim (Bool-cases (is_zero (required fmt_id))) [
          | inl z ↦ inl (z, rw z refl)
          | inr z ↦
              elim (Option-cases (
                nearest_from_end L zero_level is_zero es_n0_of narrow modcod_def
                  (narrow (required fmt_id)) fs)) [
                    | inl n ↦ inr (
                      z,
                      inl (subst (Found (narrow (required fmt_id)) fs) n found, rw (z, n) refl),
                    )
                    | inr (id, n) ↦
                        inr
                          (z, inr (rw (z, n) (subst (Found (narrow (required fmt_id)) fs) n found)))
                  ]
        ],
      )
