-- ===== src/Fmt/Modcod.antt =====
-- The format that suits the quality of a link: the most demanding of those that it supports.
use opensand.Prelude.{
  ℕ, ◌≤◌, ◌≡◌, refl, ap, true, false, List, [], ◌∷◌, ◌==◌, arith, All, Bool-cases, ◌⊎◌, inl, inr,
}
use opensand.Fmt.{Levels, best_modcod, get_required_modcod, get_min_id}

-- `>=` is a total preorder on the thresholds: none of them is a NaN.
pub record TotalOrder (L : Levels) : Type 0 where
  pub at_least_refl : (a : L.Level) → L.at_least a a ≡ true
  pub at_least_trans :
      (a b c : L.Level) → L.at_least a b ≡ true → L.at_least b c ≡ true → L.at_least a c ≡ true
  pub at_least_total : (a b : L.Level) → L.at_least a b ≡ false → L.at_least b a ≡ true

-- A property of some item.
abbrev pub Some : {A : Type 0} → (A → Type 0) → List A → Type 0
Some P [] = ⊥
Some P (x ∷ xs) = P x ⊎ Some P xs

module _ {D : Type 0} (L : Levels) (required_es_n0 : D → L.Level) (cni : L.Level) where
  abbrev pub Supported : ℕ × D → Type 0
  Supported (key, def) = L.greater (required_es_n0 def) cni ≡ false

  -- The key of a supported definition that demands at least as much as every other supported one.
  pub record Best (defs : List (ℕ × D)) (id : ℕ) : Type 0 where
    pub def : D
    pub listed : Some (λ e. e ≡ (id, def)) defs
    pub supported : Supported (id, def)
    pub greatest :
        All (λ e. Supported e → L.at_least (required_es_n0 def) (required_es_n0 e.1) ≡ true) defs

  module _ (O : TotalOrder L) where
    skip :
        (id : ℕ) (def : D) (e : ℕ × D) (defs : List (ℕ × D)) (m : ℕ)
        → (b : Best ((id, def) ∷ defs) m)
        → (Supported e → L.at_least (required_es_n0 b.def) (required_es_n0 e.1) ≡ true)
        → Best ((id, def) ∷ e ∷ defs) m
    skip id def e defs m b h = record {
      def = b.def;
      listed = elim b.listed [ inl p ↦ inl p | inr p ↦ inr (inr p) ];
      supported = b.supported;
      greatest = (b.greatest.0, (h, b.greatest.1));
    }

    take :
        (id : ℕ) (def : D) (e : ℕ × D) (defs : List (ℕ × D)) (m : ℕ)
        → (b : Best (e ∷ defs) m) → Supported e
        → L.at_least (required_es_n0 e.1) (required_es_n0 def) ≡ true
        → Best ((id, def) ∷ e ∷ defs) m
    take id def e defs m b s a = record {
      def = b.def;
      listed = inr b.listed;
      supported = b.supported;
      greatest = (
        λ _.
            O.at_least_trans (required_es_n0 b.def) (required_es_n0 e.1) (required_es_n0 def)
              (b.greatest.0 s) a,
        b.greatest,
      );
    }

    -- From a supported format on, the loop finds the best of the formats left and that one.
    best_modcod-Best :
        (id : ℕ) (def : D) (defs : List (ℕ × D))
        → Supported (id, def)
        → Best ((id, def) ∷ defs) (best_modcod L required_es_n0 cni (required_es_n0 def) id defs)
    unfolding best_modcod
    best_modcod-Best id def [] s = record {
      def = def;
      listed = inl refl;
      supported = s;
      greatest = (λ _. O.at_least_refl (required_es_n0 def), tt);
    }
    best_modcod-Best id def ((key, e) ∷ defs) s =
        let keep = best_modcod-Best id def defs s in
        elim (Bool-cases (L.greater (required_es_n0 e) cni)) [
          | inl g ↦ rw g (skip id def (key, e) defs _ keep (λ k. cc))
          | inr g ↦ elim (Bool-cases (L.at_least (required_es_n0 e) (required_es_n0 def))) [
            | inl a ↦ rw (g, a) (take id def (key, e) defs _ (best_modcod-Best key e defs g) g a)
            | inr a ↦
                rw (g, a)
                  (skip id def (key, e) defs _ keep
                    (λ k.
                      O.at_least_trans (required_es_n0 keep.def) (required_es_n0 def)
                        (required_es_n0 e) (keep.greatest.0 s)
                        (O.at_least_total (required_es_n0 e) (required_es_n0 def) a)))
          ]
        ]

    -- Where no threshold is below the first one's, no round changes the result.
    best_modcod-none :
        (prev : L.Level) (defs : List (ℕ × D))
        → All
            (λ e.
              L.at_least (required_es_n0 e.1) prev ≡ true
              → L.greater (required_es_n0 e.1) cni ≡ true)
            defs
        → best_modcod L required_es_n0 cni prev 0 defs ≡ 0
    unfolding best_modcod
    best_modcod-none prev [] h = refl
    best_modcod-none prev ((key, e) ∷ defs) h =
        elim (Bool-cases (L.greater (required_es_n0 e) cni)) [
          | inl g ↦ rw g (best_modcod-none prev defs h.1)
          | inr g ↦ elim (Bool-cases (L.at_least (required_es_n0 e) prev)) [
            | inl a ↦ (let g' = h.0 a in cc)
            | inr a ↦ rw (g, a) (best_modcod-none prev defs h.1)
          ]
        ]

    positive :
        (defs : List (ℕ × D)) (m : ℕ) (def : D)
        → All (λ e. 1 ≤ e.0) defs
        → Some (λ e. e ≡ (m, def)) defs
        → (m == 0) ≡ false
    positive [] m def h l = absurd l
    positive ((key, e) ∷ defs) m def h (inl p) =
        let one : 1 ≤ key = h.0 in let same : key ≡ m = ap (λ q. q.0) p in ground arith
    positive ((key, e) ∷ defs) m def h (inr l) = positive defs m def h.1 l

    -- Where the link supports the first format of the table, the id is that of a supported format, and
    -- none that is supported demands more. Where it supports neither the first format nor any format
    -- that demands as much, the id is the least one, whatever else the link supports.
    pub get_required_modcod-Best :
        (key : ℕ) (def : D) (defs : List (ℕ × D))
        → All (λ e. 1 ≤ e.0) ((key, def) ∷ defs)
        → (Supported (key, def)
            → Best
                ((key, def) ∷ defs)
                (get_required_modcod L required_es_n0 cni ((key, def) ∷ defs)))
          × (All
                (λ e.
                  L.at_least (required_es_n0 e.1) (required_es_n0 def) ≡ true
                  → L.greater (required_es_n0 e.1) cni ≡ true)
                ((key, def) ∷ defs)
              → get_required_modcod L required_es_n0 cni ((key, def) ∷ defs)
                ≡ get_min_id ((key, def) ∷ defs))
    unfolding get_required_modcod
    get_required_modcod-Best key def defs h = (
      λ s.
          let first : best_modcod L required_es_n0 cni (required_es_n0 def) 0 ((key, def) ∷ defs)
              ≡ best_modcod L required_es_n0 cni (required_es_n0 def) key defs =
            unfold best_modcod in rw (s, O.at_least_refl (required_es_n0 def)) refl in
          let b = best_modcod-Best key def defs s in
          rw (first, positive ((key, def) ∷ defs) _ b.def h b.listed) b,
      λ n. rw (best_modcod-none (required_es_n0 def) ((key, def) ∷ defs) n) refl,
    )
