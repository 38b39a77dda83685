-- ===== src/Fifo/Delay/Search.antt =====
-- The binary search of `DelayFifo`, against the place of a tick.
use opensand.Prelude.{
  ℕ, zero, suc, ◌+◌, ◌/◌, ◌≤◌, ◌<◌, ◌≡◌, refl, inl, inr, List, [], ◌∷◌, some, arith, ltb, length,
  get_elem?, if◌then◌else◌, ltb_of_le, Bool-cases,
}
use opensand.Fifo.Element.{Element}
use opensand.Fifo.Delay.{found, settle, search, tick_out_position}

-- Ascending ticks, none below `low`.
abbrev pub SortedFrom : ℕ → List Element → Type 0
SortedFrom low [] = Unit {0}
SortedFrom low (e ∷ es) = (low ≤ e.tick_out) × SortedFrom e.tick_out es

-- How many elements come before the first one with a later tick.
unfoldable pub rank : ℕ → List Element → ℕ
rank t [] = 0
rank t (e ∷ es) = if ltb t e.tick_out then 0 else suc (rank t es)

get_elem?-some :
    (q : List Element) (i : ℕ) → i < length q → (e : Element) × (get_elem? q i ≡ some e)
get_elem?-some [] i h = absurd (omega arith)
get_elem?-some (e ∷ es) zero h = (e, refl)
get_elem?-some (e ∷ es) (suc i) h = get_elem?-some es i (omega arith)

pub rank-le-length : (t : ℕ) (q : List Element) → rank t q ≤ length q
unfolding rank
rank-le-length t [] = omega arith
rank-le-length t (e ∷ es) = ground (arith, rank-le-length t es)

-- A later tick stands at the rank or behind it.
rank_le_of_later :
    (t : ℕ) (q : List Element) (i : ℕ) (e : Element)
    → get_elem? q i ≡ some e
    → t < e.tick_out
    → rank t q ≤ i
unfolding rank
rank_le_of_later t [] i e g h = cc
rank_le_of_later t (x ∷ es) zero e g h = ground arith
rank_le_of_later t (x ∷ es) (suc i) e g h = ground (arith, rank_le_of_later t es i e g h)

low-le-get :
    (low : ℕ) (q : List Element) (i : ℕ) (e : Element)
    → SortedFrom low q
    → get_elem? q i ≡ some e
    → low ≤ e.tick_out
low-le-get low [] i e s g = cc
low-le-get low (x ∷ es) zero e s g = ground arith
low-le-get low (x ∷ es) (suc i) e s g = omega (arith, low-le-get x.tick_out es i e s.1 g)

-- An element that is due comes before the rank.
rank_gt_of_due :
    (low : ℕ) (t : ℕ) (q : List Element) (i : ℕ) (e : Element)
    → SortedFrom low q
    → get_elem? q i ≡ some e
    → e.tick_out ≤ t
    → i < rank t q
unfolding rank
rank_gt_of_due low t [] i e s g h = cc
rank_gt_of_due low t (x ∷ es) zero e s g h = ground arith
rank_gt_of_due low t (x ∷ es) (suc i) e s g h =
    ground (arith, rank_gt_of_due x.tick_out t es i e s.1 g h, low-le-get x.tick_out es i e s.1 g)

settle-found :
    (q : List Element) (t s l : ℕ)
    → s ≤ l
    → l ≤ s
    → l < length q
    → (p : ℕ) × (settle q t s l ≡ found p) × (p ≤ length q)
unfolding settle
settle-found q t s l h k b =
    let (e, g) = get_elem?-some q s (omega arith) in
    elim (Bool-cases (ltb t e.tick_out)) [
      | inl later ↦ (s, ground arith, omega arith)
      | inr due ↦ (s + 1, ground arith, omega arith)
    ]

-- With fuel for its rounds the search returns a position of the queue.
search-found :
    (q : List Element) (t fuel s l : ℕ)
    → s ≤ l
    → l < length q
    → l ≤ s + fuel
    → (p : ℕ) × (search q t fuel s l ≡ found p) × (p ≤ length q)
unfolding search
search-found q t zero s l h b f =
    rw (ltb_of_le s l (omega arith)) (settle-found q t s l h (omega arith) b)
search-found q t (suc fuel) s l h b f = elim (Bool-cases (ltb s l)) [
  | inr stop ↦ rw stop (settle-found q t s l h (ground arith) b)
  | inl go ↦
      let (e, g) = get_elem?-some q ((l + s) / 2) (ground arith) in
      elim (Bool-cases (ltb t e.tick_out)) [
        | inl later ↦
            rw (go, g, later)
              (search-found q t fuel s ((l + s) / 2) (ground arith) (ground arith) (ground arith))
        | inr due ↦
            rw (go, g, due)
              (search-found q t fuel ((l + s) / 2 + 1) l (ground arith) b (ground arith))
      ]
]

settle-rank :
    (q : List Element) (t s l : ℕ)
    → SortedFrom 0 q
    → s ≤ l
    → l ≤ s
    → l < length q
    → s ≤ rank t q
    → rank t q ≤ l + 1
    → settle q t s l ≡ found (rank t q)
unfolding settle
settle-rank q t s l o h k b lo hi =
    let (e, g) = get_elem?-some q s (omega arith) in
    ground (arith, rank_le_of_later t q s e g, rank_gt_of_due 0 t q s e o g)

-- On a sorted queue it returns the rank.
search-rank :
    (q : List Element) (t fuel s l : ℕ)
    → SortedFrom 0 q
    → s ≤ l
    → l < length q
    → l ≤ s + fuel
    → s ≤ rank t q
    → rank t q ≤ l + 1
    → search q t fuel s l ≡ found (rank t q)
unfolding search
search-rank q t zero s l o h b f lo hi =
    rw (ltb_of_le s l (omega arith)) (settle-rank q t s l o h (omega arith) b lo hi)
search-rank q t (suc fuel) s l o h b f lo hi = elim (Bool-cases (ltb s l)) [
  | inr stop ↦ rw stop (settle-rank q t s l o h (ground arith) b lo hi)
  | inl go ↦
      let (e, g) = get_elem?-some q ((l + s) / 2) (ground arith) in
      elim (Bool-cases (ltb t e.tick_out)) [
        | inl later ↦
            rw (go, g, later)
              (search-rank q t fuel s ((l + s) / 2) o (ground arith) (ground arith) (ground arith)
                lo (ground (arith, rank_le_of_later t q ((l + s) / 2) e g)))
        | inr due ↦
            rw (go, g, due)
              (search-rank q t fuel ((l + s) / 2 + 1) l o (ground arith) b (ground arith)
                (ground (arith, rank_gt_of_due 0 t q ((l + s) / 2) e o g)) hi)
      ]
]

-- Whatever the queue holds, the search ends at a position of it: no read is out of range, and the
-- result is not -1.
pub tick_out_position-found :
    (q : List Element) (t : ℕ) → (p : ℕ) × (tick_out_position q t ≡ found p) × (p ≤ length q)
unfolding tick_out_position
tick_out_position-found [] t = (0, refl, omega arith)
tick_out_position-found (e ∷ es) t =
    search-found (e ∷ es) t (length es) 0 (length es) (omega arith) (omega arith) (omega arith)

-- On a queue in the order of its ticks, the search finds the place behind every element that is due
-- no later, and before every later one.
pub tick_out_position-rank :
    (q : List Element) (t : ℕ) → SortedFrom 0 q → tick_out_position q t ≡ found (rank t q)
unfolding tick_out_position
tick_out_position-rank [] t o = unfold rank in refl
tick_out_position-rank (e ∷ es) t o =
    search-rank (e ∷ es) t (length es) 0 (length es) o (omega arith) (omega arith) (omega arith)
      (omega arith) (omega (arith, rank-le-length t (e ∷ es)))
