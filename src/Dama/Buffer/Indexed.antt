-- ===== src/Dama/Buffer/Indexed.antt =====
-- Reads relative to the newest value: `GetValueIndex` at a negative `int`.
use native.Mathlib.Nat.{
  div-add-mod, mod-eq_of_lt, mod-eq-sub-mod, mod-lt, zero-add, mul-add-mod_self_left,
}
use native.Mathlib.Decide.{dec_lt}
use opensand.Prelude.{
  ℕ, zero, suc, ◌+◌, ◌-◌, ◌*◌, ◌/◌, ◌%◌, ◌≤◌, ◌<◌, ◌≡◌, ◌≢◌, sym, ◌∙◌, ap, ◌⊎◌, inl, inr, List,
  arith, get_or, u64_mod, ltb, if◌then◌else◌,
}
use opensand.Dama.Buffer.{CircularBuffer, value_index, minus}
use opensand.Dama.Buffer.Window.{older, back, Holds, window}

-- The place `k` steps back from `i`.
abbrev pub place : ℕ → ℕ → ℕ → ℕ
place size k i = if ltb i k then i + size - k else i - k

place-older :
    (size k i : ℕ) → i < size → suc k < size → place size k (older size i) ≡ place size (suc k) i
place-older size k i h p = ground arith

get_or-back :
    (values : List ℕ) (size n k i : ℕ)
    → i < size
    → k < n
    → n ≤ size
    → get_or (back values size i n) k 0 ≡ get_or values (place size k i) 0
get_or-back values size zero k i h p q = absurd (omega arith)
get_or-back values size (suc n) zero i h p q = ap (λ j. get_or values j 0) (ground arith)
get_or-back values size (suc n) (suc k) i h p q =
    get_or-back values size n k (older size i) (ground arith) (omega arith) (omega arith)
    ∙ ap (λ j. get_or values j 0) (place-older size k i h (omega arith))

-- Where the step back stays above the start of the array, the conversion to 64 bits does no harm.
index-near :
    (size i k : ℕ) → i < size → size < u64_mod → k ≤ i → (minus k + i) % u64_mod % size ≡ i - k
index-near size i k h s p =
    let e : (minus k + i) % u64_mod ≡ i - k = omega arith in
    rw e (mod-eq_of_lt {n = i - k} {m = size} (omega arith))

regroup :
    (x size q r i k : ℕ)
    → x ≡ size * q + r
    → 0 < q
    → i < k
    → k < size
    → x - (k - i) ≡ size * (q - 1) + (r + (i + size - k))
regroup x size zero r i k e h p s = absurd (omega arith)
regroup x size (suc q) r i k e h p s = omega (arith, ap (λ t. size * t) (suc-sub-one q))
  where
    suc-sub-one : (n : ℕ) → suc n - 1 ≡ n
    suc-sub-one n = omega arith

-- Where it wraps, the index is off by the remainder of 2^64.
index-far :
    (size i k : ℕ)
    → i < k
    → k < size
    → size < u64_mod
    → (minus k + i) % u64_mod % size ≡ (u64_mod % size + (i + size - k)) % size
index-far size i k h p s =
    let e : (minus k + i) % u64_mod ≡ u64_mod - (k - i) = omega arith in
    let r : ℕ = u64_mod % size + (i + size - k) in
    let e' : u64_mod - (k - i) ≡ size * (u64_mod / size - 1) + r =
      regroup u64_mod size (u64_mod / size) (u64_mod % size) i k (sym (div-add-mod u64_mod size))
        (grind arith) h p in
    rw (e, e') (mul-add-mod_self_left size (u64_mod / size - 1) r)

value_index-near :
    (b : CircularBuffer) (values : List ℕ) (k : ℕ)
    → Holds b values
    → b.size < u64_mod
    → k < b.size
    → k ≤ b.index
    → value_index (minus k) b ≡ get_or (window b values) k 0
unfolding value_index
value_index-near b values k h s p near =
    rw (h.held, index-near b.size b.index k h.index_in s near)
      (ap (λ j. get_or values j 0) (ground arith)
        ∙ sym (get_or-back values b.size b.size k b.index h.index_in p (omega arith)))

-- `GetValueIndex(-k)` is the value `k` updates before the newest, for every `k` of the buffer, if the
-- size divides 2^64 or the array does not have to be left at its start.
value_index-window :
    (b : CircularBuffer) (values : List ℕ) (k : ℕ)
    → Holds b values
    → b.size < u64_mod
    → k < b.size
    → (k ≤ b.index) ⊎ (u64_mod % b.size ≡ 0)
    → value_index (minus k) b ≡ get_or (window b values) k 0
unfolding value_index
value_index-window b values k h s p (inl near) = value_index-near b values k h s p near
value_index-window b values k h s p (inr divides) = elim (dec_lt b.index k) [
  | no near ↦ value_index-near b values k h s p (omega arith)
  | yes far ↦
      let c : ℕ = b.index + b.size - k in
      let e : (u64_mod % b.size + c) % b.size ≡ c =
        rw divides
          (ap (λ t. t % b.size) (zero-add c) ∙ mod-eq_of_lt {n = c} {m = b.size} (omega arith)) in
      rw (h.held, index-far b.size b.index k far p s, e)
        (ap (λ j. get_or values j 0) (ground arith)
          ∙ sym (get_or-back values b.size b.size k b.index h.index_in p (omega arith)))
]

shifted_ne : (size r c : ℕ) → 0 < r → r < size → c < size → (r + c) % size ≢ c
shifted_ne size r c h k l = elim (dec_lt (r + c) size) [
  | yes p ↦ λ e. omega (arith, mod-eq_of_lt {n = r + c} {m = size} p)
  | no p ↦ λ e. omega (
    arith,
    mod-eq-sub-mod {n = r + c} {m = size} (omega arith),
    mod-eq_of_lt {n = r + c - size} {m = size} (omega arith),
  )
]

-- If the size does not divide 2^64, `GetValueIndex(-k)` reads another place than that of the value
-- `k` updates before the newest, for every `k` that leaves the array at its start.
value_index_off :
    (b : CircularBuffer) (values : List ℕ) (k : ℕ)
    → Holds b values
    → b.size < u64_mod
    → k < b.size
    → b.index < k
    → u64_mod % b.size ≢ 0
    → (j : ℕ) × (value_index (minus k) b ≡ get_or values j 0)
      × (get_or (window b values) k 0 ≡ get_or values (place b.size k b.index) 0)
      × (j ≢ place b.size k b.index)
unfolding value_index
value_index_off b values k h s p far off =
    let c : ℕ = b.index + b.size - k in
    let r : ℕ = u64_mod % b.size in
    (
      (r + c) % b.size,
      rw (h.held, index-far b.size b.index k far p s),
      get_or-back values b.size b.size k b.index h.index_in p (omega arith),
      λ e.
          shifted_ne b.size r c (omega arith) (mod-lt u64_mod (omega arith)) (omega arith)
            (e ∙ ground arith),
    )
