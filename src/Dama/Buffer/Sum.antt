-- ===== src/Dama/Buffer/Sum.antt =====
-- The running sum and the running minimum of the buffer, against the values that it holds.
use native.Mathlib.Decide.{dec_lt}
use native.Mathlib.Nat.{mod-eq_of_lt, mod_self}
use opensand.Prelude.{
  ℕ, zero, suc, ltb, ◌+◌, ◌-◌, ◌%◌, ◌≤◌, ◌<◌, ◌≡◌, refl, sym, ◌∙◌, ap, List, [], ◌∷◌, some, true,
  arith, get_or, set, take, replicate, sum, u16, add16, sub16, if◌then◌else◌, ◌==◌, min, Bool,
  Option-cases, inl, inr,
}
use opensand.Dama.Buffer.{
  CircularBuffer, new_buffer, update, update_values, update_all, get_sum, get_min, previous_value,
  scan_min, next_min,
}
use opensand.Dama.Buffer.Window.{
  older, back, back-zero, get_or-replicate, Holds, window, recent, take-back, update-window,
  new_buffer-Holds, size-update,
}

-- The index `n` steps back.
far_back : ℕ → ℕ → ℕ → ℕ
far_back size zero i = i
far_back size (suc n) i = far_back size n (older size i)

far_back_lem :
    (size n i : ℕ)
    → i < size
    → n ≤ size
    → far_back size n i ≡ (if ltb i n then i + size - n else i - n)
unfolding far_back
far_back_lem size zero i h k = ground arith
far_back_lem size (suc n) i h k = ground (arith, far_back_lem size n (older size i))

oldest : (k i : ℕ) → i < suc k → far_back (suc k) k i ≡ (i + 1) % suc k
oldest k i h = elim (dec_lt (i + 1) (suc k)) [
  | yes p ↦ ground (arith, far_back_lem (suc k) k i h, mod-eq_of_lt {n = i + 1} {m = suc k} p)
  | no p ↦
      let e : i + 1 ≡ suc k = omega arith in
      let z : (i + 1) % suc k ≡ 0 = rw e (mod_self (suc k)) in
      ground (arith, far_back_lem (suc k) k i h)
]

sum-back-suc :
    (values : List ℕ) (size i n : ℕ)
    → sum (back values size i (suc n))
      ≡ sum (back values size i n) + get_or values (far_back size n i) 0
unfolding sum far_back
sum-back-suc values size i zero = omega arith
sum-back-suc values size i (suc n) = omega (arith, sum-back-suc values size (older size i) n)

-- The window's sum is that of all but the oldest value, and the oldest value.
sum-window :
    (values : List ℕ) (size i : ℕ)
    → i < size
    → sum (back values size i size)
      ≡ sum (take (size - 1) (back values size i size)) + get_or values ((i + 1) % size) 0
sum-window values zero i h = absurd (omega arith)
sum-window values (suc k) i h =
    sum-back-suc values (suc k) i k
    ∙ ap (λ o. sum (back values (suc k) i k) + get_or values o 0) (oldest k i h)
    ∙ ap (λ w. sum w + get_or values ((i + 1) % suc k) 0)
        (sym (take-back values (suc k) i k (suc k) (omega arith))
          ∙ ap (λ m. take m (back values (suc k) i (suc k))) (omega arith))

-- The field `sum` is the sum of the window, as a 16-bit word.
abbrev pub Summed : CircularBuffer → List ℕ → Type 0
Summed b values = b.sum ≡ u16 (sum (window b values))

sum-cons : (v : ℕ) (w : List ℕ) → sum (v ∷ w) ≡ v + sum w
unfolding sum
sum-cons v w = refl

sum-update :
    (b : CircularBuffer) (values : List ℕ) (v : ℕ)
    → b.values ≡ some values
    → (update v b).sum ≡ add16 (sub16 b.sum (get_or values ((b.index + 1) % b.size) 0)) v
unfolding update update_values
sum-update b values v h = rw h

update-Summed :
    (b : CircularBuffer) (values : List ℕ) (v : ℕ)
    → Holds b values
    → Summed b values
    → Summed (update v b) (set values ((b.index + 1) % b.size) v)
update-Summed b values v h s = omega (
  arith,
  sum-update b values v h.held,
  ap sum (update-window b values v h).1,
  sum-cons v (take (b.size - 1) (window b values)),
  sum-window values b.size b.index h.index_in,
)

sum-replicate : (n : ℕ) → sum (replicate n 0) ≡ 0
unfolding sum
sum-replicate zero = refl
sum-replicate (suc n) = omega (arith, sum-replicate n)

-- The search for the minimum never leaves 0, from which it starts.
scan_min-zero :
    (rounds i index value : ℕ) (values : List ℕ) (least : ℕ)
    → least ≡ 0
    → scan_min rounds i index value values least ≡ 0
unfolding scan_min
scan_min-zero zero i index value values least h = h
scan_min-zero (suc n) i index value values least h =
    scan_min-zero n (i + 1) index value values _ (ground arith)

next_min-zero :
    (n index value : ℕ) (values : List ℕ) (least : ℕ)
    → least ≡ 0
    → next_min n index value values least ≡ 0
unfolding next_min
next_min-zero n index value values least h =
    ground (arith, scan_min-zero n 0 index value values 0 refl)

update-min_value : (v : ℕ) (b : CircularBuffer) → b.min_value ≡ 0 → (update v b).min_value ≡ 0
unfolding update update_values
update-min_value v b h = elim (Option-cases b.values) [
  | inl e ↦ rw e h
  | inr (values, e) ↦ rw e (
      next_min-zero (min (b.nbr_values + 1) b.size) ((b.index + 1) % b.size) v values b.min_value h)
]

run-Summed :
    (vs : List ℕ) (b : CircularBuffer) (values : List ℕ)
    → Holds b values
    → Summed b values
    → (values' : List ℕ) × Holds (update_all vs b) values'
      × Summed (update_all vs b) values'
      × (window (update_all vs b) values' ≡ recent b.size vs (window b values))
unfolding update_all recent
run-Summed [] b values h s = (values, h, s, refl)
run-Summed (v ∷ vs) b values h s =
    let (h', e) = update-window b values v h in
    let (values', k, s', e') =
      run-Summed vs (update v b) (set values ((b.index + 1) % b.size) v) h'
        (update-Summed b values v h s) in
    (values', k, s', e' ∙ rw (e, size-update v b))

run-min_value :
    (vs : List ℕ) (b : CircularBuffer) → b.min_value ≡ 0 → (update_all vs b).min_value ≡ 0
unfolding update_all
run-min_value [] b h = h
run-min_value (v ∷ vs) b h = run-min_value vs (update v b) (update-min_value v b h)

flag-update_all :
    (vs : List ℕ) (b : CircularBuffer)
    → (update_all vs b).save_only_last_value ≡ b.save_only_last_value
unfolding update_all update update_values
flag-update_all [] b = refl
flag-update_all (v ∷ vs) b = flag-update_all vs (update v b) ∙ ground arith

previous_value-window :
    (b : CircularBuffer) (values : List ℕ)
    → Holds b values
    → previous_value b ≡ get_or (window b values) 0 0
unfolding previous_value
previous_value-window b values h = rw h.held (head b.size (omega arith))
  where
    head : (n : ℕ) → 0 < n → get_or values b.index 0 ≡ get_or (back values b.size b.index n) 0 0
    head zero p = absurd (omega arith)
    head (suc n) p = refl

new_buffer-window :
    (n : ℕ)
    → window (new_buffer true n) (replicate (new_buffer true n).size 0)
      ≡ replicate (new_buffer true n).size 0
new_buffer-window n =
    let b = new_buffer true n in
    back-zero (replicate b.size 0) b.size b.index b.size (get_or-replicate b.size)

new_buffer-Summed : (n : ℕ) → Summed (new_buffer true n) (replicate (new_buffer true n).size 0)
new_buffer-Summed n =
    let k : ℕ = (new_buffer true n).size in
    let zero_sum : (new_buffer true n).sum ≡ 0 = unfold new_buffer in refl in
    omega (arith, zero_sum, ap sum (new_buffer-window n), sum-replicate k)

get_sum-new_buffer :
    (n : ℕ) (b : CircularBuffer)
    → b.save_only_last_value ≡ (new_buffer true n).save_only_last_value
    → get_sum b ≡ (if n == 0 then 0 else b.sum)
unfolding get_sum new_buffer
get_sum-new_buffer n b h = rw h

-- After any history of updates of a new buffer that could be allocated: its window is the list of
-- the last values, newest first, over the zeros that it began with; `GetPreviousValue` is the newest
-- of them; and `GetSum` is their sum as a 16-bit word, or 0 for a buffer built with size 0.
pub update_all-recent :
    (n : ℕ) (vs : List ℕ)
    → let b = update_all vs (new_buffer true n) in
      let size = (new_buffer true n).size in
      (values : List ℕ) × Holds b values
      × (window b values ≡ recent size vs (replicate size 0))
      × (previous_value b ≡ get_or (recent size vs (replicate size 0)) 0 0)
      × (get_sum b ≡ (if n == 0 then 0 else u16 (sum (recent size vs (replicate size 0)))))
update_all-recent n vs =
    let b = update_all vs (new_buffer true n) in
    let (values, h, s, e) =
      run-Summed vs (new_buffer true n) (replicate (new_buffer true n).size 0) (new_buffer-Holds n)
        (new_buffer-Summed n) in
    let e' = e ∙ ap (recent (new_buffer true n).size vs) (new_buffer-window n) in
    (
      values,
      h,
      e',
      previous_value-window b values h ∙ ap (λ w. get_or w 0 0) e',
      get_sum-new_buffer n b (flag-update_all vs (new_buffer true n))
          ∙ ap (λ t. if n == 0 then 0 else t) (s ∙ ap (λ w. u16 (sum w)) e'),
    )

-- `GetMin` returns 0 after every history of updates, whatever the values: the minimum starts at 0.
update_all-min :
    (allocated : Bool) (n : ℕ) (vs : List ℕ) → get_min (update_all vs (new_buffer allocated n)) ≡ 0
unfolding get_min
update_all-min allocated n vs =
    run-min_value vs (new_buffer allocated n) (unfold new_buffer in refl)
