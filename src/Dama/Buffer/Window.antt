-- ===== src/Dama/Buffer/Window.antt =====
-- The buffer as the list of its values, the newest first.
use opensand.Prelude.{
  ℕ, zero, suc, ◌+◌, ◌-◌, ◌%◌, ◌≤◌, ◌<◌, ◌≡◌, refl, sym, ◌∙◌, ap, ap₂, ◌⊎◌, List, [], ◌∷◌, some,
  true, arith, length, length-set, get_or, set, take, replicate, get_or-set_self, get_or-set_ne,
  if◌then◌else◌, ◌==◌, length-replicate,
}
use native.Mathlib.Decide.{dec_lt}
use native.Mathlib.Nat.{mod-eq_of_lt, mod_self, mod-lt}
use opensand.Dama.Buffer.{CircularBuffer, new_buffer, update, update_values, update_all}

-- The index before `i` in a ring.
abbrev pub older : ℕ → ℕ → ℕ
older size i = if i == 0 then size - 1 else i - 1

-- The `n` values from index `i` backwards.
abbrev pub back : List ℕ → ℕ → ℕ → ℕ → List ℕ
back values size i zero = []
back values size i (suc n) = get_or values i 0 ∷ back values size (older size i) n

-- The buffer holds `values`, and its sizes agree.
pub record Holds (b : CircularBuffer) (values : List ℕ) : Type 0 where
  pub held : b.values ≡ some values
  pub full_size : length values ≡ b.size
  pub index_in : b.index < b.size

abbrev pub window : CircularBuffer → List ℕ → List ℕ
window b values = back values b.size b.index b.size

length-back : (values : List ℕ) (size i n : ℕ) → length (back values size i n) ≡ n
length-back values size i zero = refl
length-back values size i (suc n) = ap suc (length-back values size (older size i) n)

-- Going back fewer than `size` steps from before `j` does not meet `j`.
back-set :
    (values : List ℕ) (size j v i n : ℕ)
    → i < size
    → j < size
    → ((i < j) × (n + j ≤ i + size)) ⊎ (n + j ≤ i)
    → back (set values j v) size i n ≡ back values size i n
back-set values size j v i zero hi hj far = refl
back-set values size j v i (suc n) hi hj far =
    ap₂ ◌∷◌ (get_or-set_ne values v 0 (λ e. omega arith))
      (back-set values size j v (older size i) n (ground arith) hj (ground arith))

-- Fewer steps back are the beginning of more.
pub take-back :
    (values : List ℕ) (size i n m : ℕ)
    → n ≤ m
    → take n (back values size i m) ≡ back values size i n
take-back values size i zero m h = refl
take-back values size i (suc n) zero h = absurd (omega arith)
take-back values size i (suc n) (suc m) h =
    ap (◌∷◌ (get_or values i 0)) (take-back values size (older size i) n m (omega arith))

older-next : (size i : ℕ) → i < size → older size ((i + 1) % size) ≡ i
older-next size i h = elim (dec_lt (i + 1) size) [
  | yes p ↦ ground (arith, mod-eq_of_lt {n = i + 1} {m = size} p)
  | no p ↦
      let e : i + 1 ≡ size = omega arith in
      let z : (i + 1) % size ≡ 0 = rw e (mod_self size) in ground arith
]

back-update :
    (values : List ℕ) (size i v : ℕ)
    → length values ≡ size
    → i < size
    → back (set values ((i + 1) % size) v) size ((i + 1) % size) size
      ≡ v ∷ take (size - 1) (back values size i size)
back-update values zero i v e h = absurd (omega arith)
back-update values (suc k) i v e h =
    let j = (i + 1) % suc k in
    let below : j < suc k = mod-lt (i + 1) (omega arith) in
    ap₂ ◌∷◌ (get_or-set_self values j v 0 (omega arith)) (
      back-set values (suc k) j v (older (suc k) j) k (ground arith) below (ground arith)
      ∙ ap (λ o. back values (suc k) o k) (older-next (suc k) i h)
      ∙ sym (take-back values (suc k) i k (suc k) (omega arith))
      ∙ ap (λ m. take m (back values (suc k) i (suc k))) (omega arith))

pub update-held :
    (b : CircularBuffer) (values : List ℕ) (v : ℕ)
    → b.values ≡ some values
    → update v b ≡ update_values v b values
unfolding update
update-held b values v h = rw h

update_values-Holds :
    (b : CircularBuffer) (values : List ℕ) (v : ℕ)
    → Holds b values
    → Holds (update_values v b values) (set values ((b.index + 1) % b.size) v)
unfolding update_values
update_values-Holds b values v h = record {
  held = refl;
  full_size = length-set values ((b.index + 1) % b.size) v ∙ h.full_size;
  index_in = mod-lt (b.index + 1) (omega arith);
}

update_values-window :
    (b : CircularBuffer) (values : List ℕ) (v : ℕ)
    → Holds b values
    → window (update_values v b values) (set values ((b.index + 1) % b.size) v)
      ≡ v ∷ take (b.size - 1) (window b values)
unfolding update_values
update_values-window b values v h = back-update values b.size b.index v h.full_size h.index_in

-- `update` keeps the sizes, and puts the value in front of the window, whose oldest value drops out.
pub update-window :
    (b : CircularBuffer) (values : List ℕ) (v : ℕ)
    → Holds b values
    → Holds (update v b) (set values ((b.index + 1) % b.size) v)
      × (window (update v b) (set values ((b.index + 1) % b.size) v)
          ≡ v ∷ take (b.size - 1) (window b values))
update-window b values v h =
    rw (update-held b values v h.held)
      (update_values-Holds b values v h, update_values-window b values v h)

pub new_buffer-Holds : (n : ℕ) → Holds (new_buffer true n) (replicate (new_buffer true n).size 0)
unfolding new_buffer
new_buffer-Holds n = record {
  held = refl;
  full_size = length-replicate (new_buffer true n).size 0;
  index_in = ground arith;
}

pub back-zero :
    (values : List ℕ) (size i n : ℕ)
    → ((k : ℕ) → get_or values k 0 ≡ 0)
    → back values size i n ≡ replicate n 0
back-zero values size i zero h = refl
back-zero values size i (suc n) h = ap₂ ◌∷◌ (h i) (back-zero values size (older size i) n h)

pub get_or-replicate : (n k : ℕ) → get_or {A = ℕ} (replicate n 0) k 0 ≡ 0
get_or-replicate zero k = refl
get_or-replicate (suc n) zero = refl
get_or-replicate (suc n) (suc k) = get_or-replicate n k

-- What the buffer stands for: the last updates, the newest first, before them zeros.
unfoldable pub recent : ℕ → List ℕ → List ℕ → List ℕ
recent size [] w = w
recent size (v ∷ vs) w = recent size vs (v ∷ take (size - 1) w)

pub size-update : (v : ℕ) (b : CircularBuffer) → (update v b).size ≡ b.size
unfolding update update_values
size-update v b = ground arith

pub window-update_all :
    (vs : List ℕ) (b : CircularBuffer) (values : List ℕ)
    → Holds b values
    → (values' : List ℕ) × Holds (update_all vs b) values'
      × (window (update_all vs b) values' ≡ recent b.size vs (window b values))
unfolding update_all recent
window-update_all [] b values h = (values, h, refl)
window-update_all (v ∷ vs) b values h =
    let (h', e) = update-window b values v h in
    let (values', k, e') =
      window-update_all vs (update v b) (set values ((b.index + 1) % b.size) v) h' in
    (values', k, e' ∙ rw (e, size-update v b))
