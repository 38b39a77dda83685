-- ===== src/Dama/Buffer.antt =====
-- opensand-core/src/dvb/dama/CircularBuffer.cpp: the last values of a rate. A rate is a 16-bit word,
-- a size or an index a 64-bit one. `values` is `none` where the allocation failed.
pub mod Window
pub mod Sum
pub mod Indexed
mod Tests
use opensand.Prelude.{
  ℕ, zero, suc, ◌+◌, ◌-◌, ◌/◌, ◌%◌, Bool, true, false, Option, none, some, List, [], ◌∷◌, ltb, leb,
  ◌==◌, get_or, set, replicate, if◌then◌else◌, u16, add16, sub16, u64_mod, min,
}

pub record CircularBuffer : Type 0 where
  pub save_only_last_value : Bool
  pub size : ℕ
  pub index : ℕ
  pub nbr_values : ℕ
  pub sum : ℕ
  pub min_value : ℕ
  pub values : Option (List ℕ)

-- The constructor. `allocated` tells whether `calloc` succeeds.
pub new_buffer : Bool → ℕ → CircularBuffer
new_buffer allocated buffer_size =
    let size = if buffer_size == 0 then 1 else buffer_size in
    record {
      save_only_last_value = buffer_size == 0;
      size = size;
      index = size - 1;
      nbr_values = 0;
      sum = 0;
      min_value = 0;
      values = if allocated then some (replicate size 0) else none;
    }

-- The search for a new minimum: `rounds` are left, at index `i`. It starts from `least`, which is 0.
unfoldable pub scan_min : ℕ → ℕ → ℕ → ℕ → List ℕ → ℕ → ℕ
scan_min zero i index value values least = least
scan_min (suc rounds) i index value values least =
    scan_min rounds (i + 1) index value values
      (if i == index then min least value else min least (get_or values i 0))

next_min : ℕ → ℕ → ℕ → List ℕ → ℕ → ℕ
unfolding scan_min
next_min nbr_values index value values min_value =
    if leb value min_value
    then value
    else if get_or values index 0 == min_value
    then scan_min nbr_values 0 index value values 0
    else min_value

pub update_values : ℕ → CircularBuffer → List ℕ → CircularBuffer
unfolding next_min
update_values value b values =
    let nbr_values = min (b.nbr_values + 1) b.size in
    let index = (b.index + 1) % b.size in
    record b {
      nbr_values = nbr_values;
      index = index;
      sum = add16 (sub16 b.sum (get_or values index 0)) value;
      min_value = next_min nbr_values index value values b.min_value;
      values = some (set values index value);
    }

-- `Update`
unfoldable pub update : ℕ → CircularBuffer → CircularBuffer
unfolding update_values
update value b = elim b.values [ none ↦ b | some values ↦ update_values value b values ]

at : Option (List ℕ) → ℕ → ℕ
at none i = 0
at (some values) i = get_or values i 0

-- `GetLastValue`
unfoldable pub last_value : CircularBuffer → ℕ
unfolding at
last_value b = at b.values ((b.index + 1) % b.size)

-- `GetPreviousValue`
unfoldable pub previous_value : CircularBuffer → ℕ
unfolding at
previous_value b = at b.values b.index

-- `GetMean`. `none` is the division by zero.
unfoldable pub mean : CircularBuffer → Option ℕ
mean b = if b.nbr_values == 0 then none else some (u16 (b.sum / b.nbr_values))

-- `GetMin`
unfoldable pub get_min : CircularBuffer → ℕ
get_min b = b.min_value

-- `GetSum`
unfoldable pub get_sum : CircularBuffer → ℕ
get_sum b = if b.save_only_last_value then 0 else b.sum

-- The `int` -k where it meets a `size_t`: it is converted to 64 bits.
abbrev pub minus : ℕ → ℕ
minus k = (u64_mod - k) % u64_mod

-- `GetValueIndex`, at an `int` that is given by its conversion.
unfoldable pub value_index : ℕ → CircularBuffer → ℕ
unfolding at
value_index i b = at b.values ((i + b.index) % u64_mod % b.size)

-- The loop of `GetPartialSumFromPrevious` from `i`, with the rounds left.
sum_back : ℕ → ℕ → ℕ → CircularBuffer → ℕ
unfolding value_index
sum_back zero i partial b = partial
sum_back (suc rounds) i partial b =
    sum_back rounds (i + 1) (add16 partial (value_index (minus i) b)) b

unfoldable pub partial_sum : ℕ → CircularBuffer → ℕ
unfolding sum_back at
partial_sum value_number b = elim b.values [ none ↦ 0 | some values ↦ sum_back value_number 0 0 b ]

-- A history of updates, the oldest first.
unfoldable pub update_all : List ℕ → CircularBuffer → CircularBuffer
unfolding update
update_all [] b = b
update_all (v ∷ vs) b = update_all vs (update v b)
