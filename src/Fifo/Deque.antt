-- ===== src/Fifo/Deque.antt =====
-- What the clients of a bounded packet queue rely on: a list of at most `cap` elements, and what
-- each call returns. It knows no counter; sizes and byte counts are read off the list.
use opensand.Prelude.{
  ℕ, Bool, Option, none, some, List, [], ◌∷◌, ◌++◌, ltb, length, if◌then◌else◌, u16, u32,
}
use opensand.Fifo.Element.{Element, bytes}

pub data Op : Type 0 where
  push push_front push_back : Element → Op
  pop size data_length tick_out flush : Op
  -- A call that reads or resets statistics only.
  bookkeeping : Op

pub data Reply : Type 0 where
  done : Reply
  pushed : Bool → Reply
  popped : Option Element → Reply
  value : ℕ → Reply

abbrev pub Deque : Type 0
Deque = List Element

unfoldable pub first : Deque → Option Element
first [] = none
first (e ∷ es) = some e

unfoldable pub rest : Deque → Deque
rest [] = []
rest (e ∷ es) = es

unfoldable pub first_tick : Deque → ℕ
first_tick [] = 0
first_tick (e ∷ es) = e.tick_out

module _ (cap : ℕ) where
  abbrev has_room : Deque → Bool
  has_room q = ltb (length q) cap

  unfoldable pub step : Deque → Op → Reply × Deque
  unfolding first rest first_tick
  step q (push e) = (pushed (has_room q), if has_room q then q ++ e ∷ [] else q)
  step q (push_front e) = (pushed (has_room q), if has_room q then e ∷ q else q)
  step q (push_back e) = (pushed (has_room q), if has_room q then q ++ e ∷ [] else q)
  step q pop = (popped (first q), rest q)
  step q size = (value (u16 (length q)), q)
  step q data_length = (value (u32 (bytes q)), q)
  step q tick_out = (value (first_tick q), q)
  step q flush = (done, [])
  step q bookkeeping = (done, q)

  unfoldable pub run : Deque → List Op → List Reply
  run q [] = []
  run q (op ∷ ops) = let (r, q') = step q op in r ∷ run q' ops
