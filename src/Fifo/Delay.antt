-- ===== src/Fifo/Delay.antt =====
-- opensand-core/src/common/DelayFifo.cpp: the queue that holds packets until their tick. It is kept
-- in the order of the ticks by a binary search. The mutex is held for the whole of each operation.
pub mod Search
pub mod Order
mod Tests
use opensand.Prelude.{
  ℕ, zero, suc, ◌+◌, ◌-◌, ◌/◌, Bool, true, false, Option, none, some, List, [], ◌∷◌, ◌++◌, ltb, leb,
  length, get_elem?, insert_at, if◌then◌else◌, u16, ◌==◌,
}
use opensand.Fifo.Element.{Element}

pub record DelayFifo : Type 0 where
  pub queue : List Element
  pub max_size_pkt : ℕ

pub new_delay_fifo : ℕ → DelayFifo
new_delay_fifo max_size_pkt = record { queue = []; max_size_pkt = max_size_pkt }

pub current_size : DelayFifo → ℕ
current_size f = u16 (length f.queue)

pub set_max_size : ℕ → DelayFifo → Bool × DelayFifo
set_max_size size f =
    if ltb size (length f.queue) then (false, f) else (true, record f { max_size_pkt = size })

-- What `getTickOutPosition` returns: a position, -1, or the exception of a read out of range. The
-- exception also stands for a search that does not end.
pub data Position : Type 0 where
  found : ℕ → Position
  missing fault : Position

-- The tests after the loop, at its last `start` and `end`.
pub settle : List Element → ℕ → ℕ → ℕ → Position
settle q time_out start last =
    if last == start
    then elim (get_elem? q start) [
      | none ↦ fault
      | some e ↦ if ltb time_out e.tick_out then found start else found (start + 1)
    ]
    else missing

-- `while(end > start)`, with fuel for its rounds.
pub search : List Element → ℕ → ℕ → ℕ → ℕ → Position
unfolding settle
search q time_out zero start last = if ltb start last then fault else settle q time_out start last
search q time_out (suc fuel) start last =
    let test = (last + start) / 2 in
    let lower = search q time_out fuel start test in
    let upper = search q time_out fuel (test + 1) last in
    if ltb start last
    then elim (get_elem? q test) [
      | none ↦ fault
      | some e ↦ if ltb time_out e.tick_out then lower else upper
    ]
    else settle q time_out start last

-- `end` begins at -1 on the empty queue, where the loop does not run and the position is 0.
pub tick_out_position : List Element → ℕ → Position
unfolding search
tick_out_position [] time_out = found 0
tick_out_position (e ∷ es) time_out = search (e ∷ es) time_out (length es) 0 (length es)

place : Element → List Element → Position → Option (List Element)
place e q (found pos) = some (insert_at pos e q)
place e q missing = some q
place e q fault = none

-- `none` is the exception. The Boolean is the result.
pub push : Element → DelayFifo → Option (Bool × DelayFifo)
unfolding tick_out_position place
push e f =
    if leb f.max_size_pkt (length f.queue)
    then some (false, f)
    else elim (place e f.queue (tick_out_position f.queue e.tick_out)) [
      | none ↦ none
      | some q ↦ some (true, record f { queue = q })
    ]

pub push_front : Element → DelayFifo → Bool × DelayFifo
push_front e f =
    if ltb (length f.queue) f.max_size_pkt
    then (true, record f { queue = e ∷ f.queue })
    else (false, f)

pub push_back : Element → DelayFifo → Bool × DelayFifo
push_back e f =
    if ltb (length f.queue) f.max_size_pkt
    then (true, record f { queue = f.queue ++ e ∷ [] })
    else (false, f)

pop_from : List Element → DelayFifo → Option Element × DelayFifo
pop_from [] f = (none, f)
pop_from (e ∷ es) f = (some e, record f { queue = es })

pub pop : DelayFifo → Option Element × DelayFifo
unfolding pop_from
pop f = pop_from f.queue f

front_tick : List Element → ℕ
front_tick [] = 0
front_tick (e ∷ es) = e.tick_out

pub get_tick_out : DelayFifo → ℕ
unfolding front_tick
get_tick_out f = front_tick f.queue

pub flush : DelayFifo → DelayFifo
flush f = record f { queue = [] }
