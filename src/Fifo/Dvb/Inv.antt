-- ===== src/Fifo/Dvb/Inv.antt =====
-- The invariant of `DvbFifo`: its counters against the packets that it holds.
use opensand.Prelude.{
  ◌≤◌, ◌≡◌, refl, ◌≢◌, List, [], ◌∷◌, sym, ap, ◌∙◌, arith, length, length-append, u16, u32,
}
use opensand.Fifo.Element.{Element, bytes, bytes-nil, bytes-cons, bytes-snoc}
use opensand.Fifo.Dvb.{
  DvbFifo, push, push_front, push_back, pop_from, flush, Call, pushes, pushes_front, pushes_back,
  pops, flushes, resets_new, call, run,
}

-- The queue is within its limit, and the byte counter is the sum of the queued lengths.
pub record Counted (f : DvbFifo) : Type 0 where
  pub bounded : length f.queue ≤ f.max_size_pkt
  pub counted : f.cur_length_bytes ≡ u32 (bytes f.queue)

push-Counted : (e : Element) (f : DvbFifo) → Counted f → Counted (push e f).1
unfolding push
push-Counted e f v = ground (arith, length-append f.queue (e ∷ []), bytes-snoc f.queue e)

push_front-Counted : (e : Element) (f : DvbFifo) → Counted f → Counted (push_front e f).1
unfolding push_front
push_front-Counted e f v = ground (arith, bytes-cons e f.queue)

push_back-Counted : (e : Element) (f : DvbFifo) → Counted f → Counted (push_back e f).1
unfolding push_back
push_back-Counted e f v = ground (arith, length-append f.queue (e ∷ []), bytes-snoc f.queue e)

pop_from-Counted :
    (q : List Element) (f : DvbFifo) → f.queue ≡ q → Counted f → Counted (pop_from q f).1
unfolding pop_from
pop_from-Counted [] f h v = v
pop_from-Counted (e ∷ es) f h v = ground (arith, bytes-cons e es)

flush-Counted : (f : DvbFifo) → Counted f → Counted (flush f)
unfolding flush
flush-Counted f v = omega (arith, bytes-nil)

-- No call breaks the invariant.
pub call-Counted : (f : DvbFifo) (c : Call) → Counted f → Counted (call f c).1
unfolding call
call-Counted f (pushes e) v = push-Counted e f v
call-Counted f (pushes_front e) v = push_front-Counted e f v
call-Counted f (pushes_back e) v = push_back-Counted e f v
call-Counted f pops v = pop_from-Counted f.queue f refl v
call-Counted f flushes v = flush-Counted f v
call-Counted f (resets_new cr_type) v = ground arith
call-Counted f _ v = record { bounded = v.bounded; counted = v.counted }

-- After any sequence of calls, flushes included, the queue is within its limit and the byte counter
-- is the sum of the queued lengths modulo 2^32.
pub run-Counted : (f : DvbFifo) (cs : List Call) → Counted f → Counted (run f cs).1
unfolding run
run-Counted f [] v = v
run-Counted f (c ∷ cs) v = run-Counted (call f c).1 cs (call-Counted f c v)

-- The occupancy in the statistics context agrees with the queue.
record Reported (f : DvbFifo) : Type 0 where
  pub packets : f.stats.current_pkt_nbr ≡ u16 (length f.queue)
  pub lengths : f.stats.current_length_bytes ≡ u32 (bytes f.queue)

pop_from-Reported :
    (q : List Element) (f : DvbFifo) → f.queue ≡ q → Reported f → Reported (pop_from q f).1
unfolding pop_from
pop_from-Reported [] f h v = v
pop_from-Reported (e ∷ es) f h v = ground (arith, bytes-cons e es)

-- Every call but a flush keeps the reported occupancy right.
call-Reported : (f : DvbFifo) (c : Call) → c ≢ flushes → Reported f → Reported (call f c).1
unfolding call
call-Reported f (pushes e) h v = ground (arith, bytes-snoc f.queue e)
call-Reported f (pushes_front e) h v = ground (arith, bytes-cons e f.queue)
call-Reported f (pushes_back e) h v = ground (arith, bytes-snoc f.queue e)
call-Reported f pops h v = pop_from-Reported f.queue f refl v
call-Reported f flushes h v = absurd (h refl)
call-Reported f (resets_new cr_type) h v = ground arith
call-Reported f _ h v = record { packets = v.packets; lengths = v.lengths }

-- `flush` empties the queue and keeps the reported occupancy: a queue that held bytes is reported
-- wrongly afterwards, and the byte count of the report stays off by what was flushed.
flush-stale :
    (f : DvbFifo)
    → Reported f
    → ((flush f).queue ≡ [])
      × ((flush f).stats.current_length_bytes ≡ u32 (bytes f.queue))
      × (u32 (bytes f.queue) ≢ 0 → ¬ Reported (flush f))
unfolding flush
flush-stale f v = (refl, v.lengths, λ h r. h (sym v.lengths ∙ r.lengths ∙ ap u32 bytes-nil))
