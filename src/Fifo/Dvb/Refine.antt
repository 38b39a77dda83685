-- ===== src/Fifo/Dvb/Refine.antt =====
-- `DvbFifo` against the bounded deque.
use opensand.Prelude.{◌≡◌, refl, ap, List, [], ◌∷◌, arith}
use opensand.Fifo.Element.{Element}
use opensand.Fifo.Deque
use opensand.Fifo.Deque.{Op, Reply, Deque}
use opensand.Fifo.Dvb.{
  DvbFifo, Call, pushes, pushes_front, pushes_back, pops, sizes, lengths, ticks, flushes,
  resets_new, sets_cni, gets_stats, call, run, pop_from, front_tick,
}
use opensand.Fifo.Dvb.Inv.{Counted, call-Counted}

-- What a call is to a client that sees a deque.
abbrev pub view : Call → Op
view (pushes e) = Op.push e
view (pushes_front e) = Op.push_front e
view (pushes_back e) = Op.push_back e
view pops = Op.pop
view sizes = Op.size
view lengths = Op.data_length
view ticks = Op.tick_out
view flushes = Op.flush
view (resets_new cr_type) = Op.bookkeeping
view (sets_cni cni) = Op.bookkeeping
view gets_stats = Op.bookkeeping

abbrev pub views : List Call → List Op
views [] = []
views (c ∷ cs) = view c ∷ views cs

front_tick-first : (q : List Element) → front_tick q ≡ Deque.first_tick q
unfolding front_tick Deque.first_tick
front_tick-first [] = refl
front_tick-first (e ∷ es) = refl

pop_from-first : (q : List Element) (f : DvbFifo) → (pop_from q f).0 ≡ Deque.first q
unfolding pop_from Deque.first
pop_from-first [] f = refl
pop_from-first (e ∷ es) f = refl

pop_from-rest :
    (q : List Element) (f : DvbFifo) → f.queue ≡ q → (pop_from q f).1.queue ≡ Deque.rest q
unfolding pop_from Deque.rest
pop_from-rest [] f h = h
pop_from-rest (e ∷ es) f h = refl

max_size-pop_from :
    (q : List Element) (f : DvbFifo) → (pop_from q f).1.max_size_pkt ≡ f.max_size_pkt
unfolding pop_from
max_size-pop_from [] f = refl
max_size-pop_from (e ∷ es) f = refl

max_size-call : (f : DvbFifo) (c : Call) → (call f c).1.max_size_pkt ≡ f.max_size_pkt
unfolding call
max_size-call f (pushes e) = ground arith
max_size-call f (pushes_front e) = ground arith
max_size-call f (pushes_back e) = ground arith
max_size-call f pops = max_size-pop_from f.queue f
max_size-call f (resets_new cr_type) = ground arith
max_size-call f _ = refl

reply-call :
    (f : DvbFifo) (c : Call)
    → Counted f
    → (call f c).0 ≡ (Deque.step f.max_size_pkt f.queue (view c)).0
unfolding call Deque.step
reply-call f (pushes e) v = ground arith
reply-call f (pushes_front e) v = ground arith
reply-call f (pushes_back e) v = ground arith
reply-call f pops v = ap Reply.popped (pop_from-first f.queue f)
reply-call f sizes v = refl
reply-call f lengths v = ap Reply.value v.counted
reply-call f ticks v = ap Reply.value (front_tick-first f.queue)
reply-call f _ v = refl

queue-call :
    (f : DvbFifo) (c : Call) → (call f c).1.queue ≡ (Deque.step f.max_size_pkt f.queue (view c)).1
unfolding call Deque.step
queue-call f (pushes e) = ground arith
queue-call f (pushes_front e) = ground arith
queue-call f (pushes_back e) = ground arith
queue-call f pops = pop_from-rest f.queue f refl
queue-call f (resets_new cr_type) = ground arith
queue-call f _ = refl

-- From a state whose byte counter is right, every sequence of calls has the replies of the bounded
-- deque that holds the same packets, with sizes and byte counts read off the packets themselves.
pub run_refines :
    (f : DvbFifo) (cs : List Call)
    → Counted f
    → (run f cs).0 ≡ Deque.run f.max_size_pkt f.queue (views cs)
unfolding run Deque.run
run_refines f [] v = refl
run_refines f (c ∷ cs) v = rw (
  run_refines (call f c).1 cs (call-Counted f c v),
  queue-call f c,
  max_size-call f c,
  reply-call f c v,
)
