-- ===== src/Fifo/Delay/Order.antt =====
-- `DelayFifo.push` against insertion in order.
use opensand.Prelude.{
  ℕ, suc, ◌≤◌, ◌<◌, ◌≡◌, refl, ap, inl, inr, List, [], ◌∷◌, some, true, false, arith, ltb, length,
  insert_at, length-insert_at, if◌then◌else◌, Bool-cases,
}
use opensand.Fifo.Element.{Element}
use opensand.Fifo.Delay.{DelayFifo, push}
use opensand.Fifo.Delay.Search.{SortedFrom, rank, tick_out_position-found, tick_out_position-rank}

-- Insertion behind the elements that are due no later.
pub insort : Element → List Element → List Element
insort e [] = e ∷ []
insort e (x ∷ es) = if ltb e.tick_out x.tick_out then e ∷ x ∷ es else x ∷ insort e es

insert_at-rank : (e : Element) (q : List Element) → insert_at (rank e.tick_out q) e q ≡ insort e q
unfolding rank insort
insert_at-rank e [] = refl
insert_at-rank e (x ∷ es) = elim (Bool-cases (ltb e.tick_out x.tick_out)) [
  | inl h ↦ rw h
  | inr h ↦ rw h (ap (◌∷◌ x) (insert_at-rank e es))
]

insort-SortedFrom :
    (low : ℕ) (e : Element) (q : List Element)
    → low ≤ e.tick_out
    → SortedFrom low q
    → SortedFrom low (insort e q)
unfolding insort
insort-SortedFrom low e [] h s = (h, tt)
insort-SortedFrom low e (x ∷ es) h s = elim (Bool-cases (ltb e.tick_out x.tick_out)) [
  | inl k ↦ rw k (h, (ground arith, s.1))
  | inr k ↦ rw k (s.0, insort-SortedFrom x.tick_out e es (ground arith) s.1)
]

-- With room, `push` on a queue in order is the stable insertion by tick, and the queue stays in
-- order; without room it refuses and changes nothing.
pub push-insort :
    (e : Element) (f : DelayFifo)
    → SortedFrom 0 f.queue
    → (length f.queue < f.max_size_pkt
        → (push e f ≡ some (true, record f { queue = insort e f.queue }))
          × SortedFrom 0 (insort e f.queue))
      × (f.max_size_pkt ≤ length f.queue → push e f ≡ some (false, f))
unfolding push
push-insort e f o = (
  λ h. (
    ground (arith, tick_out_position-rank f.queue e.tick_out o, insert_at-rank e f.queue),
    insort-SortedFrom 0 e f.queue (omega arith) o,
  ),
  λ h. ground arith,
)

-- Also on a queue out of order, `push` throws no exception, reports success exactly when there is
-- room, and then the queue holds one element more.
pub push_total :
    (e : Element) (f : DelayFifo)
    → (g : DelayFifo) × (push e f ≡ some (ltb (length f.queue) f.max_size_pkt, g))
      × (length g.queue
          ≡ (if ltb (length f.queue) f.max_size_pkt then suc (length f.queue) else length f.queue))
unfolding push
push_total e f =
    let (p, at, low) = tick_out_position-found f.queue e.tick_out in
    elim (Bool-cases (ltb (length f.queue) f.max_size_pkt)) [
      | inl room ↦ (
        record f { queue = insert_at p e f.queue },
        ground arith,
        rw room (length-insert_at p e f.queue),
      )
      | inr full ↦ (f, ground arith, rw full refl)
    ]
