-- ===== src/Fifo/Delay/Tests.antt =====
-- Runs of `DelayFifo` at concrete inputs, and the instances of its theorems.
use opensand.Prelude.{ℕ, ◌<◌, ◌≤◌, ◌≡◌, refl, true, false, some, [], ◌∷◌, arith, length}
use opensand.Fifo.Element.{Element}
use opensand.Fifo.Delay.{DelayFifo, found, tick_out_position, push}
use opensand.Fifo.Delay.Search.{SortedFrom, rank, tick_out_position-rank}
use opensand.Fifo.Delay.Order.{insort, push-insort, push_total}

abbrev due : ℕ → Element
due t = record { ident = t; total_length = 1; tick_in = 0; tick_out = t }

abbrev waiting : DelayFifo
waiting = record { queue = due 10 ∷ due 20 ∷ due 20 ∷ due 40 ∷ []; max_size_pkt = 8 }

abbrev unordered : DelayFifo
unordered = record { queue = due 30 ∷ due 5 ∷ due 20 ∷ []; max_size_pkt = 3 }

behind_equal_ticks : tick_out_position waiting.queue 20 ≡ found 3
unfolding tick_out_position
behind_equal_ticks = refl

tick_out_position-rank_example : tick_out_position waiting.queue 25 ≡ found (rank 25 waiting.queue)
tick_out_position-rank_example = tick_out_position-rank waiting.queue 25 (omega arith)

push-insort_example :
    (length waiting.queue < 8
      → (push (due 20) waiting
          ≡ some (true, record waiting { queue = insort (due 20) waiting.queue }))
        × SortedFrom 0 (insort (due 20) waiting.queue))
    × (8 ≤ length waiting.queue → push (due 20) waiting ≡ some (false, waiting))
push-insort_example = push-insort (due 20) waiting (omega arith)

push_total_example :
    (g : DelayFifo) × (push (due 7) unordered ≡ some (false, g)) × (length g.queue ≡ 3)
push_total_example = push_total (due 7) unordered
