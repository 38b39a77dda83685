-- ===== src/Fifo/Dvb/Tests.antt =====
-- Runs of `DvbFifo` at concrete inputs, and the instances of its theorems.
use opensand.Prelude.{ℕ, ◌≡◌, refl, true, false, some, List, [], ◌∷◌, arith}
use opensand.Access.{forward, return, acm, dama_rbdc, unknown}
use opensand.Fifo.Element.{Element, bytes}
use opensand.Fifo.Deque
use opensand.Fifo.Deque.{Reply}
use opensand.Fifo.Dvb.{
  DvbFifo, no_stats, access_of_name, new_carrier_fifo, Call, pushes, pops, lengths, call, run,
}
use opensand.Fifo.Dvb.Inv.{Counted, run-Counted}
use opensand.Fifo.Dvb.Refine.{run_refines, views}
use opensand.Fifo.Dvb.Flow.{Balanced, run-Balanced}

abbrev packet : ℕ → ℕ → Element
packet ident len = record { ident = ident; total_length = len; tick_in = 0; tick_out = 0 }

abbrev fresh : DvbFifo
fresh = record {
  queue = [];
  fifo_priority = 0;
  access_type = unknown;
  vcm_id = 0;
  new_size_pkt = 0;
  cur_length_bytes = 0;
  new_length_bytes = 0;
  max_size_pkt = 2;
  carrier_id = 5;
  stats = no_stats;
  cni = 0;
}

fresh_is_built : new_carrier_fifo 0 0 5 2 ≡ fresh
unfolding new_carrier_fifo
fresh_is_built = refl

names_are_read :
    (access_of_name "DAMA_RBDC" ≡ return dama_rbdc)
    × (access_of_name "ACM" ≡ forward acm)
    × (access_of_name "FIFO" ≡ unknown)
unfolding access_of_name
names_are_read = (refl, refl, refl)

abbrev calls : List Call
calls = pushes (packet 1 100) ∷ pushes (packet 2 50) ∷ pushes (packet 3 7) ∷ pops ∷ lengths ∷ []

replies :
    (run fresh calls).0
    ≡ Reply.pushed true
      ∷ Reply.pushed true
      ∷ Reply.pushed false
      ∷ Reply.popped (some (packet 1 100))
      ∷ Reply.value 50
      ∷ []
unfolding run call
replies = refl

fresh-Counted : Counted fresh
unfolding bytes
fresh-Counted = omega arith

run-Counted_example : Counted (run fresh calls).1
run-Counted_example = run-Counted fresh calls fresh-Counted

run_refines_example : (run fresh calls).0 ≡ Deque.run 2 [] (views calls)
run_refines_example = run_refines fresh calls fresh-Counted

run-Balanced_example : Balanced fresh (run fresh calls).1 3 157
run-Balanced_example = run-Balanced fresh calls (omega arith)
