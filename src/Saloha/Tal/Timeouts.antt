-- ===== src/Saloha/Tal/Timeouts.antt =====
-- `SlottedAlohaTal::schedule`: the packets that were not acknowledged in time.
--
-- `draw` is the random draw of the backoff, given how many packets the call has lost before.
use opensand.Prelude.{
  ℕ, ◌+◌, true, false, Option, some, List, [], ◌∷◌, insert_at, if◌then◌else◌, add16,
}
use opensand.Saloha.Backoff.{Backoff, set_collision}
use opensand.Saloha.Tal.{
  DataPacket, is_timeout, dec_timeout, can_be_retransmitted, try_again, Waiting, SlottedAlohaTal,
}

-- The variables of the loop that looks for packets that were not acknowledged.
pub record Collected : Type 0 where
  pub retransmission_packets : List (Option DataPacket)
  pub nb_retransmissions : ℕ
  pub backoff : Backoff
  pub nb_lost : ℕ

-- What becomes of a packet in time-out.
unfoldable pub timed_out : SlottedAlohaTal → (ℕ → ℕ → ℕ) → DataPacket → Collected → Collected
unfolding can_be_retransmitted try_again set_collision
timed_out tal draw p c =
    if can_be_retransmitted tal.nb_max_retransmissions p
    then record c {
      retransmission_packets =
          insert_at c.nb_retransmissions (some (try_again tal.timeout_saf p))
            c.retransmission_packets;
      nb_retransmissions = add16 c.nb_retransmissions 1;
    }
    else record c { backoff = set_collision (draw c.nb_lost) c.backoff; nb_lost = c.nb_lost + 1 }

unfoldable pub collect :
    SlottedAlohaTal → (ℕ → ℕ → ℕ) → List DataPacket → Collected → List DataPacket × Collected
unfolding is_timeout timed_out
collect tal draw [] c = ([], c)
collect tal draw (p ∷ ps) c = elim (is_timeout p) [
  | true ↦ collect tal draw ps (timed_out tal draw p c)
  | false ↦ let (kept, c') = collect tal draw ps c in (p ∷ kept, c')
]

unfoldable pub collect_all :
    SlottedAlohaTal → (ℕ → ℕ → ℕ) → Waiting → Collected → Waiting × Collected
unfolding collect
collect_all tal draw [] c = ([], c)
collect_all tal draw ((qos, ps) ∷ m) c =
    let (kept, c') = collect tal draw ps c in
    let (m', c'') = collect_all tal draw m c' in ((qos, kept) ∷ m', c'')

unfoldable pub dec_timeouts : List DataPacket → List DataPacket
unfolding dec_timeout
dec_timeouts [] = []
dec_timeouts (p ∷ ps) = dec_timeout p ∷ dec_timeouts ps

unfoldable pub dec_all : Waiting → Waiting
unfolding dec_timeouts
dec_all [] = []
dec_all ((qos, ps) ∷ m) = (qos, dec_timeouts ps) ∷ dec_all m
