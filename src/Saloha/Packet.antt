-- ===== src/Saloha/Packet.antt =====
-- opensand-core/src/dvb/utils/SlottedAlohaPacketData.cpp: a packet, as far as the algorithms read it.
use opensand.Prelude.{ℕ, Bool, false, List, [], ◌∷◌, ◌==◌, ◌&&◌, ◌||◌}

pub record Packet : Type 0 where
  pub src_tal_id : ℕ
  pub id : ℕ
  pub seq : ℕ
  pub pdu_nb : ℕ
  pub qos : ℕ

-- The same terminal and the same `getUniqueId()`, which prints the other four fields.
unfoldable pub same_packet : Packet → Packet → Bool
same_packet p q =
    p.src_tal_id == q.src_tal_id
    && (p.id == q.id && (p.seq == q.seq && (p.pdu_nb == q.pdu_nb && p.qos == q.qos)))

-- Whether `accepted_ids`, given by the packets whose identifiers it holds, has that of `p`.
unfoldable pub has : Packet → List Packet → Bool
unfolding same_packet
has p [] = false
has p (q ∷ qs) = same_packet p q || has p qs

-- The variables of both algorithms.
pub record Round : Type 0 where
  pub accepted_ids : List Packet
  pub accepted_packets : List Packet
  pub nbr_collisions : ℕ
