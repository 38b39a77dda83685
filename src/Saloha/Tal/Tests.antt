-- ===== src/Saloha/Tal/Tests.antt =====
-- The terminal in slotted Aloha at concrete inputs.
use opensand.Prelude.{
  ℕ, ◌%◌, ◌≤◌, ◌<◌, ◌≡◌, refl, true, Option, none, some, List, [], ◌∷◌, map, length, arith,
}
use opensand.Access.{ReturnAccess, return, saloha, dama_rbdc, access_eq}
use opensand.Fifo.Dvb.{DvbFifo, no_stats}
use opensand.Maps.{find, insert}
use opensand.Saloha.Backoff.{beb}
use opensand.Saloha.Slots.Ascending.{Ascending, drawn}
use opensand.Saloha.Tal.{DataPacket, SlottedAlohaFrame, SlottedAlohaTal}
use opensand.Saloha.Tal.Schedule.{schedule}
use opensand.Saloha.Tal.Copies.{packets_of}
use opensand.Saloha.Tal.Delivery.{Ready}
use opensand.Saloha.Tal.Kept.{Scheduled, schedule-Scheduled}
use opensand.Saloha.Tal.Acks.{Control, on_rcv_frame}
use opensand.Saloha.Tal.Acked.{Answered, Narrow, on_rcv_frame-Answered}

-- A packet of two replicas.
abbrev packet : ℕ → ℕ → ℕ → DataPacket
packet id timeout_saf nb_retransmissions = record {
  packet = record { src_tal_id = 5; id = id; seq = 0; pdu_nb = 1; qos = 2 };
  ts = 0;
  replicas = 0 ∷ 0 ∷ [];
  total_length = 500;
  timeout_saf = timeout_saf;
  nb_retransmissions = nb_retransmissions;
}

abbrev object : ℕ → DataPacket
object pointer = packet pointer 3 0

abbrev fifo : ReturnAccess → List ℕ → DvbFifo
fifo access pointers = record {
  queue = map (λ p. record { ident = p; total_length = 500; tick_in = 0; tick_out = 0 }) pointers;
  fifo_priority = 0;
  access_type = return access;
  vcm_id = 0;
  new_size_pkt = 0;
  cur_length_bytes = 0;
  new_length_bytes = 0;
  max_size_pkt = 10;
  carrier_id = 0;
  stats = no_stats;
  cni = 0;
}

-- Of three packets that wait, one is sent again and one is given up; two packets are queued.
abbrev terminal : SlottedAlohaTal
terminal = record {
  tal_id = 5;
  base_id = 12;
  sf_per_saframe = 2;
  timeout_saf = 3;
  nb_max_packets = 2;
  nb_replicas = 2;
  nb_max_retransmissions = 1;
  slots_number = 12;
  carriers_number = 3;
  packets_wait_ack = (2, packet 7 1 0 ∷ packet 8 1 1 ∷ packet 9 2 0 ∷ []) ∷ [];
  retransmission_packets = [];
  nb_success = 4;
  backoff = record { kind = beb; cw_min = 1; cw_max = 8; cw = 1; backoff = 1; multiple = 2 };
  dvb_fifos = (1, fifo dama_rbdc (20 ∷ [])) ∷ (2, fifo saloha (10 ∷ 11 ∷ [])) ∷ [];
}

abbrev draw : ℕ → ℕ → ℕ
draw k n = k % n

terminal-Ready : Ready object terminal
unfolding access_eq
terminal-Ready = record {
  again = [];
  there = refl;
  sendable = tt;
  waiting = omega arith;
  queued = (
    record { word = omega arith; queued = λ e. omega arith },
    (record { word = omega arith; queued = λ e. omega arith }, tt),
  );
}

enough_drawn : 4 ≤ length (drawn (λ k. k % 4) 4 0 [])
unfolding drawn
enough_drawn = omega arith

schedule-Scheduled_example :
    (slots : List ℕ) × (r : List SlottedAlohaFrame × SlottedAlohaTal) × (schedule object draw draw
        draw 5 6 [] terminal
      ≡ some r)
    × Ascending slots
    × (length slots ≤ 4)
    × Scheduled object draw [] slots terminal r
schedule-Scheduled_example =
    schedule-Scheduled object draw draw draw 4 6 [] terminal terminal-Ready tt (omega arith) refl
      (omega arith) (omega arith) enough_drawn

-- What is acknowledged to this terminal, and to another one.
abbrev acks : List Control
acks =
    record { terminal_id = 6; is_ack = true; id = 7; seq = 0; pdu_nb = 1; qos = 2 }
    ∷ record { terminal_id = 5; is_ack = true; id = 8; seq = 0; pdu_nb = 1; qos = 2 }
    ∷ record { terminal_id = 5; is_ack = true; id = 8; seq = 0; pdu_nb = 1; qos = 2 }
    ∷ []

narrow :
    (id : ℕ)
    → id < 65536
    → Narrow (record { terminal_id = 5; is_ack = true; id = id; seq = 0; pdu_nb = 1; qos = 2 })
narrow id h = record { id = h; seq = omega arith; pdu_nb = omega arith; qos = omega arith }

on_rcv_frame-Answered_example :
    (tal : SlottedAlohaTal) × (acked : List DataPacket) × (on_rcv_frame
        (λ k n. 0)
        (λ k. 0)
        acks
        terminal
      ≡ some tal)
    × Answered object acks terminal tal acked
on_rcv_frame-Answered_example =
    on_rcv_frame-Answered object (λ k n. 0) (λ k. 0) acks terminal terminal-Ready (omega arith)
      (omega arith)
      (
        record { id = omega arith; seq = omega arith; pdu_nb = omega arith; qos = omega arith },
        (narrow 8 (omega arith), (narrow 8 (omega arith), tt)),
      )

-- An acknowledgement whose number does not fit 16 bits, and its packet that waits on.
wide_id-waits :
    on_rcv_frame
      (λ k n. 0)
      (λ k. 0)
      (record { terminal_id = 5; is_ack = true; id = 70000; seq = 0; pdu_nb = 1; qos = 2 } ∷ [])
      (record terminal { packets_wait_ack = (2, packet 70000 1 0 ∷ []) ∷ [] })
    ≡ some (record terminal { packets_wait_ack = (0, []) ∷ (2, packet 70000 1 0 ∷ []) ∷ [] })
unfolding on_rcv_frame insert find
wide_id-waits = refl

abbrev slots_of : Option (List SlottedAlohaFrame × SlottedAlohaTal) → List (ℕ × ℕ)
slots_of none = []
slots_of (some (frames, tal)) = map (λ p. (p.packet.id, p.ts)) (packets_of frames)

-- The packet in time-out first, then a new one, each in two slots.
two_packets :
    slots_of (schedule object draw draw draw 5 6 [] terminal)
    ≡ (7, 0) ∷ (7, 3) ∷ (10, 5) ∷ (10, 10) ∷ []
unfolding schedule access_eq
two_packets = refl
