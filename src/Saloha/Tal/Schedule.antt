-- ===== src/Saloha/Tal/Schedule.antt =====
-- `SlottedAlohaTal::schedule`.
--
-- A queued element holds a pointer: `object` is the packet behind it. `draw`, `draw_slot` and
-- `draw_carrier` are the random draws, and `fuel` bounds the draws of slots.
use opensand.Prelude.{
  ℕ, zero, suc, ◌+◌, ◌%◌, true, false, not, Option, none, some, List, [], ◌∷◌, ◌++◌, leb, length,
  ◌==◌, if◌then◌else◌, add16, u16,
}
use opensand.Access.{return, saloha, access_eq}
use opensand.Fifo.Dvb.{DvbFifo, current_size, pop}
use opensand.Saloha.Backoff.{is_ready, tick}
use opensand.Saloha.Slots.{get_time_slots}
use opensand.Saloha.Tal.{
  DataPacket, SlottedAlohaFrame, new_frame, Frames, Sending, add_packet_in_frames, resend,
  SlottedAlohaTal,
}
use opensand.Saloha.Tal.Timeouts.{collect_all, dec_all}

-- The sum that `getTimeSlots` starts from.
unfoldable pub nb_waiting : List (ℕ × DvbFifo) → ℕ → ℕ
unfolding current_size
nb_waiting [] n = n
nb_waiting ((qos, f) ∷ fs) n =
    nb_waiting fs (if access_eq f.access_type (return saloha) then add16 n (current_size f) else n)

module _ (object : ℕ → DataPacket) (nb_replicas size : ℕ) where
  -- The new packets of a FIFO. Each round takes one, so that the number of them is enough fuel.
  unfoldable pub send_fifo : ℕ → ℕ → DvbFifo → ℕ → Sending → Option (DvbFifo × ℕ × Sending)
  unfolding current_size pop add_packet_in_frames
  send_fifo zero qos f used s = some (f, used, s)
  send_fifo (suc fuel) qos f used s = elim (current_size f == 0) [
    | true ↦ some (f, used, s)
    | false ↦ elim (leb (used + nb_replicas) size) [
      | false ↦ some (f, used, s)
      | true ↦ elim (pop f).0 [
        | none ↦ some (f, used, s)
        | some e ↦ elim (add_packet_in_frames (object e.ident) qos s) [
          | none ↦ none
          | some (true, s') ↦
              send_fifo fuel qos (pop f).1 (add16 used (u16 (length (object e.ident).replicas))) s'
          | some (false, s') ↦ send_fifo fuel qos (pop f).1 used s'
        ]
      ]
    ]
  ]

  unfoldable pub send_fifos :
      List (ℕ × DvbFifo) → ℕ → Sending → Option (List (ℕ × DvbFifo) × Sending)
  unfolding send_fifo
  send_fifos [] used s = some ([], s)
  send_fifos ((qos, f) ∷ fs) used s = elim (leb size used) [
    | true ↦ some ((qos, f) ∷ fs, s)
    | false ↦ elim (access_eq f.access_type (return saloha)) [
      | false ↦ elim (send_fifos fs used s) [
        | none ↦ none
        | some (fs', s') ↦ some ((qos, f) ∷ fs', s')
      ]
      | true ↦ elim (send_fifo (length f.queue) qos f used s) [
        | none ↦ none
        | some (f', used', s') ↦ elim (send_fifos fs used' s') [
          | none ↦ none
          | some (fs', s'') ↦ some ((qos, f') ∷ fs', s'')
        ]
      ]
    ]
  ]

-- The last frame is complete unless it is empty.
unfoldable pub close : Frames → List SlottedAlohaFrame
close s =
    if s.frame.data_length == 0
    then s.complete_dvb_frames
    else s.complete_dvb_frames ++ s.frame ∷ []

-- From the slots on: old packets, then new ones.
unfoldable pub send :
    (ℕ → DataPacket)
    → List ℕ
    → List SlottedAlohaFrame
    → SlottedAlohaTal
    → Option (List SlottedAlohaFrame × SlottedAlohaTal)
unfolding new_frame resend send_fifos close
send object ts complete tal =
    elim (resend (length ts) tal.retransmission_packets 0 record {
      frames = record { complete_dvb_frames = complete; frame = new_frame };
      slots = ts;
      packets_wait_ack = tal.packets_wait_ack;
    }) [
      | none ↦ none
      | some (left, used, s) ↦
          elim (send_fifos object tal.nb_replicas (length ts) tal.dvb_fifos used s) [
            | none ↦ none
            | some (fifos, s') ↦ some (
              close s'.frames,
              record tal {
                retransmission_packets = left;
                dvb_fifos = fifos;
                packets_wait_ack = s'.packets_wait_ack;
              },
            )
          ]
    ]

-- The packets in time-out leave those that wait.
unfoldable pub expire : (ℕ → ℕ → ℕ) → SlottedAlohaTal → SlottedAlohaTal
unfolding collect_all
expire draw tal =
    let (waiting, c) = collect_all tal draw tal.packets_wait_ack record {
      retransmission_packets = tal.retransmission_packets;
      nb_retransmissions = 0;
      backoff = tal.backoff;
      nb_lost = 0;
    } in
    record tal {
      packets_wait_ack = waiting;
      retransmission_packets = c.retransmission_packets;
      backoff = c.backoff;
      nb_success = if c.nb_retransmissions == 0 then tal.nb_success else 0;
    }

-- At each tick.
unfoldable pub age : SlottedAlohaTal → SlottedAlohaTal
unfolding dec_all tick
age tal = record tal { packets_wait_ack = dec_all tal.packets_wait_ack; backoff = tick tal.backoff }

unfoldable pub time_slots : (ℕ → ℕ → ℕ) → (ℕ → ℕ → ℕ) → ℕ → SlottedAlohaTal → Option (List ℕ)
unfolding get_time_slots nb_waiting
time_slots draw_slot draw_carrier fuel tal =
    get_time_slots draw_slot draw_carrier fuel
      (nb_waiting tal.dvb_fifos (u16 (length tal.retransmission_packets))) tal.nb_max_packets
      tal.nb_replicas tal.slots_number tal.carriers_number

unfoldable pub schedule :
    (ℕ → DataPacket)
    → (ℕ → ℕ → ℕ)
    → (ℕ → ℕ → ℕ)
    → (ℕ → ℕ → ℕ)
    → ℕ
    → ℕ
    → List SlottedAlohaFrame
    → SlottedAlohaTal
    → Option (List SlottedAlohaFrame × SlottedAlohaTal)
unfolding age is_ready expire time_slots send
schedule object draw draw_slot draw_carrier fuel sf_counter complete tal =
    if tal.sf_per_saframe == 0
    then none
    else if not (sf_counter % tal.sf_per_saframe == 0)
    then some (complete, tal)
    else if not (is_ready (age tal).backoff)
    then some (complete, age tal)
    else let expired = expire draw (age tal) in
      elim (time_slots draw_slot draw_carrier fuel expired) [
        | none ↦ none
        | some ts ↦ send object ts complete expired
      ]
