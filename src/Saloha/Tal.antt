-- ===== src/Saloha/Tal.antt =====
-- opensand-core/src/dvb/saloha/SlottedAlohaTal.cpp: a terminal sends in slotted Aloha: it places its
-- packets and their replicas in slots, waits for acknowledgements and sends again what is not
-- acknowledged in time.
--
-- `none` is a read through a null pointer or past the end of the slots, a division by zero, or random
-- slots that have not all been drawn. Memory for a frame is always found. Logs and probes are left out.
pub mod Copies
pub mod Sends
pub mod NewPackets
pub mod Header
pub mod Waits
pub mod Expiry
pub mod Delivery
pub mod Kept
pub mod Taken
pub mod Settled
pub mod Acked
mod Tests
pub mod Timeouts
pub mod Schedule
pub mod Acks
use opensand.Prelude.{
  ℕ, ◌+◌, ◌-◌, ◌%◌, Bool, true, false, Option, none, some, List, [], ◌∷◌, ◌++◌, ltb, leb, length,
  ◌==◌, if◌then◌else◌, add16, u16, u64_mod,
}
use opensand.Maps.{insert, change}
use opensand.Fifo.Dvb.{DvbFifo}
use opensand.Saloha.Packet.{Packet}
use opensand.Saloha.Backoff.{Backoff}

-- `SlottedAlohaPacketData`: what identifies the packet, the header fields that sending sets, and the
-- fields of the object. The number of replicas is the length of their list.
pub record DataPacket : Type 0 where
  pub packet : Packet
  pub ts : ℕ
  pub replicas : List ℕ
  pub total_length : ℕ
  pub timeout_saf : ℕ
  pub nb_retransmissions : ℕ

unfoldable pub set_ts : ℕ → DataPacket → DataPacket
set_ts ts p = record p { ts = ts }

unfoldable pub set_replicas : List ℕ → DataPacket → DataPacket
set_replicas replicas p = record p { replicas = replicas }

unfoldable pub is_timeout : DataPacket → Bool
is_timeout p = p.timeout_saf == 0

unfoldable pub dec_timeout : DataPacket → DataPacket
dec_timeout p = record p { timeout_saf = p.timeout_saf - 1 }

unfoldable pub can_be_retransmitted : ℕ → DataPacket → Bool
can_be_retransmitted max_retransmissions p = ltb p.nb_retransmissions max_retransmissions

-- `setTimeout` after `incNbRetransmissions`.
unfoldable pub try_again : ℕ → DataPacket → DataPacket
try_again timeout_saf p = record p {
  timeout_saf = timeout_saf;
  nb_retransmissions = add16 p.nb_retransmissions 1;
}

-- `SlottedAlohaFrame`
pub record SlottedAlohaFrame : Type 0 where
  pub total_length : ℕ
  pub message_length : ℕ
  pub data_length : ℕ
  pub packets : List DataPacket

-- The header is 5 bytes, the message 1204 at most.
unfoldable pub new_frame : SlottedAlohaFrame
new_frame = record { total_length = 5; message_length = 5; data_length = 0; packets = [] }

unfoldable pub free_space : SlottedAlohaFrame → ℕ
free_space f = (1204 + (u64_mod - f.total_length % u64_mod)) % u64_mod

unfoldable pub add_packet : DataPacket → SlottedAlohaFrame → Bool × SlottedAlohaFrame
unfolding free_space
add_packet p f = if ltb (free_space f) p.total_length then (false, f) else (
  true,
  record f {
    total_length = f.total_length + p.total_length;
    message_length = add16 f.message_length (u16 p.total_length);
    data_length = add16 f.data_length 1;
    packets = f.packets ++ p ∷ [];
  },
)

-- The complete frames, and the one that is filled.
pub record Frames : Type 0 where
  pub complete_dvb_frames : List SlottedAlohaFrame
  pub frame : SlottedAlohaFrame

unfoldable pub make_room : DataPacket → Frames → Frames
unfolding free_space new_frame
make_room p s =
    if ltb (free_space s.frame) p.total_length
    then record { complete_dvb_frames = s.complete_dvb_frames ++ s.frame ∷ []; frame = new_frame }
    else s

-- The second loop of `addPacketInFrames`: a copy of the packet for each slot.
unfoldable pub add_replicas : DataPacket → List ℕ → Frames → Bool × DataPacket × Frames
unfolding make_room set_ts add_packet
add_replicas p [] s = (true, p, s)
add_replicas p (slot ∷ slots) s =
    let placed = set_ts slot p in
    let s' = make_room p s in
    let (added, frame) = add_packet placed s'.frame in
    let now = record s' { frame = frame } in
    elim added [ true ↦ add_replicas placed slots now | false ↦ (false, placed, now) ]

-- The first loop: as many slots as there are replicas.
unfoldable pub next_slots : List ℕ → List ℕ → Option (List ℕ × List ℕ)
next_slots [] slots = some ([], slots)
next_slots (r ∷ rs) [] = none
next_slots (r ∷ rs) (slot ∷ slots) = elim (next_slots rs slots) [
  | none ↦ none
  | some (mine, left) ↦ some (slot ∷ mine, left)
]

-- The packets that wait for an acknowledgement, by their quality of service.
abbrev pub Waiting : Type 0
Waiting = List (ℕ × List DataPacket)

unfoldable pub wait_ack : ℕ → DataPacket → Waiting → Waiting
unfolding change insert
wait_ack qos p m = change qos (λ ps. ps ++ p ∷ []) (insert qos [] m)

-- The variables that sending changes: the slots are those from the iterator on.
pub record Sending : Type 0 where
  pub frames : Frames
  pub slots : List ℕ
  pub packets_wait_ack : Waiting

-- After the packet was added.
unfoldable pub sent_to : ℕ → List ℕ → Bool × DataPacket × Frames → Sending → Bool × Sending
unfolding wait_ack
sent_to qos left (true, p, frames) s = (
  true,
  record { frames = frames; slots = left; packets_wait_ack = wait_ack qos p s.packets_wait_ack },
)
sent_to qos left (false, p, frames) s = (false, record s { frames = frames; slots = left })

unfoldable pub add_packet_in_frames : DataPacket → ℕ → Sending → Option (Bool × Sending)
unfolding next_slots set_replicas add_replicas sent_to
add_packet_in_frames p qos s = elim (next_slots p.replicas s.slots) [
  | none ↦ none
  | some (mine, left) ↦ some (sent_to qos left (add_replicas (set_replicas mine p) mine s.frames) s)
]

-- The loop over the packets to send again, with the slots used so far. What could not be added leaves a
-- null pointer.
unfoldable pub resend :
    ℕ → List (Option DataPacket) → ℕ → Sending → Option (List (Option DataPacket) × ℕ × Sending)
unfolding add_packet_in_frames
resend size [] used s = some ([], used, s)
resend size (none ∷ ps) used s = none
resend size (some p ∷ ps) used s = elim (leb (used + length p.replicas) size) [
  | false ↦ some (some p ∷ ps, used, s)
  | true ↦ elim (add_packet_in_frames p p.packet.qos s) [
    | none ↦ none
    | some (true, s') ↦ resend size ps (add16 used (u16 (length p.replicas))) s'
    | some (false, s') ↦ elim (resend size ps used s') [
      | none ↦ none
      | some (left, used', s'') ↦ some (none ∷ left, used', s'')
    ]
  ]
]

-- The fields that `schedule` and `onRcvFrame` do not change first.
pub record SlottedAlohaTal : Type 0 where
  pub tal_id : ℕ
  pub base_id : ℕ
  pub sf_per_saframe : ℕ
  pub timeout_saf : ℕ
  pub nb_max_packets : ℕ
  pub nb_replicas : ℕ
  pub nb_max_retransmissions : ℕ
  pub slots_number : ℕ
  pub carriers_number : ℕ
  pub packets_wait_ack : Waiting
  pub retransmission_packets : List (Option DataPacket)
  pub nb_success : ℕ
  pub backoff : Backoff
  pub dvb_fifos : List (ℕ × DvbFifo)
