-- ===== src/Saloha/Tal/Acks.antt =====
-- `SlottedAlohaTal::onRcvFrame`: the acknowledgements of the gateway.
--
-- `draw` is the random draw of the backoff, given how many packets were acknowledged before. `none` is
-- the division by zero of the backoff. The printed identifiers are compared as the numbers they print.
-- Where an identifier is not parsed, `garbage` is what the uninitialized quality of service holds.
use opensand.Prelude.{
  ℕ, ◌+◌, Bool, true, false, Option, none, some, List, [], ◌∷◌, ◌==◌, ◌&&◌, add16, ltb,
  if◌then◌else◌,
}
use opensand.Maps.{find, insert, change}
use opensand.Saloha.Backoff.{set_ready}
use opensand.Saloha.Tal.{DataPacket, Waiting, SlottedAlohaTal}

-- `SlottedAlohaPacketCtrl`, with the identifier of the packet that it acknowledges.
pub record Control : Type 0 where
  pub terminal_id : ℕ
  pub is_ack : Bool
  pub id : ℕ
  pub seq : ℕ
  pub pdu_nb : ℕ
  pub qos : ℕ

unfoldable pub acknowledges : Control → DataPacket → Bool
acknowledges c p =
    c.id == p.packet.id
    && (c.seq == p.packet.seq && (c.pdu_nb == p.packet.pdu_nb && c.qos == p.packet.qos))

-- The packets without the first one that is acknowledged, if there is one.
unfoldable pub take_acked : Control → List DataPacket → Option (List DataPacket)
unfolding acknowledges
take_acked c [] = none
take_acked c (p ∷ ps) = elim (acknowledges c p) [
  | true ↦ some ps
  | false ↦ elim (take_acked c ps) [ none ↦ none | some left ↦ some (p ∷ left) ]
]

-- `packets_wait_ack[qos]`, which is there since it is created where it was missing.
unfoldable pub waiting_at : ℕ → Waiting → List DataPacket
unfolding find
waiting_at qos m = elim (find qos m) [ none ↦ [] | some ps ↦ ps ]

-- The quality of service that `convertPacketId` leaves. It reads the four numbers into words of 16
-- bits, and at the first that does not fit it stops, before the quality of service, which is the last:
-- one that does not fit is read as the largest word.
unfoldable pub converted_qos : ℕ → Control → ℕ
converted_qos garbage c =
    if ltb c.id 65536 && (ltb c.seq 65536 && ltb c.pdu_nb 65536)
    then if ltb c.qos 65536 then c.qos else 65535
    else garbage

-- The search in the packets that wait with a quality of service.
unfoldable pub settle : (ℕ → ℕ) → ℕ → Control → SlottedAlohaTal → Option SlottedAlohaTal
unfolding take_acked waiting_at set_ready insert change
settle draw qos c tal =
    let waiting = insert qos [] tal.packets_wait_ack in
    elim (take_acked c (waiting_at qos waiting)) [
      | none ↦ some (record tal { packets_wait_ack = waiting })
      | some left ↦ elim (set_ready tal.backoff.kind draw tal.backoff) [
        | none ↦ none
        | some backoff ↦ some (record tal {
          nb_success = add16 tal.nb_success 1;
          backoff = backoff;
          packets_wait_ack = change qos (λ ps. left) waiting;
        })
      ]
    ]

-- An acknowledgement for this terminal.
unfoldable pub here_is_ack : (ℕ → ℕ) → ℕ → Control → SlottedAlohaTal → Option SlottedAlohaTal
unfolding settle converted_qos
here_is_ack draw garbage c tal = settle draw (converted_qos garbage c) c tal

-- The control packets of a frame.
unfoldable pub on_rcv_frame :
    (ℕ → ℕ → ℕ) → (ℕ → ℕ) → List Control → SlottedAlohaTal → Option SlottedAlohaTal
unfolding here_is_ack
on_rcv_frame draw garbage [] tal = some tal
on_rcv_frame draw garbage (c ∷ cs) tal = elim (c.terminal_id == tal.tal_id && c.is_ack) [
  | false ↦ on_rcv_frame draw garbage cs tal
  | true ↦ elim (here_is_ack (draw 0) (garbage 0) c tal) [
    | none ↦ none
    | some tal' ↦ on_rcv_frame (λ k. draw (k + 1)) (λ k. garbage (k + 1)) cs tal'
  ]
]
