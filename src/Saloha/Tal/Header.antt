-- ===== src/Saloha/Tal/Header.antt =====
-- `SlottedAlohaTal::addSalohaHeader`: a packet that enters a FIFO in slotted Aloha.
use opensand.Prelude.{
  ℕ, ◌+◌, ◌*◌, ◌≤◌, ◌≡◌, length, length-replicate, replicate, ◌==◌, if◌then◌else◌, arith, add32,
  u16,
}
use opensand.Saloha.Tal.{DataPacket, SlottedAlohaTal}
use opensand.Saloha.Tal.Copies.{Sendable}

-- `sizeof(saloha_data_hdr_t)`
abbrev header_length : ℕ
header_length = 15

-- The encapsulated packet's source, quality of service and length, its place in the burst, and the
-- number of the burst's packets.
unfoldable pub add_saloha_header :
    ℕ → ℕ → ℕ → ℕ → ℕ → SlottedAlohaTal → DataPacket × SlottedAlohaTal
add_saloha_header src_tal_id qos len offset burst_size tal = (
  record {
    packet = record {
      src_tal_id = src_tal_id;
      id = tal.base_id;
      seq = offset;
      pdu_nb = burst_size;
      qos = qos;
    };
    ts = 0;
    replicas = replicate tal.nb_replicas 0;
    total_length = u16 (header_length + 2 * tal.nb_replicas + len);
    timeout_saf = tal.timeout_saf;
    nb_retransmissions = 0;
  },
  if offset + 1 == burst_size then record tal { base_id = add32 tal.base_id 1 } else tal,
)

-- A packet that leaves room for the header and the replicas can be sent, with the terminal's replicas.
add_saloha_header-Sendable :
    (src_tal_id qos len offset burst_size : ℕ) (tal : SlottedAlohaTal)
    → 2 * tal.nb_replicas + len ≤ 1184
    → Sendable (add_saloha_header src_tal_id qos len offset burst_size tal).0
      × (length (add_saloha_header src_tal_id qos len offset burst_size tal).0.replicas
          ≡ tal.nb_replicas)
unfolding add_saloha_header
add_saloha_header-Sendable src_tal_id qos len offset burst_size tal h =
    (omega arith, length-replicate tal.nb_replicas 0)
