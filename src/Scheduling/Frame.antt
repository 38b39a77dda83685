-- ===== src/Scheduling/Frame.antt =====
-- opensand-core/src/dvb/utils/DvbFrame.h and DvbRcsFrame.cpp: a DVB-RCS frame that encapsulated
-- packets are added to, and what a scheduler sees of a packet.
use opensand.Prelude.{
  ℕ, ◌+◌, ◌-◌, ◌%◌, Bool, true, false, List, [], ◌∷◌, ◌++◌, ltb, if◌then◌else◌, add16, u16, u64_mod,
}
use opensand.Fifo.Element.{Element}

-- A packet, or an encapsulated one: its identity stands for its content.
pub record Packet : Type 0 where
  pub ident : ℕ
  pub total_length : ℕ

-- `FifoElement::getElem` and `setElem`.
abbrev pub get_elem : Element → Packet
get_elem e = record { ident = e.ident; total_length = e.total_length }

abbrev pub set_elem : Packet → Element → Element
set_elem p e = record e { ident = p.ident; total_length = p.total_length }

-- `sizeof(T_DVB_ENCAP_BURST)` and `MSG_DVB_RCS_SIZE_MAX`
abbrev pub header_length : ℕ
header_length = 6

abbrev pub msg_dvb_rcs_size_max : ℕ
msg_dvb_rcs_size_max = 1204

-- A frame: the header field for the number of packets is `num_packets` as well.
pub record DvbRcsFrame : Type 0 where
  pub max_size : ℕ
  pub total_length : ℕ
  pub message_length : ℕ
  pub num_packets : ℕ
  pub modcod : ℕ
  pub packets : List Packet

-- The constructor, and `setMaxSize`.
abbrev pub new_frame : ℕ → DvbRcsFrame
new_frame max_size = record {
  max_size = max_size;
  total_length = header_length;
  message_length = header_length;
  num_packets = 0;
  modcod = 0;
  packets = [];
}

-- `getFreeSpace`, a difference of 64-bit words.
abbrev pub free_space : DvbRcsFrame → ℕ
free_space f = (f.max_size + (u64_mod - f.total_length % u64_mod)) % u64_mod

unfoldable pub add_packet : Packet → DvbRcsFrame → Bool × DvbRcsFrame
add_packet p f = if ltb (free_space f) p.total_length then (false, f) else (
  true,
  record f {
    total_length = f.total_length + p.total_length;
    message_length = add16 f.message_length (u16 p.total_length);
    num_packets = add16 f.num_packets 1;
    packets = f.packets ++ p ∷ [];
  },
)

-- `setModcodId`
abbrev pub set_modcod_id : ℕ → DvbRcsFrame → DvbRcsFrame
set_modcod_id modcod_id f = record f { modcod = modcod_id }
