-- ===== src/Lan/Switch/Tests.antt =====
-- A satellite with a link, and the instances of the theorems.
use opensand.Prelude.{ℕ, ◌≡◌, refl, true, false, [], ◌∷◌}
use opensand.Lan.Mac.{MacAddress, exact_byte, matches}
use opensand.Lan.Sarp.{SarpTable, get_tal_by_mac}
use opensand.Lan.Switch.{Frame, terminal, satellite, PacketSwitch, is_packet_for_me}

abbrev mac : ℕ → MacAddress
mac b = exact_byte b ∷ exact_byte 0 ∷ exact_byte 0 ∷ exact_byte 0 ∷ exact_byte 0 ∷ exact_byte 1 ∷ []

abbrev table : SarpTable
table = record {
  max_entries = 50;
  eth_sarp = record { mac = mac 2; tal_id = 4 } ∷ record { mac = mac 4; tal_id = 5 } ∷ [];
  default_dest = 7;
}

abbrev linked : PacketSwitch
linked = record { role = satellite true (5 ∷ []); tal_id = 6; sarp_table = table }

abbrev frame : ℕ → Frame
frame dst = record { dst_mac = mac dst; src_mac = mac 2 }

-- What goes to the other satellite's terminal is read, what goes to an own one is forwarded.
linked_run :
    (is_packet_for_me linked (frame 4) false ≡ (true, false))
    × (is_packet_for_me linked (frame 2) false ≡ (false, true))
unfolding is_packet_for_me get_tal_by_mac matches
linked_run = (refl, refl)

abbrev sender : PacketSwitch
sender = record { role = terminal 0; tal_id = 4; sarp_table = table }
