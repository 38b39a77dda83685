-- ===== src/Lan/Switch/Routing.antt =====
-- What becomes of a packet in a switch.
use opensand.Prelude.{ℕ, ◌≡◌, refl, Bool, true, false, ◌==◌, not}
use opensand.Lan.Sarp.{get_tal_by_mac}
use opensand.Lan.Switch.{
  Frame, Role, terminal, gateway, satellite, PacketSwitch, member, get_packet_destination,
  destination, is_packet_for_me, for_me,
}

-- What a switch does with a packet for `dst`: whether it reads it, and whether it forwards it.
abbrev pub Routed : Role → ℕ → ℕ → Bool × Bool → Type 0
Routed (terminal gw_id) tal_id dst r = r ≡ (true, false)
Routed gateway tal_id dst r = r ≡ (dst == tal_id, true)
Routed (satellite false entities) tal_id dst r = r ≡ (false, true)
Routed (satellite true entities) tal_id dst r = r ≡ (member dst entities, not (member dst entities))

sent_to :
    (role : Role) (s : PacketSwitch) (f : Frame) (src dst : ℕ)
    → get_tal_by_mac f.dst_mac s.sarp_table ≡ (true, dst)
    → (get_tal_by_mac f.src_mac s.sarp_table).0 ≡ true
    → ((destination role s f src).0 ≡ true) × ((destination role s f src).2 ≡ dst)
unfolding destination
sent_to (terminal gw_id) s f src dst k h = (refl, rw k refl)
sent_to gateway s f src dst k h = rw k (refl, refl)
sent_to (satellite isl entities) s f src dst k h = rw (k, h) (refl, refl)

abbrev pub is_terminal : Role → Bool
is_terminal (terminal gw_id) = true
is_terminal _ = false

unknown-role :
    (role : Role) (s : PacketSwitch) (f : Frame) (src : ℕ) (forward : Bool)
    → (get_tal_by_mac f.dst_mac s.sarp_table).0 ≡ false
    → ((destination role s f src).0 ≡ is_terminal role)
      × ((for_me role s f forward).0 ≡ is_terminal role)
unfolding destination for_me
unknown-role (terminal gw_id) s f src forward k = (refl, refl)
unknown-role gateway s f src forward k = (k, rw k refl)
unknown-role (satellite false entities) s f src forward k = (rw k refl, refl)
unknown-role (satellite true entities) s f src forward k = (rw k refl, rw k refl)

-- A packet whose destination the table does not know is sent and read by terminals alone.
unknown_destination :
    (s : PacketSwitch) (f : Frame) (src : ℕ) (forward : Bool)
    → (get_tal_by_mac f.dst_mac s.sarp_table).0 ≡ false
    → ((get_packet_destination s f src).0 ≡ is_terminal s.role)
      × ((is_packet_for_me s f forward).0 ≡ is_terminal s.role)
unfolding get_packet_destination is_packet_for_me
unknown_destination s f src forward k = unknown-role s.role s f src forward k
