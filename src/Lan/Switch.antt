-- ===== src/Lan/Switch.antt =====
-- opensand-core/src/lan_adaptation/PacketSwitch.cpp: where a terminal, a gateway and a satellite send a
-- packet, and which packets they read. A packet is its two Ethernet addresses.
pub mod Routing
mod Tests
use opensand.Prelude.{ℕ, Bool, true, false, List, [], ◌∷◌, ◌==◌, ◌||◌, not, if◌then◌else◌}
use opensand.Lan.Mac.{MacAddress}
use opensand.Lan.Sarp.{SarpTable, get_tal_by_mac}

pub record Frame : Type 0 where
  pub dst_mac : MacAddress
  pub src_mac : MacAddress

-- The three classes, with their own fields.
pub data Role : Type 0 where
  terminal : ℕ → Role
  gateway : Role
  satellite : Bool → List ℕ → Role

pub record PacketSwitch : Type 0 where
  pub role : Role
  pub tal_id : ℕ
  pub sarp_table : SarpTable

abbrev pub broadcast_tal_id : ℕ
broadcast_tal_id = 31

unfoldable pub member : ℕ → List ℕ → Bool
member id [] = false
member id (x ∷ xs) = x == id || member id xs

-- `getPacketDestination`: the result, and what the source and the destination are set to. The caller's
-- source is kept where the code does not set it.
unfoldable pub destination : Role → PacketSwitch → Frame → ℕ → Bool × ℕ × ℕ
destination (terminal gw_id) s f src =
    let (known, dst) = get_tal_by_mac f.dst_mac s.sarp_table in
    (true, s.tal_id, if known then dst else gw_id)
destination gateway s f src =
    let (known, dst) = get_tal_by_mac f.dst_mac s.sarp_table in (known, s.tal_id, dst)
destination (satellite isl_enabled isl_entities) s f src =
    let (known, dst) = get_tal_by_mac f.dst_mac s.sarp_table in
    let (known', src') = get_tal_by_mac f.src_mac s.sarp_table in
    if known then (known', src', dst) else (false, src, dst)

unfoldable pub get_packet_destination : PacketSwitch → Frame → ℕ → Bool × ℕ × ℕ
unfolding destination
get_packet_destination s f src = destination s.role s f src

-- `isPacketForMe`: the result, and what `forward` is set to from the caller's value.
unfoldable pub for_me : Role → PacketSwitch → Frame → Bool → Bool × Bool
unfolding member
for_me (terminal gw_id) s f forward = (true, false)
for_me gateway s f forward =
    let (known, dst) = get_tal_by_mac f.dst_mac s.sarp_table in
    if known then (dst == broadcast_tal_id || dst == s.tal_id, true) else (false, forward)
for_me (satellite isl_enabled isl_entities) s f forward =
    let (known, dst) = get_tal_by_mac f.dst_mac s.sarp_table in
    let to_isl = member dst isl_entities in
    let broadcast = dst == broadcast_tal_id in
    if not isl_enabled
    then (false, true)
    else if known
    then (broadcast || to_isl, broadcast || not to_isl)
    else (false, forward)

unfoldable pub is_packet_for_me : PacketSwitch → Frame → Bool → Bool × Bool
unfolding for_me
is_packet_for_me s f forward = for_me s.role s f forward
