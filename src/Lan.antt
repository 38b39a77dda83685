-- ===== src/Lan.antt =====
-- Ethernet addresses and the table that says behind which terminal an address is:
-- opensand-core/src/common/MacAddress.cpp, SarpTable.cpp; and the packet switches:
-- opensand-core/src/lan_adaptation/PacketSwitch.cpp.
pub mod Mac
pub mod Sarp
pub mod Switch
