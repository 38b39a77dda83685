-- ===== src/Saloha.antt =====
-- Slotted Aloha: opensand-core/src/dvb/saloha. How long a terminal waits, and which packets of a
-- frame's slots the gateway accepts.
pub mod Packet
pub mod Slots
pub mod Tal
pub mod Backoff
pub mod Dsa
pub mod Crdsa
