-- ===== src/Dama.antt =====
-- Demand assignment on the return link: the requests that a terminal signals, their coding in the
-- SAC message, and what the gateway's controller grants.
pub mod Sac
pub mod Buffer
pub mod Terminal
pub mod Alloc
pub mod Ttp
pub mod Agent
pub mod Ctrl
