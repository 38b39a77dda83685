-- ===== src/Scheduling.antt =====
-- The schedulers of opensand-core/src/dvb/dama, which fill frames from the FIFOs.
pub mod Frame
pub mod Rcs2
