-- ===== src/Fifo.antt =====
-- The packet queues: `FifoElement`, `DvbFifo` (the MAC FIFOs) and `DelayFifo` (the satellite delay).
pub mod Element
pub mod Deque
pub mod Dvb
pub mod Delay
