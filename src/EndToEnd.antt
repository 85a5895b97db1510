-- ===== src/EndToEnd.antt =====
-- The whole transfer: the file client, the two daemons and the file server, with a network between
-- the daemons that may lose, repeat, delay, reorder and damage packets.
pub mod Numbers
pub mod Writing
pub mod Whole
pub mod Lossless
pub mod LongFile
pub mod Retry
pub mod Signals
pub mod Overrun
mod Tests
