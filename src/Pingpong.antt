-- ===== src/Pingpong.antt =====
-- The demo recipes/demo/pingpong/pingpong.c: it measures the processor's time-stamp counter with
-- and without a trap between two readings.
pub mod Ticks
pub mod Telescope
pub mod Readings
