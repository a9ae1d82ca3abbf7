-- ===== src/Clock.antt =====
-- clock.c: the clock interrupt and the functions that it calls.
pub mod Ticks
pub mod Periods
mod Tests
