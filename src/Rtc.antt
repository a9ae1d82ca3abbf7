-- ===== src/Rtc.antt =====
-- devrtc.c: the real time clock. `Rtc` is the broken-down time; `Rtc.Calendar` has the
-- conversions between it and seconds since 1970, `Rtc.Registers` the two BCD registers, and
-- `Rtc.Device` the write and read handlers of the file `rtc`.
mod Defs
pub mod Calendar
pub mod Registers
pub mod Device
pub mod Seconds
pub mod Decoding
pub mod Writing
mod Tests
pub use Defs.{Rtc}
