-- ===== src/SdCard.antt =====
-- sdcard.c: the registers that an SD card describes itself with.
pub mod Bits
pub mod Registers
pub mod Fields
pub mod Parsed
mod Tests
pub use Bits.{Words}
