-- ===== src/Xor.antt =====
-- xor.c: the two XOR engines, which fill, copy, combine and checksum memory. An engine has two
-- ports. `Xor.Ports` allots ports and handles interrupts, `Xor.Setup` sets the registers up,
-- `Xor.Transfer` programs a transfer, and `Xor.System` runs processes that use the ports.
mod Defs
pub mod Ports
pub mod Setup
pub mod Transfer
pub mod System
pub mod Exclusion
pub mod Wakeup
pub mod Descriptors
mod Tests
pub use Defs.{Use, Port, XorReg, XoreReg, Xor}
