-- ===== src/Gbe.antt =====
-- etherkirkwood.c: the gigabit ethernet controller. `Gbe.Receive` and `Gbe.Transmit` move packets
-- through the rings of descriptors, `Gbe.Control` has the interrupt handler and the commands, and
-- `Gbe.Smi` the registers of the PHY.
mod Defs
pub mod Receive
pub mod Transmit
pub mod Sending
pub mod Transmitted
pub mod Queueing
pub mod Refill
pub mod Round
pub mod Receiving
pub mod Overrun
pub mod Smi
pub mod Polling
pub mod Commands
pub mod Ready
pub mod Setup
pub mod Control
mod Tests
pub use Defs.{Block, Rx, Tx, GbeReg, Ctlr, Ether}
