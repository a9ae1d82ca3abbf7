-- ===== src/Bs.antt =====
-- devbs.c: the block storage devices, which are files of the kernel device `#n`.
mod Defs
pub mod Table
pub mod Added
pub mod Disk
pub mod Open
pub mod Finding
pub mod Opened
pub mod Race
pub mod Command
pub mod Write
pub mod Stale
pub mod Started
pub mod Io
pub mod Reading
pub mod Writing
mod OpenTests
mod Tests
pub use Defs.{Store, Bs}
