-- ===== src/Part.antt =====
-- part.c: finding the partitions of a disk, in the partition table of its first sector and in
-- the plan 9 tables inside those partitions.
mod Defs
pub mod Names
pub mod Check
pub mod Init
pub mod Overlap
pub mod Layout
pub mod Plan9
pub mod Siblings
mod Tests
pub use Defs.{Part, IsNonneg}
