-- ===== src/Nand.antt =====
-- kwnand.c: the driver of the NAND flash chip, and the functions of nand.c for the portable one.
pub mod Chip
pub mod Ident
pub mod Erase
pub mod Pages
pub mod Laws
pub mod Traffic
pub mod Stored
pub mod Erased
pub mod Claims
mod Simulated
mod Tests
