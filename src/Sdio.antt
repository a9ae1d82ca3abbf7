-- ===== src/Sdio.antt =====
-- kwsdio.c: the driver of the SDIO controller, a block storage device for SD cards.
pub mod Host
pub mod Command
pub mod Init
pub mod Transfer
pub mod Keeping
pub mod Triples
pub mod Ready
pub mod Response
pub mod Pieces
mod Tests
