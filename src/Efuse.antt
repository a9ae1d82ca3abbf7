-- ===== src/Efuse.antt =====
-- devefuse.c: the two eFuses, which can be burned once.
pub mod Device
pub mod Burned
mod Tests
