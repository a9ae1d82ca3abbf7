-- ===== src/Etherdev.antt =====
-- devether.c: the ethernet device, between the driver of a controller and the connections that
-- have been opened on it.
pub mod Netif
pub mod Input
pub mod Output
pub mod Hub
pub mod Address
mod Tests
