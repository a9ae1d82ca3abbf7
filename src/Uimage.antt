-- ===== src/Uimage.antt =====
-- mkuimage/mkuimage.c: the header that the boot loader wants before a kernel image.
pub mod Header
pub mod Packed
mod Tests
