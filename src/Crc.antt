-- ===== src/Crc.antt =====
-- The two checksums of the repository: `ethercrc` of devether.c, which goes bit by bit, and `crc32`
-- of mkuimage.c (Uimage.Header), which goes byte by byte with a table.
pub mod Bitwise
pub mod Same
mod Tests
