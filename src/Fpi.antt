-- ===== src/Fpi.antt =====
-- fpiarm.c and fpi.h: the floating point instructions that the hardware lacks, emulated from the
-- undefined instruction trap. `Fpi.Arith` has the operations and their tables, `Fpi.Condition`
-- the condition field and the flags of a comparison, `Fpi.Emulator` one instruction and the loop
-- over instructions.
mod Defs
pub mod Arith
pub mod Condition
pub mod Emulator
pub mod Flags
pub mod Comparison
pub mod Table
pub mod Frame
mod Tests
pub use Defs.{Internal, Ureg, Fpenv, Process}
