-- ===== src/Trap.antt =====
-- trap.c: the tables of interrupt handlers. `Trap.Irq` has the operations, `Trap.Dispatch` proves
-- which handlers an interrupt calls.
pub mod Irq
pub mod Dispatch
mod Tests
