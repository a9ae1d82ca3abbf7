-- ===== src/Nand/Erased.antt =====
-- What an erased block holds, and the register that claims the flash.
use inferno_kirkwood.Nand.Chip.{Chip, Nand}
