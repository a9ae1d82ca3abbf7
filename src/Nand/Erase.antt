-- ===== src/Nand/Erase.antt =====
-- kwnand.c: the erasing of a block.
use inferno_kirkwood.Prelude.{ℕ, ◌-◌, ◌*◌, Bool, false, ◌==◌, bit_and, u8, ◌>>>◌, if◌then◌else◌}
use inferno_kirkwood.Nand.Chip.{
  Chip, Nand, nandcmd, nandaddr, nandread, microdelay, nandclaim, nandunclaim, is_idle, poll,
  readstatus, erase, erasestart,
}

-- `delay(1)` in microseconds
abbrev one_ms : ℕ
one_ms = 1000

module _ {S : Type 0} (k : Chip S) where
  -- The command to erase and the wait for its end.
  unfoldable pub start_erase : ℕ → Nand S → Bool × Nand S
  start_erase page f =
      let f = nandcmd k erase f in
      let f = nandaddr k (u8 page) f in
      let f = nandaddr k (u8 (page >>> 8)) f in
      let f = nandaddr k (u8 (page >>> 16)) f in
      let f = nandcmd k erasestart f in
      let f = microdelay k one_ms f in let f = nandcmd k readstatus f in poll k 50 100 f

  -- `true` for the result 0, `false` for -1.
  unfoldable pub erasezone : ℕ → Nand S → Bool × Nand S
  erasezone offset f =
      let page = offset >>> 11 in
      let (s, g) = nandread k (nandcmd k readstatus (nandclaim k f)) in
      let erased = start_erase page g in
      if bit_and offset (128 * 1024 - 1) == 0
      then (if is_idle k s then erased else (false, nandunclaim k g))
      else (false, f)
