-- ===== src/Nand/Chip.antt =====
-- kwnand.c and nand.c: the registers of the NAND flash, through which its chip is commanded.
use inferno_kirkwood.Prelude.{
  ℕ, zero, suc, ◌+◌, ◌^◌, Bool, true, false, not, List, [], ◌∷◌, ◌==◌, bit_and, bit_or,
  complement32, if◌then◌else◌,
}

-- What a chip in the state `S` does with a byte that is written to its command, address or data
-- register and with a read of the data register, and as microseconds pass.
pub record Chip (S : Type 0) : Type 0 where
  pub cmd : ℕ → S → S
  pub addr : ℕ → S → S
  pub put : ℕ → S → S
  pub get : S → ℕ × S
  pub wait : ℕ → S → S

-- `NANDFREG->ctl` with the chip.
pub record Nand (S : Type 0) : Type 0 where
  pub ctl : ℕ
  pub chip : S

abbrev pub nand_act_ce_boot : ℕ
nand_act_ce_boot = 2

-- `Readstatus`, and below the other commands
abbrev pub readstatus : ℕ
readstatus = 0x70

abbrev pub readid : ℕ
readid = 0x90

abbrev pub read_page : ℕ
read_page = 0

abbrev pub readstart : ℕ
readstart = 0x30

abbrev pub program : ℕ
program = 0x80

abbrev pub programstart : ℕ
programstart = 0x10

abbrev pub erase : ℕ
erase = 0x60

abbrev pub erasestart : ℕ
erasestart = 0xd0

-- The bits of the status.
abbrev pub s_fail : ℕ
s_fail = 1

abbrev pub s_idle : ℕ
s_idle = 2 ^ 5

abbrev pub s_ready : ℕ
s_ready = 2 ^ 6

module _ {S : Type 0} (k : Chip S) where
  open k use {cmd, addr, put, get, wait}

  abbrev pub nandcmd : ℕ → Nand S → Nand S
  nandcmd b f = record f { chip = cmd b f.chip }

  abbrev pub nandaddr : ℕ → Nand S → Nand S
  nandaddr b f = record f { chip = addr b f.chip }

  abbrev pub nandwrite : ℕ → Nand S → Nand S
  nandwrite b f = record f { chip = put b f.chip }

  abbrev pub nandread : Nand S → ℕ × Nand S
  nandread f = let (b, s) = get f.chip in (b, record f { chip = s })

  -- `microdelay`
  abbrev pub microdelay : ℕ → Nand S → Nand S
  microdelay l f = record f { chip = wait l f.chip }

  unfoldable pub put_all : List ℕ → S → S
  put_all [] s = s
  put_all (b ∷ buf) s = put_all buf (put b s)

  unfoldable pub get_all : ℕ → S → List ℕ × S
  get_all zero s = ([], s)
  get_all (suc n) s = let (b, s) = get s in let (buf, s) = get_all n s in (b ∷ buf, s)

  abbrev pub nandwriten : List ℕ → Nand S → Nand S
  nandwriten buf f = record f { chip = put_all buf f.chip }

  abbrev pub nandreadn : ℕ → Nand S → List ℕ × Nand S
  nandreadn n f = let (buf, s) = get_all n f.chip in (buf, record f { chip = s })

  abbrev pub nandclaim : Nand S → Nand S
  nandclaim f = record f { ctl = bit_or f.ctl nand_act_ce_boot }

  abbrev pub nandunclaim : Nand S → Nand S
  nandunclaim f = record f { ctl = bit_and f.ctl (complement32 nand_act_ce_boot) }

  abbrev pub is_idle : ℕ → Bool
  is_idle s = bit_and s (s_idle + s_ready) == s_idle + s_ready

  abbrev pub is_ready : ℕ → Bool
  is_ready s = not (bit_and s s_ready == 0)

  abbrev pub has_failed : ℕ → Bool
  has_failed s = not (bit_and s s_fail == 0)

  -- The loop that waits for the end of an operation: `rounds` reads of the status at most, `pause`
  -- microseconds apart. It gives up, or the chip is ready, and has failed or not.
  unfoldable pub poll : (pause rounds : ℕ) → Nand S → Bool × Nand S
  poll pause zero f = (false, nandunclaim f)
  poll pause (suc rounds) f =
      let (s, f) = nandread f in
      let rest = poll pause rounds (microdelay pause f) in
      if is_ready s then (not (has_failed s), nandunclaim f) else rest

-- The chip that nand.c drives by the address of its register: `cle` and `ale` are its two lowest
-- bits.
unfoldable pub archnand_claim : Bool → ℕ → ℕ
archnand_claim true ctl = bit_or ctl nand_act_ce_boot
archnand_claim false ctl = bit_and ctl (complement32 nand_act_ce_boot)

abbrev pub nand_cle : ℕ
nand_cle = 1

abbrev pub nand_ale : ℕ
nand_ale = 2

-- The address is left as it was if both are asked for.
unfoldable pub archnand_setcleandale : (kaddr : ℕ → ℕ) → (addr cle ale : ℕ) → ℕ
archnand_setcleandale kaddr addr cle ale =
    let v = bit_and addr (complement32 (bit_or nand_cle nand_ale)) in
    if bit_and cle ale == 0
    then kaddr
        (bit_or (bit_or v (if cle == 0 then 0 else nand_cle)) (if ale == 0 then 0 else nand_ale))
    else addr
