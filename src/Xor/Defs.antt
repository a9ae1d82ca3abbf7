-- ===== src/Xor/Defs.antt =====
-- The state of xor.c: the ports, and the registers of ports and engines that it writes.
use inferno_kirkwood.Prelude.{ℕ, ◌/◌, Bool}

-- `Port.inuse`
pub data Use : Type 0 where
  unused other meminit : Use

pub record Port : Type 0 where
  pub done : Bool
  pub inuse : Use

-- The registers of a port.
pub record XorReg : Type 0 where
  pub cfg : ℕ
  pub act : ℕ
  pub nextdescr : ℕ
  pub winctl : ℕ
  pub aoctl : ℕ
  pub dest : ℕ
  pub blocksize : ℕ

-- The registers of an engine; of an array each cell that is used.
pub record XoreReg : Type 0 where
  pub irq : ℕ
  pub irqmask : ℕ
  pub bar0 : ℕ
  pub bar1 : ℕ
  pub sizemask0 : ℕ
  pub sizemask1 : ℕ
  pub harr0 : ℕ
  pub harr1 : ℕ
  pub initvallo : ℕ
  pub initvalhi : ℕ

-- Ports 0 and 1 belong to engine 0, ports 2 and 3 to engine 1.
pub record Xor : Type 0 where
  pub ports : ℕ → Port
  pub pr : ℕ → XorReg
  pub er : ℕ → XoreReg

abbrev pub engine : ℕ → ℕ
engine i = i / 2
