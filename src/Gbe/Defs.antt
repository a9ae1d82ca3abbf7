-- ===== src/Gbe/Defs.antt =====
-- The state of etherkirkwood.c: blocks of packet data, the two rings, and what the handlers count.
use inferno_kirkwood.Prelude.{ℕ, ◌+◌, ◌%◌, Bool, Option, List}

-- Of a `Block`, where its data begin and end, and the end of its memory.
pub record Block : Type 0 where
  pub rp : ℕ
  pub wp : ℕ
  pub lim : ℕ

pub record Rx : Type 0 where
  pub cs : ℕ
  pub countsize : ℕ
  pub buf : ℕ
  pub next : ℕ

pub record Tx : Type 0 where
  pub cs : ℕ
  pub countchk : ℕ
  pub buf : ℕ
  pub next : ℕ

-- The registers that are used below; of an array its first cell.
pub record GbeReg : Type 0 where
  pub phy : ℕ
  pub smi : ℕ
  pub euirq : ℕ
  pub euirqmask : ℕ
  pub portcfg : ℕ
  pub portcfgx : ℕ
  pub sdc : ℕ
  pub psc0 : ℕ
  pub ps0 : ℕ
  pub tqc : ℕ
  pub psc1 : ℕ
  pub ps1 : ℕ
  pub irq : ℕ
  pub irqe : ℕ
  pub irqmask : ℕ
  pub irqemask : ℕ
  pub pxtfut : ℕ
  pub pxmfs : ℕ
  pub pmtu : ℕ
  pub crdp0 : ℕ
  pub rqc : ℕ
  pub tcqdp0 : ℕ

-- The rings by index. Of the statistics, those that the handlers below count.
pub record Ctlr : Type 0 where
  pub reg : GbeReg
  pub init : Bool
  pub rx : ℕ → Rx
  pub rxb : ℕ → Option Block
  pub rxhead : ℕ
  pub rxtail : ℕ
  pub tx : ℕ → Tx
  pub txb : ℕ → Option Block
  pub txhead : ℕ
  pub txtail : ℕ
  pub newintrs : ℕ
  pub txunderrun : ℕ
  pub txringfull : ℕ
  pub nofirstlast : ℕ

-- The controller, the list of free blocks that the driver keeps and whether it has been filled, the packets that wait to be sent,
-- those that have been handed to `etheriq`, the latest last, and those that `transmit` has freed.
pub record Ether : Type 0 where
  pub ctlr : Ctlr
  pub pool_init : Bool
  pub freeblocks : List Block
  pub oq : List Block
  pub received : List Block
  pub freed : List Block
  pub minmtu : ℕ
  pub maxmtu : ℕ
  pub link : Bool
  pub linkchange : Bool
  pub oerrs : ℕ
  pub overflows : ℕ

abbrev pub nrx : ℕ
nrx = 512

abbrev pub ntx : ℕ
ntx = 512

abbrev pub rxblocklen : ℕ
rxblocklen = 2 + 1522

abbrev pub bufalign : ℕ
bufalign = 8

-- `NEXT(x, l)`
abbrev pub next_index : ℕ → ℕ → ℕ
next_index x l = (x + 1) % l
