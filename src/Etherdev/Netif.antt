-- ===== src/Etherdev/Netif.antt =====
-- What devether.c knows of an interface and of its connections, and the portable kernel's
-- operations on queues and blocks that it calls.
use inferno_kirkwood.Prelude.{ℕ, ◌+◌, Bool, Option, List, get_or, take, drop, ◌<<<◌}

-- A connection: the number of its queue `in`, the type of packets that it wants, `none` for a
-- negative one that stands for all, and its flags.
pub record Netfile : Type 0 where
  pub queue : ℕ
  pub type : Option ℕ
  pub prom : Bool
  pub bridge : Bool
  pub headersonly : Bool

pub record Ether : Type 0 where
  pub f : List (Option Netfile)
  pub inpackets : ℕ
  pub outpackets : ℕ
  pub soverflows : ℕ
  pub prom : Bool
  pub ea : List ℕ
  pub bcast : List ℕ
  pub minmtu : ℕ
  pub maxmtu : ℕ

-- On a world of queues and memory: `qpass` hands a packet to a queue, and says whether there was
-- room; `qwindow` says whether there is room; `iallocb` gives the memory of a block, if there is
-- any; `qbwrite` writes to the queue of the controller; `transmit` is the driver's.
pub record Kernel (W : Type 0) : Type 0 where
  pub qpass : ℕ → List ℕ → W → Bool × W
  pub qwindow : ℕ → W → Bool
  pub iallocb : ℕ → W → Option (List ℕ) × W
  pub freeb : List ℕ → W → W
  pub qbwrite : List ℕ → W → W
  pub transmit : W → W

-- A packet's fields. What is read past the end of a short packet is the rest of the block's memory.
abbrev pub dest_of : List ℕ → List ℕ
dest_of pkt = take 6 pkt

abbrev pub source_of : List ℕ → List ℕ
source_of pkt = take 6 (drop 6 pkt)

abbrev pub type_of : List ℕ → ℕ
type_of pkt = (get_or pkt 12 0 <<< 8) + get_or pkt 13 0
