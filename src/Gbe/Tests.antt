-- ===== src/Gbe/Tests.antt =====
-- The theorems at inputs that meet their hypotheses.
use inferno_kirkwood.Prelude.{
  ◌^◌, ℕ, ◌+◌, ◌*◌, ◌≡◌, ◌⊎◌, refl, arith, true, false, none, some, List, [], ◌∷◌, ◌==◌,
  if◌then◌else◌, ◌<<<◌,
}
use inferno_kirkwood.Port.{ok, fault}
use inferno_kirkwood.Gbe.Defs.{Block, GbeReg, Rx, Tx, Ctlr, Ether}
use inferno_kirkwood.Gbe.Receive.{rcs_macerr, rcs_dmaown, first_last, receive}
use inferno_kirkwood.Gbe.Transmit.{tcs_dmaown}
use inferno_kirkwood.Gbe.Overrun.{IsWhole, receive_full_ring}
use inferno_kirkwood.Gbe.Control.{jumbo_off, ctl}
use inferno_kirkwood.Gbe.Commands.{succeeds, ctl_refuses}
use inferno_kirkwood.Gbe.Smi.{phy_smi_busy, miird}
use inferno_kirkwood.Gbe.Polling.{miird_early}

abbrev reg : GbeReg
reg = record {
  phy = 0;
  smi = 0;
  euirq = 0;
  euirqmask = 0;
  portcfg = 0;
  portcfgx = 0;
  sdc = 0;
  psc0 = 0;
  ps0 = 0;
  tqc = 0;
  psc1 = 0;
  ps1 = 0;
  irq = 0;
  irqe = 0;
  irqmask = 0;
  irqemask = 0;
  pxtfut = 0;
  pxmfs = 0;
  pmtu = 0;
  crdp0 = 0;
  rqc = 0;
  tcqdp0 = 0;
}

abbrev block : ℕ → Block
block i = record { rp = 4096 * i; wp = 4096 * i; lim = 4096 * i + 1524 }

abbrev rx_with : ℕ → ℕ → Rx
rx_with cs i = record { cs = cs; countsize = 100 <<< 16; buf = 4096 * i; next = 0 }

abbrev tx_with : ℕ → Tx
tx_with cs = record { cs = cs; countchk = 0; buf = 0; next = 0 }

-- Descriptor 0 has a packet, descriptor 1 has an error, and the controller owns the others. Of the
-- transmit descriptors the controller owns the first.
abbrev ctlr : Ctlr
ctlr = record {
  reg = reg;
  init = true;
  rx = λ i. rx_with (if i == 0 then first_last else (if i == 1 then rcs_macerr else rcs_dmaown)) i;
  rxb = λ i. some (block i);
  rxhead = 0;
  rxtail = 0;
  tx = λ i. tx_with (if i == 0 then tcs_dmaown else 0);
  txb = λ i. if i == 0 then some (block 1) else none;
  txhead = 1;
  txtail = 0;
  newintrs = 0;
  txunderrun = 0;
  txringfull = 0;
  nofirstlast = 0;
}

-- A packet of 100 bytes waits, and one of 8.
abbrev ether : Ether
ether = record {
  ctlr = ctlr;
  pool_init = true;
  freeblocks = block 600 ∷ [];
  oq =
      record (block 700) { wp = 4096 * 700 + 100 }
      ∷ record (block 701) { wp = 4096 * 701 + 8 }
      ∷ [];
  received = [];
  freed = [];
  minmtu = 60;
  maxmtu = 1522;
  link = true;
  linkchange = false;
  oerrs = 0;
  overflows = 0;
}

-- The controller has filled every descriptor.
abbrev full_ring : Ether
full_ring = record ether { ctlr = record ctlr { rx = rx_with first_last } }

full_ring-IsWhole : IsWhole full_ring.ctlr
full_ring-IsWhole i lt = (refl, refl)

receive_full_ring_example : receive (ok tt) 600 full_ring ≡ fault
receive_full_ring_example =
    receive_full_ring (ok tt) 600 full_ring (omega arith) (omega arith) full_ring-IsWhole
      (λ i lt e. cc)

-- The words of "jumbo off".
abbrev jumbo_off_words : List (List ℕ)
jumbo_off_words = (b'j' ∷ b'u' ∷ b'm' ∷ b'b' ∷ b'o' ∷ []) ∷ (b'o' ∷ b'f' ∷ b'f' ∷ []) ∷ []

ctl_refuses_example :
    let r = ctl (λ p. jumbo_off_words) (λ f table. ok 0) [] ether in
    (succeeds r.0 ≡ false) × ((r.1 ≡ ether) ⊎ (r.1 ≡ jumbo_off ether))
ctl_refuses_example = ctl_refuses (λ p. jumbo_off_words) (λ f table. ok 0) [] ether

-- The PHY is busy at the first look, and has 4660 in the lower half of each later word.
abbrev phy_reads : ℕ → ℕ
phy_reads i = if i == 0 then phy_smi_busy else 4660

miird_early_example : miird 0 phy_reads 1 8 2 ≡ (some 4660, (2 ^ 26 + 2 * 2 ^ 21 + 8 * 2 ^ 16) ∷ [])
miird_early_example = miird_early 0 phy_reads 1 8 2 (omega arith) (omega arith) refl refl
