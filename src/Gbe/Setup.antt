-- ===== src/Gbe/Setup.antt =====
-- etherkirkwood.c: the set-up of the controller when the device is attached.
use inferno_kirkwood.Prelude.{
  ℕ, zero, suc, ◌+◌, ◌-◌, ◌*◌, ◌/◌, ◌^◌, true, Option, none, some, List, ◌∷◌, if◌then◌else◌,
  bit_and, bit_or, low_mask, u32, ◌<<<◌, ◌>>>◌, update,
}
use inferno_kirkwood.Port.{Result, ok, panic, ◌>>=◌}
use inferno_kirkwood.Gbe.Defs.{Block, GbeReg, Rx, Tx, Ctlr, Ether, nrx, ntx, next_index}
use inferno_kirkwood.Gbe.Receive.{rxreplenish}
use inferno_kirkwood.Gbe.Control.{bit_set, ps0_linkup, set_reg}

abbrev pub nrxblocks : ℕ
nrxblocks = nrx + 50

-- The loop that fills the pool, by the rounds left; `iallocb i` is what call `i` returns.
unfoldable pub fill_pool : (iallocb : ℕ → Option Block) → ℕ → ℕ → List Block → List Block
fill_pool iallocb zero i pool = pool
fill_pool iallocb (suc rounds) i pool = elim (iallocb i) [
  | none ↦ pool
  | some b ↦ fill_pool iallocb rounds (i + 1) (b ∷ pool)
]

unfoldable pub init_pool : (iallocb : ℕ → Option Block) → Ether → Ether
init_pool iallocb e =
    if e.pool_init
    then e
    else record e { freeblocks = fill_pool iallocb nrxblocks 0 e.freeblocks; pool_init = true }

-- The loop over the receive descriptors, which lie at `at`, by the rounds left.
unfoldable pub clear_rx : (at : ℕ) → ℕ → ℕ → Ctlr → Ctlr
clear_rx at zero i c = c
clear_rx at (suc rounds) i c = clear_rx at rounds (i + 1) (record c {
  rx = update i (record (c.rx i) { cs = 0; next = u32 (at + 16 * next_index i nrx) }) c.rx;
  rxb = update i none c.rxb;
})

unfoldable pub clear_tx : (at : ℕ) → ℕ → ℕ → Ctlr → Ctlr
clear_tx at zero i c = c
clear_tx at (suc rounds) i c = clear_tx at rounds (i + 1) (record c {
  tx = update i (record (c.tx i) { cs = 0; next = u32 (at + 16 * next_index i ntx) }) c.tx;
  txb = update i none c.txb;
})

-- The receive ring, in the memory that `xspanalloc` gave, refilled.
unfoldable pub init_rx : Option (ℕ × (ℕ → Rx)) → Ether → Result Ether
init_rx none e = panic
init_rx (some (at, mem)) e = rxreplenish (record e {
  ctlr = record (clear_rx at nrx 0 (record e.ctlr { rx = mem })) { rxtail = 0; rxhead = 0 };
})

unfoldable pub init_tx : Option (ℕ × (ℕ → Tx)) → Ether → Result Ether
init_tx none e = panic
init_tx (some (at, mem)) e = ok (record e {
  ctlr = record (clear_tx at ntx 0 (record e.ctlr { tx = mem })) { txtail = 0; txhead = 0 };
})

-- `SDCipgintrx(v)` and `TFUTipginttx(v)`
abbrev ipg_rx : ℕ → ℕ
ipg_rx v = bit_or (bit_and (v >>> 15) 1 <<< 25) (bit_and v (low_mask 15) <<< 7)

abbrev ipg_tx : ℕ → ℕ
ipg_tx v = bit_and v (low_mask 16) <<< 4

abbrev clockfreq : ℕ
clockfreq = 200 * 1000 * 1000

-- `SDCrifb|SDCrxburst(Burst16)|SDCrxnobyteswap|SDCtxnobyteswap|SDCtxburst(Burst16)`
abbrev sdc_mode : ℕ
sdc_mode = bit_or (bit_or (bit_or (bit_or (1 <<< 0) (4 <<< 1)) (1 <<< 4)) (1 <<< 5)) (4 <<< 22)

-- `PSC1rgmii|PSC1encolonbp|PSC1coldomainlimit(0x23)`
abbrev psc1_mode : ℕ
psc1_mode = bit_or (bit_or (1 <<< 3) (1 <<< 15)) (bit_and 35 (low_mask 6) <<< 16)

-- `PSC0portenable|PSC0autonegflowcontroldisable|PSC0autonegpauseadv|PSC0noforcelinkdown`, and
-- `PSC0mru(PSC0mru1522)`
abbrev psc0_mode : ℕ
psc0_mode = bit_or (bit_or (bit_or (bit_or (1 <<< 0) (1 <<< 3)) (1 <<< 4)) (1 <<< 10)) (1 <<< 17)

-- The registers before `archetheraddr`; `rx_at` and `tx_at` are where the rings lie.
unfoldable pub init_regs : (rx_at tx_at : ℕ) → Ctlr → GbeReg
init_regs rx_at tx_at c = record c.reg {
  portcfg = 0;
  portcfgx = 0;
  pxmfs = 16 <<< 2;
  sdc = bit_or sdc_mode (ipg_rx (clockfreq / (800 * 64)));
  pxtfut = ipg_tx (clockfreq / (800 * 64));
  irqmask = 2 ^ 32 - 1;
  irqemask = 2 ^ 32 - 1;
  irq = 0;
  irqe = 0;
  euirqmask = 0;
  euirq = 0;
  tcqdp0 = u32 (tx_at + 16 * c.txhead);
  crdp0 = u32 (rx_at + 16 * c.rxhead);
}

-- The registers after `archetheraddr`, and the link's state.
unfoldable pub start_port : Ether → Ether
start_port e =
    let e = set_reg e (record e.ctlr.reg { rqc = 1 <<< 0; psc1 = psc1_mode; psc0 = psc0_mode }) in
    let e = record e { link = bit_set e.ctlr.reg.ps0 ps0_linkup } in
    set_reg e (record e.ctlr.reg { pmtu = 0 })

abbrev address {ℓ} : {A : Type ℓ} → Option (ℕ × A) → ℕ
address none = 0
address (some (at, mem)) = at

-- `read_fake` is what comes of `getmibstats` for a controller whose pointer to the registers has
-- not been set.
module _ (iallocb : ℕ → Option Block) (rx_mem : Option (ℕ × (ℕ → Rx)))
    (tx_mem : Option (ℕ × (ℕ → Tx))) (read_fake : Result (Unit {0}))
    (archetheraddr : Ether → Ether) where
  unfoldable pub ctlrinit : Ether → Result Ether
  ctlrinit e = do
    e ← init_rx rx_mem (init_pool iallocb e)
    e ← init_tx tx_mem e
    done ← read_fake
    ok (start_port (archetheraddr (set_reg e (init_regs (address rx_mem) (address tx_mem) e.ctlr))))

  unfoldable pub attach : Ether → Result Ether
  attach e =
      if e.ctlr.init
      then ok e
      else (do e ← ctlrinit e; ok (record e { ctlr = record e.ctlr { init = true } }))
