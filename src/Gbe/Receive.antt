-- ===== src/Gbe/Receive.antt =====
-- etherkirkwood.c: the pool of blocks, and the ring of receive descriptors.
use inferno_kirkwood.Prelude.{
  ℕ, zero, suc, ◌+◌, ◌-◌, ◌^◌, Bool, true, false, not, Option, none, some, [], ◌∷◌, ◌++◌, ◌==◌,
  if◌then◌else◌, update, bit_and, bit_or, complement32, u32, ◌<<<◌, ◌>>>◌,
}
use inferno_kirkwood.Port.{Result, ok, fault, hang, ◌>>=◌, ◌>>◌}
use inferno_kirkwood.Gbe.Defs.{Block, Ctlr, Ether, nrx, rxblocklen, bufalign, next_index}

abbrev pub rcs_macerr : ℕ
rcs_macerr = 1 <<< 0

abbrev pub rcs_last : ℕ
rcs_last = 1 <<< 26

abbrev pub rcs_first : ℕ
rcs_first = 1 <<< 27

abbrev pub rcs_enableintr : ℕ
rcs_enableintr = 1 <<< 29

abbrev pub rcs_dmaown : ℕ
rcs_dmaown = 1 <<< 31

-- `Bufsize(v)`
abbrev pub bufsize : ℕ → ℕ
bufsize v = v <<< 3

-- The block at the head of the list, and the rest.
unfoldable pub rxallocb : Ether → Option Block × Ether
rxallocb e = elim e.freeblocks [ [] ↦ (none, e) | b ∷ bs ↦ (some b, record e { freeblocks = bs }) ]

-- The block with its pointers set back to the start of its memory.
unfoldable pub fresh_block : Block → Block
fresh_block b =
    let rp = bit_and (u32 (b.lim + 2 ^ 32 - rxblocklen)) (complement32 (bufalign - 1)) in
    record b { rp = rp; wp = rp }

unfoldable pub rxfreeb : Block → Ether → Ether
rxfreeb b e = record e { freeblocks = fresh_block b ∷ e.freeblocks }

-- The tail's descriptor and cell for block `b`, and the tail moved on.
unfoldable pub give_block : Block → Ctlr → Ctlr
give_block b c = record c {
  rxb = update c.rxtail (some b) c.rxb;
  rx =
      update c.rxtail
        (record (c.rx c.rxtail) {
          countsize = bufsize rxblocklen;
          buf = b.rp;
          cs = bit_or rcs_dmaown rcs_enableintr;
        })
        c.rx;
  rxtail = next_index c.rxtail nrx;
}

-- The loop, on fuel: the cells at the tail are filled while they are nil and there are blocks.
unfoldable pub replenish_loop : ℕ → Ether → Result Ether
replenish_loop zero e = hang
replenish_loop (suc fuel) e = elim (e.ctlr.rxb e.ctlr.rxtail) [
  | some old ↦ ok e
  | none ↦ elim e.freeblocks [
    | [] ↦ ok e
    | b ∷ bs ↦ replenish_loop fuel (record e { freeblocks = bs; ctlr = give_block b e.ctlr })
  ]
]

unfoldable pub rxreplenish : Ether → Result Ether
rxreplenish e = replenish_loop 513 e

-- The head's cell emptied, and the head moved on.
unfoldable pub take_block : Ctlr → Ctlr
take_block c = record c { rxb = update c.rxhead none c.rxb; rxhead = next_index c.rxhead nrx }

abbrev pub owned : ℕ → Bool
owned cs = not (bit_and cs rcs_dmaown == 0)

abbrev pub first_last : ℕ
first_last = bit_or rcs_first rcs_last

module _ (freeb_nil : Result (Unit {0})) where
  -- `freeb(b)`, which for a block of the pool calls `rxfreeb`.
  unfoldable pub free_received : Option Block → Ether → Result Ether
  free_received none e = freeb_nil >> ok e
  free_received (some b) e = ok (rxfreeb b e)

  -- The packet behind the two bytes of padding.
  unfoldable pub accept : ℕ → Option Block → Ether → Result Ether
  accept countsize none e = fault
  accept countsize (some b) e =
      let b = record b { wp = u32 (b.rp + (countsize >>> 16)); rp = u32 (b.rp + 2) } in
      ok (record e { received = e.received ++ b ∷ [] })

  -- One round on a descriptor that the controller has filled.
  unfoldable pub receive_one : Ether → Result Ether
  receive_one e =
      let r = e.ctlr.rx e.ctlr.rxhead in
      let b = e.ctlr.rxb e.ctlr.rxhead in
      let e = record e { ctlr = take_block e.ctlr } in
      if not (bit_and r.cs rcs_macerr == 0)
      then free_received b e
      else (if not (bit_and r.cs first_last == first_last)
          then free_received b
              (record e { ctlr = record e.ctlr { nofirstlast = u32 (e.ctlr.nofirstlast + 1) } })
          else accept r.countsize b e)

  -- The loop, on fuel, up to the first descriptor that the controller owns.
  unfoldable pub receive_loop : ℕ → Ether → Result Ether
  receive_loop zero e = hang
  receive_loop (suc fuel) e = elim (owned (e.ctlr.rx e.ctlr.rxhead).cs) [
    | true ↦ ok e
    | false ↦ elim (receive_one e) [ ok e' ↦ receive_loop fuel e' | other ↦ other ]
  ]

  unfoldable pub receive : ℕ → Ether → Result Ether
  receive fuel e = do e ← receive_loop fuel e; rxreplenish e
