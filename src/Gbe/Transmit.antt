-- ===== src/Gbe/Transmit.antt =====
-- etherkirkwood.c: the ring of transmit descriptors.
use inferno_kirkwood.Prelude.{
  ℕ, zero, suc, ◌+◌, ◌-◌, ◌^◌, Bool, true, false, not, none, some, List, [], ◌∷◌, ◌++◌, ltb, ◌==◌,
  ◌||◌, if◌then◌else◌, update, bit_and, bit_or, u32, ◌<<<◌,
}
use inferno_kirkwood.Port.{Result, ok, panic, hang, ◌>>=◌}
use inferno_kirkwood.Gbe.Defs.{Block, Ctlr, Ether, ntx, next_index}

abbrev pub tcs_padding : ℕ
tcs_padding = 1 <<< 19

abbrev pub tcs_last : ℕ
tcs_last = 1 <<< 20

abbrev pub tcs_first : ℕ
tcs_first = 1 <<< 21

abbrev pub tcs_enableintr : ℕ
tcs_enableintr = 1 <<< 23

abbrev pub tcs_dmaown : ℕ
tcs_dmaown = 1 <<< 31

-- `Txqenable(q)`.
unfoldable pub txqenable : ℕ → ℕ
txqenable q = 1 <<< q

abbrev pub tx_owned : ℕ → Bool
tx_owned cs = not (bit_and cs tcs_dmaown == 0)

-- `BLEN(b)`, with pointers of 32 bits.
abbrev pub blen : Block → ℕ
blen b = u32 (b.wp + 2 ^ 32 - b.rp)

-- The tail's block freed, its cell emptied, and the tail moved on.
unfoldable pub free_sent : Block → Ether → Ether
free_sent b e = record e {
  freed = e.freed ++ b ∷ [];
  ctlr = record e.ctlr {
    txb = update e.ctlr.txtail none e.ctlr.txb;
    txtail = next_index e.ctlr.txtail ntx;
  };
}

-- The first loop, on fuel. It ends at a descriptor that the controller does not own.
unfoldable pub reclaim_loop : ℕ → Ether → Result Ether
reclaim_loop zero e = hang
reclaim_loop (suc fuel) e =
    elim (e.ctlr.txtail == e.ctlr.txhead || not (tx_owned (e.ctlr.tx e.ctlr.txtail).cs)) [
      | true ↦ ok e
      | false ↦ elim (e.ctlr.txb e.ctlr.txtail) [
        | none ↦ panic
        | some b ↦ reclaim_loop fuel (free_sent b e)
      ]
    ]

-- The head's descriptor and cell for packet `b`, the queue enabled, and the head moved on.
unfoldable pub queue_packet : Block → Ctlr → Ctlr
queue_packet b c = record c {
  txb = update c.txhead (some b) c.txb;
  tx =
      update c.txhead
        (record (c.tx c.txhead) {
          countchk = u32 (blen b <<< 16);
          buf = b.rp;
          cs =
              bit_or (bit_or (bit_or (bit_or tcs_padding tcs_first) tcs_last) tcs_enableintr)
                tcs_dmaown;
        })
        c.tx;
  reg = record c.reg { tqc = txqenable 0 };
  txhead = next_index c.txhead ntx;
}

-- The second loop over the packets that wait. It ends at a descriptor that the controller owns.
unfoldable pub queue_loop : List Block → Ether → Ether
queue_loop [] e = record e { oq = [] }
queue_loop (b ∷ oq) e =
    let full = record e {
      oq = b ∷ oq;
      ctlr = record e.ctlr { txringfull = u32 (e.ctlr.txringfull + 1) };
    } in
    let dropped = queue_loop oq (record e { freed = e.freed ++ b ∷ [] }) in
    let queued = queue_loop oq (record e { ctlr = queue_packet b e.ctlr }) in
    if tx_owned (e.ctlr.tx e.ctlr.txhead).cs
    then full
    else (if ltb (blen b) e.minmtu || ltb e.maxmtu (blen b) then dropped else queued)

unfoldable pub transmit : Ether → Result Ether
transmit e = do e ← reclaim_loop 513 e; ok (queue_loop e.oq e)
