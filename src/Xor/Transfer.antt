-- ===== src/Xor/Transfer.antt =====
-- xor.c: the four transfers, from the check of the arguments to the start of the engine, and their
-- ends. The caller waits for the port before, and for its interrupt between.
use inferno_kirkwood.Prelude.{
  ℕ, ◌+◌, ◌-◌, ◌*◌, ◌^◌, List, [], ◌∷◌, ltb, leb, ◌==◌, ◌||◌, if◌then◌else◌, update, set, length,
  bit_and, bit_or, complement32, low_mask, u32, ◌<<<◌, ◌>>>◌,
}
use inferno_kirkwood.Port.{Result, ok, fault, panic, ◌>>=◌}
use inferno_kirkwood.Xor.Defs.{XorReg, Xor, engine}
use inferno_kirkwood.Xor.Ports.{portput}
use inferno_kirkwood.Xor.Setup.{xe_start}

-- `size` is a power of two.
unfoldable pub roundup : ℕ → ℕ → ℕ
roundup v size = bit_and (u32 (v + size - 1)) (complement32 (size - 1))

abbrev pub descralign : ℕ
descralign = 32

abbrev pub xdescralign : ℕ
xdescralign = 64

-- The bytes of a `Descr` and of an `XDescr`.
abbrev pub descr_size : ℕ
descr_size = 8 * 4

abbrev pub xdescr_size : ℕ
xdescr_size = 16 * 4

pub record Descr : Type 0 where
  pub status : ℕ
  pub crc32 : ℕ
  pub cmd : ℕ
  pub nextdescr : ℕ
  pub bytecount : ℕ
  pub dest : ℕ
  pub src : ℕ

-- `src` are the eight words of the array.
pub record XDescr : Type 0 where
  pub status : ℕ
  pub crc32 : ℕ
  pub cmd : ℕ
  pub nextdescr : ℕ
  pub bytecount : ℕ
  pub dest : ℕ
  pub src : List ℕ

-- The configuration with both bursts of 32 bytes.
abbrev config : ℕ → ℕ
config mode = bit_or (bit_or mode (bit_and 2 (low_mask 3) <<< 4)) (bit_and 2 (low_mask 3) <<< 8)

abbrev mode_xor : ℕ
mode_xor = 0

abbrev mode_crc32c : ℕ
mode_crc32c = 1

abbrev mode_dma : ℕ
mode_dma = 2

abbrev mode_meminit : ℕ
mode_meminit = 4

abbrev pub s_success : ℕ
s_success = 1 <<< 30

abbrev pub s_dmaowned : ℕ
s_dmaowned = 1 <<< 31

abbrev pub c_crclast : ℕ
c_crclast = 1 <<< 30

abbrev max_bytes : ℕ
max_bytes = 16 * 1024 * 1024

unfoldable pub set_pr : ℕ → XorReg → Xor → Xor
set_pr i r x = record x { pr = update i r x.pr }

-- The registers of port `i` for a descriptor at `d`.
unfoldable pub run_descr : ℕ → ℕ → ℕ → Xor → Xor
run_descr i mode d x =
    set_pr i (record (x.pr i) { cfg = config mode; nextdescr = d; act = xe_start }) x

-- `n` is a `long`, `v` has 64 bits.
unfoldable pub meminitdma : ℕ → ℕ → ℕ → ℕ → Xor → Result Xor
meminitdma i buf n v x =
    if ltb n 128 || leb (2 ^ 31) n
    then panic
    else (let r = record (x.pr i) {
      cfg = config mode_meminit;
      dest = buf;
      blocksize = n;
      act = xe_start;
    } in
        let e = record (x.er (engine i)) { initvallo = u32 v; initvalhi = u32 (v >>> 32) } in
        ok (record (set_pr i r x) { er = update (engine i) e x.er }))

-- The descriptor as the memory at `d` held it goes in, and comes out as it is written.
unfoldable pub crc32cdma : ℕ → ℕ → ℕ → ℕ → Descr → Xor → Result (Descr × Xor)
crc32cdma i buf n d old x =
    if ltb max_bytes n
    then panic
    else ok (
      record old {
        status = s_dmaowned;
        cmd = c_crclast;
        nextdescr = 0;
        bytecount = n;
        dest = 0;
        src = buf;
      },
      run_descr i mode_crc32c (roundup d descralign) x,
    )

unfoldable pub memdma : ℕ → ℕ → ℕ → ℕ → ℕ → Descr → Xor → Result (Descr × Xor)
memdma i dst src n d old x =
    if ltb max_bytes n
    then panic
    else ok (
      record old {
        status = s_dmaowned;
        cmd = 0;
        nextdescr = 0;
        bytecount = n;
        dest = dst;
        src = src;
      },
      run_descr i mode_dma (roundup d descralign) x,
    )

-- The loop that stores the addresses from `j` on; the array has as many words as `cells`.
unfoldable pub store_sources : ℕ → List ℕ → List ℕ → Result (List ℕ)
store_sources j [] cells = ok cells
store_sources j (a ∷ src) cells =
    let rest = store_sources (j + 1) src (set cells j a) in
    if ltb j (length cells) then rest else fault

unfoldable pub xordma : ℕ → ℕ → List ℕ → ℕ → ℕ → XDescr → Xor → Result (XDescr × Xor)
xordma i dst src n d old x = if ltb max_bytes n then panic else (do
  cells ← store_sources 0 src old.src
  ok (
    record old {
      status = s_dmaowned;
      cmd = low_mask (length src);
      nextdescr = 0;
      bytecount = n;
      dest = dst;
      src = cells;
    },
    run_descr i mode_xor (roundup d xdescralign) x,
  ))

-- The end of a transfer by a descriptor: its status is checked and the port given back.
unfoldable pub dma_end : ℕ → ℕ → Xor → Result Xor
dma_end i status x = if status == s_success then ok (portput i x) else panic
