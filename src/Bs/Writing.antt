-- ===== src/Bs/Writing.antt =====
-- What a write of a partition asks of the driver, for sectors of 512 bytes.
use inferno_kirkwood.Prelude.{
  ℕ, ◌+◌, ◌*◌, ◌/◌, ◌%◌, ◌^◌, ◌≤◌, ◌<◌, ◌≡◌, ◌≢◌, refl, ◌∙◌, ◌⊎◌, arith, Bool, true, false, List,
  bit_and, leb, ◌==◌, ◌||◌, not,
}
use Prim.Native.Nat.{min}
use inferno_kirkwood.Prelude.Bits.{bit_and_mask}
use inferno_kirkwood.Port.{Error, Result, ok, err, fault, panic, hang}
use inferno_kirkwood.Part.{Part}
use inferno_kirkwood.Bs.Defs.{Store}
use inferno_kirkwood.Bs.Io.{Extent, needs_bounce, copied, move_back, transfer, io}
use inferno_kirkwood.Bs.Reading.{available, IsRequest, extent_of-eq, sector_extent}

-- Through the other buffer the driver's state is that after its one call, however that ends.
transfer_state :
    {D : Type 0} (dev_io : Bool → ℕ → ℕ → List ℕ → D → Result (ℕ × List ℕ) × D)
    (smalloc : ℕ → List ℕ) (x : Extent) (iswrite : Bool) (buf : List ℕ) (dev : D)
    → needs_bounce x ≡ true
    → (transfer dev_io smalloc x iswrite buf dev).1
      ≡ (dev_io iswrite x.xn x.xs (smalloc x.xn) dev).1
unfolding transfer
transfer_state {D} dev_io smalloc x iswrite buf dev bounced = rw bounced (
    by_result (dev_io iswrite x.xn x.xs (smalloc x.xn) dev).0
      (dev_io iswrite x.xn x.xs (smalloc x.xn) dev).1)
  where
    by_result :
        (result : Result (ℕ × List ℕ)) (dev' : D)
        → (let out : Result (ℕ × List ℕ) × D = elim result [
          | ok (xn, bounce) ↦ (ok (copied x xn, move_back x (copied x xn) bounce buf), dev')
          | err e ↦ (err e, dev')
          | fault ↦ (fault, dev')
          | panic ↦ (panic, dev')
          | hang ↦ (hang, dev')
        ] in
            out.1)
          ≡ dev'
    by_result (ok r) dev' = refl
    by_result (err e) dev' = refl
    by_result fault dev' = refl
    by_result panic dev' = refl
    by_result hang dev' = refl

module _ {D : Type 0} (dev_io : Bool → ℕ → ℕ → List ℕ → D → Result (ℕ × List ℕ) × D)
    (smalloc : ℕ → List ℕ) (d : Store) (p : Part) (buf : List ℕ) (n off : ℕ) (dev : D)
    (ready : d.ready ≡ true) (mask : d.alignmask ≡ 511) (r : IsRequest p n off) where
  -- A write whose offset or length is no multiple of the sector is refused, and nothing reaches
  -- the driver.
  pub io_write_misaligned :
      ((off % 512 ≢ 0) ⊎ (n % 512 ≢ 0))
      → io dev_io smalloc d p true buf n off dev ≡ (err Error.bad_align, dev)
  unfolding io
  io_write_misaligned h =
      let valid : (leb (2 ^ 63) off || leb (2 ^ 31) n) ≡ false = ground (arith, r.near, r.short) in
      let bad : (not (bit_and off 511 == 0) || not (bit_and n 511 == 0)) ≡ true =
        ground (arith, bit_and_mask 9 off, bit_and_mask 9 n) in
      rw (ready, valid, mask, bad) refl

  module _ (off_aligned : off % 512 ≡ 0) (n_aligned : n % 512 ≡ 0) (s_aligned : p.s % 512 ≡ 0)
      (size_aligned : p.size % 512 ≡ 0) where
    -- What an aligned write comes to.
    io_write-transfer :
        io dev_io smalloc d p true buf n off dev
        ≡ transfer dev_io smalloc
            (sector_extent (min off p.size + p.s) (available p n off))
            true
            buf
            dev
    unfolding io
    io_write-transfer =
        let valid : (leb (2 ^ 63) off || leb (2 ^ 31) n) ≡ false =
          ground (arith, r.near, r.short) in
        let good : (not (bit_and off 511 == 0) || not (bit_and n 511 == 0)) ≡ false =
          ground (arith, bit_and_mask 9 off, bit_and_mask 9 n) in
        rw (ready, valid, mask, good, extent_of-eq p n off r) refl

    -- An aligned write through a partition of whole sectors, at a place below 4 GB, is one call of
    -- the driver at that place with the caller's buffer, for the bytes within the partition.
    pub io_write_low :
        min off p.size + p.s < 2 ^ 32
        → io dev_io smalloc d p true buf n off dev
          ≡ dev_io true (available p n off) (min off p.size + p.s) buf dev
    unfolding transfer needs_bounce
    io_write_low low =
        let s = min off p.size + p.s in
        let m = available p n off in
        let at : s % 2 ^ 32 / 512 * 512 ≡ s = omega arith in
        let long : (m + s % 512 + 511) / 512 * 512 ≡ m = omega arith in
        rw io_write-transfer (rw (at, long) (ground arith))

    -- A write through a partition of whole sectors, with an offset and a length that are multiples
    -- of 512, at a place of the disk from 4 GB on, leaves the device as a call of the driver with
    -- what `smalloc` returns instead of the buffer, at that place modulo 2^32.
    pub io_write_high :
        2 ^ 32 ≤ min off p.size + p.s
        → (io dev_io smalloc d p true buf n off dev).1
          ≡ (dev_io true
              (available p n off)
              ((min off p.size + p.s) % 2 ^ 32)
              (smalloc (available p n off))
              dev).1
    unfolding transfer needs_bounce
    io_write_high high =
        let s = min off p.size + p.s in
        let m = available p n off in
        let at : s % 2 ^ 32 / 512 * 512 ≡ s % 2 ^ 32 = omega arith in
        let long : (m + s % 512 + 511) / 512 * 512 ≡ m = omega arith in
        let bounced : needs_bounce (sector_extent s m) ≡ true = ground arith in
        rw io_write-transfer (
          transfer_state dev_io smalloc (sector_extent s m) true buf dev bounced
          ∙ (rw (at, long) refl))
