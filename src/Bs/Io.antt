-- ===== src/Bs/Io.antt =====
-- `io` of devbs.c: a read or write of a partition, made of one aligned call of the driver. The
-- `vlong`s are 64-bit patterns and the `long`s 32-bit ones. The driver's function is a parameter,
-- over a state of its own: it gets whether to write, how many bytes at which offset, and the
-- buffer, and gives the count that it returns and the buffer afterwards. `smalloc` is another.
use inferno_kirkwood.Prelude.{
  complement32, ℕ, ◌+◌, ◌-◌, ◌^◌, Bool, List, ◌++◌, bit_and, ltb, leb, ◌==◌, ◌&&◌, ◌||◌, not,
  if◌then◌else◌, take, drop, u32, u64, signed_ltb,
}
use inferno_kirkwood.Port.{Error, Result, ok, err, fault, panic, hang}
use inferno_kirkwood.Part.{Part}
use inferno_kirkwood.Bs.Defs.{Store}

-- A `long` as a `vlong`.
abbrev pub sign_extend : ℕ → ℕ
sign_extend n = if ltb n (2 ^ 31) then n else n + 2 ^ 64 - 2 ^ 32

abbrev pub is_negative64 : ℕ → Bool
is_negative64 x = leb (2 ^ 63) x

abbrev pub is_negative32 : ℕ → Bool
is_negative32 x = leb (2 ^ 31) x

-- What `io` computes before it calls the driver: the extent on the disk and the aligned one.
pub record Extent : Type 0 where
  pub s : ℕ
  pub n : ℕ
  pub xs : ℕ
  pub xn : ℕ

unfoldable pub clip : ℕ → ℕ → ℕ
clip x size = if signed_ltb size x then size else x

unfoldable pub extent_of : ℕ → Part → ℕ → ℕ → Extent
unfolding clip
extent_of mask p n off =
    let s = u64 (clip off p.size + p.s) in
    let e = u64 (clip (u64 (off + n)) p.size + p.s) in
    let n' = u32 (e + 2 ^ 64 - s) in
    record {
      s = s;
      n = n';
      xs = bit_and s (complement32 mask);
      xn = u32 (bit_and (u64 (sign_extend n' + bit_and s mask + mask)) (complement32 mask));
    }

-- Whether the caller's buffer is not used for the transfer.
unfoldable pub needs_bounce : Extent → Bool
needs_bounce x = not (x.xs == x.s) || not (x.xn == x.n)

-- The count that is returned after a transfer of `xn` bytes through the other buffer.
unfoldable pub copied : Extent → ℕ → ℕ
copied x xn =
    let xn = u32 (xn + 2 ^ 32 - u32 (x.s + 2 ^ 64 - x.xs)) in
    let xn = if is_negative32 xn then 0 else xn in if ltb x.n xn then x.n else xn

-- `memmove(origbuf, (uchar*)buf+(s-xs), xn)`; a pointer has 32 bits.
unfoldable pub move_back : Extent → ℕ → List ℕ → List ℕ → List ℕ
move_back x xn buf origbuf = take xn (drop (u32 (x.s + 2 ^ 64 - x.xs)) buf) ++ drop xn origbuf

module _ {D : Type 0} (dev_io : Bool → ℕ → ℕ → List ℕ → D → Result (ℕ × List ℕ) × D)
    (smalloc : ℕ → List ℕ) where
  -- The transfer, with the result, the caller's buffer and the driver's state afterwards.
  unfoldable pub transfer : Extent → Bool → List ℕ → D → Result (ℕ × List ℕ) × D
  transfer x iswrite buf dev =
      if needs_bounce x
      then (let (r, dev') = dev_io iswrite x.xn x.xs (smalloc x.xn) dev in
          elim r [
            | ok (xn, bounce) ↦ (ok (copied x xn, move_back x (copied x xn) bounce buf), dev')
            | err e ↦ (err e, dev')
            | fault ↦ (fault, dev')
            | panic ↦ (panic, dev')
            | hang ↦ (hang, dev')
          ])
      else dev_io iswrite x.xn x.xs buf dev

  unfoldable pub io : Store → Part → Bool → List ℕ → ℕ → ℕ → D → Result (ℕ × List ℕ) × D
  io d p iswrite buf n off dev =
      if not d.ready
      then (err Error.no_disk, dev)
      else (if is_negative64 off || is_negative32 n
          then (err Error.bad_arg, dev)
          else (if iswrite
                && (not (bit_and off d.alignmask == 0) || not (bit_and n d.alignmask == 0))
              then (err Error.bad_align, dev)
              else transfer (extent_of d.alignmask p n off) iswrite buf dev))
