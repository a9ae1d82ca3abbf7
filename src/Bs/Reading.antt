-- ===== src/Bs/Reading.antt =====
-- Which bytes of the disk a read of a partition returns, for sectors of 512 bytes, which is what
-- the one store of the repository has (kwsdio.c).
use inferno_kirkwood.Prelude.{
  complement32, ℕ, zero, suc, ◌+◌, ◌-◌, ◌*◌, ◌/◌, ◌%◌, ◌^◌, ◌≤◌, ◌<◌, ◌≡◌, refl, ap, ◌∙◌, inl, inr,
  arith, Bool, true, false, List, [], ◌∷◌, ◌++◌, bit_and, leb, ◌||◌, take, drop, length, Bool-cases,
  u32, u64,
}
use Prim.Native.Nat.{min}
use inferno_kirkwood.Prelude.Bits.{bit_and_split, bit_and_mask, bit_and-zero}
use inferno_kirkwood.Port.{Result, ok}
use inferno_kirkwood.Part.{Part}
use inferno_kirkwood.Bs.Defs.{Store}
use inferno_kirkwood.Bs.Io.{
  sign_extend, Extent, clip, extent_of, needs_bounce, copied, move_back, transfer, io,
}

-- `n` bytes of the contents from `off` on
abbrev pub slice : (ℕ → ℕ) → ℕ → ℕ → List ℕ
slice content off zero = []
slice content off (suc n) = content off ∷ slice content (off + 1) n

length-slice : (content : ℕ → ℕ) (off n : ℕ) → length (slice content off n) ≡ n
length-slice content off zero = refl
length-slice content off (suc n) = ap suc (length-slice content (off + 1) n)

take-slice :
    (content : ℕ → ℕ) (off n m : ℕ) (rest : List ℕ)
    → m ≤ n
    → take m (slice content off n ++ rest) ≡ slice content off m
take-slice content off n zero rest h = refl
take-slice content off zero (suc m) rest h = absurd (omega arith)
take-slice content off (suc n) (suc m) rest h =
    ap (λ l. content off ∷ l) (take-slice content (off + 1) n m rest (omega arith))

take-drop-slice :
    (content : ℕ → ℕ) (off n b m : ℕ) (rest : List ℕ)
    → b + m ≤ n
    → take m (drop b (slice content off n ++ rest)) ≡ slice content (off + b) m
take-drop-slice content off n zero m rest h =
    let e : off + 0 ≡ off = omega arith in rw e (take-slice content off n m rest (omega arith))
take-drop-slice content off zero (suc b) m rest h = absurd (omega arith)
take-drop-slice content off (suc n) (suc b) m rest h =
    let e : off + suc b ≡ off + 1 + b = omega arith in
    rw e (take-drop-slice content (off + 1) n b m rest (omega arith))

-- `x & ~511` with the complement of a 32-bit mask
and_complement : (x : ℕ) → bit_and x (complement32 511) ≡ x % 2 ^ 32 / 512 * 512
and_complement x = ground (
  arith,
  bit_and_split 32 (x / 2 ^ 32) 0 (x % 2 ^ 32) (2 ^ 32 - 512),
  bit_and-zero (x / 2 ^ 32),
  bit_and_split 9 (x % 2 ^ 32 / 512) (2 ^ 23 - 1) (x % 512) 0,
  bit_and-zero (x % 512),
  bit_and_mask 23 (x % 2 ^ 32 / 512),
)

-- The bytes that lie within the partition.
abbrev pub available : Part → ℕ → ℕ → ℕ
available p n off = min (off + n) p.size - min off p.size

-- A partition and a request whose numbers are those of the `vlong`s and `long`s.
pub record IsRequest (p : Part) (n off : ℕ) : Type 0 where
  pub on_disk : p.s + p.size < 2 ^ 63
  pub near : off + n < 2 ^ 63
  pub short : n < 2 ^ 30

clip-eq-min : (x size : ℕ) → x < 2 ^ 63 → size < 2 ^ 63 → clip x size ≡ min x size
unfolding clip
clip-eq-min x size hx hs = ground arith

-- The length of the aligned extent, for a start and a length of the request.
aligned_length :
    (s m : ℕ)
    → m < 2 ^ 30
    → u32 (bit_and (u64 (sign_extend m + bit_and s 511 + 511)) (complement32 511))
      ≡ (m + s % 512 + 511) / 512 * 512
aligned_length s m h = ground (arith, and_complement (m + s % 512 + 511), bit_and_mask 9 s)

pub extent_of-eq :
    (p : Part) (n off : ℕ)
    → IsRequest p n off
    → let s = min off p.size + p.s in
      let m = available p n off in
      extent_of 511 p n off
      ≡ record { s = s; n = m; xs = s % 2 ^ 32 / 512 * 512; xn = (m + s % 512 + 511) / 512 * 512 }
unfolding extent_of
extent_of-eq p n off r =
    let m = available p n off in
    let s = min off p.size + p.s in
    let low : clip off p.size ≡ min off p.size =
      clip-eq-min off p.size (omega (arith, r.near)) (omega (arith, r.on_disk)) in
    let high : clip (u64 (off + n)) p.size ≡ min (off + n) p.size =
      ap (λ (t : ℕ). clip t p.size) (let e : u64 (off + n) ≡ off + n = omega (arith, r.near) in e)
      ∙ clip-eq-min (off + n) p.size (omega (arith, r.near)) (omega (arith, r.on_disk)) in
    let start : u64 (min off p.size + p.s) ≡ s = omega (arith, r.on_disk) in
    let length_eq : u32 (u64 (min (off + n) p.size + p.s) + 2 ^ 64 - s) ≡ m =
      omega (arith, r.on_disk, r.short) in
    rw (low, high, start, length_eq)
      (cc (and_complement s, aligned_length s m (omega (arith, r.short))))

-- The extent that `extent_of` gives for `m` bytes from `s` on.
abbrev pub sector_extent : ℕ → ℕ → Extent
sector_extent s m = record {
  s = s;
  n = m;
  xs = s % 2 ^ 32 / 512 * 512;
  xn = (m + s % 512 + 511) / 512 * 512;
}

copied-eq :
    (s m : ℕ)
    → m < 2 ^ 30
    → s < 2 ^ 63
    → copied (sector_extent s m) ((m + s % 512 + 511) / 512 * 512) ≡ m
unfolding copied
copied-eq s m hm hs = ground arith

offset_eq : (s : ℕ) → s < 2 ^ 63 → u32 (s + 2 ^ 64 - s % 2 ^ 32 / 512 * 512) ≡ s % 512
offset_eq s h = omega arith

move_back-eq :
    (content : ℕ → ℕ) (s m : ℕ) (rest buf : List ℕ)
    → s < 2 ^ 63
    → let x = sector_extent s m in
      move_back x m (slice content x.xs x.xn ++ rest) buf
      ≡ slice content (s % 2 ^ 32) m ++ drop m buf
unfolding move_back
move_back-eq content s m rest buf hs =
    let x = sector_extent s m in
    let start : x.xs + s % 512 ≡ s % 2 ^ 32 = omega arith in
    rw (offset_eq s hs, take-drop-slice content x.xs x.xn (s % 512) m rest (omega arith), start)
      refl

-- What a driver does that reads whole sectors in full: for up to `limit` bytes, a whole number of
-- sectors, from the start of a sector on, the count is that asked for, the bytes are those of the
-- device from the offset on, and its state stays. Nothing is said of other requests.
pub record IsReader {D : Type 0} (dev_io : Bool → ℕ → ℕ → List ℕ → D → Result (ℕ × List ℕ) × D)
    (content : D → ℕ → ℕ) (limit : ℕ) : Type 0 where
  pub reads :
      (n off : ℕ) (buf : List ℕ) (dev : D)
      → n ≤ limit
      → n % 512 ≡ 0
      → off % 512 ≡ 0
      → off < 2 ^ 32
      → dev_io false n off buf dev ≡ (ok (n, slice (content dev) off n ++ drop n buf), dev)

module _ {D : Type 0} (dev_io : Bool → ℕ → ℕ → List ℕ → D → Result (ℕ × List ℕ) × D)
    (smalloc : ℕ → List ℕ) (content : D → ℕ → ℕ) (limit : ℕ)
    (reader : IsReader dev_io content limit) where
  transfer_sectors :
      (s m : ℕ) (buf : List ℕ) (dev : D)
      → s < 2 ^ 63
      → m < 2 ^ 30
      → m + 1022 ≤ limit
      → transfer dev_io smalloc (sector_extent s m) false buf dev
        ≡ (ok (m, slice (content dev) (s % 2 ^ 32) m ++ drop m buf), dev)
  unfolding transfer needs_bounce
  transfer_sectors s m buf dev hs hm few =
      let x = sector_extent s m in
      let read = λ (b : List ℕ).
        reader.reads x.xn x.xs b dev (omega arith) (omega arith) (omega arith) (omega arith) in
      elim (Bool-cases (needs_bounce x)) [
        | inl bounced ↦
            rw
              (
                bounced,
                read (smalloc x.xn),
                copied-eq s m hm hs,
                move_back-eq (content dev) s m (drop x.xn (smalloc x.xn)) buf hs,
              )
              (λ i. (
                ok (m, slice (content dev) (s % 2 ^ 32) m ++ drop m buf),
                (read (smalloc x.xn) i).1,
              ))
        | inr direct ↦
            let at : x.xs ≡ s = ground (arith, direct) in
            let long : x.xn ≡ m = ground (arith, direct) in
            rw (direct, read buf, at, long)
              (let low : s % 2 ^ 32 ≡ s = omega (arith, at) in rw low refl)
      ]

  -- Where the driver reads whole sectors in full, up to `limit` bytes at once, a read through a
  -- partition of a ready store with sectors of 512 bytes, for a request of less than 2^30 bytes
  -- and at least 1022 less than `limit`, whose numbers do not overflow, returns as many bytes as lie within the
  -- partition: those of the device from the request's place in the partition on, but with that
  -- place taken modulo 2^32. The rest of the buffer stays.
  pub io_read :
      (d : Store) (p : Part) (buf : List ℕ) (n off : ℕ) (dev : D)
      → d.ready ≡ true
      → d.alignmask ≡ 511
      → IsRequest p n off
      → n + 1022 ≤ limit
      → let m = available p n off in
        let s = min off p.size + p.s in
        io dev_io smalloc d p false buf n off dev
        ≡ (ok (m, slice (content dev) (s % 2 ^ 32) m ++ drop m buf), dev)
  unfolding io
  io_read d p buf n off dev ready mask r few =
      let m = available p n off in
      let s = min off p.size + p.s in
      let valid : (leb (2 ^ 63) off || leb (2 ^ 31) n) ≡ false = ground (arith, r.near, r.short) in
      rw (ready, valid, mask, extent_of-eq p n off r)
        (transfer_sectors s m buf dev (omega (arith, r.on_disk)) (omega (arith, r.short))
          (omega arith))
