-- ===== src/Xor/Descriptors.antt =====
-- The descriptors: where they lie, and what they hold.
use inferno_kirkwood.Prelude.{ℕ, ◌+◌, ◌-◌, ◌*◌, ◌/◌, ◌%◌, ◌^◌, ◌≤◌, ◌<◌, ◌≡◌, arith, List}
use inferno_kirkwood.Prelude.Bits.{bit_and_high_mask}
use inferno_kirkwood.Xor.Defs.{Xor}
use inferno_kirkwood.Xor.Transfer.{roundup, descralign, xdescralign, descr_size, xdescr_size}

-- `p` is aligned to `align`, and `size` bytes from there on lie in the `room` bytes from `v` on.
pub record IsPlaced (align size room v p : ℕ) : Type 0 where
  pub aligned : p % align ≡ 0
  pub from : v ≤ p
  pub upto : p + size ≤ v + room

roundup-descralign : (v : ℕ) → v < 2 ^ 32 - 31 → roundup v 32 ≡ (v + 31) / 32 * 32
unfolding roundup
roundup-descralign v h = ground (arith, bit_and_high_mask 27 5 (v + 31))

roundup-xdescralign : (v : ℕ) → v < 2 ^ 32 - 63 → roundup v 64 ≡ (v + 63) / 64 * 64
unfolding roundup
roundup-xdescralign v h = ground (arith, bit_and_high_mask 26 6 (v + 63))

-- The two kinds of descriptors fit the buffers on the stack that they are rounded up in, whose
-- sizes are those of a descriptor and its alignment less one, and they are aligned as the engine
-- wants it, where the buffer does not wrap around.
pub roundup-IsPlaced :
    (v w : ℕ)
    → v + descr_size + descralign - 1 < 2 ^ 32
    → w + xdescr_size + xdescralign - 1 < 2 ^ 32
    → IsPlaced descralign descr_size (descr_size + descralign - 1) v (roundup v descralign)
      × IsPlaced xdescralign xdescr_size (xdescr_size + xdescralign - 1) w (roundup w xdescralign)
roundup-IsPlaced v w hv hw =
    let e = roundup-descralign v (omega arith) in
    let e' = roundup-xdescralign w (omega arith) in (omega (arith, e), omega (arith, e'))
