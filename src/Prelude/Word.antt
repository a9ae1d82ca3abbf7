-- ===== src/Prelude/Word.antt =====
-- Machine words as native numbers: casts to a width, shifts, masks, and the comparison of
-- `vlong`s, which are kept as 64-bit patterns.
use Prim.Native.Nat.{ℕ, ◌+◌, ◌-◌, ◌*◌, ◌/◌, ◌%◌, ◌^◌, compare, Ordering}
use mathlib.Core.Bool.{Bool, true, false}

abbrev pub u8 : ℕ → ℕ
u8 n = n % 2 ^ 8

abbrev pub u16 : ℕ → ℕ
u16 n = n % 2 ^ 16

abbrev pub u32 : ℕ → ℕ
u32 n = n % 2 ^ 32

abbrev pub u64 : ℕ → ℕ
u64 n = n % 2 ^ 64

infixl 75 ◌<<<◌ ◌>>>◌
abbrev pub ◌<<<◌ : ℕ → ℕ → ℕ
x <<< k = x * 2 ^ k

abbrev pub ◌>>>◌ : ℕ → ℕ → ℕ
x >>> k = x / 2 ^ k

-- `MASK(n)` of mem.h
abbrev pub low_mask : ℕ → ℕ
low_mask k = 2 ^ k - 1

-- The pattern of a `vlong`, moved so that the order of the numbers is that of the patterns.
abbrev pub biased : ℕ → ℕ
biased x = (x + 2 ^ 63) % 2 ^ 64

abbrev pub signed_ltb : ℕ → ℕ → Bool
signed_ltb a b = elim (compare (biased a) (biased b)) [ Ordering.lt ↦ true | _ ↦ false ]

abbrev pub signed_leb : ℕ → ℕ → Bool
signed_leb a b = elim (compare (biased a) (biased b)) [ Ordering.gt ↦ false | _ ↦ true ]

-- `~` of a word of 32 bits.
abbrev pub complement32 : ℕ → ℕ
complement32 m = 2 ^ 32 - 1 - m
