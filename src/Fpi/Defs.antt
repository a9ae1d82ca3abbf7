-- ===== src/Fpi/Defs.antt =====
-- fpi.h, and the state that fpiarm.c works on.
use inferno_kirkwood.Prelude.{
  ℕ, ◌+◌, ◌-◌, ◌*◌, ◌%◌, ◌^◌, ◌==◌, Bool, if◌then◌else◌, ltb, leb, ◌&&◌, u32,
}

-- A number in the emulator: sign, exponent (a `short`) and two halves of the fraction.
pub record Internal : Type 0 where
  pub s : ℕ
  pub e : ℕ
  pub l : ℕ
  pub h : ℕ

-- `n->e >= ExpInfinity`, where `e` is signed.
unfoldable pub is_weird : Internal → Bool
is_weird n = leb 2047 n.e && ltb n.e (2 ^ 15)

unfoldable pub set_zero : Internal → Internal
set_zero n = record n { e = 1; l = 0; h = 0 }

-- `m.s ^= 1`; a sign is 0 or 1 in its lowest bit.
unfoldable pub flip_sign : Internal → Internal
flip_sign m = record m { s = if m.s % 2 == 0 then m.s + 1 else m.s - 1 }

-- The saved registers by the numbers that instructions use: `roff` gives each its field, with
-- `type` for r13 and `pc` for r15.
pub record Ureg : Type 0 where
  pub reg : ℕ → ℕ
  pub psr : ℕ

abbrev pub reg_pc : ℕ
reg_pc = 15

pub record Fpenv : Type 0 where
  pub status : ℕ
  pub control : ℕ
  pub active : Bool
  pub fr : ℕ → Internal

-- What an instruction works on: the registers, the floating point state and the memory's bytes.
pub record Process : Type 0 where
  pub ur : Ureg
  pub fpu : Fpenv
  pub mem : ℕ → ℕ

-- `getulong(a)`, on a little-endian machine.
unfoldable pub getulong : (ℕ → ℕ) → ℕ → ℕ
getulong mem a =
    mem a + mem (u32 (a + 1)) * 2 ^ 8 + mem (u32 (a + 2)) * 2 ^ 16 + mem (u32 (a + 3)) * 2 ^ 24

-- fpi.c and fpimem.c, which are not in the repository: arithmetic, comparison (`less`, `equal` and
-- `greater` for the sign of the `int`), and conversion from and to registers and memory.
pub data Compared : Type 0 where
  less equal greater : Compared

pub record Library : Type 0 where
  pub fpiadd : Internal → Internal → Internal
  pub fpisub : Internal → Internal → Internal
  pub fpimul : Internal → Internal → Internal
  pub fpidiv : Internal → Internal → Internal
  pub fpiround : Internal → Internal
  pub fpicmp : Internal → Internal → Compared
  pub fpiw2i : ℕ → Internal
  pub fpii2w : Internal → ℕ
  pub fpid2i : (ℕ → ℕ) → ℕ → Internal
  pub fpis2i : (ℕ → ℕ) → ℕ → Internal
  pub fpii2d : (ℕ → ℕ) → ℕ → Internal → ℕ → ℕ
  pub fpii2s : (ℕ → ℕ) → ℕ → Internal → ℕ → ℕ
