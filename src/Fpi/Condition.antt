-- ===== src/Fpi/Condition.antt =====
-- fpiarm.c: the condition field of an instruction, and the flags that a comparison sets.
use inferno_kirkwood.Prelude.{
  ℕ, ◌+◌, [], ◌∷◌, get_or, ◌^◌, ◌==◌, Bool, true, false, if◌then◌else◌, ◌&&◌, ◌||◌, not, bit_and,
  bit_or, complement32,
}
use inferno_kirkwood.Fpi.Defs.{Internal, Library, Compared, is_weird}

abbrev pub flag_n : ℕ
flag_n = 2 ^ 31

abbrev pub flag_z : ℕ
flag_z = 2 ^ 30

abbrev pub flag_c : ℕ
flag_c = 2 ^ 29

abbrev pub flag_v : ℕ
flag_v = 2 ^ 28

-- `cc&flag` as a truth value.
abbrev pub has : ℕ → ℕ → Bool
has psr flag = not (bit_and psr flag == 0)

-- `~cc&(N|V) == 0 || cc&(N|V) == 0`
unfoldable pub same_nv : ℕ → Bool
same_nv psr =
    bit_and (complement32 psr) (flag_n + flag_v) == 0 || bit_and psr (flag_n + flag_v) == 0

-- `cc&(N|V) == N || cc&(N|V) == V`
unfoldable pub other_nv : ℕ → Bool
other_nv psr = bit_and psr (flag_n + flag_v) == flag_n || bit_and psr (flag_n + flag_v) == flag_v

-- The test of each condition, by its number; the last one is reserved.
unfoldable pub condok : ℕ → ℕ → Bool
condok psr c =
    get_or
      ((has psr flag_z)
        ∷ (bit_and psr flag_z == 0)
        ∷ (has psr flag_c)
        ∷ (bit_and psr flag_c == 0)
        ∷ (has psr flag_n)
        ∷ (bit_and psr flag_n == 0)
        ∷ (has psr flag_v)
        ∷ (bit_and psr flag_v == 0)
        ∷ (has psr flag_c && bit_and psr flag_z == 0)
        ∷ (bit_and psr flag_c == 0 || has psr flag_z)
        ∷ (same_nv psr)
        ∷ (other_nv psr)
        ∷ (bit_and psr flag_z == 0 && same_nv psr)
        ∷ (has psr flag_z || other_nv psr)
        ∷ true
        ∷ [])
      c false

unfoldable pub fcmp : Library → Internal → Internal → ℕ
fcmp lib n m = if is_weird m || is_weird n then flag_v + flag_c else elim (lib.fpicmp n m) [
  | Compared.greater ↦ flag_c
  | Compared.equal ↦ flag_c + flag_z
  | Compared.less ↦ flag_n
]

-- `psr &= ~(N|C|Z|V); psr |= flags`
unfoldable pub set_flags : ℕ → ℕ → ℕ
set_flags psr flags = bit_or (bit_and psr (complement32 (flag_n + flag_c + flag_z + flag_v))) flags
