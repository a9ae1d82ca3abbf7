-- ===== src/Fpi/Arith.antt =====
-- fpiarm.c: the binary and unary operations, and the tables that an instruction's code indexes.
use inferno_kirkwood.Prelude.{
  ℕ, ◌+◌, ◌-◌, List, [], ◌∷◌, get_or, ◌^◌, ◌==◌, Option, none, some, if◌then◌else◌, ltb, leb, ◌||◌,
  u16, ◌<<<◌, bit_and, complement32,
}
use inferno_kirkwood.Fpi.Defs.{Internal, Library, is_weird, set_zero, flip_sign}

-- `{ s, e, l, h }` as the table writes it.
abbrev internal : ℕ → ℕ → ℕ → ℕ → Internal
internal s e l h = record { s = s; e = e; l = l; h = h }

abbrev fpconsts : List Internal
fpconsts =
    internal 0 0x1 0 0
    ∷ internal 0 0x3FF 0 0x08000000
    ∷ internal 0 0x400 0 0x08000000
    ∷ internal 0 0x400 0 0x0C000000
    ∷ internal 0 0x401 0 0x08000000
    ∷ internal 0 0x401 0 0x0A000000
    ∷ internal 0 0x3FE 0 0x08000000
    ∷ internal 0 0x402 0 0x0A000000
    ∷ []

-- Entry `n` of the table, whose index is below 8.
unfoldable pub fpconst : ℕ → Internal
fpconst n = get_or fpconsts n (internal 0 0x1 0 0)

unfoldable pub fmov : Internal → Internal
fmov m = m

unfoldable pub fmovn : Internal → Internal
fmovn m = flip_sign m

unfoldable pub fabsf : Internal → Internal
fabsf m = record m { s = 0 }

-- The fraction bits below the point are cleared; `e` is their number from the top, a `short`.
unfoldable pub clear_fraction : Internal → Internal
clear_fraction d =
    let e = u16 (d.e + 2 ^ 16 - 1023 + 1) in
    if e == 0 || leb (2 ^ 15) e
    then set_zero d
    else (if ltb 28 e
        then (if ltb e 56
            then record d { l = bit_and d.l (complement32 ((1 <<< (56 - e)) - 1)) }
            else d)
        else (if ltb e 28
            then record d { l = 0; h = bit_and d.h (complement32 ((1 <<< (28 - e)) - 1)) }
            else record d { l = 0 }))

module _ (lib : Library) where
  unfoldable pub fadd : Internal → Internal → Internal
  fadd m n = if m.s == n.s then lib.fpiadd m n else lib.fpisub m n

  unfoldable pub fsub : Internal → Internal → Internal
  fsub m n = let m = flip_sign m in if m.s == n.s then lib.fpiadd m n else lib.fpisub m n

  unfoldable pub fsubr : Internal → Internal → Internal
  fsubr m n = let n = flip_sign n in if n.s == m.s then lib.fpiadd n m else lib.fpisub n m

  unfoldable pub fmul : Internal → Internal → Internal
  fmul m n = lib.fpimul m n

  unfoldable pub fdiv : Internal → Internal → Internal
  fdiv m n = lib.fpidiv m n

  unfoldable pub fdivr : Internal → Internal → Internal
  fdivr m n = lib.fpidiv n m

  unfoldable pub frnd : Internal → Internal
  frnd m =
      let d = if m.s == 0 then fadd (fpconst 6) m else fsub (fpconst 6) m in
      if is_weird d then d else clear_fraction (lib.fpiround d)

  -- An entry that the table leaves out is nil.
  unfoldable pub optab1 : ℕ → Option (Internal → Internal)
  optab1 o = get_or (some fmov ∷ some fmovn ∷ some fabsf ∷ some frnd ∷ []) o none

  unfoldable pub optab2 : ℕ → Option (Internal → Internal → Internal)
  optab2 o =
      get_or
        (some fadd
          ∷ some fmul
          ∷ some fsub
          ∷ some fsubr
          ∷ some fdiv
          ∷ some fdivr
          ∷ none
          ∷ none
          ∷ none
          ∷ some fmul
          ∷ some fdiv
          ∷ some fdivr
          ∷ [])
        o none
