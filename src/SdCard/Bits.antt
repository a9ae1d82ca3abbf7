-- ===== src/SdCard/Bits.antt =====
-- `bits` of sdcard.c: the digits `h` down to `l` of a number that is kept in three 64-bit words,
-- the highest first.
use inferno_kirkwood.Prelude.{
  ℕ, ◌+◌, ◌-◌, ◌^◌, bit_and, bit_or, Option, none, some, List, [], ◌∷◌, ltb, ◌==◌, if◌then◌else◌,
  u32, u64, ◌<<<◌, ◌>>>◌,
}

-- `uvlong r[3]`
pub record Words : Type 0 where
  pub r0 : ℕ
  pub r1 : ℕ
  pub r2 : ℕ

unfoldable pub min : ℕ → ℕ → ℕ
min a b = if ltb a b then a else b

-- `v |= ((*r>>l) & ((1ULL<<n)-1)) << o`
unfoldable pub add_digits : ℕ → ℕ → ℕ → ℕ → ℕ → ℕ
add_digits v word l n o = bit_or v (u64 (bit_and (word >>> l) (2 ^ n - 1) <<< o))

-- The loop over the words from `*r` on, the lowest first; `h` and `l` count from the lowest digit
-- of that word. Where `h` is below 64 the round makes both negative, or leaves `l` at 0 and `h`
-- at -1, so it is the last. `none` is a read in front of the array or a shift by 64.
unfoldable pub bits_loop : List ℕ → ℕ → ℕ → ℕ → ℕ → Option ℕ
unfolding min add_digits
bits_loop [] h l v o = if ltb l h then none else some v
bits_loop (word ∷ words) h l v o =
    let n = min h 63 - l + 1 in
    let above = bits_loop words (h - 64) (l - 64) v o in
    let v' = add_digits v word l n o in
    let more = bits_loop words (h - 64) 0 v' (o + n) in
    if ltb l h
    then (if ltb l 64
        then (if n == 64 then none else if ltb h 64 then some v' else more)
        else above)
    else some v

-- The result is returned as a `ulong`.
unfoldable pub bits : Words → ℕ → ℕ → Option ℕ
unfolding bits_loop
bits r h l = elim (bits_loop (r.r2 ∷ r.r1 ∷ r.r0 ∷ []) h l 0 0) [
  | none ↦ none
  | some v ↦ some (u32 v)
]
