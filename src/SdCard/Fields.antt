-- ===== src/SdCard/Fields.antt =====
-- What `bits` reads, and the fields that the parsers find by it.
use inferno_kirkwood.Prelude.{
  ℕ, ◌+◌, ◌-◌, ◌*◌, ◌/◌, ◌%◌, ◌^◌, ◌≤◌, ◌<◌, ◌≡◌, ◌≢◌, ◌∙◌, ap, arith, some, List, [], ◌∷◌, ltb,
  if◌then◌else◌, u32,
}
use inferno_kirkwood.Prelude.Bits.{bit_and_mask, bit_or_above, pow_add, pow_mono}
use native.Mathlib.Nat.{one-le-pow, mod-eq_of_lt}
use inferno_kirkwood.SdCard.Bits.{Words, min, add_digits, bits_loop, bits}

-- Digits `l` to `h` of one word.
abbrev pub digits_of : ℕ → ℕ → ℕ → ℕ
digits_of word h l = word / 2 ^ l % 2 ^ (h - l + 1)

-- A single digit is asked for by `h` equal to `l`, and the loop does not run at all.
pub bits-single : (r : Words) (h : ℕ) → bits r h h ≡ some 0
unfolding bits
bits-single r h = ground arith

add_digits-eq :
    (v word l n o : ℕ)
    → v < 2 ^ o
    → n + o ≤ 64
    → add_digits v word l n o ≡ word / 2 ^ l % 2 ^ n * 2 ^ o + v
unfolding add_digits
add_digits-eq v word l n o fits room =
    let x = word / 2 ^ l % 2 ^ n in
    let below : x < 2 ^ n = ground (arith, one-le-pow n 2) in
    let inside : x * 2 ^ o < 2 ^ 64 = small x below in
    rw (bit_and_mask n (word / 2 ^ l), mod-eq_of_lt inside) (bit_or_above o x v fits)
  where
    small : (x : ℕ) → x < 2 ^ n → x * 2 ^ o < 2 ^ 64
    small x below = grind (arith, pow_add n o, pow_mono (n + o) 64, one-le-pow o 2)

-- One round of the loop: the last, one over a word below the digits, and one that goes on.
module _ (word : ℕ) (words : List ℕ) (h l v o : ℕ) (lt : l < h) where
  bits_loop-last :
      h < 64
      → h - l ≢ 63
      → bits_loop (word ∷ words) h l v o ≡ some (add_digits v word l (h - l + 1) o)
  unfolding bits_loop min
  bits_loop-last below room = ground arith

  bits_loop-skip : 64 ≤ l → bits_loop (word ∷ words) h l v o ≡ bits_loop words (h - 64) (l - 64) v o
  unfolding bits_loop min
  bits_loop-skip above = ground arith

  bits_loop-on :
      0 < l
      → l < 64
      → 64 ≤ h
      → bits_loop (word ∷ words) h l v o
        ≡ bits_loop words (h - 64) 0 (add_digits v word l (64 - l) o) (o + (64 - l))
  unfolding bits_loop min
  bits_loop-on pos below across = let e : 63 - l + 1 ≡ 64 - l = omega arith in ground (arith, e)

bits_of_loop :
    (r : Words) (h l v : ℕ)
    → bits_loop (r.r2 ∷ r.r1 ∷ r.r0 ∷ []) h l 0 0 ≡ some v
    → bits r h l ≡ some (u32 v)
unfolding bits
bits_of_loop r h l v e = cc

bits-low :
    (r : Words) (h l : ℕ)
    → l < h
    → h < l + 32
    → h < 64
    → bits r h l ≡ some (u32 (digits_of r.r2 h l))
bits-low r h l lt short below = bits_of_loop r h l (digits_of r.r2 h l) (
    bits_loop-last r.r2 (r.r1 ∷ r.r0 ∷ []) h l 0 0 lt below (omega arith)
    ∙ ap some (add_digits-eq 0 r.r2 l (h - l + 1) 0 (omega arith) (omega arith) ∙ omega arith))

bits-high :
    (r : Words) (h l : ℕ)
    → l < h
    → h < l + 32
    → h < 128
    → 64 ≤ l
    → bits r h l ≡ some (u32 (digits_of r.r1 (h - 64) (l - 64)))
bits-high r h l lt short high above = bits_of_loop r h l (digits_of r.r1 (h - 64) (l - 64)) (
    bits_loop-skip r.r2 (r.r1 ∷ r.r0 ∷ []) h l 0 0 lt above
    ∙ bits_loop-last r.r1 (r.r0 ∷ []) (h - 64) (l - 64) 0 0 (omega arith) (omega arith)
        (omega arith)
    ∙ ap some (
        add_digits-eq 0 r.r1 (l - 64) (h - 64 - (l - 64) + 1) 0 (omega arith) (omega arith)
        ∙ omega arith))

div-lt : (w l o : ℕ) → w < 2 ^ (l + o) → w / 2 ^ l < 2 ^ o
div-lt w l o h = grind (arith, pow_add l o, one-le-pow l 2)

-- The digits of two words, added one after the other.
add_digits_twice :
    (low high l n : ℕ)
    → low < 2 ^ 64
    → l < 64
    → n + (64 - l) ≤ 64
    → add_digits (add_digits 0 low l (64 - l) 0) high 0 n (0 + (64 - l))
      ≡ high % 2 ^ n * 2 ^ (64 - l) + low / 2 ^ l
add_digits_twice low high l n word below room =
    let o = 64 - l in
    let fits = div-lt low l (64 - l) (let e : l + (64 - l) ≡ 64 = omega arith in rw e word) in
    let first : add_digits 0 low l (64 - l) 0 ≡ low / 2 ^ l =
      add_digits-eq 0 low l (64 - l) 0 (omega arith) (omega arith)
      ∙ ground (arith, mod-eq_of_lt fits) in
    let second : 0 + (64 - l) ≡ 64 - l = omega arith in
    rw (first, second) (add_digits-eq (low / 2 ^ l) high 0 n (64 - l) fits room ∙ ground arith)

bits-across :
    (r : Words) (h l : ℕ)
    → r.r2 < 2 ^ 64
    → h < l + 32
    → 64 < h
    → l < 64
    → bits r h l ≡ some (u32 (r.r1 % 2 ^ (h - 63) * 2 ^ (64 - l) + r.r2 / 2 ^ l))
bits-across r h l word short above below =
    let n : h - 64 - 0 + 1 ≡ h - 63 = omega arith in
    bits_of_loop r h l (r.r1 % 2 ^ (h - 63) * 2 ^ (64 - l) + r.r2 / 2 ^ l) (
      bits_loop-on r.r2 (r.r1 ∷ r.r0 ∷ []) h l 0 0 (omega arith) (omega arith) below (omega arith)
      ∙ bits_loop-last r.r1 (r.r0 ∷ []) (h - 64) 0 (add_digits 0 r.r2 l (64 - l) 0) (0 + (64 - l))
          (omega arith) (omega arith) (omega arith)
      ∙ ap some (rw n (add_digits_twice r.r2 r.r1 l (h - 63) word below (omega arith))))

-- Digits `h` down to `l` of the 128-bit number whose low word is `r.r2`: within a word, or from
-- both.
abbrev pub field : Words → ℕ → ℕ → ℕ
field r h l =
    if ltb h 64
    then digits_of r.r2 h l
    else (if ltb l 64
        then r.r1 % 2 ^ (h - 63) * 2 ^ (64 - l) + r.r2 / 2 ^ l
        else digits_of r.r1 (h - 64) (l - 64))

-- For two to 32 digits below digit 128 `bits` returns exactly those digits, unless digit 64 is
-- the highest of them and some stand below it.
pub bits-field :
    (r : Words) (h l : ℕ)
    → r.r2 < 2 ^ 64
    → l < h
    → h < l + 32
    → h < 128
    → h ≢ 64
    → bits r h l ≡ some (u32 (field r h l))
bits-field r h l word lt short high ne =
    ground (arith, bits-low r h l, bits-high r h l, bits-across r h l)
