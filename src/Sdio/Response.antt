-- ===== src/Sdio/Response.antt =====
-- The response of 136 bits, put together from registers of 16.
use inferno_kirkwood.Prelude.{
  ℕ, ◌+◌, ◌*◌, ◌/◌, ◌%◌, ◌^◌, ◌<◌, ◌≡◌, refl, arith, bit_and, bit_or, u32, u64, ◌<<<◌, ◌>>>◌,
  low_mask,
}
use inferno_kirkwood.Prelude.Bits.{bit_or_above, bit_and_mask}
use inferno_kirkwood.Sdio.Command.{words136}

-- Five parts of a word, each above the last.
join5 :
    (a b c d e : ℕ)
    → a < 2 ^ 6
    → b < 2 ^ 16
    → c < 2 ^ 16
    → d < 2 ^ 16
    → bit_or (bit_or (bit_or (bit_or a (b <<< 6)) (c <<< 22)) (d <<< 38)) (e <<< 54)
      ≡ e * 2 ^ 54 + (d * 2 ^ 38 + (c * 2 ^ 22 + (b * 2 ^ 6 + a)))
join5 a b c d e ha hb hc hd =
    let one = bit_or_above 6 b a ha in
    let two = bit_or_above 22 c (b * 2 ^ 6 + a) (omega arith) in
    let three = bit_or_above 38 d (c * 2 ^ 22 + (b * 2 ^ 6 + a)) (omega arith) in
    let four = bit_or_above 54 e (d * 2 ^ 38 + (c * 2 ^ 22 + (b * 2 ^ 6 + a))) (omega arith) in
    rw (one, two, three, four) refl

join5_low :
    (a b c d e : ℕ)
    → a < 2 ^ 8
    → b < 2 ^ 14
    → c < 2 ^ 16
    → d < 2 ^ 16
    → bit_or (bit_or (bit_or (bit_or a (b <<< 8)) (c <<< 22)) (d <<< 38)) (e <<< 54)
      ≡ e * 2 ^ 54 + (d * 2 ^ 38 + (c * 2 ^ 22 + (b * 2 ^ 8 + a)))
join5_low a b c d e ha hb hc hd =
    let one = bit_or_above 8 b a ha in
    let two = bit_or_above 22 c (b * 2 ^ 8 + a) (omega arith) in
    let three = bit_or_above 38 d (c * 2 ^ 22 + (b * 2 ^ 8 + a)) (omega arith) in
    let four = bit_or_above 54 e (d * 2 ^ 38 + (c * 2 ^ 22 + (b * 2 ^ 8 + a))) (omega arith) in
    rw (one, two, three, four) refl

-- The number that eight registers hold, of which the last has 14 bits that count, with the checksum
-- and the bit at the end.
abbrev pub number_of : (resp : ℕ → ℕ) → (crc7 : ℕ) → ℕ
number_of resp crc7 =
    ((((((resp 0 * 2 ^ 16 + resp 1) * 2 ^ 16 + resp 2) * 2 ^ 16 + resp 3) * 2 ^ 16 + resp 4)
              * 2 ^ 16
            + resp 5)
          * 2 ^ 16
        + resp 6)
      * 2 ^ 22
    + (resp 7 % 2 ^ 14 * 2 ^ 8 + crc7 * 2)

high_word :
    (r0 r1 r2 r3 r4 : ℕ)
    → r1 < 2 ^ 16
    → r2 < 2 ^ 16
    → r3 < 2 ^ 16
    → r4 < 2 ^ 16
    → bit_or
        (bit_or (bit_or (bit_or (r4 >>> 10) (u64 (r3 <<< 6))) (u64 (r2 <<< 22))) (u64 (r1 <<< 38)))
        (u64 (r0 <<< 54))
      ≡ r0 % 2 ^ 10 * 2 ^ 54 + (r1 * 2 ^ 38 + (r2 * 2 ^ 22 + (r3 * 2 ^ 6 + r4 / 2 ^ 10)))
high_word r0 r1 r2 r3 r4 h1 h2 h3 h4 =
    let c3 : u64 (r3 <<< 6) ≡ r3 <<< 6 = omega arith in
    let c2 : u64 (r2 <<< 22) ≡ r2 <<< 22 = omega arith in
    let c1 : u64 (r1 <<< 38) ≡ r1 <<< 38 = omega arith in
    let c0 : u64 (r0 <<< 54) ≡ (r0 % 2 ^ 10) <<< 54 = omega arith in
    rw (c3, c2, c1, c0) (join5 (r4 >>> 10) r3 r2 r1 (r0 % 2 ^ 10) (omega arith) h3 h2 h1)

low_word :
    (r4 r5 r6 r7 crc7 : ℕ)
    → r5 < 2 ^ 16
    → r6 < 2 ^ 16
    → crc7 < 2 ^ 7
    → bit_or
        (bit_or
          (bit_or (bit_or (u32 (crc7 <<< 1)) (bit_and r7 (low_mask 14) <<< 8)) (u64 (r6 <<< 22)))
          (u64 (r5 <<< 38)))
        (u64 (r4 <<< 54))
      ≡ r4 % 2 ^ 10 * 2 ^ 54 + (r5 * 2 ^ 38 + (r6 * 2 ^ 22 + (r7 % 2 ^ 14 * 2 ^ 8 + crc7 * 2)))
low_word r4 r5 r6 r7 crc7 h5 h6 hc =
    let c7 : bit_and r7 (low_mask 14) ≡ r7 % 2 ^ 14 = bit_and_mask 14 r7 in
    let cc7 : u32 (crc7 <<< 1) ≡ crc7 * 2 = omega arith in
    let c6 : u64 (r6 <<< 22) ≡ r6 <<< 22 = omega arith in
    let c5 : u64 (r5 <<< 38) ≡ r5 <<< 38 = omega arith in
    let c4 : u64 (r4 <<< 54) ≡ (r4 % 2 ^ 10) <<< 54 = omega arith in
    rw (c7, cc7, c6, c5, c4)
      (join5_low (crc7 * 2) (r7 % 2 ^ 14) r6 r5 (r4 % 2 ^ 10) (omega arith) (omega arith) h6 h5)

-- The three words of a response of 136 bits are the digits, to the base 2^64, of the number that the
-- registers hold, if each register holds 16 bits and the checksum has 7.
pub words136-number :
    (resp : ℕ → ℕ) (crc7 : ℕ)
    → ((i : ℕ) → resp i < 2 ^ 16)
    → crc7 < 2 ^ 7
    → (words136 resp crc7).r0 * 2 ^ 128 + (words136 resp crc7).r1 * 2 ^ 64 + (words136 resp crc7).r2
      ≡ number_of resp crc7
unfolding words136
words136-number resp crc7 fits small = omega (
  arith,
  high_word (resp 0) (resp 1) (resp 2) (resp 3) (resp 4) (fits 1) (fits 2) (fits 3) (fits 4),
  low_word (resp 4) (resp 5) (resp 6) (resp 7) crc7 (fits 5) (fits 6) small,
)
