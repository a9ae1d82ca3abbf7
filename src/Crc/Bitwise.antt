-- ===== src/Crc/Bitwise.antt =====
-- devether.c: the checksum of ethernet packets, bit by bit.
use inferno_kirkwood.Prelude.{
  ℕ, zero, suc, ◌==◌, List, [], ◌∷◌, if◌then◌else◌, bit_and, bit_xor, ◌>>>◌,
}

-- `POLY`
abbrev pub ether_poly : ℕ
ether_poly = 0xedb88320

-- The inner loop, by the rounds left, on the checksum and what is left of the byte.
unfoldable pub bit_rounds : ℕ → ℕ → ℕ → ℕ
bit_rounds zero crc b = crc
bit_rounds (suc rounds) crc b =
    bit_rounds rounds
      (bit_xor (crc >>> 1) (if bit_and (bit_xor crc b) 1 == 0 then 0 else ether_poly)) (b >>> 1)

-- The loop over the bytes.
unfoldable pub crc_loop : ℕ → List ℕ → ℕ
crc_loop crc [] = crc
crc_loop crc (b ∷ p) = crc_loop (bit_rounds 8 crc b) p

unfoldable pub ethercrc : List ℕ → ℕ
ethercrc p = crc_loop 0xffffffff p
