-- ===== src/Etherdev/Address.antt =====
-- Addresses as text.
use inferno_kirkwood.Prelude.{
  ℕ, zero, suc, ◌+◌, ◌/◌, ◌%◌, ◌<◌, ◌≡◌, refl, arith, Bool, true, false, some, List, [], ◌∷◌, ltb,
  if◌then◌else◌, length, u8,
}
use inferno_kirkwood.Crc.Same.{IsBytes}
use inferno_kirkwood.Etherdev.Output.{skip_colon, parse_bytes, parseether}

abbrev pub hex_digit : ℕ → ℕ
hex_digit n = if ltb n 10 then 48 + n else 55 + n

-- Each byte as `%2.2uX` prints it, with a colon before it or without.
unfoldable print_more : Bool → List ℕ → List ℕ
print_more colons [] = []
print_more colons (b ∷ bs) =
    let text = hex_digit (b / 16) ∷ hex_digit (b % 16) ∷ print_more colons bs in
    if colons then b':' ∷ text else text

-- The bytes as `%2.2uX` prints them, with a colon between two or without.
unfoldable pub print_bytes : Bool → List ℕ → List ℕ
unfolding print_more
print_bytes colons [] = []
print_bytes colons (b ∷ bs) = hex_digit (b / 16) ∷ hex_digit (b % 16) ∷ print_more colons bs

skip_colon-print_more :
    (hex : ℕ → ℕ → ℕ) (colons : Bool) (bs : List ℕ)
    → skip_colon hex (print_more colons bs) ≡ print_bytes colons bs
unfolding print_more print_bytes
skip_colon-print_more hex colons [] = refl
skip_colon-print_more hex true (b ∷ bs) = refl
skip_colon-print_more hex false (b ∷ bs) = ground arith

module _ (hex : ℕ → ℕ → ℕ)
    (reads : (n : ℕ) → n < 256 → hex (hex_digit (n / 16)) (hex_digit (n % 16)) ≡ n) where
  parse_bytes-print_bytes :
      (colons : Bool) (n : ℕ) (bs : List ℕ)
      → IsBytes bs
      → length bs ≡ n
      → parse_bytes hex n (print_bytes colons bs) ≡ some bs
  unfolding parse_bytes print_bytes
  parse_bytes-print_bytes colons zero [] bytes count = refl
  parse_bytes-print_bytes colons (suc n) [] bytes count = absurd (omega arith)
  parse_bytes-print_bytes colons zero (b ∷ bs) bytes count = absurd (omega arith)
  parse_bytes-print_bytes colons (suc n) (b ∷ bs) (byte, bytes) count =
      let rest = parse_bytes-print_bytes colons n bs bytes (omega arith) in
      let value : u8 (hex (hex_digit (b / 16)) (hex_digit (b % 16))) ≡ b =
        omega (arith, reads b byte) in
      rw (skip_colon-print_more hex colons bs, rest, value) refl

  -- `parseether` reads back what is printed of an address of six bytes, with colons or without,
  -- where `hex` reads two hexadecimal digits.
  pub parseether-print_bytes :
      (colons : Bool) (ea : List ℕ)
      → IsBytes ea
      → length ea ≡ 6
      → parseether hex (print_bytes colons ea) ≡ some ea
  unfolding parseether
  parseether-print_bytes colons ea bytes six = parse_bytes-print_bytes colons 6 ea bytes six
