-- ===== src/Crc/Tests.antt =====
-- The checksums of a text.
use inferno_kirkwood.Prelude.{ℕ, ◌≡◌, refl, arith, List, [], ◌∷◌, bit_xor}
use inferno_kirkwood.Uimage.Header.{mkcrctab, crc32}
use inferno_kirkwood.Crc.Bitwise.{bit_rounds, crc_loop, ethercrc}
use inferno_kirkwood.Crc.Same.{crc32-ethercrc}

abbrev digits : List ℕ
digits = b'1' ∷ b'2' ∷ b'3' ∷ b'4' ∷ b'5' ∷ b'6' ∷ b'7' ∷ b'8' ∷ b'9' ∷ []

-- The check value that is published for this checksum.
check_value : bit_xor (ethercrc digits) 0xffffffff ≡ 0xcbf43926
unfolding ethercrc crc_loop bit_rounds
check_value = refl

crc32-ethercrc_example : crc32 mkcrctab 0 digits ≡ bit_xor (ethercrc digits) 0xffffffff
crc32-ethercrc_example = crc32-ethercrc digits (omega arith)
