-- ===== src/Uimage/Tests.antt =====
-- Runs of the header's code, and its theorems at concrete inputs.
use inferno_kirkwood.Prelude.{◌≡◌, refl, some, [], ◌∷◌, u32}
use inferno_kirkwood.Part.Names.{same_text}
use inferno_kirkwood.Uimage.Header.{
  Uhdr, magic_number, mkcrctab, crc_entries, crc_rounds, crc_bytes, crc32, find, find_from, header,
}
use inferno_kirkwood.Uimage.Packed.{word_at, without_crc, header_checks}

abbrev kernel : Uhdr
kernel = record {
  magic = magic_number;
  hcrc = 0;
  time = 1290000000;
  size = 3;
  load = 0x8000;
  entry = 0x8020;
  dcrc = 0;
  os = 1;
  arch = 2;
  typ = 2;
  comp = 0;
  name = b'i' ∷ [];
}

-- The check value of this CRC, that of the text 123456789.
crc_check :
    crc32 mkcrctab 0 (b'1' ∷ b'2' ∷ b'3' ∷ b'4' ∷ b'5' ∷ b'6' ∷ b'7' ∷ b'8' ∷ b'9' ∷ [])
    ≡ 0xcbf43926
unfolding crc32 crc_bytes mkcrctab crc_entries crc_rounds
crc_check = refl

found_gzip : find ((b'n' ∷ []) ∷ (b'g' ∷ []) ∷ []) (b'g' ∷ []) ≡ some 1
unfolding find find_from same_text
found_gzip = refl

header_checks_example :
    let b = header mkcrctab kernel (1 ∷ 2 ∷ 3 ∷ []) in
    (word_at b 4 ≡ u32 (crc32 mkcrctab 0 (without_crc b)))
    × (word_at b 24 ≡ u32 (crc32 mkcrctab 0 (1 ∷ 2 ∷ 3 ∷ [])))
header_checks_example = header_checks mkcrctab kernel (1 ∷ 2 ∷ 3 ∷ [])
