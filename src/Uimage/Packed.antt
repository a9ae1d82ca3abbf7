-- ===== src/Uimage/Packed.antt =====
-- What the boot loader reads from the header's bytes.
use inferno_kirkwood.Prelude.{
  ℕ, zero, suc, ◌+◌, ◌*◌, ◌/◌, ◌^◌, ◌≡◌, refl, ap, inl, inr, arith, ◌==◌, List, [], ◌∷◌, ◌++◌,
  length, length-replicate, take, drop, get_or, replicate, Bool-cases, u8, u32,
}
use inferno_kirkwood.Uimage.Header.{Uhdr, p32, strncpy, pack, crc32, header}

-- The big-endian word at byte `i`.
abbrev pub word_at : List ℕ → ℕ → ℕ
word_at bytes i =
    get_or bytes i 0 * 2 ^ 24
    + get_or bytes (i + 1) 0 * 2 ^ 16
    + get_or bytes (i + 2) 0 * 2 ^ 8
    + get_or bytes (i + 3) 0

-- The header with the bytes of its own checksum taken as 0.
abbrev pub without_crc : List ℕ → List ℕ
without_crc bytes = take 4 bytes ++ replicate 4 0 ++ drop 8 bytes

length-strncpy : (n : ℕ) (src : List ℕ) → length (strncpy n src) ≡ n
unfolding strncpy
length-strncpy zero src = refl
length-strncpy (suc n) [] = ap suc (length-strncpy n [])
length-strncpy (suc n) (c ∷ src) = elim (Bool-cases (c == 0)) [
  | inl end ↦ rw end (length-replicate (suc n) 0)
  | inr more ↦ rw more (ap suc (length-strncpy n src))
]

-- A packed header is 64 bytes, and its words are the fields, in the order of the structure and with
-- the most significant byte first.
pub pack_words :
    (h : Uhdr)
    → let b = pack h in
      (length b ≡ 64)
      × (word_at b 0 ≡ u32 h.magic)
      × (word_at b 4 ≡ u32 h.hcrc)
      × (word_at b 8 ≡ u32 h.time)
      × (word_at b 12 ≡ u32 h.size)
      × (word_at b 16 ≡ u32 h.load)
      × (word_at b 20 ≡ u32 h.entry)
      × (word_at b 24 ≡ u32 h.dcrc)
unfolding pack p32
pack_words h = (
  omega (arith, length-strncpy 32 h.name),
  omega arith,
  omega arith,
  omega arith,
  omega arith,
  omega arith,
  omega arith,
  omega arith,
)

-- The header before an image passes the two tests of a loader: the checksum in it is that of the
-- header with that checksum taken as 0, and the other is that of the image. Both are 32 bits.
pub header_checks :
    (tab : List ℕ) (h : Uhdr) (image : List ℕ)
    → let b = header tab h image in
      (word_at b 4 ≡ u32 (crc32 tab 0 (without_crc b))) × (word_at b 24 ≡ u32 (crc32 tab 0 image))
unfolding header pack p32
header_checks tab h image = (
  word_of (crc32 tab 0 (pack (record h { dcrc = crc32 tab 0 image; hcrc = 0 }))),
  word_of (crc32 tab 0 image),
)
  where
    word_of :
        (v : ℕ)
        → u8 (v / 2 ^ 24) * 2 ^ 24 + u8 (v / 2 ^ 16) * 2 ^ 16 + u8 (v / 2 ^ 8) * 2 ^ 8 + u8 v
          ≡ u32 v
    word_of v = omega arith
