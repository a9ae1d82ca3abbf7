-- ===== src/Uimage/Header.antt =====
-- mkuimage.c and uimage.h: the checksum, the header's bytes, and the search for an option's value.
use inferno_kirkwood.Prelude.{
  ℕ, zero, suc, ◌+◌, ◌==◌, Option, none, some, List, [], ◌∷◌, ◌++◌, get_or, replicate,
  if◌then◌else◌, bit_and, bit_xor, ◌>>>◌, u8,
}
use inferno_kirkwood.Part.Names.{same_text}

abbrev pub poly : ℕ
poly = 0xedb88320

abbrev pub magic_number : ℕ
magic_number = 0x27051956

-- The inner loop of `mkcrctab`, by the rounds left.
unfoldable pub crc_rounds : ℕ → ℕ → ℕ
crc_rounds zero c = c
crc_rounds (suc rounds) c =
    crc_rounds rounds (if bit_and c 1 == 0 then c >>> 1 else bit_xor poly (c >>> 1))

-- The entries from `i` on.
unfoldable pub crc_entries : ℕ → ℕ → List ℕ
crc_entries zero i = []
crc_entries (suc rounds) i = crc_rounds 8 i ∷ crc_entries rounds (i + 1)

unfoldable pub mkcrctab : List ℕ
mkcrctab = crc_entries 256 0

-- The loop of `crc32` over the buffer.
unfoldable pub crc_bytes : List ℕ → ℕ → List ℕ → ℕ
crc_bytes tab crc [] = crc
crc_bytes tab crc (c ∷ buf) =
    crc_bytes tab (bit_xor (get_or tab (bit_and (bit_xor crc c) 0xff) 0) (crc >>> 8)) buf

unfoldable pub crc32 : List ℕ → ℕ → List ℕ → ℕ
crc32 tab crc buf = bit_xor (crc_bytes tab (bit_xor crc 0xffffffff) buf) 0xffffffff

-- The loop of `find` from index `i` on; `none` is `sysfatal`.
unfoldable pub find_from : ℕ → List (List ℕ) → List ℕ → Option ℕ
find_from i [] s = none
find_from i (opt ∷ opts) s =
    let later = find_from (i + 1) opts s in if same_text s opt then some i else later

unfoldable pub find : List (List ℕ) → List ℕ → Option ℕ
find opts s = find_from 0 opts s

-- The four bytes that `p32` stores.
unfoldable pub p32 : ℕ → List ℕ
p32 v = u8 (v >>> 24) ∷ u8 (v >>> 16) ∷ u8 (v >>> 8) ∷ u8 v ∷ []

pub record Uhdr : Type 0 where
  pub magic : ℕ
  pub hcrc : ℕ
  pub time : ℕ
  pub size : ℕ
  pub load : ℕ
  pub entry : ℕ
  pub dcrc : ℕ
  pub os : ℕ
  pub arch : ℕ
  pub typ : ℕ
  pub comp : ℕ
  pub name : List ℕ

-- The `n` bytes that the C library's `strncpy` stores: the text, cut or filled up with zeros.
unfoldable pub strncpy : ℕ → List ℕ → List ℕ
strncpy zero src = []
strncpy (suc n) [] = 0 ∷ strncpy n []
strncpy (suc n) (c ∷ src) =
    let rest = strncpy n src in if c == 0 then replicate (suc n) 0 else c ∷ rest

unfoldable pub pack : Uhdr → List ℕ
pack h =
    p32 h.magic
    ++ p32 h.hcrc
    ++ p32 h.time
    ++ p32 h.size
    ++ p32 h.load
    ++ p32 h.entry
    ++ p32 h.dcrc
    ++ (h.os ∷ h.arch ∷ h.typ ∷ h.comp ∷ [])
    ++ strncpy 32 h.name

-- The header that `main` writes before `image`: packed once for its own checksum, and once with it.
unfoldable pub header : List ℕ → Uhdr → List ℕ → List ℕ
header tab h image =
    let h = record h { dcrc = crc32 tab 0 image; hcrc = 0 } in
    pack (record h { hcrc = crc32 tab 0 (pack h) })
