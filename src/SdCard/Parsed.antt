-- ===== src/SdCard/Parsed.antt =====
-- What the parsers of sdcard.c find in a register. A field of one digit is always 0, since
-- `bits` reads nothing where `h` equals `l`.
use inferno_kirkwood.Prelude.{
  ℕ, zero, suc, Bool, ◌==◌, if◌then◌else◌, ◌+◌, ◌*◌, ◌/◌, ◌%◌, ◌^◌, ◌<◌, ◌≡◌, ◌≢◌, refl, arith,
  true, false, some, [], ◌∷◌, u8, u32,
}
use inferno_kirkwood.SdCard.Bits.{Words, bits}
use inferno_kirkwood.SdCard.Registers.{
  Csd, parse_head, parse_size_v0, parse_size_v1, parse_tail, parsecid, parsecsd, parsescr,
}
use inferno_kirkwood.SdCard.Fields.{field, bits-single, bits-field}

abbrev pub IsWide : ℕ → ℕ → Type 0
IsWide h l = (l < h) × (h < l + 32) × (h < 128) × (h ≢ 64)

-- The fields of a CSD that stand at the same place in versions 0 and 1.
abbrev pub common_csd : Words → Csd → Csd
common_csd r c = record c {
  vers = field r 127 126;
  taac = field r 119 112;
  nsac = field r 111 104;
  speed = field r 103 96;
  ccc = field r 95 84;
  rbl = field r 83 80;
  rbpart = 0;
  wbmalign = 0;
  rbmalign = 0;
  dsr = 0;
  eraseblk = 0;
  erasesecsz = field r 45 39;
  wpgrpsize = field r 38 32;
  wpgrp = 0;
  speedfactor = field r 28 26;
  wbl = field r 25 22;
  wbpart = 0;
  ffgrp = 0;
  copy = 0;
  permwp = 0;
  tmpwp = 0;
  ff = field r 11 10;
}

-- What `parsecsd` makes of `*c`, and whether it returns 0.
abbrev pub described_csd : Words → Csd → Csd × Bool
described_csd r c =
    if field r 127 126 == 0
    then (
      record (common_csd r c) {
        size = field r 75 62;
        v0 = record {
          vddrmin = field r 61 59;
          vddrmax = field r 58 56;
          vddwmin = field r 55 53;
          vddwmax = field r 52 50;
          sizemult = field r 49 47;
        };
      },
      true,
    )
    else (if field r 127 126 == 1
        then (record (common_csd r c) { size = field r 69 48 }, true)
        else (record c { vers = field r 127 126 }, false))

module _ (r : Words) (word : r.r2 < 2 ^ 64) where
  reads : (h l : ℕ) → IsWide h l → bits r h l ≡ some (u32 (field r h l))
  reads h l w = bits-field r h l word w.0 w.1 w.2 w.3

  -- The fields of an SCR: all of their digits, but the one of `dataerased` is lost.
  pub parsescr_lem :
      parsescr r
      ≡ some (record {
        vers = r.r2 / 2 ^ 60;
        spec = r.r2 / 2 ^ 56 % 2 ^ 4;
        dataerased = 0;
        sec = r.r2 / 2 ^ 52 % 2 ^ 3;
        buswidth = r.r2 / 2 ^ 48 % 2 ^ 4;
      })
  unfolding parsescr
  parsescr_lem =
      rw
        (
          reads 63 60 (omega arith),
          reads 59 56 (omega arith),
          bits-single r 55,
          reads 54 52 (omega arith),
          reads 51 48 (omega arith),
        )
        (ground arith)

  parse_head_lem :
      (c : Csd)
      → parse_head c r
        ≡ some (record c {
          taac = field r 119 112;
          nsac = field r 111 104;
          speed = field r 103 96;
          ccc = field r 95 84;
          rbl = field r 83 80;
          rbpart = 0;
          wbmalign = 0;
          rbmalign = 0;
          dsr = 0;
        })
  unfolding parse_head
  parse_head_lem c =
      rw
        (
          reads 119 112 (omega arith),
          reads 111 104 (omega arith),
          reads 103 96 (omega arith),
          reads 95 84 (omega arith),
          reads 83 80 (omega arith),
          bits-single r 79,
          bits-single r 78,
          bits-single r 77,
          bits-single r 76,
        )
        (ground arith)

  parse_size_v0_lem :
      (c : Csd)
      → parse_size_v0 c r
        ≡ some (record c {
          size = field r 75 62;
          v0 = record {
            vddrmin = field r 61 59;
            vddrmax = field r 58 56;
            vddwmin = field r 55 53;
            vddwmax = field r 52 50;
            sizemult = field r 49 47;
          };
        })
  unfolding parse_size_v0
  parse_size_v0_lem c =
      rw
        (
          reads 75 62 (omega arith),
          reads 61 59 (omega arith),
          reads 58 56 (omega arith),
          reads 55 53 (omega arith),
          reads 52 50 (omega arith),
          reads 49 47 (omega arith),
        )
        (ground arith)

  parse_size_v1_lem : (c : Csd) → parse_size_v1 c r ≡ some (record c { size = field r 69 48 })
  unfolding parse_size_v1
  parse_size_v1_lem c = rw (reads 69 48 (omega arith)) (ground arith)

  parse_tail_lem :
      (c : Csd)
      → parse_tail c r
        ≡ some (record c {
          eraseblk = 0;
          erasesecsz = field r 45 39;
          wpgrpsize = field r 38 32;
          wpgrp = 0;
          speedfactor = field r 28 26;
          wbl = field r 25 22;
          wbpart = 0;
          ffgrp = 0;
          copy = 0;
          permwp = 0;
          tmpwp = 0;
          ff = field r 11 10;
        })
  unfolding parse_tail
  parse_tail_lem c =
      rw
        (
          bits-single r 46,
          reads 45 39 (omega arith),
          reads 38 32 (omega arith),
          bits-single r 31,
          reads 28 26 (omega arith),
          reads 25 22 (omega arith),
          bits-single r 21,
          bits-single r 15,
          bits-single r 14,
          bits-single r 13,
          bits-single r 12,
          reads 11 10 (omega arith),
        )
        (ground arith)

  -- `parsecsd` accepts versions 0 and 1, and stores every field of more than one digit in full,
  -- with the size, and in version 0 the currents and the size multiplier, at the place of the
  -- version; it stores 0 in each field of one digit. Of any other version it stores the version
  -- alone and returns an error.
  pub parsecsd_lem : (c : Csd) → parsecsd c r ≡ some (described_csd r c)
  unfolding parsecsd
  parsecsd_lem c = version_cases (field r 127 126) (omega arith)
    where
      version_cases : (v : ℕ) → field r 127 126 ≡ v → parsecsd c r ≡ some (described_csd r c)
      version_cases zero e =
          let v : u8 (u32 (field r 127 126)) ≡ 0 = omega arith in
          rw (reads 127 126 (omega arith), v, e, parse_head_lem, parse_size_v0_lem, parse_tail_lem)
            refl
      version_cases (suc zero) e =
          let v : u8 (u32 (field r 127 126)) ≡ 1 = omega arith in
          rw (reads 127 126 (omega arith), v, e, parse_head_lem, parse_size_v1_lem, parse_tail_lem)
            refl
      version_cases (suc (suc n)) e =
          let v : u8 (u32 (field r 127 126)) ≡ field r 127 126 = omega arith in
          rw (reads 127 126 (omega arith), v) (ground (arith, e))

  -- Every field of a CID has more than one digit, and is stored in full: the month and the two
  -- decimal digits of the year, the names a byte to a character, the first character highest.
  pub parsecid_lem :
      parsecid r
      ≡ some (record {
        mid = field r 127 120;
        oid = field r 119 112 ∷ field r 111 104 ∷ 0 ∷ [];
        prodname =
            field r 103 96 ∷ field r 95 88 ∷ field r 87 80 ∷ field r 79 72 ∷ field r 71 64 ∷ 0 ∷ [];
        rev = field r 63 56;
        serial = field r 55 24;
        year = 2000 + field r 19 16 * 10 + field r 15 12;
        mon = field r 11 8;
      })
  unfolding parsecid
  parsecid_lem =
      rw
        (
          reads 11 8 (omega arith),
          reads 19 16 (omega arith),
          reads 15 12 (omega arith),
          reads 55 24 (omega arith),
          reads 63 56 (omega arith),
          reads 103 96 (omega arith),
          reads 95 88 (omega arith),
          reads 87 80 (omega arith),
          reads 79 72 (omega arith),
          reads 71 64 (omega arith),
          reads 119 112 (omega arith),
          reads 111 104 (omega arith),
          reads 127 120 (omega arith),
        )
        (ground arith)
