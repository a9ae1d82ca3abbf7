-- ===== src/SdCard/Tests.antt =====
-- Runs of the parsers, and the theorems at inputs that meet their hypotheses.
use inferno_kirkwood.Prelude.{◌≡◌, refl, arith, some, u32}
use inferno_kirkwood.SdCard.Bits.{Words, bits}
use inferno_kirkwood.SdCard.Registers.{Csd}
use inferno_kirkwood.SdCard.Fields.{field, bits-field}

abbrev words : Words
words = record { r0 = 0; r1 = 0x400e00325b590000; r2 = 0x1d777f800a400000 }

abbrev no_csd : Csd
no_csd = record {
  vers = 0;
  taac = 0;
  nsac = 0;
  speed = 0;
  ccc = 0;
  rbl = 0;
  rbpart = 0;
  wbmalign = 0;
  rbmalign = 0;
  dsr = 0;
  size = 0;
  v0 = record { vddrmin = 0; vddrmax = 0; vddwmin = 0; vddwmax = 0; sizemult = 0 };
  eraseblk = 0;
  erasesecsz = 0;
  wpgrpsize = 0;
  wpgrp = 0;
  speedfactor = 0;
  wbl = 0;
  wbpart = 0;
  ffgrp = 0;
  copy = 0;
  permwp = 0;
  tmpwp = 0;
  ff = 0;
}

-- Across the two words, and the highest digit that is lost at the edge of one.
bits_runs : (bits words 69 48 ≡ some 0x1d77) × (bits (record words { r1 = 1 }) 64 60 ≡ some 1)
unfolding bits
bits_runs = (refl, refl)

bits-field_example : bits words 69 48 ≡ some (u32 (field words 69 48))
bits-field_example =
    bits-field words 69 48 (omega arith) (omega arith) (omega arith) (omega arith) (omega arith)
