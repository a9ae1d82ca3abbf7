-- ===== src/SdCard/Registers.antt =====
-- `parsecid`, `parsecsd` and `parsescr` of sdcard.c. A `uchar` or `char` field keeps 8 bits of
-- what is stored in it, a `ushort` 16. `none` is a `bits` that C leaves undefined.
use inferno_kirkwood.Prelude.{
  ℕ, ◌+◌, ◌*◌, Bool, true, false, Option, none, some, List, [], ◌∷◌, ◌==◌, ◌||◌, if◌then◌else◌, u8,
  u16,
}
use inferno_kirkwood.SdCard.Bits.{Words, bits}

infixl 5 ◌>>=◌
abbrev pub ◌>>=◌ : {A B : Type 0} → Option A → (A → Option B) → Option B
none >>= f = none
some a >>= f = f a

pub record Cid : Type 0 where
  pub mid : ℕ
  pub oid : List ℕ
  pub prodname : List ℕ
  pub rev : ℕ
  pub serial : ℕ
  pub year : ℕ
  pub mon : ℕ

pub record CsdV0 : Type 0 where
  pub vddrmin : ℕ
  pub vddrmax : ℕ
  pub vddwmin : ℕ
  pub vddwmax : ℕ
  pub sizemult : ℕ

pub record Csd : Type 0 where
  pub vers : ℕ
  pub taac : ℕ
  pub nsac : ℕ
  pub speed : ℕ
  pub ccc : ℕ
  pub rbl : ℕ
  pub rbpart : ℕ
  pub wbmalign : ℕ
  pub rbmalign : ℕ
  pub dsr : ℕ
  pub size : ℕ
  pub v0 : CsdV0
  pub eraseblk : ℕ
  pub erasesecsz : ℕ
  pub wpgrpsize : ℕ
  pub wpgrp : ℕ
  pub speedfactor : ℕ
  pub wbl : ℕ
  pub wbpart : ℕ
  pub ffgrp : ℕ
  pub copy : ℕ
  pub permwp : ℕ
  pub tmpwp : ℕ
  pub ff : ℕ

pub record Scr : Type 0 where
  pub vers : ℕ
  pub spec : ℕ
  pub dataerased : ℕ
  pub sec : ℕ
  pub buswidth : ℕ

-- `for(i = 0; i < 5; i++) c->prodname[i] = bits(r, 104-i*8-1, 104-i*8-8)`: all five characters
unfoldable pub prodname_of : Words → Option (List ℕ)
prodname_of r = do
  c0 ← bits r 103 96
  c1 ← bits r 95 88
  c2 ← bits r 87 80
  c3 ← bits r 79 72
  c4 ← bits r 71 64
  some (u8 c0 ∷ u8 c1 ∷ u8 c2 ∷ u8 c3 ∷ u8 c4 ∷ 0 ∷ [])

-- The function always returns 0.
unfoldable pub parsecid : Words → Option Cid
unfolding prodname_of
parsecid r = do
  mon ← bits r 11 8
  tens ← bits r 19 16
  ones ← bits r 15 12
  serial ← bits r 55 24
  rev ← bits r 63 56
  prodname ← prodname_of r
  oid0 ← bits r 119 112
  oid1 ← bits r 111 104
  mid ← bits r 127 120
  some (record {
    mid = mid;
    oid = u8 oid0 ∷ u8 oid1 ∷ 0 ∷ [];
    prodname = prodname;
    rev = rev;
    serial = serial;
    year = 2000 + tens * 10 + ones;
    mon = mon;
  })

-- The fields that stand above the size.
unfoldable pub parse_head : Csd → Words → Option Csd
parse_head c r = do
  taac ← bits r 119 112
  nsac ← bits r 111 104
  speed ← bits r 103 96
  ccc ← bits r 95 84
  rbl ← bits r 83 80
  rbpart ← bits r 79 79
  wbmalign ← bits r 78 78
  rbmalign ← bits r 77 77
  dsr ← bits r 76 76
  some (record c {
    taac = u8 taac;
    nsac = u8 nsac;
    speed = u8 speed;
    ccc = u16 ccc;
    rbl = u8 rbl;
    rbpart = u8 rbpart;
    wbmalign = u8 wbmalign;
    rbmalign = u8 rbmalign;
    dsr = u8 dsr;
  })

-- The size and the currents of a version 0 register.
unfoldable pub parse_size_v0 : Csd → Words → Option Csd
parse_size_v0 c r = do
  size ← bits r 75 62
  vddrmin ← bits r 61 59
  vddrmax ← bits r 58 56
  vddwmin ← bits r 55 53
  vddwmax ← bits r 52 50
  sizemult ← bits r 49 47
  some (record c {
    size = size;
    v0 = record {
      vddrmin = u8 vddrmin;
      vddrmax = u8 vddrmax;
      vddwmin = u8 vddwmin;
      vddwmax = u8 vddwmax;
      sizemult = u8 sizemult;
    };
  })

unfoldable pub parse_size_v1 : Csd → Words → Option Csd
parse_size_v1 c r = do size ← bits r 69 48; some (record c { size = size })

-- The fields that stand below the size.
unfoldable pub parse_tail : Csd → Words → Option Csd
parse_tail c r = do
  eraseblk ← bits r 46 46
  erasesecsz ← bits r 45 39
  wpgrpsize ← bits r 38 32
  wpgrp ← bits r 31 31
  speedfactor ← bits r 28 26
  wbl ← bits r 25 22
  wbpart ← bits r 21 21
  ffgrp ← bits r 15 15
  copy ← bits r 14 14
  permwp ← bits r 13 13
  tmpwp ← bits r 12 12
  ff ← bits r 11 10
  some (record c {
    eraseblk = u8 eraseblk;
    erasesecsz = u8 erasesecsz;
    wpgrpsize = u8 wpgrpsize;
    wpgrp = u8 wpgrp;
    speedfactor = u8 speedfactor;
    wbl = u8 wbl;
    wbpart = u8 wbpart;
    ffgrp = u8 ffgrp;
    copy = u8 copy;
    permwp = u8 permwp;
    tmpwp = u8 tmpwp;
    ff = u8 ff;
  })

-- The new `*c` and whether the function returns 0; -1 comes back for an unknown version, with
-- only the version stored.
unfoldable pub parsecsd : Csd → Words → Option (Csd × Bool)
parsecsd c r = do
  version ← bits r 127 126
  let c = record c { vers = u8 version }
  if c.vers == 0 || c.vers == 1
      then (do
        c ← parse_head c r
        c ← (if c.vers == 0 then parse_size_v0 c r else parse_size_v1 c r)
        c ← parse_tail c r
        some (c, true))
      else some (c, false)

-- The function always returns 0.
unfoldable pub parsescr : Words → Option Scr
parsescr r = do
  vers ← bits r 63 60
  spec ← bits r 59 56
  dataerased ← bits r 55 55
  sec ← bits r 54 52
  buswidth ← bits r 51 48
  some (record {
    vers = u8 vers;
    spec = u8 spec;
    dataerased = u8 dataerased;
    sec = u8 sec;
    buswidth = u8 buswidth;
  })
