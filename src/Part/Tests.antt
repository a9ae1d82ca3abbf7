-- ===== src/Part/Tests.antt =====
-- Runs on small disks, and the theorems at inputs that meet their hypotheses.
use inferno_kirkwood.Prelude.{
  ℕ, zero, suc, ◌+◌, ◌-◌, ◌*◌, ◌≤◌, ◌<◌, ◌≡◌, ◌⊎◌, refl, arith, List, [], ◌∷◌, ◌++◌, take, length,
  replicate, leb, if◌then◌else◌,
}
use Prim.Native.Nat.{min}
use inferno_kirkwood.Port.{Result, ok}
use inferno_kirkwood.Part.Defs.{Part}
use inferno_kirkwood.Part.Check.{partcheck}
use inferno_kirkwood.Part.Overlap.{partcheck-ok}
use inferno_kirkwood.Part.Names.{partname}
use inferno_kirkwood.Part.Init.{
  g32, byte_at, lines_from, part_fields, mbr_loop, plan9_entry, plan9_line, plan9_table, plan9_part,
  plan9_loop, partinit,
}

-- `seprint` as it is documented: what fits, and the place of the NUL behind it.
abbrev seprint : ℕ → List ℕ → List ℕ × ℕ
seprint room text = (take (room - 1) text, min (room - 1) (length text))

abbrev start_fields : List ℕ → List (List ℕ)
start_fields [] = []
start_fields (c ∷ cs) = (c ∷ cs) ∷ []

abbrev add_char : ℕ → List (List ℕ) → List (List ℕ)
add_char c [] = (c ∷ []) ∷ []
add_char c (f ∷ fs) = (c ∷ f) ∷ fs

-- Enough of `tokenize` for fields with one blank between them.
abbrev tokenize : List ℕ → List (List ℕ)
tokenize [] = []
tokenize (c ∷ cs) = let rest = tokenize cs in if leb c 32 then [] ∷ rest else add_char c rest

abbrev decimal_from : ℕ → List ℕ → ℕ
decimal_from acc [] = acc
decimal_from acc (c ∷ cs) = decimal_from (acc * 10 + (c - b'0')) cs

-- Partition 0 of type 0x39 from sector 2 on, 100 sectors long, and one of type 6 behind it.
abbrev mbr_sector : List ℕ
mbr_sector =
    replicate 446 0
    ++ (0 ∷ 0 ∷ 0 ∷ 0 ∷ 0x39 ∷ 0 ∷ 0 ∷ 0 ∷ 2 ∷ 0 ∷ 0 ∷ 0 ∷ 100 ∷ 0 ∷ 0 ∷ 0 ∷ [])
    ++ (0 ∷ 0 ∷ 0 ∷ 0 ∷ 0x06 ∷ 0 ∷ 0 ∷ 0 ∷ 120 ∷ 0 ∷ 0 ∷ 0 ∷ 8 ∷ 0 ∷ 0 ∷ 0 ∷ [])
    ++ replicate 32 0
    ++ (0x55 ∷ 0xaa ∷ [])

-- `part a 1 50` and `part b 20 60`: they overlap.
abbrev table_text : List ℕ
table_text =
    b'p' ∷ b'a' ∷ b'r' ∷ b't' ∷ 32 ∷ b'a' ∷ 32 ∷ b'1' ∷ 32 ∷ b'5' ∷ b'0' ∷ 10 ∷ b'p' ∷ b'a' ∷ b'r'
    ∷ b't' ∷ 32 ∷ b'b' ∷ 32 ∷ b'2' ∷ b'0' ∷ 32 ∷ b'6' ∷ b'0' ∷ 10 ∷ []

abbrev table_sector : List ℕ
table_sector = table_text ++ replicate 487 0

abbrev read : ℕ → ℕ → Result (List ℕ)
read n zero = ok mbr_sector
read n (suc off) = ok table_sector

abbrev whole : Part
whole = record {
  index = 0;
  typ = 0;
  name = b'd' ∷ b'a' ∷ b't' ∷ b'a' ∷ [];
  s = 0;
  e = 256 * 512;
  size = 256 * 512;
  uid = [];
  perm = 0x1b0;
  isopen = 0;
}

abbrev extents : Result (List Part) → List (ℕ × ℕ)
extents (ok []) = []
extents (ok (p ∷ ps)) = (p.s, p.size) ∷ extents (ok ps)
extents r = []

-- Both partitions of the table are accepted, and overlap from sector 22 to sector 51.
partinit_overlap :
    extents (partinit seprint tokenize (decimal_from 0) [] 0 read (256 * 512) (whole ∷ []))
    ≡ (0, 256 * 512)
      ∷ (2 * 512, 100 * 512)
      ∷ (120 * 512, 8 * 512)
      ∷ (3 * 512, 49 * 512)
      ∷ (22 * 512, 40 * 512)
      ∷ []
unfolding partinit byte_at mbr_loop partname partcheck g32 plan9_loop plan9_part plan9_table
    lines_from plan9_line part_fields plan9_entry
partinit_overlap = refl

-- 29 sectors from 121 on, inside 28 from 120 on.
abbrev outer : Part
outer = record whole { s = 120; e = 150; size = 30 }

abbrev inner : Part
inner = record whole { s = 121; e = 149; size = 28 }

partcheck-ok_example :
    (121 ≤ 149)
    × (149 ≤ 256)
    × ((((150 ≤ 121) ⊎ (149 ≤ 120)) ⊎ ((120 < 121) × (149 < 150))) × Unit {0})
unfolding partcheck
partcheck-ok_example =
    partcheck-ok inner (whole ∷ outer ∷ []) 256 (omega arith) (omega arith) (omega arith)
      (omega arith) refl

abbrev found_parts : List Part
found_parts =
    whole
    ∷ record whole {
      index = 1;
      typ = 0x39;
      name = b'p' ∷ b'l' ∷ b'a' ∷ b'n' ∷ b'9' ∷ [];
      s = 2 * 512;
      e = 102 * 512;
      size = 100 * 512;
    }
    ∷ record whole {
      index = 2;
      typ = 0x06;
      name = b'9' ∷ b'f' ∷ b'a' ∷ b't' ∷ [];
      s = 120 * 512;
      e = 128 * 512;
      size = 8 * 512;
    }
    ∷ record whole { index = 3; name = b'a' ∷ []; s = 3 * 512; e = 152 * 512; size = 49 * 512 }
    ∷ record whole { index = 4; name = b'b' ∷ []; s = 22 * 512; e = 162 * 512; size = 40 * 512 }
    ∷ []

-- A partition from sector 200 on, and one in its table from sector 201 on.
abbrev late : Part
late = record whole { typ = 0x39; s = 200 * 512; e = 250 * 512; size = 50 * 512 }

abbrev sibling : Part
sibling = record whole { s = 201 * 512; e = 270 * 512; size = 20 * 512 }
