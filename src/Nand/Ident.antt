-- ===== src/Nand/Ident.antt =====
-- kwnand.c: the recognition of the chip.
use inferno_kirkwood.Prelude.{
  ℕ, ◌*◌, ◌/◌, Option, none, some, List, [], ◌∷◌, ◌==◌, ◌&&◌, bit_and, ◌>>>◌, if◌then◌else◌, get_or,
}
use inferno_kirkwood.Port.{Result, ok, fault}
use inferno_kirkwood.Nand.Chip.{
  Chip, Nand, nandcmd, nandaddr, nandread, nandclaim, nandunclaim, readid,
}

-- A chip that is known, without its name.
pub record Nandtab : Type 0 where
  pub vid : ℕ
  pub did : ℕ
  pub size : ℕ

-- `Hynix`, `Samsung` and `Hy27UF084G2M`
abbrev pub hynix : ℕ
hynix = 0xad

abbrev pub samsung : ℕ
samsung = 0xec

abbrev pub hy27uf084g2m : ℕ
hy27uf084g2m = 0xdc

abbrev pub nandtab : List Nandtab
nandtab =
    record { vid = hynix; did = hy27uf084g2m; size = 512 * 1024 * 1024 }
    ∷ record { vid = samsung; did = 0xdc; size = 512 * 1024 * 1024 }
    ∷ []

-- What `idchip` finds out about the chip, with the fields of its one region.
pub record Geometry : Type 0 where
  pub id : ℕ
  pub devid : ℕ
  pub width : ℕ
  pub nr : ℕ
  pub size : ℕ
  pub pagesize : ℕ
  pub erasesize : ℕ
  pub n : ℕ
  pub start : ℕ
  pub end : ℕ

abbrev pub pagesizes : List ℕ
pagesizes = 1024 ∷ 2 * 1024 ∷ 0 ∷ 0 ∷ []

abbrev pub blocksizes : List ℕ
blocksizes = 64 * 1024 ∷ 128 * 1024 ∷ 256 * 1024 ∷ 0 ∷ []

-- A division by 0 is a fault.
unfoldable pub geometry : (id4 : ℕ) → Nandtab → Result Geometry
geometry id4 chip =
    let erasesize = get_or blocksizes (bit_and (id4 >>> 4) 3) 0 in
    if erasesize == 0
    then fault
    else ok (record {
      id = chip.vid;
      devid = chip.did;
      width = 1;
      nr = 1;
      size = chip.size;
      pagesize = get_or pagesizes (bit_and id4 3) 0;
      erasesize = erasesize;
      n = chip.size / erasesize;
      start = 0;
      end = chip.size;
    })

-- `none` if no chip of the table is it.
unfoldable pub find_chip : (maker device id4 : ℕ) → List Nandtab → Option (Result Geometry)
find_chip maker device id4 [] = none
find_chip maker device id4 (chip ∷ chips) =
    let rest = find_chip maker device id4 chips in
    if chip.vid == maker && chip.did == device then some (geometry id4 chip) else rest

unfoldable pub idchip : {S : Type 0} → Chip S → Nand S → Option (Result Geometry) × Nand S
idchip k f =
    let f = nandaddr k 0 (nandcmd k readid (nandclaim k f)) in
    let (maker, f) = nandread k f in
    let (device, f) = nandread k f in
    let (id3, f) = nandread k f in
    let (id4, f) = nandread k f in (find_chip maker device id4 nandtab, nandunclaim k f)
