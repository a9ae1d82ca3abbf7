-- ===== src/Bs/Tests.antt =====
-- Runs of the table and of reads and writes, and the theorems at inputs that meet their
-- hypotheses.
use inferno_kirkwood.Prelude.{
  ℕ, ◌+◌, ◌*◌, ◌%◌, ◌^◌, ◌≡◌, refl, arith, Bool, true, false, none, some, List, [], ◌∷◌, ◌++◌, drop,
  replicate,
}
use inferno_kirkwood.Port.{Result, ok}
use inferno_kirkwood.Part.{Part}
use inferno_kirkwood.Bs.Defs.{Store, Bs}
use inferno_kirkwood.Bs.Table.{
  put_disk, clear_disks, grow_disks, grow_table, register_disk, diskget, blockstoreadd,
}
use inferno_kirkwood.Bs.Added.{IsTable, named, found_after, no_disks, blockstoreadd_lem}
use inferno_kirkwood.Bs.Io.{io}
use inferno_kirkwood.Bs.Reading.{slice, IsReader, io_read}
use inferno_kirkwood.Bs.Writing.{io_write_high}

abbrev disk : ℕ → Store
disk num = record {
  vers = 1;
  ready = true;
  num = num;
  name = [];
  alignmask = 511;
  descr = [];
  devtype = [];
  parts = [];
  size = 2 ^ 35;
}

-- Disk 1 alone.
abbrev one_disk : Bs
one_disk = record { disks = none ∷ some (named (disk 1)) ∷ []; maxdisk = 1 }

blockstoreadd_one : blockstoreadd no_disks (disk 1) ≡ ok one_disk
unfolding blockstoreadd diskget register_disk grow_table clear_disks grow_disks put_disk
blockstoreadd_one = refl

one_disk-IsTable : IsTable one_disk
one_disk-IsTable = omega arith

-- Disk 2 comes, and disk 1 goes.
blockstoreadd_lem_example :
    (bs' : Bs) × (blockstoreadd one_disk (disk 2) ≡ ok bs')
    × IsTable bs'
    × ((i : ℕ) → diskget bs' i ≡ found_after one_disk (disk 2) i)
unfolding diskget
blockstoreadd_lem_example = blockstoreadd_lem one_disk (disk 2) one_disk-IsTable (omega arith) refl

-- A device whose bytes count up, with a log of the writes.
abbrev Log : Type 0
Log = List (ℕ × ℕ)

abbrev content : Log → ℕ → ℕ
content log i = i % 256

abbrev dev_io : Bool → ℕ → ℕ → List ℕ → Log → Result (ℕ × List ℕ) × Log
dev_io false n off buf log = (ok (n, slice (content log) off n ++ drop n buf), log)
dev_io true n off buf log = (ok (n, buf), (off, n) ∷ log)

abbrev smalloc : ℕ → List ℕ
smalloc n = replicate n 0

dev_io-IsReader : IsReader dev_io content (512 * 1024)
dev_io-IsReader = record { reads = λ n off buf dev few whole start low. refl }

abbrev part_at : ℕ → Part
part_at s = record {
  index = 1;
  typ = 6;
  name = [];
  s = s;
  e = s + 2 ^ 30;
  size = 2 ^ 30;
  uid = [];
  perm = 0x1b0;
  isopen = 0;
}

-- Three bytes from 5 GB and 515 on are read from 1 GB and 515 on.
io_read_example :
    io dev_io smalloc (disk 1) (part_at (5 * 2 ^ 30)) false (9 ∷ 9 ∷ 9 ∷ 9 ∷ []) 3 515 []
    ≡ (ok (3, slice (content []) (2 ^ 30 + 515) 3 ++ (9 ∷ [])), [])
io_read_example =
    io_read dev_io smalloc content (512 * 1024) dev_io-IsReader (disk 1) (part_at (5 * 2 ^ 30))
      (9 ∷ 9 ∷ 9 ∷ 9 ∷ []) 3 515 [] refl refl (omega arith) (omega arith)

io_write_high_example :
    (io dev_io smalloc (disk 1) (part_at (5 * 2 ^ 30)) true (replicate 512 7) 512 512 []).1
    ≡ (2 ^ 30 + 512, 512) ∷ []
io_write_high_example =
    io_write_high dev_io smalloc (disk 1) (part_at (5 * 2 ^ 30)) (replicate 512 7) 512 512 [] refl
      refl (omega arith) (omega arith) (omega arith) (omega arith) (omega arith) (omega arith)
