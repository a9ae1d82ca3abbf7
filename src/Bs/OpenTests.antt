-- ===== src/Bs/OpenTests.antt =====
-- Runs of opening, closing and initialisation, and their theorems at concrete inputs.
use inferno_kirkwood.Prelude.{
  Bool, ℕ, ◌+◌, ◌*◌, ◌^◌, ◌≡◌, refl, arith, true, false, none, some, List, [], ◌∷◌, u32,
}
use inferno_kirkwood.Port.{panic, Error, Result, ok, err}
use inferno_kirkwood.Part.{Part}
use inferno_kirkwood.Part.Layout.{IsBytes}
use inferno_kirkwood.Bs.Defs.{Store, Bs}
use inferno_kirkwood.Bs.Table.{diskget}
use inferno_kirkwood.Bs.Disk.{disk_of, put_store, partget, xpartget, diskinit}
use inferno_kirkwood.Bs.Open.{Chan, set_part, open_found, open_part, bsopen, bsclose}
use inferno_kirkwood.Bs.Opened.{bsclose-bsopen}
use inferno_kirkwood.Bs.Command.{command_check, owner_check, diskctl_write, init_word}
use inferno_kirkwood.Bs.Write.{bsdevwrite}
use inferno_kirkwood.Bs.Stale.{bsdevwrite-diskctl_write}
use inferno_kirkwood.Bs.Race.{before_test, marked, Opening, OpenReach, open_race}
use inferno_kirkwood.Bs.Started.{IsDriver, IsOutcome, found_in, diskinit-IsOutcome}

abbrev part_at : ℕ → ℕ → Part
part_at i isopen = record {
  index = i;
  typ = 0x39;
  name = b'p' ∷ [];
  s = i * 2 ^ 20;
  e = i * 2 ^ 20 + 2 ^ 20;
  size = 2 ^ 20;
  uid = [];
  perm = 0x1b0;
  isopen = isopen;
}

abbrev store_with : List Part → Store
store_with parts = record {
  vers = 3;
  ready = true;
  num = 1;
  name = [];
  alignmask = 511;
  descr = [];
  devtype = [];
  parts = parts;
  size = 2 ^ 35;
}

abbrev table_with : List Part → Bs
table_with parts = record { disks = none ∷ some (store_with parts) ∷ []; maxdisk = 1 }

abbrev closed_parts : List Part
closed_parts = part_at 0 0 ∷ part_at 1 0 ∷ []

abbrev opened_parts : List Part
opened_parts = part_at 0 0 ∷ part_at 1 1 ∷ []

-- The file of partition 1 of disk 1.
abbrev file : Chan
file = record { path = 0x010108; vers = 0; copen = false; aux = none }

abbrev open_file : Chan
open_file = record { path = 0x010108; vers = 3; copen = true; aux = none }

abbrev devopen : Chan → ℕ → Result Chan
devopen c omode = ok (record c { copen = true })

file_opens :
    bsopen devopen (table_with closed_parts) file 2 ≡ ok (open_file, table_with opened_parts)
unfolding bsopen open_part open_found disk_of diskget xpartget partget set_part put_store
file_opens = refl

devopen_keeps :
    (c : Chan) (omode : ℕ) (c0 : Chan)
    → devopen c omode ≡ ok c0
    → (c0.path ≡ c.path) × (c0.copen ≡ true)
devopen_keeps c omode c0 e = (cc, cc)

bsclose-bsopen_example :
    bsclose (table_with opened_parts) open_file ≡ ok (open_file, table_with closed_parts)
bsclose-bsopen_example =
    bsclose-bsopen devopen devopen_keeps (table_with closed_parts) file 2 refl refl file_opens

abbrev find_disk : Store → Result (Unit {0}) × Store
find_disk d = (ok tt, record d { size = 2 ^ 30 })

find_disk-IsDriver : IsDriver find_disk
find_disk-IsDriver = record {
  vers_same = λ d. refl;
  ready_same = λ d. refl;
  parts_same = λ d. refl;
  size_nonneg = λ d e. omega arith;
}

abbrev read_nothing : Store → ℕ → ℕ → Result (List ℕ)
read_nothing d n off = ok []

read_nothing-IsBytes :
    (d : Store) (n off : ℕ) (sector : List ℕ) → read_nothing d n off ≡ ok sector → IsBytes sector
read_nothing-IsBytes d n off [] e = tt
read_nothing-IsBytes d n off (c ∷ sector) e = absurd cc

abbrev no_text : ℕ → List ℕ → List ℕ × ℕ
no_text room text = ([], 0)

diskinit-IsOutcome_example :
    IsOutcome []
      (found_in no_text (λ line. []) (λ text. 0) [] 0 read_nothing read_nothing-IsBytes)
      (u32 4)
      (diskinit no_text
        (λ line. [])
        (λ text. 0)
        []
        0
        read_nothing
        find_disk
        (store_with opened_parts))
diskinit-IsOutcome_example =
    diskinit-IsOutcome no_text (λ line. []) (λ text. 0) [] 0 read_nothing read_nothing-IsBytes
      find_disk find_disk-IsDriver (store_with opened_parts)

-- The file `ctl` of disk 1.
abbrev ctl_file : Chan
ctl_file = record { path = 0x0104; vers = 3; copen = true; aux = none }

abbrev no_io : Bool → ℕ → ℕ → List ℕ → ℕ → Result (ℕ × List ℕ) × ℕ
no_io iswrite n off buf dev = (ok (n, buf), dev)

abbrev no_wctl : Store → List ℕ → ℕ → ℕ → Result ℕ × ℕ
no_wctl d a n dev = (ok n, dev + 1)

ctl_allowed :
    command_check no_text
      (λ line. [])
      (λ text. 0)
      []
      0
      read_nothing
      find_disk
      (λ a. a ∷ [])
      (λ cb tab. ok 0)
      (λ text. 0)
      true
      (λ uid perm mode. err Error.perm)
      (store_with opened_parts)
      ctl_file
    ≡ ok tt
unfolding command_check owner_check
ctl_allowed = refl

bsdevwrite-diskctl_write_example :
    bsdevwrite no_io
      (λ n. [])
      no_wctl
      none
      0
      true
      (λ uid perm mode. err Error.perm)
      (diskctl_write no_text
        (λ line. [])
        (λ text. 0)
        []
        0
        read_nothing
        find_disk
        (λ a. a ∷ [])
        (λ cb tab. ok 0)
        (λ text. 0)
        true
        (λ uid perm mode. err Error.perm)
        (table_with opened_parts)
        ctl_file
        init_word).1
      (7 ∷ [])
      1
      0
      (ctl_file, 5)
    ≡ (err Error.stale, (ctl_file, 5))
bsdevwrite-diskctl_write_example =
    bsdevwrite-diskctl_write no_text (λ line. []) (λ text. 0) [] 0 read_nothing find_disk
      (λ a. a ∷ []) (λ cb tab. ok 0) (λ text. 0) true (λ uid perm mode. err Error.perm) no_io
      (λ n. []) no_wctl none 0 read_nothing-IsBytes find_disk-IsDriver (table_with opened_parts)
      (store_with opened_parts) ctl_file init_word (7 ∷ []) 1 0 5
      (record { inside = refl; listed = refl }) refl (omega arith) ctl_allowed refl

open_race_example :
    (s : Opening) × OpenReach file
      (record { store = store_with closed_parts; pc = λ k. before_test })
      s
    × (s.pc 0 ≡ marked)
    × (s.pc 1 ≡ marked)
    × (bsclose (put_store (table_with closed_parts) 1 s.store) open_file ≡ panic)
open_race_example =
    open_race file (store_with closed_parts) (part_at 1 0) (record { ready = refl; listed = refl })
      refl refl (table_with closed_parts) open_file (λ k. before_test) 0 1
      (record { inside = refl; listed = refl }) refl refl refl refl refl refl refl refl
