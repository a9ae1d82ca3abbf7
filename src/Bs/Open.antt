-- ===== src/Bs/Open.antt =====
-- devbs.c: the names of the files, and opening and closing them.
use inferno_kirkwood.Prelude.{
  ℕ, ◌+◌, Bool, not, Option, none, List, ◌==◌, ◌&&◌, leb, if◌then◌else◌, set, bit_and, ◌>>>◌,
}
use inferno_kirkwood.Port.{Error, Result, ok, err, fault, panic, ◌>>=◌}
use inferno_kirkwood.Part.{Part}
use inferno_kirkwood.Bs.Defs.{Store, Bs}
use inferno_kirkwood.Bs.Disk.{disk_of, put_store, xpartget}

abbrev pub qtype : ℕ → ℕ
qtype path = bit_and (path >>> 0) 0xff

abbrev pub qdisk : ℕ → ℕ
qdisk path = bit_and (path >>> 8) 0xff

abbrev pub qpart : ℕ → ℕ
qpart path = bit_and (path >>> 16) 0xff

abbrev pub qid_dir : ℕ
qid_dir = 0

abbrev pub qid_bsctl : ℕ
qid_bsctl = 1

abbrev pub qid_bsevent : ℕ
qid_bsevent = 2

abbrev pub qid_diskdir : ℕ
qid_diskdir = 3

abbrev pub qid_diskctl : ℕ
qid_diskctl = 4

abbrev pub qid_diskdevctl : ℕ
qid_diskdevctl = 5

abbrev pub qid_diskevent : ℕ
qid_diskevent = 6

abbrev pub qid_diskraw : ℕ
qid_diskraw = 7

abbrev pub qid_diskpart : ℕ
qid_diskpart = 8

-- The reply to a raw command: its length, and its bytes or nil.
pub record Buf : Type 0 where
  pub n : ℕ
  pub a : Option (List ℕ)

-- Of a channel: the file, its version, whether it is open, and the reply to a raw command.
pub record Chan : Type 0 where
  pub path : ℕ
  pub vers : ℕ
  pub copen : Bool
  pub aux : Option Buf

unfoldable pub set_part : Store → ℕ → Part → Store
set_part d i p = record d { parts = set d.parts i p }

-- Partition `p` is opened: the channel, and the store with the partition marked. For the first
-- partition the pointer is nil.
unfoldable pub open_found :
    (Chan → ℕ → Result Chan) → Store → Chan → ℕ → Part → Result (Chan × Store)
open_found devopen d c omode p =
    if p.index == 0
    then devopen c omode >>= (λ c'. fault)
    else (if not (p.isopen == 0)
        then err Error.in_use
        else devopen c omode
          >>= (λ c'. ok (c', set_part d (qpart c.path) (record p { isopen = p.isopen + 1 }))))

unfoldable pub open_part : (Chan → ℕ → Result Chan) → Store → Chan → ℕ → Result (Chan × Store)
open_part devopen d c omode = do p ← xpartget d (qpart c.path); open_found devopen d c omode p

-- A file of a disk that is not one of its partitions.
unfoldable pub open_plain : (Chan → ℕ → Result Chan) → Store → Chan → ℕ → Result (Chan × Store)
open_plain devopen d c omode = do c' ← devopen c omode; ok (c', d)

-- An open that no other interrupts. The source holds only read locks for a partition, so that two
-- opens can both find it closed (Bs/Race).
unfoldable pub bsopen : (Chan → ℕ → Result Chan) → Bs → Chan → ℕ → Result (Chan × Bs)
bsopen devopen bs c omode =
    if leb qid_diskdir (qtype c.path)
    then (do
      d ← disk_of bs (qdisk c.path)
      opened ←
          if qtype c.path == qid_diskpart
          then open_part devopen d c omode
          else open_plain devopen d c omode
      ok (record opened.0 { vers = opened.1.vers }, put_store bs (qdisk c.path) opened.1))
    else (do c' ← devopen c omode; ok (c', bs))

unfoldable pub close_part : Bs → Chan → Result Bs
close_part bs c = do
  d ← disk_of bs (qdisk c.path)
  (if c.vers == d.vers
      then (do
        p ← xpartget d (qpart c.path)
        (if not (p.isopen == 1)
            then panic
            else ok (
                put_store bs (qdisk c.path) (set_part d (qpart c.path) (record p { isopen = 0 })))))
      else ok bs)

unfoldable pub bsclose : Bs → Chan → Result (Chan × Bs)
bsclose bs c = do
  bs ←
      if qtype c.path == qid_diskpart && c.copen && not (qpart c.path == 0)
      then close_part bs c
      else ok bs
  (if qtype c.path == qid_diskraw then ok (record c { aux = none }, bs) else ok (c, bs))
