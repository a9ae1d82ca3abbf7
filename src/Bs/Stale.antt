-- ===== src/Bs/Stale.antt =====
-- A channel from before the last initialisation of its disk.
use inferno_kirkwood.Prelude.{
  ℕ, ◌+◌, ◌<◌, u32, arith, ◌^◌, ◌≡◌, refl, Bool, false, Option, List, ◌==◌,
}
use inferno_kirkwood.Port.{Error, Result, ok, err}
use inferno_kirkwood.Bs.Defs.{Store, Bs}
use inferno_kirkwood.Bs.Disk.{put_store, diskinit}
use inferno_kirkwood.Bs.Open.{qdisk, Buf, Chan}
use inferno_kirkwood.Bs.Finding.{IsAt, disk_of-ok, put_store-IsAt}
use inferno_kirkwood.Bs.Started.{IsDriver, diskinit-IsOutcome}
use inferno_kirkwood.Part.Layout.{IsBytes}
use inferno_kirkwood.Bs.Command.{
  Cmdtab, bsdiskctl, disk_command, command_check, run_command, diskctl_write,
}
use inferno_kirkwood.Bs.Write.{store_write, bsdevwrite}

module _ {D : Type 0} (dev_io : Bool → ℕ → ℕ → List ℕ → D → Result (ℕ × List ℕ) × D)
    (smalloc : ℕ → List ℕ) (wctl : Store → List ℕ → ℕ → D → Result ℕ × D)
    (raw : Option (Store → List ℕ → ℕ → ℕ → D → Result Buf × D)) (uninit : ℕ) (iseve : Bool)
    (devpermcheck : List ℕ → ℕ → ℕ → Result (Unit {0})) where
  -- A write through a channel whose version is not that of its disk raises the error that the
  -- disk has changed, and nothing reaches the driver.
  pub bsdevwrite_stale :
      (bs : Bs) (d : Store) (a : List ℕ) (n off : ℕ) (c : Chan) (dev : D)
      → IsAt bs (qdisk c.path) d
      → (c.vers == d.vers) ≡ false
      → bsdevwrite dev_io smalloc wctl raw uninit iseve devpermcheck bs a n off (c, dev)
        ≡ (err Error.stale, (c, dev))
  unfolding bsdevwrite store_write
  bsdevwrite_stale bs d a n off c dev at old = rw (disk_of-ok bs (qdisk c.path) at, old) refl

module _ (seprint : ℕ → List ℕ → List ℕ × ℕ) (tokenize : List ℕ → List (List ℕ))
    (strtoull : List ℕ → ℕ) (eve : List ℕ) (stale : ℕ) (read : Store → ℕ → ℕ → Result (List ℕ))
    (devinit : Store → Result (Unit {0}) × Store) (parsecmd : List ℕ → List (List ℕ))
    (lookupcmd : List (List ℕ) → List Cmdtab → Result ℕ) (atoi : List ℕ → ℕ) (iseve : Bool)
    (devpermcheck : List ℕ → ℕ → ℕ → Result (Unit {0})) where
  -- The table after the command `init`.
  diskctl_init :
      (bs : Bs) (d : Store) (c : Chan) (a : List ℕ)
      → IsAt bs (qdisk c.path) d
      → command_check seprint tokenize strtoull eve stale read devinit parsecmd lookupcmd atoi iseve
          devpermcheck d c
        ≡ ok tt
      → lookupcmd (parsecmd a) bsdiskctl ≡ ok 0
      → (diskctl_write seprint tokenize strtoull eve stale read devinit parsecmd lookupcmd atoi
          iseve devpermcheck bs c a).1
        ≡ put_store bs
            (qdisk c.path)
            (diskinit seprint tokenize strtoull eve stale read devinit d).1
  unfolding diskctl_write run_command disk_command
  diskctl_init bs d c a at allowed cmd = rw (disk_of-ok bs (qdisk c.path) at, allowed, cmd) refl

  module _ {D : Type 0} (dev_io : Bool → ℕ → ℕ → List ℕ → D → Result (ℕ × List ℕ) × D)
      (smalloc : ℕ → List ℕ) (wctl : Store → List ℕ → ℕ → D → Result ℕ × D)
      (raw : Option (Store → List ℕ → ℕ → ℕ → D → Result Buf × D)) (uninit : ℕ)
      (bytes : (d : Store) (n off : ℕ) (sector : List ℕ)
        → read d n off ≡ ok sector
        → IsBytes sector) where
    -- After the command `init` to a disk's `ctl` through a channel with the disk's version, which
    -- has passed the checks before a command, a write through that channel is refused, whether the
    -- initialisation succeeded or not: the error is that the disk has changed, and nothing reaches
    -- the driver. The driver reads bytes, and its `devinit` leaves the version, the partitions and
    -- the flag alone and sets a size that is not negative if it succeeds.
    pub bsdevwrite-diskctl_write :
        IsDriver devinit
        → (bs : Bs) (d : Store) (c : Chan) (a data_written : List ℕ) (n off : ℕ) (dev : D)
        → IsAt bs (qdisk c.path) d
        → c.vers ≡ d.vers
        → d.vers < 2 ^ 32
        → command_check seprint tokenize strtoull eve stale read devinit parsecmd lookupcmd atoi
            iseve devpermcheck d c
          ≡ ok tt
        → lookupcmd (parsecmd a) bsdiskctl ≡ ok 0
        → bsdevwrite dev_io smalloc wctl raw uninit iseve devpermcheck
            (diskctl_write seprint tokenize strtoull eve stale read devinit parsecmd lookupcmd atoi
              iseve devpermcheck bs c a).1
            data_written
            n
            off
            (c, dev)
          ≡ (err Error.stale, (c, dev))
    bsdevwrite-diskctl_write driver bs d c a data_written n off dev at same word allowed cmd =
        let d' = (diskinit seprint tokenize strtoull eve stale read devinit d).1 in
        let newer : d'.vers ≡ u32 (d.vers + 1) =
          (diskinit-IsOutcome seprint tokenize strtoull eve stale read bytes devinit driver
            d).version in
        let differs : (c.vers == d'.vers) ≡ false = ground (arith, same, newer, word) in
        rw (diskctl_init bs d c a at allowed cmd) (
          bsdevwrite_stale dev_io smalloc wctl raw uninit iseve devpermcheck
            (put_store bs (qdisk c.path) d') d' data_written n off c dev
            (put_store-IsAt bs (qdisk c.path) d' at) differs)
