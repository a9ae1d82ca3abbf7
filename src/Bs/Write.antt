-- ===== src/Bs/Write.antt =====
-- devbs.c: `bsdevwrite`, and `bswrite` for any file.
use inferno_kirkwood.Prelude.{
  ℕ, Bool, true, not, Option, none, some, List, ◌==◌, ◌||◌, if◌then◌else◌,
}
use inferno_kirkwood.Port.{Error, Result, ok, err, panic, ◌>>◌, raise_if, on_ok}
use inferno_kirkwood.Bs.Defs.{Store, Bs}
use inferno_kirkwood.Bs.Disk.{disk_of, xpartget}
use inferno_kirkwood.Bs.Open.{
  qtype, qdisk, qpart, qid_bsctl, qid_bsevent, qid_diskctl, qid_diskdevctl, qid_diskraw,
  qid_diskpart, Buf, Chan,
}
use inferno_kirkwood.Bs.Io.{io, is_negative32}
use inferno_kirkwood.Bs.Command.{owner_check}

-- The reply as a raw command finds it: new, with what the memory held as its count, or without
-- the bytes of the last command.
unfoldable pub clear_reply : ℕ → Option Buf → Buf
clear_reply uninit none = record { n = uninit; a = none }
clear_reply uninit (some b) = record b { a = none }

module _ {D : Type 0} (dev_io : Bool → ℕ → ℕ → List ℕ → D → Result (ℕ × List ℕ) × D)
    (smalloc : ℕ → List ℕ) (wctl : Store → List ℕ → ℕ → D → Result ℕ × D)
    (raw : Option (Store → List ℕ → ℕ → ℕ → D → Result Buf × D)) (uninit : ℕ) (iseve : Bool)
    (devpermcheck : List ℕ → ℕ → ℕ → Result (Unit {0})) where
  -- Qdiskdevctl
  unfoldable pub devctl_write : Store → List ℕ → ℕ → ℕ → Chan × D → Result ℕ × (Chan × D)
  devctl_write d a n off (c, dev) =
      on_ok (raise_if (not (off == 0)) Error.bad_arg >> owner_check iseve devpermcheck d 1) (c, dev)
        (λ allowed. let (r, dev) = wctl d a n dev in (r, (c, dev)))

  -- Qdiskraw
  unfoldable pub raw_write : Store → List ℕ → ℕ → ℕ → Chan × D → Result ℕ × (Chan × D)
  raw_write d a n off (c, dev) =
      on_ok (raise_if (not d.ready) Error.no_disk >> owner_check iseve devpermcheck d 1) (c, dev)
        (λ allowed. elim raw [
          | none ↦ (err Error.no_raw, (c, dev))
          | some command ↦
              let (r, dev) = command d a n off dev in
              on_ok r (record c { aux = some (clear_reply uninit c.aux) }, dev)
                (λ b. (ok (if is_negative32 b.n then b.n else n), (record c { aux = some b }, dev)))
        ])

  -- Qdiskpart
  unfoldable pub part_write : Store → List ℕ → ℕ → ℕ → Chan × D → Result ℕ × (Chan × D)
  part_write d a n off (c, dev) =
      on_ok (xpartget d (qpart c.path)) (c, dev)
        (λ p.
          let (r, dev) = io dev_io smalloc d p true a n off dev in
          on_ok r (c, dev) (λ done. (ok done.0, (c, dev))))

  unfoldable pub store_write : List ℕ → ℕ → ℕ → Chan × D → Store → Result ℕ × (Chan × D)
  store_write a n off (c, dev) d =
      if not (c.vers == d.vers)
      then (err Error.stale, (c, dev))
      else (if qtype c.path == qid_diskdevctl
          then devctl_write d a n off (c, dev)
          else (if qtype c.path == qid_diskraw
              then raw_write d a n off (c, dev)
              else (if qtype c.path == qid_diskpart
                  then part_write d a n off (c, dev)
                  else (panic, (c, dev)))))

  unfoldable pub bsdevwrite : Bs → List ℕ → ℕ → ℕ → Chan × D → Result ℕ × (Chan × D)
  bsdevwrite bs a n off s = on_ok (disk_of bs (qdisk s.0.path)) s (store_write a n off s)

  -- Any file: the result, and the table, the channel and the driver's state as they are left.
  unfoldable pub bswrite :
      (bsctl_write : Bs → List ℕ → Result (Unit {0}) × Bs)
      (diskctl_write : Bs → Chan → List ℕ → Result (Unit {0}) × Bs)
      → List ℕ
      → ℕ
      → ℕ
      → Bs × Chan × D
      → Result ℕ × Bs × Chan × D
  bswrite bsctl_write diskctl_write a n off (bs, c, dev) =
      if qtype c.path == qid_bsctl
      then (let (r, bs) = bsctl_write bs a in (r >> ok n, bs, c, dev))
      else (if qtype c.path == qid_bsevent
          then (err Error.not_yet, bs, c, dev)
          else (if qtype c.path == qid_diskctl
              then (let (r, bs) = diskctl_write bs c a in (r >> ok n, bs, c, dev))
              else (if qtype c.path == qid_diskdevctl
                    || (qtype c.path == qid_diskraw || qtype c.path == qid_diskpart)
                  then (let (r, s) = bsdevwrite bs a n off (c, dev) in (r, bs, s.0, s.1))
                  else (err Error.bad_usefd, bs, c, dev))))
