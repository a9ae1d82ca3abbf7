-- ===== src/Bs/Opened.antt =====
-- Opening and closing a partition's file: the mark that the open leaves, and what it rules out.
use inferno_kirkwood.Prelude.{
  ℕ, ◌+◌, ◌≡◌, refl, ap, sym, ◌∙◌, inl, inr, arith, true, false, ◌==◌, Bool-cases,
}
use inferno_kirkwood.Port.{Error, Result, ok, err, >>=-eq-ok, ok-pair}
use inferno_kirkwood.Part.{Part}
use inferno_kirkwood.Bs.Defs.{Store, Bs}
use inferno_kirkwood.Bs.Disk.{disk_of, put_store, xpartget}
use inferno_kirkwood.Bs.Open.{
  qtype, qdisk, qpart, Chan, set_part, open_found, open_part, bsopen, close_part, bsclose,
}
use inferno_kirkwood.Bs.Finding.{
  IsAt, disk_of-ok, disk_of-IsAt, put_store-IsAt, put_store-restore, HasPart, xpartget-ok,
  xpartget-HasPart, set_part-HasPart, set_part-restore,
}

-- A partition's open that has succeeded: the partition, which was not open, and the channel that
-- `devopen` gave.
pub record IsOpened (devopen : Chan → ℕ → Result Chan) (d : Store) (c : Chan) (omode : ℕ)
    (c' : Chan) (d' : Store) : Type 0 where
  pub part : Part
  pub found : HasPart d (qpart c.path) part
  pub numbered : (part.index == 0) ≡ false
  pub closed : part.isopen ≡ 0
  pub device : devopen c omode ≡ ok c'
  pub marked : d' ≡ set_part d (qpart c.path) (record part { isopen = 1 })

module _ (devopen : Chan → ℕ → Result Chan) where
  open_found-IsOpened :
      (d : Store) (c : Chan) (omode : ℕ) (p : Part) {c' : Chan} {d' : Store}
      → HasPart d (qpart c.path) p
      → open_found devopen d c omode p ≡ ok (c', d')
      → IsOpened devopen d c omode c' d'
  unfolding open_found
  open_found-IsOpened d c omode p {c'} {d'} has e = elim (Bool-cases (p.index == 0)) [
    | inl first ↦
        absurd
          (let h = rw first at e in let (c0, device, wrong) = >>=-eq-ok (devopen c omode) _ h in cc)
    | inr numbered ↦ elim (Bool-cases (p.isopen == 0)) [
      | inl free ↦
          let h = rw (numbered, free) at e in
          let (c0, device, done) = >>=-eq-ok (devopen c omode) _ h in
          let closed : p.isopen ≡ 0 = ground (arith, free) in
          let same : (c0 ≡ c')
              × (set_part d (qpart c.path) (record p { isopen = p.isopen + 1 }) ≡ d') =
            ok-pair done in
          record {
            part = p;
            found = has;
            numbered = numbered;
            closed = closed;
            device = device ∙ ap ok same.0;
            marked =
                sym same.1
                ∙ ap (λ n. set_part d (qpart c.path) (record p { isopen = n }))
                    (let one : p.isopen + 1 ≡ 1 = omega (arith, closed) in one);
          }
      | inr taken ↦ absurd (let h = rw (numbered, taken) at e in cc)
    ]
  ]

  open_part-IsOpened :
      (d : Store) (c : Chan) (omode : ℕ) {c' : Chan} {d' : Store}
      → open_part devopen d c omode ≡ ok (c', d')
      → IsOpened devopen d c omode c' d'
  unfolding open_part
  open_part-IsOpened d c omode e =
      let (p, got, rest) = >>=-eq-ok (xpartget d (qpart c.path)) _ e in
      open_found-IsOpened d c omode p (xpartget-HasPart d (qpart c.path) got) rest

  -- What a successful open of a partition's file has found and done.
  record IsOpen (bs : Bs) (c : Chan) (omode : ℕ) (c' : Chan) (bs' : Bs) : Type 0 where
    store : Store
    opened : Store
    chan : Chan
    at : IsAt bs (qdisk c.path) store
    part_open : IsOpened devopen store c omode chan opened
    new_chan : c' ≡ record chan { vers = opened.vers }
    new_table : bs' ≡ put_store bs (qdisk c.path) opened

  bsopen-IsOpen :
      (bs : Bs) (c : Chan) (omode : ℕ) {c' : Chan} {bs' : Bs}
      → qtype c.path ≡ 8
      → bsopen devopen bs c omode ≡ ok (c', bs')
      → IsOpen bs c omode c' bs'
  unfolding bsopen
  bsopen-IsOpen bs c omode {c'} {bs'} typ e =
      let h = rw typ at e in
      let (d, got, rest) = >>=-eq-ok (disk_of bs (qdisk c.path)) _ h in
      let ((c0, d'), device, done) = >>=-eq-ok (open_part devopen d c omode) _ rest in
      let same = ok-pair done in
      record {
        store = d;
        opened = d';
        chan = c0;
        at = disk_of-IsAt bs (qdisk c.path) got;
        part_open = open_part-IsOpened d c omode device;
        new_chan = sym same.0;
        new_table = sym same.1;
      }

  -- The next open of a partition's file after one that has ended with success fails: the error is
  -- that it is in use.
  pub bsopen_twice :
      (bs : Bs) (c c2 : Chan) (omode omode2 : ℕ) {c' : Chan} {bs' : Bs}
      → qtype c.path ≡ 8
      → c2.path ≡ c.path
      → bsopen devopen bs c omode ≡ ok (c', bs')
      → bsopen devopen bs' c2 omode2 ≡ err Error.in_use
  unfolding bsopen open_part open_found
  bsopen_twice bs c c2 omode omode2 typ same e =
      let o = bsopen-IsOpen bs c omode typ e in
      let n = qdisk c.path in
      let i = qpart c.path in
      let p = record o.part_open.part { isopen = 1 } in
      let there : disk_of (put_store bs n o.opened) n ≡ ok o.opened =
        disk_of-ok _ n (put_store-IsAt bs n o.opened o.at) in
      let has : xpartget o.opened i ≡ ok p =
        rw o.part_open.marked (xpartget-ok _ i (set_part-HasPart o.store i p o.part_open.found)) in
      rw (o.new_table, same, typ, there, has, o.part_open.numbered) refl

  -- Closing a file that is not the disk's first partition, right after it was opened, takes back
  -- all that the open has changed, where `devopen` keeps a channel's file and marks it as open.
  pub bsclose-bsopen :
      (opens : (c : Chan) (omode : ℕ) (c0 : Chan)
        → devopen c omode ≡ ok c0
        → (c0.path ≡ c.path) × (c0.copen ≡ true))
      (bs : Bs) (c : Chan) (omode : ℕ) {c' : Chan} {bs' : Bs}
      → qtype c.path ≡ 8
      → (qpart c.path == 0) ≡ false
      → bsopen devopen bs c omode ≡ ok (c', bs')
      → bsclose bs' c' ≡ ok (c', bs)
  unfolding bsclose close_part
  bsclose-bsopen opens bs c omode {c'} {bs'} typ upper e =
      let o = bsopen-IsOpen bs c omode typ e in
      let (path, copen) = opens c omode o.chan o.part_open.device in
      rw (o.new_table, o.new_chan)
        (closes o.chan o.store o.opened o.part_open.part path copen o.at o.part_open.found
          (let p : o.opened
                ≡ set_part o.store (qpart c.path) (record o.part_open.part { isopen = 1 }) =
              o.part_open.marked in
            p)
          o.part_open.closed)
    where
      closes :
          (c0 : Chan) (d d' : Store) (p : Part)
          → c0.path ≡ c.path
          → c0.copen ≡ true
          → IsAt bs (qdisk c.path) d
          → HasPart d (qpart c.path) p
          → d' ≡ set_part d (qpart c.path) (record p { isopen = 1 })
          → p.isopen ≡ 0
          → bsclose (put_store bs (qdisk c.path) d') (record c0 { vers = d'.vers })
            ≡ ok (record c0 { vers = d'.vers }, bs)
      closes c0 d d' p path copen at has marked closed =
          let n = qdisk c.path in
          let i = qpart c.path in
          let there : disk_of (put_store bs n d') n ≡ ok d' =
            disk_of-ok _ n (put_store-IsAt bs n d' at) in
          let open_one = record p { isopen = 1 } in
          let got : xpartget d' i ≡ ok open_one =
            rw marked (xpartget-ok _ i (set_part-HasPart d i open_one has)) in
          let unmarked : set_part d' i (record p { isopen = 0 }) ≡ d =
            rw (marked, ← closed) (set_part-restore d i p open_one has) in
          let version : (d'.vers == d'.vers) ≡ true = ground arith in
          rw
            (path, copen, typ, upper, there, version, got, unmarked, put_store-restore bs n d d' at)
            refl
