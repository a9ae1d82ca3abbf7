-- ===== src/Bs/Race.antt =====
-- devbs.c: opens of one partition's file by several processes at a time. For a partition `bsopen`
-- holds only read locks, so that another open can come between its test of `isopen` and the mark.
use inferno_kirkwood.Prelude.{
  ℕ, ◌+◌, ◌≡◌, refl, inl, inr, arith, true, false, not, ◌==◌, if◌then◌else◌, update, Bool-cases,
}
use inferno_kirkwood.Port.{Error, Result, ok, err, fault, panic, hang, ◌>>=◌, ◌>>◌}
use inferno_kirkwood.Part.{Part}
use inferno_kirkwood.Bs.Defs.{Store, Bs}
use inferno_kirkwood.Bs.Disk.{disk_of, put_store, xpartget}
use inferno_kirkwood.Bs.Open.{
  qtype, qdisk, qpart, Chan, set_part, open_found, open_part, close_part, bsclose,
}
use inferno_kirkwood.Bs.Finding.{
  IsAt, disk_of-ok, put_store-IsAt, HasPart, xpartget-ok, set_part-HasPart,
}

-- The search for the partition and the test.
unfoldable pub open_test : Chan → Store → Result (Unit {0})
open_test c d = do
  p ← xpartget d (qpart c.path)
  (if p.index == 0 then ok tt else (if not (p.isopen == 0) then err Error.in_use else ok tt))

-- `p->isopen++`, of the partition that was found.
unfoldable pub open_mark : Chan → Store → Result Store
open_mark c d = do
  p ← xpartget d (qpart c.path)
  (if p.index == 0
      then fault
      else ok (set_part d (qpart c.path) (record p { isopen = p.isopen + 1 })))

-- Where a process is with its open: before the test, behind it, or done.
pub data OpenPc : Type 0 where
  before_test behind_test marked : OpenPc

-- The store, and the processes that open partition `c`'s file.
pub record Opening : Type 0 where
  pub store : Store
  pub pc : ℕ → OpenPc

pub data OpenStep (c : Chan) (s : Opening) : Opening → Type 0 where
  test :
      (k : ℕ)
      → s.pc k ≡ before_test
      → open_test c s.store ≡ ok tt
      → OpenStep c s (record s { pc = update k behind_test s.pc })
  mark :
      (k : ℕ) {d : Store}
      → s.pc k ≡ behind_test
      → open_mark c s.store ≡ ok d
      → OpenStep c s (record { store = d; pc = update k marked s.pc })

pub data OpenReach (c : Chan) (s : Opening) : Opening → Type 0 where
  here : OpenReach c s s
  next : {t u : Opening} → OpenReach c s t → OpenStep c t u → OpenReach c s u

-- An open that no other interrupts is the test, `devopen` and the mark.
open_part-steps :
    (devopen : Chan → ℕ → Result Chan) (d : Store) (c : Chan) (omode : ℕ)
    → open_part devopen d c omode
      ≡ (do open_test c d; c' ← devopen c omode; d' ← open_mark c d; ok (c', d'))
unfolding open_part open_found open_test open_mark
open_part-steps devopen d c omode = by_part (xpartget d (qpart c.path)) refl
  where
    by_part :
        (r : Result Part)
        → xpartget d (qpart c.path) ≡ r
        → open_part devopen d c omode
          ≡ (do open_test c d; c' ← devopen c omode; d' ← open_mark c d; ok (c', d'))
    by_part (ok p) e = elim (Bool-cases (p.index == 0)) [
      | inl first ↦ rw (e, first) refl
      | inr numbered ↦ elim (Bool-cases (p.isopen == 0)) [
        | inl free ↦ rw (e, numbered, free) refl
        | inr busy ↦ rw (e, numbered, busy) refl
      ]
    ]
    by_part (err why) e = rw e refl
    by_part fault e = rw e refl
    by_part panic e = rw e refl
    by_part hang e = rw e refl

module _ (c : Chan) (d : Store) (p : Part) (found : HasPart d (qpart c.path) p)
    (numbered : (p.index == 0) ≡ false) (closed : p.isopen ≡ 0) where
  abbrev part_open : ℕ → Part
  part_open n = record p { isopen = n }

  abbrev opened_by : ℕ → Store
  opened_by n = set_part d (qpart c.path) (part_open n)

  opened-HasPart : (n : ℕ) → HasPart (opened_by n) (qpart c.path) (part_open n)
  opened-HasPart n = set_part-HasPart d (qpart c.path) (part_open n) found

  twice_open-vers : (set_part (opened_by 1) (qpart c.path) (part_open 2)).vers ≡ d.vers
  unfolding set_part
  twice_open-vers = refl

  test_passes : open_test c d ≡ ok tt
  unfolding open_test
  test_passes = rw (xpartget-ok d (qpart c.path) found, numbered, closed) refl

  mark_first : open_mark c d ≡ ok (opened_by 1)
  unfolding open_mark
  mark_first = rw (xpartget-ok d (qpart c.path) found, numbered, closed) refl

  mark_second : open_mark c (opened_by 1) ≡ ok (set_part (opened_by 1) (qpart c.path) (part_open 2))
  unfolding open_mark
  mark_second = rw (xpartget-ok (opened_by 1) (qpart c.path) (opened-HasPart 1), numbered) refl

  -- Two processes that open the file of a partition which is not open, and not the disk's first,
  -- can both succeed: each tests before the other marks. A `bsclose` of such a file, through an open
  -- channel with the disk's version, then panics.
  pub open_race :
      (bs : Bs) (c' : Chan) (pc : ℕ → OpenPc) (j k : ℕ)
      → IsAt bs (qdisk c.path) d
      → qtype c.path ≡ 8
      → (qpart c.path == 0) ≡ false
      → c'.path ≡ c.path
      → c'.copen ≡ true
      → c'.vers ≡ d.vers
      → (j == k) ≡ false
      → pc j ≡ before_test
      → pc k ≡ before_test
      → (s : Opening) × OpenReach c (record { store = d; pc = pc }) s
        × (s.pc j ≡ marked)
        × (s.pc k ≡ marked)
        × (bsclose (put_store bs (qdisk c.path) s.store) c' ≡ panic)
  unfolding bsclose close_part
  open_race bs c' pc j k at typ upper path copen vers apart at_j at_k =
      let d2 = set_part (opened_by 1) (qpart c.path) (part_open 2) in
      let has : HasPart d2 (qpart c.path) (part_open 2) =
        set_part-HasPart (opened_by 1) (qpart c.path) (part_open 2) (opened-HasPart 1) in
      let pc1 = update j behind_test pc in
      let pc2 = update k behind_test pc1 in
      let pc3 = update j marked pc2 in
      let k1 : pc1 k ≡ before_test = ground (arith, apart, at_k) in
      let j2 : pc2 j ≡ behind_test = ground (arith, apart) in
      let k3 : pc3 k ≡ behind_test = ground (arith, apart) in
      let r1 = next here (test j at_j test_passes) in
      let r2 = next r1 (test k k1 test_passes) in
      let r3 = next r2 (mark j j2 mark_first) in
      let r4 = next r3 (mark k k3 mark_second) in
      (
        record { store = d2; pc = update k marked pc3 },
        r4,
        ground (arith, apart),
        ground (arith, apart),
        (let there : disk_of (put_store bs (qdisk c.path) d2) (qdisk c.path) ≡ ok d2 =
              disk_of-ok _ (qdisk c.path) (put_store-IsAt bs (qdisk c.path) d2 at) in
            let got = xpartget-ok d2 (qpart c.path) has in
            let current : (c'.vers == d2.vers) ≡ true = ground (arith, vers, twice_open-vers) in
            rw (path, copen, typ, upper, there, current, got) refl),
      )
