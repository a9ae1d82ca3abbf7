-- ===== src/Bs/Disk.antt =====
-- devbs.c: finding a store and its partitions, and the initialisation of a store.
use inferno_kirkwood.Prelude.{
  ℕ, zero, suc, ◌+◌, true, false, not, Option, none, some, List, [], ◌∷◌, ◌==◌, if◌then◌else◌,
  get_elem?, set, bit_and, u32,
}
use inferno_kirkwood.Port.{Error, Result, ok, err, fault, panic, hang, ◌>>=◌, ◌>>◌}
use inferno_kirkwood.Part.{Part}
use inferno_kirkwood.Part.Init.{partinit}
use inferno_kirkwood.Bs.Defs.{Store, Bs}
use inferno_kirkwood.Bs.Table.{diskget}

-- The store with a number, as `diskgetlock` finds it.
unfoldable pub disk_of : Bs → ℕ → Result Store
disk_of bs num = do d ← diskget bs num; elim d [ none ↦ err Error.no_disk | some d ↦ ok d ]

-- The table after a change of the store that it points to at `num`.
unfoldable pub put_store : Bs → ℕ → Store → Bs
put_store bs num d = record bs { disks = set bs.disks num (some d) }

unfoldable pub partget : Store → ℕ → Option Part
partget d i = get_elem? d.parts i

unfoldable pub xpartget : Store → ℕ → Result Part
xpartget d i =
    if not d.ready
    then err Error.no_disk
    else elim (partget d i) [ none ↦ err Error.no_part | some p ↦ ok p ]

-- `if(waserror()) { ... continue; }`
unfoldable pub catch_error : Result (Unit {0}) → Result (Unit {0})
catch_error (err why) = ok tt
catch_error r = r

-- The partition for the whole disk.
unfoldable pub partdata : List ℕ → ℕ → Part
partdata eve size = record {
  index = 0;
  typ = 0;
  name = b'd' ∷ b'a' ∷ b't' ∷ b'a' ∷ [];
  s = 0;
  e = size;
  size = size;
  uid = eve;
  perm = 0x1b0;
  isopen = 0;
}

-- What is done with the result of `partinit`, whose error is printed only.
unfoldable pub take_parts : Store → Result (List Part) → Result (Unit {0}) × Store
take_parts d (ok parts) = (ok tt, record d { parts = parts })
take_parts d (err why) = (ok tt, d)
take_parts d fault = (fault, d)
take_parts d panic = (panic, d)
take_parts d hang = (hang, d)

-- One call on a store after another.
unfoldable pub and_then :
    Result (Unit {0}) × Store → (Store → Result (Unit {0}) × Store) → Result (Unit {0}) × Store
and_then (ok done, d) next = next d
and_then (err why, d) next = (err why, d)
and_then (fault, d) next = (fault, d)
and_then (panic, d) next = (panic, d)
and_then (hang, d) next = (hang, d)

-- The store with the partition for the whole disk, ready.
unfoldable pub whole_disk : List ℕ → Store → Store
whole_disk eve d = record d { parts = partdata eve d.size ∷ []; ready = true }

-- The store as `diskinit` hands it to the driver.
unfoldable pub reset_disk : Store → Store
reset_disk d = record d { ready = false; parts = []; vers = u32 (d.vers + 1) }

module _ (seprint : ℕ → List ℕ → List ℕ × ℕ) (tokenize : List ℕ → List (List ℕ))
    (strtoull : List ℕ → ℕ) (eve : List ℕ) (stale : ℕ)
    (read : Store → ℕ → ℕ → Result (List ℕ)) where
  unfoldable pub find_parts : Store → Result (Unit {0}) × Store
  find_parts d = take_parts d (partinit seprint tokenize strtoull eve stale (read d) d.size d.parts)

  -- What follows `d->devinit(d)`.
  unfoldable pub disk_found : Store → Result (Unit {0}) × Store
  disk_found d =
      if not (bit_and d.size d.alignmask == 0)
      then (err Error.misaligned_size, d)
      else find_parts (whole_disk eve d)

  -- The result, and the store as it is left also by an error.
  unfoldable pub diskinit :
      (devinit : Store → Result (Unit {0}) × Store) → Store → Result (Unit {0}) × Store
  diskinit devinit d = and_then (devinit (reset_disk d)) disk_found

  -- `d->init(d); diskinit(d)`
  unfoldable pub start_disk :
      (init devinit : Store → Result (Unit {0}) × Store) → Store → Result (Unit {0}) × Store
  start_disk init devinit d = and_then (init d) (diskinit devinit)

  -- The loop of `bsinit` from index `i` on, by the rounds left. An error leaves the disk as it is
  -- and goes on with the next.
  unfoldable pub init_disks :
      (init devinit : Store → Result (Unit {0}) × Store) → ℕ → ℕ → Bs → Result Bs
  init_disks init devinit zero i bs = ok bs
  init_disks init devinit (suc rounds) i bs = do
    found ← diskget bs i
    elim found [
      | none ↦ init_disks init devinit rounds (i + 1) bs
      | some d ↦
          if d.ready
          then init_disks init devinit rounds (i + 1) bs
          else (let (r, d) = start_disk init devinit d in
              do catch_error r; init_disks init devinit rounds (i + 1) (put_store bs i d))
    ]

  unfoldable pub bsinit : (init devinit : Store → Result (Unit {0}) × Store) → Bs → Result Bs
  bsinit init devinit bs = init_disks init devinit (bs.maxdisk + 1) 0 bs
