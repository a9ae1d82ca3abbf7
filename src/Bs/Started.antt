-- ===== src/Bs/Started.antt =====
-- The state in which `diskinit` leaves a store.
use inferno_kirkwood.Prelude.{
  ℕ, ◌+◌, ◌≡◌, refl, subst, ◌⊎◌, inl, inr, true, false, List, [], ◌∷◌, ◌==◌, Bool-cases, bit_and,
  u32,
}
use inferno_kirkwood.Port.{Error, Result, ok, err, fault, panic, hang}
use inferno_kirkwood.Part.{Part, IsNonneg}
use inferno_kirkwood.Part.Init.{partinit}
use inferno_kirkwood.Part.Layout.{IsBytes, IsLaidOut}
use inferno_kirkwood.Part.Plan9.{Extends, partinit-Extends}
use inferno_kirkwood.Bs.Defs.{Store}
use inferno_kirkwood.Bs.Disk.{
  partdata, take_parts, and_then, whole_disk, reset_disk, find_parts, disk_found, diskinit,
}

-- A store that can be used: its size is aligned, and its partitions are the list that `partinit`
-- has returned, `found` of the store with the partition for the whole disk alone, or just that
-- partition if `partinit` raised an error.
pub record IsStarted (eve : List ℕ) (found : Store → Result (List Part)) (d : Store) : Type 0 where
  pub ready : d.ready ≡ true
  pub aligned : (bit_and d.size d.alignmask == 0) ≡ true
  pub layout :
      let w = record d { parts = partdata eve d.size ∷ [] } in
      ((found w ≡ ok d.parts)
        × (mbr : List Part) × IsLaidOut d.size (partdata eve d.size) mbr
        × Extends d.size mbr d.parts)
      ⊎ ((why : Error) × (found w ≡ err why) × (d.parts ≡ partdata eve d.size ∷ []))

-- A store that is not in use.
pub record IsIdle (d : Store) : Type 0 where
  pub idle : d.ready ≡ false
  pub no_parts : d.parts ≡ []

-- What a driver's `devinit` leaves alone, and that the size is not negative if it succeeds.
pub record IsDriver (devinit : Store → Result (Unit {0}) × Store) : Type 0 where
  pub vers_same : (d : Store) → (devinit d).1.vers ≡ d.vers
  pub ready_same : (d : Store) → (devinit d).1.ready ≡ d.ready
  pub parts_same : (d : Store) → (devinit d).1.parts ≡ d.parts
  pub size_nonneg : (d : Store) → (devinit d).0 ≡ ok tt → IsNonneg (devinit d).1.size

-- The outcome with the store that it leaves.
pub record IsOutcome (eve : List ℕ) (found : Store → Result (List Part)) (vers : ℕ)
    (out : Result (Unit {0}) × Store) : Type 0 where
  pub version : out.1.vers ≡ vers
  pub on_success : out.0 ≡ ok tt → IsStarted eve found out.1
  pub on_error : (why : Error) → out.0 ≡ err why → IsIdle out.1

unusable :
    (eve : List ℕ) (found : Store → Result (List Part)) (d : Store) (r : Result (Unit {0}))
    → ((r ≡ ok tt) → ⊥)
    → ((why : Error) → r ≡ err why → IsIdle d)
    → IsOutcome eve found d.vers (r, d)
unusable eve found d r fails idle = record {
  version = refl;
  on_success = λ h. absurd (fails h);
  on_error = idle;
}

module _ (seprint : ℕ → List ℕ → List ℕ × ℕ) (tokenize : List ℕ → List (List ℕ))
    (strtoull : List ℕ → ℕ) (eve : List ℕ) (stale : ℕ) (read : Store → ℕ → ℕ → Result (List ℕ))
    (bytes : (d : Store) (n off : ℕ) (sector : List ℕ)
      → read d n off ≡ ok sector
      → IsBytes sector) where
  -- What `partinit` returns for a store.
  abbrev pub found_in : Store → Result (List Part)
  found_in w = partinit seprint tokenize strtoull eve stale (read w) w.size w.parts

  take_parts-IsOutcome :
      (d : Store) (r : Result (List Part))
      → d.ready ≡ true
      → (bit_and d.size d.alignmask == 0) ≡ true
      → found_in (record d { parts = partdata eve d.size ∷ [] }) ≡ r
      → d.parts ≡ partdata eve d.size ∷ []
      → ((parts : List Part)
          → r ≡ ok parts
          → (mbr : List Part) × IsLaidOut d.size (partdata eve d.size) mbr
            × Extends d.size mbr parts)
      → IsOutcome eve found_in d.vers (take_parts d r)
  unfolding take_parts
  take_parts-IsOutcome d (ok parts) ready aligned result whole laid =
      let (mbr, placed, extends) = laid parts refl in
      record {
        version = refl;
        on_success = λ h. record {
          ready = ready;
          aligned = aligned;
          layout = inl (result, mbr, placed, extends);
        };
        on_error = λ why h. absurd cc;
      }
  take_parts-IsOutcome d (err why) ready aligned result whole laid = record {
    version = refl;
    on_success =
        λ h. record { ready = ready; aligned = aligned; layout = inr (why, result, whole) };
    on_error = λ why h. absurd cc;
  }
  take_parts-IsOutcome d fault ready aligned result whole laid =
      unusable eve found_in d fault (λ h. cc) (λ why h. absurd cc)
  take_parts-IsOutcome d panic ready aligned result whole laid =
      unusable eve found_in d panic (λ h. cc) (λ why h. absurd cc)
  take_parts-IsOutcome d hang ready aligned result whole laid =
      unusable eve found_in d hang (λ h. cc) (λ why h. absurd cc)

  disk_found-IsOutcome :
      (d : Store)
      → IsNonneg d.size
      → IsIdle d
      → IsOutcome eve found_in d.vers (disk_found seprint tokenize strtoull eve stale read d)
  unfolding disk_found find_parts whole_disk
  disk_found-IsOutcome d small idle = elim (Bool-cases (bit_and d.size d.alignmask == 0)) [
    | inr odd ↦
        rw odd (unusable eve found_in d (err Error.misaligned_size) (λ h. cc) (λ why h. idle))
    | inl aligned ↦
        let w = whole_disk eve d in
        rw aligned (
          take_parts-IsOutcome w
            (partinit seprint tokenize strtoull eve stale (read w) w.size w.parts) refl aligned refl
            refl
            (λ parts e.
              partinit-Extends seprint tokenize strtoull eve stale (read w) (bytes w) w.size
                (partdata eve w.size) small e))
  ]

  -- After `diskinit`, where the driver reads bytes and its `devinit` leaves the version, the
  -- partitions and the flag alone and sets a size that is not negative if it succeeds, the version
  -- is one higher. If `diskinit` succeeded the store is ready with an aligned size, and its
  -- partitions are the list that `partinit` returned for the disk, or that for the whole disk alone
  -- if `partinit` raised an error; if `diskinit` raised an error the store is not ready and has no
  -- partitions.
  pub diskinit-IsOutcome :
      (devinit : Store → Result (Unit {0}) × Store)
      → IsDriver devinit
      → (d : Store)
      → IsOutcome eve found_in
          (u32 (d.vers + 1))
          (diskinit seprint tokenize strtoull eve stale read devinit d)
  unfolding diskinit reset_disk and_then
  diskinit-IsOutcome devinit driver d =
      let d0 = reset_disk d in
      subst
        (λ v.
          IsOutcome eve found_in v (diskinit seprint tokenize strtoull eve stale read devinit d))
        (driver.vers_same d0)
        (after (devinit d0) (driver.size_nonneg d0)
          (record { idle = driver.ready_same d0; no_parts = driver.parts_same d0 }))
    where
      after :
          (out : Result (Unit {0}) × Store)
          → (out.0 ≡ ok tt → IsNonneg out.1.size)
          → IsIdle out.1
          → IsOutcome eve found_in out.1.vers
              (and_then out (disk_found seprint tokenize strtoull eve stale read))
      after (ok done, d) small idle = disk_found-IsOutcome d (small refl) idle
      after (err why, d) small idle = unusable eve found_in d (err why) (λ h. cc) (λ why h. idle)
      after (fault, d) small idle = unusable eve found_in d fault (λ h. cc) (λ why h. absurd cc)
      after (panic, d) small idle = unusable eve found_in d panic (λ h. cc) (λ why h. absurd cc)
      after (hang, d) small idle = unusable eve found_in d hang (λ h. cc) (λ why h. absurd cc)
