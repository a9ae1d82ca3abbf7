-- ===== src/Bs/Added.antt =====
-- What `blockstoreadd` does to the table of disks.
use inferno_kirkwood.Prelude.{
  ℕ, zero, suc, ◌+◌, ◌-◌, ◌≤◌, ◌<◌, ◌≡◌, refl, ◌∙◌, inl, inr, arith, Option, none, some, List, [],
  ltb, ◌==◌, ◌&&◌, if◌then◌else◌, length, get_elem?, set, replicate, length-append,
  length-replicate, length-set, get_elem?-set_self, get_elem?-set_ne, get_elem?-append_left,
  Bool-cases,
}
use inferno_kirkwood.Port.{Result, ok, fault, panic}
use inferno_kirkwood.Bs.Defs.{Store, Bs}
use inferno_kirkwood.Bs.Table.{
  put_disk, diskget, clear_disks, grow_disks, grow_table, register_disk, store_name, blockstoreadd,
}

-- Some disk was registered: the table has an entry for each number up to the highest.
pub record IsTable (bs : Bs) : Type 0 where
  pub filled : length bs.disks ≡ bs.maxdisk + 1
  pub small : bs.maxdisk < 100

put_disk-ok :
    (disks : List (Option Store)) (i : ℕ) (d : Option Store)
    → i < length disks
    → put_disk disks i d ≡ ok (set disks i d)
unfolding put_disk
put_disk-ok disks i d h = ground arith

-- The entries of `disks'` are those of `disks`, but nil from `i` up to `stop`.
record IsCleared (i stop : ℕ) (disks disks' : List (Option Store)) : Type 0 where
  pub same_length : length disks' ≡ length disks
  pub inside : (j : ℕ) → i ≤ j → j < stop → get_elem? disks' j ≡ some none
  pub below : (j : ℕ) → j < i → get_elem? disks' j ≡ get_elem? disks j

clear_disks-IsCleared :
    (rounds i : ℕ) (disks : List (Option Store))
    → i + rounds ≤ length disks
    → (disks' : List (Option Store)) × (clear_disks rounds i disks ≡ ok disks')
      × IsCleared i (i + rounds) disks disks'
unfolding clear_disks
clear_disks-IsCleared zero i disks h = (
  disks,
  refl,
  record { same_length = refl; inside = λ j p q. absurd (omega arith); below = λ j p. refl },
)
clear_disks-IsCleared (suc rounds) i disks h =
    let (disks', cleared, c) =
      clear_disks-IsCleared rounds (i + 1) (set disks i none)
        (omega (arith, length-set disks i none)) in
    (
      disks',
      rw (put_disk-ok disks i none (omega arith)) cleared,
      record {
        same_length = c.same_length ∙ length-set disks i none;
        inside = λ j p q. ground (arith, c.inside j, c.below j, get_elem?-set_self disks i none);
        below = λ j p. ground (arith, c.below j, get_elem?-set_ne disks i j none);
      },
    )

-- The store as it is registered.
abbrev pub named : Store → Store
named d = record d { name = store_name d.num }

-- What is found at `i` after `d` was registered.
abbrev pub found_after : Bs → Store → ℕ → Result (Option Store)
found_after bs d i =
    if i == d.num
    then ok (some (named d))
    else (if i == bs.maxdisk && ltb bs.maxdisk d.num then ok none else diskget bs i)

module _ (bs : Bs) (d : Store) (t : IsTable bs) (small : d.num < 100) where
  grown : List (Option Store)
  grown = grow_disks bs.disks (d.num + 1)

  length-grown : bs.maxdisk < d.num → length grown ≡ d.num + 1
  unfolding grown grow_disks
  length-grown h = omega (
    arith,
    t.filled,
    length-append bs.disks (replicate (d.num + 1 - length bs.disks) none),
    length-replicate {A = Option Store} (d.num + 1 - length bs.disks) none,
  )

  get_elem?-grown : (i : ℕ) → i < bs.maxdisk → get_elem? grown i ≡ get_elem? bs.disks i
  unfolding grown grow_disks
  get_elem?-grown i h = get_elem?-append_left bs.disks _ i (omega (arith, t.filled))

  register_higher :
      bs.maxdisk < d.num
      → (bs' : Bs) × (register_disk bs d ≡ ok bs')
        × IsTable bs'
        × ((i : ℕ) → diskget bs' i ≡ found_after bs d i)
  unfolding grown
  register_higher h =
      let (disks, cleared, c) =
        clear_disks-IsCleared (d.num - bs.maxdisk) bs.maxdisk grown
          (omega (arith, length-grown h)) in
      let n = length-grown h in
      (
        record { disks = set disks d.num (some (named d)); maxdisk = d.num },
        (unfold register_disk grow_table in
            ground (arith, cleared, put_disk-ok disks d.num (some (named d)), c.same_length, n)),
        record {
          filled = omega (arith, length-set disks d.num (some (named d)), c.same_length, n);
          small = small;
        },
        λ i.
            (unfold diskget in
              ground (
                arith,
                c.inside i,
                c.below i,
                c.same_length,
                n,
                get_elem?-grown i,
                get_elem?-set_self disks d.num (some (named d)),
                get_elem?-set_ne disks d.num i (some (named d)),
              )),
      )

  register_lower :
      d.num ≤ bs.maxdisk
      → (bs' : Bs) × (register_disk bs d ≡ ok bs')
        × IsTable bs'
        × ((i : ℕ) → diskget bs' i ≡ found_after bs d i)
  register_lower h = (
    record bs { disks = set bs.disks d.num (some (named d)) },
    (unfold register_disk grow_table in
        ground (arith, put_disk-ok bs.disks d.num (some (named d)), t.filled)),
    record {
      filled = omega (arith, length-set bs.disks d.num (some (named d)), t.filled);
      small = t.small;
    },
    λ i.
        (unfold diskget in
          ground (
            arith,
            t.filled,
            t.small,
            get_elem?-set_self bs.disks d.num (some (named d)),
            get_elem?-set_ne bs.disks d.num i (some (named d)),
          )),
  )

  -- In a table with at least one disk registered, a store with a free number below 100 is
  -- registered: the table stays whole, the store is found at its number with its name, and every
  -- other number finds what it found before, but the highest one so far, where the new number is
  -- higher: there nothing is found any more.
  pub blockstoreadd_lem :
      diskget bs d.num ≡ ok none
      → (bs' : Bs) × (blockstoreadd bs d ≡ ok bs')
        × IsTable bs'
        × ((i : ℕ) → diskget bs' i ≡ found_after bs d i)
  blockstoreadd_lem free = elim (Bool-cases (ltb bs.maxdisk d.num)) [
    | inl higher ↦
        let (bs', added, table, finds) = register_higher (ground arith) in
        (bs', (unfold blockstoreadd in ground (arith, free, added)), table, finds)
    | inr lower ↦
        let (bs', added, table, finds) = register_lower (ground arith) in
        (bs', (unfold blockstoreadd in ground (arith, free, added)), table, finds)
  ]

  -- A number that is taken stops the kernel.
  pub blockstoreadd_taken :
      {other : Store} → diskget bs d.num ≡ ok (some other) → blockstoreadd bs d ≡ panic
  unfolding blockstoreadd
  blockstoreadd_taken taken = ground (arith, taken)

-- The table before any disk is registered.
abbrev pub no_disks : Bs
no_disks = record { disks = []; maxdisk = 0 }

-- The first disk must not have number 0: the search for one of that number goes through the nil
-- pointer.
pub blockstoreadd_first : (d : Store) → d.num ≡ 0 → blockstoreadd no_disks d ≡ fault
unfolding blockstoreadd diskget
blockstoreadd_first d e = ground (arith, e)
