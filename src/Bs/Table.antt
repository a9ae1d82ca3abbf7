-- ===== src/Bs/Table.antt =====
-- `diskget` and `blockstoreadd` of devbs.c. An int is its 32-bit pattern. `fault` is an access
-- outside the table, as to that of the nil pointer.
use inferno_kirkwood.Prelude.{
  ℕ, zero, suc, ◌+◌, ◌-◌, ◌/◌, ◌%◌, ◌^◌, Option, none, some, List, [], ◌∷◌, ◌++◌, ltb, leb, ◌&&◌,
  if◌then◌else◌, length, get_elem?, set, replicate,
}
use inferno_kirkwood.Port.{Result, ok, fault, panic, ◌>>=◌}
use inferno_kirkwood.Bs.Defs.{Store, Bs}

-- `bs.disks[i] = d`
unfoldable pub put_disk : List (Option Store) → ℕ → Option Store → Result (List (Option Store))
put_disk disks i d = if ltb i (length disks) then ok (set disks i d) else fault

unfoldable pub diskget : Bs → ℕ → Result (Option Store)
diskget bs num =
    if ltb num (2 ^ 31) && leb num bs.maxdisk
    then (elim (get_elem? bs.disks num) [ none ↦ fault | some d ↦ ok d ])
    else ok none

-- `while(bs.maxdisk < d->num) bs.disks[bs.maxdisk++] = nil`, by the rounds left
unfoldable pub clear_disks : ℕ → ℕ → List (Option Store) → Result (List (Option Store))
unfolding put_disk
clear_disks zero i disks = ok disks
clear_disks (suc rounds) i disks = do
  disks ← put_disk disks i none
  clear_disks rounds (i + 1) disks

-- `realloc(bs.disks, sizeof bs.disks[0]*(d->num+1))`, with nil for what the new memory holds.
unfoldable pub grow_disks : List (Option Store) → ℕ → List (Option Store)
grow_disks disks n = disks ++ replicate (n - length disks) none

-- `bs%02d`
unfoldable pub store_name : ℕ → List ℕ
store_name num = b'b' ∷ b's' ∷ (num / 10 + b'0') ∷ (num % 10 + b'0') ∷ []

unfoldable pub grow_table : Bs → ℕ → Result Bs
grow_table bs num =
    if ltb bs.maxdisk num && ltb num (2 ^ 31)
    then (do
      disks ← clear_disks (num - bs.maxdisk) bs.maxdisk (grow_disks bs.disks (num + 1))
      ok (record { disks = disks; maxdisk = num }))
    else ok bs

-- The last three statements.
unfoldable pub register_disk : Bs → Store → Result Bs
register_disk bs d = do
  bs ← grow_table bs d.num
  disks ← put_disk bs.disks d.num (some (record d { name = store_name d.num }))
  ok (record bs { disks = disks })

-- A negative number passes both tests and reaches the table.
unfoldable pub blockstoreadd : Bs → Store → Result Bs
blockstoreadd bs d =
    if ltb 99 d.num && ltb d.num (2 ^ 31)
    then panic
    else (do old ← diskget bs d.num; elim old [ none ↦ register_disk bs d | some other ↦ panic ])
