-- ===== src/Efuse/Burned.antt =====
-- What is burned is read, and burned once.
use inferno_kirkwood.Prelude.{
  ℕ, ◌≡◌, Bool, true, false, List, [], ◌∷◌, ◌==◌, bit_and, length, if◌then◌else◌, ◌&&◌,
}
use inferno_kirkwood.Port.{Error, Result, ok, err}
use inferno_kirkwood.Efuse.Device.{Efuse, File, efuseread, efusewrite, secbit_of}

-- A write to one of the two files.
pub record Write : Type 0 where
  pub done : ℕ → Bool
  pub file : File
  pub bytes : List ℕ
  pub offset : ℕ

-- The state after writes, one after the other, whatever their results are.
unfoldable pub writes : List Write → Efuse → Efuse
writes [] e = e
writes (w ∷ ws) e = writes ws (efusewrite w.done w.file w.bytes w.offset e).1

-- A write has burned the bytes: it returns their number and a read gives them; and whatever is
-- written to the two fuses later, a read still gives them, and any write to the fuse fails
-- and changes nothing, a write of eight bytes at 0 because the fuse has been burned.
pub record IsBurned (file : File) (p : List ℕ) (t : Result ℕ × Efuse) : Type 0 where
  pub result : t.0 ≡ ok 8
  pub reads : efuseread file 0 t.1 ≡ p
  pub still_reads : (ws : List Write) → efuseread file 0 (writes ws t.1) ≡ p
  pub once :
      (ws : List Write) (done : ℕ → Bool) (q : List ℕ) (offset : ℕ)
      → efusewrite done file q offset (writes ws t.1) ≡ (
        err (if offset == 0 && length q == 8 then Error.already_burned else Error.bad_arg),
        writes ws t.1,
      )

-- The fuse is protected and none is being burned.
record IsLocked (file : File) (e : Efuse) : Type 0 where
  idle : (bit_and e.ctl 1 == 0) ≡ true
  set : (bit_and e.protection (secbit_of file) == 0) ≡ false

-- What burning `other` leaves of `file`.
record IsKept (file : File) (e e' : Efuse) : Type 0 where
  locked : IsLocked file e'
  bytes : efuseread file 0 e' ≡ efuseread file 0 e
