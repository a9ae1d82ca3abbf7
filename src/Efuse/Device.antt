-- ===== src/Efuse/Device.antt =====
-- devefuse.c: reads and writes of the files of the eFuses.
use inferno_kirkwood.Prelude.{
  ℕ, zero, suc, ◌+◌, Bool, not, List, [], ◌∷◌, ◌++◌, ◌==◌, ◌||◌, bit_and, bit_or, u8, ◌<<<◌, ◌>>>◌,
  if◌then◌else◌, drop, get_or, length,
}
use inferno_kirkwood.Port.{Error, Result, ok, err}

-- The words of `EfuseReg`.
pub record Efuse : Type 0 where
  pub protection : ℕ
  pub ctl : ℕ
  pub lo0 : ℕ
  pub hi0 : ℕ
  pub lo1 : ℕ
  pub hi1 : ℕ

pub data File : Type 0 where
  efuse0 efuse1 : File

-- `Cburn`
abbrev pub c_burn : ℕ
c_burn = 1

-- `Psecurity0` and `Psecurity1`
abbrev pub secbit_of : File → ℕ
secbit_of efuse0 = 1
secbit_of efuse1 = 2

-- `p32` and `g32`
unfoldable pub be32 : ℕ → List ℕ
be32 v = u8 (v >>> 24) ∷ u8 (v >>> 16) ∷ u8 (v >>> 8) ∷ u8 v ∷ []

unfoldable pub of_be32 : List ℕ → ℕ
of_be32 p =
    bit_or (bit_or (bit_or (get_or p 0 0 <<< 24) (get_or p 1 0 <<< 16)) (get_or p 2 0 <<< 8))
      (get_or p 3 0)

abbrev pub words_of : File → Efuse → ℕ × ℕ
words_of efuse0 e = (e.lo0, e.hi0)
words_of efuse1 e = (e.lo1, e.hi1)

-- The bytes that a read copies, however many were asked for.
unfoldable pub efuseread : File → (offset : ℕ) → Efuse → List ℕ
efuseread file offset e = let (lo, hi) = words_of file e in drop offset (be32 hi ++ be32 lo)

abbrev pub store : File → ℕ × ℕ → Efuse → Efuse
store efuse0 (lo, hi) e = record e { lo0 = lo; hi0 = hi }
store efuse1 (lo, hi) e = record e { lo1 = lo; hi1 = hi }

-- The wait for the end of the burning: `done i` says whether the `i`th read has `Cburndone`; `rounds`
-- sleeps at most are to come.
unfoldable pub burn_wait : (done : ℕ → Bool) → (rounds i : ℕ) → Bool
burn_wait done zero i = done i
burn_wait done (suc rounds) i = done i || burn_wait done rounds (i + 1)

-- Once the fuse is free to be burned. What `ctl` has while `done` is asked is left out: it is 0 after.
unfoldable pub burn : (done : ℕ → Bool) → File → List ℕ → Efuse → Result ℕ × Efuse
burn done file p e =
    let e1 = record e { ctl = 0; protection = bit_or e.protection (secbit_of file) } in
    let e2 = store file (of_be32 (drop 4 p), of_be32 p) e1 in
    if burn_wait done 500 0 then (ok 8, e2) else (err Error.burn_timeout, e2)

-- `efusewrite` of the bytes `p` at `offset`, with `efwrite`.
unfoldable pub efusewrite :
    (done : ℕ → Bool) → File → List ℕ → (offset : ℕ) → Efuse → Result ℕ × Efuse
efusewrite done file p offset e =
    let burned = burn done file p e in
    if not (offset == 0) || not (length p == 8)
    then (err Error.bad_arg, e)
    else (if not (bit_and e.ctl c_burn == 0)
        then (err Error.burn_active, e)
        else (if not (bit_and e.protection (secbit_of file) == 0)
            then (err Error.already_burned, e)
            else burned))
