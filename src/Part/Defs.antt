-- ===== src/Part/Defs.antt =====
-- `struct Part` of part.h. `s`, `e` and `size` are `vlong`s, kept as 64-bit patterns; the texts
-- are lists of bytes without the NUL at the end.
use inferno_kirkwood.Prelude.{ℕ, ◌<◌, ◌^◌, List}

pub record Part : Type 0 where
  pub index : ℕ
  pub typ : ℕ
  pub name : List ℕ
  pub s : ℕ
  pub e : ℕ
  pub size : ℕ
  pub uid : List ℕ
  pub perm : ℕ
  pub isopen : ℕ

-- A `vlong` that is not negative.
abbrev pub IsNonneg : ℕ → Type 0
IsNonneg x = x < 2 ^ 63
