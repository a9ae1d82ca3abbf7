-- ===== src/Bs/Defs.antt =====
-- `struct Store` of bs.h and the table of stores of devbs.c. Of `parts` the model has the first
-- `nparts`; the functions of a store are parameters of what calls them.
use inferno_kirkwood.Prelude.{ℕ, Bool, Option, List}
use inferno_kirkwood.Part.{Part}

pub record Store : Type 0 where
  pub vers : ℕ
  pub ready : Bool
  pub num : ℕ
  pub name : List ℕ
  pub alignmask : ℕ
  pub descr : List ℕ
  pub devtype : List ℕ
  pub parts : List Part
  pub size : ℕ

-- `bs`: no disks at all is the nil pointer. An entry is nil or a store.
pub record Bs : Type 0 where
  pub disks : List (Option Store)
  pub maxdisk : ℕ
