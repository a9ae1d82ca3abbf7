-- ===== src/Bs/Command.antt =====
-- devbs.c: writes to the control files, which initialise a disk or look for its partitions again.
use inferno_kirkwood.Prelude.{
  ℕ, ◌+◌, Bool, not, List, [], ◌∷◌, ◌==◌, if◌then◌else◌, get_or, take, u32,
}
use inferno_kirkwood.Port.{Error, Result, ok, err, ◌>>=◌, ◌>>◌, raise_if, on_ok}
use inferno_kirkwood.Part.{Part}
use inferno_kirkwood.Part.Init.{partinit}
use inferno_kirkwood.Bs.Defs.{Store, Bs}
use inferno_kirkwood.Bs.Disk.{disk_of, put_store, xpartget, diskinit}
use inferno_kirkwood.Bs.Open.{qdisk, Chan}

-- An entry of a `Cmdtab`: the index, the name and the number of fields.
pub record Cmdtab : Type 0 where
  pub index : ℕ
  pub cmd : List ℕ
  pub narg : ℕ

abbrev pub init_word : List ℕ
init_word = b'i' ∷ b'n' ∷ b'i' ∷ b't' ∷ []

abbrev partinit_word : List ℕ
partinit_word = b'p' ∷ b'a' ∷ b'r' ∷ b't' ∷ init_word

abbrev pub bsctl : List Cmdtab
bsctl = record { index = 0; cmd = init_word; narg = 2 } ∷ []

abbrev pub bsdiskctl : List Cmdtab
bsdiskctl =
    record { index = 0; cmd = init_word; narg = 1 }
    ∷ record { index = 1; cmd = partinit_word; narg = 1 }
    ∷ []

-- `if(!iseve()) devpermcheck(...)` on the first partition
unfoldable pub owner_check :
    (iseve : Bool) (devpermcheck : List ℕ → ℕ → ℕ → Result (Unit {0}))
    → Store
    → ℕ
    → Result (Unit {0})
owner_check iseve devpermcheck d mode =
    if iseve then ok tt else (do p ← xpartget d 0; devpermcheck p.uid p.perm mode)

-- What is done with the result of `partinit` for a command: its error is raised.
unfoldable pub replace_parts : Store → Result (List Part) → Result (Unit {0}) × Store
replace_parts d found = on_ok found d (λ parts. (ok tt, record d { parts = parts }))

module _ (seprint : ℕ → List ℕ → List ℕ × ℕ) (tokenize : List ℕ → List (List ℕ))
    (strtoull : List ℕ → ℕ) (eve : List ℕ) (stale : ℕ) (read : Store → ℕ → ℕ → Result (List ℕ))
    (devinit : Store → Result (Unit {0}) × Store) where
  -- CMpartinit
  unfoldable pub partinit_command : Store → Result (Unit {0}) × Store
  partinit_command d =
      if not d.ready
      then (err Error.no_disk, d)
      else (let d = record d { parts = take 1 d.parts; vers = u32 (d.vers + 1) } in
          replace_parts d (partinit seprint tokenize strtoull eve stale (read d) d.size d.parts))

  unfoldable pub disk_command : ℕ → Store → Result (Unit {0}) × Store
  disk_command ct d =
      if ct == 0
      then diskinit seprint tokenize strtoull eve stale read devinit d
      else (if ct == 1 then partinit_command d else (ok tt, d))

  module _ (parsecmd : List ℕ → List (List ℕ)) (lookupcmd : List (List ℕ) → List Cmdtab → Result ℕ)
      (atoi : List ℕ → ℕ) (iseve : Bool) (devpermcheck : List ℕ → ℕ → ℕ → Result (Unit {0})) where
    -- CMinit
    unfoldable pub init_numbered : Bs → ℕ → Result (Unit {0}) × Bs
    init_numbered bs num = on_ok (disk_of bs num) bs (λ d.
        let (r, d) = diskinit seprint tokenize strtoull eve stale read devinit d in
        (r, put_store bs num d))

    -- A write of `a` to `bsctl`, with the table that it leaves.
    unfoldable pub bsctl_write : Bs → List ℕ → Result (Unit {0}) × Bs
    bsctl_write bs a =
        let cb = parsecmd a in
        on_ok (raise_if (not iseve) Error.perm) bs (λ eve_only.
          on_ok (lookupcmd cb bsctl) bs
            (λ ct. if ct == 0 then init_numbered bs (atoi (get_or cb 1 [])) else (ok tt, bs)))

    -- What comes before the command: a channel from before the last initialisation is refused.
    unfoldable pub command_check : Store → Chan → Result (Unit {0})
    command_check d c = do
      raise_if (not (c.vers == d.vers)) Error.stale
      owner_check iseve devpermcheck d 1

    -- The command on the store that the channel is for, which the table has at `num`.
    unfoldable pub run_command : Bs → ℕ → Chan → List ℕ → Store → Result (Unit {0}) × Bs
    run_command bs num c a d = on_ok (command_check d c) bs (λ allowed.
        on_ok (lookupcmd (parsecmd a) bsdiskctl) bs
          (λ ct. let (r, d) = disk_command ct d in (r, put_store bs num d)))

    -- A write of `a` to a disk's `ctl`.
    unfoldable pub diskctl_write : Bs → Chan → List ℕ → Result (Unit {0}) × Bs
    diskctl_write bs c a = on_ok (disk_of bs (qdisk c.path)) bs (run_command bs (qdisk c.path) c a)
