-- ===== src/Xor/System.antt =====
-- Processes that use the ports: each step of `portget` under the lock, the wait between two looks,
-- a transfer's end by the interrupt, and `portput` with the wakeup that it makes.
use inferno_kirkwood.Prelude.{ℕ, ◌≡◌, ◌≢◌, Bool, true, false, none, some, update}
use inferno_kirkwood.Port.{ok}
use inferno_kirkwood.Xor.Defs.{Use, XorReg, XoreReg, Xor, engine}
use inferno_kirkwood.Xor.Ports.{find_port, take_port, portput, isdone, xorintr}

-- Where a process is. `m` is `ismeminit`: it has asked for a port, it has found none and let go of
-- the lock, it sleeps, or it has port `i`.
pub data Pc : Type 0 where
  idle : Pc
  asking : (m : Bool) → Pc
  missed : (m : Bool) → Pc
  asleep : (m : Bool) → Pc
  holding : (m : Bool) (i : ℕ) → Pc

-- A step of one process.
pub data Move (x : Xor) : Pc → Xor → Pc → Type 0 where
  ask : {m : Bool} → Move x idle x (asking m)
  take :
      {m : Bool} {i : ℕ}
      → find_port m x.ports ≡ some i
      → Move x (asking m) (take_port m i x) (holding m i)
  miss : {m : Bool} → find_port m x.ports ≡ none → Move x (asking m) x (missed m)
  doze : {m : Bool} → Move x (missed m) x (asleep m)
  put : {m : Bool} {i : ℕ} → isdone i x ≡ true → Move x (holding m i) (portput i x) idle

pub record System : Type 0 where
  pub x : Xor
  pub pc : ℕ → Pc

abbrev pub moved : System → ℕ → Xor → Pc → System
moved s k x' p' = record { x = x'; pc = update k p' s.pc }

-- A `portput` wakes nobody only if nobody sleeps.
abbrev pub Quiet : (ℕ → Pc) → {x x' : Xor} {p p' : Pc} → Move x p x' p' → Type 0
Quiet pc (put done) = (j : ℕ) (m : Bool) → pc j ≢ asleep m
Quiet pc _ = Unit

-- A step of the system: of process `k`, with process `j` woken up by a `portput` of `k` if one
-- sleeps, the interrupt of the engine whose first port is `i`, or the engine of port `i` itself,
-- which can set its interrupt register to any value at any time.
pub data Step (s : System) : System → Type 0 where
  act :
      (k : ℕ) {x' : Xor} {p p' : Pc}
      → s.pc k ≡ p
      → (mv : Move s.x p x' p') → Quiet s.pc mv
      → Step s (moved s k x' p')
  wake :
      (k j : ℕ) {m m' : Bool} {i : ℕ}
      → s.pc k ≡ holding m i
      → isdone i s.x ≡ true
      → s.pc j ≡ asleep m'
      → Step s (moved (moved s k (portput i s.x) idle) j (portput i s.x) (asking m'))
  finish : (i : ℕ) {x' : Xor} → xorintr i s.x ≡ ok x' → Step s (record s { x = x' })
  raise :
      (i v : ℕ)
      → Step s (record s {
        x = record s.x { er = update (engine i) (record (s.x.er (engine i)) { irq = v }) s.x.er };
      })

-- All ports are free and no process runs, with any contents of the registers.
abbrev pub start : (ℕ → XorReg) → (ℕ → XoreReg) → System
start pr er = record {
  x = record { ports = λ i. record { done = false; inuse = Use.unused }; pr = pr; er = er };
  pc = λ k. idle;
}

pub data Reach (pr : ℕ → XorReg) (er : ℕ → XoreReg) : System → Type 0 where
  here : Reach pr er (start pr er)
  next : {s t : System} → Reach pr er s → Step s t → Reach pr er t
