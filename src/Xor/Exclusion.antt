-- ===== src/Xor/Exclusion.antt =====
-- Who holds which port, in every state that can be reached.
use inferno_kirkwood.Prelude.{
  ℕ, ◌+◌, ◌-◌, ◌%◌, ◌<◌, ◌≡◌, ◌≢◌, inl, inr, refl, arith, Bool, true, some, ◌==◌, if◌then◌else◌,
  update, Bool-cases,
}
use inferno_kirkwood.Port.{ok}
use inferno_kirkwood.Xor.Defs.{Use, Port, XorReg, XoreReg, Xor, engine}
use inferno_kirkwood.Xor.Ports.{
  use_of, meminitport, free_port, find_port, take_port, portput, set_done, clear_irq, xorintr,
}
use inferno_kirkwood.Xor.System.{
  Pc, asking, asleep, holding, Move, ask, take, miss, doze, put, System, Step, act, wake, finish,
  raise, start, Reach, here, next,
}

-- The other port of a port's engine.
abbrev pub partner : ℕ → ℕ
partner i = if i % 2 == 0 then i + 1 else i - 1

-- A port that `portget` finds is free, and the engine of one for a memory initialisation has no
-- other initialisation.
pub find_port-some :
    (m : Bool) (ports : ℕ → Port) {i : ℕ}
    → find_port m ports ≡ some i
    → (i < 4)
      × ((ports i).inuse ≡ Use.unused)
      × (m ≡ true → (ports (partner i)).inuse ≢ Use.meminit)
unfolding find_port meminitport free_port
find_port-some m ports e = ground arith

-- A process that has a port has marked it for its use, no other process has it, every marked port
-- is some process's, and no engine has two initialisations.
pub record Inv (ports : ℕ → Port) (pc : ℕ → Pc) : Type 0 where
  pub held : (k i : ℕ) (m : Bool) → pc k ≡ holding m i → (i < 4) × ((ports i).inuse ≡ use_of m)
  pub unique : (j k i : ℕ) (m m' : Bool) → pc j ≡ holding m i → pc k ≡ holding m' i → j ≡ k
  pub owned : (i : ℕ) → (ports i).inuse ≢ Use.unused → (k : ℕ) × (m : Bool) × (pc k ≡ holding m i)
  pub apart : (i : ℕ) → (ports i).inuse ≡ Use.meminit → (ports (partner i)).inuse ≢ Use.meminit

module _ {x : Xor} {pc : ℕ → Pc} (inv : Inv x.ports pc) (k : ℕ) where
  open inv use {held, unique, owned, apart}

  Move-held :
      {p p' : Pc} {x' : Xor}
      → Move x p x' p'
      → pc k ≡ p
      → (j i : ℕ) (m : Bool) → update k p' pc j ≡ holding m i
      → (i < 4) × ((x'.ports i).inuse ≡ use_of m)
  unfolding take_port portput
  Move-held ask e j i m h = ground (arith, held j i m)
  Move-held (take {m = a} {i = b} f) e j i m h =
      ground (arith, held j i m, find_port-some a x.ports f)
  Move-held (miss f) e j i m h = ground (arith, held j i m)
  Move-held doze e j i m h = ground (arith, held j i m)
  Move-held (put {m = a} {i = b} f) e j i m h = ground (arith, held j i m, unique j k i m a)

  Move-unique :
      {p p' : Pc} {x' : Xor}
      → Move x p x' p'
      → pc k ≡ p
      → (j l i : ℕ) (m m' : Bool) → update k p' pc j ≡ holding m i
      → update k p' pc l ≡ holding m' i
      → j ≡ l
  Move-unique ask e j l i m m' h h' = ground (arith, unique j l i m m')
  Move-unique (take {m = a} {i = b} f) e j l i m m' h h' =
      ground (arith, unique j l i m m', find_port-some a x.ports f, held j i m, held l i m')
  Move-unique (miss f) e j l i m m' h h' = ground (arith, unique j l i m m')
  Move-unique doze e j l i m m' h h' = ground (arith, unique j l i m m')
  Move-unique (put f) e j l i m m' h h' = ground (arith, unique j l i m m')

  Move-apart :
      {p p' : Pc} {x' : Xor}
      → Move x p x' p'
      → pc k ≡ p
      → (i : ℕ) → (x'.ports i).inuse ≡ Use.meminit
      → (x'.ports (partner i)).inuse ≢ Use.meminit
  unfolding take_port portput
  Move-apart ask e i h = apart i h
  Move-apart (take {m = a} {i = b} f) e i h =
      λ h'. ground (arith, apart i, find_port-some a x.ports f)
  Move-apart (miss f) e i h = apart i h
  Move-apart doze e i h = apart i h
  Move-apart (put {i = b} f) e i h = ground (arith, apart i)

  Move-owned :
      {p p' : Pc} {x' : Xor}
      → Move x p x' p'
      → pc k ≡ p
      → (i : ℕ) → (x'.ports i).inuse ≢ Use.unused
      → (j : ℕ) × (m : Bool) × (update k p' pc j ≡ holding m i)
  unfolding take_port portput
  Move-owned ask e i h = let (j, m, o) = owned i h in (j, m, ground arith)
  Move-owned (take {m = a} {i = b} f) e i h = elim (Bool-cases (i == b)) [
    | inl at ↦ (k, a, ground arith)
    | inr off ↦ let (j, m, o) = owned i (ground (arith, h)) in (j, m, ground arith)
  ]
  Move-owned (miss f) e i h = let (j, m, o) = owned i h in (j, m, ground arith)
  Move-owned doze e i h = let (j, m, o) = owned i h in (j, m, ground arith)
  Move-owned (put {m = a} {i = b} f) e i h = elim (Bool-cases (i == b)) [
    | inl at ↦ absurd (ground (arith, h))
    | inr off ↦ let (j, m, o) = owned i (ground (arith, h)) in (j, m, ground arith)
  ]

  Move-Inv : {p p' : Pc} {x' : Xor} → Move x p x' p' → pc k ≡ p → Inv x'.ports (update k p' pc)
  Move-Inv mv e = record {
    held = Move-held mv e;
    unique = Move-unique mv e;
    owned = Move-owned mv e;
    apart = Move-apart mv e;
  }

-- Process `j`, which slept, asks again.
Inv-wake :
    {ports : ℕ → Port} {pc : ℕ → Pc} (j : ℕ) {m : Bool}
    → Inv ports pc
    → pc j ≡ asleep m
    → Inv ports (update j (asking m) pc)
Inv-wake {pc} j inv e = record {
  held = λ k i a h. ground (arith, inv.held k i a);
  unique = λ k l i a b h h'. ground (arith, inv.unique k l i a b);
  owned = λ i h. let (k, a, o) = inv.owned i h in (k, a, ground arith);
  apart = inv.apart;
}

-- The interrupt leaves what the ports are used for.
xorintr-inuse :
    (i : ℕ) (x : Xor) {x' : Xor}
    → xorintr i x ≡ ok x'
    → (j : ℕ) → (x'.ports j).inuse ≡ (x.ports j).inuse
unfolding xorintr set_done clear_irq
xorintr-inuse i x e j = ground arith

Step-Inv : {s t : System} → Step s t → Inv s.x.ports s.pc → Inv t.x.ports t.pc
Step-Inv (act k at mv quiet) inv = Move-Inv inv k mv at
Step-Inv {s} (wake k j {m = m} {m' = m'} {i = i} has ended sleeps) inv =
    Inv-wake j (Move-Inv inv k (put ended) has) (ground (arith, has, sleeps))
Step-Inv {s} (finish i {x' = x'} e) inv =
    let same = xorintr-inuse i s.x e in
    record {
      held = λ k j m h. ground (arith, inv.held k j m, same j);
      unique = inv.unique;
      owned = λ j h. inv.owned j (ground (arith, same j, h));
      apart = λ j h. ground (arith, inv.apart j, same j, same (partner j));
    }
Step-Inv (raise i v) inv = inv

Inv-start : (pr : ℕ → XorReg) (er : ℕ → XoreReg) → Inv (start pr er).x.ports (start pr er).pc
Inv-start pr er = record {
  held = λ k i m h. cc;
  unique = λ j k i m m' h h'. cc;
  owned = λ i h. absurd (h refl);
  apart = λ i h. cc;
}

pub Reach-Inv :
    {pr : ℕ → XorReg} {er : ℕ → XoreReg} {s : System} → Reach pr er s → Inv s.x.ports s.pc
Reach-Inv {pr} {er} here = Inv-start pr er
Reach-Inv (next r st) = Step-Inv st (Reach-Inv r)

-- In every state that can be reached, however the processes and the interrupts take turns, a port
-- is held by one process at most.
pub port_exclusive :
    {pr : ℕ → XorReg} {er : ℕ → XoreReg} {s : System}
    → Reach pr er s
    → (j k i : ℕ) (m m' : Bool) → s.pc j ≡ holding m i
    → s.pc k ≡ holding m' i
    → j ≡ k
port_exclusive r j k i m m' h h' = (Reach-Inv r).unique j k i m m' h h'

-- An engine, whose registers hold the value of an initialisation, has one process at most that
-- initialises memory, in every state that can be reached.
pub meminit_exclusive :
    {pr : ℕ → XorReg} {er : ℕ → XoreReg} {s : System}
    → Reach pr er s
    → (j k a b : ℕ) → s.pc j ≡ holding true a
    → s.pc k ≡ holding true b
    → engine a ≡ engine b
    → j ≡ k
meminit_exclusive {s} r j k a b h h' same =
    let inv = Reach-Inv r in
    elim (Bool-cases (a == b)) [
      | inl at ↦ inv.unique j k a true true h (ground (arith, at, h'))
      | inr off ↦
          absurd (inv.apart a (inv.held j a true h).1 (ground (arith, inv.held k b true h')))
    ]
