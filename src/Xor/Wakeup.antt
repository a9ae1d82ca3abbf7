-- ===== src/Xor/Wakeup.antt =====
-- A port that becomes free between a process's look for one and its sleep.
use inferno_kirkwood.Prelude.{ℕ, ◌≡◌, ◌≢◌, refl, arith, Bool, true}
use inferno_kirkwood.Xor.Defs.{Use, Port, XorReg, XoreReg}
use inferno_kirkwood.Xor.Ports.{portput, isdone}
use inferno_kirkwood.Xor.System.{
  Pc, idle, missed, asleep, holding, doze, put, System, moved, act, Reach, next,
}
use inferno_kirkwood.Xor.Exclusion.{Inv, Reach-Inv}

-- Nobody has a port.
abbrev pub NoHolder : (ℕ → Pc) → Type 0
NoHolder pc = (j i : ℕ) (m : Bool) → pc j ≢ holding m i

unused_of : (u : Use) → (u ≢ Use.unused → ⊥) → u ≡ Use.unused
unused_of Use.unused h = refl
unused_of Use.other h = absurd (h (λ e. cc))
unused_of Use.meminit h = absurd (h (λ e. cc))

-- A look that finds no port and the sleep after it are not one step. If, between the two, the only
-- process that has a port puts it back, whose transfer is done, and nobody sleeps yet, then a
-- state can be reached in which every port is free and the process sleeps all the same.
pub lost_wakeup :
    {pr : ℕ → XorReg} {er : ℕ → XoreReg} {s : System}
    → Reach pr er s
    → (k h i : ℕ) (m m' : Bool) → s.pc k ≡ missed m
    → s.pc h ≡ holding m' i
    → isdone i s.x ≡ true
    → ((j a : ℕ) (b : Bool) → s.pc j ≡ holding b a → j ≡ h)
    → ((j : ℕ) (b : Bool) → s.pc j ≢ asleep b)
    → (t : System) × Reach pr er t
      × (t.pc k ≡ asleep m)
      × ((a : ℕ) → (t.x.ports a).inuse ≡ Use.unused)
lost_wakeup {pr} {er} {s} r k h i m m' at has ended only quiet =
    let s1 = moved s h (portput i s.x) idle in
    let r1 : Reach pr er s1 = next r (act h has (put ended) quiet) in
    let at1 : s1.pc k ≡ missed m = ground (arith, at, has) in
    let t = moved s1 k s1.x (asleep m) in
    let r2 : Reach pr er t = next r1 (act k at1 doze tt) in
    let here_asleep : t.pc k ≡ asleep m = ground arith in
    let nobody : NoHolder t.pc = λ j a b e. ground (arith, only j a b, e) in
    (t, r2, here_asleep, all_free (Reach-Inv r2) nobody)
  where
    all_free :
        {ports : ℕ → Port} {pc : ℕ → Pc}
        → Inv ports pc
        → NoHolder pc
        → (a : ℕ) → (ports a).inuse ≡ Use.unused
    all_free {ports} inv nobody a =
        unused_of (ports a).inuse (λ used. let (j, b, o) = inv.owned a used in nobody j a b o)
