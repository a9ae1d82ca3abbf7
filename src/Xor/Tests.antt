-- ===== src/Xor/Tests.antt =====
-- Runs of the ports, and the theorems at inputs that meet their hypotheses.
use inferno_kirkwood.Prelude.{ℕ, ◌≡◌, ◌≢◌, refl, arith, Bool, true, none, replicate}
use inferno_kirkwood.Port.{fault}
use inferno_kirkwood.Xor.Defs.{Use, XorReg, XoreReg, Xor}
use inferno_kirkwood.Xor.Ports.{
  find_port, meminitport, take_port, portput, isdone, set_done, clear_irq, xorintr, xorintrerror,
}
use inferno_kirkwood.Xor.Setup.{initengine}
use inferno_kirkwood.Xor.Transfer.{XDescr}
use inferno_kirkwood.Xor.System.{
  missed, asleep, holding, ask, take, miss, put, System, act, finish, start, Reach, here, next,
}
use inferno_kirkwood.Xor.Exclusion.{port_exclusive, meminit_exclusive}
use inferno_kirkwood.Xor.Wakeup.{lost_wakeup}

abbrev reg : XorReg
reg = record { cfg = 0; act = 0; nextdescr = 0; winctl = 0; aoctl = 0; dest = 0; blocksize = 0 }

-- Both ports of each engine will report an end of chain.
abbrev engine_reg : XoreReg
engine_reg = record {
  irq = 2;
  irqmask = 0;
  bar0 = 0;
  bar1 = 0;
  sizemask0 = 0;
  sizemask1 = 7;
  harr0 = 0;
  harr1 = 0;
  initvallo = 0;
  initvalhi = 0;
}

abbrev regs : ℕ → XorReg
regs i = reg

abbrev engine_regs : ℕ → XoreReg
engine_regs i = engine_reg

-- The register of the second window's size keeps what it holds.
second_size : (initengine engine_reg).sizemask1 ≡ 7
unfolding initengine
second_size = refl

no_argument : xorintrerror none ≡ fault
unfolding xorintrerror
no_argument = refl

-- Process 0 has port 0 for an initialisation, and process 1 port 2.
two_holders :
    (s : System) × Reach regs engine_regs s × (s.pc 0 ≡ holding true 0) × (s.pc 1 ≡ holding true 2)
unfolding find_port meminitport take_port
two_holders =
    let r1 = next here (act 0 refl (ask {m = true}) tt) in
    let r2 = next r1 (act 0 refl (take {m = true} {i = 0} refl) tt) in
    let r3 = next r2 (act 1 refl (ask {m = true}) tt) in
    let r4 = next r3 (act 1 refl (take {m = true} {i = 2} refl) tt) in (_, r4, refl, refl)

port_exclusive_example : ◌≡◌ {A = ℕ} 1 1
port_exclusive_example =
    let (s, r, first, second) = two_holders in port_exclusive r 1 1 2 true true second second

meminit_exclusive_example : ◌≡◌ {A = ℕ} 0 0
meminit_exclusive_example =
    let (s, r, first, second) = two_holders in meminit_exclusive r 0 0 0 0 first first refl

-- Process 2 has found no port, process 1 has put its port back, and the transfer of process 0 is
-- done.
record IsMissed (s : System) : Type 0 where
  reached : Reach regs engine_regs s
  missing : s.pc 2 ≡ missed true
  holder : s.pc 0 ≡ holding true 0
  ended : isdone 0 s.x ≡ true
  only : (j a : ℕ) (b : Bool) → s.pc j ≡ holding b a → j ≡ 0
  quiet : (j : ℕ) (b : Bool) → s.pc j ≢ asleep b

one-IsMissed : (s : System) × IsMissed s
unfolding find_port meminitport take_port portput isdone xorintr set_done clear_irq
one-IsMissed =
    let r1 = next here (act 0 refl (ask {m = true}) tt) in
    let r2 = next r1 (act 0 refl (take {m = true} {i = 0} refl) tt) in
    let r3 = next r2 (act 1 refl (ask {m = true}) tt) in
    let r4 = next r3 (act 1 refl (take {m = true} {i = 2} refl) tt) in
    let r5 = next r4 (act 2 refl (ask {m = true}) tt) in
    let r6 = next r5 (act 2 refl (miss {m = true} refl) tt) in
    let r7 = next r6 (finish 2 refl) in
    let r8 = next r7 (act 1 refl (put {m = true} {i = 2} refl) (λ j b. ground arith)) in
    let r9 = next r8 (finish 0 refl) in
    (
      _,
      record {
        reached = r9;
        missing = refl;
        holder = refl;
        ended = refl;
        only = λ j a b h. ground (arith, h);
        quiet = λ j b. ground arith;
      },
    )

lost_wakeup_example :
    (t : System) × Reach regs engine_regs t
    × (t.pc 2 ≡ asleep true)
    × ((a : ℕ) → (t.x.ports a).inuse ≡ Use.unused)
lost_wakeup_example =
    let (s, m) = one-IsMissed in
    lost_wakeup m.reached 2 0 0 true true m.missing m.holder m.ended m.only m.quiet

abbrev old_descr : XDescr
old_descr = record {
  status = 0;
  crc32 = 0;
  cmd = 0;
  nextdescr = 0;
  bytecount = 0;
  dest = 0;
  src = replicate 8 0;
}

abbrev all_free : Xor
all_free = (start regs engine_regs).x
