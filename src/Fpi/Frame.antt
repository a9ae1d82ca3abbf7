-- ===== src/Fpi/Frame.antt =====
-- A run of arithmetic instructions, and where it ends.
use inferno_kirkwood.Prelude.{
  ℕ, zero, suc, ap, ◌+◌, ◌*◌, ◌/◌, ◌%◌, ◌^◌, ◌<◌, ◌≡◌, refl, ◌∙◌, ◌⊎◌, inl, inr, arith, true, false,
  Bool-cases, subst, sym, ◌>>>◌, u32, if◌then◌else◌,
}
use inferno_kirkwood.Port.{Error, Result, ok, err}
use inferno_kirkwood.Fpi.Defs.{Library, Process, Ureg, getulong}
use inferno_kirkwood.Fpi.Condition.{condok}
use inferno_kirkwood.Fpi.Emulator.{set_fr, step, is_fp, set_reg, advance, fp_loop, activate, fpiarm}
use inferno_kirkwood.Fpi.Table.{
  IsArithmetic, outcome, is_implemented, value-some, value-none, fpemu_arithmetic,
}

-- The registers and the memory of `p'` are those of `p`.
record IsSameOutside (p p' : Process) : Type 0 where
  ur_same : p'.ur ≡ p.ur
  mem_same : p'.mem ≡ p.mem

-- An instruction that the loop gets past: an arithmetic one that is in the table, or whose
-- condition the status register does not meet.
pub record IsPassed (psr op : ℕ) : Type 0 where
  pub fp : is_fp op ≡ true
  pub arithmetic : IsArithmetic op
  pub passed : (is_implemented op ≡ true) ⊎ (condok psr (op >>> 28) ≡ false)

-- An instruction at which the loop ends: one that is no floating point instruction, or an
-- arithmetic one that is not in the table and whose condition is met.
pub record IsLast (psr op : ℕ) : Type 0 where
  pub last :
      (is_fp op ≡ false)
      ⊎ (IsArithmetic op × (is_implemented op ≡ false) × (condok psr (op >>> 28) ≡ true))

step_passed :
    (lib : Library) (op : ℕ) (p : Process)
    → IsPassed p.ur.psr op
    → (p' : Process) × (step lib op p ≡ ok p') × IsSameOutside p p'
unfolding step set_fr outcome
step_passed lib op p a = elim (Bool-cases (condok p.ur.psr (op >>> 28))) [
  | inl runs ↦ elim a.passed [
    | inl known ↦
        let (v, has) = value-some lib op p known in
        (
          set_fr (op / 2 ^ 12 % 8) v p,
          rw (runs, fpemu_arithmetic lib op p a.arithmetic, has) refl,
          record { ur_same = refl; mem_same = refl },
        )
    | inr not_met ↦ absurd (not_both (sym runs ∙ not_met))
  ]
  | inr skipped ↦ (p, rw skipped refl, record { ur_same = refl; mem_same = refl })
]
  where
    not_both : true ≡ false → ⊥
    not_both h = cc

step_last :
    (lib : Library) (op : ℕ) (p : Process)
    → IsArithmetic op
    → is_implemented op ≡ false
    → condok p.ur.psr (op >>> 28) ≡ true
    → step lib op p ≡ err Error.unimp_fp
unfolding step outcome
step_last lib op p a unknown runs =
    rw (runs, fpemu_arithmetic lib op p a, value-none lib op p unknown) refl

-- The code at `pc`: `n` instructions that the loop gets past, and one at which it ends.
pub record IsStraight (mem : ℕ → ℕ) (psr pc n : ℕ) : Type 0 where
  pub body : (i : ℕ) → i < n → IsPassed psr (getulong mem (u32 (pc + 4 * i)))
  pub end : IsLast psr (getulong mem (u32 (pc + 4 * n)))

IsStraight-tail :
    (mem : ℕ → ℕ) (psr pc n : ℕ)
    → IsStraight mem psr pc (suc n)
    → IsStraight mem psr (u32 (pc + 4)) n
IsStraight-tail mem psr pc n s = record {
  body = λ i h.
      let e : u32 (pc + 4 * suc i) ≡ u32 (u32 (pc + 4) + 4 * i) = omega arith in
      subst (λ a. IsPassed psr (getulong mem a)) e (s.body (suc i) (omega (arith, h)));
  end =
      let e : u32 (pc + 4 * suc n) ≡ u32 (u32 (pc + 4) + 4 * n) = omega arith in
      subst (λ a. IsLast psr (getulong mem a)) e s.end;
}

advance_pc : (p p' : Process) → IsSameOutside p p' → (advance p').ur.reg 15 ≡ u32 (p.ur.reg 15 + 4)
unfolding advance set_reg
advance_pc p p' same = ap (λ (ur : Ureg). u32 (ur.reg 15 + 4)) same.ur_same

advance_outside :
    (p p' : Process)
    → IsSameOutside p p'
    → ((advance p').mem ≡ p.mem) × ((advance p').ur.psr ≡ p.ur.psr)
unfolding advance set_reg
advance_outside p p' same = (same.mem_same, ap (λ (ur : Ureg). ur.psr) same.ur_same)

module _ (lib : Library) (fuel count : ℕ) (p : Process) where
  fp_loop_stop :
      is_fp (getulong p.mem (p.ur.reg 15)) ≡ false → fp_loop lib (suc fuel) count p ≡ (ok count, p)
  unfolding fp_loop
  fp_loop_stop stops = rw (fp_loop, stops) refl

  fp_loop_next :
      (p' : Process)
      → is_fp (getulong p.mem (p.ur.reg 15)) ≡ true
      → step lib (getulong p.mem (p.ur.reg 15)) p ≡ ok p'
      → fp_loop lib (suc fuel) count p ≡ fp_loop lib fuel (count + 1) (advance p')
  unfolding fp_loop
  fp_loop_next p' goes done = rw (fp_loop, goes, done) refl

  fp_loop_fail :
      (why : Error)
      → is_fp (getulong p.mem (p.ur.reg 15)) ≡ true
      → step lib (getulong p.mem (p.ur.reg 15)) p ≡ err why
      → fp_loop lib (suc fuel) count p ≡ (err why, p)
  unfolding fp_loop
  fp_loop_fail why goes fails = rw (fp_loop, goes, fails) refl

-- What the loop leaves behind `n` instructions from `pc` on, of which it counts from `count`: the
-- program counter is at the last instruction, and if that is a floating point instruction the
-- error is that of one that is not implemented, else the result is the count.
pub record IsRun (mem : ℕ → ℕ) (psr pc n count : ℕ) (left : Result ℕ × Process) : Type 0 where
  pub mem_same : left.1.mem ≡ mem
  pub psr_same : left.1.ur.psr ≡ psr
  pub at : left.1.ur.reg 15 ≡ u32 (pc + 4 * n)
  pub result :
      left.0
      ≡ (if is_fp (getulong mem (u32 (pc + 4 * n))) then err Error.unimp_fp else ok (count + n))

IsRun-after :
    (p q : Process) (n count : ℕ) {left : Result ℕ × Process}
    → q.ur.reg 15 ≡ u32 (p.ur.reg 15 + 4)
    → (q.mem ≡ p.mem) × (q.ur.psr ≡ p.ur.psr)
    → IsRun q.mem q.ur.psr (q.ur.reg 15) n (count + 1) left
    → IsRun p.mem p.ur.psr (p.ur.reg 15) (suc n) count left
IsRun-after p q n count here outside run =
    let there : u32 (q.ur.reg 15 + 4 * n) ≡ u32 (p.ur.reg 15 + 4 * suc n) = omega (arith, here) in
    let total : count + 1 + n ≡ count + suc n = omega arith in
    record {
      mem_same = run.mem_same ∙ outside.0;
      psr_same = run.psr_same ∙ outside.1;
      at = run.at ∙ there;
      result = rw (sym (outside.0), sym there, sym total) run.result;
    }

-- The loop over such code, on more fuel than it has instructions.
fp_loop_straight :
    (lib : Library) (fuel n count : ℕ) (p : Process)
    → n < fuel
    → p.ur.reg 15 < 2 ^ 32
    → IsStraight p.mem p.ur.psr (p.ur.reg 15) n
    → IsRun p.mem p.ur.psr (p.ur.reg 15) n count (fp_loop lib fuel count p)
fp_loop_straight lib zero n count p h word s = absurd (omega arith)
fp_loop_straight lib (suc fuel) zero count p h word s =
    let e : u32 (p.ur.reg 15 + 4 * 0) ≡ p.ur.reg 15 = omega arith in
    let none_more : count + 0 ≡ count = omega arith in
    let op = getulong p.mem (p.ur.reg 15) in
    elim (subst (λ a. IsLast p.ur.psr (getulong p.mem a)) e s.end).last [
      | inl stops ↦ rw (fp_loop_stop lib fuel count p stops) (record {
        mem_same = refl;
        psr_same = refl;
        at = sym e;
        result = rw (e, stops, none_more) refl;
      })
      | inr (a, unknown, runs) ↦ elim (Bool-cases (is_fp op)) [
        | inl goes ↦
            let fails = step_last lib op p a unknown runs in
            rw (fp_loop_fail lib fuel count p Error.unimp_fp goes fails)
              (record { mem_same = refl; psr_same = refl; at = sym e; result = rw (e, goes) refl })
        | inr stops ↦ rw (fp_loop_stop lib fuel count p stops) (record {
          mem_same = refl;
          psr_same = refl;
          at = sym e;
          result = rw (e, stops, none_more) refl;
        })
      ]
    ]
fp_loop_straight lib (suc fuel) (suc n) count p h word s =
    let e : u32 (p.ur.reg 15 + 4 * 0) ≡ p.ur.reg 15 = omega arith in
    let op = getulong p.mem (p.ur.reg 15) in
    let passed = subst (λ a. IsPassed p.ur.psr (getulong p.mem a)) e (s.body 0 (omega arith)) in
    let (p', done, same) = step_passed lib op p passed in
    let q = advance p' in
    let here : q.ur.reg 15 ≡ u32 (p.ur.reg 15 + 4) = advance_pc p p' same in
    let outside = advance_outside p p' same in
    let rest : IsStraight q.mem q.ur.psr (q.ur.reg 15) n =
      rw (outside.0, outside.1, here) (IsStraight-tail p.mem p.ur.psr (p.ur.reg 15) n s) in
    rw (fp_loop_next lib fuel count p p' passed.fp done) (
      IsRun-after p q n count here outside
        (fp_loop_straight lib fuel n (count + 1) q (omega arith) (omega (arith, here)) rest))

-- An undefined instruction trap of a process, at `n` arithmetic instructions that are implemented
-- or whose condition is not met: on more fuel than that `fpiarm` ends at the instruction behind
-- them, with the program counter there, if that is no floating point instruction or an arithmetic
-- one that is not implemented and whose condition is met. In the first case the result is `n`, in
-- the second the error of an instruction that is not implemented. The memory and the status
-- register are as they were.
pub fpiarm_straight :
    (lib : Library) (fuel n ur_end : ℕ) (p : Process)
    → n < fuel
    → p.ur.reg 15 < 2 ^ 32
    → IsStraight p.mem p.ur.psr (p.ur.reg 15) n
    → IsRun p.mem p.ur.psr (p.ur.reg 15) n 0 (fpiarm lib fuel ur_end true p)
unfolding fpiarm set_reg
fpiarm_straight lib fuel n ur_end p h word s =
    let q = set_reg 13 ur_end p in
    fp_loop_straight lib fuel n 0 (record q { fpu = activate q.fpu }) h word s
