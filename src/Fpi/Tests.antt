-- ===== src/Fpi/Tests.antt =====
-- Runs of the emulator, and the theorems at inputs that meet their hypotheses.
use inferno_kirkwood.Prelude.{
  ℕ, zero, suc, ◌+◌, ◌*◌, ◌<◌, ◌≡◌, ◌||◌, inl, some, refl, arith, true, [], ◌∷◌, get_or, ltb, ◌==◌,
  if◌then◌else◌, u32,
}
use inferno_kirkwood.Fpi.Defs.{Library, Compared, Process, getulong, set_zero}
use inferno_kirkwood.Fpi.Arith.{fpconst, clear_fraction}
use inferno_kirkwood.Fpi.Condition.{condok, fcmp, set_flags}
use inferno_kirkwood.Fpi.Emulator.{fpemu, fpiarm, is_fp}
use inferno_kirkwood.Fpi.Comparison.{ordering, equal_to, greater_than, unordered, condok-fcmp}
use inferno_kirkwood.Fpi.Table.{
  IsArithmetic, second, dyadic, value, outcome, is_implemented, fpemu_arithmetic,
}
use inferno_kirkwood.Fpi.Frame.{IsPassed, IsStraight, IsRun, fpiarm_straight}

-- Operations that only pick an argument, and a comparison by exponent.
abbrev pick : Library
pick = record {
  fpiadd = λ m n. m;
  fpisub = λ m n. n;
  fpimul = λ m n. n;
  fpidiv = λ m n. m;
  fpiround = λ m. m;
  fpicmp = λ m n.
      if ltb m.e n.e
      then Compared.less
      else (if m.e == n.e then Compared.equal else Compared.greater);
  fpiw2i = λ w. record { s = 0; e = 1; l = w; h = 0 };
  fpii2w = λ m. m.l;
  fpid2i = λ mem a. record { s = 0; e = 1; l = mem a; h = 0 };
  fpis2i = λ mem a. record { s = 0; e = 1; l = mem a; h = 0 };
  fpii2d = λ mem a m. mem;
  fpii2s = λ mem a m. mem;
}

-- ADDF F2, F1, F0 at address 0.
abbrev add_mem : ℕ → ℕ
add_mem a = get_or (0x02 ∷ 0x01 ∷ 0x01 ∷ 0xEE ∷ []) a 0

abbrev start : Process
start = record {
  ur = record { reg = λ n. 0; psr = 0x60000000 };
  fpu = record { status = 0; control = 0; active = true; fr = λ n. fpconst n };
  mem = add_mem;
}

add_word : getulong add_mem 0 ≡ 0xEE010102
unfolding getulong
add_word = refl

half_rounds : clear_fraction (fpconst 6) ≡ fpconst 0
unfolding clear_fraction fpconst set_zero
half_rounds = refl

add_op-IsArithmetic : IsArithmetic 0xEE010102
add_op-IsArithmetic = record { no_memory = refl; no_transfer = refl }

-- ADDF is at address 0, and at 4 no floating point instruction.
add_mem-IsStraight : IsStraight add_mem 0x60000000 0 1
unfolding getulong is_fp is_implemented
add_mem-IsStraight = record { body = at_index; end = record { last = inl refl } }
  where
    at_index : (i : ℕ) → i < 1 → IsPassed 0x60000000 (getulong add_mem (u32 (0 + 4 * i)))
    at_index zero h = record { fp = refl; arithmetic = add_op-IsArithmetic; passed = inl refl }
    at_index (suc i) h = absurd (omega (arith, h))

condok-fcmp_example :
    let p = set_flags 7 (fcmp pick (fpconst 1) (fpconst 2)) in
    let o = ordering pick (fpconst 1) (fpconst 2) in
    (condok p 0 ≡ equal_to o)
    × (condok p 6 ≡ unordered o)
    × (condok p 10 ≡ (equal_to o || greater_than o))
    × (condok p 12 ≡ greater_than o)
condok-fcmp_example = condok-fcmp pick (fpconst 1) (fpconst 2) 7

-- F1 and F2 are added, to F0.
add_value : value pick 0xEE010102 start ≡ some (fpconst 2)
unfolding value dyadic second fpconst
add_value = refl

fpemu_arithmetic_example :
    fpemu pick 0xEE010102 start ≡ outcome pick (value pick 0xEE010102 start) 0xEE010102 start
fpemu_arithmetic_example = fpemu_arithmetic pick 0xEE010102 start add_op-IsArithmetic

fpiarm_straight_example : IsRun add_mem 0x60000000 0 1 0 (fpiarm pick 5 0x1000 true start)
fpiarm_straight_example =
    fpiarm_straight pick 5 1 0x1000 start (omega arith) (omega arith) add_mem-IsStraight
