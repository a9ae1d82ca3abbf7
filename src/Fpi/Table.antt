-- ===== src/Fpi/Table.antt =====
-- The arithmetic instructions by their numbers.
use inferno_kirkwood.Prelude.{
  ℕ, zero, suc, ◌/◌, ◌%◌, ◌^◌, ◌≡◌, refl, ◌∙◌, inl, inr, arith, Bool, true, false, Bool-cases,
  Option, none, some, Option-cases, sym, ap, ◌==◌, ◌||◌, ◌&&◌, ltb, leb, if◌then◌else◌,
}
use inferno_kirkwood.Prelude.Bits.{bit_and_mask, bit_and_digit}
use inferno_kirkwood.Port.{Error, Result, ok, err}
use inferno_kirkwood.Fpi.Defs.{Internal, Library, Process, flip_sign}
use inferno_kirkwood.Fpi.Arith.{
  fpconst, fmov, fmovn, fabsf, fadd, fsub, fsubr, fmul, fdiv, fdivr, frnd, optab1, optab2,
}
use inferno_kirkwood.Fpi.Emulator.{on, field, operand, set_fr, arithmetic, fpemu}

-- An instruction that neither loads nor stores nor moves to or from a register.
pub record IsArithmetic (op : ℕ) : Type 0 where
  pub no_memory : (field op 25 7 == 6) ≡ false
  pub no_transfer : on op 4 ≡ false

-- The second operand: a constant if bit 3 is set, else a register.
unfoldable pub second : ℕ → Process → Internal
second op p = if op / 8 % 2 == 1 then fpconst (op % 8) else p.fpu.fr (op % 8)

module _ (lib : Library) where
  -- The sum of numbers of any signs, of the operations for numbers of equal and of different signs.
  abbrev pub sum : Internal → Internal → Internal
  sum m n = if m.s == n.s then lib.fpiadd m n else lib.fpisub m n

  -- What instruction `o` of one operand computes: a move, with the other sign, the absolute value,
  -- rounded. There is no other.
  unfoldable pub monadic : ℕ → Internal → Option Internal
  monadic o m =
      if o == 0
      then some m
      else (if o == 1
          then some (flip_sign m)
          else (if o == 2
              then some (record m { s = 0 })
              else (if o == 3 then some (frnd lib m) else none)))

  -- What instruction `o` computes of its second operand `m` and its first `n`: the sum, the first
  -- less the second, the second less the first, and with two numbers each the product and the two
  -- quotients. There is no other.
  unfoldable pub dyadic : ℕ → Internal → Internal → Option Internal
  dyadic o m n =
      if o == 0
      then some (sum m n)
      else (if o == 2
          then some (sum (flip_sign m) n)
          else (if o == 3
              then some (sum (flip_sign n) m)
              else (if o == 1 || o == 9
                  then some (lib.fpimul m n)
                  else (if o == 4 || o == 10
                      then some (lib.fpidiv m n)
                      else (if o == 5 || o == 11 then some (lib.fpidiv n m) else none)))))

  -- The value of an instruction: it has one operand if bit 15 is set, its number is in bits 20 to
  -- 23, and its first operand is the register in bits 16 to 18.
  unfoldable pub value : ℕ → Process → Option Internal
  value op p =
      let o = op / 2 ^ 20 % 16 in
      if op / 2 ^ 15 % 2 == 1
      then monadic o (second op p)
      else dyadic o (second op p) (p.fpu.fr (op / 2 ^ 16 % 8))

  -- What an instruction with that value does.
  unfoldable pub outcome : Option Internal → ℕ → Process → Result Process
  outcome none op p = err Error.unimp_fp
  outcome (some v) op p = ok (set_fr (op / 2 ^ 12 % 8) v p)

  abbrev apply1 : Option (Internal → Internal) → Internal → Option Internal
  apply1 none m = none
  apply1 (some f) m = some (f m)

  abbrev apply2 : Option (Internal → Internal → Internal) → Internal → Internal → Option Internal
  apply2 none m n = none
  apply2 (some f) m n = some (f m n)

  optab1-monadic : (o : ℕ) (m : Internal) → apply1 (optab1 lib o) m ≡ monadic o m
  unfolding optab1 monadic fmov fmovn fabsf
  optab1-monadic zero m = refl
  optab1-monadic (suc zero) m = ground arith
  optab1-monadic (suc (suc zero)) m = ground arith
  optab1-monadic (suc (suc (suc zero))) m = ground arith
  optab1-monadic (suc (suc (suc (suc o)))) m = ground arith

  optab2-dyadic : (o : ℕ) (m n : Internal) → apply2 (optab2 lib o) m n ≡ dyadic o m n
  unfolding optab2 dyadic fadd fsub fsubr fmul fdiv fdivr
  optab2-dyadic zero m n = refl
  optab2-dyadic (suc zero) m n = ground arith
  optab2-dyadic (suc (suc zero)) m n = ground arith
  optab2-dyadic (suc (suc (suc zero))) m n = ground arith
  optab2-dyadic (suc (suc (suc (suc zero)))) m n = ground arith
  optab2-dyadic (suc (suc (suc (suc (suc zero))))) m n = ground arith
  optab2-dyadic (suc (suc (suc (suc (suc (suc zero)))))) m n = ground arith
  optab2-dyadic (suc (suc (suc (suc (suc (suc (suc zero))))))) m n = ground arith
  optab2-dyadic (suc (suc (suc (suc (suc (suc (suc (suc zero)))))))) m n = ground arith
  optab2-dyadic (suc (suc (suc (suc (suc (suc (suc (suc (suc zero))))))))) m n = ground arith
  optab2-dyadic (suc (suc (suc (suc (suc (suc (suc (suc (suc (suc zero)))))))))) m n = ground arith
  optab2-dyadic (suc (suc (suc (suc (suc (suc (suc (suc (suc (suc (suc zero))))))))))) m n =
      ground arith
  optab2-dyadic (suc (suc (suc (suc (suc (suc (suc (suc (suc (suc (suc (suc o)))))))))))) m n =
      ground arith

  operand-second : (op : ℕ) (p : Process) → operand op p ≡ second op p
  unfolding operand second
  operand-second op p = ground (arith, bit_and_mask 3 op, bit_and_digit 3 op)

  -- An arithmetic instruction computes the value of its number in the table above from its
  -- operands, writes it to the floating point register in its bits 12 to 14, and changes nothing
  -- else; one whose number is not in the table raises the error of an instruction that is not
  -- implemented.
  pub fpemu_arithmetic :
      (op : ℕ) (p : Process) → IsArithmetic op → fpemu lib op p ≡ outcome (value op p) op p
  unfolding fpemu arithmetic value outcome
  fpemu_arithmetic op p a =
      let m = operand op p in
      let n = p.fpu.fr (op / 2 ^ 16 % 8) in
      let number : field op 20 0xF ≡ op / 2 ^ 20 % 16 = bit_and_mask 4 (op / 2 ^ 20) in
      let first : field op 16 7 ≡ op / 2 ^ 16 % 8 = bit_and_mask 3 (op / 2 ^ 16) in
      let target : field op 12 7 ≡ op / 2 ^ 12 % 8 = bit_and_mask 3 (op / 2 ^ 12) in
      let one_operand : on op 15 ≡ (op / 2 ^ 15 % 2 == 1) = ground (arith, bit_and_digit 15 op) in
      let o = op / 2 ^ 20 % 16 in
      let same = operand-second op p in
      elim (Bool-cases (op / 2 ^ 15 % 2 == 1)) [
        | inl one ↦ elim (Option-cases (optab1 lib o)) [
          | inl e ↦
              let v : monadic o m ≡ none = sym (optab1-monadic o m) ∙ ap (λ f. apply1 f m) e in
              rw (a.no_memory, a.no_transfer, one_operand, one, number, e, sym same, v) refl
          | inr (f, e) ↦
              let v : monadic o m ≡ some (f m) =
                sym (optab1-monadic o m) ∙ ap (λ f. apply1 f m) e in
              rw (a.no_memory, a.no_transfer, one_operand, one, number, e, target, sym same, v) refl
        ]
        | inr two ↦ elim (Option-cases (optab2 lib o)) [
          | inl e ↦
              let v : dyadic o m n ≡ none = sym (optab2-dyadic o m n) ∙ ap (λ f. apply2 f m n) e in
              rw (a.no_memory, a.no_transfer, one_operand, two, number, e, sym same, v) refl
          | inr (f, e) ↦
              let v : dyadic o m n ≡ some (f m n) =
                sym (optab2-dyadic o m n) ∙ ap (λ f. apply2 f m n) e in
              rw
                (
                  a.no_memory,
                  a.no_transfer,
                  one_operand,
                  two,
                  number,
                  e,
                  first,
                  target,
                  sym same,
                  v,
                )
                refl
        ]
      ]

-- The table has an entry for the instruction.
unfoldable pub is_implemented : ℕ → Bool
is_implemented op =
    let o = op / 2 ^ 20 % 16 in
    if op / 2 ^ 15 % 2 == 1 then ltb o 4 else ltb o 6 || (leb 9 o && ltb o 12)

pub value-some :
    (lib : Library) (op : ℕ) (p : Process)
    → is_implemented op ≡ true
    → (v : Internal) × (value lib op p ≡ some v)
unfolding is_implemented value monadic dyadic
value-some lib op p e = elim (Option-cases (value lib op p)) [
  | inl missing ↦ absurd (ground (arith, e, missing))
  | inr (v, has) ↦ (v, has)
]

pub value-none :
    (lib : Library) (op : ℕ) (p : Process) → is_implemented op ≡ false → value lib op p ≡ none
unfolding is_implemented value monadic dyadic
value-none lib op p e = ground (arith, e)
