-- ===== src/Fpi/Emulator.antt =====
-- fpiarm.c: `fpemu` for one instruction and `fpiarm` for the loop over instructions.
use inferno_kirkwood.Prelude.{
  update, ℕ, zero, suc, [], ◌∷◌, get_or, ◌+◌, ◌-◌, ◌^◌, ◌==◌, Bool, true, false, none, some,
  if◌then◌else◌, ◌&&◌, ◌||◌, not, u32, ◌<<<◌, ◌>>>◌, bit_and,
}
use inferno_kirkwood.Port.{Error, Result, ok, err, fault, panic, hang}
use inferno_kirkwood.Fpi.Defs.{Internal, Library, Fpenv, Process, flip_sign, getulong, reg_pc}
use inferno_kirkwood.Fpi.Arith.{fpconst, optab1, optab2}
use inferno_kirkwood.Fpi.Condition.{condok, fcmp, set_flags}

-- `op & (1<<k)`
abbrev pub on : ℕ → ℕ → Bool
on op k = not (bit_and op (1 <<< k) == 0)

-- `(op>>k)&mask`
abbrev pub field : ℕ → ℕ → ℕ → ℕ
field op k mask = bit_and (op >>> k) mask

unfoldable pub set_reg : ℕ → ℕ → Process → Process
set_reg n value p = record p { ur = record p.ur { reg = update n value p.ur.reg } }

unfoldable pub set_fr : ℕ → Internal → Process → Process
set_fr n value p = record p { fpu = record p.fpu { fr = update n value p.fpu.fr } }

unfoldable pub compare_with : Library → Internal → Internal → Process → Process
compare_with lib n m p = record p { ur = record p.ur { psr = set_flags p.ur.psr (fcmp lib n m) } }

-- `fm`: a constant or a register.
unfoldable pub operand : ℕ → Process → Internal
operand op p = if on op 3 then fpconst (bit_and op 7) else p.fpu.fr (bit_and op 7)

-- `ea += off`, where `off` is negative if bit 23 is clear.
unfoldable pub add_offset : ℕ → ℕ → ℕ
add_offset op ea =
    let off = bit_and op 0xFF <<< 2 in if on op 23 then u32 (ea + off) else u32 (ea + 2 ^ 32 - off)

-- The coprocessor's number is 1, and the instruction is one of its data operations or transfers.
unfoldable pub is_fp : ℕ → Bool
is_fp op = let o = field op 24 0xF in field op 8 0xF == 1 && (o == 0xE || bit_and o 0xE == 0xC)

-- `ur->pc += 4`
unfoldable pub advance : Process → Process
advance p = set_reg reg_pc (u32 (p.ur.reg reg_pc + 4)) p

-- `ufp->fpistate != FPACTIVE`: the first emulated instruction of a process.
unfoldable pub activate : Fpenv → Fpenv
activate fpu = if fpu.active then fpu else record fpu {
  active = true;
  control = 0;
  status = (1 <<< 28) + (1 <<< 12);
  fr = λ n. fpconst 0;
}

module _ (lib : Library) where
  -- The load of `fld` or the store of `fst` at `ea`.
  unfoldable pub access : ℕ → ℕ → Process → Process
  access op ea p =
      let rd = field op 12 7 in
      if on op 20
      then set_fr rd (if on op 15 then lib.fpid2i p.mem ea else lib.fpis2i p.mem ea) p
      else record p {
        mem =
            if on op 15
            then lib.fpii2d p.mem ea (p.fpu.fr rd)
            else lib.fpii2s p.mem ea (p.fpu.fr rd);
      }

  -- LDF, STF
  unfoldable pub load_store : ℕ → Process → Result Process
  load_store op p =
      if on op 22
      then err Error.unimp_fp
      else (let rn = field op 16 0xF in
          let ea = if rn == reg_pc then u32 (p.ur.reg rn + 8) else p.ur.reg rn in
          let ea = if on op 24 then add_offset op ea else ea in
          let p = access op ea p in
          let ea = if on op 24 then ea else add_offset op ea in
          if on op 21 then ok (set_reg rn ea p) else ok p)

  -- CMF, CNF and the two that trap
  unfoldable pub compare_fp : ℕ → Process → Result Process
  compare_fp op p =
      let fn = p.fpu.fr (field op 16 7) in
      let fm = operand op p in
      let o = field op 21 7 in
      if o == 4 || o == 6
      then ok (compare_with lib fn fm p)
      else (if o == 5 || o == 7
          then ok (compare_with lib fn (flip_sign fm) p)
          else err Error.unimp_fp)

  unfoldable pub other_transfer : ℕ → Process → Result Process
  other_transfer op p =
      let rd = field op 12 0xF in
      let fpu = p.fpu in
      get_or
        (ok (set_fr (field op 16 7) (lib.fpiw2i (p.ur.reg rd)) p)
          ∷ (if on op 3
              then err Error.unimp_fp
              else ok (set_reg rd (lib.fpii2w (fpu.fr (bit_and op 7))) p))
          ∷ ok (record p { fpu = record fpu { status = p.ur.reg rd } })
          ∷ ok (set_reg rd fpu.status p)
          ∷ ok (record p { fpu = record fpu { control = p.ur.reg rd } })
          ∷ ok (set_reg rd fpu.control p)
          ∷ [])
        (field op 20 0xF) (err Error.unimp_fp)

  unfoldable pub arithmetic : ℕ → Process → Result Process
  arithmetic op p =
      let fm = operand op p in
      let rd = field op 12 7 in
      let o = field op 20 0xF in
      if on op 15
      then elim (optab1 lib o) [ none ↦ err Error.unimp_fp | some f ↦ ok (set_fr rd (f fm) p) ]
      else elim (optab2 lib o) [
        | none ↦ err Error.unimp_fp
        | some f ↦ ok (set_fr rd (f fm (p.fpu.fr (field op 16 7))) p)
      ]

  unfoldable pub fpemu : ℕ → Process → Result Process
  fpemu op p =
      if field op 25 7 == 6
      then load_store op p
      else (if on op 4
          then (if field op 12 0xF == 15 && on op 20 then compare_fp op p else other_transfer op p)
          else arithmetic op p)

  unfoldable pub step : ℕ → Process → Result Process
  step op p = if condok p.ur.psr (op >>> 28) then fpemu op p else ok p

  -- The result, and the state that is left also by an `error()`. `n` counts.
  -- The call of the scheduler between two instructions is left out.
  unfoldable pub fp_loop : (fuel n : ℕ) → Process → Result ℕ × Process
  fp_loop zero n p = (hang, p)
  fp_loop (suc fuel) n p =
      let op = getulong p.mem (p.ur.reg reg_pc) in
      elim (is_fp op) [
        | false ↦ (ok n, p)
        | true ↦ elim (step op p) [
          | ok p' ↦ fp_loop fuel (n + 1) (advance p')
          | err why ↦ (err why, p)
          | fault ↦ (fault, p)
          | panic ↦ (panic, p)
          | hang ↦ (hang, p)
        ]
      ]

  -- `ur_end` is the address behind the saved registers, and goes into the field for r13. `up` is
  -- whether there is a current process, whose floating point state is in `p`.
  unfoldable pub fpiarm : (fuel ur_end : ℕ) (up : Bool) → Process → Result ℕ × Process
  fpiarm fuel ur_end up p =
      let p = set_reg 13 ur_end p in
      if up then fp_loop fuel 0 (record p { fpu = activate p.fpu }) else (panic, p)
