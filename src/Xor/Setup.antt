-- ===== src/Xor/Setup.antt =====
-- xor.c: the registers' fields, and what `xorlink` sets up.
use inferno_kirkwood.Prelude.{
  ℕ, ◌+◌, ◌-◌, ◌*◌, ◌/◌, ◌^◌, Option, none, List, [], ◌∷◌, update, bit_and, bit_or, ◌<<<◌, low_mask,
}
use inferno_kirkwood.Xor.Defs.{XorReg, XoreReg, Xor}

abbrev window : ℕ → ℕ
window w = 1 <<< w

abbrev windowacl : ℕ → ℕ → ℕ
windowacl w v = v <<< (16 + 2 * w)

abbrev access_rw : ℕ
access_rw = 3

abbrev wintarget : ℕ → ℕ
wintarget v = bit_and v (low_mask 4)

abbrev winattr : ℕ → ℕ
winattr v = bit_and v (low_mask 8) <<< 8

abbrev pub winbase : ℕ → ℕ
winbase v = bit_and (v / (64 * 1024)) (low_mask 16) <<< 16

abbrev pub winsize : ℕ → ℕ
winsize v = bit_and (v / (64 * 1024) - 1) (low_mask 16) <<< 16

abbrev pub xe_start : ℕ
xe_start = 1 <<< 0

abbrev pub xe_stop : ℕ
xe_stop = 1 <<< 1

unfoldable pub initport : XorReg → XorReg
initport r =
    let winctl = bit_or (window 0) (windowacl 0 access_rw) in
    record r {
      act = xe_stop;
      winctl = bit_or winctl (bit_or (window 1) (windowacl 1 access_rw));
      aoctl = 0;
    }

-- The size of the second window is written to the register of the first, too.
unfoldable pub initengine : XoreReg → XoreReg
initengine r =
    let bar1 = bit_or (bit_or (wintarget 0) (winattr 0xD)) (winbase (256 * 1024 * 1024)) in
    let r = record r {
      irq = 0;
      irqmask = 2 ^ 32 - 1;
      bar0 = bit_or (bit_or (wintarget 0) (winattr 0xE)) (winbase 0);
      bar1 = bar1;
      sizemask0 = winsize (256 * 1024 * 1024);
    } in
    record r { sizemask0 = winsize (256 * 1024 * 1024); harr0 = 0; harr1 = 0 }

-- What is called for an interrupt: `xorintr` or `xorintrerror`, and its argument.
pub data Handler : Type 0 where
  intr : ℕ → Handler
  intrerror : Option ℕ → Handler

-- The interrupts of the two groups by number, as io.h has them, and their handlers.
unfoldable pub irq_lo : List (ℕ × Handler)
irq_lo = (5, intr 0) ∷ (6, intr 0) ∷ (7, intr 2) ∷ (8, intr 2) ∷ []

unfoldable pub irq_hi : List (ℕ × Handler)
irq_hi = (10, intrerror none) ∷ (11, intrerror none) ∷ []

unfoldable pub xorlink : Xor → Xor
xorlink x = record x {
  pr = update 3 (initport (x.pr 3)) (
      update 2 (initport (x.pr 2))
        (update 1 (initport (x.pr 1)) (update 0 (initport (x.pr 0)) x.pr)));
  er = update 1 (initengine (x.er 1)) (update 0 (initengine (x.er 0)) x.er);
}
