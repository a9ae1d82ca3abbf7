-- ===== src/Fpi/Flags.antt =====
-- What the conditions say of the flags, and of a comparison that has set them.
use inferno_kirkwood.Prelude.{
  ℕ, zero, suc, ap, ◌+◌, ◌-◌, ◌*◌, ◌/◌, ◌%◌, ◌^◌, ◌<◌, ◌≡◌, refl, sym, subst, inl, inr, ◌∙◌, arith,
  Bool, true, false, not, ◌&&◌, ◌==◌, Bool-cases, bit_and, complement32,
}
use inferno_kirkwood.Prelude.Bits.{bit_and_split, bit_and-zero, bit_and_mask, bit_or_above}
use inferno_kirkwood.Fpi.Condition.{condok, same_nv, other_nv, set_flags}

abbrev all_below : ℕ → (ℕ → Bool) → Bool
all_below zero f = true
all_below (suc n) f = f n && all_below n f

all_below-lt : (n : ℕ) (f : ℕ → Bool) → all_below n f ≡ true → (k : ℕ) → k < n → f k ≡ true
all_below-lt zero f e k h = absurd (omega arith)
all_below-lt (suc n) f e k h =
    let (here, below) = both (f n) (all_below n f) e in
    elim (Bool-cases (k == n)) [
      | inl at ↦ subst (λ m. f m ≡ true) (let back : n ≡ k = ground (arith, at) in back) here
      | inr off ↦ all_below-lt n f below k (ground (arith, off, h))
    ]
  where
    both : (a b : Bool) → (a && b) ≡ true → (a ≡ true) × (b ≡ true)
    both a b h = ground arith

-- A mask of the upper four bits does not see the others.
upper_mask :
    (q r j : ℕ)
    → r < 2 ^ 28
    → bit_and (q * 2 ^ 28 + r) (j * 2 ^ 28) ≡ bit_and (q * 2 ^ 28) (j * 2 ^ 28)
upper_mask q r j h =
    ground (arith, bit_and_split 28 q j r 0, bit_and_split 28 q j 0 0, bit_and-zero r)

complement_upper :
    (q r : ℕ)
    → q < 16
    → r < 2 ^ 28
    → bit_and (complement32 (q * 2 ^ 28 + r)) (9 * 2 ^ 28)
      ≡ bit_and (complement32 (q * 2 ^ 28)) (9 * 2 ^ 28)
complement_upper q r hq hr =
    let low : complement32 (q * 2 ^ 28 + r) ≡ (15 - q) * 2 ^ 28 + (2 ^ 28 - 1 - r) = omega arith in
    let high : complement32 (q * 2 ^ 28) ≡ (15 - q) * 2 ^ 28 + (2 ^ 28 - 1) = omega arith in
    rw (low, high)
      (upper_mask (15 - q) (2 ^ 28 - 1 - r) 9 (omega arith)
        ∙ sym (upper_mask (15 - q) (2 ^ 28 - 1) 9 (omega arith)))

-- A condition depends on the four flags only.
condok_upper : (q r c : ℕ) → q < 16 → r < 2 ^ 28 → condok (q * 2 ^ 28 + r) c ≡ condok (q * 2 ^ 28) c
unfolding condok same_nv other_nv
condok_upper q r c hq hr =
    rw
      (
        upper_mask q r 1 hr,
        upper_mask q r 2 hr,
        upper_mask q r 4 hr,
        upper_mask q r 8 hr,
        upper_mask q r 9 hr,
        complement_upper q r hq hr,
      )
      refl

abbrev xor : Bool → Bool → Bool
xor true b = not b
xor false b = b

xor-true : (a b : Bool) → xor a b ≡ true → b ≡ not a
xor-true a b h = ground arith

-- The test of one pair of conditions at one setting of the flags.
abbrev opposite : ℕ → ℕ → Bool
opposite q k = xor (condok (q * 2 ^ 28) (2 * k)) (condok (q * 2 ^ 28) (2 * k + 1))

opposite_all : all_below 16 (λ q. all_below 8 (opposite q)) ≡ true
unfolding condok same_nv other_nv
opposite_all = refl

-- The conditions come in pairs, and of the two in a pair exactly one holds, whatever the flags.
pub condok-opposite :
    (psr k : ℕ) → psr < 2 ^ 32 → k < 8 → condok psr (2 * k + 1) ≡ not (condok psr (2 * k))
condok-opposite psr k hp hk =
    let q = psr / 2 ^ 28 in
    let r = psr % 2 ^ 28 in
    let whole : psr ≡ q * 2 ^ 28 + r = omega arith in
    let at_flags : opposite q k ≡ true =
      all_below-lt 8 (opposite q)
        (all_below-lt 16 (λ x. all_below 8 (opposite x)) opposite_all q (omega arith)) k hk in
    let even : condok psr (2 * k) ≡ condok (q * 2 ^ 28) (2 * k) =
      ap (λ p. condok p (2 * k)) whole ∙ condok_upper q r (2 * k) (omega arith) (omega arith) in
    let odd : condok psr (2 * k + 1) ≡ condok (q * 2 ^ 28) (2 * k + 1) =
      ap (λ p. condok p (2 * k + 1)) whole
      ∙ condok_upper q r (2 * k + 1) (omega arith) (omega arith) in
    rw (even, odd)
      (xor-true (condok (q * 2 ^ 28) (2 * k)) (condok (q * 2 ^ 28) (2 * k + 1)) at_flags)

-- The number of the flags that `fcmp` gives, 2^28 taken as the unit.
set_flags-eq : (psr q : ℕ) → set_flags psr (q * 2 ^ 28) ≡ q * 2 ^ 28 + psr % 2 ^ 28
unfolding set_flags
set_flags-eq psr q = rw (bit_and_mask 28 psr) (bit_or_above 28 q (psr % 2 ^ 28) (omega arith))

pub condok-set_flags :
    (psr q c : ℕ) → q < 16 → condok (set_flags psr (q * 2 ^ 28)) c ≡ condok (q * 2 ^ 28) c
condok-set_flags psr q c h =
    ap (λ p. condok p c) (set_flags-eq psr q) ∙ condok_upper q (psr % 2 ^ 28) c h (omega arith)
