-- ===== src/Prelude/BitXor.antt =====
-- Exclusive or: the step that takes a digit off both numbers, and the laws of the operation.
use Prim.Native.Nat.{
  ℕ, zero, suc, ◌+◌, ◌*◌, ◌/◌, ◌%◌, ◌^◌, ◌≤◌, ◌<◌, differ, bit_xor, bit_xor-bitwise,
}
use mathlib.Core.Path.{◌≡◌, refl, ap, sym, ◌∙◌}
use mathlib.Core.WellFounded
use native.Mathlib.Nat.{pow-suc}
use native.Mathlib.Omega.{arith}
use inferno_kirkwood.Prelude.Order.{lt_wf}
use inferno_kirkwood.Prelude.Bits.{half_digits, times_two_pow}

bit_xor-differ : (x y : ℕ) → bit_xor x y ≡ bit_xor (x / 2) (y / 2) * 2 + differ (x % 2) (y % 2)
bit_xor-differ zero y = omega (arith, bit_xor-bitwise 0 y, bit_xor-bitwise 0 (y / 2))
bit_xor-differ (suc x) y = omega (
  arith,
  bit_xor-bitwise (suc x) y,
  bit_xor-bitwise (suc x / 2) (y / 2),
  half_digits (λ k. k) differ x (y / 2),
)

differ-digits : (a b : ℕ) → a < 2 → b < 2 → differ a b ≡ (a + b) % 2
differ-digits zero zero h k = refl
differ-digits zero (suc zero) h k = refl
differ-digits zero (suc (suc b)) h k = absurd (omega arith)
differ-digits (suc zero) zero h k = refl
differ-digits (suc zero) (suc zero) h k = refl
differ-digits (suc zero) (suc (suc b)) h k = absurd (omega arith)
differ-digits (suc (suc a)) b h k = absurd (omega arith)

pub bit_xor_step : (x y : ℕ) → bit_xor x y ≡ bit_xor (x / 2) (y / 2) * 2 + (x + y) % 2
bit_xor_step x y =
    omega (arith, bit_xor-differ x y, differ-digits (x % 2) (y % 2) (omega arith) (omega arith))

pub zero-bit_xor : (y : ℕ) → bit_xor 0 y ≡ y
zero-bit_xor y = bit_xor-bitwise 0 y

pub bit_xor-zero : (x : ℕ) → bit_xor x 0 ≡ x
bit_xor-zero x = WellFounded.induction lt_wf {C = λ n. bit_xor n 0 ≡ n} x at_number
  where
    at_number : (n : ℕ) → ((m : ℕ) → m < n → bit_xor m 0 ≡ m) → bit_xor n 0 ≡ n
    at_number zero smaller = refl
    at_number (suc n) smaller =
        omega (arith, bit_xor_step (suc n) 0, smaller (suc n / 2) (omega arith))

-- By the digits of the first number, with fuel.
comm_fuel : (n x y : ℕ) → x ≤ n → bit_xor x y ≡ bit_xor y x
comm_fuel n zero y h = zero-bit_xor y ∙ sym (bit_xor-zero y)
comm_fuel zero (suc x) y h = absurd (omega arith)
comm_fuel (suc n) (suc x) y h = omega (
  arith,
  bit_xor_step (suc x) y,
  bit_xor_step y (suc x),
  comm_fuel n (suc x / 2) (y / 2) (omega arith),
)

pub bit_xor_comm : (x y : ℕ) → bit_xor x y ≡ bit_xor y x
bit_xor_comm x y = comm_fuel x x y (omega arith)

pub half-bit_xor : (x y : ℕ) → bit_xor x y / 2 ≡ bit_xor (x / 2) (y / 2)
half-bit_xor x y = omega (arith, bit_xor_step x y)

pub digit-bit_xor : (x y : ℕ) → bit_xor x y % 2 ≡ (x + y) % 2
digit-bit_xor x y = omega (arith, bit_xor_step x y)

assoc_fuel : (n x y z : ℕ) → x ≤ n → bit_xor (bit_xor x y) z ≡ bit_xor x (bit_xor y z)
assoc_fuel n zero y z h = ap (λ t. bit_xor t z) (zero-bit_xor y) ∙ sym (zero-bit_xor (bit_xor y z))
assoc_fuel zero (suc x) y z h = absurd (omega arith)
assoc_fuel (suc n) (suc x) y z h = omega (
  arith,
  bit_xor_step (bit_xor (suc x) y) z,
  bit_xor_step (suc x) (bit_xor y z),
  digit-bit_xor (suc x) y,
  digit-bit_xor y z,
  ap (λ t. bit_xor t (z / 2)) (half-bit_xor (suc x) y),
  ap (λ t. bit_xor (suc x / 2) t) (half-bit_xor y z),
  assoc_fuel n (suc x / 2) (y / 2) (z / 2) (omega arith),
)

pub bit_xor_assoc : (x y z : ℕ) → bit_xor (bit_xor x y) z ≡ bit_xor x (bit_xor y z)
bit_xor_assoc x y z = assoc_fuel x x y z (omega arith)

pub bit_xor_self : (x : ℕ) → bit_xor x x ≡ 0
bit_xor_self x = WellFounded.induction lt_wf {C = λ n. bit_xor n n ≡ 0} x at_number
  where
    at_number : (n : ℕ) → ((m : ℕ) → m < n → bit_xor m m ≡ 0) → bit_xor n n ≡ 0
    at_number zero smaller = refl
    at_number (suc n) smaller =
        omega (arith, bit_xor_step (suc n) (suc n), smaller (suc n / 2) (omega arith))

-- A field above `k` digits is joined to a number of `k` digits.
pub bit_xor-above : (k q r : ℕ) → r < 2 ^ k → bit_xor r (q * 2 ^ k) ≡ q * 2 ^ k + r
bit_xor-above zero q zero h = zero-bit_xor (q * 1) ∙ omega arith
bit_xor-above zero q (suc r) h = absurd (omega arith)
bit_xor-above (suc k) q r h =
    let half : q * 2 ^ suc k / 2 ≡ q * 2 ^ k = omega (arith, times_two_pow q k) in
    omega (
      arith,
      bit_xor_step r (q * 2 ^ suc k),
      times_two_pow q k,
      pow-suc 2 k,
      ap (λ t. bit_xor (r / 2) t) half,
      bit_xor-above k q (r / 2) (omega (arith, pow-suc 2 k)),
    )
