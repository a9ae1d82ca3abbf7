-- ===== src/Prelude/Bits.antt =====
-- Masks and disjoint fields as arithmetic. The native bit operations compute at numerals only;
-- each law here goes by the step that takes one binary digit off both arguments.
use Prim.Native.Nat.{
  ℕ, zero, suc, ◌+◌, ◌-◌, ◌*◌, ◌/◌, ◌%◌, ◌^◌, ◌≤◌, ◌<◌, min, max, digits, bit_and, bit_or,
  bit_and-bitwise, bit_or-bitwise,
}
use Prim.Native.Nat.add
use mathlib.Core.Path.{◌≡◌, refl, ap, sym, ◌∙◌}
use mathlib.Core.WellFounded
use native.Mathlib.Nat.{pow-suc, one-le-pow}
use native.Mathlib.Omega.{arith}
use inferno_kirkwood.Prelude.Word.{◌<<<◌, low_mask}
use inferno_kirkwood.Prelude.Order.{lt_wf}

-- `digits` gives the same on any two amounts of fuel that are at least its first argument.
same_digits :
    (alone : ℕ → ℕ) (op : ℕ → ℕ → ℕ) (a fuel more b : ℕ)
    → a ≤ more
    → a ≤ fuel
    → digits alone op fuel a b ≡ digits alone op more a b
same_digits alone op zero (suc fuel) (suc more) b _ _ = refl
same_digits alone op zero (suc fuel) zero b _ _ = refl
same_digits alone op zero zero (suc more) b _ _ = refl
same_digits alone op zero zero zero b _ _ = refl
same_digits alone op (suc a) zero more b _ enough = absurd (omega arith)
same_digits alone op (suc a) (suc fuel) zero b enough _ = absurd (omega arith)
same_digits alone op (suc a) (suc fuel) (suc more) b within beyond =
    let half = same_digits alone op (suc a / 2) fuel more (b / 2) (omega arith) (omega arith) in
    ap (λ (upper : ℕ). upper * 2 + op (suc a % 2) (b % 2)) half

pub half_digits :
    (alone : ℕ → ℕ) (op : ℕ → ℕ → ℕ) (a b : ℕ)
    → digits alone op a (suc a / 2) b ≡ digits alone op (suc a / 2) (suc a / 2) b
half_digits alone op a b =
    same_digits alone op (suc a / 2) a (suc a / 2) b (omega arith) (omega arith)

pub bit_or_step : (x y : ℕ) → bit_or x y ≡ bit_or (x / 2) (y / 2) * 2 + max (x % 2) (y % 2)
bit_or_step zero y = omega (arith, bit_or-bitwise 0 y, bit_or-bitwise 0 (y / 2))
bit_or_step (suc x) y = omega (
  arith,
  bit_or-bitwise (suc x) y,
  bit_or-bitwise (suc x / 2) (y / 2),
  half_digits (λ k. k) max x (y / 2),
)

pub bit_and_step : (x y : ℕ) → bit_and x y ≡ bit_and (x / 2) (y / 2) * 2 + min (x % 2) (y % 2)
bit_and_step zero y = omega (arith, bit_and-bitwise 0 y, bit_and-bitwise 0 (y / 2))
bit_and_step (suc x) y = omega (
  arith,
  bit_and-bitwise (suc x) y,
  bit_and-bitwise (suc x / 2) (y / 2),
  half_digits (λ k. zero) min x (y / 2),
)

pub bit_and-zero : (a : ℕ) → bit_and a 0 ≡ 0
bit_and-zero a = WellFounded.induction lt_wf {C = λ n. bit_and n 0 ≡ 0} a at_number
  where
    at_number : (n : ℕ) → ((m : ℕ) → m < n → bit_and m 0 ≡ 0) → bit_and n 0 ≡ 0
    at_number zero smaller = refl
    at_number (suc n) smaller =
        omega (arith, bit_and_step (suc n) 0, smaller (suc n / 2) (omega arith))

pub bit_or-zero : (a : ℕ) → bit_or a 0 ≡ a
bit_or-zero a = WellFounded.induction lt_wf {C = λ n. bit_or n 0 ≡ n} a at_number
  where
    at_number : (n : ℕ) → ((m : ℕ) → m < n → bit_or m 0 ≡ m) → bit_or n 0 ≡ n
    at_number zero smaller = refl
    at_number (suc n) smaller =
        omega (arith, bit_or_step (suc n) 0, smaller (suc n / 2) (omega arith))

pub times_two_pow : (q k : ℕ) → q * 2 ^ suc k ≡ 2 * (q * 2 ^ k)
times_two_pow q k = omega (arith, ap (λ (t : ℕ). q * t) (pow-suc 2 k))

-- Both operations work on the low `k` digits and on those above them apart.
pub bit_and_split :
    (k q p r s : ℕ)
    → r < 2 ^ k
    → s < 2 ^ k
    → bit_and (q * 2 ^ k + r) (p * 2 ^ k + s) ≡ bit_and q p * 2 ^ k + bit_and r s
bit_and_split zero q p zero zero hr hs = ground (arith, bit_and-zero 0)
bit_and_split zero q p (suc r) s hr hs = absurd (omega arith)
bit_and_split zero q p r (suc s) hr hs = absurd (omega arith)
bit_and_split (suc k) q p r s hr hs = ground (
  arith,
  bit_and_step (q * 2 ^ suc k + r) (p * 2 ^ suc k + s),
  bit_and_step r s,
  times_two_pow q k,
  times_two_pow p k,
  times_two_pow (bit_and q p) k,
  pow-suc 2 k,
  bit_and_split k q p (r / 2) (s / 2),
)

pub bit_or_split :
    (k q p r s : ℕ)
    → r < 2 ^ k
    → s < 2 ^ k
    → bit_or (q * 2 ^ k + r) (p * 2 ^ k + s) ≡ bit_or q p * 2 ^ k + bit_or r s
bit_or_split zero q p zero zero hr hs = ground (arith, bit_or-zero 0)
bit_or_split zero q p (suc r) s hr hs = absurd (omega arith)
bit_or_split zero q p r (suc s) hr hs = absurd (omega arith)
bit_or_split (suc k) q p r s hr hs = ground (
  arith,
  bit_or_step (q * 2 ^ suc k + r) (p * 2 ^ suc k + s),
  bit_or_step r s,
  times_two_pow q k,
  times_two_pow p k,
  times_two_pow (bit_or q p) k,
  pow-suc 2 k,
  bit_or_split k q p (r / 2) (s / 2),
)

-- `(q << k) | r` is a sum when `r` fits `k` digits.
pub bit_or_fields : (k q r : ℕ) → r < 2 ^ k → bit_or (q <<< k) r ≡ q * 2 ^ k + r
bit_or_fields k q r fits =
    ground (arith, bit_or_split k q 0 0 r, bit_or-zero q, bit_or-bitwise 0 r, one-le-pow k 2)

bit_and_mask_fits : (k r : ℕ) → r < 2 ^ k → bit_and r (low_mask k) ≡ r
bit_and_mask_fits zero r fits = ground (arith, bit_and-zero r)
bit_and_mask_fits (suc k) r fits = ground (
  arith,
  bit_and_step r (low_mask (suc k)),
  pow-suc 2 k,
  one-le-pow k 2,
  bit_and_mask_fits k (r / 2),
)

-- A mask of the `k` low digits is the remainder by `2 ^ k`.
pub bit_and_mask : (k a : ℕ) → bit_and a (low_mask k) ≡ a % 2 ^ k
bit_and_mask k a = ground (
  arith,
  one-le-pow k 2,
  bit_and_split k (a / 2 ^ k) 0 (a % 2 ^ k) (low_mask k),
  bit_and_mask_fits k (a % 2 ^ k),
  bit_and-zero (a / 2 ^ k),
)

-- A mask of one digit.
pub bit_and_digit : (k a : ℕ) → bit_and a (2 ^ k) ≡ a / 2 ^ k % 2 * 2 ^ k
bit_and_digit k a = ground (
  arith,
  bit_and_split k (a / 2 ^ k) 1 (a % 2 ^ k) 0,
  bit_and_mask 1 (a / 2 ^ k),
  bit_and-zero (a % 2 ^ k),
  one-le-pow k 2,
)

-- A mask of digits 1 to `k`.
pub bit_and_even_mask : (k a : ℕ) → bit_and a (2 * low_mask k) ≡ a / 2 % 2 ^ k * 2
bit_and_even_mask k a =
    ground (arith, bit_and_step a (2 * low_mask k), bit_and_mask k (a / 2), one-le-pow k 2)

pub zero-bit_or : (b : ℕ) → bit_or 0 b ≡ b
zero-bit_or b = bit_or-bitwise 0 b

-- A field above `k` digits that are there already.
pub bit_or_above : (k q r : ℕ) → r < 2 ^ k → bit_or r (q <<< k) ≡ q * 2 ^ k + r
bit_or_above k q r fits =
    ground (arith, bit_or_split k 0 q r 0, bit_or-zero r, zero-bit_or q, one-le-pow k 2)

pub pow_add : (a b : ℕ) → 2 ^ (a + b) ≡ 2 ^ a * 2 ^ b
pow_add zero b = ground (arith, add.zero b)
pow_add (suc a) b = ground (
  arith,
  ap (λ (t : ℕ). 2 ^ t) (add.suc a b),
  pow-suc 2 (a + b),
  ap (λ (t : ℕ). t * 2 ^ b) (pow-suc 2 a),
  pow_add a b,
)

pub pow_mono : (a b : ℕ) → a ≤ b → 2 ^ a ≤ 2 ^ b
pow_mono a b h =
    let e : a + (b - a) ≡ b = omega arith in rw (← e, pow_add) (grind (arith, one-le-pow (b - a) 2))

-- `x & ~(2^k - 1)` on words of `m + k` digits: the digits below `k` are cleared.
pub bit_and_high_mask :
    (m k x : ℕ) → x < 2 ^ m * 2 ^ k → bit_and x (low_mask m * 2 ^ k) ≡ x / 2 ^ k * 2 ^ k
bit_and_high_mask m k x fits =
    let low : bit_and (x / 2 ^ k * 2 ^ k + x % 2 ^ k) (low_mask m * 2 ^ k + 0)
        ≡ bit_and (x / 2 ^ k) (low_mask m) * 2 ^ k + bit_and (x % 2 ^ k) 0 =
      bit_and_split k (x / 2 ^ k) (low_mask m) (x % 2 ^ k) 0 (grind (arith, one-le-pow k 2))
        (omega (arith, one-le-pow k 2)) in
    let whole : x / 2 ^ k * 2 ^ k + x % 2 ^ k ≡ x = grind (arith, one-le-pow k 2) in
    let upper : bit_and (x / 2 ^ k) (low_mask m) ≡ x / 2 ^ k =
      bit_and_mask_fits m (x / 2 ^ k) (grind (arith, one-le-pow k 2)) in
    let mask : low_mask m * 2 ^ k + 0 ≡ low_mask m * 2 ^ k = omega arith in
    ap (λ (t : ℕ). bit_and t (low_mask m * 2 ^ k)) (sym whole)
    ∙ ap (λ (t : ℕ). bit_and (x / 2 ^ k * 2 ^ k + x % 2 ^ k) t) (sym mask)
    ∙ low
    ∙ omega (arith, ap (λ (t : ℕ). t * 2 ^ k) upper, bit_and-zero (x % 2 ^ k))
