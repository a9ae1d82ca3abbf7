-- ===== src/Crc/Same.antt =====
-- The two checksums agree.
use native.Mathlib.Nat.{pow-suc, div-div-eq-div-mul}
use inferno_kirkwood.Prelude.{
  ℕ, zero, suc, ◌+◌, ◌*◌, ◌/◌, ◌%◌, ◌^◌, ◌<◌, ◌≡◌, refl, arith, ◌==◌, List, [], ◌∷◌, get_or,
  if◌then◌else◌, bit_and, bit_xor, Bool-cases, inl, inr, sym, ap, ◌∙◌,
}
use inferno_kirkwood.Prelude.Bits.{bit_and_mask, times_two_pow}
use inferno_kirkwood.Prelude.BitXor.{
  zero-bit_xor, bit_xor-zero, bit_xor_comm, bit_xor_assoc, bit_xor_self, half-bit_xor,
  digit-bit_xor, bit_xor-above,
}
use inferno_kirkwood.Uimage.Header.{poly, crc_rounds, crc_entries, mkcrctab, crc_bytes, crc32}
use inferno_kirkwood.Crc.Bitwise.{bit_rounds, crc_loop, ethercrc}

bit_xor_medial :
    (a b c d : ℕ) → bit_xor (bit_xor a b) (bit_xor c d) ≡ bit_xor (bit_xor a c) (bit_xor b d)
bit_xor_medial a b c d =
    bit_xor_assoc a b (bit_xor c d)
    ∙ ap (λ t. bit_xor a t)
        (sym (bit_xor_assoc b c d) ∙ ap (λ t. bit_xor t d) (bit_xor_comm b c) ∙ bit_xor_assoc c b d)
    ∙ sym (bit_xor_assoc a c (bit_xor b d))

-- What the lowest digit adds in a round.
unfoldable feedback : ℕ → ℕ
feedback c = if c % 2 == 0 then 0 else poly

-- One round on a table's entry.
unfoldable shift : ℕ → ℕ
shift c = bit_xor (feedback c) (c / 2)

crc_rounds-suc : (n c : ℕ) → crc_rounds (suc n) c ≡ crc_rounds n (shift c)
unfolding crc_rounds shift feedback
crc_rounds-suc n c =
    let digit : bit_and c 1 ≡ c % 2 = bit_and_mask 1 c in
    ground (arith, digit, zero-bit_xor (c / 2))

feedback-bit_xor : (x y : ℕ) → feedback (bit_xor x y) ≡ bit_xor (feedback x) (feedback y)
unfolding feedback
feedback-bit_xor x y = elim (Bool-cases (x % 2 == 0)) [
  | inl even ↦ ground (arith, even, digit-bit_xor x y, zero-bit_xor (feedback y))
  | inr odd ↦ elim (Bool-cases (y % 2 == 0)) [
    | inl even ↦ ground (arith, odd, even, digit-bit_xor x y, bit_xor-zero poly)
    | inr odd' ↦ ground (arith, odd, odd', digit-bit_xor x y, bit_xor_self poly)
  ]
]

shift-bit_xor : (x y : ℕ) → shift (bit_xor x y) ≡ bit_xor (shift x) (shift y)
unfolding shift
shift-bit_xor x y =
    ap (λ t. bit_xor t (bit_xor x y / 2)) (feedback-bit_xor x y)
    ∙ ap (λ t. bit_xor (bit_xor (feedback x) (feedback y)) t) (half-bit_xor x y)
    ∙ bit_xor_medial (feedback x) (feedback y) (x / 2) (y / 2)

crc_rounds-bit_xor :
    (n x y : ℕ) → crc_rounds n (bit_xor x y) ≡ bit_xor (crc_rounds n x) (crc_rounds n y)
unfolding crc_rounds
crc_rounds-bit_xor zero x y = refl
crc_rounds-bit_xor (suc n) x y =
    crc_rounds-suc n (bit_xor x y)
    ∙ ap (crc_rounds n) (shift-bit_xor x y)
    ∙ crc_rounds-bit_xor n (shift x) (shift y)
    ∙ ap (λ t. bit_xor t (crc_rounds n (shift y))) (sym (crc_rounds-suc n x))
    ∙ ap (λ t. bit_xor (crc_rounds (suc n) x) t) (sym (crc_rounds-suc n y))

shift-double : (z : ℕ) → shift (2 * z) ≡ z
unfolding shift feedback
shift-double z =
    let even : (2 * z) % 2 ≡ 0 = omega arith in
    let half : 2 * z / 2 ≡ z = omega arith in rw (even, half) (zero-bit_xor z)

-- Rounds on zeros only shift.
crc_rounds-above : (n q : ℕ) → crc_rounds n (q * 2 ^ n) ≡ q
unfolding crc_rounds
crc_rounds-above zero q = omega arith
crc_rounds-above (suc n) q =
    let e : shift (q * 2 ^ suc n) ≡ q * 2 ^ n =
      ap shift (times_two_pow q n) ∙ shift-double (q * 2 ^ n) in
    crc_rounds-suc n (q * 2 ^ suc n) ∙ ap (crc_rounds n) e ∙ crc_rounds-above n q

div-one : (x : ℕ) → x / 1 ≡ x
div-one x = omega arith

div-suc : (n x : ℕ) → x / 2 ^ suc n ≡ x / 2 / 2 ^ n
div-suc n x = ap (λ d. x / d) (omega (arith, pow-suc 2 n)) ∙ sym (div-div-eq-div-mul x 2 (2 ^ n))

-- The invariant of the loop by bits: what is left of the byte, joined to the checksum.
bit_rounds-crc_rounds :
    (n crc b : ℕ) → bit_xor (bit_rounds n crc b) (b / 2 ^ n) ≡ crc_rounds n (bit_xor crc b)
unfolding bit_rounds crc_rounds feedback shift
bit_rounds-crc_rounds zero crc b = ap (λ t. bit_xor crc t) (omega arith)
bit_rounds-crc_rounds (suc n) crc b =
    let y = bit_xor crc b in
    let digit : bit_and y 1 ≡ y % 2 = bit_and_mask 1 y in
    let next = bit_xor (crc / 2) (feedback y) in
    let one : bit_rounds (suc n) crc b ≡ bit_rounds n next (b / 2) =
      ap (λ d. bit_rounds n (bit_xor (crc / 2) (if d == 0 then 0 else poly)) (b / 2)) digit in
    let joined : bit_xor next (b / 2) ≡ shift y =
      ap (λ t. bit_xor t (b / 2)) (bit_xor_comm (crc / 2) (feedback y))
      ∙ bit_xor_assoc (feedback y) (crc / 2) (b / 2)
      ∙ ap (λ t. bit_xor (feedback y) t) (sym (half-bit_xor crc b)) in
    ap (λ t. bit_xor t (b / 2 ^ suc n)) one
    ∙ ap (λ t. bit_xor (bit_rounds n next (b / 2)) t) (div-suc n b)
    ∙ bit_rounds-crc_rounds n next (b / 2)
    ∙ ap (crc_rounds n) joined
    ∙ sym (crc_rounds-suc n y)

get_or-crc_entries : (n i k : ℕ) → k < n → get_or (crc_entries n i) k 0 ≡ crc_rounds 8 (i + k)
unfolding crc_entries
get_or-crc_entries zero i k h = absurd (omega arith)
get_or-crc_entries (suc n) i zero h = ap (crc_rounds 8) (omega arith)
get_or-crc_entries (suc n) i (suc k) h =
    get_or-crc_entries n (i + 1) k (omega arith) ∙ ap (crc_rounds 8) (omega arith)

half_n : (n x y : ℕ) → bit_xor x y / 2 ^ n ≡ bit_xor (x / 2 ^ n) (y / 2 ^ n)
half_n zero x y =
    omega (arith, ap (λ t. bit_xor t (y / 1)) (div-one x), ap (λ t. bit_xor x t) (div-one y))
half_n (suc n) x y =
    div-suc n (bit_xor x y)
    ∙ ap (λ t. t / 2 ^ n) (half-bit_xor x y)
    ∙ half_n n (x / 2) (y / 2)
    ∙ sym (
        ap (λ t. bit_xor t (y / 2 ^ suc n)) (div-suc n x)
        ∙ ap (λ t. bit_xor (x / 2 / 2 ^ n) t) (div-suc n y))

-- A byte, by its bits or by the table.
bit_rounds-table :
    (crc b : ℕ)
    → b < 256
    → bit_rounds 8 crc b ≡ bit_xor (get_or mkcrctab (bit_and (bit_xor crc b) 0xff) 0) (crc / 2 ^ 8)
unfolding mkcrctab
bit_rounds-table crc b byte =
    let y = bit_xor crc b in
    let low : bit_and y 0xff ≡ y % 256 = bit_and_mask 8 y in
    let entry : get_or mkcrctab (bit_and y 0xff) 0 ≡ crc_rounds 8 (y % 256) =
      ap (λ k. get_or mkcrctab k 0) low
      ∙ get_or-crc_entries 256 0 (y % 256) (omega arith)
      ∙ ap (crc_rounds 8) (omega arith) in
    let split : y ≡ bit_xor (y % 256) (y / 256 * 2 ^ 8) =
      omega (arith, bit_xor-above 8 (y / 256) (y % 256) (omega arith)) in
    let high : y / 256 ≡ crc / 2 ^ 8 =
      half_n 8 crc b
      ∙ ap (λ t. bit_xor (crc / 2 ^ 8) t) (omega arith)
      ∙ bit_xor-zero (crc / 2 ^ 8) in
    let gone : bit_xor (bit_rounds 8 crc b) (b / 2 ^ 8) ≡ bit_rounds 8 crc b =
      ap (λ t. bit_xor (bit_rounds 8 crc b) t) (omega arith) ∙ bit_xor-zero (bit_rounds 8 crc b) in
    sym gone
    ∙ bit_rounds-crc_rounds 8 crc b
    ∙ ap (crc_rounds 8) split
    ∙ crc_rounds-bit_xor 8 (y % 256) (y / 256 * 2 ^ 8)
    ∙ ap (λ t. bit_xor t (crc_rounds 8 (y / 256 * 2 ^ 8))) (sym entry)
    ∙ ap (λ t. bit_xor (get_or mkcrctab (bit_and y 0xff) 0) t) (crc_rounds-above 8 (y / 256) ∙ high)

-- All are bytes.
abbrev pub IsBytes : List ℕ → Type 0
IsBytes [] = Unit
IsBytes (b ∷ p) = (b < 256) × IsBytes p

crc_bytes-crc_loop : (crc : ℕ) (p : List ℕ) → IsBytes p → crc_bytes mkcrctab crc p ≡ crc_loop crc p
unfolding crc_bytes crc_loop
crc_bytes-crc_loop crc [] bytes = refl
crc_bytes-crc_loop crc (b ∷ p) (byte, bytes) =
    ap (λ t. crc_bytes mkcrctab t p) (sym (bit_rounds-table crc b byte))
    ∙ crc_bytes-crc_loop (bit_rounds 8 crc b) p bytes

-- The checksum by the table is the one that goes bit by bit, inverted, for a buffer of bytes.
pub crc32-ethercrc : (p : List ℕ) → IsBytes p → crc32 mkcrctab 0 p ≡ bit_xor (ethercrc p) 0xffffffff
unfolding crc32 ethercrc
crc32-ethercrc p bytes = ap (λ t. bit_xor t 0xffffffff) (crc_bytes-crc_loop 0xffffffff p bytes)
