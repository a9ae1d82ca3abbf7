-- ===== src/Trap/Dispatch.antt =====
-- Which handlers an interrupt calls.
use Prim.Native.Nat.{bit_and-bitwise}
use native.Mathlib.Nat.{
  pow-suc, one-le-pow, mod-lt, mod-eq_of_lt, mul-add-div_right, div-eq_of_lt, div-div-eq-div-mul,
  suc-mul, lt_of_mul-lt-mul_right,
}
use inferno_kirkwood.Prelude.{
  ℕ, zero, suc, ◌+◌, ◌-◌, ◌*◌, ◌/◌, ◌%◌, ◌^◌, ◌<◌, ◌≡◌, refl, arith, Bool, true, false, not, Option,
  none, some, List, [], ◌∷◌, ◌==◌, ◌&&◌, if◌then◌else◌, bit_and, complement32, low_mask, Bool-cases,
  Option-cases, inl, inr, sym, ap, ◌∙◌, subst,
}
use inferno_kirkwood.Prelude.Bits.{
  bit_and_split, bit_and_mask, bit_and_digit, bit_and_step, pow_add,
}
use inferno_kirkwood.Port.{Result, ok, err, fault, panic, hang, ◌>>=◌}
use inferno_kirkwood.Trap.Irq.{Handler, Irq, intrs_loop}

bit_and_fits : (k x y : ℕ) → x < 2 ^ k → bit_and x y < 2 ^ k
bit_and_fits zero zero y fits = omega (arith, bit_and-bitwise 0 y)
bit_and_fits zero (suc x) y fits = absurd (omega arith)
bit_and_fits (suc k) x y fits =
    omega (arith, bit_and_step x y, pow-suc 2 k, bit_and_fits k (x / 2) (y / 2))

pred_mul : (a b : ℕ) → 0 < a → (a - 1) * b + b ≡ a * b
pred_mul zero b h = absurd (omega arith)
pred_mul (suc a) b h =
    let e : suc a - 1 ≡ a = omega arith in ap (λ c. c * b + b) e ∙ sym (suc-mul a b)

-- The word of all digits but `i` is two fields around it.
complement-fields :
    (i m : ℕ) → m + suc i ≡ 32 → complement32 (2 ^ i) ≡ low_mask m * 2 ^ suc i + (2 ^ i - 1)
complement-fields i m e =
    let whole : 2 ^ m * 2 ^ suc i ≡ 2 ^ 32 = sym (pow_add m (suc i)) ∙ ap (λ n. 2 ^ n) e in
    let spread = pred_mul (2 ^ m) (2 ^ suc i) (omega (arith, one-le-pow m 2)) in
    omega (arith, whole, spread, pow-suc 2 i, one-le-pow i 2)

-- Clearing a digit leaves those above it.
clear-above :
    (i m x : ℕ)
    → m + suc i ≡ 32
    → x < 2 ^ 32
    → bit_and x (complement32 (2 ^ i)) / 2 ^ suc i ≡ x / 2 ^ suc i
clear-above i m x e fits =
    let k = suc i in
    let q = x / 2 ^ k in
    let r = x % 2 ^ k in
    let below : r < 2 ^ k = mod-lt x (omega (arith, one-le-pow k 2)) in
    let split : x ≡ q * 2 ^ k + r = grind (arith, one-le-pow k 2) in
    let whole : 2 ^ m * 2 ^ k ≡ 2 ^ 32 = sym (pow_add m k) ∙ ap (λ n. 2 ^ n) e in
    let small : q < 2 ^ m = lt_of_mul-lt-mul_right (2 ^ k) (omega (arith, split, whole)) in
    let upper : bit_and q (low_mask m) ≡ q = bit_and_mask m q ∙ mod-eq_of_lt small in
    let low : bit_and r (2 ^ i - 1) < 2 ^ k = bit_and_fits k r (2 ^ i - 1) below in
    let both =
      bit_and_split k q (low_mask m) r (2 ^ i - 1) below
        (omega (arith, pow-suc 2 i, one-le-pow i 2)) in
    let same : bit_and x (complement32 (2 ^ i)) ≡ q * 2 ^ k + bit_and r (2 ^ i - 1) =
      ap (λ y. bit_and y (complement32 (2 ^ i))) split
      ∙ ap (λ y. bit_and (q * 2 ^ k + r) y) (complement-fields i m e)
      ∙ both
      ∙ ap (λ y. y * 2 ^ k + bit_and r (2 ^ i - 1)) upper in
    rw same (
      mul-add-div_right (omega (arith, one-le-pow k 2)) q (bit_and r (2 ^ i - 1))
      ∙ omega (arith, div-eq_of_lt low))

abbrev registered : Option ℕ → Bool
registered none = false
registered (some f) = true

-- The lines from `i` on whose digit of `y`, counted from the lowest, is set and that have a handler.
unfoldable pub due : (ℕ → Handler) → ℕ → ℕ → ℕ → List ℕ
due vec zero i y = []
due vec (suc rounds) i y =
    let rest = due vec rounds (i + 1) (y / 2) in
    if y % 2 == 1 && registered (vec i).r then i ∷ rest else rest

due-zero : (vec : ℕ → Handler) (rounds i : ℕ) → due vec rounds i 0 ≡ []
unfolding due
due-zero vec zero i = refl
due-zero vec (suc rounds) i = due-zero vec rounds (i + 1)

-- A line's bit is a digit of the word.
line-digit : (i x : ℕ) → (bit_and x (2 ^ i) == 0) ≡ not (x / 2 ^ i % 2 == 1)
line-digit i x = elim (Bool-cases (x / 2 ^ i % 2 == 1)) [
  | inl one ↦
      let d : x / 2 ^ i % 2 ≡ 1 = ground (arith, one) in
      let e : bit_and x (2 ^ i) ≡ 2 ^ i = bit_and_digit i x ∙ ap (λ d. d * 2 ^ i) d ∙ omega arith in
      ground (arith, one, e, one-le-pow i 2)
  | inr zero_digit ↦
      let d : x / 2 ^ i % 2 ≡ 0 = ground (arith, zero_digit) in
      let e : bit_and x (2 ^ i) ≡ 0 = bit_and_digit i x ∙ ap (λ d. d * 2 ^ i) d ∙ omega arith in
      ground (arith, zero_digit, e)
]

-- The world that is left.
unfoldable pub world : {W : Type 0} → Result (ℕ × W) → Result W
world r = r >>= λ p. ok p.1

world->>= :
    {W : Type 0} (r : Result W) (rest : W → Result (ℕ × W)) (rest' : W → Result W)
    → ((w : W) → r ≡ ok w → world (rest w) ≡ rest' w)
    → world (r >>= rest) ≡ (r >>= rest')
unfolding world
world->>= (ok w) rest rest' same = same w refl
world->>= (err why) rest rest' same = refl
world->>= fault rest rest' same = refl
world->>= panic rest rest' same = refl
world->>= hang rest rest' same = refl

module _ {W : Type 0} (call : ℕ → ℕ → W → Result W) (table : W → Irq) where
  unfoldable pub run : (ℕ → Handler) → List ℕ → W → Result W
  run vec [] w = ok w
  run vec (i ∷ is) w = elim (vec i).r [
    | none ↦ run vec is w
    | some f ↦ call f (vec i).a w >>= run vec is
  ]

  module _
      (keeps : (f a : ℕ) (w w' : W)
        → call f a w ≡ ok w'
        → (table w').irqvec ≡ (table w).irqvec) where
    intrs_loop-run :
        (rounds i x : ℕ) (w : W)
        → i + rounds ≡ 32
        → x < 2 ^ 32
        → world (intrs_loop call table rounds i x w)
          ≡ run (table w).irqvec (due (table w).irqvec rounds i (x / 2 ^ i)) w
    unfolding intrs_loop run due world
    intrs_loop-run zero i x w count fits = refl
    intrs_loop-run (suc rounds) i x w count fits =
        let vec = (table w).irqvec in
        let y = x / 2 ^ i in
        let next : 2 ^ i * 2 ≡ 2 ^ (i + 1) = sym (pow-suc 2 i) ∙ ap (λ n. 2 ^ n) (omega arith) in
        let half : y / 2 ≡ x / 2 ^ (i + 1) =
          div-div-eq-div-mul x (2 ^ i) 2 ∙ ap (λ d. x / d) next in
        let digit = line-digit i x in
        elim (Bool-cases (x == 0)) [
          | inl none_left ↦
              let nothing : x ≡ 0 = ground (arith, none_left) in
              let empty : y ≡ 0 =
                ap (λ n. n / 2 ^ i) nothing ∙ div-eq_of_lt (omega (arith, one-le-pow i 2)) in
              let left : world (intrs_loop call table (suc rounds) i x w) ≡ ok w =
                simp (none_left, intrs_loop) in
              left
              ∙ sym (
                  ap (λ n. run vec (due vec (suc rounds) i n) w) empty
                  ∙ ap (λ l. run vec l w) (due-zero vec (suc rounds) i))
          | inr some_left ↦ elim (Bool-cases (y % 2 == 1)) [
            | inr clear ↦
                let test : (bit_and x (2 ^ i) == 0) ≡ true = digit ∙ ap not clear in
                let steps : world (intrs_loop call table (suc rounds) i x w)
                    ≡ world (intrs_loop call table rounds (i + 1) x w) =
                  simp (some_left, test, intrs_loop) in
                let same : due vec (suc rounds) i y ≡ due vec rounds (i + 1) (x / 2 ^ (i + 1)) =
                  simp (clear, half, due) in
                steps
                ∙ intrs_loop-run rounds (i + 1) x w (omega arith) fits
                ∙ ap (λ l. run vec l w) (sym same)
            | inl set ↦
                let test : (bit_and x (2 ^ i) == 0) ≡ false = digit ∙ ap not set in
                elim (Option-cases (vec i).r) [
                  | inl nobody ↦
                      let steps : world (intrs_loop call table (suc rounds) i x w)
                          ≡ world (intrs_loop call table rounds (i + 1) x w) =
                        simp (some_left, test, nobody, intrs_loop) in
                      let same : due vec (suc rounds) i y
                          ≡ due vec rounds (i + 1) (x / 2 ^ (i + 1)) =
                        simp (set, nobody, half, due) in
                      steps
                      ∙ intrs_loop-run rounds (i + 1) x w (omega arith) fits
                      ∙ ap (λ l. run vec l w) (sym same)
                  | inr (f, has) ↦
                      let x' = bit_and x (complement32 (2 ^ i)) in
                      let rest = due vec rounds (i + 1) (x / 2 ^ (i + 1)) in
                      let steps : world (intrs_loop call table (suc rounds) i x w)
                          ≡ world (call f (vec i).a w >>= intrs_loop call table rounds (i + 1) x') =
                        simp (some_left, test, has, intrs_loop) in
                      let same : due vec (suc rounds) i y ≡ i ∷ rest = simp (set, has, half, due) in
                      let runs : run vec (i ∷ rest) w ≡ (call f (vec i).a w >>= run vec rest) =
                        simp (has, run) in
                      let above : x' / 2 ^ (i + 1) ≡ x / 2 ^ (i + 1) =
                        let e : suc i ≡ i + 1 = omega arith in
                        subst (λ k. x' / 2 ^ k ≡ x / 2 ^ k) e
                          (clear-above i (31 - i) x (omega arith) fits) in
                      let later : (w' : W)
                          → call f (vec i).a w ≡ ok w'
                          → world (intrs_loop call table rounds (i + 1) x' w') ≡ run vec rest w' =
                        λ w' ran.
                          intrs_loop-run rounds (i + 1) x' w' (omega arith)
                            (bit_and_fits 32 x (complement32 (2 ^ i)) fits)
                          ∙ ap (λ v. run v (due v rounds (i + 1) (x' / 2 ^ (i + 1))) w')
                              (keeps f (vec i).a w w' ran)
                          ∙ ap (λ n. run vec (due vec rounds (i + 1) n) w') above in
                      steps
                      ∙ world->>= (call f (vec i).a w) (intrs_loop call table rounds (i + 1) x')
                          (run vec rest) later
                      ∙ sym (ap (λ l. run vec l w) same ∙ runs)
                ]
          ]
        ]

    -- The loop of `intrs` calls the handlers of the lines whose bit of `ibits` is set, each once and
    -- in the order of the lines, each on the world that the last one left, until one fails; a line
    -- without a handler calls nothing. The handlers must not change the table of handlers.
    pub intrs_loop_lem :
        (ibits : ℕ) (w : W)
        → ibits < 2 ^ 32
        → world (intrs_loop call table 32 0 ibits w)
          ≡ run (table w).irqvec (due (table w).irqvec 32 0 ibits) w
    intrs_loop_lem ibits w fits =
        let same : ibits / 2 ^ 0 ≡ ibits = omega arith in
        intrs_loop-run 32 0 ibits w (omega arith) fits
        ∙ ap (λ n. run (table w).irqvec (due (table w).irqvec 32 0 n) w) same
