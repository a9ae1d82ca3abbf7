-- ===== src/Nand/Traffic.antt =====
-- Bytes that are moved one by one, and the waits between them.
use inferno_kirkwood.Prelude.{
  ℕ, zero, suc, ◌+◌, ◌*◌, ◌/◌, ◌%◌, ◌^◌, ◌≤◌, ◌<◌, ◌≡◌, refl, ◌∙◌, ap, arith, List, [], ◌∷◌, ◌++◌,
  bit_and, bit_or, take, drop, length, complement32, Bool-cases, inl, inr, ◌-◌,
}
use inferno_kirkwood.Prelude.Bits.{bit_and_mask, bit_or_split, bit_and_split, bit_or-zero}
use inferno_kirkwood.Nand.Chip.{
  Chip, Nand, put_all, get_all, nandunclaim, nand_act_ce_boot, poll, is_ready,
}
use inferno_kirkwood.Nand.Laws.{IsFlash}

module _ {S : Type 0} (k : Chip S) where
  open k use {cmd, addr, put, get, wait}

  pub put_all-append :
      (xs ys : List ℕ) (s : S) → put_all k (xs ++ ys) s ≡ put_all k ys (put_all k xs s)
  unfolding put_all
  put_all-append [] ys s = refl
  put_all-append (x ∷ xs) ys s = put_all-append xs ys (put x s)

  pub length-get_all : (n : ℕ) (s : S) → length (get_all k n s).0 ≡ n
  unfolding get_all
  length-get_all zero s = refl
  length-get_all (suc n) s = ap suc (length-get_all n (get s).1)

  pub take-get_all : (m t : ℕ) (s : S) → m ≤ t → take m (get_all k t s).0 ≡ (get_all k m s).0
  unfolding get_all
  take-get_all zero t s h = refl
  take-get_all (suc m) zero s h = absurd (omega arith)
  take-get_all (suc m) (suc t) s h =
      ap (λ xs. (get s).0 ∷ xs) (take-get_all m t (get s).1 (omega arith))

  pub drop-get_all :
      (m n t : ℕ) (s : S) → t ≡ m + n → drop m (get_all k t s).0 ≡ (get_all k n (get_all k m s).1).0
  unfolding get_all
  drop-get_all zero n t s e = ap (λ j. (get_all k j s).0) (omega arith)
  drop-get_all (suc m) n zero s e = absurd (omega arith)
  drop-get_all (suc m) n (suc t) s e = drop-get_all m n t (get s).1 (omega arith)

  -- The registers that the wait leaves.
  pub poll_ctl : (pause n : ℕ) (f : Nand S) → (poll k pause n f).1.ctl ≡ (nandunclaim k f).ctl
  unfolding poll
  poll_ctl pause zero f = refl
  poll_ctl pause (suc n) f = elim (Bool-cases (is_ready k (get f.chip).0)) [
    | inl ready ↦ rw ready refl
    | inr busy ↦ rw busy (poll_ctl pause n (record f { chip = wait pause (get f.chip).1 }))
  ]

  module _ {page : S → ℕ → List ℕ} (flash : IsFlash k page) where
    open flash use {get_page, wait_page}

    pub get_all_page : (n : ℕ) (s : S) (q : ℕ) → page (get_all k n s).1 q ≡ page s q
    unfolding get_all
    get_all_page zero s q = refl
    get_all_page (suc n) s q = get_all_page n (get s).1 q ∙ get_page s q

    pub poll_page :
        (pause n : ℕ) (f : Nand S) (q : ℕ) → page (poll k pause n f).1.chip q ≡ page f.chip q
    unfolding poll
    poll_page pause zero f q = refl
    poll_page pause (suc n) f q = elim (Bool-cases (is_ready k (get f.chip).0)) [
      | inl ready ↦ rw ready (get_page f.chip q)
      | inr busy ↦ rw busy (
          poll_page pause n (record f { chip = wait pause (get f.chip).1 }) q
          ∙ (wait_page (get f.chip).1 pause q ∙ get_page f.chip q))
    ]

-- The bit that claims the flash is cleared again.
pub unclaim-claim :
    (ctl : ℕ)
    → ctl / 2 % 2 ≡ 0
    → ctl < 2 ^ 32
    → bit_and (bit_or ctl nand_act_ce_boot) (complement32 nand_act_ce_boot) ≡ ctl
unclaim-claim ctl clear fits =
    let q = ctl / 4 in
    let r = ctl % 4 in
    let parts : ctl ≡ q * 2 ^ 2 + r = omega arith in
    let low : r < 2 = omega arith in
    let claimed : bit_or ctl 2 ≡ q * 2 ^ 2 + (r + 2) =
      ap (λ c. bit_or c 2) parts
      ∙ (bit_or_split 2 q 0 r 2 (omega arith) (omega arith)
          ∙ omega (arith, bit_or-zero q, or_two r low)) in
    ap (λ c. bit_and c (complement32 2)) claimed
    ∙ (bit_and_split 2 q (2 ^ 30 - 1) (r + 2) 1 (omega arith) (omega arith)
        ∙ omega (arith, bit_and_mask 30 q, and_one r low))
  where
    or_two : (r : ℕ) → r < 2 → bit_or r 2 ≡ r + 2
    or_two zero small = refl
    or_two (suc zero) small = refl
    or_two (suc (suc r)) small = absurd (omega arith)

    and_one : (r : ℕ) → r < 2 → bit_and (r + 2) 1 ≡ r
    and_one zero small = refl
    and_one (suc zero) small = refl
    and_one (suc (suc r)) small = absurd (omega arith)
