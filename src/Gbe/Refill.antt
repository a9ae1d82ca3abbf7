-- ===== src/Gbe/Refill.antt =====
-- The refill of the receive ring.
use inferno_kirkwood.Prelude.{
  ◌∷◌, drop, length, get_elem?, bit_and, ℕ, zero, suc, ◌+◌, ◌-◌, ◌%◌, ◌<◌, ◌≤◌, ◌≡◌, ◌≢◌, ◌⊎◌, inl,
  inr, refl, arith, true, false, none, some, List, [], ◌==◌, ap, sym, subst, ◌∙◌, Option-cases,
  Bool-cases, List-cases,
}
use inferno_kirkwood.Port.{ok}
use inferno_kirkwood.Gbe.Defs.{Block, Ctlr, Ether, rxblocklen}
use inferno_kirkwood.Gbe.Receive.{
  give_block, replenish_loop, rxreplenish, owned, bufsize, rcs_enableintr,
}

-- A descriptor that the controller may write through has the block of its cell.
unfoldable pub IsBacked : Ctlr → Type 0
IsBacked c =
    (i : ℕ)
    → i < 512
    → owned (c.rx i).cs ≡ true
    → (b : Block) × (c.rxb i ≡ some b) × ((c.rx i).buf ≡ b.rp)

-- Descriptor `i` is the controller's, with block `b` that is also in its cell, all of which it may
-- fill, and interrupts when it has.
pub record IsGiven (c : Ctlr) (i : ℕ) (b : Block) : Type 0 where
  pub cell : c.rxb i ≡ some b
  pub buf : (c.rx i).buf ≡ b.rp
  pub countsize : (c.rx i).countsize ≡ bufsize rxblocklen
  pub theirs : owned (c.rx i).cs ≡ true
  pub interrupts : (bit_and (c.rx i).cs rcs_enableintr == 0) ≡ false

-- The `n` cells from the tail on, which were empty, have been given to the controller with the
-- first `n` blocks of the pool in their order, up to a filled cell or as far as there are blocks, and the other descriptors and cells are as they were.
pub record IsRefilled (n : ℕ) (e e' : Ether) : Type 0 where
  pub backed : IsBacked e'.ctlr
  pub full : (e'.ctlr.rxb e'.ctlr.rxtail ≢ none) ⊎ (e'.freeblocks ≡ [])
  pub head : e'.ctlr.rxhead ≡ e.ctlr.rxhead
  pub tail : e'.ctlr.rxtail ≡ (e.ctlr.rxtail + n) % 512
  pub received : e'.received ≡ e.received
  pub empty : (k : ℕ) → k < n → e.ctlr.rxb ((e.ctlr.rxtail + k) % 512) ≡ none
  pub enough : n ≤ length e.freeblocks
  pub rest : e'.freeblocks ≡ drop n e.freeblocks
  pub given :
      (k : ℕ) (b : Block)
      → k < n
      → get_elem? e.freeblocks k ≡ some b
      → IsGiven e'.ctlr ((e.ctlr.rxtail + k) % 512) b
  pub others :
      (i : ℕ)
      → ((k : ℕ) → k < n → (e.ctlr.rxtail + k) % 512 ≢ i)
      → (e'.ctlr.rx i ≡ e.ctlr.rx i) × (e'.ctlr.rxb i ≡ e.ctlr.rxb i)

-- The cell at the tail given to the controller.
given : Block → Ether → Ether
given b e = record e { ctlr = give_block b e.ctlr }

given-IsGiven : (b : Block) (e : Ether) → IsGiven (given b e).ctlr e.ctlr.rxtail b
unfolding given give_block
given-IsGiven b e = record {
  cell = ground arith;
  buf = ground arith;
  countsize = ground arith;
  theirs = ground arith;
  interrupts = ground arith;
}

IsGiven-cong :
    {c c' : Ctlr} {i : ℕ} {b : Block}
    → c'.rx i ≡ c.rx i
    → c'.rxb i ≡ c.rxb i
    → IsGiven c i b
    → IsGiven c' i b
IsGiven-cong rx rxb g = record {
  cell = rxb ∙ g.cell;
  buf = ap (λ r. r.buf) rx ∙ g.buf;
  countsize = ap (λ r. r.countsize) rx ∙ g.countsize;
  theirs = ap (λ r. owned r.cs) rx ∙ g.theirs;
  interrupts = ap (λ r. bit_and r.cs rcs_enableintr == 0) rx ∙ g.interrupts;
}

give_block-IsBacked : (b : Block) (c : Ctlr) → IsBacked c → IsBacked (give_block b c)
unfolding IsBacked give_block
give_block-IsBacked b c backed i lt own = elim (Bool-cases (i == c.rxtail)) [
  | inl at ↦ (b, ground arith, ground arith)
  | inr off ↦ let (b', has, buf) = backed i lt (ground arith) in (b', ground arith, ground arith)
]

-- The cells behind the tail stay filled, one more of them.
give_block-behind :
    (b : Block) (c : Ctlr) (n : ℕ)
    → n < 512
    → c.rxtail < 512
    → ((j : ℕ) → 0 < j → j ≤ n → c.rxb ((c.rxtail + 512 - j) % 512) ≢ none)
    → (j : ℕ) → 0 < j
    → j ≤ n + 1
    → (give_block b c).rxb (((give_block b c).rxtail + 512 - j) % 512) ≢ none
unfolding give_block
give_block-behind b c n small tail before j pos le empty = elim (Bool-cases (j == 1)) [
  | inl one ↦
      let at : ((c.rxtail + 1) % 512 + 512 - j) % 512 ≡ c.rxtail = ground (arith, one) in
      ground (arith, empty, at)
  | inr more ↦
      let at : ((c.rxtail + 1) % 512 + 512 - j) % 512 ≡ (c.rxtail + 512 - (j - 1)) % 512 =
        ground (arith, more) in
      ground (arith, empty, at, before (j - 1))
]

module _ (b : Block) (bs : List Block) (e : Ether) (tail : e.ctlr.rxtail < 512)
    (free : e.ctlr.rxb e.ctlr.rxtail ≡ none) (split : e.freeblocks ≡ b ∷ bs) where
  abbrev next : Ether
  next = record (given b e) { freeblocks = bs }

  -- No later block is given to the cell that has just been filled.
  refilled_once :
      {n : ℕ} {e' : Ether}
      → IsRefilled n next e'
      → (k : ℕ) → k < n
      → (next.ctlr.rxtail + k) % 512 ≢ e.ctlr.rxtail
  unfolding given give_block
  refilled_once r k lt same = ground (arith, r.empty k lt, same)

  IsRefilled-given :
      {n : ℕ} {e' : Ether}
      → IsRefilled n next e'
      → (k : ℕ) (b' : Block) → k < suc n
      → get_elem? (b ∷ bs) k ≡ some b'
      → IsGiven e'.ctlr ((e.ctlr.rxtail + k) % 512) b'
  unfolding given give_block
  IsRefilled-given {n} {e'} r zero b' lt has =
      let at : (e.ctlr.rxtail + 0) % 512 ≡ e.ctlr.rxtail = omega arith in
      let (rx, rxb) = r.others e.ctlr.rxtail (refilled_once r) in
      let same : b ≡ b' = cc in
      rw at (subst (IsGiven e'.ctlr e.ctlr.rxtail) same (IsGiven-cong rx rxb (given-IsGiven b e)))
  IsRefilled-given {n} {e'} r (suc k) b' lt has =
      let at : ((e.ctlr.rxtail + 1) % 512 + k) % 512 ≡ (e.ctlr.rxtail + suc k) % 512 =
        omega arith in
      subst (λ i. IsGiven e'.ctlr i b') at (r.given k b' (omega arith) has)

  IsRefilled-empty :
      {n : ℕ} {e' : Ether}
      → IsRefilled n next e'
      → (k : ℕ) → k < suc n
      → e.ctlr.rxb ((e.ctlr.rxtail + k) % 512) ≡ none
  unfolding given give_block
  IsRefilled-empty r zero lt =
      let at : (e.ctlr.rxtail + 0) % 512 ≡ e.ctlr.rxtail = omega arith in ap e.ctlr.rxb at ∙ free
  IsRefilled-empty r (suc k) lt =
      let at : ((e.ctlr.rxtail + 1) % 512 + k) % 512 ≡ (e.ctlr.rxtail + suc k) % 512 =
        omega arith in
      ground (arith, r.empty k (omega arith), refilled_once r k (omega arith), at)

  IsRefilled-suc : {n : ℕ} {e' : Ether} → IsRefilled n next e' → IsRefilled (suc n) e e'
  unfolding given give_block
  IsRefilled-suc {n} r = record {
    backed = r.backed;
    full = r.full;
    head = r.head;
    tail = omega (arith, r.tail);
    received = r.received;
    empty = IsRefilled-empty r;
    enough =
        let count : length e.freeblocks ≡ suc (length bs) = ap length split in
        omega (arith, r.enough, count);
    rest = r.rest ∙ ap (drop (suc n)) (sym split);
    given =
        λ k b' lt has. IsRefilled-given r k b' lt (subst (λ l. get_elem? l k ≡ some b') split has);
    others = λ i off.
        let at : (e.ctlr.rxtail + 0) % 512 ≡ e.ctlr.rxtail = omega arith in
        let here : (i == e.ctlr.rxtail) ≡ false = ground (arith, at, off 0 (omega arith)) in
        let (rx, rxb) = r.others i (λ k lt same.
          let up : ((e.ctlr.rxtail + 1) % 512 + k) % 512 ≡ (e.ctlr.rxtail + suc k) % 512 =
            omega arith in
          off (suc k) (omega arith) (sym up ∙ same)) in
        (ground (arith, here, rx), ground (arith, here, rxb));
  }

IsRefilled-end :
    (e : Ether)
    → e.ctlr.rxtail < 512
    → IsBacked e.ctlr
    → (e.ctlr.rxb e.ctlr.rxtail ≢ none) ⊎ (e.freeblocks ≡ [])
    → IsRefilled 0 e e
IsRefilled-end e tail backed full = record {
  backed = backed;
  full = full;
  head = refl;
  tail = omega arith;
  received = refl;
  empty = λ k lt. absurd (omega arith);
  enough = omega arith;
  rest = refl;
  given = λ k b lt has. absurd (omega arith);
  others = λ i off. (refl, refl);
}

give_block-tail : (b : Block) (c : Ctlr) → (give_block b c).rxtail < 512
unfolding give_block
give_block-tail b c = omega arith

replenish_loop_lem :
    (fuel n : ℕ) (e : Ether)
    → n + fuel ≡ 513
    → n < 513
    → e.ctlr.rxtail < 512
    → ((j : ℕ) → 0 < j → j ≤ n → e.ctlr.rxb ((e.ctlr.rxtail + 512 - j) % 512) ≢ none)
    → IsBacked e.ctlr
    → (m : ℕ) × (e' : Ether) × (replenish_loop fuel e ≡ ok e') × IsRefilled m e e'
unfolding replenish_loop given
replenish_loop_lem zero n e sum small tail before backed = absurd (omega arith)
replenish_loop_lem (suc fuel) n e sum small tail before backed =
    elim (Option-cases (e.ctlr.rxb e.ctlr.rxtail)) [
      | inl empty ↦ elim (List-cases e.freeblocks) [
        | inl none_left ↦ (
          0,
          e,
          simp (empty, none_left, replenish_loop),
          IsRefilled-end e tail backed (inr none_left),
        )
        | inr (b, bs, split) ↦
            let at : (e.ctlr.rxtail + 512 - 512) % 512 ≡ e.ctlr.rxtail = omega arith in
            let room : n < 512 = elim (Bool-cases (n == 512)) [
              | inl round ↦
                  absurd
                    (before 512 (omega arith) (ground (arith, round)) (ap e.ctlr.rxb at ∙ empty))
              | inr short ↦ ground (arith, short)
            ] in
            let (m, e', runs, r) =
              replenish_loop_lem fuel (n + 1) (next b bs e tail empty split) (omega arith)
                (omega (arith, room)) (give_block-tail b e.ctlr)
                (give_block-behind b e.ctlr n room tail before)
                (give_block-IsBacked b e.ctlr backed) in
            (
              suc m,
              e',
              rw (empty, split, replenish_loop) runs,
              IsRefilled-suc b bs e tail empty split r,
            )
      ]
      | inr (b, has) ↦ (
        0,
        e,
        rw (has, replenish_loop) refl,
        IsRefilled-end e tail backed (inl (λ no. some_none (sym has ∙ no))),
      )
    ]
  where
    some_none : {b : Block} → some b ≡ none → ⊥
    some_none h = cc

-- The refill ends: it leaves a filled cell at the tail, or no free block.
pub rxreplenish_lem :
    (e : Ether)
    → e.ctlr.rxtail < 512
    → IsBacked e.ctlr
    → (m : ℕ) × (e' : Ether) × (rxreplenish e ≡ ok e') × IsRefilled m e e'
unfolding rxreplenish
rxreplenish_lem e tail backed =
    replenish_loop_lem 513 0 e (omega arith) (omega arith) tail (λ j pos le. absurd (omega arith))
      backed
