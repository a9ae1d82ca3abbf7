-- ===== src/Gbe/Sending.antt =====
-- What `transmit` frees and what it queues.
use inferno_kirkwood.Prelude.{
  ℕ, zero, suc, ◌+◌, ◌%◌, ◌<◌, ◌≤◌, ◌≡◌, ◌≢◌, inl, inr, refl, arith, true, false, not, Option, none,
  some, List, [], ◌∷◌, ◌++◌, ◌==◌, ◌||◌, update, Option-cases, sym, ap, ◌∙◌, subst,
}
use mathlib.Core.List.{append_assoc, append-nil}
use inferno_kirkwood.Port.{ok}
use inferno_kirkwood.Gbe.Defs.{Block, Ctlr, Ether}
use inferno_kirkwood.Gbe.Transmit.{tx_owned, free_sent, reclaim_loop}

-- The blocks of `n` cells from cell `i` on.
unfoldable pub blocks : ℕ → ℕ → (ℕ → Option Block) → List Block
blocks zero i txb = []
blocks (suc n) i txb = elim (txb i) [
  | none ↦ blocks n ((i + 1) % 512) txb
  | some b ↦ b ∷ blocks n ((i + 1) % 512) txb
]

-- The `n` descriptors from the tail on belong to the controller and have their packets.
pub record IsSending (n : ℕ) (c : Ctlr) : Type 0 where
  pub theirs : (k : ℕ) → k < n → tx_owned (c.tx ((c.txtail + k) % 512)).cs ≡ true
  pub filled : (k : ℕ) → k < n → c.txb ((c.txtail + k) % 512) ≢ none
  pub before : (k : ℕ) → k < n → (c.txtail + k) % 512 ≢ c.txhead

-- The first loop has freed the packets of `n` descriptors.
pub record IsReclaimed (n : ℕ) (e e' : Ether) : Type 0 where
  pub tx : (i : ℕ) → e'.ctlr.tx i ≡ e.ctlr.tx i
  pub head : e'.ctlr.txhead ≡ e.ctlr.txhead
  pub tail : e'.ctlr.txtail ≡ (e.ctlr.txtail + n) % 512
  pub freed : e'.freed ≡ e.freed ++ blocks n e.ctlr.txtail e.ctlr.txb
  pub oq : e'.oq ≡ e.oq
  pub minmtu : e'.minmtu ≡ e.minmtu
  pub maxmtu : e'.maxmtu ≡ e.maxmtu

blocks-cong :
    (n i : ℕ) (txb txb' : ℕ → Option Block)
    → i < 512
    → ((k : ℕ) → k < n → txb ((i + k) % 512) ≡ txb' ((i + k) % 512))
    → blocks n i txb ≡ blocks n i txb'
unfolding blocks
blocks-cong zero i txb txb' small same = refl
blocks-cong (suc n) i txb txb' small same =
    let at : (i + 0) % 512 ≡ i = omega arith in
    let cell : txb i ≡ txb' i = subst (λ j. txb j ≡ txb' j) at (same 0 (omega arith)) in
    let rest = blocks-cong n ((i + 1) % 512) txb txb' (omega arith) (λ k lt.
      let at' : ((i + 1) % 512 + k) % 512 ≡ (i + suc k) % 512 = omega arith in
      subst (λ j. txb j ≡ txb' j) (sym at') (same (suc k) (omega arith))) in
    ground (arith, cell, rest)

free_sent-IsSending :
    {n : ℕ} (b : Block) (e : Ether)
    → suc n ≤ 512
    → e.ctlr.txtail < 512
    → IsSending (suc n) e.ctlr
    → IsSending n (free_sent b e).ctlr
unfolding free_sent
free_sent-IsSending {n} b e small tail s = record {
  theirs = λ k lt.
      let at : ((e.ctlr.txtail + 1) % 512 + k) % 512 ≡ (e.ctlr.txtail + suc k) % 512 =
        omega arith in
      ground (arith, at, s.theirs (suc k) (omega arith));
  filled = λ k lt empty.
      let at : ((e.ctlr.txtail + 1) % 512 + k) % 512 ≡ (e.ctlr.txtail + suc k) % 512 =
        omega arith in
      let other : ((e.ctlr.txtail + suc k) % 512 == e.ctlr.txtail) ≡ false = ground arith in
      s.filled (suc k) (omega arith) (ground (arith, other, at, empty));
  before = λ k lt met.
      let at : ((e.ctlr.txtail + 1) % 512 + k) % 512 ≡ (e.ctlr.txtail + suc k) % 512 =
        omega arith in
      s.before (suc k) (omega arith) (sym at ∙ met);
}

free_sent-IsReclaimed :
    {n : ℕ} {b : Block} {e e' : Ether}
    → suc n ≤ 512
    → e.ctlr.txtail < 512
    → e.ctlr.txb e.ctlr.txtail ≡ some b
    → IsReclaimed n (free_sent b e) e'
    → IsReclaimed (suc n) e e'
unfolding free_sent blocks
free_sent-IsReclaimed {n} {b} {e} {e'} small tail has r =
    let next = (e.ctlr.txtail + 1) % 512 in
    let rest = update e.ctlr.txtail none e.ctlr.txb in
    let same = blocks-cong n next rest e.ctlr.txb (omega arith) (λ k lt.
      let other : ((next + k) % 512 == e.ctlr.txtail) ≡ false = ground arith in
      ground (arith, other)) in
    let all : blocks (suc n) e.ctlr.txtail e.ctlr.txb ≡ b ∷ blocks n next e.ctlr.txb =
      simp (has, blocks) in
    record {
      tx = r.tx;
      head = r.head;
      tail = omega (arith, r.tail);
      freed =
          r.freed
          ∙ append_assoc e.freed (b ∷ []) (blocks n next rest)
          ∙ ap (λ l. e.freed ++ b ∷ l) same
          ∙ ap (λ l. e.freed ++ l) (sym all);
      oq = r.oq;
      minmtu = r.minmtu;
      maxmtu = r.maxmtu;
    }

-- Where the loop ends.
abbrev pub IsEnd : ℕ → Ctlr → Type 0
IsEnd n c = let i = (c.txtail + n) % 512 in (i == c.txhead || not (tx_owned (c.tx i).cs)) ≡ true

free_sent-IsEnd :
    (n : ℕ) (b : Block) (e : Ether) → IsEnd (suc n) e.ctlr → IsEnd n (free_sent b e).ctlr
unfolding free_sent
free_sent-IsEnd n b e stop =
    let at : ((e.ctlr.txtail + 1) % 512 + n) % 512 ≡ (e.ctlr.txtail + suc n) % 512 = omega arith in
    subst (λ i. (i == e.ctlr.txhead || not (tx_owned (e.ctlr.tx i).cs)) ≡ true) (sym at) stop

pub reclaim_loop_lem :
    (n fuel : ℕ) (e : Ether)
    → n < fuel
    → n ≤ 512
    → e.ctlr.txtail < 512
    → IsSending n e.ctlr
    → IsEnd n e.ctlr
    → (e' : Ether) × (reclaim_loop fuel e ≡ ok e') × IsReclaimed n e e'
unfolding reclaim_loop blocks free_sent
reclaim_loop_lem n zero e enough small tail s stop = absurd (omega arith)
reclaim_loop_lem zero (suc fuel) e enough small tail s stop =
    let at : (e.ctlr.txtail + 0) % 512 ≡ e.ctlr.txtail = omega arith in
    let ends = ap (λ i. i == e.ctlr.txhead || not (tx_owned (e.ctlr.tx i).cs)) (sym at) ∙ stop in
    (
      e,
      simp (ends, reclaim_loop),
      record {
        tx = λ i. refl;
        head = refl;
        tail = sym at;
        freed = sym (append-nil e.freed);
        oq = refl;
        minmtu = refl;
        maxmtu = refl;
      },
    )
reclaim_loop_lem (suc n) (suc fuel) e enough small tail s stop =
    let at : (e.ctlr.txtail + 0) % 512 ≡ e.ctlr.txtail = omega arith in
    let ahead : (e.ctlr.txtail == e.ctlr.txhead) ≡ false =
      ground (arith, at, s.before 0 (omega arith)) in
    let theirs : tx_owned (e.ctlr.tx e.ctlr.txtail).cs ≡ true =
      ground (arith, at, s.theirs 0 (omega arith)) in
    elim (Option-cases (e.ctlr.txb e.ctlr.txtail)) [
      | inl empty ↦ absurd (s.filled 0 (omega arith) (ap e.ctlr.txb at ∙ empty))
      | inr (b, has) ↦
          let e1 = free_sent b e in
          let (e', runs, r) =
            reclaim_loop_lem n fuel e1 (omega arith) (omega arith) (omega arith)
              (free_sent-IsSending b e small tail s) (free_sent-IsEnd n b e stop) in
          (
            e',
            simp (ahead, theirs, has, runs, reclaim_loop),
            free_sent-IsReclaimed small tail has r,
          )
    ]
