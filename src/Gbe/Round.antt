-- ===== src/Gbe/Round.antt =====
-- One round of the loop that receives packets, and what descriptors have for it.
use inferno_kirkwood.Prelude.{
  ◌∙◌, ℕ, zero, suc, ◌+◌, ◌%◌, ◌<◌, ◌≡◌, ◌≢◌, inl, inr, refl, arith, Bool, false, Option, none,
  some, List, [], ◌∷◌, ◌++◌, ◌==◌, ◌&&◌, if◌then◌else◌, update, bit_and, u32, ◌>>>◌, Bool-cases,
  subst, sym,
}
use mathlib.Core.List.{append-nil}
use inferno_kirkwood.Port.{Result, ok}
use inferno_kirkwood.Gbe.Defs.{Block, Rx, Ctlr, Ether}
use inferno_kirkwood.Gbe.Receive.{
  rcs_macerr, first_last, owned, take_block, fresh_block, rxfreeb, free_received, accept,
  receive_one,
}

-- A descriptor's packet is whole and came without an error.
abbrev pub is_whole : ℕ → Bool
is_whole cs = bit_and cs rcs_macerr == 0 && bit_and cs first_last == first_last

-- What is handed on of a descriptor and its cell: the bytes that were counted, without the padding.
abbrev pub packet : Rx → Option Block → List Block
packet r none = []
packet r (some b) =
    if is_whole r.cs
    then record b { wp = u32 (b.rp + (r.countsize >>> 16)); rp = u32 (b.rp + 2) } ∷ []
    else []

-- What is handed on of the `d` descriptors from `h` on, in their order.
unfoldable pub packets : ℕ → ℕ → (ℕ → Rx) → (ℕ → Option Block) → List Block
packets zero h rx rxb = []
packets (suc d) h rx rxb = packet (rx h) (rxb h) ++ packets d ((h + 1) % 512) rx rxb

-- The pool after that: the block of a descriptor whose packet is left out is back in it.
abbrev pub pool_after : Rx → Option Block → List Block → List Block
pool_after r none l = l
pool_after r (some b) l = if is_whole r.cs then l else fresh_block b ∷ l

-- The pool after the `d` descriptors from `h` on.
unfoldable pub pools : ℕ → ℕ → (ℕ → Rx) → (ℕ → Option Block) → List Block → List Block
pools zero h rx rxb l = l
pools (suc d) h rx rxb l = pools d ((h + 1) % 512) rx rxb (pool_after (rx h) (rxb h) l)

-- One round: the head's cell is taken and what it has is handed on.
pub record IsTaken (e e' : Ether) : Type 0 where
  pub rx : (i : ℕ) → e'.ctlr.rx i ≡ e.ctlr.rx i
  pub rxb : (i : ℕ) → e'.ctlr.rxb i ≡ update e.ctlr.rxhead none e.ctlr.rxb i
  pub head : e'.ctlr.rxhead ≡ (e.ctlr.rxhead + 1) % 512
  pub tail : e'.ctlr.rxtail ≡ e.ctlr.rxtail
  pub received :
      e'.received ≡ e.received ++ packet (e.ctlr.rx e.ctlr.rxhead) (e.ctlr.rxb e.ctlr.rxhead)
  pub pool :
      e'.freeblocks ≡ pool_after (e.ctlr.rx e.ctlr.rxhead) (e.ctlr.rxb e.ctlr.rxhead) e.freeblocks

module _ (freeb_nil : Result (Unit {0})) where
  pub receive_one_lem :
      (e : Ether) {b : Block}
      → e.ctlr.rxb e.ctlr.rxhead ≡ some b
      → (e' : Ether) × (receive_one freeb_nil e ≡ ok e') × IsTaken e e'
  unfolding receive_one free_received accept take_block rxfreeb
  receive_one_lem e {b} has =
      let r = e.ctlr.rx e.ctlr.rxhead in
      let t = record e { ctlr = take_block e.ctlr } in
      elim (Bool-cases (bit_and r.cs rcs_macerr == 0)) [
        | inl fine ↦ elim (Bool-cases (bit_and r.cs first_last == first_last)) [
          | inl whole ↦
              let p = record b { wp = u32 (b.rp + (r.countsize >>> 16)); rp = u32 (b.rp + 2) } in
              (
                record t { received = e.received ++ p ∷ [] },
                simp (has, fine, whole),
                record {
                  rx = λ i. refl;
                  rxb = λ i. refl;
                  head = refl;
                  tail = refl;
                  received = simp (has, fine, whole);
                  pool = simp (has, fine, whole);
                },
              )
          | inr part ↦
              let n = u32 (e.ctlr.nofirstlast + 1) in
              (
                rxfreeb b (record t { ctlr = record t.ctlr { nofirstlast = n } }),
                simp (has, fine, part),
                record {
                  rx = λ i. refl;
                  rxb = λ i. refl;
                  head = refl;
                  tail = refl;
                  received = simp (has, fine, part, append-nil e.received);
                  pool = simp (has, fine, part);
                },
              )
        ]
        | inr wrong ↦ (
          rxfreeb b t,
          simp (has, wrong),
          record {
            rx = λ i. refl;
            rxb = λ i. refl;
            head = refl;
            tail = refl;
            received = simp (has, wrong, append-nil e.received);
            pool = simp (has, wrong);
          },
        )
      ]

-- The `d` descriptors from the head on are the driver's, and their cells are filled.
pub record IsPending (d : ℕ) (c : Ctlr) : Type 0 where
  pub ours : (k : ℕ) → k < d → owned (c.rx ((c.rxhead + k) % 512)).cs ≡ false
  pub filled : (k : ℕ) → k < d → c.rxb ((c.rxhead + k) % 512) ≢ none

pub packets-cong :
    (d h : ℕ) (rx rx' : ℕ → Rx) (rxb rxb' : ℕ → Option Block)
    → h < 512
    → ((i : ℕ) → rx i ≡ rx' i)
    → ((k : ℕ) → k < d → rxb ((h + k) % 512) ≡ rxb' ((h + k) % 512))
    → packets d h rx rxb ≡ packets d h rx' rxb'
unfolding packets
packets-cong zero h rx rx' rxb rxb' small same sameb = refl
packets-cong (suc d) h rx rx' rxb rxb' small same sameb =
    let at : (h + 0) % 512 ≡ h = omega arith in
    let cell : rxb h ≡ rxb' h = subst (λ i. rxb i ≡ rxb' i) at (sameb 0 (omega arith)) in
    let rest = packets-cong d ((h + 1) % 512) rx rx' rxb rxb' (omega arith) same (λ k lt.
      let at' : ((h + 1) % 512 + k) % 512 ≡ (h + suc k) % 512 = omega arith in
      subst (λ i. rxb i ≡ rxb' i) (sym at') (sameb (suc k) (omega arith))) in
    ground (arith, cell, same h, rest)

pub pools-cong :
    (d h : ℕ) (rx rx' : ℕ → Rx) (rxb rxb' : ℕ → Option Block) (l : List Block)
    → h < 512
    → ((i : ℕ) → rx i ≡ rx' i)
    → ((k : ℕ) → k < d → rxb ((h + k) % 512) ≡ rxb' ((h + k) % 512))
    → pools d h rx rxb l ≡ pools d h rx' rxb' l
unfolding pools
pools-cong zero h rx rx' rxb rxb' l small same sameb = refl
pools-cong (suc d) h rx rx' rxb rxb' l small same sameb =
    let at : (h + 0) % 512 ≡ h = omega arith in
    let cell : rxb h ≡ rxb' h = subst (λ i. rxb i ≡ rxb' i) at (sameb 0 (omega arith)) in
    let rest =
      pools-cong d ((h + 1) % 512) rx rx' rxb rxb' (pool_after (rx h) (rxb h) l) (omega arith) same
        (λ k lt.
          let at' : ((h + 1) % 512 + k) % 512 ≡ (h + suc k) % 512 = omega arith in
          subst (λ i. rxb i ≡ rxb' i) (sym at') (sameb (suc k) (omega arith))) in
    rest ∙ (λ t. pools d ((h + 1) % 512) rx' rxb' (pool_after (same h t) (cell t) l))

pub IsTaken-IsPending :
    {d : ℕ} {e e' : Ether}
    → suc d < 512
    → e.ctlr.rxhead < 512
    → IsTaken e e'
    → IsPending (suc d) e.ctlr
    → IsPending d e'.ctlr
IsTaken-IsPending {d} {e} {e'} small head t p = record {
  ours = λ k lt.
      let at : (e'.ctlr.rxhead + k) % 512 ≡ (e.ctlr.rxhead + suc k) % 512 = omega (arith, t.head) in
      ground (arith, at, p.ours (suc k) (omega arith), t.rx ((e.ctlr.rxhead + suc k) % 512));
  filled = λ k lt empty.
      let i = (e.ctlr.rxhead + suc k) % 512 in
      let at : (e'.ctlr.rxhead + k) % 512 ≡ i = omega (arith, t.head) in
      let other : (i == e.ctlr.rxhead) ≡ false = ground arith in
      p.filled (suc k) (omega arith) (ground (arith, other, at, empty, t.rxb i));
}
