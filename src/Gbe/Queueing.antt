-- ===== src/Gbe/Queueing.antt =====
-- The packets that `transmit` queues.
use inferno_kirkwood.Prelude.{
  bit_and, ℕ, zero, suc, ◌+◌, ◌%◌, ◌<◌, ◌≤◌, ◌≡◌, ◌≢◌, inl, inr, refl, arith, Bool, true, false,
  some, List, [], ◌∷◌, ◌++◌, ◌==◌, ◌&&◌, leb, if◌then◌else◌, u32, ◌<<<◌, length, get_elem?,
  Bool-cases, sym, ap, ◌∙◌, subst,
}
use mathlib.Core.List.{append_assoc, append-nil}
use inferno_kirkwood.Gbe.Defs.{Block, Ctlr, Ether}
use inferno_kirkwood.Gbe.Transmit.{
  tcs_first, tcs_last, tx_owned, txqenable, blen, queue_packet, queue_loop,
}

-- The packets whose length the controller takes, or those whose length it does not.
unfoldable pub sized : Bool → ℕ → ℕ → List Block → List Block
sized fits min max [] = []
sized fits min max (b ∷ l) =
    let rest = sized fits min max l in
    if leb min (blen b) && leb (blen b) max
    then (if fits then b ∷ rest else rest)
    else (if fits then rest else b ∷ rest)

-- The register that starts the controller's queue, after the packets `ps` have been queued: it is
-- written for each of them.
unfoldable pub started : List Block → ℕ → ℕ
started [] tqc = tqc
started (b ∷ ps) tqc = txqenable 0

abbrev pub fitting : Ether → List Block → List Block
fitting e = sized true e.minmtu e.maxmtu

abbrev pub unfit : Ether → List Block → List Block
unfit e = sized false e.minmtu e.maxmtu

-- Descriptor and cell `i` hold packet `b` for the controller, as its first and its last part.
pub record IsSent (c : Ctlr) (i : ℕ) (b : Block) : Type 0 where
  pub cell : c.txb i ≡ some b
  pub buf : (c.tx i).buf ≡ b.rp
  pub countchk : (c.tx i).countchk ≡ u32 (blen b <<< 16)
  pub theirs : tx_owned (c.tx i).cs ≡ true
  pub first : (bit_and (c.tx i).cs tcs_first == 0) ≡ false
  pub last : (bit_and (c.tx i).cs tcs_last == 0) ≡ false

-- No packet waits: the packets `ps` are in the ring in their order from the head on, the controller
-- has been told to start the queue if there are any, the packets `us` are freed, and the rest of
-- the ring is as it was.
pub record IsQueued (ps us : List Block) (e e' : Ether) : Type 0 where
  pub oq : e'.oq ≡ []
  pub head : e'.ctlr.txhead ≡ (e.ctlr.txhead + length ps) % 512
  pub tail : e'.ctlr.txtail ≡ e.ctlr.txtail
  pub starts : e'.ctlr.reg.tqc ≡ started ps e.ctlr.reg.tqc
  pub sent :
      (k : ℕ) (b : Block) → get_elem? ps k ≡ some b → IsSent e'.ctlr ((e.ctlr.txhead + k) % 512) b
  pub freed : e'.freed ≡ e.freed ++ us
  pub others :
      (i : ℕ)
      → ((k : ℕ) → k < length ps → (e.ctlr.txhead + k) % 512 ≢ i)
      → (e'.ctlr.tx i ≡ e.ctlr.tx i) × (e'.ctlr.txb i ≡ e.ctlr.txb i)

-- The driver has the `n` descriptors from the head on, and the one after them.
abbrev pub HasRoom : ℕ → Ctlr → Type 0
HasRoom n c = (k : ℕ) → k ≤ n → tx_owned (c.tx ((c.txhead + k) % 512)).cs ≡ false

queue_packet-HasRoom :
    (n : ℕ) (b : Block) (c : Ctlr)
    → suc n < 512
    → c.txhead < 512
    → HasRoom (suc n) c
    → HasRoom n (queue_packet b c)
unfolding queue_packet
queue_packet-HasRoom n b c small head room k le =
    let at : ((c.txhead + 1) % 512 + k) % 512 ≡ (c.txhead + suc k) % 512 = omega arith in
    let other : ((c.txhead + suc k) % 512 == c.txhead) ≡ false = ground arith in
    ground (arith, at, other, room (suc k) (omega arith))

queue_packet-IsSent : (b : Block) (c : Ctlr) → IsSent (queue_packet b c) c.txhead b
unfolding queue_packet
queue_packet-IsSent b c = record {
  cell = ground arith;
  buf = ground arith;
  countchk = ground arith;
  theirs = ground arith;
  first = ground arith;
  last = ground arith;
}

-- A packet's length fits.
abbrev fits : Ether → Block → Bool
fits e b = leb e.minmtu (blen b) && leb (blen b) e.maxmtu

started_again : (ps : List Block) → started ps (txqenable 0) ≡ txqenable 0
unfolding started
started_again [] = refl
started_again (b ∷ ps) = refl

queued : Block → Ether → Ether
queued b e = record e { ctlr = queue_packet b e.ctlr }

dropped : Block → Ether → Ether
dropped b e = record e { freed = e.freed ++ b ∷ [] }

IsSent-cong :
    {c c' : Ctlr} {i : ℕ} {b : Block}
    → c'.tx i ≡ c.tx i
    → c'.txb i ≡ c.txb i
    → IsSent c i b
    → IsSent c' i b
IsSent-cong tx txb s = record {
  cell = txb ∙ s.cell;
  buf = ap (λ t. t.buf) tx ∙ s.buf;
  countchk = ap (λ t. t.countchk) tx ∙ s.countchk;
  theirs = ap (λ t. tx_owned t.cs) tx ∙ s.theirs;
  first = ap (λ t. bit_and t.cs tcs_first == 0) tx ∙ s.first;
  last = ap (λ t. bit_and t.cs tcs_last == 0) tx ∙ s.last;
}

IsQueued-IsSent :
    (b : Block) (e : Ether) {ps us : List Block} {e' : Ether}
    → length ps < 511
    → e.ctlr.txhead < 512
    → IsQueued ps us (queued b e) e'
    → (k : ℕ) (b' : Block) → get_elem? (b ∷ ps) k ≡ some b'
    → IsSent e'.ctlr ((e.ctlr.txhead + k) % 512) b'
unfolding queued queue_packet
IsQueued-IsSent b e {ps} {us} {e'} small head q zero b' has =
    let h = e.ctlr.txhead in
    let at : (h + 0) % 512 ≡ h = omega arith in
    let (tx, txb) =
      q.others h (λ k lt. let off : ((h + 1) % 512 + k) % 512 ≢ h = omega arith in off) in
    let same : b ≡ b' = cc in
    rw at (subst (IsSent e'.ctlr h) same (IsSent-cong tx txb (queue_packet-IsSent b e.ctlr)))
IsQueued-IsSent b e {ps} {us} {e'} small head q (suc k) b' has =
    let at : ((e.ctlr.txhead + 1) % 512 + k) % 512 ≡ (e.ctlr.txhead + suc k) % 512 = omega arith in
    subst (λ i. IsSent e'.ctlr i b') at (q.sent k b' has)

IsQueued-queued :
    (b : Block) (e : Ether) {ps us : List Block} {e' : Ether}
    → length ps < 511
    → e.ctlr.txhead < 512
    → IsQueued ps us (queued b e) e'
    → IsQueued (b ∷ ps) us e e'
unfolding queued queue_packet started
IsQueued-queued b e {ps} small head q =
    let h = e.ctlr.txhead in
    let at : (h + 0) % 512 ≡ h = omega arith in
    record {
      oq = q.oq;
      head = omega (arith, q.head);
      tail = q.tail;
      starts = q.starts ∙ started_again ps;
      sent = IsQueued-IsSent b e small head q;
      freed = q.freed;
      others = λ i off.
          let (tx, txb) = q.others i (λ k lt same.
            let at : ((h + 1) % 512 + k) % 512 ≡ (h + suc k) % 512 = omega arith in
            off (suc k) (omega arith) (sym at ∙ same)) in
          let here : (i == h) ≡ false = ground (arith, at, off 0 (omega arith)) in
          (ground (arith, here, tx), ground (arith, here, txb));
    }

IsQueued-dropped :
    (b : Block) (e : Ether) {ps us : List Block} {e' : Ether}
    → IsQueued ps us (dropped b e) e'
    → IsQueued ps (b ∷ us) e e'
unfolding dropped
IsQueued-dropped b e {us = us} q = record {
  oq = q.oq;
  head = q.head;
  tail = q.tail;
  starts = q.starts;
  sent = q.sent;
  freed = q.freed ∙ append_assoc e.freed (b ∷ []) us;
  others = q.others;
}

pub queue_loop_lem :
    (l : List Block) (e : Ether)
    → length (fitting e l) < 512
    → e.ctlr.txhead < 512
    → HasRoom (length (fitting e l)) e.ctlr
    → IsQueued (fitting e l) (unfit e l) e (queue_loop l e)
unfolding queue_loop sized queued dropped queue_packet started
queue_loop_lem [] e small head room = record {
  oq = refl;
  head = omega arith;
  tail = refl;
  starts = refl;
  sent = λ k b has. cc;
  freed = sym (append-nil e.freed);
  others = λ i off. (refl, refl);
}
queue_loop_lem (b ∷ l) e small head room =
    let at : (e.ctlr.txhead + 0) % 512 ≡ e.ctlr.txhead = omega arith in
    let ours : tx_owned (e.ctlr.tx e.ctlr.txhead).cs ≡ false =
      ground (arith, at, room 0 (omega arith)) in
    elim (Bool-cases (leb e.minmtu (blen b) && leb (blen b) e.maxmtu)) [
      | inl fit ↦
          let all : fitting e (b ∷ l) ≡ b ∷ fitting e l = simp (fit, sized) in
          let none_unfit : unfit e (b ∷ l) ≡ unfit e l = simp (fit, sized) in
          let count : length (fitting e (b ∷ l)) ≡ suc (length (fitting e l)) = ap length all in
          let step : queue_loop (b ∷ l) e ≡ queue_loop l (queued b e) = ground (arith, ours, fit) in
          let rest = queue_loop_lem l (queued b e) (omega (arith, count)) (omega arith) (
            queue_packet-HasRoom (length (fitting e l)) b e.ctlr (omega (arith, count)) head
              (λ k le. room k (omega (arith, count)))) in
          rw (step, all, none_unfit) (IsQueued-queued b e (omega (arith, count)) head rest)
      | inr wrong ↦
          let same : fitting e (b ∷ l) ≡ fitting e l = simp (wrong, sized) in
          let all : unfit e (b ∷ l) ≡ b ∷ unfit e l = simp (wrong, sized) in
          let count : length (fitting e (b ∷ l)) ≡ length (fitting e l) = ap length same in
          let step : queue_loop (b ∷ l) e ≡ queue_loop l (dropped b e) =
            ground (arith, ours, wrong) in
          let rest =
            queue_loop_lem l (dropped b e) (omega (arith, count)) head
              (λ k le. room k (omega (arith, count))) in
          rw (step, same, all) (IsQueued-dropped b e rest)
    ]
