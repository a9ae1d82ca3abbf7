-- ===== src/Gbe/Receiving.antt =====
-- What an interrupt for received packets does.
use inferno_kirkwood.Prelude.{
  ◌≤◌, some, drop, length, get_elem?, ℕ, ◌+◌, ◌%◌, ◌<◌, ◌≡◌, ◌≢◌, ◌⊎◌, true, none, [], ◌++◌,
}
use inferno_kirkwood.Gbe.Defs.{Block, Ether}
use inferno_kirkwood.Gbe.Receive.{owned}
use inferno_kirkwood.Gbe.Refill.{IsBacked, IsGiven}
use inferno_kirkwood.Gbe.Round.{packets, pools}

-- What the loop leaves after `d` descriptors.
record IsReceived (d : ℕ) (e e' : Ether) : Type 0 where
  rx : (i : ℕ) → e'.ctlr.rx i ≡ e.ctlr.rx i
  rxb : (i : ℕ) → owned (e.ctlr.rx i).cs ≡ true → e'.ctlr.rxb i ≡ e.ctlr.rxb i
  taken : (k : ℕ) → k < d → e'.ctlr.rxb ((e.ctlr.rxhead + k) % 512) ≡ none
  others :
      (i : ℕ) → ((k : ℕ) → k < d → (e.ctlr.rxhead + k) % 512 ≢ i) → e'.ctlr.rxb i ≡ e.ctlr.rxb i
  head : e'.ctlr.rxhead ≡ (e.ctlr.rxhead + d) % 512
  tail : e'.ctlr.rxtail ≡ e.ctlr.rxtail
  received : e'.received ≡ e.received ++ packets d e.ctlr.rxhead e.ctlr.rx e.ctlr.rxb
  pool : e'.freeblocks ≡ pools d e.ctlr.rxhead e.ctlr.rx e.ctlr.rxb e.freeblocks

-- After `receive` has taken `d` cells from the head on: the `n` descriptors from the tail on have
-- been given to the controller, with the first blocks of the pool that the loop has left, up to a
-- filled cell or as far as there are blocks, and of the
-- others none has changed and the cells that were taken are empty.
pub record IsRenewed (d n : ℕ) (e e' : Ether) : Type 0 where
  pub tail : e'.ctlr.rxtail ≡ (e.ctlr.rxtail + n) % 512
  pub enough : n ≤ length (pools d e.ctlr.rxhead e.ctlr.rx e.ctlr.rxb e.freeblocks)
  pub rest : e'.freeblocks ≡ drop n (pools d e.ctlr.rxhead e.ctlr.rx e.ctlr.rxb e.freeblocks)
  pub given :
      (k : ℕ) (b : Block)
      → k < n
      → get_elem? (pools d e.ctlr.rxhead e.ctlr.rx e.ctlr.rxb e.freeblocks) k ≡ some b
      → IsGiven e'.ctlr ((e.ctlr.rxtail + k) % 512) b
  pub full : (e'.ctlr.rxb e'.ctlr.rxtail ≢ none) ⊎ (e'.freeblocks ≡ [])
  pub others :
      (i : ℕ) → ((k : ℕ) → k < n → (e.ctlr.rxtail + k) % 512 ≢ i) → e'.ctlr.rx i ≡ e.ctlr.rx i
  pub taken :
      (k : ℕ)
      → k < d
      → ((j : ℕ) → j < n → (e.ctlr.rxtail + j) % 512 ≢ (e.ctlr.rxhead + k) % 512)
      → e'.ctlr.rxb ((e.ctlr.rxhead + k) % 512) ≡ none
  pub untouched :
      (i : ℕ)
      → ((k : ℕ) → k < n → (e.ctlr.rxtail + k) % 512 ≢ i)
      → ((k : ℕ) → k < d → (e.ctlr.rxhead + k) % 512 ≢ i)
      → e'.ctlr.rxb i ≡ e.ctlr.rxb i
  pub backed : IsBacked e'.ctlr
