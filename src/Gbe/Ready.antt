-- ===== src/Gbe/Ready.antt =====
-- The receive ring when the device is attached.
use inferno_kirkwood.Prelude.{
  ℕ, zero, suc, ◌+◌, ◌<◌, ◌≤◌, ◌≡◌, ◌≢◌, ◌⊎◌, inl, inr, refl, arith, none, some, [], ◌==◌,
  Bool-cases, ap, ◌∙◌,
}
use inferno_kirkwood.Port.{ok}
use inferno_kirkwood.Gbe.Defs.{Rx, Ctlr, Ether}
use inferno_kirkwood.Gbe.Refill.{IsBacked, rxreplenish_lem}
use inferno_kirkwood.Gbe.Setup.{clear_rx, init_rx}

clear_rx-below : (at n i : ℕ) (c : Ctlr) (j : ℕ) → j < i → (clear_rx at n i c).rx j ≡ c.rx j
unfolding clear_rx
clear_rx-below at zero i c j lt = refl
clear_rx-below at (suc n) i c j lt = clear_rx-below at n (i + 1) _ j (omega arith) ∙ ground arith

clear_rx-cs :
    (at n i : ℕ) (c : Ctlr) (j : ℕ) → i ≤ j → j < i + n → ((clear_rx at n i c).rx j).cs ≡ 0
unfolding clear_rx
clear_rx-cs at zero i c j le lt = absurd (omega arith)
clear_rx-cs at (suc n) i c j le lt = elim (Bool-cases (i == j)) [
  | inl same ↦
      ap (λ r. r.cs) (clear_rx-below at n (i + 1) _ j (ground (arith, same))) ∙ ground (arith, same)
  | inr later ↦ clear_rx-cs at n (i + 1) _ j (ground (arith, later)) (omega arith)
]

-- The set-up of the receive ring ends, and leaves the head at 0. The controller owns no
-- descriptor without a block, and the ring is filled up to the tail or the pool is empty.
pub init_rx_lem :
    (at : ℕ) (mem : ℕ → Rx) (e : Ether)
    → (e' : Ether) × (init_rx (some (at, mem)) e ≡ ok e')
      × IsBacked e'.ctlr
      × (e'.ctlr.rxhead ≡ 0)
      × ((e'.ctlr.rxb e'.ctlr.rxtail ≢ none) ⊎ (e'.freeblocks ≡ []))
unfolding init_rx IsBacked
init_rx_lem at mem e =
    let clear = clear_rx at 512 0 (record e.ctlr { rx = mem }) in
    let (m, e', runs, f) =
      rxreplenish_lem (record e { ctlr = record clear { rxtail = 0; rxhead = 0 } }) (omega arith)
        (λ i lt own.
          absurd (ground (arith, own, clear_rx-cs at 512 0 (record e.ctlr { rx = mem }) i))) in
    (e', runs, f.backed, f.head, f.full)
