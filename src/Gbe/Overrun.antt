-- ===== src/Gbe/Overrun.antt =====
-- An interrupt that comes when the controller has filled the whole ring.
use inferno_kirkwood.Prelude.{
  ℕ, zero, suc, ◌+◌, ◌%◌, ◌<◌, ◌≡◌, ◌≢◌, inl, inr, arith, true, false, none, ◌==◌, Option-cases,
  sym, ap, ◌∙◌,
}
use inferno_kirkwood.Port.{Result, fault}
use inferno_kirkwood.Gbe.Defs.{Ctlr, Ether}
use inferno_kirkwood.Gbe.Receive.{owned, accept, receive_one, receive_loop, receive}
use inferno_kirkwood.Gbe.Round.{is_whole, IsTaken, IsPending, IsTaken-IsPending, receive_one_lem}

-- Every descriptor is the driver's and holds a whole packet.
abbrev pub IsWhole : Ctlr → Type 0
IsWhole c = (i : ℕ) → i < 512 → (owned (c.rx i).cs ≡ false) × (is_whole (c.rx i).cs ≡ true)

IsTaken-IsWhole : {e e' : Ether} → IsTaken e e' → IsWhole e.ctlr → IsWhole e'.ctlr
IsTaken-IsWhole t all i lt =
    let (ours, whole) = all i lt in (ground (arith, ours, t.rx i), ground (arith, whole, t.rx i))

IsTaken-filled :
    {e e' : Ether}
    → e.ctlr.rxhead < 512
    → IsTaken e e'
    → IsWhole e.ctlr
    → ((i : ℕ) → i < 512 → e.ctlr.rxb i ≢ none)
    → IsPending 511 e'.ctlr
IsTaken-filled {e} {e'} head t all filled = record {
  ours = λ k lt. (IsTaken-IsWhole t all ((e'.ctlr.rxhead + k) % 512) (omega arith)).0;
  filled = λ k lt empty.
      let i = (e'.ctlr.rxhead + k) % 512 in
      let other : (i == e.ctlr.rxhead) ≡ false = ground (arith, t.head) in
      filled i (omega arith) (ground (arith, other, empty, t.rxb i));
}

module _ (freeb_nil : Result (Unit {0})) where
  receive_one_fault :
      (e : Ether)
      → e.ctlr.rxb e.ctlr.rxhead ≡ none
      → is_whole (e.ctlr.rx e.ctlr.rxhead).cs ≡ true
      → receive_one freeb_nil e ≡ fault
  unfolding receive_one accept
  receive_one_fault e empty whole = ground (arith, empty, whole)

  receive_loop_fault :
      (d fuel : ℕ) (e : Ether)
      → d < fuel
      → d < 512
      → e.ctlr.rxhead < 512
      → IsWhole e.ctlr
      → IsPending d e.ctlr
      → e.ctlr.rxb ((e.ctlr.rxhead + d) % 512) ≡ none
      → receive_loop freeb_nil fuel e ≡ fault
  unfolding receive_loop
  receive_loop_fault d zero e enough small head all p gap = absurd (omega arith)
  receive_loop_fault zero (suc fuel) e enough small head all p gap =
      let at : (e.ctlr.rxhead + 0) % 512 ≡ e.ctlr.rxhead = omega arith in
      let (ours, whole) = all e.ctlr.rxhead head in
      simp (ours, receive_one_fault e (sym (ap e.ctlr.rxb at) ∙ gap) whole, receive_loop)
  receive_loop_fault (suc d) (suc fuel) e enough small head all p gap =
      let at : (e.ctlr.rxhead + 0) % 512 ≡ e.ctlr.rxhead = omega arith in
      let ours = (all e.ctlr.rxhead head).0 in
      elim (Option-cases (e.ctlr.rxb e.ctlr.rxhead)) [
        | inl empty ↦ absurd (p.filled 0 (omega arith) (ap e.ctlr.rxb at ∙ empty))
        | inr (b, has) ↦
            let (e1, one, t) = receive_one_lem freeb_nil e has in
            let i = (e.ctlr.rxhead + suc d) % 512 in
            let there : (e1.ctlr.rxhead + d) % 512 ≡ i = omega (arith, t.head) in
            let faults =
              receive_loop_fault d fuel e1 (omega arith) (omega arith) (omega (arith, t.head))
                (IsTaken-IsWhole t all) (IsTaken-IsPending small head t p)
                (ground (arith, there, gap, t.rxb i)) in
            simp (ours, one, faults, receive_loop)
      ]

  -- When every descriptor of the ring holds a whole packet and every cell is filled, as after
  -- 512 packets that come before the interrupt is served, `receive` goes once around the ring
  -- and ends in an access through the first cell, which it has emptied.
  pub receive_full_ring :
      (fuel : ℕ) (e : Ether)
      → 512 < fuel
      → e.ctlr.rxhead < 512
      → IsWhole e.ctlr
      → ((i : ℕ) → i < 512 → e.ctlr.rxb i ≢ none)
      → receive freeb_nil fuel e ≡ fault
  unfolding receive receive_loop
  receive_full_ring zero e enough head all filled = absurd (omega arith)
  receive_full_ring (suc fuel) e enough head all filled =
      let ours = (all e.ctlr.rxhead head).0 in
      elim (Option-cases (e.ctlr.rxb e.ctlr.rxhead)) [
        | inl empty ↦ absurd (filled e.ctlr.rxhead head empty)
        | inr (b, has) ↦
            let (e1, one, t) = receive_one_lem freeb_nil e has in
            let back : (e1.ctlr.rxhead + 511) % 512 ≡ e.ctlr.rxhead = omega (arith, t.head) in
            let gap : e1.ctlr.rxb ((e1.ctlr.rxhead + 511) % 512) ≡ none =
              ground (arith, back, t.rxb e.ctlr.rxhead) in
            let faults =
              receive_loop_fault 511 fuel e1 (omega arith) (omega arith) (omega (arith, t.head))
                (IsTaken-IsWhole t all) (IsTaken-filled head t all filled) gap in
            simp (ours, one, faults, receive_loop)
      ]
