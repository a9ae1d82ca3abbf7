-- ===== src/Sdio/Ready.antt =====
-- When a card counts as ready.
use inferno_kirkwood.Prelude.{
  ℕ, zero, suc, ◌≡◌, ◌≢◌, refl, ◌∙◌, arith, Bool, true, false, not, ◌==◌, ◌*◌, if◌then◌else◌,
  bit_and, ◌>>>◌, low_mask,
}
use inferno_kirkwood.Port.{Error, Result, ok, err, fault, panic, hang, on_ok}
use inferno_kirkwood.Sdio.Host.{Host, Resp, Card}
use inferno_kirkwood.Sdio.Command.{no_flags}
use inferno_kirkwood.Sdio.Init.{
  Run, check, change, ask_rca, get_rca, sized, identify, select, sdinit, sdioinit0, sdiodevinit,
  app_flags, unless, unless_addressed, size_of_card, rca_arg,
}
use inferno_kirkwood.Sdio.Triples.{
  Holds, IsTriple, about-sized, change-IsTriple, check-IsTriple, command-IsTriple,
  highspeed-IsTriple, power_up-IsTriple, sdclock-IsTriple, send_interface-IsTriple,
  set_speed-IsTriple, take_cid-IsTriple, take_csd-IsTriple, then_run-IsTriple,
}

-- No card is valid.
abbrev IsInvalid : Bool × ℕ → Type 0
IsInvalid z = z.0 ≡ false

-- Nor is it yet, but it has an address.
abbrev IsAddressed : Bool × ℕ → Type 0
IsAddressed z = (z.0 ≡ false) × (z.1 ≢ 0)

abbrev pub IsReady : Bool × ℕ → Type 0
IsReady z = (z.0 ≡ true) × (z.1 ≢ 0)

module _ {W : Type 0} (k : Host W) where
  -- What is known may change while no card is valid.
  forget-IsTriple :
      (f : Card → Card)
      → ((c : Card) → (f c).valid ≡ c.valid)
      → IsTriple {W = W} IsInvalid (change f) IsInvalid
  forget-IsTriple f same = record { gives = λ c w q. same c ∙ q }

  ask_rca-IsTriple : IsTriple IsInvalid (ask_rca k) IsInvalid
  unfolding ask_rca
  ask_rca-IsTriple =
      then_run-IsTriple (command-IsTriple IsInvalid (λ z q. q) k 3 (λ c. 0) Resp.r6 no_flags)
        (λ done.
          forget-IsTriple (λ c. record c { rca = bit_and (c.resp.r2 >>> 24) (low_mask 16) })
            (λ c. refl))

  check_rca-IsTriple :
      IsTriple {W = W} IsInvalid (check (λ c. not (c.rca == 0)) Error.bad_rca) IsAddressed
  check_rca-IsTriple = record { gives = λ c w q. checked c w q (c.rca == 0) refl }
    where
      checked :
          (c : Card) (w : W)
          → c.valid ≡ false
          → (b : Bool) → (c.rca == 0) ≡ b
          → Holds {A = Unit {0}} IsAddressed ((if not b then ok tt else err Error.bad_rca), (c, w))
      checked c w q true e = q
      checked c w q false e = (q, λ z. ground (arith, e, z))

  unless_addressed-IsTriple :
      {m : Run W Unit}
      → IsTriple IsInvalid m IsAddressed
      → IsTriple IsInvalid (unless_addressed k m) IsAddressed
  unless_addressed-IsTriple {m} h = record { gives = λ c w q. chosen c w q (c.rca == 0) refl }
    where
      chosen :
          (c : Card) (w : W)
          → c.valid ≡ false
          → (b : Bool) → (c.rca == 0) ≡ b
          → Holds IsAddressed (unless (not b) m (c, w))
      chosen c w q true e = h.gives c w q
      chosen c w q false e = (q, λ z. ground (arith, e, z))

  get_rca-IsTriple : (rounds : ℕ) → IsTriple IsInvalid (get_rca k rounds) IsAddressed
  unfolding get_rca
  get_rca-IsTriple zero = then_run-IsTriple ask_rca-IsTriple (λ done. check_rca-IsTriple)
  get_rca-IsTriple (suc rounds) =
      let rest = get_rca-IsTriple rounds in
      then_run-IsTriple ask_rca-IsTriple (λ done. unless_addressed-IsTriple rest)

  identify-IsTriple : IsTriple IsInvalid (identify k) IsInvalid
  unfolding identify
  identify-IsTriple =
      then_run-IsTriple
        (then_run-IsTriple
          (then_run-IsTriple
            (then_run-IsTriple
              (then_run-IsTriple
                (then_run-IsTriple
                  (then_run-IsTriple
                    (then_run-IsTriple (highspeed-IsTriple IsInvalid (λ z q. q) k false)
                      (λ done. sdclock-IsTriple IsInvalid (λ z q. q) k (400 * 1000)))
                    (λ done. command-IsTriple IsInvalid (λ z q. q) k 0 (λ c. 0) Resp.r0 no_flags))
                  (λ done.
                    forget-IsTriple
                      (λ c. record c { mmc = false; sd2 = false; sdhc = false; rca = 0 })
                      (λ c. refl)))
                (λ done. send_interface-IsTriple IsInvalid (λ z q. q) k))
              (λ done. power_up-IsTriple IsInvalid (λ z q. q) k 100 0))
            (λ done. check-IsTriple IsInvalid (λ z q. q) k (λ c. not c.mmc) Error.mmc_card))
          (λ done. command-IsTriple IsInvalid (λ z q. q) k 2 (λ c. 0) Resp.r2 no_flags))
        (λ done. take_cid-IsTriple IsInvalid (λ z q. q) k)

  select-IsTriple : IsTriple IsInvalid (select k) IsAddressed
  unfolding select
  select-IsTriple =
      then_run-IsTriple
        (then_run-IsTriple
          (then_run-IsTriple
            (then_run-IsTriple
              (then_run-IsTriple
                (then_run-IsTriple
                  (then_run-IsTriple (get_rca-IsTriple 10) (λ done.
                    command-IsTriple IsAddressed (λ z q. q.0) k 9 (rca_arg k) Resp.r2 no_flags))
                  (λ done. take_csd-IsTriple IsAddressed (λ z q. q.0) k))
                (λ done.
                  change-IsTriple IsAddressed (λ z q. q.0) k (sized k)
                    (about-sized IsAddressed (λ z q. q.0) k)))
              (λ done. set_speed-IsTriple IsAddressed (λ z q. q.0) k))
            (λ done. command-IsTriple IsAddressed (λ z q. q.0) k 7 (rca_arg k) Resp.r1b no_flags))
          (λ done. command-IsTriple IsAddressed (λ z q. q.0) k 6 (λ c. 2) Resp.r1 app_flags))
        (λ done. command-IsTriple IsAddressed (λ z q. q.0) k 16 (λ c. 512) Resp.r1 no_flags)

  valid-IsTriple : IsTriple {W = W} IsAddressed (change (λ c. record c { valid = true })) IsReady
  valid-IsTriple = record { gives = λ c w q. (refl, q.1) }

  sdinit-IsTriple : IsTriple IsInvalid (sdinit k) IsReady
  unfolding sdinit
  sdinit-IsTriple =
      then_run-IsTriple (then_run-IsTriple identify-IsTriple (λ done. select-IsTriple))
        (λ done. valid-IsTriple)

  -- What holds of the card after `sdiodevinit`, by its result.
  abbrev pub Outcome : Result ℕ × (Card × W) → Type 0
  Outcome (ok size, (c, w)) = (c.valid ≡ true) × ((c.rca ≢ 0) × (size ≡ c.size))
  Outcome (other, (c, w)) = c.valid ≡ false

  sdinit-Outcome :
      (t : Result (Unit {0}) × (Card × W))
      → Holds IsReady t
      → Outcome (on_ok t.0 t.1 (λ done. size_of_card k t.1))
  sdinit-Outcome (ok done, (c, w)) h = (h.0, (h.1, refl))
  sdinit-Outcome (err why, t) h = h
  sdinit-Outcome (fault, t) h = h
  sdinit-Outcome (panic, t) h = h
  sdinit-Outcome (hang, t) h = h

  -- Whatever the card and the controller answer, `sdiodevinit` ends; if it succeeds the card is
  -- valid and has an address other than 0, and the size that is reported is the card's. If it raises
  -- an error the card is not valid, whatever it was before.
  pub sdiodevinit-Outcome : (c : Card) (w : W) → Outcome (sdiodevinit k (c, w))
  unfolding sdiodevinit sdioinit0
  sdiodevinit-Outcome c w =
      let t = sdioinit0 k (c, w) in
      sdinit-Outcome (sdinit k t.1) (sdinit-IsTriple.gives t.1.0 t.1.1 refl)
