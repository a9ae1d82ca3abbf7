-- ===== src/Sdio/Triples.antt =====
-- What the steps that bring a card up leave of it, as triples of conditions before and after.
use inferno_kirkwood.Prelude.{
  ℕ, zero, suc, ◌+◌, ◌≡◌, refl, sym, ◌∙◌, subst, Bool, true, false, ◌==◌, Bool-cases, ◌*◌, inl, inr,
  if◌then◌else◌, Option, none, some, bit_and,
}
use inferno_kirkwood.Port.{Error, Result, ok, err, fault, panic, hang, on_ok}
use inferno_kirkwood.SdCard.Registers.{Cid, Csd, parsecid, parsecsd}
use inferno_kirkwood.Sdio.Host.{Host, Sd, Resp, Card, Flags}
use inferno_kirkwood.Sdio.Command.{sdcmd, no_flags}
use inferno_kirkwood.Sdio.Keeping.{sdcmd-IsSame}
use inferno_kirkwood.Sdio.Init.{
  Run, ◌then_run◌, succeed, check, change, command, sdclock, highspeed, interface_answer,
  send_interface, power_round, powered, power_value, power_up, power_failed, take_cid, take_csd,
  sized, set_speed, acmd41_arg, app_flags, pause, unless, cid_taken, csd_taken, speed_of,
  pattern_ok, voltage_ok, cmd8_arg, acmd41_voltagewindow, acmd41_ready,
}

-- What `sdioio` looks at, and the address that a selected card has.
abbrev about : Card → Bool × ℕ
about c = (c.valid, c.rca)

-- The card after a run: `Q` holds if it succeeded, and if not the card is not valid.
abbrev pub Holds : {W A : Type 0} → (Bool × ℕ → Type 0) → Result A × (Card × W) → Type 0
Holds Q (ok a, (c, w)) = Q (about c)
Holds Q (other, (c, w)) = c.valid ≡ false

module _ {W : Type 0} where
  pub record IsTriple {A : Type 0} (P : Bool × ℕ → Type 0) (m : Run W A) (Q : Bool × ℕ → Type 0)
      : Type 0 where
    pub gives : (c : Card) (w : W) → P (about c) → Holds Q (m (c, w))

  on_ok-Holds :
      {A B : Type 0} (Q R : Bool × ℕ → Type 0) (t : Result A × (Card × W)) (rest : A → Run W B)
      → ((a : A) → IsTriple Q (rest a) R)
      → Holds Q t
      → Holds R (on_ok t.0 t.1 (λ a. rest a t.1))
  on_ok-Holds Q R (ok a, (c, w)) rest h q = (h a).gives c w q
  on_ok-Holds Q R (err why, t) rest h q = q
  on_ok-Holds Q R (fault, t) rest h q = q
  on_ok-Holds Q R (panic, t) rest h q = q
  on_ok-Holds Q R (hang, t) rest h q = q

  pub then_run-IsTriple :
      {A B : Type 0} {P Q R : Bool × ℕ → Type 0} {m : Run W A} {rest : A → Run W B}
      → IsTriple P m Q
      → ((a : A) → IsTriple Q (rest a) R)
      → IsTriple P (m then_run rest) R
  then_run-IsTriple {Q = Q} {R = R} {m = m} {rest = rest} h g = record {
    gives = λ c w p. on_ok-Holds Q R (m (c, w)) rest g (h.gives c w p);
  }

-- Facts that only hold of a card which is not valid.
module _ (Q : Bool × ℕ → Type 0) (fails : (z : Bool × ℕ) → Q z → z.0 ≡ false) {W : Type 0}
    (k : Host W) where
  succeed-Holds : (s : Sd) (c : Card) (w : W) → Q (about c) → Holds Q (succeed s (c, w))
  succeed-Holds Sd.sd_ok c w q = q
  succeed-Holds Sd.sd_timeout c w q = fails (about c) q
  succeed-Holds Sd.sd_cardbusy c w q = fails (about c) q
  succeed-Holds Sd.sd_error c w q = fails (about c) q
  succeed-Holds Sd.sd_interrupted c w q = fails (about c) q
  succeed-Holds Sd.sd_badstatus c w q = fails (about c) q

  after-sdcmd :
      (cmd arg : ℕ) (rt : Resp) (fl : Flags) (c : Card) (w : W)
      → Q (about c)
      → Q (about (sdcmd k cmd arg rt fl (c, w)).1.0)
  after-sdcmd cmd arg rt fl c w q =
      subst Q (sym ((sdcmd-IsSame about (λ c r s. refl) k cmd arg rt fl c w).same)) q

  pub command-IsTriple :
      (cmd : ℕ) (arg : Card → ℕ) (rt : Resp) (fl : Flags) → IsTriple Q (command k cmd arg rt fl) Q
  command-IsTriple cmd arg rt fl = record {
    gives = λ c w q.
        let t = sdcmd k cmd (arg c) rt fl (c, w) in
        succeed-Holds t.0 t.1.0 t.1.1 (after-sdcmd cmd (arg c) rt fl c w q);
  }

  pub check-IsTriple : (good : Card → Bool) (why : Error) → IsTriple Q (check {W = W} good why) Q
  check-IsTriple good why = record { gives = λ c w q. checked (good c) c w q }
    where
      checked :
          (b : Bool) (c : Card) (w : W)
          → Q (about c)
          → Holds {A = Unit {0}} Q ((if b then ok tt else err why), (c, w))
      checked true c w q = q
      checked false c w q = fails (about c) q

  pub change-IsTriple :
      (f : Card → Card) → ((c : Card) → about (f c) ≡ about c) → IsTriple Q (change {W = W} f) Q
  change-IsTriple f same = record { gives = λ c w q. subst Q (sym (same c)) q }

  pub sdclock-IsTriple : (v : ℕ) → IsTriple Q (sdclock k v) Q
  unfolding sdclock
  sdclock-IsTriple v = record { gives = λ c w q. q }

  pub highspeed-IsTriple : (on : Bool) → IsTriple Q (highspeed k on) Q
  highspeed-IsTriple on = record { gives = λ c w q. q }

  pause-IsTriple : (ms : ℕ) → IsTriple Q (pause k ms) Q
  pause-IsTriple ms = record { gives = λ c w q. q }

  unless-IsTriple : (b : Bool) {m : Run W Unit} → IsTriple Q m Q → IsTriple Q (unless b m) Q
  unless-IsTriple true h = record { gives = λ c w q. q }
  unless-IsTriple false h = record { gives = λ c w q. h.gives c w q }

  interface_answer-Holds :
      (s : Sd) (c : Card) (w : W) → Q (about c) → Holds Q (interface_answer k s (c, w))
  interface_answer-Holds Sd.sd_ok c w q =
      (then_run-IsTriple
          (then_run-IsTriple (change-IsTriple (λ c. record c { sd2 = true }) (λ c. refl))
            (λ done. check-IsTriple (pattern_ok k) Error.check_pattern))
          (λ done. check-IsTriple (voltage_ok k) Error.voltage)).gives
        c w q
  interface_answer-Holds Sd.sd_timeout c w q =
      (command-IsTriple 0 (λ c. 0) Resp.r0 no_flags).gives c w q
  interface_answer-Holds Sd.sd_error c w q =
      (command-IsTriple 0 (λ c. 0) Resp.r0 no_flags).gives c w q
  interface_answer-Holds Sd.sd_cardbusy c w q = fails (about c) q
  interface_answer-Holds Sd.sd_interrupted c w q = fails (about c) q
  interface_answer-Holds Sd.sd_badstatus c w q = fails (about c) q

  pub send_interface-IsTriple : IsTriple Q (send_interface k) Q
  unfolding send_interface
  send_interface-IsTriple = record {
    gives = λ c w q.
        let t = sdcmd k 8 cmd8_arg Resp.r7 no_flags (c, w) in
        interface_answer-Holds t.0 t.1.0 t.1.1 (after-sdcmd 8 cmd8_arg Resp.r7 no_flags c w q);
  }

  power_failed_valid : (c : Card) → (power_failed k Sd.sd_timeout c).valid ≡ c.valid
  power_failed_valid c = elim (Bool-cases c.sd2) [ inl two ↦ rw two refl | inr one ↦ rw one refl ]

  powered-Holds : (t : Sd × (Card × W)) → Q (about t.1.0) → Holds Q (powered k t)
  powered-Holds (Sd.sd_ok, (c, w)) q =
      let v = power_value k c in
      elim (Bool-cases (bit_and v acmd41_voltagewindow == 0)) [
        | inl none_fits ↦ rw none_fits (fails (about c) q)
        | inr some_fit ↦ elim (Bool-cases (bit_and v acmd41_ready == 0)) [
          | inl not_yet ↦ rw (some_fit, not_yet) q
          | inr now ↦ rw (some_fit, now) q
        ]
      ]
  powered-Holds (Sd.sd_timeout, (c, w)) q = power_failed_valid c ∙ fails (about c) q
  powered-Holds (Sd.sd_cardbusy, (c, w)) q = fails (about c) q
  powered-Holds (Sd.sd_error, (c, w)) q = fails (about c) q
  powered-Holds (Sd.sd_interrupted, (c, w)) q = fails (about c) q
  powered-Holds (Sd.sd_badstatus, (c, w)) q = fails (about c) q

  power_round-IsTriple : IsTriple Q (power_round k) Q
  unfolding power_round
  power_round-IsTriple = record {
    gives = λ c w q.
        powered-Holds (sdcmd k 41 (acmd41_arg k c) Resp.r3 app_flags (c, w))
          (after-sdcmd 41 (acmd41_arg k c) Resp.r3 app_flags c w q);
  }

  pub power_up-IsTriple : (rounds i : ℕ) → IsTriple Q (power_up k rounds i) Q
  unfolding power_up
  power_up-IsTriple zero i =
      then_run-IsTriple power_round-IsTriple (λ up. check-IsTriple (λ c. up) Error.no_power_up)
  power_up-IsTriple (suc rounds) i =
      let rest = power_up-IsTriple rounds (i + 1) in
      then_run-IsTriple power_round-IsTriple
        (λ up. unless-IsTriple up (then_run-IsTriple (pause-IsTriple (i + 1)) (λ done. rest)))

  cid_taken-IsTriple : (cid : Option Cid) → IsTriple Q (cid_taken k cid) Q
  cid_taken-IsTriple none = record { gives = λ c w q. fails (about c) q }
  cid_taken-IsTriple (some cid) = record { gives = λ c w q. q }

  pub take_cid-IsTriple : IsTriple Q (take_cid k) Q
  unfolding take_cid
  take_cid-IsTriple = record { gives = λ c w q. (cid_taken-IsTriple (parsecid c.resp)).gives c w q }

  csd_taken-IsTriple : (read : Option (Csd × Bool)) → IsTriple Q (csd_taken k read) Q
  csd_taken-IsTriple none = record { gives = λ c w q. fails (about c) q }
  csd_taken-IsTriple (some (csd, true)) = record { gives = λ c w q. q }
  csd_taken-IsTriple (some (csd, false)) = record { gives = λ c w q. fails (about c) q }

  pub take_csd-IsTriple : IsTriple Q (take_csd k) Q
  unfolding take_csd
  take_csd-IsTriple = record {
    gives = λ c w q. (csd_taken-IsTriple (parsecsd c.csd c.resp)).gives c w q;
  }

  pub about-sized : (c : Card) → about (sized k c) ≡ about c
  unfolding sized
  about-sized c = elim (Bool-cases (c.csd.vers == 0)) [
    | inl old ↦ rw old refl
    | inr new ↦ rw new refl
  ]

  speed_of-IsTriple : (sdhc : Bool) → IsTriple Q (speed_of k sdhc) Q
  speed_of-IsTriple true =
      then_run-IsTriple (highspeed-IsTriple true) (λ done. sdclock-IsTriple (50 * 1000 * 1000))
  speed_of-IsTriple false = sdclock-IsTriple (25 * 1000 * 1000)

  pub set_speed-IsTriple : IsTriple Q (set_speed k) Q
  unfolding set_speed
  set_speed-IsTriple = record { gives = λ c w q. (speed_of-IsTriple c.sdhc).gives c w q }
