-- ===== src/Sdio/Init.antt =====
-- kwsdio.c: a card that is brought up, step by step.
use inferno_kirkwood.Prelude.{
  ℕ, zero, suc, ◌+◌, ◌-◌, ◌*◌, ◌/◌, ◌^◌, Bool, true, false, not, Option, none, some, ◌==◌, bit_and,
  bit_or, u32, u64, complement32, ◌<<<◌, ◌>>>◌, low_mask, if◌then◌else◌,
}
use inferno_kirkwood.Port.{Error, Result, ok, err, fault, on_ok}
use inferno_kirkwood.SdCard.Registers.{Cid, Csd, parsecid, parsecsd}
use inferno_kirkwood.Sdio.Host.{Reg, Host, Sd, Resp, Card, Flags}
use inferno_kirkwood.Sdio.Command.{no_flags, sdcmd, opt, ones}

abbrev pub app_flags : Flags
app_flags = record no_flags { app = true }

-- `CMD8voltage|CMD8pattern`, and the masks.
abbrev pub cmd8_arg : ℕ
cmd8_arg = 2 ^ 8 + 0xaa

abbrev pub cmd8_voltagemask : ℕ
cmd8_voltagemask = low_mask 4 <<< 8

-- `ACMD41voltagewindow`, `ACMD41sdhcsupported`, `ACMD41ready`
abbrev pub acmd41_voltagewindow : ℕ
acmd41_voltagewindow = low_mask 9 <<< 15

abbrev pub acmd41_sdhcsupported : ℕ
acmd41_sdhcsupported = 2 ^ 30

abbrev pub acmd41_ready : ℕ
acmd41_ready = 2 ^ 31

-- `HChighspeed`
abbrev pub hc_highspeed : ℕ
hc_highspeed = 2 ^ 10

-- What runs on the card and the world, and may raise an error.
abbrev pub Run : Type 0 → Type 0 → Type 0
Run W A = Card × W → Result A × (Card × W)

infixl 5 ◌then_run◌
abbrev pub ◌then_run◌ : {W A B : Type 0} → Run W A → (A → Run W B) → Run W B
(m then_run rest) s = let (r, s) = m s in on_ok r s (λ a. rest a s)

-- A change of what is known of the card.
abbrev pub change : {W : Type 0} → (Card → Card) → Run W Unit
change f (c, w) = (ok tt, (f c, w))

abbrev pub check : {W : Type 0} → (Card → Bool) → Error → Run W Unit
check good why (c, w) = ((if good c then ok tt else err why), (c, w))

-- The rest unless it is not wanted.
abbrev pub unless : {W : Type 0} → Bool → Run W Unit → Run W Unit
unless true rest s = (ok tt, s)
unless false rest s = rest s

-- `errorsd` unless the command has succeeded.
abbrev pub succeed : {W : Type 0} → Sd → Run W Unit
succeed Sd.sd_ok s = (ok tt, s)
succeed other s = (err Error.sd_failed, s)

module _ {W : Type 0} (k : Host W) where
  open k use {read, write, tsleep}

  abbrev pub pause : ℕ → Run W Unit
  pause ms (c, w) = (ok tt, (c, tsleep ms w))

  abbrev pub command : (cmd : ℕ) → (Card → ℕ) → Resp → Flags → Run W Unit
  command cmd arg rt fl (c, w) = let (s, t) = sdcmd k cmd (arg c) rt fl (c, w) in succeed s t

  unfoldable pub sdclock : ℕ → Run W Unit
  sdclock v (c, w) = (ok tt, (c, tsleep 10 (write Reg.clockdiv (100 * 1000 * 1000 / v - 1) w)))

  -- `hostctl` with the bit for high speed, or without.
  abbrev pub highspeed : Bool → Run W Unit
  highspeed on (c, w) =
      let old = read Reg.hostctl w in
      let new = if on then bit_or old hc_highspeed else bit_and old (complement32 hc_highspeed) in
      (ok tt, (c, write Reg.hostctl new w))

  abbrev pub pattern_ok : Card → Bool
  pattern_ok c = bit_and (c.resp.r2 >>> 8) (low_mask 8) == 0xaa

  abbrev pub voltage_ok : Card → Bool
  voltage_ok c = bit_and (c.resp.r2 >>> 8) cmd8_voltagemask == 2 ^ 8

  -- What follows command 8, which only cards of version 2 answer.
  abbrev pub interface_answer : Sd → Run W Unit
  interface_answer Sd.sd_ok s =
      (change (λ c. record c { sd2 = true })
          then_run (λ done. check pattern_ok Error.check_pattern)
          then_run (λ done. check voltage_ok Error.voltage))
        s
  interface_answer Sd.sd_timeout s = command 0 (λ c. 0) Resp.r0 no_flags s
  interface_answer Sd.sd_error s = command 0 (λ c. 0) Resp.r0 no_flags s
  interface_answer other s = (err Error.sd_failed, s)

  unfoldable pub send_interface : Run W Unit
  send_interface s = let (r, t) = sdcmd k 8 cmd8_arg Resp.r7 no_flags s in interface_answer r t

  -- The argument of command 41, and what follows when it fails.
  abbrev pub acmd41_arg : Card → ℕ
  acmd41_arg c = bit_or acmd41_voltagewindow (opt c.sd2 acmd41_sdhcsupported)

  abbrev pub power_failed : Sd → Card → Card
  power_failed Sd.sd_timeout c = if c.sd2 then c else record c { mmc = true }
  power_failed other c = c

  abbrev pub power_value : Card → ℕ
  power_value c = u32 (c.resp.r2 >>> 8)

  -- What the answer says: `true` if the card has powered up.
  abbrev pub powered : Sd × (Card × W) → Result Bool × (Card × W)
  powered (Sd.sd_ok, (c, w)) =
      let v = power_value c in
      if bit_and v acmd41_voltagewindow == 0
      then (err Error.voltage, (c, w))
      else (if bit_and v acmd41_ready == 0
          then (ok false, (c, w))
          else (ok true, (record c { sdhc = not (bit_and v acmd41_sdhcsupported == 0) }, w)))
  powered (other, (c, w)) = (err Error.sd_failed, (power_failed other c, w))

  -- A round of the loop that waits for the card to power up.
  unfoldable pub power_round : Run W Bool
  power_round (c, w) = powered (sdcmd k 41 (acmd41_arg c) Resp.r3 app_flags (c, w))

  -- `rounds` sleeps at most are to come, after `i`.
  unfoldable pub power_up : (rounds i : ℕ) → Run W Unit
  power_up zero i = power_round then_run (λ up. check (λ c. up) Error.no_power_up)
  power_up (suc rounds) i =
      let rest = power_up rounds (i + 1) in
      power_round then_run (λ up. unless up (pause (i + 1) then_run (λ done. rest)))

  -- `parsecid` into the card.
  abbrev pub cid_taken : Option Cid → Run W Unit
  cid_taken none s = (fault, s)
  cid_taken (some cid) (c, w) = (ok tt, (record c { cid = cid }, w))

  unfoldable pub take_cid : Run W Unit
  take_cid (c, w) = cid_taken (parsecid c.resp) (c, w)

  -- A question for the relative address of the card.
  unfoldable pub ask_rca : Run W Unit
  ask_rca =
      command 3 (λ c. 0) Resp.r6 no_flags
      then_run (λ done. change (λ c. record c { rca = bit_and (c.resp.r2 >>> 24) (low_mask 16) }))

  abbrev pub unless_addressed : Run W Unit → Run W Unit
  unless_addressed rest (c, w) = unless (not (c.rca == 0)) rest (c, w)

  -- It is asked for again while it is 0, `rounds` times at most.
  unfoldable pub get_rca : (rounds : ℕ) → Run W Unit
  get_rca zero = ask_rca then_run (λ done. check (λ c. not (c.rca == 0)) Error.bad_rca)
  get_rca (suc rounds) =
      let rest = get_rca rounds in ask_rca then_run (λ done. unless_addressed rest)

  -- `parsecsd` into the card.
  abbrev pub csd_taken : Option (Csd × Bool) → Run W Unit
  csd_taken none s = (fault, s)
  csd_taken (some (csd, true)) (c, w) = (ok tt, (record c { csd = csd }, w))
  csd_taken (some (csd, false)) (c, w) = (err Error.bad_csd, (record c { csd = csd }, w))

  unfoldable pub take_csd : Run W Unit
  take_csd (c, w) = csd_taken (parsecsd c.csd c.resp) (c, w)

  -- The size of the card, from its register; `1<<n` of a large `n` is left to C.
  unfoldable pub sized : Card → Card
  sized c =
      if c.csd.vers == 0
      then record c {
        bs = 1 <<< c.csd.rbl;
        size =
            u64 (u64 (u32 (c.csd.size + 1) * (1 <<< (c.csd.v0.sizemult + 2))) * (1 <<< c.csd.rbl));
      }
      else record c { bs = 512; size = u64 (u32 (c.csd.size + 1) * 512 * 1024) }

  -- The clock at 50 MHz or 25 MHz.
  abbrev pub speed_of : (sdhc : Bool) → Run W Unit
  speed_of true = highspeed true then_run (λ done. sdclock (50 * 1000 * 1000))
  speed_of false = sdclock (25 * 1000 * 1000)

  unfoldable pub set_speed : Run W Unit
  set_speed (c, w) = speed_of c.sdhc (c, w)

  abbrev pub rca_arg : Card → ℕ
  rca_arg c = u32 (c.rca <<< 16)

  -- The card is reset, and tells what it is.
  unfoldable pub identify : Run W Unit
  identify =
      highspeed false
      then_run (λ done. sdclock (400 * 1000))
      then_run (λ done. command 0 (λ c. 0) Resp.r0 no_flags)
      then_run (λ done. change (λ c. record c { mmc = false; sd2 = false; sdhc = false; rca = 0 }))
      then_run (λ done. send_interface)
      then_run (λ done. power_up 100 0)
      then_run (λ done. check (λ c. not c.mmc) Error.mmc_card)
      then_run (λ done. command 2 (λ c. 0) Resp.r2 no_flags)
      then_run (λ done. take_cid)

  -- It gets its address, and is selected.
  unfoldable pub select : Run W Unit
  select =
      get_rca 10
      then_run (λ done. command 9 rca_arg Resp.r2 no_flags)
      then_run (λ done. take_csd)
      then_run (λ done. change sized)
      then_run (λ done. set_speed)
      then_run (λ done. command 7 rca_arg Resp.r1b no_flags)
      then_run (λ done. command 6 (λ c. 2) Resp.r1 app_flags)
      then_run (λ done. command 16 (λ c. 512) Resp.r1 no_flags)

  unfoldable pub sdinit : Run W Unit
  sdinit =
      identify then_run (λ done. select) then_run (λ done. change (λ c. record c { valid = true }))

  -- The controller is reset, and no card is known.
  unfoldable pub sdioinit0 : Run W Unit
  sdioinit0 (c, w) =
      let w = k.intrdisable w in
      let w = tsleep 50 (write Reg.swreset (2 ^ 8) w) in
      let w = (sdclock (100 * 1000) (c, w)).1.1 in
      let w = write Reg.hostctl (1 + 8 + 2 ^ 9 + (low_mask 4 <<< 11) + 2 ^ 15) w in
      let w = write Reg.est ones (write Reg.st ones w) in
      let w = write Reg.estena ones (write Reg.stena (complement32 (2 ^ 4 + 2 ^ 11)) w) in
      let w = write Reg.estirq 0 (write Reg.stirq 0 w) in
      (ok tt, (record c { valid = false }, k.intrenable w))

  abbrev pub size_of_card : Run W ℕ
  size_of_card (c, w) = (ok c.size, (c, w))

  -- `sdiodevinit`: the result has the size of the card.
  unfoldable pub sdiodevinit : Run W ℕ
  sdiodevinit = sdioinit0 then_run (λ done. sdinit) then_run (λ done. size_of_card)
