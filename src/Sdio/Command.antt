-- ===== src/Sdio/Command.antt =====
-- kwsdio.c: a command to the card and its response.
use inferno_kirkwood.Prelude.{
  ℕ, zero, suc, ◌+◌, ◌-◌, ◌*◌, ◌^◌, Bool, true, false, not, ◌==◌, ◌||◌, bit_and, bit_or, u32, u64,
  ◌<<<◌, ◌>>>◌, low_mask, if◌then◌else◌,
}
use inferno_kirkwood.SdCard.Bits.{Words}
use inferno_kirkwood.Sdio.Host.{
  Reg, Host, Sd, sd_ok, sd_timeout, sd_cardbusy, sd_error, sd_interrupted, sd_badstatus, Resp, Card,
  Flags, tm_datawrite, tm_autocmd12, tm_xfertohost, cmd_datacrccheck, cmd_cmdcrccheck,
  cmd_cmdindexcheck, cmd_datapresent, cmd_unexpresp, hs_busy, s_cmdcomplete, s_dmaintr, s_unexpresp,
  s_error, e_cmdtimeout, sd_appcmd, sd_bad, resptypes,
}

abbrev pub ones : ℕ
ones = 2 ^ 32 - 1

abbrev pub opt : Bool → ℕ → ℕ
opt b n = if b then n else 0

-- `mode` and `cmd` of a command.
unfoldable pub mode_of : Flags → ℕ
mode_of fl =
    bit_or (bit_or (opt fl.dmad2h tm_xfertohost) (opt fl.dmah2d tm_datawrite))
      (opt fl.multi tm_autocmd12)

abbrev pub has_crc : Resp → Bool
has_crc Resp.r0 = false
has_crc Resp.r3 = false
has_crc rt = true

abbrev pub has_index : Resp → Bool
has_index Resp.r0 = false
has_index Resp.r2 = false
has_index Resp.r3 = false
has_index rt = true

unfoldable pub cmdopts_of : Resp → Flags → ℕ
cmdopts_of rt fl =
    bit_or
      (bit_or
        (bit_or (bit_or cmd_unexpresp (opt (fl.dmad2h || fl.dmah2d) cmd_datapresent))
          (opt fl.dmad2h cmd_datacrccheck))
        (opt (has_crc rt) cmd_cmdcrccheck))
      (opt (has_index rt) cmd_cmdindexcheck)

abbrev pub need_of : Flags → ℕ
need_of fl = if fl.dmad2h || fl.dmah2d then s_dmaintr else s_cmdcomplete

abbrev pub is_r1 : Resp → Bool
is_r1 Resp.r1 = true
is_r1 Resp.r1b = true
is_r1 rt = false

abbrev pub no_flags : Flags
no_flags = record { app = false; appdata = false; dmad2h = false; dmah2d = false; multi = false }

-- The two forms of a response, from the registers `resp` and `crc7`; their sums have no two bits in
-- one place.
unfoldable pub words136 : (resp : ℕ → ℕ) → (crc7 : ℕ) → Words
words136 resp crc7 = record {
  r0 = resp 0 >>> 10;
  r1 =
      bit_or
        (bit_or (bit_or (bit_or (resp 4 >>> 10) (u64 (resp 3 <<< 6))) (u64 (resp 2 <<< 22)))
          (u64 (resp 1 <<< 38)))
        (u64 (resp 0 <<< 54));
  r2 =
      bit_or
        (bit_or
          (bit_or (bit_or (u32 (crc7 <<< 1)) (bit_and (resp 7) (low_mask 14) <<< 8))
            (u64 (resp 6 <<< 22)))
          (u64 (resp 5 <<< 38)))
        (u64 (resp 4 <<< 54));
}

unfoldable pub words48 : (resp : ℕ → ℕ) → (crc7 : ℕ) → Words
words48 resp crc7 = record {
  r0 = 0;
  r1 = 0;
  r2 =
      bit_or
        (bit_or (bit_or (u32 (crc7 <<< 1)) (bit_and (resp 2) (low_mask 6) <<< 8))
          (u64 (resp 1 <<< 14)))
        (u64 (resp 0 <<< 30));
}

abbrev pub no_words : Words
no_words = record { r0 = 0; r1 = 0; r2 = 0 }

abbrev pub words_of : Resp → (resp : ℕ → ℕ) → (crc7 : ℕ) → Words
words_of Resp.r0 resp crc7 = no_words
words_of Resp.r1 resp crc7 = words48 resp crc7
words_of Resp.r1b resp crc7 = words48 resp crc7
words_of Resp.r2 resp crc7 = words136 resp crc7
words_of Resp.r3 resp crc7 = words48 resp crc7
words_of Resp.r6 resp crc7 = words48 resp crc7
words_of Resp.r7 resp crc7 = words48 resp crc7

module _ {W : Type 0} (k : Host W) where
  open k use {read, write, tsleep, sleep_done, dcwbinv}

  -- The wait for the controller and the card, `i` reads so far and `rounds` sleeps at most to come;
  -- `false` if they stay busy.
  unfoldable pub idle_loop : (rounds i : ℕ) → W → Bool × W
  idle_loop zero i w = (bit_and (read Reg.hoststate w) hs_busy == 0, w)
  idle_loop (suc rounds) i w =
      let rest = idle_loop rounds (i + 1) (tsleep (i + 1) w) in
      if bit_and (read Reg.hoststate w) hs_busy == 0 then (true, w) else rest

  -- The writes that start a command.
  unfoldable pub start_command : (cmd arg : ℕ) → Resp → Flags → W → W
  start_command cmd arg rt fl w =
      let w = write Reg.acmd12st ones (write Reg.est ones (write Reg.st ones w)) in
      let w = write Reg.arglo (bit_and arg (low_mask 16)) w in
      let w = write Reg.arghi (bit_and (arg >>> 16) (low_mask 16)) w in
      let stopped =
        write Reg.acmd12idx (bit_or 3 (12 <<< 8))
          (write Reg.acmd12arghi 0 (write Reg.acmd12arglo 0 w)) in
      let w = if fl.multi then stopped else w in
      let w = write Reg.mode (mode_of fl) w in
      let w =
        write Reg.cmd (bit_or (bit_or (u32 (cmd <<< 8)) (cmdopts_of rt fl)) (resptypes rt)) w in
      let w = write Reg.stirq (bit_or (bit_or (need_of fl) s_unexpresp) s_error) w in
      write Reg.estirq ones w

  -- The response, and what its status says.
  unfoldable pub fetch : Resp → Card → W → Sd × (Card × W)
  fetch rt c w =
      let c = record c { resp = words_of rt (λ i. read (Reg.resp i) w) (read Reg.crc7 w) } in
      let c1 = record c { status = u32 (c.resp.r2 >>> 8) } in
      if is_r1 rt
      then ((if bit_and c1.status sd_bad == 0 then sd_ok else sd_badstatus), (c1, w))
      else (sd_ok, (c, w))

  unfoldable pub finish : Resp → Flags → Card → W → Sd × (Card × W)
  finish rt fl c w =
      let c1 = record c { status = read Reg.est w } in
      let fetched = fetch rt c w in
      if not (bit_and (read Reg.st w) (bit_or s_unexpresp s_error) == 0)
      then ((if bit_and c1.status e_cmdtimeout == 0 then sd_error else sd_timeout), (c1, w))
      else (if bit_and (read Reg.st w) (need_of fl) == 0 then (sd_timeout, (c, w)) else fetched)

  -- Whether one of the bits `v` is set; if so no more interrupts are asked for.
  unfoldable pub sdiodone : (v : ℕ) → W → Bool × W
  sdiodone v w = if bit_and (read Reg.st w) v == 0 then (false, w) else (true, write Reg.stirq 0 w)

  -- The command itself. An interrupted sleep is slept again.
  unfoldable pub execute : (cmd arg : ℕ) → Resp → Flags → Card → W → Sd × (Card × W)
  execute cmd arg rt fl c w =
      let w = start_command cmd arg rt fl w in
      let (interrupted, w) = sleep_done (sdiodone (read Reg.stirq w)) w in
      let finished = finish rt fl c w in if interrupted then (sd_interrupted, (c, w)) else finished

  -- `sdcmd` without a command before it.
  unfoldable pub sdcmd_plain : (cmd arg : ℕ) → Resp → Flags → Card × W → Sd × (Card × W)
  sdcmd_plain cmd arg rt fl (c, w) =
      let (idle, w) = idle_loop 50 0 w in
      let done = execute cmd arg rt fl c w in if idle then done else (sd_cardbusy, (c, w))

  -- The card has to say that it expects an application command.
  abbrev pub expects_app : Sd × (Card × W) → Sd × (Card × W)
  expects_app (Sd.sd_ok, (c, w)) =
      ((if bit_and (c.resp.r2 >>> 8) sd_appcmd == 0 then sd_badstatus else sd_ok), (c, w))
  expects_app (s, t) = (s, t)

  -- The command that says that an application command follows, once the card is idle.
  unfoldable pub announce : Flags → Card × W → Sd × (Card × W)
  announce fl (c, w) =
      let acmd = if fl.appdata then 56 else 55 in
      expects_app (sdcmd_plain acmd (u32 (c.rca <<< 16)) Resp.r1 no_flags (c, w))

  abbrev pub after_announce : (cmd arg : ℕ) → Resp → Flags → Sd × (Card × W) → Sd × (Card × W)
  after_announce cmd arg rt fl (Sd.sd_ok, (c, w)) = execute cmd arg rt fl c w
  after_announce cmd arg rt fl (s, t) = (s, t)

  unfoldable pub sdcmd : (cmd arg : ℕ) → Resp → Flags → Card × W → Sd × (Card × W)
  sdcmd cmd arg rt fl (c, w) =
      let (idle, w1) = idle_loop 50 0 w in
      let announced = after_announce cmd arg rt fl (announce fl (c, w1)) in
      let plain = sdcmd_plain cmd arg rt fl (c, w) in
      if fl.app || fl.appdata then (if idle then announced else (sd_cardbusy, (c, w1))) else plain

  unfoldable pub sdcmddma : (cmd arg a blsz nbl : ℕ) → Resp → Flags → Card × W → Sd × (Card × W)
  sdcmddma cmd arg a blsz nbl rt fl (c, w) =
      let w = dcwbinv a (blsz * nbl) w in
      let w = write Reg.dmaaddrlo (bit_and a (low_mask 16)) w in
      let w = write Reg.dmaaddrhi (bit_and (a >>> 16) (low_mask 16)) w in
      let w = write Reg.blkcount nbl (write Reg.blksize blsz w) in sdcmd cmd arg rt fl (c, w)
