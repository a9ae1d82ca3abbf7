-- ===== src/Rtc/Writing.antt =====
-- What a write of the file `rtc` does, and what is read after it.
use inferno_kirkwood.Prelude.{
  ℕ, ◌≤◌, ◌≡◌, ◌+◌, ◌-◌, ◌*◌, ◌%◌, ◌^◌, ◌⊎◌, inl, inr, some, List, arith, u32, length, leb, ◌==◌,
  not, ◌||◌, Bool-cases,
}
use inferno_kirkwood.Port.{Error, ok, err}
use inferno_kirkwood.Rtc.Defs.{Rtc}
use inferno_kirkwood.Rtc.Calendar.{sec2day, sec2rtc}
use inferno_kirkwood.Rtc.Registers.{RtcReg, setrtc, rtctime}
use inferno_kirkwood.Rtc.Device.{Qid, skip_to_digit, rtcwrite}
use inferno_kirkwood.Rtc.Seconds.{sec2rtc-Converted}
use inferno_kirkwood.Rtc.Decoding.{rtctime-setrtc}

module _ (strtoul : List ℕ → ℕ) where
  abbrev pub seconds_of : List ℕ → ℕ
  seconds_of buf = u32 (strtoul (skip_to_digit buf))

  -- A write at offset 0 of at most 30 bytes takes them all and sets the registers to the date of
  -- the number in the text, whatever the text is; a write at another offset (as a 32-bit number)
  -- or of more bytes is refused and leaves the registers alone.
  pub rtcwrite_cases :
      (buf : List ℕ) (off : ℕ) (reg : RtcReg)
      → ((u32 off ≡ 0)
          × (length buf ≤ 30)
          × ((rtc : Rtc) × (sec2rtc (seconds_of buf) ≡ some rtc)
              × (rtcwrite strtoul Qid.qrtc buf off reg ≡ (ok (length buf), setrtc rtc))))
        ⊎ (((1 ≤ u32 off) ⊎ (31 ≤ length buf))
            × (rtcwrite strtoul Qid.qrtc buf off reg ≡ (err Error.bad_arg, reg)))
  unfolding rtcwrite
  rtcwrite_cases buf off reg = elim (Bool-cases (not (u32 off == 0) || leb 31 (length buf))) [
    | inl bad ↦ inr (ground arith, ground arith)
    | inr good ↦
        let c = sec2rtc-Converted (seconds_of buf) (omega arith) in
        inl (ground arith, ground arith, (c.rtc, c.converts, ground (arith, c.converts)))
  ]

  -- After a write that is taken, of a number of seconds from the year 2000 on, `rtctime` gives
  -- that number, less a second where the second is odd and less a day where the day of the month
  -- is odd.
  pub rtctime-rtcwrite :
      (buf : List ℕ) (off : ℕ) (reg : RtcReg) {rtc : Rtc}
      → u32 off ≡ 0
      → length buf ≤ 30
      → sec2rtc (seconds_of buf) ≡ some rtc
      → 2000 ≤ rtc.year
      → rtctime (rtcwrite strtoul Qid.qrtc buf off reg).1
        ≡ some (u32 (seconds_of buf + 2 ^ 32 - rtc.sec % 2 - rtc.mday % 2 * sec2day))
  unfolding rtcwrite
  rtctime-rtcwrite buf off reg {rtc} o l e low =
      ground (arith, e, rtctime-setrtc (seconds_of buf) {rtc = rtc} (omega arith) e low)
