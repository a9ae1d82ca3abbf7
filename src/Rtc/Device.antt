-- ===== src/Rtc/Device.antt =====
-- `rtcwrite` and `rtcread` of devrtc.c: writing the file `rtc` sets the clock, reading it shows
-- the seconds. The kernel's `strtoul` and `readnum` are not in the repository: they are
-- parameters.
use inferno_kirkwood.Prelude.{
  ℕ, ◌-◌, none, some, List, [], ◌∷◌, leb, ◌==◌, ◌&&◌, ◌||◌, not, if◌then◌else◌, u32, length,
}
use inferno_kirkwood.Port.{Error, Result, ok, err, fault}
use inferno_kirkwood.Rtc.Calendar.{sec2rtc}
use inferno_kirkwood.Rtc.Registers.{RtcReg, setrtc, rtctime}

-- the enum of the files; any other path is `other`
pub data Qid : Type 0 where
  qdir qrtc other : Qid

-- `sizeof(sbuf)`
abbrev sbuf_size : ℕ
sbuf_size = 32

-- `while(*cp){ if(*cp>='0' && *cp<='9') break; cp++; }`: the C string from `cp` on. The
-- characters are bytes, without the NUL at the end.
unfoldable pub skip_to_digit : List ℕ → List ℕ
skip_to_digit [] = []
skip_to_digit (c ∷ cs) =
    let rest = skip_to_digit cs in
    if c == 0 then [] else if leb b'0' c && leb c b'9' then c ∷ cs else rest

module _ (strtoul : List ℕ → ℕ) where
  -- The offset is cut to a `ulong` before it is tested. `n` is the number of bytes written.
  unfoldable pub rtcwrite : Qid → List ℕ → ℕ → RtcReg → Result ℕ × RtcReg
  unfolding skip_to_digit
  rtcwrite Qid.qrtc buf off reg =
      if not (u32 off == 0) || leb (sbuf_size - 1) (length buf)
      then (err Error.bad_arg, reg)
      else elim (sec2rtc (u32 (strtoul (skip_to_digit buf)))) [
        | none ↦ (fault, reg)
        | some rtc ↦ (ok (length buf), setrtc rtc)
      ]
  rtcwrite Qid.qdir buf off reg = (err Error.greg, reg)
  rtcwrite Qid.other buf off reg = (err Error.greg, reg)

module _ (devdirread : ℕ → ℕ → Result (List ℕ)) (readnum : ℕ → ℕ → ℕ → Result (List ℕ)) where
  -- `readnum(off, buf, n, rtctime(), NUMSIZE)` and `devdirread(c, buf, n, ...)`: what is read
  unfoldable pub rtcread : Qid → ℕ → ℕ → RtcReg → Result (List ℕ)
  rtcread Qid.qdir n off reg = devdirread n off
  rtcread Qid.qrtc n off reg = elim (rtctime reg) [ none ↦ fault | some t ↦ readnum off n t ]
  rtcread Qid.other n off reg = err Error.greg
