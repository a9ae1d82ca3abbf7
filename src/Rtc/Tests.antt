-- ===== src/Rtc/Tests.antt =====
-- Runs of the clock's functions, and the theorems at inputs that meet their hypotheses.
use inferno_kirkwood.Prelude.{ℕ, ◌+◌, ◌-◌, ◌*◌, ◌≡◌, refl, arith, some, List, [], ◌∷◌}
use inferno_kirkwood.Rtc.Defs.{Rtc}
use inferno_kirkwood.Rtc.Calendar.{sec2day, sec2rtc, rtc2sec}
use inferno_kirkwood.Rtc.Registers.{RtcReg, setrtc, rtctime}
use inferno_kirkwood.Rtc.Seconds.{Converted, sec2rtc-Converted}
use inferno_kirkwood.Rtc.Decoding.{rtctime-setrtc}

-- 13 March 2010, 14:15:17
abbrev spring : Rtc
spring = record { sec = 17; min = 15; hour = 14; mday = 13; mon = 3; year = 2010 }

abbrev spring_seconds : ℕ
spring_seconds = 1268489717

sec2rtc-spring : sec2rtc spring_seconds ≡ some spring
unfolding sec2rtc
sec2rtc-spring = refl

rtctime_back : rtctime (setrtc spring) ≡ some (spring_seconds - 1 - sec2day)
unfolding rtctime setrtc rtc2sec
rtctime_back = refl

-- Enough of `strtoul` for a text of digits.
abbrev decimal_from : ℕ → List ℕ → ℕ
decimal_from acc [] = acc
decimal_from acc (c ∷ cs) = decimal_from (acc * 10 + (c - b'0')) cs

abbrev line : List ℕ
line = b' ' ∷ b'1' ∷ b'2' ∷ b'6' ∷ b'8' ∷ b'4' ∷ b'8' ∷ b'9' ∷ b'7' ∷ b'1' ∷ b'7' ∷ []

abbrev stopped : RtcReg
stopped = record { time = 0; date = 0 }

sec2rtc-Converted_example : Converted spring_seconds
sec2rtc-Converted_example = sec2rtc-Converted spring_seconds (omega arith)

rtctime-setrtc_example : rtctime (setrtc spring) ≡ some (spring_seconds - 1 - sec2day)
rtctime-setrtc_example =
    rtctime-setrtc spring_seconds {rtc = spring} (omega arith) sec2rtc-spring (omega arith)
