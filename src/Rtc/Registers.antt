-- ===== src/Rtc/Registers.antt =====
-- The time and date registers of devrtc.c: `setrtc` and `rtctime`.
use inferno_kirkwood.Prelude.{
  ℕ, suc, ◌+◌, ◌-◌, ◌*◌, ◌/◌, ◌%◌, ◌^◌, bit_and, bit_or, Option, leb, ◌==◌, if◌then◌else◌, u32,
  ◌<<<◌, ◌>>>◌,
}
use inferno_kirkwood.Rtc.Defs.{Rtc}
use inferno_kirkwood.Rtc.Calendar.{rtc2sec}

-- `RTCREG->time` and `RTCREG->date`
pub record RtcReg : Type 0 where
  pub time : ℕ
  pub date : ℕ

unfoldable pub bcd2dec : ℕ → ℕ
bcd2dec bcd = bit_and (bcd >>> 4) 0x0f * 10 + bit_and bcd 0x0f

unfoldable pub dec2bcd : ℕ → ℕ
dec2bcd dec = bit_or ((dec / 10) <<< 4) (dec % 10)

-- The bit pattern of the int `-n`.
abbrev pub negated : ℕ → ℕ
negated n = u32 (2 ^ 32 - n)

-- `dec2bcd(-n)`: C's `/` and `%` give `-(n / 10)` and `-(n % 10)`.
unfoldable pub dec2bcd_negative : ℕ → ℕ
dec2bcd_negative n = bit_or (u32 (negated (n / 10) <<< 4)) (negated (n % 10))

-- `dec2bcd(rtc->year - 2000)`
unfoldable pub year_bcd : ℕ → ℕ
unfolding dec2bcd dec2bcd_negative
year_bcd year = if leb 2000 year then dec2bcd (year - 2000) else dec2bcd_negative (2000 - year)

-- `BITS(a,b)` of mem.h
abbrev pub bits_of : ℕ → ℕ → ℕ
bits_of a b = 2 ^ suc b - 2 ^ a

abbrev pub rtc_hour_pm : ℕ
rtc_hour_pm = 2 ^ 21

abbrev pub rtc_hour12 : ℕ
rtc_hour12 = 2 ^ 22

unfoldable pub setrtc : Rtc → RtcReg
unfolding dec2bcd year_bcd
setrtc rtc = record {
  time = u32 (
      bit_or (dec2bcd (rtc.hour / 10) <<< 20) (
        bit_or (dec2bcd (rtc.hour % 10) <<< 16)
          (bit_or (dec2bcd rtc.min <<< 8) (dec2bcd rtc.sec))));
  date =
      u32 (bit_or (year_bcd rtc.year <<< 16) (bit_or (dec2bcd rtc.mon <<< 8) (dec2bcd rtc.mday)));
}

-- The hour of `rtctime`, by the mode of the clock.
unfoldable pub read_hour : ℕ → ℕ
unfolding bcd2dec
read_hour t =
    if bit_and t rtc_hour12 == 0
    then bcd2dec (bit_and (t >>> 16) (bits_of 16 21 - 1))
    else (let hour = bcd2dec (bit_and (t >>> 16) (bits_of 16 20 - 1)) in
        if bit_and t rtc_hour_pm == 0 then hour else hour + 12)

-- What `rtctime` reads out of the registers.
unfoldable pub read_rtc : RtcReg → Rtc
unfolding bcd2dec read_hour
read_rtc reg =
    let t = reg.time in
    let d = reg.date in
    record {
      sec = bcd2dec (bit_and t (bits_of 0 6 - 1));
      min = bcd2dec (bit_and (t >>> 8) (bits_of 8 14 - 1));
      hour = read_hour t;
      mday = bcd2dec (bit_and d (bits_of 0 5 - 1));
      mon = bcd2dec (bit_and (d >>> 8) (bits_of 8 12 - 1));
      year = bcd2dec (bit_and (d >>> 16) (bits_of 16 23 - 1)) + 2000;
    }

unfoldable pub rtctime : RtcReg → Option ℕ
unfolding read_rtc
rtctime reg = rtc2sec (read_rtc reg)
