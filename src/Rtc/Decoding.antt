-- ===== src/Rtc/Decoding.antt =====
-- What `rtctime` reads back from registers that `setrtc` wrote, and how it takes the clock's
-- 12-hour mode.
use inferno_kirkwood.Prelude.{
  ℕ, ◌+◌, ◌-◌, ◌*◌, ◌/◌, ◌%◌, ◌^◌, ◌≤◌, ◌<◌, ◌≡◌, ap, bit_and, some, arith, u32,
}
use inferno_kirkwood.Prelude.Bits.{
  bit_and_split, bit_and_mask, bit_and_digit, bit_and_even_mask, bit_or_fields,
}
use inferno_kirkwood.Rtc.Defs.{Rtc}
use inferno_kirkwood.Rtc.Calendar.{sec2day, add_rest, rtc2sec, sec2rtc}
use inferno_kirkwood.Rtc.Registers.{
  bcd2dec, dec2bcd, year_bcd, setrtc, read_hour, read_rtc, rtctime,
}
use inferno_kirkwood.Rtc.Seconds.{sec2rtc-Converted}

bcd2dec-eq : (bcd : ℕ) → bcd2dec bcd ≡ bcd / 16 % 16 * 10 + bcd % 16
unfolding bcd2dec
bcd2dec-eq bcd = omega (arith, bit_and_mask 4 (bcd / 16), bit_and_mask 4 bcd)

dec2bcd-eq : (dec : ℕ) → dec2bcd dec ≡ dec / 10 * 16 + dec % 10
unfolding dec2bcd
dec2bcd-eq dec = bit_or_fields 4 (dec / 10) (dec % 10) (omega arith)

-- The two BCD macros are inverse on the numbers that fit a register's byte.
pub bcd2dec-dec2bcd : (dec : ℕ) → dec < 160 → bcd2dec (dec2bcd dec) ≡ dec
bcd2dec-dec2bcd dec h = omega (arith, bcd2dec-eq (dec2bcd dec), dec2bcd-eq dec)

-- `bcd2dec` reads the low byte alone, which a mask of ones above a whole byte leaves.
bcd2dec_of_byte : (x m : ℕ) → bcd2dec (bit_and x (m * 256 + 255)) ≡ x / 16 % 16 * 10 + x % 16
bcd2dec_of_byte x m = ground (
  arith,
  bcd2dec-eq (bit_and x (m * 256 + 255)),
  bit_and_split 8 (x / 256) m (x % 256) 255,
  bit_and_mask 8 (x % 256),
)

-- A mask that lacks the lowest bit makes the number read even.
bcd2dec_of_even : (k x : ℕ) → bcd2dec (bit_and x (2 * (2 ^ k - 1))) ≡ bcd2dec (x / 2 % 2 ^ k * 2)
bcd2dec_of_even k x = ap bcd2dec (bit_and_even_mask k x)

setrtc-time :
    (rtc : Rtc)
    → rtc.hour < 24
    → rtc.min < 60
    → rtc.sec < 60
    → (setrtc rtc).time
      ≡ rtc.hour / 10 * 2 ^ 20 + rtc.hour % 10 * 2 ^ 16 + dec2bcd rtc.min * 2 ^ 8 + dec2bcd rtc.sec
unfolding setrtc
setrtc-time rtc h m s = ground (
  arith,
  dec2bcd-eq (rtc.hour / 10),
  dec2bcd-eq (rtc.hour % 10),
  dec2bcd-eq rtc.min,
  dec2bcd-eq rtc.sec,
  bit_or_fields 8 (dec2bcd rtc.min) (dec2bcd rtc.sec),
  bit_or_fields 16 (dec2bcd (rtc.hour % 10)) (dec2bcd rtc.min * 2 ^ 8 + dec2bcd rtc.sec),
  bit_or_fields 20 (dec2bcd (rtc.hour / 10))
      (dec2bcd (rtc.hour % 10) * 2 ^ 16 + (dec2bcd rtc.min * 2 ^ 8 + dec2bcd rtc.sec)),
)

setrtc-date :
    (rtc : Rtc)
    → 2000 ≤ rtc.year
    → rtc.year < 2160
    → rtc.mon ≤ 12
    → rtc.mday ≤ 31
    → (setrtc rtc).date
      ≡ dec2bcd (rtc.year - 2000) * 2 ^ 16 + dec2bcd rtc.mon * 2 ^ 8 + dec2bcd rtc.mday
unfolding setrtc
setrtc-date rtc low high m d = ground (
  arith,
  dec2bcd-eq (rtc.year - 2000),
  dec2bcd-eq rtc.mon,
  dec2bcd-eq rtc.mday,
  bit_or_fields 8 (dec2bcd rtc.mon) (dec2bcd rtc.mday),
  bit_or_fields 16 (year_bcd rtc.year) (dec2bcd rtc.mon * 2 ^ 8 + dec2bcd rtc.mday),
)

module _ (rtc : Rtc) (h : rtc.hour < 24) (m : rtc.min < 60) (s : rtc.sec < 60) where
  read-sec : (read_rtc (setrtc rtc)).sec ≡ rtc.sec - rtc.sec % 2
  unfolding read_rtc
  read-sec = omega (
    arith,
    setrtc-time rtc h m s,
    dec2bcd-eq rtc.sec,
    bcd2dec_of_even 6 (setrtc rtc).time,
    bcd2dec-eq ((setrtc rtc).time / 2 % 2 ^ 6 * 2),
  )

  read-min : (read_rtc (setrtc rtc)).min ≡ rtc.min
  unfolding read_rtc
  read-min = omega (
    arith,
    setrtc-time rtc h m s,
    dec2bcd-eq rtc.sec,
    dec2bcd-eq rtc.min,
    bcd2dec_of_byte ((setrtc rtc).time / 2 ^ 8) 0x7e,
  )

  read-hour : (read_rtc (setrtc rtc)).hour ≡ rtc.hour
  unfolding read_rtc read_hour
  read-hour = ground (
    arith,
    setrtc-time rtc h m s,
    dec2bcd-eq rtc.sec,
    dec2bcd-eq rtc.min,
    bit_and_digit 22 (setrtc rtc).time,
    bcd2dec_of_byte ((setrtc rtc).time / 2 ^ 16) 0x3eff,
  )

module _ (rtc : Rtc) (low : 2000 ≤ rtc.year) (high : rtc.year < 2160) (m : rtc.mon ≤ 12)
    (d : rtc.mday ≤ 31) where
  read-mday : (read_rtc (setrtc rtc)).mday ≡ rtc.mday - rtc.mday % 2
  unfolding read_rtc
  read-mday = omega (
    arith,
    setrtc-date rtc low high m d,
    dec2bcd-eq rtc.mday,
    bcd2dec_of_even 5 (setrtc rtc).date,
    bcd2dec-eq ((setrtc rtc).date / 2 % 2 ^ 5 * 2),
  )

  read-mon : (read_rtc (setrtc rtc)).mon ≡ rtc.mon
  unfolding read_rtc
  read-mon = omega (
    arith,
    setrtc-date rtc low high m d,
    dec2bcd-eq rtc.mday,
    dec2bcd-eq rtc.mon,
    bcd2dec_of_byte ((setrtc rtc).date / 2 ^ 8) 0x1e,
  )

  read-year : (read_rtc (setrtc rtc)).year ≡ rtc.year
  unfolding read_rtc
  read-year = omega (
    arith,
    setrtc-date rtc low high m d,
    dec2bcd-eq rtc.mday,
    dec2bcd-eq rtc.mon,
    dec2bcd-eq (rtc.year - 2000),
    bcd2dec_of_byte ((setrtc rtc).date / 2 ^ 16) 0xfeff,
  )

-- The fields that a read finds after a write: the mask of the seconds and that of the day of the
-- month lack their lowest bit.
abbrev pub evened : Rtc → Rtc
evened rtc = record rtc { sec = rtc.sec - rtc.sec % 2; mday = rtc.mday - rtc.mday % 2 }

-- After `setrtc` of a date from 2000 to 2159 and a time of day, `rtctime` reads the same month,
-- year, hour and minute, but the second and the day of the month rounded down to an even number.
pub read_rtc-setrtc :
    (rtc : Rtc)
    → rtc.hour < 24
    → rtc.min < 60
    → rtc.sec < 60
    → 2000 ≤ rtc.year
    → rtc.year < 2160
    → rtc.mon ≤ 12
    → rtc.mday ≤ 31
    → read_rtc (setrtc rtc) ≡ evened rtc
read_rtc-setrtc rtc h mi s low high mo d = cc (
  read-sec rtc h mi s,
  read-min rtc h mi s,
  read-hour rtc h mi s,
  read-mday rtc low high mo d,
  read-mon rtc low high mo d,
  read-year rtc low high mo d,
)

add_rest-evened :
    (rtc : Rtc) (n : ℕ)
    → rtc.sec < 60
    → rtc.mday ≤ 31
    → add_rest (evened rtc) n ≡ u32 (add_rest rtc n + 2 ^ 32 - rtc.sec % 2 - rtc.mday % 2 * sec2day)
unfolding add_rest
add_rest-evened rtc n s d = omega arith

-- The seconds of a time whose second and day are evened.
rtc2sec-evened :
    (rtc : Rtc) {secs : ℕ}
    → rtc.sec < 60
    → rtc.mday ≤ 31
    → rtc2sec rtc ≡ some secs
    → rtc2sec (evened rtc) ≡ some (u32 (secs + 2 ^ 32 - rtc.sec % 2 - rtc.mday % 2 * sec2day))
unfolding rtc2sec
rtc2sec-evened rtc s d e = ground (arith, e, add_rest-evened rtc)

-- For every 32-bit number of seconds from the year 2000 on, `sec2rtc` gives a time for which
-- `rtctime`, after `setrtc`, reads that number less a second where the second is odd and less a
-- day where the day of the month is odd.
pub rtctime-setrtc :
    (secs : ℕ) {rtc : Rtc}
    → secs < 2 ^ 32
    → sec2rtc secs ≡ some rtc
    → 2000 ≤ rtc.year
    → rtctime (setrtc rtc) ≡ some (u32 (secs + 2 ^ 32 - rtc.sec % 2 - rtc.mday % 2 * sec2day))
unfolding rtctime
rtctime-setrtc secs {rtc} fits e low =
    let c = sec2rtc-Converted secs fits in
    let same : c.rtc ≡ rtc = cc (c.converts, e) in
    let good = rw same at c.returns in
    rw
      (read_rtc-setrtc rtc (rw same at c.time_within.0) (rw same at c.time_within.1)
        (rw same at c.time_within.2) low (let y = rw same at c.year_within.1 in omega arith)
        (rw same at c.mon_within.1) (rw same at c.mday_within.1))
      (rtc2sec-evened rtc (rw same at c.time_within.2) (rw same at c.mday_within.1) good)

-- In the clock's 12-hour mode (`pm` 0 or 1, an hour from 1 to 12 and anything below it in the
-- register) the hour read is 40 too high in the morning, and 60 too high on top of the 12 hours
-- that are added in the afternoon: the mode and pm bits are read as a digit.
pub read_hour_12 :
    (pm hour low : ℕ)
    → pm < 2
    → 1 ≤ hour
    → hour ≤ 12
    → low < 2 ^ 16
    → read_hour (2 ^ 22 + pm * 2 ^ 21 + dec2bcd hour * 2 ^ 16 + low) ≡ hour + 40 + pm * 32
unfolding read_hour
read_hour_12 pm hour low p h1 h2 l =
    let t = 2 ^ 22 + pm * 2 ^ 21 + dec2bcd hour * 2 ^ 16 + low in
    ground (
      arith,
      dec2bcd-eq hour,
      bit_and_digit 22 t,
      bit_and_digit 21 t,
      bcd2dec_of_byte (t / 2 ^ 16) 0x1eff,
    )
