-- ===== src/Rtc/Calendar.antt =====
-- The calendar arithmetic of devrtc.c. A `ulong` has 32 bits. `none` is a read past the end of
-- the table of month lengths, or fuel that has run out.
use inferno_kirkwood.Prelude.{
  ℕ, zero, suc, ◌+◌, ◌-◌, ◌*◌, ◌/◌, ◌%◌, ◌^◌, true, false, Option, none, some, List, [], ◌∷◌, leb,
  ◌==◌, if◌then◌else◌, u32, get_or, drop,
}
use inferno_kirkwood.Rtc.Defs.{Rtc}

abbrev pub sec2min : ℕ
sec2min = 60

abbrev pub sec2hour : ℕ
sec2hour = 60 * sec2min

abbrev pub sec2day : ℕ
sec2day = 24 * sec2hour

-- days per year, and then per month
abbrev pub dmsize : List ℕ
dmsize = 365 ∷ 31 ∷ 28 ∷ 31 ∷ 30 ∷ 31 ∷ 30 ∷ 31 ∷ 31 ∷ 30 ∷ 31 ∷ 30 ∷ 31 ∷ []

abbrev pub ldmsize : List ℕ
ldmsize = 366 ∷ 31 ∷ 29 ∷ 31 ∷ 30 ∷ 31 ∷ 30 ∷ 31 ∷ 31 ∷ 30 ∷ 31 ∷ 30 ∷ 31 ∷ []

unfoldable pub yrsize : ℕ → List ℕ
yrsize yr = if yr % 4 == 0 then ldmsize else dmsize

-- `*yrsize(yr)`
unfoldable pub year_days : ℕ → ℕ
unfolding yrsize
year_days yr = get_or (yrsize yr) 0 0

-- `for(i = 1970; i < rtc->year; i++) secs += yrsize(i)[0] * SEC2DAY`, by the rounds left.
unfoldable pub add_years : ℕ → ℕ → ℕ → ℕ
add_years zero i secs = secs
add_years (suc n) i secs = add_years n (i + 1) (u32 (secs + year_days i * sec2day))

-- `for(i = 1; i < rtc->mon; i++) secs += d2m[i] * SEC2DAY`, by the rounds left and the table
-- from `d2m[i]` on.
unfoldable pub add_months : ℕ → List ℕ → ℕ → Option ℕ
add_months zero d2m secs = some secs
add_months (suc n) [] secs = none
add_months (suc n) (days ∷ d2m) secs = add_months n d2m (u32 (secs + days * sec2day))

-- The sums after the month loop; a day of the month of 0 takes a day off.
unfoldable pub add_rest : Rtc → ℕ → ℕ
add_rest rtc secs =
    let secs = u32 (secs + rtc.mday * sec2day + 2 ^ 32 - sec2day) in
    let secs = u32 (secs + rtc.hour * sec2hour) in
    let secs = u32 (secs + rtc.min * sec2min) in u32 (secs + rtc.sec)

unfoldable pub rtc2sec : Rtc → Option ℕ
unfolding add_years add_months add_rest yrsize year_days
rtc2sec rtc =
    let years = add_years (rtc.year - 1970) 1970 0 in
    elim (add_months (rtc.mon - 1) (drop 1 (yrsize rtc.year)) years) [
      | none ↦ none
      | some secs ↦ some (add_rest rtc secs)
    ]

-- `for(d = 1970; day >= *yrsize(d); d++) day -= *yrsize(d)`, on fuel: the year and the days left.
unfoldable pub find_year : ℕ → ℕ → ℕ → Option (ℕ × ℕ)
find_year zero d day = none
find_year (suc fuel) d day = elim (leb (year_days d) day) [
  | true ↦ find_year fuel (d + 1) (day - year_days d)
  | false ↦ some (d, day)
]

-- `for(d = 1; day >= d2m[d]; d++) day -= d2m[d]`, over the table from `d2m[d]` on.
unfoldable pub find_month : List ℕ → ℕ → ℕ → Option (ℕ × ℕ)
find_month [] d day = none
find_month (days ∷ d2m) d day = elim (leb days day) [
  | true ↦ find_month d2m (d + 1) (day - days)
  | false ↦ some (d, day)
]

-- `secs` is unsigned, so `hms` and `day` are never negative and the code for that is not reached.
-- Each round of the year loop takes at least a day off: `day + 1` rounds are enough.
unfoldable pub sec2rtc : ℕ → Option Rtc
unfolding find_year find_month yrsize year_days
sec2rtc secs =
    let hms = secs % sec2day in
    let day = secs / sec2day in
    let minutes = hms / 60 in
    elim (find_year (day + 1) 1970 day) [
      | none ↦ none
      | some (year, yday) ↦ elim (find_month (drop 1 (yrsize year)) 1 yday) [
        | none ↦ none
        | some (mon, rest) ↦ some (record {
          sec = hms % 60;
          min = minutes % 60;
          hour = minutes / 60;
          mday = rest + 1;
          mon = mon;
          year = year;
        })
      ]
    ]
