-- ===== src/Rtc/Seconds.antt =====
-- `sec2rtc` ends within its tables on every number of seconds, and `rtc2sec` undoes it.
use inferno_kirkwood.Prelude.{
  ℕ, zero, suc, ◌+◌, ◌-◌, ◌*◌, ◌/◌, ◌%◌, ◌^◌, ◌≤◌, ◌<◌, ◌≡◌, ap, ◌∙◌, inl, inr, some, List, [], ◌∷◌,
  arith, Bool-cases, leb, drop, u32, All, length, get_or, ◌==◌,
}
use inferno_kirkwood.Rtc.Defs.{Rtc}
use inferno_kirkwood.Rtc.Calendar.{
  sec2day, yrsize, year_days, add_years, add_months, add_rest, rtc2sec, find_year, find_month,
  sec2rtc,
}

-- What the year loop finds from year `i` on, `k` years later and with `rest` days left.
pub record YearFound (fuel i day k rest : ℕ) : Type 0 where
  pub found : find_year fuel i day ≡ some (i + k, rest)
  pub within : rest < year_days (i + k)
  pub shorter : k * 365 + rest ≤ day
  pub sums :
      (secs : ℕ)
      → secs + day * sec2day < 2 ^ 32
      → add_years k i secs ≡ secs + (day - rest) * sec2day

year_days_ge : (i : ℕ) → 365 ≤ year_days i
unfolding year_days
year_days_ge i = ground arith

YearFound-suc :
    {fuel i day k rest : ℕ}
    → year_days i ≤ day
    → YearFound fuel (i + 1) (day - year_days i) k rest
    → YearFound (suc fuel) i day (suc k) rest
unfolding find_year add_years
YearFound-suc {fuel} {i} {day} {k} {rest} le later = record {
  found = ground (arith, later.found);
  within = let e : i + suc k ≡ i + 1 + k = omega arith in rw e later.within;
  shorter = omega (arith, later.shorter, year_days_ge i);
  sums = λ secs fits. omega (
    arith,
    later.sums (secs + year_days i * sec2day) (omega arith),
    ap (λ (t : ℕ). add_years k (i + 1) t) (small secs fits),
    later.shorter,
  );
}
  where
    small :
        (secs : ℕ)
        → secs + day * sec2day < 2 ^ 32
        → u32 (secs + year_days i * sec2day) ≡ secs + year_days i * sec2day
    small secs fits = omega arith

-- Enough fuel ends the year loop.
pub find_year-YearFound :
    (fuel i day : ℕ) → day < fuel → (k : ℕ) × (rest : ℕ) × YearFound fuel i day k rest
find_year-YearFound zero i day h = elim h [ ]
find_year-YearFound (suc fuel) i day h = elim (Bool-cases (leb (year_days i) day)) [
  | inl le ↦
      let (k, rest, later) =
        find_year-YearFound fuel (i + 1) (day - year_days i) (ground (arith, year_days_ge i)) in
      (suc k, rest, YearFound-suc (ground arith) later)
  | inr gt ↦ (
    0,
    day,
    record {
      found = unfold find_year in ground arith;
      within = let e : i + 0 ≡ i = omega arith in rw e (ground arith);
      shorter = omega arith;
      sums = λ secs fits. unfold add_years in omega arith;
    },
  )
]

abbrev pub sum : List ℕ → ℕ
sum [] = 0
sum (x ∷ xs) = x + sum xs

-- What the month loop finds `k` entries into the table, with `rest` days left.
pub record MonthFound (d2m : List ℕ) (d day k rest : ℕ) : Type 0 where
  pub found : find_month d2m d day ≡ some (d + k, rest)
  pub small : rest < 31
  pub shorter : rest ≤ day
  pub inside : k < length d2m
  pub within : rest < get_or d2m k 0
  pub sums :
      (secs : ℕ)
      → secs + day * sec2day < 2 ^ 32
      → add_months k d2m secs ≡ some (secs + (day - rest) * sec2day)

MonthFound-suc :
    {d2m : List ℕ} {days d day k rest : ℕ}
    → days ≤ day
    → MonthFound d2m (d + 1) (day - days) k rest
    → MonthFound (days ∷ d2m) d day (suc k) rest
unfolding find_month add_months
MonthFound-suc {d2m} {days} {d} {day} {k} {rest} le later = record {
  found = ground (arith, later.found);
  small = later.small;
  shorter = omega (arith, later.shorter);
  inside = omega (arith, later.inside);
  within = later.within;
  sums = λ secs fits. ground (arith, later.sums (secs + days * sec2day), later.shorter);
}

-- A day that lies in the months of the table is found in one of them.
pub find_month-MonthFound :
    (d2m : List ℕ) (d day : ℕ)
    → All (λ days. days ≤ 31) d2m
    → day < sum d2m
    → (k : ℕ) × (rest : ℕ) × MonthFound d2m d day k rest
find_month-MonthFound [] d day h lt = elim lt [ ]
find_month-MonthFound (days ∷ d2m) d day h lt = elim (Bool-cases (leb days day)) [
  | inl le ↦
      let (k, rest, later) = find_month-MonthFound d2m (d + 1) (day - days) h.1 (ground arith) in
      (suc k, rest, MonthFound-suc (ground arith) later)
  | inr gt ↦ (
    0,
    day,
    record {
      found = unfold find_month in ground arith;
      small = ground (arith, h.0);
      shorter = omega arith;
      inside = omega arith;
      within = ground arith;
      sums = λ secs fits. unfold add_months in ground arith;
    },
  )
]

-- The months of a year have its days, and at most 31 each.
pub sum-yrsize :
    (yr : ℕ)
    → (sum (drop 1 (yrsize yr)) ≡ year_days yr)
      × All (λ days. days ≤ 31) (drop 1 (yrsize yr))
      × (length (drop 1 (yrsize yr)) ≡ 12)
unfolding year_days
sum-yrsize yr = elim (Bool-cases (yr % 4 == 0)) [
  | inl leap ↦ rw leap (omega arith)
  | inr plain ↦ rw plain (omega arith)
]

-- The broken-down time that `sec2rtc` finds, with what it says of the seconds.
pub record Converted (secs : ℕ) : Type 0 where
  pub rtc : Rtc
  pub converts : sec2rtc secs ≡ some rtc
  pub returns : rtc2sec rtc ≡ some secs
  pub year_within : (1970 ≤ rtc.year) × (rtc.year ≤ 2106)
  pub mon_within : (1 ≤ rtc.mon) × (rtc.mon ≤ 12)
  pub mday_within :
      (1 ≤ rtc.mday) × (rtc.mday ≤ 31) × (rtc.mday ≤ get_or (yrsize rtc.year) rtc.mon 0)
  pub time_within : (rtc.hour < 24) × (rtc.min < 60) × (rtc.sec < 60)

rtc2sec_of_parts :
    (rtc : Rtc) {years months : ℕ}
    → add_years (rtc.year - 1970) 1970 0 ≡ years
    → add_months (rtc.mon - 1) (drop 1 (yrsize rtc.year)) years ≡ some months
    → rtc2sec rtc ≡ some (add_rest rtc months)
unfolding rtc2sec
rtc2sec_of_parts rtc p q = ground (arith, p, q)

get_or-yrsize : (yr j d : ℕ) → get_or (yrsize yr) (suc j) d ≡ get_or (drop 1 (yrsize yr)) j d
unfolding yrsize
get_or-yrsize yr j d = elim (Bool-cases (yr % 4 == 0)) [ inl e ↦ rw e | inr e ↦ rw e ]

module _ (secs k yday j rest : ℕ) (h : secs < 2 ^ 32)
    (y : YearFound (secs / sec2day + 1) 1970 (secs / sec2day) k yday)
    (m : MonthFound (drop 1 (yrsize (1970 + k))) 1 yday j rest) where
  abbrev found_rtc : Rtc
  found_rtc = record {
    sec = secs % sec2day % 60;
    min = secs % sec2day / 60 % 60;
    hour = secs % sec2day / 60 / 60;
    mday = rest + 1;
    mon = 1 + j;
    year = 1970 + k;
  }

  found_rtc-converts : sec2rtc secs ≡ some found_rtc
  unfolding sec2rtc
  found_rtc-converts = rw (y.found, sec2rtc) (rw m.found)

  found_rtc-returns : rtc2sec found_rtc ≡ some secs
  found_rtc-returns =
      rtc2sec_of_parts found_rtc
        (let rounds : 1970 + k - 1970 ≡ k = omega arith in
          ap (λ (n : ℕ). add_years n 1970 0) rounds ∙ y.sums 0 (omega arith))
        (let rounds : 1 + j - 1 ≡ j = omega arith in
          ap
            (λ (n : ℕ).
              add_months n (drop 1 (yrsize (1970 + k))) (0 + (secs / sec2day - yday) * sec2day))
            rounds
          ∙ m.sums (0 + (secs / sec2day - yday) * sec2day) (omega (arith, y.shorter)))
      ∙ ap some (unfold add_rest in omega (arith, y.shorter, m.shorter))

  found_mday : rest + 1 ≤ get_or (yrsize (1970 + k)) (1 + j) 0
  found_mday =
      let e : 1 + j ≡ suc j = omega arith in rw (e, get_or-yrsize) (omega (arith, m.within))

-- For every 32-bit number of seconds `sec2rtc` finds a date and a time of day of the calendar
-- (month 1 to 12, a day of that month, hour below 24, minute and second below 60), and
-- `rtc2sec` gives the number back: neither the loops nor the reads of the tables go wrong.
pub sec2rtc-Converted : (secs : ℕ) → secs < 2 ^ 32 → Converted secs
sec2rtc-Converted secs h =
    let (k, yday, y) =
      find_year-YearFound (secs / sec2day + 1) 1970 (secs / sec2day) (omega arith) in
    let (sums, short, twelve) = sum-yrsize (1970 + k) in
    let (j, rest, m) =
      find_month-MonthFound (drop 1 (yrsize (1970 + k))) 1 yday short (rw sums y.within) in
    record {
      rtc = found_rtc secs k yday j rest h y m;
      converts = found_rtc-converts secs k yday j rest h y m;
      returns = found_rtc-returns secs k yday j rest h y m;
      year_within = omega (arith, y.shorter);
      mon_within = omega (arith, m.inside, twelve);
      mday_within = (omega arith, omega (arith, m.small), found_mday secs k yday j rest h y m);
      time_within = omega arith;
    }
