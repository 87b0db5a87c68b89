-- ===== src/Calendar.antt =====
-- Clock time and its count of seconds: sys/syscall/time.c (`SysClockToUTime`, `UTimeToSysClock`,
-- `SysClockDifference`, `UTimeAdd`) and the quarter-hour dates of lib/dbtime.c and
-- include/lib/dbtime.h. A `utime_t` from 0 on is its number; the masks of the source are remainders.
pub mod Days
pub mod RoundTrip
pub mod NextDay
use smart_home_xiugai.Prelude.{
  ℕ, zero, suc, ◌+◌, ◌-◌, ◌*◌, ◌/◌, ◌%◌, ◌^◌, List, [], ◌∷◌, get_or, u8, u32, ◌==◌, leb, ltb,
  if◌then◌else◌, Bool, true, false, not, ◌>>>◌, ◌<<<◌, ◌&&◌,
}
use smart_home_xiugai.Prelude.Int.{ℤ, ◌-ℤ◌, pos}

-- `sysclock_t`
pub record SysClock : Type 0 where
  pub year : ℕ
  pub month : ℕ
  pub day : ℕ
  pub hour : ℕ
  pub minute : ℕ
  pub second : ℕ
  pub week : ℕ

-- `DaysBeforeMonth`
unfoldable pub days_before_month : List ℕ
days_before_month = 0 ∷ 31 ∷ 59 ∷ 90 ∷ 120 ∷ 151 ∷ 181 ∷ 212 ∷ 243 ∷ 273 ∷ 304 ∷ 334 ∷ []

-- The days of `SysClockToUTime`: of the years, of the months, and of the month.
unfoldable pub days_of_date : ℕ → ℕ → ℕ → ℕ
unfolding days_before_month
days_of_date year month day =
    let years = if not (year == 0) then (year - 1) >>> 2 + 1 else 0 in
    let leap = if ltb 2 month && (year % 4 == 0) then 1 else 0 in
    let months =
      if not (month == 0) && ltb month 13 then get_or days_before_month (month - 1) 0 else 0 in
    year * 365 + years + leap + months + (if not (day == 0) then day - 1 else 0)

unfoldable pub sys_clock_to_utime : SysClock → ℕ
unfolding days_of_date
sys_clock_to_utime c =
    u32 (((days_of_date c.year c.month c.day * 1440 + c.hour * 60) + c.minute) * 60 + c.second)

-- The first loop of `UTimeToSysClock`, on fuel: the years of the four, and the days left.
unfoldable pub year_loop : ℕ → ℕ → ℕ → ℕ → ℕ × ℕ
year_loop zero utime max uc = (uc, utime)
year_loop (suc fuel) utime max uc =
    let next = year_loop fuel (utime - max) 365 (u8 (uc + 1)) in
    if leb max utime then next else (uc, utime)

-- `max` for the month `uc` in the second loop.
unfoldable pub month_max : ℕ → ℕ → ℕ
month_max year uc =
    if uc == 2
    then if year % 4 == 0 then 29 else 28
    else if ltb uc 8
    then if uc % 2 == 1 then 31 else 30
    else if uc % 2 == 1
    then 30
    else 31

-- The second loop, on fuel: the month, and the days left.
unfoldable pub month_loop : ℕ → ℕ → ℕ → ℕ → ℕ → ℕ × ℕ
month_loop zero year utime max uc = (uc, utime)
month_loop (suc fuel) year utime max uc =
    let uc' = u8 (uc + 1) in
    let next = month_loop fuel year (utime - max) (month_max year uc') uc' in
    if leb max utime then next else (uc, utime)

-- Four years have at most four years, and a year has at most twelve months.
abbrev pub date_fuel : ℕ
date_fuel = 13

-- The date of a day: of the day `utime` of the four years `max`, and of a count of days.
unfoldable pub date_in_four : ℕ → ℕ → ℕ × ℕ × ℕ
date_in_four max utime =
    let (uc, left) = year_loop date_fuel utime 366 0 in
    let year = u8 (u8 (max <<< 2) + uc) in
    let (month, rest) = month_loop date_fuel year left 31 1 in (year, month, u8 (rest + 1))

unfoldable pub date_of_days : ℕ → ℕ × ℕ × ℕ
date_of_days days = let max = days / 1461 in date_in_four max (days - max * 1461)

unfoldable pub utime_to_sys_clock : ℕ → SysClock
unfolding date_of_days
utime_to_sys_clock utime =
    let minutes = utime / 60 in
    let hours = minutes / 60 in
    let days = hours / 24 in
    let (year, month, day) = date_of_days days in
    record {
      year = year;
      month = month;
      day = day;
      hour = hours % 24;
      minute = minutes % 60;
      second = utime % 60;
      week = (days + 6) % 7;
    }

-- `SysClockDifference`
unfoldable pub sys_clock_difference : SysClock → SysClock → ℤ
unfolding sys_clock_to_utime
sys_clock_difference c1 c2 = pos (sys_clock_to_utime c1) -ℤ pos (sys_clock_to_utime c2)

-- The loop of `UTimeAdd` over months: the seconds to add.
unfoldable pub add_months : ℕ → ℕ → ℕ → ℕ
unfolding month_max
add_months zero year month = 0
add_months (suc dev) year month =
    let next = u8 (month + 1) in
    month_max year month * 1440 * 60
    + (if ltb 12 next then add_months dev (u8 (year + 1)) 1 else add_months dev year next)

-- `UTimeAdd` for a `dev` from 0 on; `unit`, the `mod` of the source, is UTIMEDEV_MINUTE 0, _HOUR 1, _DAY 2 or _MONTH 3.
unfoldable pub utime_add : ℕ → ℕ → ℕ → ℕ
unfolding add_months utime_to_sys_clock
utime_add time unit dev =
    if ltb unit 3
    then u32 (time + (if unit == 0 then 60 else if unit == 1 then 3600 else 86400) * dev)
    else let clk = utime_to_sys_clock time in u32 (time + add_months dev clk.year clk.month)

-- The fields of `dbtime_t`.
pub record DbTime : Type 0 where
  pub tick : ℕ
  pub day : ℕ
  pub month : ℕ
  pub year : ℕ

-- `MonthMaxDays`
unfoldable pub month_max_days : List ℕ
month_max_days = 0 ∷ 31 ∷ 28 ∷ 31 ∷ 30 ∷ 31 ∷ 30 ∷ 31 ∷ 31 ∷ 30 ∷ 31 ∷ 30 ∷ 31 ∷ 0 ∷ 0 ∷ 0 ∷ []

-- `maxdays` of the functions below.
abbrev pub max_days : ℕ → ℕ → ℕ
max_days year month =
    get_or month_max_days month 0 + (if (month == 2) && (year % 4 == 0) then 1 else 0)

unfoldable pub db_time_add_one_month : DbTime → DbTime
db_time_add_one_month t =
    let month = u8 (t.month + 1) in
    if ltb 12 month
    then record t { month = 1; year = u8 (t.year + 1) }
    else record t { month = month }

unfoldable pub db_time_sub_one_month : DbTime → DbTime
db_time_sub_one_month t =
    let month = u8 (t.month + 255) in
    if month == 0
    then record t { month = 12; year = u8 (t.year + 255) }
    else record t { month = month }

unfoldable pub db_time_add_one_day : DbTime → DbTime
unfolding month_max_days
db_time_add_one_day t =
    let day = u8 (t.day + 1) in
    let month = u8 (t.month + 1) in
    if ltb (max_days t.year t.month) day
    then if ltb 12 month
      then record t { day = 1; month = 1; year = u8 (t.year + 1) }
      else record t { day = 1; month = month }
    else record t { day = day }

unfoldable pub db_time_sub_one_day : DbTime → DbTime
unfolding month_max_days
db_time_sub_one_day t =
    let day = u8 (t.day + 255) in
    let month = u8 (t.month + 255) in
    let y = if month == 0 then u8 (t.year + 255) else t.year in
    let m = if month == 0 then 12 else month in
    if day == 0
    then record t { day = u8 (max_days y m); month = m; year = y }
    else record t { day = day }

unfoldable pub db_time_add_one_tick : DbTime → DbTime
unfolding db_time_add_one_day
db_time_add_one_tick t =
    let tick = u8 (t.tick + 1) in
    if ltb 95 tick then db_time_add_one_day (record t { tick = 0 }) else record t { tick = tick }

-- DBTIME_SYSCLOCK; the day of the week stays what the target had.
unfoldable pub dbtime_sysclock : ℕ → DbTime → SysClock
dbtime_sysclock week t = record {
  year = t.year;
  month = t.month;
  day = t.day;
  hour = t.tick >>> 2;
  minute = t.tick % 4 * 15;
  second = 0;
  week = week;
}

-- SYSCLOCK_DBTIME
unfoldable pub sysclock_dbtime : SysClock → DbTime
sysclock_dbtime c = record {
  tick = u8 (c.hour <<< 2 + c.minute / 15);
  day = c.day;
  month = c.month;
  year = c.year;
}
