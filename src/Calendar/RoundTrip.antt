-- ===== src/Calendar/RoundTrip.antt =====
-- `SysClockToUTime` and `UTimeToSysClock` undo one another.
use smart_home_xiugai.Prelude.{ℕ, ◌+◌, ◌*◌, ◌/◌, ◌%◌, ◌^◌, ◌<◌, ◌≡◌, refl, arith, ap, sym, u32}
use smart_home_xiugai.Calendar.{SysClock, days_of_date, sys_clock_to_utime, utime_to_sys_clock}
use smart_home_xiugai.Calendar.Days.{IsDate, date_of_days_lem, days_of_date_lem}

-- The fields of a clock time: a date, an hour, a minute and a second, and the weekday of the date.
pub record IsClock (c : SysClock) : Type 0 where
  pub date : IsDate c.year c.month c.day
  pub hour : c.hour < 24
  pub minute : c.minute < 60
  pub second : c.second < 60
  pub week : c.week ≡ (days_of_date c.year c.month c.day + 6) % 7

-- Every count of seconds of a positive `utime_t` is turned by `UTimeToSysClock` into a clock time with
-- all its fields in range, the day within its month and the weekday counted from a Saturday, and
-- `SysClockToUTime` turns that clock time back into the count.
pub utime-roundtrip :
    (utime : ℕ)
    → utime < 2 ^ 31
    → IsClock (utime_to_sys_clock utime) × (sys_clock_to_utime (utime_to_sys_clock utime) ≡ utime)
unfolding sys_clock_to_utime utime_to_sys_clock
utime-roundtrip utime h =
    let days : ℕ = utime / 60 / 60 / 24 in
    let (back, few, date) = date_of_days_lem days (omega arith) in
    (
      record {
        date = date;
        hour = omega arith;
        minute = omega arith;
        second = omega arith;
        week = ap (λ (t : ℕ). (t + 6) % 7) (sym back);
      },
      omega (arith, back),
    )

-- A clock time with its fields in range and its weekday right, before the year 2068, is turned by
-- `SysClockToUTime` into a count of seconds that `UTimeToSysClock` turns back into it.
pub sys_clock-roundtrip :
    (c : SysClock)
    → c.year < 68
    → IsClock c
    → (sys_clock_to_utime c < 2 ^ 31) × (utime_to_sys_clock (sys_clock_to_utime c) ≡ c)
unfolding sys_clock_to_utime utime_to_sys_clock
sys_clock-roundtrip c early v =
    let days : ℕ = days_of_date c.year c.month c.day in
    let (small, back) = days_of_date_lem c.year c.month c.day (omega arith) v.date in
    let whole : u32 (((days * 1440 + c.hour * 60) + c.minute) * 60 + c.second)
        ≡ ((days * 1440 + c.hour * 60) + c.minute) * 60 + c.second =
      omega (arith, v.hour, v.minute, v.second) in
    let u : ℕ = ((days * 1440 + c.hour * 60) + c.minute) * 60 + c.second in
    let day : u / 60 / 60 / 24 ≡ days = omega (arith, v.hour, v.minute, v.second) in
    let hour : u / 60 / 60 % 24 ≡ c.hour = omega (arith, v.hour, v.minute, v.second) in
    let minute : u / 60 % 60 ≡ c.minute = omega (arith, v.minute, v.second) in
    let second : u % 60 ≡ c.second = omega (arith, v.second) in
    (
      omega (arith, v.hour, v.minute, v.second),
      rw (whole, day, hour, minute, second, back, ← v.week) refl,
    )
