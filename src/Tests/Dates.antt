-- ===== src/Tests/Dates.antt =====
-- Clock times and dates: the end of a leap February, and the end of a year.
use smart_home_xiugai.Prelude.{◌^◌, ◌<◌, refl, ◌≡◌, arith}
use smart_home_xiugai.Calendar.{
  SysClock, DbTime, days_before_month, days_of_date, sys_clock_to_utime, utime_to_sys_clock,
  month_max, db_time_add_one_day,
}
use smart_home_xiugai.Calendar.Days.{IsDate}
use smart_home_xiugai.Calendar.RoundTrip.{IsClock, utime-roundtrip, sys_clock-roundtrip}
use smart_home_xiugai.Calendar.NextDay.{IsDayAfter, db_time_add_one_day-IsDayAfter}

utime-roundtrip_example :
    IsClock (utime_to_sys_clock 500000000)
    × (sys_clock_to_utime (utime_to_sys_clock 500000000) ≡ 500000000)
utime-roundtrip_example = utime-roundtrip 500000000 (omega arith)

-- The 29th of February 2016, a Monday.
abbrev leap_day : SysClock
leap_day = record { year = 16; month = 2; day = 29; hour = 23; minute = 59; second = 58; week = 1 }

leap_day-IsClock : IsClock leap_day
unfolding days_of_date days_before_month month_max
leap_day-IsClock = record {
  date = record {
    month_low = omega arith;
    month_high = omega arith;
    day_low = omega arith;
    day_high = omega arith;
  };
  hour = omega arith;
  minute = omega arith;
  second = omega arith;
  week = refl;
}

sys_clock-roundtrip_example :
    (sys_clock_to_utime leap_day < 2 ^ 31)
    × (utime_to_sys_clock (sys_clock_to_utime leap_day) ≡ leap_day)
sys_clock-roundtrip_example = sys_clock-roundtrip leap_day (omega arith) leap_day-IsClock

abbrev last_day : DbTime
last_day = record { tick = 40; day = 31; month = 12; year = 16 }

last_day-IsDate : IsDate 16 12 31
unfolding month_max
last_day-IsDate = record {
  month_low = omega arith;
  month_high = omega arith;
  day_low = omega arith;
  day_high = omega arith;
}

db_time_add_one_day-IsDayAfter_example : IsDayAfter last_day (db_time_add_one_day last_day)
db_time_add_one_day-IsDayAfter_example =
    db_time_add_one_day-IsDayAfter last_day (omega arith) last_day-IsDate
