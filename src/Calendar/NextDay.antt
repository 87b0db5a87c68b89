-- ===== src/Calendar/NextDay.antt =====
-- The day steps of lib/dbtime.c against the count of days of sys/syscall/time.c.
use smart_home_xiugai.Prelude.{
  ℕ, ◌+◌, ◌<◌, ◌≤◌, ◌≡◌, refl, each_of, arith, ap, ◌∙◌, sym, u8, ltb, ◌==◌, if◌then◌else◌, true,
  false,
}
use native.Mathlib.Decide.{dec_lt}
use smart_home_xiugai.Calendar.{
  DbTime, days_of_date, days_before_month, month_max, month_max_days, max_days, db_time_add_one_day,
  db_time_sub_one_day,
}
use smart_home_xiugai.Calendar.Days.{IsDate}

-- The two tables of month lengths agree.
max_days-eq-month_max :
    (year month : ℕ) → 0 < month → month < 13 → max_days year month ≡ month_max year month
unfolding month_max_days month_max
max_days-eq-month_max year month low high =
    each_of 12 1 (λ m. max_days year m ≡ month_max year m)
      (
        refl,
        (
          ground arith,
          (refl, (refl, (refl, (refl, (refl, (refl, (refl, (refl, (refl, (refl, tt)))))))))),
        ),
      )
      month low high

-- The days before the next month are those before this month and of this month.
abbrev Follows : ℕ → ℕ → Type 0
Follows year m =
    if m == 12
    then days_of_date (year + 1) 1 1 ≡ days_of_date year 12 1 + month_max year m
    else days_of_date year (m + 1) 1 ≡ days_of_date year m 1 + month_max year m

-- The days before the next month are those before this month and of this month.
next_month :
    (year month : ℕ)
    → 0 < month
    → month < 12
    → days_of_date year (month + 1) 1 ≡ days_of_date year month 1 + month_max year month
unfolding days_of_date days_before_month month_max
next_month year month low high =
    each_of 11 1 (λ m. days_of_date year (m + 1) 1 ≡ days_of_date year m 1 + month_max year m)
      (
        ground arith,
        (
          ground arith,
          (
            ground arith,
            (
              ground arith,
              (
                ground arith,
                (
                  ground arith,
                  (
                    ground arith,
                    (ground arith, (ground arith, (ground arith, (ground arith, tt)))),
                  ),
                ),
              ),
            ),
          ),
        ),
      )
      month low high

next_year : (year : ℕ) → days_of_date (year + 1) 1 1 ≡ days_of_date year 12 1 + month_max year 12
unfolding days_of_date days_before_month month_max
next_year year = ground arith

days_of_date-day :
    (year month day : ℕ)
    → 0 < day
    → days_of_date year month day + 1 ≡ days_of_date year month 1 + day
unfolding days_of_date
days_of_date-day year month day low = ground arith

month_max-bounds : (year month : ℕ) → (27 < month_max year month) × (month_max year month < 32)
unfolding month_max
month_max-bounds year month = ground arith

december : (year : ℕ) → month_max year 12 ≡ 31
unfolding month_max
december year = refl

-- What a day step has to do: the next day in the count of days, a date again, and the way back.
pub record IsDayAfter (t t' : DbTime) : Type 0 where
  pub date : IsDate t'.year t'.month t'.day
  pub counted : days_of_date t'.year t'.month t'.day ≡ days_of_date t.year t.month t.day + 1
  pub back : db_time_sub_one_day t' ≡ t
  pub tick : t'.tick ≡ t.tick

-- The next day of the month, the next month, and the next year.
module _ (t : DbTime) (early : t.year < 255) (d : IsDate t.year t.month t.day) where
  lengths : max_days t.year t.month ≡ month_max t.year t.month
  lengths = max_days-eq-month_max t.year t.month d.month_low d.month_high

  abbrev same_month : DbTime
  same_month = record t { day = t.day + 1 }

  abbrev later_month : DbTime
  later_month = record t { day = 1; month = t.month + 1 }

  abbrev later_year : DbTime
  later_year = record t { day = 1; month = 1; year = t.year + 1 }

  within : t.day < month_max t.year t.month → db_time_add_one_day t ≡ same_month
  unfolding db_time_add_one_day
  within h =
      let bounds = month_max-bounds t.year t.month in
      let no : ltb (max_days t.year t.month) (u8 (t.day + 1)) ≡ false = ground (arith, lengths) in
      rw no (ap (λ (x : ℕ). record t { day = x }) (omega arith))

  at_month : month_max t.year t.month ≤ t.day → t.month < 12 → db_time_add_one_day t ≡ later_month
  unfolding db_time_add_one_day
  at_month h m =
      let bounds = month_max-bounds t.year t.month in
      let yes : ltb (max_days t.year t.month) (u8 (t.day + 1)) ≡ true =
        ground (arith, lengths, d.day_high) in
      let no : ltb 12 (u8 (t.month + 1)) ≡ false = ground arith in
      rw (yes, no) (ap (λ (x : ℕ). record t { day = 1; month = x }) (omega arith))

  at_year : month_max t.year t.month ≤ t.day → 12 ≤ t.month → db_time_add_one_day t ≡ later_year
  unfolding db_time_add_one_day
  at_year h m =
      let bounds = month_max-bounds t.year t.month in
      let yes : ltb (max_days t.year t.month) (u8 (t.day + 1)) ≡ true =
        ground (arith, lengths, d.day_high) in
      let yes' : ltb 12 (u8 (t.month + 1)) ≡ true = ground (arith, d.month_high) in
      rw (yes, yes') (ap (λ (x : ℕ). record t { day = 1; month = 1; year = x }) (omega arith))

  same_month-IsDayAfter : t.day < month_max t.year t.month → IsDayAfter t same_month
  unfolding db_time_sub_one_day
  same_month-IsDayAfter h =
      let bounds = month_max-bounds t.year t.month in
      let no : (u8 (t.day + 1 + 255) == 0) ≡ false = ground (arith, d.day_low) in
      record {
        date = record {
          month_low = d.month_low;
          month_high = d.month_high;
          day_low = omega arith;
          day_high = omega arith;
        };
        counted = omega (
          arith,
          days_of_date-day t.year t.month t.day,
          days_of_date-day t.year t.month (t.day + 1),
          d.day_low,
        );
        back = rw no (ap (λ (x : ℕ). record t { day = x }) (omega arith));
        tick = refl;
      }

  later_month-IsDayAfter :
      month_max t.year t.month ≤ t.day → t.month < 12 → IsDayAfter t later_month
  unfolding db_time_sub_one_day
  later_month-IsDayAfter h m =
      let bounds = month_max-bounds t.year t.month in
      let more = month_max-bounds t.year (t.month + 1) in
      let whole : u8 (t.month + 1 + 255) ≡ t.month = omega arith in
      let no : (t.month == 0) ≡ false = ground (arith, d.month_low) in
      record {
        date = record {
          month_low = omega arith;
          month_high = omega arith;
          day_low = omega arith;
          day_high = omega arith;
        };
        counted = omega (
          arith,
          days_of_date-day t.year t.month t.day,
          next_month t.year t.month d.month_low m,
          d.day_low,
          d.day_high,
        );
        back =
            rw (whole, no, lengths)
              (ap (λ (x : ℕ). record t { day = x }) (omega (arith, d.day_high)));
        tick = refl;
      }

  later_year-IsDayAfter : month_max t.year t.month ≤ t.day → t.month ≡ 12 → IsDayAfter t later_year
  unfolding db_time_sub_one_day
  later_year-IsDayAfter h m =
      let length : month_max t.year t.month ≡ month_max t.year 12 = ap (month_max t.year) m in
      let last : 31 ≡ t.day = omega (arith, length, december t.year, d.day_high) in
      let bounds = month_max-bounds t.year t.month in
      let more = month_max-bounds (t.year + 1) 1 in
      let whole : u8 (t.year + 1 + 255) ≡ t.year = omega arith in
      record {
        date = record {
          month_low = omega arith;
          month_high = omega arith;
          day_low = omega arith;
          day_high = omega arith;
        };
        counted = omega (
          arith,
          days_of_date-day t.year t.month t.day,
          next_year t.year,
          ap (λ (x : ℕ). days_of_date t.year x 1 + month_max t.year x) m,
          d.day_low,
          d.day_high,
        );
        back = rw whole (
            ap (λ (x : ℕ). record t { day = x; month = 12 }) last
            ∙ ap (λ (x : ℕ). record t { month = x }) (sym m));
        tick = refl;
      }

-- On a date before the year 2255, `DbTimeAddOneDay` makes a date again, one day later in the days that
-- `SysClockToUTime` counts, with the same quarter of an hour, and `DbTimeSubOneDay` leads back.
pub db_time_add_one_day-IsDayAfter :
    (t : DbTime) → t.year < 255 → IsDate t.year t.month t.day → IsDayAfter t (db_time_add_one_day t)
db_time_add_one_day-IsDayAfter t early d = elim (dec_lt t.day (month_max t.year t.month)) [
  | yes h ↦ rw (within t early d h) (same_month-IsDayAfter t early d h)
  | no h ↦
      let over : month_max t.year t.month ≤ t.day = omega arith in
      elim (dec_lt t.month 12) [
        | yes m ↦ rw (at_month t early d over m) (later_month-IsDayAfter t early d over m)
        | no m ↦
            rw (at_year t early d over (omega arith))
              (later_year-IsDayAfter t early d over (omega (arith, d.month_high)))
      ]
]
