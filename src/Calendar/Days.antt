-- ===== src/Calendar/Days.antt =====
-- The count of days and the date of a count, over the four years after which leap years repeat.
use smart_home_xiugai.Prelude.{
  ℕ, zero, suc, ◌+◌, ◌-◌, ◌*◌, ◌/◌, ◌%◌, ◌<◌, ◌≤◌, ◌≡◌, refl, ◌==◌, leb, ltb, if◌then◌else◌, true,
  arith, ap, ◌∙◌, sym, all_below, all_below_sound, ==_iff, ltb→lt, u8, ◌&&◌, Bool, ◌<<<◌,
}
use smart_home_xiugai.Calendar.{
  days_before_month, days_of_date, year_loop, month_max, month_loop, date_fuel, date_in_four,
  date_of_days,
}

-- A date: a month of the year and a day of the month.
pub record IsDate (year month day : ℕ) : Type 0 where
  pub month_low : 0 < month
  pub month_high : month < 13
  pub day_low : 0 < day
  pub day_high : day ≤ month_max year month

-- Four years more are 1461 days more.
pub days_of_date-four :
    (q year month day : ℕ)
    → days_of_date (4 * q + year) month day ≡ 1461 * q + days_of_date year month day
unfolding days_of_date
days_of_date-four q year month day =
    let same : (4 * q + year) % 4 ≡ year % 4 = omega arith in rw same (ground arith)

month_max-four : (q year uc : ℕ) → month_max (4 * q + year) uc ≡ month_max year uc
unfolding month_max
month_max-four q year uc = let same : (4 * q + year) % 4 ≡ year % 4 = omega arith in rw same refl

month_loop-four :
    (fuel q year utime max uc : ℕ)
    → month_loop fuel (4 * q + year) utime max uc ≡ month_loop fuel year utime max uc
unfolding month_loop
month_loop-four zero q year utime max uc = refl
month_loop-four (suc fuel) q year utime max uc =
    rw
      (
        month_max-four q year (u8 (uc + 1)),
        month_loop-four fuel q year (utime - max) (month_max year (u8 (uc + 1))) (u8 (uc + 1)),
      )
      refl

-- Every day of the first four years.
within_four : ℕ → Bool
within_four r =
    let (year, month, day) = date_of_days r in
    (days_of_date year month day == r)
    && ltb year 4
    && ltb 0 month
    && ltb month 13
    && ltb 0 day
    && leb day (month_max year month)

within_four_lem : all_below 1461 within_four ≡ true
unfolding within_four
within_four_lem =
    unfold all_below date_of_days date_in_four days_of_date year_loop month_loop month_max
      days_before_month in
    refl

within_four_sound :
    (r : ℕ)
    → r < 1461
    → let (year, month, day) = date_of_days r in
      (days_of_date year month day ≡ r) × (year < 4) × IsDate year month day
unfolding within_four
within_four_sound r h =
    let t : within_four r ≡ true = all_below_sound 1461 within_four r within_four_lem h in
    let (year, month, day) = date_of_days r in
    (
      (==_iff _ _).0 (ground arith),
      ltb→lt _ _ (ground arith),
      record {
        month_low = ground arith;
        month_high = ground arith;
        day_low = ground arith;
        day_high = ground arith;
      },
    )

-- Every date of the first four years.
from_four : ℕ → Bool
from_four i =
    let year = i / 416 in
    let month = i / 32 % 13 in
    let day = i % 32 in
    let days = days_of_date year month day in
    let (y, m, d) = date_of_days days in
    if ltb 0 month && ltb 0 day && leb day (month_max year month)
    then ltb days 1461 && (y == year) && (m == month) && (d == day)
    else true

from_four_lem : all_below 1664 from_four ≡ true
unfolding from_four
from_four_lem =
    unfold all_below date_of_days date_in_four days_of_date year_loop month_loop month_max
      days_before_month in
    refl

years_of_four : (r : ℕ) → r < 1461 → (year_loop date_fuel r 366 0).0 < 4
years_of_four r h =
    ltb→lt _ _ (all_below_sound 1461 (λ r. ltb (year_loop date_fuel r 366 0).0 4) r table h)
  where
    table : all_below 1461 (λ r. ltb (year_loop date_fuel r 366 0).0 4) ≡ true
    table = unfold all_below year_loop in refl

month_max-lt : (year month : ℕ) → month_max year month < 32
unfolding month_max
month_max-lt year month = ground arith

same_date :
    (days n y m d a b c : ℕ)
    → 0 < m
    → 0 < d
    → d ≤ n
    → (if ltb 0 m && ltb 0 d && leb d n
        then ltb days 1461 && (a == y) && (b == m) && (c == d)
        else true)
      ≡ true
    → (days < 1461) × (a ≡ y) × (b ≡ m) × (c ≡ d)
same_date days n y m d a b c low_m low_d high_d t =
    (ground arith, ground arith, ground arith, ground arith)

from_four_sound :
    (year month day : ℕ)
    → year < 4
    → IsDate year month day
    → (days_of_date year month day < 1461)
      × (date_of_days (days_of_date year month day) ≡ (year, month, day))
unfolding from_four
from_four_sound year month day h d =
    let short : day < 32 = omega (arith, d.day_high, month_max-lt year month) in
    let e : from_four (year * 416 + month * 32 + day) ≡ true =
      all_below_sound 1664 from_four (year * 416 + month * 32 + day) from_four_lem
        (omega (arith, d.month_high)) in
    let y' : (year * 416 + month * 32 + day) / 416 ≡ year = omega (arith, d.month_high) in
    let m' : (year * 416 + month * 32 + day) / 32 % 13 ≡ month = omega (arith, d.month_high) in
    let d' : (year * 416 + month * 32 + day) % 32 ≡ day = omega arith in
    let t : (if ltb 0 month && ltb 0 day && leb day (month_max year month)
          then ltb (days_of_date year month day) 1461
            && (date.0 == year)
            && (date.1 == month)
            && (date.2 == day)
          else true)
        ≡ true =
      rw (y', m', d') at e in
    let (small, same_year, same_month, same_day) =
      same_date _ _ year month day date.0 date.1 date.2 d.month_low d.day_low d.day_high t in
    (small, cc)
  where
    date : ℕ × ℕ × ℕ
    date = date_of_days (days_of_date year month day)

-- The years of a day of four years, and its month and day in a year that is as much leap as those.
abbrev month_and_rest : ℕ → ℕ × ℕ
month_and_rest r =
    let (years, left) = year_loop date_fuel r 366 0 in month_loop date_fuel years left 31 1

date_in_four-year :
    (q r : ℕ)
    → q < 63
    → r < 1461
    → date_in_four q r ≡ (
      4 * q + (year_loop date_fuel r 366 0).0,
      (month_and_rest r).0,
      u8 ((month_and_rest r).1 + 1),
    )
unfolding date_in_four
date_in_four-year q r small h =
    let years : ℕ = (year_loop date_fuel r 366 0).0 in
    let left : ℕ = (year_loop date_fuel r 366 0).1 in
    let few : years < 4 = years_of_four r h in
    let whole : u8 (u8 (q <<< 2) + years) ≡ 4 * q + years = omega arith in
    let dated : ℕ → ℕ × ℕ → ℕ × ℕ × ℕ = λ y t. (y, t.0, u8 (t.1 + 1)) in
    ap (λ (y : ℕ). dated y (month_loop date_fuel y left 31 1)) whole
    ∙ ap (dated (4 * q + years)) (month_loop-four date_fuel q years left 31 1)

-- A day of a later four years has the date of the same day in the first, moved by those years.
date_of_days-four :
    (q r : ℕ)
    → q < 63
    → r < 1461
    → let (year, month, day) = date_of_days r in
      date_of_days (1461 * q + r) ≡ (4 * q + year, month, day)
unfolding date_of_days
date_of_days-four q r small h =
    let quot : (1461 * q + r) / 1461 ≡ q = omega arith in
    let left : 1461 * q + r - q * 1461 ≡ r = omega arith in
    let quot0 : r / 1461 ≡ 0 = omega arith in
    let same : r - 0 * 1461 ≡ r = omega arith in
    rw
      (
        quot,
        left,
        quot0,
        same,
        date_in_four-year q r small h,
        date_in_four-year 0 r (omega arith) h,
      )
      (ap (λ (y : ℕ). dated (4 * q + y)) (omega arith))
  where
    dated : ℕ → ℕ × ℕ × ℕ
    dated y = (y, (month_and_rest r).0, u8 ((month_and_rest r).1 + 1))

-- Below 63 times four years, a count of days and its date determine one another.
pub date_of_days_lem :
    (days : ℕ)
    → days < 1461 * 63
    → let (year, month, day) = date_of_days days in
      (days_of_date year month day ≡ days) × (year < 252) × IsDate year month day
date_of_days_lem days h =
    let q : ℕ = days / 1461 in
    let r : ℕ = days % 1461 in
    let e : 1461 * q + r ≡ days = omega arith in
    let (year, month, day) = date_of_days r in
    let (back, few, date) = within_four_sound r (omega arith) in
    rw (← e, date_of_days-four q r (omega arith) (omega arith))
      (
        days_of_date-four q year month day ∙ ap (λ (t : ℕ). 1461 * q + t) back,
        omega arith,
        record {
          month_low = date.month_low;
          month_high = date.month_high;
          day_low = date.day_low;
          day_high = rw (month_max-four q year month) date.day_high;
        },
      )

pub days_of_date_lem :
    (year month day : ℕ)
    → year < 252
    → IsDate year month day
    → (days_of_date year month day < 1461 * (year / 4 + 1))
      × (date_of_days (days_of_date year month day) ≡ (year, month, day))
days_of_date_lem year month day h d =
    let q : ℕ = year / 4 in
    let y : ℕ = year % 4 in
    let e : 4 * q + y ≡ year = omega arith in
    let moved : days_of_date year month day ≡ 1461 * q + days_of_date y month day =
      ap (λ (t : ℕ). days_of_date t month day) (sym e) ∙ days_of_date-four q y month day in
    let d' : IsDate y month day = record {
      month_low = d.month_low;
      month_high = d.month_high;
      day_low = d.day_low;
      day_high =
          omega (arith, d.day_high, month_max-four q y month, ap (λ (t : ℕ). month_max t month) e);
    } in
    let (small, back) = from_four_sound y month day (omega arith) d' in
    (
      omega (arith, moved),
      ap date_of_days moved
          ∙ date_of_days-four q (days_of_date y month day) (omega arith) small
          ∙ ap (λ (t : ℕ × ℕ × ℕ). shift q t) back
          ∙ ap year_month_day e,
    )
  where
    shift : ℕ → ℕ × ℕ × ℕ → ℕ × ℕ × ℕ
    shift q t = (4 * q + t.0, t.1, t.2)

    year_month_day : ℕ → ℕ × ℕ × ℕ
    year_month_day t = (t, month, day)
