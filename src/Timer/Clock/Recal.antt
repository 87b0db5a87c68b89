-- ===== src/Timer/Clock/Recal.antt =====
-- `RecalRTimerP` finds the first start after the current time.
use smart_home_xiugai.Prelude.{
  ℕ, zero, suc, ◌+◌, ◌*◌, ◌/◌, ◌%◌, ◌^◌, ◌≡◌, ◌≤◌, ◌<◌, refl, false, leb, ltb, ◌==◌, not,
  if◌then◌else◌, u8, u32, arith, inl, inr, Bool-cases,
}
use smart_home_xiugai.Calendar.{
  SysClock, days_of_date, days_before_month, sys_clock_to_utime, utime_to_sys_clock, date_of_days,
  utime_add, add_months, month_max,
}
use smart_home_xiugai.Calendar.Days.{date_of_days_lem}
use smart_home_xiugai.Timer.Clock.{
  RTimer, int_ge, rounds, advance_loop, set_defaults, period_start, recal_r_timer_p,
}

month_max-bounds : (year uc : ℕ) → (28 ≤ month_max year uc) × (month_max year uc ≤ 31)
unfolding month_max
month_max-bounds year uc = ground arith

add_months-le : (dev year month : ℕ) → add_months dev year month ≤ dev * 2678400
unfolding add_months
add_months-le zero year month = omega arith
add_months-le (suc dev) year month = ground (
  arith,
  month_max-bounds year month,
  add_months-le dev (u8 (year + 1)) 1,
  add_months-le dev year (u8 (month + 1)),
)

add_months-ge : (dev year month : ℕ) → 0 < dev → 60 ≤ add_months dev year month
unfolding add_months
add_months-ge zero year month h = elim h [ ]
add_months-ge (suc dev) year month h = ground (arith, month_max-bounds year month)

-- `UTimeAdd` moves a time on by a minute at least and by 255 months at most.
pub utime_add-bounds :
    (time unit dev : ℕ)
    → time < 2 ^ 31
    → 0 < dev
    → dev < 256
    → (time + 60 ≤ utime_add time unit dev) × (utime_add time unit dev ≤ time + 682992000)
unfolding utime_add
utime_add-bounds time unit dev small positive byte = elim (Bool-cases (ltb unit 3)) [
  | inl short ↦ rw short (ground arith)
  | inr long ↦
      let c : SysClock = utime_to_sys_clock time in
      rw long
        (omega (arith, add_months-le dev c.year c.month, add_months-ge dev c.year c.month positive))
]

-- The base after `k` steps of `UTimeAdd`.
unfoldable pub base_after : ℕ → ℕ → ℕ → ℕ → ℕ
base_after zero unit dev base = base
base_after (suc k) unit dev base = base_after k unit dev (utime_add base unit dev)

-- A timer at its first start after `curtime`, in the steps from `base` on.
pub record IsFirst (curtime base : ℕ) (p q : RTimer) : Type 0 where
  pub steps : ℕ
  pub timer : q ≡ record p {
    tbase = base_after steps p.unit p.dev base;
    tstart = base_after steps p.unit p.dev base + p.basetime;
  }
  pub later : curtime < base_after steps p.unit p.dev base + p.basetime
  pub least : (j : ℕ) → j < steps → base_after j p.unit p.dev base + p.basetime ≤ curtime

below_suc :
    (k : ℕ) (P : ℕ → Type 0) → P 0 → ((j : ℕ) → j < k → P (suc j)) → (j : ℕ) → j < suc k → P j
below_suc k P first rest zero h = first
below_suc k P first rest (suc j) h = rest j (omega arith)

at_base : RTimer → ℕ → RTimer
at_base p base = record p { tbase = base; tstart = base + p.basetime }

advance_loop-IsFirst :
    (fuel curtime : ℕ) (p : RTimer) (base : ℕ)
    → curtime + 682992000 < 2 ^ 31
    → 0 < p.dev
    → p.dev < 256
    → base + p.basetime < 2 ^ 31
    → curtime < base + p.basetime + fuel
    → IsFirst curtime base p (advance_loop fuel curtime (at_base p base))
unfolding advance_loop base_after at_base int_ge
advance_loop-IsFirst zero curtime p base c d b w f = record {
  steps = 0;
  timer = refl;
  later = omega arith;
  least = λ j h. elim h [ ];
}
advance_loop-IsFirst (suc fuel) curtime p base c d b w f =
    elim (Bool-cases (int_ge curtime (base + p.basetime))) [
      | inr done ↦
          rw done
            (record { steps = 0; timer = refl; later = ground arith; least = λ j h. elim h [ ] })
      | inl early ↦
          let base' : ℕ = utime_add base p.unit p.dev in
          let (on, not_far) = utime_add-bounds base p.unit p.dev (ground arith) d b in
          let fits : u32 (base' + p.basetime) ≡ base' + p.basetime = ground (arith, on, not_far) in
          let q =
            advance_loop-IsFirst fuel curtime p base' c d b (ground (arith, on, not_far))
              (omega arith) in
          rw (early, fits)
            (record {
              steps = suc q.steps;
              timer = q.timer;
              later = q.later;
              least =
                  below_suc q.steps (λ j. base_after j p.unit p.dev base + p.basetime ≤ curtime)
                    (ground arith) q.least;
            })
    ]

days_begun :
    (unit year month day : ℕ)
    → days_of_date year (if unit == 3 then 1 else month) (if leb 2 unit then 1 else day)
      ≤ days_of_date year month day
unfolding days_of_date days_before_month
days_begun unit year month day = ground arith

-- The period that a time stands in has begun by then.
period_start-le :
    (unit curtime : ℕ)
    → curtime < 2 ^ 31
    → sys_clock_to_utime (period_start unit (utime_to_sys_clock curtime)) ≤ curtime
unfolding period_start sys_clock_to_utime utime_to_sys_clock
period_start-le unit curtime h =
    let days : ℕ = curtime / 60 / 60 / 24 in
    let (back, few, date) = date_of_days_lem days (omega arith) in
    let begun = days_begun unit (date_of_days days).0 (date_of_days days).1 (date_of_days days).2 in
    let hour : (if leb 1 unit then 0 else curtime / 60 / 60 % 24) ≤ curtime / 60 / 60 % 24 =
      ground arith in
    omega (arith, back, begun, hour)

-- `RecalRTimerP` ends, and gives a timer that starts more than once its first start after the current
-- time: its base is reached from the start of the current hour, day, month or year, which is not after
-- the current time, by steps of the timer's period, where a period of 0 counts as 15 minutes or as 1
-- of the other units and an unknown unit as hours; its start is that base and the timer's offset; and
-- with fewer steps the start would not be after the current time. It holds where the starts stay in
-- the range of `int`: for a period that is a byte, for a current time that is not negative and is at
-- least 682992000 seconds below 2 ^ 31, which is more than 255 months, and for an offset that is not
-- negative and does not reach 2 ^ 31 from the current time.
pub recal_r_timer_p-IsFirst :
    (curtime : ℕ) (p : RTimer)
    → curtime + 682992000 < 2 ^ 31
    → p.bonce ≡ 0
    → p.dev < 256
    → curtime + p.basetime < 2 ^ 31
    → let q = set_defaults p in
      let base = sys_clock_to_utime (period_start q.unit (utime_to_sys_clock curtime)) in
      (base ≤ curtime) × IsFirst curtime base q (recal_r_timer_p curtime p)
unfolding recal_r_timer_p set_defaults at_base
recal_r_timer_p-IsFirst curtime p c many byte offset =
    let q : RTimer = set_defaults p in
    let base : ℕ = sys_clock_to_utime (period_start q.unit (utime_to_sys_clock curtime)) in
    let begun : base ≤ curtime = period_start-le q.unit curtime (omega arith) in
    let fits : u32 (base + p.basetime) ≡ base + p.basetime = omega arith in
    let running : not (p.bonce == 0) ≡ false = ground (arith, many) in
    (
      begun,
      rw (running, fits)
          (advance_loop-IsFirst (rounds curtime) curtime q base c (ground arith) (ground arith)
            (omega arith) (omega arith)),
    )
