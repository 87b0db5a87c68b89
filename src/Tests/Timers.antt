-- ===== src/Tests/Timers.antt =====
-- A timer of period 2, its passes and its end, and a timer of the clock.
use smart_home_xiugai.Prelude.{
  ℕ, ◌≡◌, ◌≤◌, refl, List, [], ◌∷◌, map, some, true, false, arith, inl, ltb, if◌then◌else◌, ◌<◌,
}
use smart_home_xiugai.Calendar.{sys_clock_to_utime, utime_to_sys_clock}
use smart_home_xiugai.Timer.Count.{
  CTimers, init_c_timers, add_at, sys_add_c_timer, sys_stop_c_timer, sys_clear_c_timer,
  c_timer_proc,
}
use smart_home_xiugai.Timer.Count.Order.{InUse}
use smart_home_xiugai.Timer.Count.Pass.{Entry, entry, tick, due, ends, c_timer_proc-tick}
use smart_home_xiugai.Timer.Count.Shows.{
  Shows, remove_id, reset_id, new_entry, init_c_timers-Shows, add_at-Shows,
}
use smart_home_xiugai.Timer.Count.Stop.{sys_stop_c_timer-remove}
use smart_home_xiugai.Timer.Count.Reach.{started, added, stopped, Reached-Shows}
use smart_home_xiugai.Timer.Count.Period.{passes, elem, c_timer_proc-period}
use smart_home_xiugai.Timer.Clock.{RTimer, recal_r_timer_p, set_defaults, period_start}
use smart_home_xiugai.Timer.Clock.Recal.{IsFirst, recal_r_timer_p-IsFirst}

abbrev blank : CTimers
blank = record {
  links = record { next = λ _. 0; prev = λ _. 0 };
  id = λ _. 0;
  proc = λ _. 0;
  arg = λ _. 0;
  dev = λ _. 0;
  cnt = λ _. 0;
  flag = λ _. 0;
  addup = 5;
}

abbrev ready : CTimers
ready = init_c_timers blank

-- One timer of period 2 at node 0, with the function 7 and the argument 8.
abbrev running : CTimers
running = (add_at (some 0) ready 2 7 8).0

abbrev timer : Entry
timer = record { slot = 0; id = 5; proc = 7; arg = 8; dev = 2; cnt = 0 }

ready_empty : ready.flag 0 ≡ 0
unfolding init_c_timers
ready_empty = refl

ready_addup : new_entry ready 0 2 7 8 ≡ timer
unfolding init_c_timers
ready_addup = refl

running-Shows : Shows running (timer ∷ [])
unfolding init_c_timers
running-Shows =
    add_at-Shows ready [] 0 2 7 8 ready_empty (omega arith) refl (init_c_timers-Shows blank)

c_timer_proc-tick_example :
    (t' : CTimers) × (order' : List ℕ) × (c_timer_proc (λ _ _. 0) running
      ≡ some (t', due (map (entry running) running-Shows.order)))
    × InUse t' order'
    × (map (entry t') order' ≡ tick (λ _ _. 0) (map (entry running) running-Shows.order))
c_timer_proc-tick_example =
    c_timer_proc-tick (λ _ _. 0) running running-Shows.order running-Shows.in_use

sys_stop_c_timer-remove_example :
    Shows (sys_stop_c_timer 5 running) (remove_id 5 (timer ∷ []))
    × Shows (sys_clear_c_timer 5 running) (reset_id 5 (timer ∷ []))
sys_stop_c_timer-remove_example = sys_stop_c_timer-remove running (timer ∷ []) 5 running-Shows

Reached-Shows_example :
    (es : List Entry) × Shows (sys_stop_c_timer 5 (sys_add_c_timer ready 2 7 8).0) es
Reached-Shows_example = Reached-Shows (stopped 5 (added 2 7 8 (started blank)))

-- The function answers 0 in the passes 0 to 2, and then 1.
abbrev late : ℕ → ℕ → ℕ → ℕ
late k proc arg = if ltb k 3 then 0 else 1

late_stays : (k : ℕ) → k < 3 → ends (late k) timer ≡ false
late_stays k h = ground arith

c_timer_proc-period_example :
    (t' t'' : CTimers) × (calls : List ℕ) × (passes 3 late running ≡ some t')
    × (c_timer_proc (late 3) t' ≡ some (t'', calls))
    × (elem 0 calls ≡ true)
c_timer_proc-period_example =
    c_timer_proc-period 3 late running (timer ∷ []) timer running-Shows (inl refl) late_stays

-- A quarter of an hour after each hour, asked for on the second day.
abbrev hourly : RTimer
hourly = record {
  id = 0;
  proc = 1;
  arg = 2;
  tstart = 0;
  tbase = 0;
  dev = 1;
  unit = 1;
  bonce = 0;
  basetime = 900;
}

recal_r_timer_p-IsFirst_example :
    let q = set_defaults hourly in
    let base = sys_clock_to_utime (period_start q.unit (utime_to_sys_clock 90000)) in
    (base ≤ 90000) × IsFirst 90000 base q (recal_r_timer_p 90000 hourly)
recal_r_timer_p-IsFirst_example =
    recal_r_timer_p-IsFirst 90000 hourly (omega arith) refl (omega arith) (omega arith)
