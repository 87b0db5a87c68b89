-- ===== src/Timer/Clock.antt =====
-- Timers that start at clock times: `RTimerGetBase`, `RecalRTimerP`, `SysRecalRTimer`,
-- `SysRecalAllRTimer`, `SysAddRTimer`, `SysStopRTimer`, `StopRTimerP` and `RTimerProc` of
-- sys/syscall/timer.c. `RTimerBuffer` is a function from node to timer, and the links are kept beside
-- it; `RTimerList` is the node behind its last. Each function holds `RTimerMutex` throughout.

pub mod Recal
use smart_home_xiugai.Prelude.{
  ℕ, zero, suc, ◌+◌, ◌-◌, ◌*◌, ◌/◌, ◌%◌, ◌^◌, List, [], ◌∷◌, Option, none, some, Bool, true, false,
  ◌&&◌, ◌||◌, not, ltb, leb, ◌==◌, if◌then◌else◌, u16, u32, ◌<<<◌, ◌>>>◌,
}
use smart_home_xiugai.Prelude.Int.{ℤ, pos, negsuc}
use smart_home_xiugai.Calendar.{SysClock, sys_clock_to_utime, utime_to_sys_clock, utime_add}
use smart_home_xiugai.Timer.Links.{Links, upd, link_tail, unlink}
use smart_home_xiugai.Timer.Count.{find_empty, make_id, offset, tman_empty, tman_valid}

abbrev pub max_rtimer : ℕ
max_rtimer = 63

-- The fields of `rtman_t` but for its links and its flag. `unit` is the `mod` of the source:
-- UTIMEDEV_MINUTE 0, _HOUR 1, _DAY 2 or _MONTH 3.
pub record RTimer : Type 0 where
  pub id : ℕ
  pub proc : ℕ
  pub arg : ℕ
  pub tstart : ℕ
  pub tbase : ℕ
  pub dev : ℕ
  pub unit : ℕ
  pub bonce : ℕ
  pub basetime : ℕ

-- `rtimer_conf_t`
pub record RTimerConf : Type 0 where
  pub curtime : ℕ
  pub bonce : ℕ
  pub tdev : ℕ
  pub tmod : ℕ
  pub basetime : SysClock

pub record RTimers : Type 0 where
  pub links : Links
  pub node : ℕ → RTimer
  pub flag : ℕ → ℕ
  pub addup : ℕ

-- `RTimerGetBase`: the cases for minutes, hours and days fall through to the later ones.
unfoldable pub r_timer_get_base : ℕ → SysClock → ℕ
r_timer_get_base unit c =
    let hour = if ltb unit 2 then 0 else c.hour in
    let day = if ltb unit 3 then 0 else if not (c.day == 0) then c.day - 1 else c.day in
    u32 (day * 1440 * 60 + hour * 60 * 60 + c.minute * 60)

-- The `switch` of `RecalRTimerP`: the clock time at which the year, month, day or hour has begun.
unfoldable pub period_start : ℕ → SysClock → SysClock
period_start unit c = record c {
  month = if unit == 3 then 1 else c.month;
  day = if leb 2 unit then 1 else c.day;
  hour = if leb 1 unit then 0 else c.hour;
  minute = 0;
  second = 0;
}

-- `a >= b` for two `int`s that are given by their 32 bits: the order of the numbers that are 2 ^ 31 more.
unfoldable pub int_ge : ℕ → ℕ → Bool
int_ge a b = leb (u32 (b + 2 ^ 31)) (u32 (a + 2 ^ 31))

-- More rounds than there are `int`s from the least one up to `curtime`.
abbrev pub rounds : ℕ → ℕ
rounds curtime = u32 (curtime + 2 ^ 31) + 1

-- The loop of `RecalRTimerP`, and that of `RTimerProc`, which is entered with its test true, on fuel.
unfoldable pub advance_loop : ℕ → ℕ → RTimer → RTimer
unfolding int_ge
advance_loop zero curtime p = p
advance_loop (suc fuel) curtime p =
    let tbase = utime_add p.tbase p.unit p.dev in
    let later =
      advance_loop fuel curtime (record p { tbase = tbase; tstart = u32 (tbase + p.basetime) }) in
    if int_ge curtime p.tstart then later else p

-- What `RecalRTimerP` puts right before its test of `bonce`.
unfoldable pub set_defaults : RTimer → RTimer
set_defaults p = record p {
  dev = if p.dev == 0 then if p.unit == 0 then 15 else 1 else p.dev;
  unit = if ltb 3 p.unit then 1 else p.unit;
}

-- `RecalRTimerP`. A round of the loop moves the start on, so `rounds` are enough until it leaves the
-- range of `int`.
unfoldable pub recal_r_timer_p : ℕ → RTimer → RTimer
unfolding set_defaults advance_loop period_start
recal_r_timer_p curtime p =
    let p = set_defaults p in
    if not (p.bonce == 0)
    then p
    else let tbase = sys_clock_to_utime (period_start p.unit (utime_to_sys_clock curtime)) in
      advance_loop (rounds curtime) curtime
        (record p { tbase = tbase; tstart = u32 (tbase + p.basetime) })

abbrev upd_node : (ℕ → RTimer) → ℕ → RTimer → ℕ → RTimer
upd_node f i v j = if j == i then v else f j

abbrev invalid_id : ℕ → Bool
invalid_id id = leb (2 ^ 31) id || leb max_rtimer (offset id)

-- `SysRecalRTimer` at the time `now`.
unfoldable pub sys_recal_r_timer : ℕ → ℕ → RTimers → RTimers
unfolding recal_r_timer_p
sys_recal_r_timer now id t =
    if invalid_id id
    then t
    else let p = offset id in
      if (t.node p).id == id && not (t.flag p == tman_empty)
      then record t { node = upd_node t.node p (recal_r_timer_p now (t.node p)) }
      else t

-- `SysRecalAllRTimer` at the time `now`, from node `p` on, on fuel.
unfoldable pub recal_all_loop : ℕ → ℕ → ℕ → RTimers → RTimers
unfolding recal_r_timer_p
recal_all_loop zero now p t = t
recal_all_loop (suc fuel) now p t =
    let node =
      if not (t.flag p == tman_empty)
      then upd_node t.node p (recal_r_timer_p now (t.node p))
      else t.node in
    let rest = recal_all_loop fuel now (t.links.next p) (record t { node = node }) in
    if p == max_rtimer then t else rest

unfoldable pub sys_recal_all_r_timer : ℕ → RTimers → RTimers
unfolding recal_all_loop
sys_recal_all_r_timer now t = recal_all_loop (max_rtimer + 1) now (t.links.next max_rtimer) t

-- The timer that `SysAddRTimer` writes into an empty node that held `p`, but for its id.
unfoldable pub configured : RTimerConf → ℕ → ℕ → RTimer → RTimer
unfolding recal_r_timer_p r_timer_get_base
configured conf proc arg p =
    let p = record p { proc = proc; arg = arg; bonce = conf.bonce } in
    if not (conf.bonce == 0)
    then record p { dev = 1; unit = 1; tstart = conf.curtime }
    else recal_r_timer_p conf.curtime (record p {
      dev = conf.tdev;
      unit = conf.tmod;
      basetime = r_timer_get_base conf.tmod conf.basetime;
    })

unfoldable pub add_r_at : Option ℕ → RTimers → RTimerConf → ℕ → ℕ → RTimers × ℤ
unfolding configured
add_r_at none t conf proc arg = (t, negsuc 0)
add_r_at (some i) t conf proc arg =
    let p = record (configured conf proc arg (t.node i)) { id = make_id t.addup i } in
    (
      record {
        links = link_tail max_rtimer i t.links;
        node = upd_node t.node i p;
        flag = upd t.flag i tman_valid;
        addup = u32 (t.addup + 1);
      },
      pos (make_id t.addup i),
    )

-- `SysAddRTimer`: the timers and the id, -1 for an error.
unfoldable pub sys_add_r_timer : RTimers → RTimerConf → ℕ → ℕ → RTimers × ℤ
unfolding add_r_at
sys_add_r_timer t conf proc arg =
    if conf.tdev == 0 || ltb 3 conf.tmod
    then (t, negsuc 0)
    else add_r_at (find_empty max_rtimer 0 t.flag) t conf proc arg

-- `StopRTimerP`
unfoldable pub stop_r_timer_p : ℕ → RTimers → RTimers
stop_r_timer_p p t =
    if t.flag p == tman_empty
    then t
    else record t { flag = upd t.flag p tman_empty; links = unlink p t.links }

-- `SysStopRTimer`
unfoldable pub sys_stop_r_timer : ℕ → RTimers → RTimers
sys_stop_r_timer id t =
    if invalid_id id
    then t
    else let p = offset id in
      if (t.node p).id == id && not (t.flag p == tman_empty)
      then record t { flag = upd t.flag p tman_empty; links = unlink p t.links }
      else t

-- The next start of a timer that is due in `RTimerProc`.
unfoldable pub restart : ℕ → RTimer → RTimer
unfolding recal_r_timer_p advance_loop
restart timec p =
    if not (p.bonce == 0)
    then p
    else let comp = u32 (timec + 2 ^ 32 - p.tstart) in
      if ltb 3600 comp && ltb comp (2 ^ 31)
      then recal_r_timer_p timec p
      else advance_loop (rounds timec) timec p

-- After the call of its function a timer that starts once is stopped.
abbrev run_one : ℕ → RTimers → RTimers
run_one p t = if not ((t.node p).bonce == 0) then stop_r_timer_p p t else t

-- One round of the loop of `RTimerProc`, and whether it calls the timer's function.
unfoldable pub r_timer_one : ℕ → ℕ → RTimers → RTimers × Bool
unfolding restart stop_r_timer_p int_ge
r_timer_one timec p t =
    if int_ge timec (t.node p).tstart
    then (run_one p (record t { node = upd_node t.node p (restart timec (t.node p)) }), true)
    else (t, false)

abbrev pub note_call : Bool → ℕ → Option (RTimers × List ℕ) → Option (RTimers × List ℕ)
note_call called p none = none
note_call called p (some (t, calls)) = some (t, if called then p ∷ calls else calls)

-- The loop from node `p` on, on fuel: the timers afterwards and the nodes whose functions were called.
unfoldable pub r_timer_loop : ℕ → ℕ → ℕ → RTimers → Option (RTimers × List ℕ)
unfolding r_timer_one
r_timer_loop zero timec p t = none
r_timer_loop (suc fuel) timec p t =
    let p1 = t.links.next p in
    let (t', called) = r_timer_one timec p t in
    let rest = r_timer_loop fuel timec p1 t' in
    if p == max_rtimer then some (t, []) else note_call called p rest

-- `RTimerProc`
unfoldable pub r_timer_proc : ℕ → RTimers → Option (RTimers × List ℕ)
unfolding r_timer_loop
r_timer_proc timec t = r_timer_loop (max_rtimer + 1) timec (t.links.next max_rtimer) t
