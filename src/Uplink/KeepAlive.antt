-- ===== src/Uplink/KeepAlive.antt =====
-- The heartbeat counters of uplink/keepalive.c. The parameters, the line's state and whether a task
-- waits (`svrcomm_havetask`) are arguments; the counters stay far below the width of an `int`.
pub mod Due
use smart_home_xiugai.Prelude.{
  ℕ, ◌+◌, ◌*◌, ◌%◌, ◌^◌, ◌==◌, leb, ltb, if◌then◌else◌, Bool, true, false, not, ◌&&◌,
}

-- `keepalive_stat_t`
pub record KeepAlive : Type 0 where
  pub cnt : ℕ
  pub cnt_max : ℕ
  pub cnt_getcyc : ℕ
  pub cnt_retry : ℕ

-- What the functions read of `ParaUniG` and of `SvrCommLineState`, which is off, on or neither.
pub record Setting : Type 0 where
  pub keepalive_cyc : ℕ
  pub keepalive_sndretry : ℕ
  pub keepalive_dialtime : ℕ
  pub line_off : Bool
  pub line_on : Bool
  pub have_task : Bool

-- `GetCycKeepAlive`
unfoldable pub get_cyc_keep_alive : Setting → ℕ
get_cyc_keep_alive set = 10 * 60 * set.keepalive_cyc

-- `ClearKeepAlive`
unfoldable pub clear_keep_alive : Setting → KeepAlive → KeepAlive
unfolding get_cyc_keep_alive
clear_keep_alive set k = record {
  cnt = 0;
  cnt_max = get_cyc_keep_alive set;
  cnt_getcyc = 0;
  cnt_retry = 0;
}

-- The counters when a heartbeat falls due.
abbrev pub restarted : Setting → KeepAlive → KeepAlive
restarted set k = record k { cnt = 0; cnt_getcyc = 0; cnt_max = get_cyc_keep_alive set }

-- `KeepAliveProc`: the counters after it, and the returned 0 where a heartbeat is due.
unfoldable pub keep_alive_proc : Setting → KeepAlive → KeepAlive × ℕ
unfolding get_cyc_keep_alive
keep_alive_proc set k =
    let retries = set.keepalive_sndretry % 256 in
    let cnt_maxretry = if retries == 0 then 3 else retries in
    let dial = set.keepalive_dialtime % 256 * 10 in
    let cnt_timedail = if dial == 0 then 600 else dial in
    let ticked = record k { cnt = k.cnt + 1 } in
    let asked = record k { cnt_getcyc = k.cnt_getcyc + 1 } in
    let renewed = record k { cnt_getcyc = 0; cnt_max = get_cyc_keep_alive set } in
    if set.line_off && ltb 1800 k.cnt_max && ltb k.cnt_retry cnt_maxretry
    then if ltb cnt_timedail (k.cnt + 1) then (restarted set k, 0) else (ticked, 1)
    else if leb 100 k.cnt_max
    then if ltb k.cnt_max (k.cnt + 1) then (restarted set k, 0) else (ticked, 1)
    else if ltb 600 (k.cnt_getcyc + 1)
    then (renewed, 0)
    else (asked, 1)

-- `RefreshKeepAlive`
unfoldable pub refresh_keep_alive : Setting → KeepAlive → KeepAlive × ℕ
unfolding get_cyc_keep_alive
refresh_keep_alive set k =
    if set.line_on && leb 600 k.cnt && set.have_task then (restarted set k, 0) else (k, 1)

-- `SetKeepAlive`: 0 is a failed logon, 1 a good one, 2 a timeout.
unfoldable pub set_keep_alive : ℕ → KeepAlive → KeepAlive
set_keep_alive flag k =
    if flag == 1
    then record k { cnt_retry = 0 }
    else if flag == 2
    then record k { cnt = k.cnt_max + 1 }
    else k
