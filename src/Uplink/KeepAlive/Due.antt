-- ===== src/Uplink/KeepAlive/Due.antt =====
-- A heartbeat falls due in a bounded number of calls.
use smart_home_xiugai.Prelude.{
  ℕ, zero, suc, ◌+◌, ◌*◌, ◌≤◌, ◌≡◌, refl, leb, ltb, if◌then◌else◌, true, false, arith,
}
use smart_home_xiugai.Uplink.KeepAlive.{
  KeepAlive, Setting, get_cyc_keep_alive, keep_alive_proc, set_keep_alive,
}

-- On a line that is not off and with a period of at least 100: one call counts up or is due.
proc_on :
    (set : Setting) (k : KeepAlive)
    → set.line_off ≡ false
    → 100 ≤ k.cnt_max
    → keep_alive_proc set k ≡ (
        if ltb k.cnt_max (k.cnt + 1)
        then (record k { cnt = 0; cnt_getcyc = 0; cnt_max = get_cyc_keep_alive set }, 0)
        else (record k { cnt = k.cnt + 1 }, 1))
unfolding keep_alive_proc
proc_on set k on long = let yes : leb 100 k.cnt_max ≡ true = ground arith in rw (on, yes) refl

-- The counters after `n` calls, none of which looks at the return value.
unfoldable pub keep_alive_calls : Setting → ℕ → KeepAlive → KeepAlive
unfolding keep_alive_proc
keep_alive_calls set zero k = k
keep_alive_calls set (suc n) k = keep_alive_calls set n (keep_alive_proc set k).0

calls_zero : (set : Setting) (k : KeepAlive) → keep_alive_calls set 0 k ≡ k
unfolding keep_alive_calls
calls_zero set k = refl

calls_suc :
    (set : Setting) (n : ℕ) (k : KeepAlive)
    → keep_alive_calls set (suc n) k ≡ keep_alive_calls set n (keep_alive_proc set k).0
unfolding keep_alive_calls
calls_suc set n k = refl

-- On a line that is not off, with a period of at least 100 calls and the counter `n` calls before its
-- end, the call of `KeepAliveProc` that follows `n` calls returns 0, with the counter at 0 and the
-- period read again from the parameters.
pub keep_alive_proc-due :
    (n : ℕ) (set : Setting) (k : KeepAlive)
    → set.line_off ≡ false
    → 100 ≤ k.cnt_max
    → k.cnt + n ≡ k.cnt_max
    → let (k', rtn) = keep_alive_proc set (keep_alive_calls set n k) in
      (rtn ≡ 0) × (k'.cnt ≡ 0) × (k'.cnt_max ≡ 600 * set.keepalive_cyc)
unfolding get_cyc_keep_alive
keep_alive_proc-due zero set k on long e =
    let late : ltb k.cnt_max (k.cnt + 1) ≡ true = ground arith in
    rw (calls_zero set k, proc_on set k on long, late) (refl, refl, omega arith)
keep_alive_proc-due (suc n) set k on long e =
    let early : ltb k.cnt_max (k.cnt + 1) ≡ false = ground arith in
    rw (calls_suc set n k, proc_on set k on long, early)
      (keep_alive_proc-due n set (record k { cnt = k.cnt + 1 }) on long (omega arith))

-- A timeout makes the next call due, on such a line: `SetKeepAlive` moves the counter past the period.
pub set_keep_alive_timeout :
    (set : Setting) (k : KeepAlive)
    → set.line_off ≡ false
    → 100 ≤ k.cnt_max
    → (keep_alive_proc set (set_keep_alive 2 k)).1 ≡ 0
unfolding set_keep_alive
set_keep_alive_timeout set k on long =
    let late : ltb k.cnt_max (k.cnt_max + 1 + 1) ≡ true = ground arith in
    rw (proc_on set (record k { cnt = k.cnt_max + 1 }) on long, late) refl
