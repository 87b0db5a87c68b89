-- ===== src/Tests/Heartbeat.antt =====
-- A heartbeat due two calls from now, and one due at once.
use smart_home_xiugai.Prelude.{◌*◌, ◌≡◌, refl, true, false, arith}
use smart_home_xiugai.Uplink.KeepAlive.{KeepAlive, Setting, keep_alive_proc}
use smart_home_xiugai.Uplink.KeepAlive.Due.{keep_alive_calls, keep_alive_proc-due}

abbrev setting : Setting
setting = record {
  keepalive_cyc = 15;
  keepalive_sndretry = 3;
  keepalive_dialtime = 0;
  line_off = false;
  line_on = true;
  have_task = false;
}

abbrev counters : KeepAlive
counters = record { cnt = 8998; cnt_max = 9000; cnt_getcyc = 0; cnt_retry = 0 }

keep_alive_proc-due_example :
    let (k', rtn) = keep_alive_proc setting (keep_alive_calls setting 2 counters) in
    (rtn ≡ 0) × (k'.cnt ≡ 0) × (k'.cnt_max ≡ 600 * 15)
keep_alive_proc-due_example = keep_alive_proc-due 2 setting counters refl (omega arith) refl
