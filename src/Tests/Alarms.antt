-- ===== src/Tests/Alarms.antt =====
-- The alarm ring with three alarms, one of them sent.
use smart_home_xiugai.Prelude.{
  ℕ, ◌+◌, ◌-◌, ◌<◌, [], ◌∷◌, replicate, true, false, refl, ◌≡◌, arith, none, some,
}
use smart_home_xiugai.Alarm.{
  RunState, Store, Clock, empty_buf, seek_snd, put_buf, save_alarm, save_entry, update_alarm,
  make_alarm, clear_alarm, alarm_proc,
}
use smart_home_xiugai.Alarm.Ring.{IsRing, started, made, cleared, Ran-IsRing}
use smart_home_xiugai.Alarm.Queue.{count, slot, dropped, stamped, save_entry-push}
use smart_home_xiugai.Alarm.Lock.{save_alarm-leaks}
use smart_home_xiugai.Alarm.Drain.{pending, unsent, alarm_proc-drains}

abbrev running : RunState
running = record { head = 1022; cur = 1; snd = 1023; playstate = 0 }

abbrev ring : Store
ring = record {
  run = running;
  stored = running;
  cache = record { starttime = 5; endtime = 6; palyedid = 0 } ∷ replicate 1023 empty_buf;
  locked = false;
  files = [];
}

abbrev noon : Clock
noon = record { year = 17; now = 1000 }

abbrev later_year : Clock
later_year = record { year = 18; now = 2000 }

ring-IsRing : IsRing ring
ring-IsRing = record {
  run = record { head = omega arith; cur = omega arith; snd = omega arith };
  room = refl;
}

save_entry-push_example :
    let s' = save_entry noon 0 ring in
    let kept = count running - dropped running in
    (count s'.run ≡ kept + 1)
    × (slot s' kept ≡ stamped noon 0 ring)
    × ((i : ℕ)
        → i < kept
        → slot s' i ≡ slot (put_buf 0 (stamped noon 0 ring) ring) (i + dropped running))
save_entry-push_example = save_entry-push noon 0 ring ring-IsRing (omega arith)

unsent_two : unsent running ≡ 2
unfolding seek_snd
unsent_two = refl

alarm_proc-drains_example :
    let (sent, last, done) = alarm_proc 10 ring in
    (sent ≡ pending ring (seek_snd 1022 1 1023) 2) × (done ≡ true)
alarm_proc-drains_example = alarm_proc-drains 2 10 ring ring-IsRing unsent_two (omega arith)

Ran-IsRing_example : IsRing (clear_alarm (make_alarm noon 0 ring))
Ran-IsRing_example = Ran-IsRing ring-IsRing (cleared (made noon 0 started))

-- The lock is left, a new alarm begins, and all are cleared.
abbrev after_clear : Store
after_clear = clear_alarm (make_alarm noon 0 (record ring { locked = true }))

save_alarm-leaks_example :
    (save_alarm later_year 0 ring ≡ some (record ring { locked = true }))
    × (save_alarm noon 1 after_clear ≡ none)
    × (update_alarm noon 1 after_clear ≡ none)
save_alarm-leaks_example =
    save_alarm-leaks later_year 0 ring after_clear (λ e. omega arith) refl
      (cleared (made noon 0 started)) noon 1

abbrev far_ring : Store
far_ring = record ring { run = record { head = 0; cur = 300; snd = 0; playstate = 0 } }
