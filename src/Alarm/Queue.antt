-- ===== src/Alarm/Queue.antt =====
-- An alarm saved is a push on a bounded queue of 1023 alarms that drops its oldest.
use smart_home_xiugai.Prelude.{
  ℕ, ◌+◌, ◌-◌, ◌%◌, ◌<◌, ◌≡◌, ◌≢◌, get_or, set, arith, ◌==◌, if◌then◌else◌, ap, ◌∙◌, sym,
  get_or-set_self, get_or-set_ne, length-set,
}
use smart_home_xiugai.Alarm.{
  AlarmBuf, RunState, Store, Clock, max_alarm, empty_buf, buf_at, put_buf, save_run_state,
  save_file, save_entry,
}
use smart_home_xiugai.Alarm.Ring.{IsRing, advance_cur_lem}

-- The number of alarms kept, and the one at a place counted from the oldest.
abbrev pub count : RunState → ℕ
count r = (r.cur + max_alarm - r.head) % max_alarm

abbrev pub slot : Store → ℕ → AlarmBuf
slot s i = buf_at s ((s.run.head + i) % max_alarm)

-- How many alarms a push drops.
abbrev pub dropped : RunState → ℕ
dropped r = if count r == max_alarm - 1 then 1 else 0

-- The alarm at `p` with its end time set.
abbrev pub stamped : Clock → ℕ → Store → AlarmBuf
stamped clock p s = record (buf_at s p) { endtime = clock.now }

module _ (clock : Clock) (p : ℕ) (s : Store) (v : IsRing s) (inside : p < max_alarm) where
  abbrev after : Store
  after = save_entry clock p s

  after_head : after.run.head ≡ (s.run.head + dropped s.run) % max_alarm
  unfolding save_entry save_run_state save_file
  after_head =
      (advance_cur_lem s.run v.run.head v.run.cur).1 ∙ ground (arith, v.run.head, v.run.cur)

  after_cur : after.run.cur ≡ (s.run.cur + 1) % max_alarm
  unfolding save_entry save_run_state save_file
  after_cur = (advance_cur_lem s.run v.run.head v.run.cur).0

  after_count : count after.run ≡ count s.run + 1 - dropped s.run
  after_count = ground (arith, after_head, after_cur, v.run.head, v.run.cur)

  -- The cache: the entry at `p` is stamped, and copied to `cur`.
  after_buf :
      (i : ℕ)
      → buf_at after i
        ≡ get_or (set (set s.cache p (stamped clock p s)) s.run.cur (stamped clock p s)) i empty_buf
  unfolding save_entry save_run_state save_file
  after_buf i =
      ap
        (λ (b : AlarmBuf). get_or (set (set s.cache p (stamped clock p s)) s.run.cur b) i empty_buf)
        (get_or-set_self s.cache p (stamped clock p s) empty_buf (omega (arith, v.room)))

  newest : slot after (count s.run - dropped s.run) ≡ stamped clock p s
  newest =
      let place : (after.run.head + (count s.run - dropped s.run)) % max_alarm ≡ s.run.cur =
        ground (arith, after_head, v.run.head, v.run.cur) in
      ap (buf_at after) place
      ∙ after_buf s.run.cur
      ∙ get_or-set_self _ s.run.cur (stamped clock p s) empty_buf
          (rw length-set (omega (arith, v.room, v.run.cur)))

  older :
      (i : ℕ)
      → i < count s.run - dropped s.run
      → slot after i ≡ slot (put_buf p (stamped clock p s) s) (i + dropped s.run)
  older i h =
      let place : (after.run.head + i) % max_alarm
          ≡ (s.run.head + (i + dropped s.run)) % max_alarm =
        ground (arith, after_head) in
      let other : (s.run.head + (i + dropped s.run)) % max_alarm ≢ s.run.cur =
        ground (arith, v.run.head, v.run.cur) in
      ap (buf_at after) place
      ∙ after_buf _
      ∙ get_or-set_ne _ s.run.cur _ (stamped clock p s) empty_buf (λ e. other (sym e))

-- On a ring, `SaveAlarm` behind its lock, for a pointer into the cache, is a push: the alarm with its
-- end time set is the newest, the ones kept before follow in their order (the one at the pointer with
-- its end time set as well), and where 1023 are kept already, and only there, the oldest is dropped.
pub save_entry-push :
    (clock : Clock) (p : ℕ) (s : Store)
    → IsRing s
    → p < max_alarm
    → let s' = save_entry clock p s in
      let kept = count s.run - dropped s.run in
      (count s'.run ≡ kept + 1)
      × (slot s' kept ≡ stamped clock p s)
      × ((i : ℕ)
          → i < kept
          → slot s' i ≡ slot (put_buf p (stamped clock p s) s) (i + dropped s.run))
save_entry-push clock p s v inside = (
  ground (arith, after_count clock p s v inside),
  newest clock p s v inside,
  older clock p s v inside,
)
