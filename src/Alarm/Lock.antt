-- ===== src/Alarm/Lock.antt =====
-- The lock around the ring.
use smart_home_xiugai.Prelude.{ℕ, ◌≡◌, ◌≢◌, refl, ◌∙◌, ◌==◌, ==_iff, true, false, none, some, arith}
use smart_home_xiugai.Alarm.{
  Store, Clock, update_alarm, save_entry, save_alarm, lock_alarm, make_alarm, clear_alarm,
  save_run_state, active_send_alarm,
}
use smart_home_xiugai.Alarm.Ring.{Ran, started, saved, updated, made, cleared, asked}

save_entry-free : (clock : Clock) (p : ℕ) (s : Store) → (save_entry clock p s).locked ≡ false
unfolding save_entry
save_entry-free clock p s = refl

-- A caller that finds the lock held waits for it.
blocked :
    (clock : Clock) (p : ℕ) (s : Store)
    → s.locked ≡ true
    → (save_alarm clock p s ≡ none) × (update_alarm clock p s ≡ none)
unfolding save_alarm update_alarm lock_alarm
blocked clock p s h = (rw h refl, rw h refl)

-- From a free lock, `SaveAlarm` in the year 2017 returns, with the lock free.
pub save_alarm-releases :
    (clock : Clock) (p : ℕ) (s : Store)
    → s.locked ≡ false
    → clock.year ≡ 17
    → (s' : Store) × (save_alarm clock p s ≡ some s') × (s'.locked ≡ false)
unfolding save_alarm lock_alarm
save_alarm-releases clock p s free e =
    let yes : (clock.year == 17) ≡ true = (==_iff clock.year 17).1 e in
    let taken : Store = record s { locked = true } in
    (save_entry clock p taken, rw (free, yes) refl, save_entry-free clock p taken)

-- The operations that do not take the lock leave it as it is.
make_alarm-locked : (clock : Clock) (p : ℕ) (s : Store) → (make_alarm clock p s).locked ≡ s.locked
unfolding make_alarm save_run_state
make_alarm-locked clock p s = ground arith

clear_alarm-locked : (s : Store) → (clear_alarm s).locked ≡ s.locked
unfolding clear_alarm
clear_alarm-locked s = refl

active_send_alarm-locked : (s : Store) → (active_send_alarm s).1.locked ≡ s.locked
unfolding active_send_alarm save_run_state
active_send_alarm-locked s = ground arith

-- Once the lock is held, no sequence of operations frees it: those that would free it wait.
Ran-locked : {s t : Store} → s.locked ≡ true → Ran s t → t.locked ≡ true
Ran-locked h started = h
Ran-locked h (saved clock p {t} {u} r e) = absurd (cc ((blocked clock p t (Ran-locked h r)).0, e))
Ran-locked h (updated clock p {t} {u} r e) = absurd (cc ((blocked clock p t (Ran-locked h r)).1, e))
Ran-locked h (made clock p {t} r) = make_alarm-locked clock p t ∙ Ran-locked h r
Ran-locked h (cleared {t} r) = clear_alarm-locked t ∙ Ran-locked h r
Ran-locked h (asked {t} r) = active_send_alarm-locked t ∙ Ran-locked h r

-- From a free lock, `SaveAlarm` in another year than 2017 returns and has changed nothing but the lock,
-- which is held. Whatever operations on the ring run from there, new alarms, clears and sends among
-- them, every later `SaveAlarm` and `UpdateAlarm`, in whatever year, waits for ever.
pub save_alarm-leaks :
    (clock : Clock) (p : ℕ) (s t : Store)
    → clock.year ≢ 17
    → s.locked ≡ false
    → Ran (record s { locked = true }) t
    → (later : Clock) (q : ℕ)
    → (save_alarm clock p s ≡ some (record s { locked = true }))
      × (save_alarm later q t ≡ none)
      × (update_alarm later q t ≡ none)
unfolding save_alarm lock_alarm
save_alarm-leaks clock p s t other free r later q =
    let no : (clock.year == 17) ≡ false = ground (arith, other) in
    let (saving, updating) = blocked later q t (Ran-locked refl r) in
    (rw (free, no) refl, saving, updating)
