-- ===== src/Alarm/Ring.antt =====
-- The alarm ring as a bounded queue: what is kept, and what an alarm saved does to it.
use smart_home_xiugai.Prelude.{
  ℕ, ◌+◌, ◌%◌, ◌<◌, ◌≤◌, ◌≡◌, refl, List, length, arith, ◌==◌, leb, if◌then◌else◌, true, false, not,
  ◌∙◌, length-set, Bool-cases, inl, inr, Bool, Option, some, ◌||◌,
}
use mathlib.Core.Path.{subst}
use mathlib.Core.Option.{some-injective}
use smart_home_xiugai.Alarm.{
  RunState, Store, Clock, max_alarm, save_run_state, save_file, update_entry, update_alarm,
  advance_cur, save_entry, save_alarm, lock_alarm, clear_alarm, open_entry, make_alarm, seek_snd,
  active_send_alarm,
}

-- The indices stand in the ring; `snd` may have just left it.
pub record InRing (r : RunState) : Type 0 where
  pub head : r.head < max_alarm
  pub cur : r.cur < max_alarm
  pub snd : r.snd ≤ max_alarm

pub record IsRing (s : Store) : Type 0 where
  pub run : InRing s.run
  pub room : length s.cache ≡ max_alarm

pub advance_cur_lem :
    (r : RunState)
    → r.head < max_alarm
    → r.cur < max_alarm
    → ((advance_cur r).cur ≡ (r.cur + 1) % max_alarm)
      × ((advance_cur r).head
          ≡ (if (r.cur + 1) % max_alarm == r.head then (r.head + 1) % max_alarm else r.head))
      × ((advance_cur r).snd ≡ r.snd)
      × ((advance_cur r).playstate ≡ r.playstate)
unfolding advance_cur
advance_cur_lem r h c = (ground arith, ground arith, refl, refl)

advance_cur-InRing : (r : RunState) → InRing r → InRing (advance_cur r)
advance_cur-InRing r i =
    let (c, h, n, p) = advance_cur_lem r i.head i.cur in
    record { head = rw h (ground (arith, i.head)); cur = omega (arith, c); snd = rw n i.snd }

save_entry-IsRing : (clock : Clock) (p : ℕ) (s : Store) → IsRing s → IsRing (save_entry clock p s)
unfolding save_entry save_run_state save_file
save_entry-IsRing clock p s v =
    let i = advance_cur-InRing s.run v.run in
    record {
      run = record { head = i.head; cur = i.cur; snd = i.snd };
      room = length-set _ _ _ ∙ length-set _ _ _ ∙ v.room;
    }

update_entry-IsRing :
    (clock : Clock) (p : ℕ) (s : Store) → IsRing s → IsRing (update_entry clock p s)
unfolding update_entry save_file
update_entry-IsRing clock p s v = record {
  run = v.run;
  room = length-set _ _ _ ∙ length-set _ _ _ ∙ v.room;
}

clear_alarm-IsRing : (s : Store) → IsRing s → IsRing (clear_alarm s)
unfolding clear_alarm
clear_alarm-IsRing s v = record {
  run = record { head = omega arith; cur = omega arith; snd = omega arith };
  room = v.room;
}

-- What holds of both branches holds of the conditional.
if_both : {A : Type 0} (P : A → Type 0) (b : Bool) {x y : A} → P x → P y → P (if b then x else y)
if_both P true px py = px
if_both P false px py = py

open_entry-InRing : (r : RunState) → InRing r → InRing (open_entry r)
unfolding open_entry
open_entry-InRing r i =
    let i1 : InRing (if r.playstate == 1 then advance_cur r else r) =
      if_both InRing _ (advance_cur-InRing r i) i in
    let i2 =
      if_both InRing
        (leb max_alarm (if r.playstate == 1 then advance_cur r else r).head
          || leb max_alarm (if r.playstate == 1 then advance_cur r else r).cur)
        {x = record (if r.playstate == 1 then advance_cur r else r) { head = 0; cur = 0 }}
        (record { head = omega arith; cur = omega arith; snd = i1.snd }) i1 in
    record { head = i2.head; cur = i2.cur; snd = i2.snd }

make_alarm-IsRing : (clock : Clock) (p : ℕ) (s : Store) → IsRing s → IsRing (make_alarm clock p s)
unfolding make_alarm save_run_state
make_alarm-IsRing clock p s v =
    if_both IsRing (not (clock.year == 17)) v
      (record { run = open_entry-InRing s.run v.run; room = length-set _ _ _ ∙ v.room })

pub seek_snd-lt : (r : RunState) → seek_snd r.head r.cur r.snd < max_alarm
unfolding seek_snd
seek_snd-lt r = ground arith

pub active_send_alarm-IsRing : (s : Store) → IsRing s → IsRing (active_send_alarm s).1
unfolding active_send_alarm save_run_state
active_send_alarm-IsRing s v =
    let next : ℕ = seek_snd s.run.head s.run.cur s.run.snd in
    let low : next < max_alarm = seek_snd-lt s.run in
    if_both (λ (t : Option (List ℕ) × Store). IsRing t.1) (s.run.cur == s.run.head) v
      (if_both (λ (t : Option (List ℕ) × Store). IsRing t.1) (next == s.run.cur)
        (record {
          run = record { head = v.run.head; cur = v.run.cur; snd = omega arith };
          room = v.room;
        })
        (record {
          run = record { head = v.run.head; cur = v.run.cur; snd = omega arith };
          room = v.room;
        }))

locked-IsRing : (s : Store) → IsRing s → IsRing (record s { locked = true })
locked-IsRing s v = record { run = v.run; room = v.room }

save_alarm-IsRing :
    (clock : Clock) (p : ℕ) (s s' : Store) → IsRing s → save_alarm clock p s ≡ some s' → IsRing s'
unfolding save_alarm lock_alarm
save_alarm-IsRing clock p s s' v e = elim (Bool-cases s.locked) [
  | inl held ↦ absurd (cc (rw held at e))
  | inr free ↦ subst IsRing (some-injective _ _ (rw free at e)) (
      if_both IsRing (not (clock.year == 17)) (locked-IsRing s v)
        (save_entry-IsRing clock p _ (locked-IsRing s v)))
]

update_alarm-IsRing :
    (clock : Clock) (p : ℕ) (s s' : Store) → IsRing s → update_alarm clock p s ≡ some s' → IsRing s'
unfolding update_alarm lock_alarm
update_alarm-IsRing clock p s s' v e = elim (Bool-cases s.locked) [
  | inl held ↦ absurd (cc (rw held at e))
  | inr free ↦ subst IsRing (some-injective _ _ (rw free at e)) (
      if_both IsRing (not (clock.year == 17)) (locked-IsRing s v)
        (update_entry-IsRing clock p _ (locked-IsRing s v)))
]

-- Any sequence of the operations that the program runs on the ring.
pub data Ran (s : Store) : Store → Type 0 where
  started : Ran s s
  saved : (clock : Clock) (p : ℕ) {t u : Store} → Ran s t → save_alarm clock p t ≡ some u → Ran s u
  updated :
      (clock : Clock) (p : ℕ) {t u : Store} → Ran s t → update_alarm clock p t ≡ some u → Ran s u
  made : (clock : Clock) (p : ℕ) {t : Store} → Ran s t → Ran s (make_alarm clock p t)
  cleared : {t : Store} → Ran s t → Ran s (clear_alarm t)
  asked : {t : Store} → Ran s t → Ran s (active_send_alarm t).1

-- Whatever sequence of saves, updates, new alarms, clears and sends runs on a store whose indices are
-- in the ring and whose cache has 1024 entries, the store it leaves is again such a store.
pub Ran-IsRing : {s t : Store} → IsRing s → Ran s t → IsRing t
Ran-IsRing v started = v
Ran-IsRing v (saved clock p {t} {u} r e) = save_alarm-IsRing clock p t u (Ran-IsRing v r) e
Ran-IsRing v (updated clock p {t} {u} r e) = update_alarm-IsRing clock p t u (Ran-IsRing v r) e
Ran-IsRing v (made clock p {t} r) = make_alarm-IsRing clock p t (Ran-IsRing v r)
Ran-IsRing v (cleared {t} r) = clear_alarm-IsRing t (Ran-IsRing v r)
Ran-IsRing v (asked {t} r) = active_send_alarm-IsRing t (Ran-IsRing v r)
