-- ===== src/Alarm/Drain.antt =====
-- The alarms that the link is given, when the ring is asked until it has no more.
use smart_home_xiugai.Prelude.{
  ℕ, zero, suc, ◌+◌, ◌-◌, ◌%◌, ◌<◌, ◌≡◌, ◌≢◌, refl, List, [], ◌∷◌, get_or, arith, ◌==◌,
  if◌then◌else◌, true, false, ap, ◌∙◌, Bool-cases, inl, inr, u16, none, some,
}
use smart_home_xiugai.Alarm.{
  AlarmBuf, RunState, Store, max_alarm, empty_buf, buf_at, save_run_state, seek_snd, format_alarm,
  active_send_alarm, alarm_proc,
}
use smart_home_xiugai.Alarm.Ring.{IsRing, seek_snd-lt, active_send_alarm-IsRing}

-- The alarms not yet sent: how many, and their bytes in the order of the ring.
abbrev pub unsent : RunState → ℕ
unsent r =
    if r.cur == r.head then 0 else (r.cur + max_alarm - seek_snd r.head r.cur r.snd) % max_alarm

unfoldable pub pending : Store → ℕ → ℕ → List (List ℕ)
pending s i zero = []
pending s i (suc n) = format_alarm (buf_at s i) ∷ pending s ((i + 1) % max_alarm) n

seek_next :
    (head cur snd : ℕ)
    → head < max_alarm
    → cur < max_alarm
    → cur ≢ head
    → seek_snd head cur snd ≢ cur
    → seek_snd head cur (u16 (seek_snd head cur snd + 1)) ≡ (seek_snd head cur snd + 1) % max_alarm
unfolding seek_snd
seek_next head cur snd h c ne more = ground arith

-- One call of `ActiveSendAlarm` on a ring: it has nothing to send, or sends the first that is pending.
send_none : (s : Store) → unsent s.run ≡ 0 → IsRing s → (active_send_alarm s).0 ≡ none
unfolding active_send_alarm
send_none s e v =
    let next : ℕ = seek_snd s.run.head s.run.cur s.run.snd in
    let low : next < max_alarm = seek_snd-lt s.run in
    elim (Bool-cases (s.run.cur == s.run.head)) [
      | inl empty ↦ rw empty refl
      | inr some_left ↦
          let at_end : (next == s.run.cur) ≡ true = ground (arith, v.run.cur) in
          rw (some_left, at_end) refl
    ]

record Sends (s : Store) (n : ℕ) : Type 0 where
  data_sent :
      (active_send_alarm s).0
      ≡ some (format_alarm (buf_at s (seek_snd s.run.head s.run.cur s.run.snd)))
  cache : (active_send_alarm s).1.cache ≡ s.cache
  head : (active_send_alarm s).1.run.head ≡ s.run.head
  cur : (active_send_alarm s).1.run.cur ≡ s.run.cur
  snd : (active_send_alarm s).1.run.snd ≡ u16 (seek_snd s.run.head s.run.cur s.run.snd + 1)

send_some : (s : Store) (n : ℕ) → unsent s.run ≡ suc n → IsRing s → Sends s n
unfolding active_send_alarm save_run_state
send_some s n e v =
    let next : ℕ = seek_snd s.run.head s.run.cur s.run.snd in
    let low : next < max_alarm = seek_snd-lt s.run in
    let some_left : (s.run.cur == s.run.head) ≡ false = ground (arith, v.run.cur) in
    let more : (next == s.run.cur) ≡ false = ground (arith, v.run.cur) in
    record {
      data_sent = rw (some_left, more) refl;
      cache = rw (some_left, more) refl;
      head = rw (some_left, more) refl;
      cur = rw (some_left, more) refl;
      snd = rw (some_left, more) refl;
    }

pending-cache : (s t : Store) (i n : ℕ) → s.cache ≡ t.cache → pending s i n ≡ pending t i n
unfolding pending
pending-cache s t i zero e = refl
pending-cache s t i (suc n) e =
    ap
      (λ (c : List AlarmBuf).
        format_alarm (get_or c i empty_buf) ∷ pending s ((i + 1) % max_alarm) n)
      e
    ∙ ap (◌∷◌ (format_alarm (buf_at t i))) (pending-cache s t ((i + 1) % max_alarm) n e)

-- After a send, one alarm less is pending, and the next in the ring is the first.
module _ (s : Store) (n : ℕ) (e : unsent s.run ≡ suc n) (v : IsRing s) where
  abbrev left : Store
  left = (active_send_alarm s).1

  apart : (s.run.cur ≢ s.run.head) × (seek_snd s.run.head s.run.cur s.run.snd ≢ s.run.cur)
  apart = (ground (arith, v.run.cur), ground (arith, v.run.cur))

  seek-left :
      seek_snd left.run.head left.run.cur left.run.snd
      ≡ (seek_snd s.run.head s.run.cur s.run.snd + 1) % max_alarm
  seek-left =
      let t = send_some s n e v in
      rw (t.head, t.cur, t.snd)
        (seek_next s.run.head s.run.cur s.run.snd v.run.head v.run.cur apart.0 apart.1)

  unsent-left : unsent left.run ≡ n
  unsent-left =
      let t = send_some s n e v in
      let low : seek_snd s.run.head s.run.cur s.run.snd < max_alarm = seek_snd-lt s.run in
      ground (arith, seek-left, t.head, t.cur, v.run.cur, apart)

alarm_proc-stop :
    (fuel : ℕ) (s : Store)
    → (active_send_alarm s).0 ≡ none
    → alarm_proc (suc fuel) s ≡ ([], (active_send_alarm s).1, true)
unfolding alarm_proc
alarm_proc-stop fuel s e = rw (e, alarm_proc) refl

alarm_proc-send :
    (fuel : ℕ) (s : Store) (bytes : List ℕ)
    → (active_send_alarm s).0 ≡ some bytes
    → let (sent, last, done) = alarm_proc fuel (active_send_alarm s).1 in
      alarm_proc (suc fuel) s ≡ (bytes ∷ sent, last, done)
unfolding alarm_proc
alarm_proc-send fuel s bytes e = rw (e, alarm_proc) refl

-- On a ring with `n` alarms unsent, the loop of `AlarmProc` comes to its end within `n + 1` calls of
-- `ActiveSendAlarm`, whatever more fuel it has, and has handed over the bytes of exactly the unsent
-- alarms, in the order of the ring from the one that `snd` stands at.
pub alarm_proc-drains :
    (n fuel : ℕ) (s : Store)
    → IsRing s
    → unsent s.run ≡ n
    → n < fuel
    → let (sent, last, done) = alarm_proc fuel s in
      (sent ≡ pending s (seek_snd s.run.head s.run.cur s.run.snd) n) × (done ≡ true)
unfolding pending
alarm_proc-drains n zero s v e h = elim h [ ]
alarm_proc-drains zero (suc fuel) s v e h =
    rw (alarm_proc-stop fuel s (send_none s e v)) (refl, refl)
alarm_proc-drains (suc n) (suc fuel) s v e h =
    let t = send_some s n e v in
    let (sent, done) =
      alarm_proc-drains n fuel (left s n e v) (active_send_alarm-IsRing s v) (unsent-left s n e v)
        (omega arith) in
    rw (alarm_proc-send fuel s _ t.data_sent) (
      ap (◌∷◌ (format_alarm (buf_at s (seek_snd s.run.head s.run.cur s.run.snd)))) (
          sent
          ∙ ap (λ (i : ℕ). pending (left s n e v) i n) (seek-left s n e v)
          ∙ pending-cache (left s n e v) s _ n t.cache),
      done,
    )
