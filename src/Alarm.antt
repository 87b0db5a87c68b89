-- ===== src/Alarm.antt =====
-- The alarm ring of monitor/alarm.c with its part of the run state (monitor/runstate.c). An
-- `alarm_buf_t *` is an index into `AlarmCache`, where all callers' pointers point. Files are the
-- list of what `SaveBinFile` has been given, the newest first; the clock is an argument.
pub mod Ring
pub mod Queue
pub mod Lock
pub mod Files
pub mod Drain
use smart_home_xiugai.Prelude.{
  ℕ, zero, suc, ◌+◌, ◌-◌, ◌*◌, ◌/◌, ◌%◌, ◌^◌, List, [], ◌∷◌, ◌++◌, get_or, set, take, drop, u8, u16,
  ◌==◌, leb, ltb, if◌then◌else◌, Bool, true, false, not, Option, none, some, bit_and, ◌||◌, ◌&&◌,
}
use smart_home_xiugai.Bytes.{uc}

-- `alarm_buf_t`
pub record AlarmBuf : Type 0 where
  pub starttime : ℕ
  pub endtime : ℕ
  pub palyedid : ℕ

-- The `alarm` part of `runstate_tG`.
pub record RunState : Type 0 where
  pub head : ℕ
  pub cur : ℕ
  pub snd : ℕ
  pub playstate : ℕ

-- `RunStateG`, its copy in runstate.db, `AlarmCache`, whether `LockIdAlarm` is held, and the alarm
-- files written.
pub record Store : Type 0 where
  pub run : RunState
  pub stored : RunState
  pub cache : List AlarmBuf
  pub locked : Bool
  pub files : List (ℕ × List AlarmBuf)

-- What `SysClockReadCurrent` and `UTimeReadCurrent` answer.
pub record Clock : Type 0 where
  pub year : ℕ
  pub now : ℕ

abbrev pub max_alarm : ℕ
max_alarm = 1024

abbrev pub almnum_perfile : ℕ
almnum_perfile = 256

-- ALARM_BASEMASK: the complement of an `int`, cast to `unsigned char`.
unfoldable pub alarm_basemask : ℕ
alarm_basemask = u8 (2 ^ 32 - 1 - (almnum_perfile - 1))

abbrev pub empty_buf : AlarmBuf
empty_buf = record { starttime = 0; endtime = 0; palyedid = 0 }

abbrev pub buf_at : Store → ℕ → AlarmBuf
buf_at s i = get_or s.cache i empty_buf

abbrev pub put_buf : ℕ → AlarmBuf → Store → Store
put_buf i b s = record s { cache = set s.cache i b }

-- `AlarmFileName`: the number in the name.
unfoldable pub alarm_file_name : ℕ → ℕ
alarm_file_name offset = offset / almnum_perfile

-- `GetCurrentAlarm`
unfoldable pub get_current_alarm : Store → ℕ
unfolding alarm_basemask
get_current_alarm s = bit_and s.run.cur alarm_basemask

-- `SaveRunState`
unfoldable pub save_run_state : Store → Store
save_run_state s = record s { stored = s.run }

-- `LockSysLock`: a lock that is held is waited for.
unfoldable pub lock_alarm : Store → Option Store
lock_alarm s = if s.locked then none else some (record s { locked = true })

-- The 256 entries that one `SaveBinFile` of the ring is given.
unfoldable pub save_file : Store → Store
unfolding alarm_file_name alarm_basemask
save_file s =
    let idxbase = bit_and s.run.cur alarm_basemask in
    record s {
      files = (alarm_file_name s.run.cur, take almnum_perfile (drop idxbase s.cache)) ∷ s.files;
    }

-- `UpdateAlarm` behind the lock.
unfoldable pub update_entry : Clock → ℕ → Store → Store
unfolding save_file
update_entry clock p s =
    let s1 = put_buf s.run.cur (buf_at s p) s in
    let s2 = put_buf p (record (buf_at s1 p) { endtime = clock.now }) s1 in
    record (save_file s2) { locked = false }

unfoldable pub update_alarm : Clock → ℕ → Store → Option Store
unfolding lock_alarm update_entry
update_alarm clock p s = elim (lock_alarm s) [
  | none ↦ none
  | some s' ↦ some (if not (clock.year == 17) then s' else update_entry clock p s')
]

-- `cur++` with its wrap, and `head++` where it catches up.
unfoldable pub advance_cur : RunState → RunState
advance_cur r =
    let c = u16 (r.cur + 1) in
    let cur = if leb max_alarm c then 0 else c in
    let h = u16 (r.head + 1) in
    let next = if leb max_alarm h then 0 else h in
    record r { cur = cur; head = if cur == r.head then next else r.head }

-- `SaveAlarm` behind the lock.
unfoldable pub save_entry : Clock → ℕ → Store → Store
unfolding save_file advance_cur save_run_state
save_entry clock p s =
    let s1 = put_buf p (record (buf_at s p) { endtime = clock.now }) s in
    let s2 = save_file (put_buf s1.run.cur (buf_at s1 p) s1) in
    let s3 = record s2 { run = record (advance_cur s2.run) { playstate = 0 } } in
    record (save_run_state s3) { locked = false }

unfoldable pub save_alarm : Clock → ℕ → Store → Option Store
unfolding lock_alarm save_entry
save_alarm clock p s = elim (lock_alarm s) [
  | none ↦ none
  | some s' ↦ some (if not (clock.year == 17) then s' else save_entry clock p s')
]

-- `ClearAlarm`
unfoldable pub clear_alarm : Store → Store
clear_alarm s = record s { run = record (s.run) { head = 0; cur = 0; snd = 0 } }

-- `MakeAlarmG` on a pointer that is not null: it goes on to the next entry if one is open already,
-- and starts over if the indices are out of range.
unfoldable pub open_entry : RunState → RunState
unfolding advance_cur
open_entry r =
    let r1 = if r.playstate == 1 then advance_cur r else r in
    let r2 =
      if leb max_alarm r1.head || leb max_alarm r1.cur
      then record r1 { head = 0; cur = 0 }
      else r1 in
    record r2 { playstate = 1 }

unfoldable pub make_alarm : Clock → ℕ → Store → Store
unfolding open_entry save_run_state
make_alarm clock p s =
    if not (clock.year == 17)
    then s
    else save_run_state (
        put_buf p (record (buf_at s p) { starttime = clock.now; endtime = clock.now })
          (record s { run = open_entry s.run }))

-- `FormatAlarm`: the bytes that it copies on a little-endian machine.
unfoldable pub format_alarm : AlarmBuf → List ℕ
format_alarm b = word b.starttime ++ word b.endtime
  where
    word : ℕ → List ℕ
    word t = uc t 0 ∷ uc t 1 ∷ uc t 2 ∷ uc t 3 ∷ []

-- `ActiveSendAlarm` before it sends: `snd` is brought back into the ring.
unfoldable pub seek_snd : ℕ → ℕ → ℕ → ℕ
seek_snd head cur snd =
    let snd1 =
      if ltb head cur
      then if ltb cur snd || ltb snd head then head else snd
      else if ltb cur snd && ltb snd head
      then head
      else snd in
    if leb max_alarm snd1 then 0 else snd1

-- `ActiveSendAlarm`: `none` and the store where it returns -1, the bytes sent where it returns 0.
unfoldable pub active_send_alarm : Store → Option (List ℕ) × Store
unfolding seek_snd format_alarm save_run_state
active_send_alarm s =
    if s.run.cur == s.run.head
    then (none, s)
    else let r = record (s.run) { snd = seek_snd s.run.head s.run.cur s.run.snd } in
      if r.snd == r.cur then (none, record s { run = r }) else (
        some (format_alarm (buf_at s r.snd)),
        save_run_state (record s { run = record r { snd = u16 (r.snd + 1) } }),
      )

-- The loop of `AlarmProc` (uplink/svrcomm.c) over `ActiveSendAlarm`: what it hands to the link, in
-- order, and whether the loop came to its end within `fuel` rounds.
unfoldable pub alarm_proc : ℕ → Store → List (List ℕ) × Store × Bool
unfolding active_send_alarm
alarm_proc zero s = ([], s, false)
alarm_proc (suc fuel) s =
    let (entry, s') = active_send_alarm s in
    let (sent, last, done) = alarm_proc fuel s' in
    elim entry [ none ↦ ([], s', true) | some bytes ↦ (bytes ∷ sent, last, done) ]
