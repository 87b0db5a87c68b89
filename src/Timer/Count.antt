-- ===== src/Timer/Count.antt =====
-- Timers that count passes: `SysAddCTimer`, `SysStopCTimer`, `StopCTimerP`, `SysClearCTimer` and
-- `CTimerProc` of sys/syscall/timer.c. `CTimerBuffer` is kept field by field, `CTimerList` is the node
-- behind its last. Each function holds `CTimerMutex` from its first access to its last, so it is one
-- step; what a timer's function answers is an argument.
pub mod Order
pub mod Pass
pub mod Shows
pub mod Stop
pub mod Reach
pub mod Period
use smart_home_xiugai.Prelude.{
  ℕ, zero, suc, ◌+◌, ◌*◌, ◌/◌, ◌%◌, ◌^◌, List, [], ◌∷◌, Option, none, some, Bool, true, false, ◌&&◌,
  ◌||◌, not, ltb, leb, not_positive, ◌==◌, if◌then◌else◌, u16, u32, ◌<<<◌, ◌>>>◌,
}
use smart_home_xiugai.Prelude.Int.{ℤ, pos, negsuc}
use smart_home_xiugai.Timer.Links.{Links, upd, link_tail, unlink}

abbrev pub max_ctimer : ℕ
max_ctimer = 63

-- The fields of `ctman_t` for all nodes, and `CTimerIdAddup`.
pub record CTimers : Type 0 where
  pub links : Links
  pub id : ℕ → ℕ
  pub proc : ℕ → ℕ
  pub arg : ℕ → ℕ
  pub dev : ℕ → ℕ
  pub cnt : ℕ → ℕ
  pub flag : ℕ → ℕ
  pub addup : ℕ

abbrev pub tman_empty : ℕ
tman_empty = 0

abbrev pub tman_valid : ℕ
tman_valid = 1

-- The loops of `SysTimerInit` over `CTimerBuffer` and its list; other fields keep what they hold.
unfoldable pub init_c_timers : CTimers → CTimers
init_c_timers t = record t {
  flag = λ i. if ltb i max_ctimer then tman_empty else t.flag i;
  links = record {
    next = upd t.links.next max_ctimer max_ctimer;
    prev = upd t.links.prev max_ctimer max_ctimer;
  };
}

-- The first empty node of the `n` nodes from `i` on.
unfoldable pub find_empty : ℕ → ℕ → (ℕ → ℕ) → Option ℕ
find_empty zero i flag = none
find_empty (suc n) i flag =
    let later = find_empty n (i + 1) flag in if flag i == tman_empty then some i else later

-- `(CTimerIdAddup & 0xffff) | (i << 16)`, whose two parts have no bit in common.
abbrev pub make_id : ℕ → ℕ → ℕ
make_id addup i = u16 addup + i <<< 16

unfoldable pub add_at : Option ℕ → CTimers → ℕ → ℕ → ℕ → CTimers × ℤ
add_at none t dev proc arg = (t, negsuc 0)
add_at (some i) t dev proc arg = (
  record {
    links = link_tail max_ctimer i t.links;
    id = upd t.id i (make_id t.addup i);
    proc = upd t.proc i proc;
    arg = upd t.arg i arg;
    dev = upd t.dev i dev;
    cnt = upd t.cnt i 0;
    flag = upd t.flag i tman_valid;
    addup = u32 (t.addup + 1);
  },
  pos (make_id t.addup i),
)

-- `SysAddCTimer`: the timers and the id, -1 for an error.
unfoldable pub sys_add_c_timer : CTimers → ℕ → ℕ → ℕ → CTimers × ℤ
unfolding add_at
sys_add_c_timer t dev proc arg =
    if not_positive dev
    then (t, negsuc 0)
    else add_at (find_empty max_ctimer 0 t.flag) t dev proc arg

-- `StopCTimerP`
unfoldable pub stop_c_timer_p : ℕ → CTimers → CTimers
stop_c_timer_p p t =
    if not (t.flag p == tman_empty)
    then record t { flag = upd t.flag p tman_empty; links = unlink p t.links }
    else t

-- `id>>16` of an id that is not negative.
abbrev pub offset : ℕ → ℕ
offset id = id >>> 16

abbrev pub invalid_id : ℕ → Bool
invalid_id id = leb (2 ^ 31) id || leb max_ctimer (offset id)

-- `SysStopCTimer`
unfoldable pub sys_stop_c_timer : ℕ → CTimers → CTimers
sys_stop_c_timer id t =
    if invalid_id id
    then t
    else let p = offset id in
      if t.id p == id && not (t.flag p == tman_empty)
      then record t { flag = upd t.flag p tman_empty; links = unlink p t.links }
      else t

-- `SysClearCTimer`
unfoldable pub sys_clear_c_timer : ℕ → CTimers → CTimers
sys_clear_c_timer id t =
    if invalid_id id
    then t
    else let p = offset id in
      if t.id p == id && not (t.flag p == tman_empty) then record t { cnt = upd t.cnt p 0 } else t

-- What a call's answer does to its timer.
abbrev pub called_one : Bool → ℕ → CTimers → CTimers
called_one ended p t = if ended then stop_c_timer_p p t else t

-- One round of the loop of `CTimerProc`, and whether it calls the timer's function. `rc proc arg` is
-- what the function answers.
unfoldable pub pass_one : (ℕ → ℕ → ℕ) → ℕ → CTimers → CTimers × Bool
unfolding stop_c_timer_p
pass_one rc p t =
    let cnt = u32 (t.cnt p + 1) in
    if leb (t.dev p) cnt
    then (
      called_one (not (rc (t.proc p) (t.arg p) == 0)) p (record t { cnt = upd t.cnt p 0 }),
      true,
    )
    else (record t { cnt = upd t.cnt p cnt }, false)

abbrev pub add_call : Bool → ℕ → Option (CTimers × List ℕ) → Option (CTimers × List ℕ)
add_call called p none = none
add_call called p (some (t, calls)) = some (t, if called then p ∷ calls else calls)

-- The loop from node `p` on, on fuel: the timers afterwards and the nodes whose functions were called.
unfoldable pub pass_loop : ℕ → (ℕ → ℕ → ℕ) → ℕ → CTimers → Option (CTimers × List ℕ)
pass_loop zero rc p t = none
pass_loop (suc fuel) rc p t =
    let p1 = t.links.next p in
    let (t', called) = pass_one rc p t in
    let rest = pass_loop fuel rc p1 t' in
    if p == max_ctimer then some (t, []) else add_call called p rest

-- `CTimerProc`: the list has at most `max_ctimer` nodes before its head comes again.
unfoldable pub c_timer_proc : (ℕ → ℕ → ℕ) → CTimers → Option (CTimers × List ℕ)
unfolding pass_loop
c_timer_proc rc t = pass_loop (max_ctimer + 1) rc (t.links.next max_ctimer) t
