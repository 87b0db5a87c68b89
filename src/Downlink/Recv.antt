-- ===== src/Downlink/Recv.antt =====
-- The receiver takes any eight characters for a frame.
use smart_home_xiugai.Prelude.{
  ℕ, zero, suc, ◌+◌, ◌≡◌, ◌≤◌, ◌<◌, refl, List, [], ◌∷◌, ◌++◌, length, take, set, u16, ◌==◌, leb,
  true, false, arith, ap, ◌∙◌, inl, inr, Bool-cases, length-set, take-suc-set,
}
use mathlib.Core.List.{append_assoc}
use mathlib.Core.Path.{subst}
use smart_home_xiugai.Downlink.{
  DownFsm, DownLink, idle_fsm, set_down_timer, stop_down_timer, downlink_clear_state,
  down_timer_proc, faal645_checkpkt, start_frame, take_char, char645, chars645,
  downlink_recv_pkt645, count_char, end_frame,
}

faal645_checkpkt_zero : (pkt : List ℕ) → faal645_checkpkt pkt ≡ 0
unfolding faal645_checkpkt
faal645_checkpkt_zero pkt = ground arith

-- In state 1, with `k` characters counted after the first.
record IsOpen (k : ℕ) (got : List ℕ) (l : DownLink) : Type 0 where
  stat : l.fsm.stat ≡ 1
  maxlen : l.fsm.maxlen ≡ 7
  cnt : l.fsm.cnt ≡ k
  pbuf : l.fsm.pbuf ≡ suc k
  room : 8 ≤ length l.rcvbuf
  stored : take (suc k) l.rcvbuf ≡ got

-- What a call that has taken a frame leaves.
pub record Took (frame rest : List ℕ) (result : ℕ × DownLink × List ℕ) : Type 0 where
  pub rtn : result.0 ≡ 0
  pub idle : result.1.fsm ≡ idle_fsm
  pub buffer : take 8 result.1.rcvbuf ≡ frame
  pub unread : result.2 ≡ rest

stored_next :
    (k uc : ℕ) (got : List ℕ) (l : DownLink)
    → IsOpen k got l
    → k < 7
    → take (suc (suc k)) (set l.rcvbuf l.fsm.pbuf uc) ≡ got ++ uc ∷ []
stored_next k uc got l o h = rw o.pbuf (
    take-suc-set l.rcvbuf (suc k) uc (omega (arith, o.room))
    ∙ ap (λ (g : List ℕ). g ++ uc ∷ []) o.stored)

char645_last :
    (timeout uc : ℕ) (got : List ℕ) (l : DownLink)
    → IsOpen 6 got l
    → (l' : DownLink) × (char645 timeout uc l ≡ (l', true))
      × (l'.fsm ≡ idle_fsm)
      × (take 8 l'.rcvbuf ≡ got ++ uc ∷ [])
unfolding char645 take_char downlink_clear_state set_down_timer stop_down_timer
char645_last timeout uc got l o =
    let full : leb l.fsm.maxlen (u16 (l.fsm.cnt + 1)) ≡ true = ground (arith, o.maxlen, o.cnt) in
    let at0 : (l.fsm.stat == 0) ≡ false = ground (arith, o.stat) in
    let at1 : (l.fsm.stat == 1) ≡ true = ground (arith, o.stat) in
    (
      end_frame (count_char uc l),
      rw (at0, at1, full, faal645_checkpkt_zero (set l.rcvbuf l.fsm.pbuf uc)) refl,
      refl,
      stored_next 6 uc got l o (omega arith),
    )

char645_more :
    (timeout uc k : ℕ) (got : List ℕ) (l : DownLink)
    → IsOpen k got l
    → k < 6
    → (l' : DownLink) × (char645 timeout uc l ≡ (l', false)) × IsOpen (suc k) (got ++ uc ∷ []) l'
unfolding char645 take_char
char645_more timeout uc k got l o h =
    let not_full : leb l.fsm.maxlen (u16 (l.fsm.cnt + 1)) ≡ false =
      ground (arith, o.maxlen, o.cnt) in
    let at0 : (l.fsm.stat == 0) ≡ false = ground (arith, o.stat) in
    let at1 : (l.fsm.stat == 1) ≡ true = ground (arith, o.stat) in
    (
      count_char uc l,
      rw (at0, at1, not_full) refl,
      record {
        stat = o.stat;
        maxlen = o.maxlen;
        cnt = omega (arith, o.cnt);
        pbuf = omega (arith, o.pbuf);
        room = omega (arith, o.room, length-set l.rcvbuf l.fsm.pbuf uc);
        stored = stored_next k uc got l o (omega arith);
      },
    )

chars645-Took :
    (timeout m k : ℕ) (got more rest : List ℕ) (l : DownLink)
    → IsOpen k got l
    → k + suc m ≡ 7
    → length more ≡ suc m
    → Took (got ++ more) rest (chars645 timeout (more ++ rest) l)
unfolding chars645
chars645-Took timeout m k got [] rest l o e n = absurd (omega arith)
chars645-Took timeout zero k got (uc ∷ []) rest l o e n =
    let (l', next, idle, buffer) =
      char645_last timeout uc got l (subst (λ (j : ℕ). IsOpen j got l) (omega arith) o) in
    rw next (record { rtn = refl; idle = idle; buffer = buffer; unread = refl })
chars645-Took timeout zero k got (uc ∷ x ∷ more) rest l o e n = absurd (omega arith)
chars645-Took timeout (suc m) k got (uc ∷ more) rest l o e n =
    let (l', next, o') = char645_more timeout uc k got l o (omega arith) in
    rw next (
      subst (λ (g : List ℕ). Took g rest (chars645 timeout (more ++ rest) l'))
        (append_assoc got (uc ∷ []) more)
        (chars645-Took timeout m (suc k) (got ++ uc ∷ []) more rest l' o' (omega arith)
          (omega arith)))

down_timer_proc_idle :
    (l : DownLink)
    → l.fsm ≡ idle_fsm
    → ((down_timer_proc l).fsm ≡ idle_fsm) × ((down_timer_proc l).rcvbuf ≡ l.rcvbuf)
unfolding down_timer_proc downlink_clear_state set_down_timer
down_timer_proc_idle l h = elim (Bool-cases l.timer.flag) [
  | inr stopped ↦ (rw stopped refl, rw stopped refl)
  | inl runs ↦ elim (Bool-cases (leb l.timer.max (l.timer.cnt + 1))) [
    | inl over ↦ (rw (runs, over) refl, rw (runs, over) refl)
    | inr waits ↦ (rw (runs, waits) h, rw (runs, waits) refl)
  ]
]

start_frame-IsOpen :
    (timeout uc : ℕ) (l : DownLink)
    → 8 ≤ length l.rcvbuf
    → IsOpen 0 (uc ∷ []) (start_frame timeout uc l)
unfolding start_frame downlink_clear_state set_down_timer
start_frame-IsOpen timeout uc l h = record {
  stat = refl;
  maxlen = refl;
  cnt = refl;
  pbuf = refl;
  room = omega (arith, length-set l.rcvbuf 0 uc);
  stored = take-suc-set l.rcvbuf 0 uc (omega arith);
}

char645_start :
    (timeout uc : ℕ) (l : DownLink)
    → l.fsm ≡ idle_fsm
    → char645 timeout uc l ≡ (start_frame timeout uc l, false)
unfolding char645
char645_start timeout uc l h =
    let at0 : (l.fsm.stat == 0) ≡ true = ground (arith, ap (λ (f : DownFsm). f.stat) h) in
    rw at0 refl

-- A receiver that waits for a frame takes the next eight characters for one, whatever they are and
-- whatever their checksum is: the call returns 0, the buffer begins with the eight characters, the
-- receiver waits again and the characters behind them are not read. The buffer has room for eight.
pub downlink_recv_pkt645-Took :
    (timeout : ℕ) (frame rest : List ℕ) (l : DownLink)
    → l.fsm ≡ idle_fsm
    → 8 ≤ length l.rcvbuf
    → length frame ≡ 8
    → Took frame rest (downlink_recv_pkt645 timeout (frame ++ rest) l)
unfolding downlink_recv_pkt645 chars645
downlink_recv_pkt645-Took timeout [] rest l idle room n = absurd (omega arith)
downlink_recv_pkt645-Took timeout (uc ∷ frame) rest l idle room n =
    let l0 = down_timer_proc l in
    let (still, same) = down_timer_proc_idle l idle in
    let enough : 8 ≤ length l0.rcvbuf = omega (arith, room, ap (λ (b : List ℕ). length b) same) in
    rw (char645_start timeout uc l0 still) (
      chars645-Took timeout 6 0 (uc ∷ []) frame rest (start_frame timeout uc l0)
        (start_frame-IsOpen timeout uc l0 enough) (omega arith) (omega arith))
