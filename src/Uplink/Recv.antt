-- ===== src/Uplink/Recv.antt =====
-- The receiver of uplink/uplink_dl.c: `UplinkClearState`, `UpTimerProc` and `UplinkRecvPkt` with
-- their entries of `UplinkTimer` and `UplinkFsm` for one interface. `pbuf` is the offset of the next
-- write in the interface's receive buffer.
pub mod Invariant
pub mod Turn
pub mod Sound
pub mod Complete
pub mod Overflow
use smart_home_xiugai.Prelude.{
  ℕ, zero, suc, ◌+◌, ◌-◌, ◌*◌, ◌/◌, ◌%◌, ◌^◌, List, [], ◌∷◌, get_or, set, length, u16, ◌==◌, leb,
  ltb, if◌then◌else◌, Bool, true, false, not, Option, none, some,
}
use smart_home_xiugai.Bytes.{makepkt_short}
use smart_home_xiugai.Uplink.Frame.{uplink_head, uplink_tail, check_stream}

-- `struct uplink_timer_t`
pub record Timer : Type 0 where
  pub cnt : ℕ
  pub max : ℕ
  pub flag : Bool

-- `struct uplink_fsm_t`
pub record Fsm : Type 0 where
  pub pbuf : ℕ
  pub cnt : ℕ
  pub maxlen : ℕ
  pub stat : ℕ

pub record Link : Type 0 where
  pub timer : Timer
  pub fsm : Fsm
  pub rcvbuf : List ℕ

-- `SetUpTimer` and `StopUpTimer`.
unfoldable pub set_up_timer : ℕ → Link → Link
set_up_timer max l = record l { timer = record { cnt = 0; max = max; flag = true } }

unfoldable pub stop_up_timer : Link → Link
stop_up_timer l = record l { timer = record (l.timer) { flag = false } }

abbrev pub reset_fsm : Fsm
reset_fsm = record { pbuf = 0; cnt = 0; maxlen = 0; stat = 0 }

-- `UplinkClearState`
unfoldable pub clear_state : Link → Link
unfolding stop_up_timer
clear_state l = stop_up_timer (record l { fsm = reset_fsm })

-- `UpTimerProc`, run once at each call of the receiver.
unfoldable pub up_timer_proc : Link → Link
unfolding clear_state
up_timer_proc l =
    if not l.timer.flag
    then record l { fsm = reset_fsm }
    else let ticked = record l { timer = record (l.timer) { cnt = l.timer.cnt + 1 } } in
      if leb l.timer.max (l.timer.cnt + 1) then clear_state ticked else ticked

-- `*(fsm->pbuf)++ = uc; fsm->cnt++;`. A write behind the buffer is no behaviour of C: `none`.
unfoldable pub put_char : ℕ → Link → Option Link
put_char uc l =
    if ltb l.fsm.pbuf (length l.rcvbuf)
    then some (record l {
      fsm = record (l.fsm) { pbuf = l.fsm.pbuf + 1; cnt = u16 (l.fsm.cnt + 1) };
      rcvbuf = set l.rcvbuf l.fsm.pbuf uc;
    })
    else none

-- What one turn of the loop does: it goes on, returns 0 with a frame in the buffer, or has written
-- behind the buffer.
pub data Outcome : Type 0 where
  more : Link → Outcome
  received : Link → Outcome
  fault : Outcome

-- Write a character, and go on with what comes after it.
unfoldable pub put_then : ℕ → Link → (Link → Outcome) → Outcome
unfolding put_char
put_then uc l k = elim (put_char uc l) [ none ↦ fault | some l' ↦ k l' ]

abbrev pub goto : ℕ → ℕ → Link → Link
goto stat maxlen l = record l { fsm = record (l.fsm) { stat = stat; maxlen = maxlen } }

-- case 0: the first head byte.
unfoldable pub on_head : ℕ → ℕ → Link → Outcome
on_head timeout uc l =
    if uc == uplink_head
    then put_then uc (clear_state l) (λ l'. more (set_up_timer timeout (goto 1 6 l')))
    else more l

-- case 1: version and address, up to the second head byte.
unfoldable pub on_addr : ℕ → Link → Outcome
on_addr uc l = put_then uc l λ l'. more (if leb l'.fsm.maxlen l'.fsm.cnt then goto 2 10 l' else l')

-- case 2: the second head byte.
unfoldable pub on_dep : ℕ → Link → Outcome
on_dep uc l =
    if not (uc == uplink_head)
    then more (clear_state l)
    else put_then uc l λ l'. more (goto 3 l'.fsm.maxlen l')

-- case 3: command and length; the two bytes before `pbuf` give the length of the data.
unfoldable pub on_length : ℕ → Link → Outcome
unfolding makepkt_short
on_length uc l = put_then uc l λ l'.
    let b0 = get_or l'.rcvbuf (l'.fsm.pbuf - 2) 0 in
    let b1 = get_or l'.rcvbuf (l'.fsm.pbuf - 1) 0 in
    let maxlen = u16 (makepkt_short (b0 ∷ b1 ∷ []) + 10 + 2) in
    more (if leb l'.fsm.maxlen l'.fsm.cnt then goto 4 maxlen l' else l')

-- case 4: data and checksum.
unfoldable pub on_data : ℕ → Link → Outcome
on_data uc l =
    put_then uc l λ l'. more (if leb l'.fsm.maxlen l'.fsm.cnt then goto 5 l'.fsm.maxlen l' else l')

-- case 5: the tail byte, and the check of the whole frame.
unfoldable pub on_tail : ℕ → Link → Outcome
on_tail uc l =
    if not (uc == uplink_tail)
    then more (clear_state l)
    else put_then uc l λ l'.
      let l'' = stop_up_timer l' in
      if check_stream l''.rcvbuf l''.fsm.cnt
      then received (clear_state l'')
      else more (clear_state l'')

-- The `switch` on `fsm->stat`.
unfoldable pub recv_char : ℕ → ℕ → Link → Outcome
recv_char timeout uc l =
    let stat = l.fsm.stat in
    if stat == 0
    then on_head timeout uc l
    else if stat == 1
    then on_addr uc l
    else if stat == 2
    then on_dep uc l
    else if stat == 3
    then on_length uc l
    else if stat == 4
    then on_data uc l
    else if stat == 5
    then on_tail uc l
    else more (clear_state l)

-- What `UplinkRecvPkt` leaves: the frame and the characters not yet read (it returned 0), no frame
-- (it returned 1), or a write behind the buffer.
pub data Recv : Type 0 where
  got : Link → List ℕ → Recv
  idle : Link → Recv
  overrun : Recv

-- The loop over the characters that `getchar` has to offer.
unfoldable pub recv_chars : ℕ → List ℕ → Link → Recv
recv_chars timeout [] l = idle l
recv_chars timeout (uc ∷ chars) l = elim (recv_char timeout uc l) [
  | more l' ↦ recv_chars timeout chars l'
  | received l' ↦ got l' chars
  | fault ↦ overrun
]

unfoldable pub uplink_recv_pkt : ℕ → List ℕ → Link → Recv
uplink_recv_pkt timeout chars l = recv_chars timeout chars (up_timer_proc l)
