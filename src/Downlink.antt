-- ===== src/Downlink.antt =====
-- The receiver of downlink/downlink_dl.c: `SetDownTimer`, `StopDownTimer`, `DownlinkClearState`,
-- `DownTimerProc`, `faal645_checkpkt` and `DownlinkRecvPkt645`, with their entries of `DownlinkTimer` and
-- `DownlinkFsm` for one interface. `pbuf` is the offset of the next write in the interface's receive
-- buffer; a write behind the buffer, which has no meaning in C, changes nothing.
pub mod Recv
use smart_home_xiugai.Prelude.{
  ℕ, ◌+◌, ◌*◌, ◌%◌, ◌^◌, List, [], ◌∷◌, get_or, set, take, u16, ◌==◌, leb, if◌then◌else◌, Bool,
  true, false, not, ◌||◌, bit_or,
}
use smart_home_xiugai.Crc.{get_crc16}

-- `struct downlink_timer_t`
pub record DownTimer : Type 0 where
  pub cnt : ℕ
  pub max : ℕ
  pub flag : Bool

-- `struct downlink_fsm_t`
pub record DownFsm : Type 0 where
  pub pbuf : ℕ
  pub cnt : ℕ
  pub maxlen : ℕ
  pub stat : ℕ

pub record DownLink : Type 0 where
  pub timer : DownTimer
  pub fsm : DownFsm
  pub rcvbuf : List ℕ

unfoldable pub set_down_timer : ℕ → DownLink → DownLink
set_down_timer max l = record l { timer = record { cnt = 0; max = max; flag = true } }

unfoldable pub stop_down_timer : DownLink → DownLink
stop_down_timer l = record l { timer = record (l.timer) { flag = false } }

abbrev pub idle_fsm : DownFsm
idle_fsm = record { pbuf = 0; cnt = 0; maxlen = 0; stat = 0 }

-- `DownlinkClearState`, which starts the timer.
unfoldable pub downlink_clear_state : DownLink → DownLink
unfolding set_down_timer
downlink_clear_state l = set_down_timer 5 (record l { fsm = idle_fsm })

unfoldable pub down_timer_proc : DownLink → DownLink
unfolding downlink_clear_state
down_timer_proc l =
    let ticked = record l { timer = record (l.timer) { cnt = l.timer.cnt + 1 } } in
    if not l.timer.flag
    then record l { fsm = idle_fsm }
    else if leb l.timer.max (l.timer.cnt + 1)
    then downlink_clear_state ticked
    else ticked

-- `faal645_checkpkt` of the receive buffer. `data` begins at byte 2; its bytes 4 and 5 are read although
-- it is declared with 4.
unfoldable pub faal645_checkpkt : List ℕ → ℕ
faal645_checkpkt pkt =
    let crc = get_crc16 (take 6 pkt) in
    let data0 = get_or pkt 2 0 in
    let crc2 =
      if (data0 == 0xF0) || (data0 == 0xF1)
      then u16 (bit_or (get_or pkt 6 0 * 256) (get_or pkt 7 0))
      else u16 (bit_or (get_or pkt 7 0 * 256) (get_or pkt 6 0)) in
    if not (crc == crc2) then 0 else 0

-- `*(fsm->pbuf)++ = uc;`
abbrev pub store_char : ℕ → DownLink → DownLink
store_char uc l = record l {
  rcvbuf = set l.rcvbuf l.fsm.pbuf uc;
  fsm = record (l.fsm) { pbuf = l.fsm.pbuf + 1 };
}

-- The first character, in state 0.
unfoldable pub start_frame : ℕ → ℕ → DownLink → DownLink
unfolding downlink_clear_state
start_frame timeout uc l =
    let stored = store_char uc (downlink_clear_state l) in
    set_down_timer timeout
      (record stored { fsm = record (stored.fsm) { stat = 1; maxlen = 7; cnt = 0 } })

-- A further character is stored and counted in state 1, and the last of them ends the frame.
abbrev pub count_char : ℕ → DownLink → DownLink
count_char uc l =
    let stored = store_char uc l in
    record stored { fsm = record (stored.fsm) { cnt = u16 (l.fsm.cnt + 1) } }

abbrev pub end_frame : DownLink → DownLink
end_frame l = downlink_clear_state (stop_down_timer l)

-- A character in state 1, and whether the call returns 0.
unfoldable pub take_char : ℕ → DownLink → DownLink × Bool
unfolding downlink_clear_state stop_down_timer
take_char uc l =
    let counted = count_char uc l in
    let cleared = end_frame counted in
    if leb l.fsm.maxlen (u16 (l.fsm.cnt + 1))
    then (cleared, faal645_checkpkt cleared.rcvbuf == 0)
    else (counted, false)

unfoldable pub char645 : ℕ → ℕ → DownLink → DownLink × Bool
unfolding start_frame take_char
char645 timeout uc l =
    if l.fsm.stat == 0
    then (start_frame timeout uc l, false)
    else if l.fsm.stat == 1
    then take_char uc l
    else (downlink_clear_state l, false)

-- The loop of `DownlinkRecvPkt645` over the characters that `getchar` offers: the result, the receiver,
-- and the characters that are not read.
unfoldable pub chars645 : ℕ → List ℕ → DownLink → ℕ × DownLink × List ℕ
chars645 timeout [] l = (1, l, [])
chars645 timeout (uc ∷ chars) l =
    let (l', ready) = char645 timeout uc l in
    let more = chars645 timeout chars l' in if ready then (0, l', chars) else more

unfoldable pub downlink_recv_pkt645 : ℕ → List ℕ → DownLink → ℕ × DownLink × List ℕ
unfolding down_timer_proc
downlink_recv_pkt645 timeout chars l = chars645 timeout chars (down_timer_proc l)
