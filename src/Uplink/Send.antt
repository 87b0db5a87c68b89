-- ===== src/Uplink/Send.antt =====
-- Requests to the server, uplink/uplink_dl.c: `UplinkSendPktG`, `IsEchoPkt`, `UplinkSendWait`,
-- `UplinkActiveSend` and the requests built on them. The interface's `linestat`, `rawsend` and
-- `getchar` and the parameters are arguments.
pub mod Echo
pub mod Ends
pub mod Requests
use smart_home_xiugai.Prelude.{
  ℕ, zero, suc, ◌+◌, ◌*◌, ◌%◌, ◌/◌, ◌^◌, List, [], ◌∷◌, ◌++◌, get_or, set, take, ◌==◌,
  if◌then◌else◌, Bool, true, false, not,
}
use smart_home_xiugai.Bytes.{departpkt_short, uc}
use smart_home_xiugai.Uplink.Frame.{make_packet, set_addr}
use smart_home_xiugai.Uplink.Recv.{Link, Recv, got, idle, overrun, uplink_recv_pkt}

-- One interface and the parameters: for each try, whether the line stands and whether `rawsend`
-- refuses; the characters of each call of the receiver, by try and by call.
pub record Line : Type 0 where
  pub linestat : ℕ → Bool
  pub refuses : ℕ → List ℕ → Bool
  pub chars : ℕ → ℕ → List ℕ
  pub timeout : ℕ
  pub deviceid : List ℕ
  pub snd_timeout : ℕ
  pub snd_retry : ℕ

-- `UplinkSendPktG`: the packet after it, and the bytes given to `rawsend`.
unfoldable pub uplink_send_pkt_g : List ℕ → List ℕ → List ℕ × List ℕ
uplink_send_pkt_g deviceid pkt =
    let (frame, len) = make_packet (set_addr deviceid pkt) in (frame, take len frame)

-- `GetTimeout`
unfoldable pub get_timeout : Line → ℕ × ℕ
get_timeout line = (line.snd_timeout * 10, line.snd_retry % 256)

-- `IsEchoPkt`, of the received command and of the sent one.
unfoldable pub is_echo_pkt : ℕ → ℕ → Bool
is_echo_pkt cmd sndcmd =
    let masked = sndcmd % 64 in
    if masked == 0x21
    then if cmd == 0x21 then true else false
    else if masked == 0x24
    then if cmd == 0x24 then true else false
    else if masked == 0xa2
    then if cmd == 0x24 then true else false
    else false

-- The inner loop of `UplinkSendWait`: no frame in the calls left, a frame, or a broken buffer.
pub data Wait : Type 0 where
  quiet : Link → Wait
  answered : Link → Wait
  broken : Wait

unfoldable pub wait_reply : ℕ → (ℕ → List ℕ) → ℕ → ℕ → Link → Wait
wait_reply timeout chars zero j l = quiet l
wait_reply timeout chars (suc times) j l = elim (uplink_recv_pkt timeout (chars j) l) [
  | got l' rest ↦ answered l'
  | idle l' ↦ wait_reply timeout chars times (suc j) l'
  | overrun ↦ broken
]

-- A return code with the receiver and all that was given to `rawsend`, or a broken buffer.
pub data Reply : Type 0 where
  reply : ℕ → Link → List (List ℕ) → Reply
  crashed : Reply

-- UPRTN_OK, UPRTN_FAIL, UPRTN_OKRCV and UPRTN_TIMEOUT
abbrev pub uprtn_ok : ℕ
uprtn_ok = 0

abbrev pub uprtn_fail : ℕ
uprtn_fail = 1

abbrev pub uprtn_okrcv : ℕ
uprtn_okrcv = 2

abbrev pub uprtn_timeout : ℕ
uprtn_timeout = 4

-- The outer loop of `UplinkSendWait`: `retry` tries left, `i` done.
unfoldable pub send_tries : Line → ℕ → ℕ → ℕ → List ℕ → List (List ℕ) → Link → Reply
unfolding uplink_send_pkt_g
send_tries line times zero i psnd sent l = reply uprtn_timeout l sent
send_tries line times (suc retry) i psnd sent l =
    let (frame, bytes) = uplink_send_pkt_g line.deviceid psnd in
    let log = sent ++ bytes ∷ [] in
    if not (line.linestat i)
    then reply uprtn_fail l sent
    else if line.refuses i bytes
    then reply uprtn_fail l log
    else elim (wait_reply line.timeout (line.chars i) times 0 l) [
      | quiet l' ↦ send_tries line times retry (suc i) frame log l'
      | answered l' ↦
          let echo = is_echo_pkt (get_or l'.rcvbuf 7 0) (get_or frame 7 0) in
          reply (if not echo then uprtn_okrcv else uprtn_ok) l' log
      | broken ↦ crashed
    ]

unfoldable pub uplink_send_wait : Line → List ℕ → Link → Reply
unfolding get_timeout
uplink_send_wait line psnd l =
    let (times, retry) = get_timeout line in send_tries line times retry 0 psnd [] l

-- `UplinkActiveSend`
unfoldable pub uplink_active_send : Line → Bool → List ℕ → Link → Reply
unfolding uplink_send_wait uplink_send_pkt_g
uplink_active_send line flag psnd l =
    let (frame, bytes) = uplink_send_pkt_g line.deviceid psnd in
    if not flag
    then reply (if line.refuses 0 bytes then 1 else 0) l (bytes ∷ [])
    else uplink_send_wait line psnd l

-- The header that each request writes: head, version, second head, command and length.
unfoldable pub request : ℕ → ℕ → List ℕ → List ℕ
request cmd len sndbuf =
    set (set (set (set (set (set sndbuf 0 0x68) 1 0x01) 6 0x68) 7 cmd) 8 (uc len 1)) 9 (uc len 0)

-- `UplinkLogon` with the four bytes of `com_pwd`, `UplinkLogonOut`, `UplinkLinkTest`, `UplinkCheckVer`
-- and `UplinkDeviceCheck` for what `getFileDays` answers.
unfoldable pub logon_pkt : List ℕ → List ℕ → List ℕ
logon_pkt com_pwd sndbuf =
    let logon =
      set
        (set (set (set sndbuf 10 (get_or com_pwd 0 0)) 11 (get_or com_pwd 1 0)) 12
          (get_or com_pwd 2 0))
        13 (get_or com_pwd 3 0) in
    request 0xa1 4 logon

abbrev pub fails : Reply → Reply
fails (reply code l sent) = reply (if not (code == 0) then 1 else 0) l sent
fails crashed = crashed

unfoldable pub uplink_logon : Line → List ℕ → List ℕ → Link → Reply
unfolding uplink_active_send logon_pkt request
uplink_logon line com_pwd sndbuf l =
    fails (uplink_active_send line true (logon_pkt com_pwd sndbuf) l)

unfoldable pub uplink_logon_out : Line → List ℕ → Link → Reply
unfolding uplink_active_send request
uplink_logon_out line sndbuf l = fails (uplink_active_send line true (request 0xa2 0 sndbuf) l)

unfoldable pub uplink_link_test : Line → List ℕ → Link → Reply
unfolding uplink_active_send request
uplink_link_test line sndbuf l = uplink_active_send line true (request 0xa4 0 sndbuf) l

unfoldable pub uplink_check_ver : Line → List ℕ → Link → Reply
unfolding uplink_active_send request
uplink_check_ver line sndbuf l = uplink_active_send line false (request 0x84 0 sndbuf) l

unfoldable pub uplink_device_check : Line → Bool → List ℕ → Link → Reply
unfolding uplink_active_send request
uplink_device_check line file_ok sndbuf l =
    uplink_active_send line false (set (request 0x81 1 sndbuf) 10 (if file_ok then 0x08 else 0x0f))
      l
