-- ===== src/Uplink/Answer.antt =====
-- Answers to the server: `faal_makepkt` and `faal_sendpkt` of svrcomm/faal_dl.c, and the handlers and
-- `SvrMessageProc` of uplink/svrmsg.c. A packet is the bytes of its buffer, with the offsets of
-- Uplink/Frame. A write behind `audiourl` has no meaning in C: `none`.

pub mod Frames
use smart_home_xiugai.Prelude.{
  ℕ, ◌+◌, ◌*◌, ◌/◌, ◌%◌, ◌^◌, List, [], ◌∷◌, ◌++◌, Option, none, some, Bool, true, false, ◌&&◌, not,
  get_or, set, take, drop, length, u8, u16, bit_or, bit_and, ltb, ◌==◌, if◌then◌else◌, ◌>>>◌,
}
use smart_home_xiugai.Bytes.{uc}
use smart_home_xiugai.Crc.{get_crc16}
use smart_home_xiugai.Uplink.Frame.{data_len, set_addr}

-- The parameters that the answers use, and whether `rawsend` fails for some bytes.
pub record Station : Type 0 where
  pub pwd : List ℕ
  pub deviceid : List ℕ
  pub sndmax : ℕ
  pub rcvmax : ℕ
  pub rawsend : List ℕ → Bool

-- The send buffer, the frames given to `rawsend`, and the variables that the handlers set.
pub record Server : Type 0 where
  pub sndbuf : List ℕ
  pub sent : List (List ℕ)
  pub audiourl : List ℕ
  pub update_audiourl_flag : ℕ
  pub device_check_result_flag : ℕ

abbrev pub faal_head : ℕ
faal_head = 0x68

abbrev pub faal_tail : ℕ
faal_tail = 0x16

-- The head of `faal_makepkt`, and its end, which writes from the start of the packet.
unfoldable pub faal_fill : List ℕ → List ℕ → List ℕ
unfolding set_addr
faal_fill deviceid pkt =
    let marked = set (set (set pkt 0 faal_head) 6 faal_head) 1 1 in
    let addressed = set_addr deviceid marked in set addressed 7 (bit_or (get_or addressed 7 0) 0x80)

unfoldable pub faal_close : ℕ → List ℕ → List ℕ
faal_close len pkt =
    let crc = get_crc16 (take (u16 len) pkt) in
    set (set (set pkt 0 (u8 (crc >>> 8))) 1 (u8 crc)) 2 faal_tail

-- `faal_makepkt`: the packet and the frame's length, or `none` for -1.
unfoldable pub faal_makepkt : Station → List ℕ → Option (List ℕ × ℕ)
unfolding faal_fill faal_close
faal_makepkt st pkt =
    let len = data_len pkt in
    if ltb st.sndmax len
    then none
    else some (faal_close (len + 10) (faal_fill st.deviceid pkt), len + 10 + 3)

-- `faal_sendpkt` of the send buffer: 0 if it has been sent.
abbrev pub raw_send : Station → Option (List ℕ × ℕ) → Server → Server × ℕ
raw_send st none s = (s, 1)
raw_send st (some (pkt, len)) s = (
  record s { sndbuf = pkt; sent = s.sent ++ take len pkt ∷ [] },
  if st.rawsend (take len pkt) then 1 else 0,
)

unfoldable pub faal_sendpkt : Station → Server → Server × ℕ
unfolding faal_makepkt
faal_sendpkt st s = raw_send st (faal_makepkt st s.sndbuf) s

-- FAAL_SETLEN
abbrev pub faal_setlen : ℕ → List ℕ → List ℕ
faal_setlen alen pkt = set (set pkt 8 (uc alen 1)) 9 (uc alen 0)

-- `memcmp` of two runs of bytes.
abbrev pub equal_bytes : List ℕ → List ℕ → Bool
equal_bytes [] [] = true
equal_bytes [] (y ∷ ys) = false
equal_bytes (x ∷ xs) [] = false
equal_bytes (x ∷ xs) (y ∷ ys) = x == y && equal_bytes xs ys

-- `svr_login_terminal`: the password stands at byte 32 of the data. 0 is FAALERR_OK, 3 FAALERR_PWERR.
unfoldable pub svr_login_terminal : Station → List ℕ → Server → Server × ℕ
unfolding faal_sendpkt
svr_login_terminal st rcvbuf s =
    let err = if equal_bytes (take 32 (drop 42 rcvbuf)) (take 32 st.pwd) then 0 else 3 in
    let pkt = set (faal_setlen 1 (set s.sndbuf 7 0xa5)) 10 err in
    ((faal_sendpkt st (record s { sndbuf = pkt })).0, 0)

unfoldable pub svr_heart_beat : Station → Server → Server × ℕ
unfolding faal_sendpkt
svr_heart_beat st s =
    ((faal_sendpkt st (record s { sndbuf = faal_setlen 0 (set s.sndbuf 7 0xa3) })).0, 0)

-- `svr_update_audio_url`: `datalen` bytes are copied, and `audiourl` has 512.
unfoldable pub svr_update_audio_url : List ℕ → Server → Option (Server × ℕ)
svr_update_audio_url rcvbuf s =
    let datalen = data_len rcvbuf in
    if ltb (length s.audiourl) datalen
    then none
    else some (
      record s {
        audiourl = take datalen (drop 10 rcvbuf) ++ drop datalen s.audiourl;
        update_audiourl_flag = 1;
      },
      1,
    )

unfoldable pub svr_device_check_result : List ℕ → Server → Server × ℕ
svr_device_check_result rcvbuf s = (record s { device_check_result_flag = get_or rcvbuf 10 0 }, 0)

-- The search of `SvrMessageProc` through `g_srvmsg_flist`.
unfoldable pub run_handler : Station → ℕ → List ℕ → Server → Option (Server × ℕ)
unfolding svr_login_terminal svr_heart_beat svr_update_audio_url svr_device_check_result
run_handler st cmd rcvbuf s =
    if cmd == 0x25
    then some (svr_login_terminal st rcvbuf s)
    else if cmd == 0x23
    then some (svr_heart_beat st s)
    else if cmd == 0x03
    then svr_update_audio_url rcvbuf s
    else if cmd == 0x01
    then some (svr_device_check_result rcvbuf s)
    else some (s, 0)

-- What follows a handler's answer: an empty frame for an answer other than 0.
unfoldable pub echo_empty : Station → Option (Server × ℕ) → Option Server
unfolding faal_sendpkt
echo_empty st none = none
echo_empty st (some (s, rtn)) =
    let empty = set (set s.sndbuf 8 0) 9 0 in
    let pkt = set empty 7 (bit_or (get_or empty 7 0) 0x80) in
    if not (rtn == 0) then some (faal_sendpkt st (record s { sndbuf = pkt })).0 else some s

-- `SvrMessageProc`
unfoldable pub svr_message_proc : Station → List ℕ → Server → Option Server
unfolding run_handler echo_empty
svr_message_proc st rcvbuf s =
    let s' = record s { sndbuf = set s.sndbuf 7 (get_or rcvbuf 7 0) } in
    if ltb st.rcvmax (data_len rcvbuf + 10)
    then some s'
    else echo_empty st (run_handler st (bit_and (get_or rcvbuf 7 0) 0x3f) rcvbuf s')
