-- ===== src/Tests/Request.antt =====
-- A logon that the server answers, and a logout that it answers as well.
use smart_home_xiugai.Prelude.{ℕ, List, [], ◌∷◌, replicate, refl, ◌≡◌, ◌≢◌, true, false, arith}
use smart_home_xiugai.Crc.{get_crc16, get_crc16_loop, crc_hi_table, crc_lo_table}
use smart_home_xiugai.Bytes.{makepkt_short}
use smart_home_xiugai.Uplink.Frame.{data_len, make_packet, check_stream, set_addr}
use smart_home_xiugai.Uplink.Recv.{
  uplink_recv_pkt, up_timer_proc, clear_state, stop_up_timer, set_up_timer, recv_chars, recv_char,
  on_head, on_addr, on_dep, on_length, on_data, on_tail, put_then, put_char,
}
use smart_home_xiugai.Uplink.Send.{
  Line, reply, is_echo_pkt, uplink_send_wait, uplink_logon, uplink_logon_out, uplink_active_send,
  get_timeout, send_tries, wait_reply, logon_pkt, request, uplink_send_pkt_g,
}
use smart_home_xiugai.Uplink.Send.Ends.{SendEnd, uplink_send_wait-SendEnd}
use smart_home_xiugai.Uplink.Send.Requests.{uplink_logon_out-fails}
use smart_home_xiugai.Tests.Data.{packet, empty_link, full_link, empty_link-IsValid, answers}

abbrev line : Line
line = record {
  linestat = λ i. true;
  refuses = λ i bytes. false;
  chars = answers;
  timeout = 50;
  deviceid = 1 ∷ 2 ∷ 3 ∷ 4 ∷ 5 ∷ 6 ∷ 7 ∷ 8 ∷ [];
  snd_timeout = 1;
  snd_retry = 3;
}

uplink_send_wait-SendEnd_example : SendEnd 0x21 3 (uplink_send_wait line packet empty_link)
uplink_send_wait-SendEnd_example =
    uplink_send_wait-SendEnd line packet [] empty_link empty_link-IsValid

uplink_logon_out-fails_example : uplink_logon_out line packet empty_link ≢ reply 0 full_link []
uplink_logon_out-fails_example =
    uplink_logon_out-fails line packet [] empty_link full_link [] empty_link-IsValid (omega arith)

abbrev com_pwd : List ℕ
com_pwd = 1 ∷ 2 ∷ 3 ∷ 4 ∷ []

abbrev sndbuf : List ℕ
sndbuf = replicate 20 0

abbrev logon_sent : List (List ℕ)
logon_sent = (uplink_send_pkt_g line.deviceid (logon_pkt com_pwd sndbuf)).1 ∷ []

answered_logon : uplink_logon line com_pwd sndbuf empty_link ≡ reply 0 full_link logon_sent
unfolding uplink_logon uplink_active_send uplink_send_wait get_timeout send_tries wait_reply
    is_echo_pkt logon_pkt request uplink_send_pkt_g make_packet set_addr data_len uplink_recv_pkt
    up_timer_proc clear_state stop_up_timer set_up_timer recv_chars recv_char on_head on_addr on_dep
    on_length on_data on_tail put_then put_char check_stream makepkt_short get_crc16 get_crc16_loop
    crc_hi_table crc_lo_table
answered_logon = refl
