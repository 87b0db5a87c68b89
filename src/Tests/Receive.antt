-- ===== src/Tests/Receive.antt =====
-- The receiver of the uplink on a frame, on half a frame, and on a frame too long for it.
use smart_home_xiugai.Prelude.{
  ◌+◌, ◌≤◌, ◌<◌, [], ◌∷◌, ◌++◌, replicate, length, refl, ◌≡◌, take, true, arith,
}
use smart_home_xiugai.Crc.{get_crc16, get_crc16_loop, crc_hi_table, crc_lo_table}
use smart_home_xiugai.Bytes.{makepkt_short}
use smart_home_xiugai.Uplink.Frame.{data_len, make_packet, check_stream}
use smart_home_xiugai.Uplink.Frame.Laws.{check_stream-make_packet}
use smart_home_xiugai.Uplink.Recv.{
  Link, got, idle, overrun, uplink_recv_pkt, up_timer_proc, clear_state, stop_up_timer,
  set_up_timer, recv_chars, recv_char, on_head, on_addr, on_dep, on_length, on_data, on_tail,
  put_then, put_char,
}
use smart_home_xiugai.Uplink.Recv.Invariant.{Accepted}
use smart_home_xiugai.Uplink.Recv.Sound.{
  Delivered, Overrun, uplink_recv_pkt-got, uplink_recv_pkt-overrun,
}
use smart_home_xiugai.Uplink.Recv.Complete.{uplink_recv_pkt-frame}
use smart_home_xiugai.Uplink.Recv.Overflow.{IsOversized, uplink_recv_pkt-oversized}
use smart_home_xiugai.Tests.Data.{
  packet, frame, frame-IsGood, empty_link, full_link, empty_link-IsValid, oversized,
}

small : data_len packet + 10 < 65536
unfolding data_len makepkt_short
small = omega arith

room : data_len packet + 13 ≤ length packet
unfolding data_len makepkt_short
room = omega arith

check_stream-make_packet_example :
    let (stream, n) = make_packet packet in
    (check_stream stream n ≡ true)
    × (n ≡ data_len packet + 13)
    × (take (data_len packet + 10) stream ≡ take (data_len packet + 10) packet)
check_stream-make_packet_example = check_stream-make_packet packet refl refl small room

uplink_recv_pkt-frame_example :
    (l' : Link) × (uplink_recv_pkt 50 (frame ++ 1 ∷ 2 ∷ []) empty_link ≡ got l' (1 ∷ 2 ∷ []))
    × Accepted l' frame
uplink_recv_pkt-frame_example =
    uplink_recv_pkt-frame 50 frame (1 ∷ 2 ∷ []) empty_link frame-IsGood empty_link-IsValid

-- Two characters before the frame are skipped, one behind it is left.
taken : uplink_recv_pkt 50 (7 ∷ 8 ∷ frame ++ 1 ∷ []) empty_link ≡ got full_link (1 ∷ [])
unfolding uplink_recv_pkt up_timer_proc clear_state stop_up_timer set_up_timer recv_chars recv_char
    on_head on_addr on_dep on_length on_data on_tail put_then put_char check_stream makepkt_short
    get_crc16 get_crc16_loop crc_hi_table crc_lo_table
taken = refl

uplink_recv_pkt-got_example : Delivered ([] ++ (7 ∷ 8 ∷ frame ++ 1 ∷ [])) full_link (1 ∷ [])
uplink_recv_pkt-got_example =
    uplink_recv_pkt-got 50 (7 ∷ 8 ∷ frame ++ 1 ∷ []) (1 ∷ []) [] empty_link full_link
      empty_link-IsValid taken

abbrev half_link : Link
half_link = record {
  timer = record { cnt = 0; max = 50; flag = true };
  fsm = record { pbuf = 2; cnt = 2; maxlen = 6; stat = 1 };
  rcvbuf = 0x68 ∷ 1 ∷ replicate 1150 0;
}

waits : uplink_recv_pkt 50 (5 ∷ 0x68 ∷ 1 ∷ []) empty_link ≡ idle half_link
unfolding uplink_recv_pkt up_timer_proc clear_state stop_up_timer set_up_timer recv_chars recv_char
    on_head on_addr on_dep on_length on_data on_tail put_then put_char
waits = refl

oversized-IsOversized : IsOversized oversized
unfolding data_len makepkt_short
oversized-IsOversized = record {
  head = refl;
  dep = refl;
  announced = omega arith;
  whole = omega arith;
  long = omega arith;
}

uplink_recv_pkt-oversized_example : uplink_recv_pkt 50 oversized empty_link ≡ overrun
uplink_recv_pkt-oversized_example =
    uplink_recv_pkt-oversized 50 oversized empty_link oversized-IsOversized empty_link-IsValid

uplink_recv_pkt-overrun_example : Overrun ([] ++ oversized)
uplink_recv_pkt-overrun_example =
    uplink_recv_pkt-overrun 50 oversized [] empty_link empty_link-IsValid
      (uplink_recv_pkt-oversized 50 oversized empty_link oversized-IsOversized empty_link-IsValid)
