-- ===== src/Tests/Answers.antt =====
-- An answer to a login, and a message whose data is too long.
use smart_home_xiugai.Prelude.{
  ℕ, ◌+◌, ◌≡◌, refl, List, [], ◌∷◌, some, false, arith, replicate, take, drop, u8, ◌>>>◌,
}
use smart_home_xiugai.Bytes.{makepkt_short}
use smart_home_xiugai.Crc.{get_crc16, get_crc16_loop, crc_hi_table, crc_lo_table}
use smart_home_xiugai.Uplink.Frame.{data_len, set_addr, check_stream}
use smart_home_xiugai.Uplink.Answer.{Station, Server, faal_fill, faal_makepkt}
use smart_home_xiugai.Uplink.Answer.Frames.{faal_crc, faal_makepkt_refused}

abbrev station : Station
station = record {
  pwd = replicate 32 b'0';
  deviceid = 1 ∷ 2 ∷ 3 ∷ 4 ∷ 5 ∷ 6 ∷ 7 ∷ 8 ∷ [];
  sndmax = 1024;
  rcvmax = 1024;
  rawsend = λ _. false;
}

abbrev answer : List ℕ
answer = 0 ∷ 0 ∷ 0 ∷ 0 ∷ 0 ∷ 0 ∷ 0 ∷ 0xa5 ∷ 0 ∷ 1 ∷ 3 ∷ 0 ∷ 0 ∷ 0 ∷ []

answer_len : data_len answer ≡ 1
unfolding data_len makepkt_short
answer_len = refl

answer_crc : u8 (faal_crc station answer >>> 8) ≡ 107
unfolding data_len makepkt_short faal_fill set_addr get_crc16 get_crc16_loop crc_hi_table
    crc_lo_table
answer_crc = refl

faal_makepkt_refused_example :
    (frame : List ℕ) × (faal_makepkt station answer ≡ some (frame, data_len answer + 10 + 3))
    × (take 3 frame ≡ u8 (faal_crc station answer >>> 8) ∷ u8 (faal_crc station answer) ∷ 0x16 ∷ [])
    × (drop 8 frame ≡ 0 ∷ 1 ∷ 3 ∷ 0 ∷ 0 ∷ 0 ∷ [])
    × (check_stream frame (data_len answer + 10 + 3) ≡ false)
faal_makepkt_refused_example =
    faal_makepkt_refused station 0 0 0 0 0 0 0 0xa5 (0 ∷ 1 ∷ 3 ∷ 0 ∷ 0 ∷ 0 ∷ [])
      (omega (arith, answer_len)) (λ e. absurd (omega (arith, answer_crc, e)))

-- 513 bytes of data for `audiourl`.
abbrev long : List ℕ
long = 0x68 ∷ 1 ∷ 0 ∷ 0 ∷ 0 ∷ 0 ∷ 0x68 ∷ 3 ∷ 2 ∷ 1 ∷ replicate 516 7

abbrev server : Server
server = record {
  sndbuf = replicate 1024 0;
  sent = [];
  audiourl = replicate 512 0;
  update_audiourl_flag = 0;
  device_check_result_flag = 0;
}
