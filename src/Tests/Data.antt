-- ===== src/Tests/Data.antt =====
-- A frame, a receiver and a line that the tests share.
use smart_home_xiugai.Prelude.{
  ℕ, zero, suc, List, [], ◌∷◌, ◌++◌, replicate, false, refl, ◌≡◌, arith,
}
use smart_home_xiugai.Crc.{get_crc16, get_crc16_loop, crc_hi_table, crc_lo_table}
use smart_home_xiugai.Bytes.{makepkt_short}
use smart_home_xiugai.Uplink.Frame.{data_len, make_packet}
use smart_home_xiugai.Uplink.Recv.{Link, reset_fsm}
use smart_home_xiugai.Uplink.Recv.Invariant.{IsValid, at_head}
use smart_home_xiugai.Uplink.Recv.Complete.{IsGood}

-- An answer to a logon with two bytes of data, and room for the checksum and the tail.
abbrev pub packet : List ℕ
packet = 0x68 ∷ 1 ∷ 0x12 ∷ 0x34 ∷ 0x56 ∷ 0x78 ∷ 0x68 ∷ 0x21 ∷ 0 ∷ 2 ∷ 7 ∷ 9 ∷ 0 ∷ 0 ∷ 0 ∷ []

abbrev pub frame : List ℕ
frame = 0x68 ∷ 1 ∷ 0x12 ∷ 0x34 ∷ 0x56 ∷ 0x78 ∷ 0x68 ∷ 0x21 ∷ 0 ∷ 2 ∷ 7 ∷ 9 ∷ 109 ∷ 55 ∷ 0x16 ∷ []

packed : make_packet packet ≡ (frame, 15)
unfolding make_packet data_len get_crc16 get_crc16_loop crc_hi_table crc_lo_table makepkt_short
packed = refl

pub frame-IsGood : IsGood frame
unfolding data_len get_crc16 get_crc16_loop crc_hi_table crc_lo_table makepkt_short
frame-IsGood = record {
  sized = refl;
  fits = omega arith;
  framed = record { head = refl; dep = refl; tail = refl; crc = refl };
}

-- A receiver that holds nothing, and one that has just taken the frame.
abbrev pub empty_link : Link
empty_link = record {
  timer = record { cnt = 0; max = 0; flag = false };
  fsm = reset_fsm;
  rcvbuf = replicate 1152 0;
}

abbrev pub full_link : Link
full_link = record {
  timer = record { cnt = 0; max = 50; flag = false };
  fsm = reset_fsm;
  rcvbuf = frame ++ replicate 1137 0;
}

pub empty_link-IsValid : IsValid empty_link []
empty_link-IsValid = record {
  holds = record { room = refl; offset = refl; count = refl; bytes = refl };
  stage = at_head refl refl;
}

-- Characters that announce 1200 bytes of data.
abbrev pub oversized : List ℕ
oversized = 0x68 ∷ 1 ∷ 0 ∷ 0 ∷ 0 ∷ 0 ∷ 0x68 ∷ 0x21 ∷ 4 ∷ 0xb0 ∷ replicate 1150 0

-- A line that stands, never refuses, and brings the frame at the second call of the receiver.
abbrev pub answers : ℕ → ℕ → List ℕ
answers i zero = []
answers i (suc j) = frame
