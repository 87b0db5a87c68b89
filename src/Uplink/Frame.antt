-- ===== src/Uplink/Frame.antt =====
-- Frames of uplink/uplink_dl.c: `MakePacketG`, `CheckStreamOK` and the address of `UplinkSendPktG`.
-- A packet is the bytes of its buffer, as in the casts of the source; uplink/uplink_pkt.h puts `head`
-- at 0, `ver` at 1, `addr` at 2, `dep` at 6, `cmd` at 7, `len` at 8 and `data` at 10.
pub mod Laws
use smart_home_xiugai.Prelude.{
  ℕ, zero, suc, ◌+◌, ◌-◌, ◌*◌, ◌/◌, ◌%◌, ◌^◌, List, [], ◌∷◌, get_or, set, take, drop, u8, u16, ◌==◌,
  if◌then◌else◌, Bool, true, false, bit_or, ◌<<<◌, ◌>>>◌, not,
}
use smart_home_xiugai.Bytes.{makepkt_short}
use smart_home_xiugai.Crc.{get_crc16}

-- UPLINK_HEAD and UPLINK_TAIL
abbrev pub uplink_head : ℕ
uplink_head = 0x68

abbrev pub uplink_tail : ℕ
uplink_tail = 0x16

-- The big-endian length field.
unfoldable pub data_len : List ℕ → ℕ
unfolding makepkt_short
data_len pkt = makepkt_short (get_or pkt 8 0 ∷ get_or pkt 9 0 ∷ [])

-- `MakePacketG`: writes the checksum and the tail behind the data, and returns the frame's length.
unfoldable pub make_packet : List ℕ → List ℕ × ℕ
make_packet pkt =
    let len = data_len pkt in
    let frame_len = 10 + len + 2 + 1 in
    let crc = get_crc16 (take (u16 (frame_len - 3)) pkt) in
    (
      set (set (set pkt (10 + len) (u8 (crc >>> 8))) (10 + len + 1) (u8 crc)) (10 + len + 2)
          uplink_tail,
      frame_len,
    )

-- `CheckStreamOK`, up to its last `return 1` (what stands behind it is compiled out).
unfoldable pub check_stream : List ℕ → ℕ → Bool
check_stream stream pack_len =
    if not (get_or stream 0 0 == uplink_head)
    then false
    else if not (get_or stream 6 0 == uplink_head)
    then false
    else if not (get_or stream (pack_len - 1) 0 == uplink_tail)
    then false
    else let crc = get_crc16 (take (u16 (pack_len - 3)) stream) in
      let crc2 =
        bit_or (u16 (get_or stream (pack_len - 3) 0 <<< 8)) (get_or stream (pack_len - 2) 0) in
      crc == crc2

-- The loop of `UplinkSendPktG` that packs the digits of the device's number into the address.
unfoldable pub set_addr : List ℕ → List ℕ → List ℕ
set_addr deviceid pkt = set (set (set (set pkt 2 (pair 0)) 3 (pair 1)) 4 (pair 2)) 5 (pair 3)
  where
    pair : ℕ → ℕ
    pair i = u8 (bit_or (get_or deviceid (i * 2) 0 <<< 4) (get_or deviceid (i * 2 + 1) 0))
