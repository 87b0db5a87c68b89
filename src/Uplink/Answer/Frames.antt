-- ===== src/Uplink/Answer/Frames.antt =====
-- Where `faal_makepkt` puts the checksum, and when a handler writes behind its array.
use smart_home_xiugai.Prelude.{
  ℕ, ◌+◌, ◌≡◌, ◌≢◌, ◌≤◌, refl, List, [], ◌∷◌, some, false, take, drop, u8, u16, ltb, ◌==◌, ◌>>>◌,
  arith,
}
use smart_home_xiugai.Crc.{get_crc16}
use smart_home_xiugai.Uplink.Frame.{data_len, set_addr, check_stream}
use smart_home_xiugai.Uplink.Answer.{Station, faal_fill, faal_close, faal_makepkt}

-- The checksum that `faal_makepkt` takes.
abbrev pub faal_crc : Station → List ℕ → ℕ
faal_crc st pkt = get_crc16 (take (u16 (data_len pkt + 10)) (faal_fill st.deviceid pkt))

-- `faal_makepkt` writes the checksum and the tail over the first three bytes of the frame, so the
-- frame that it returns begins with them instead of the head; the bytes from the length field on,
-- among them the places where the receiver looks for checksum and tail, are those of the packet
-- before. Unless the high byte of the checksum happens to be the head, `CheckStreamOK` refuses the
-- frame. The packet has a head, and its data fit the send limit.
pub faal_makepkt_refused :
    (st : Station) (p0 p1 p2 p3 p4 p5 p6 p7 : ℕ) (rest : List ℕ)
    → let pkt = p0 ∷ p1 ∷ p2 ∷ p3 ∷ p4 ∷ p5 ∷ p6 ∷ p7 ∷ rest in
      data_len pkt ≤ st.sndmax
      → u8 (faal_crc st pkt >>> 8) ≢ 0x68
      → (frame : List ℕ) × (faal_makepkt st pkt ≡ some (frame, data_len pkt + 10 + 3))
        × (take 3 frame ≡ u8 (faal_crc st pkt >>> 8) ∷ u8 (faal_crc st pkt) ∷ 0x16 ∷ [])
        × (drop 8 frame ≡ rest)
        × (check_stream frame (data_len pkt + 10 + 3) ≡ false)
unfolding faal_makepkt faal_close faal_fill set_addr check_stream
faal_makepkt_refused st p0 p1 p2 p3 p4 p5 p6 p7 rest fits other =
    let pkt : List ℕ = p0 ∷ p1 ∷ p2 ∷ p3 ∷ p4 ∷ p5 ∷ p6 ∷ p7 ∷ rest in
    let sends : ltb st.sndmax (data_len pkt) ≡ false = ground arith in
    let no_head : (u8 (faal_crc st pkt >>> 8) == 0x68) ≡ false = ground arith in
    (
      faal_close (data_len pkt + 10) (faal_fill st.deviceid pkt),
      rw sends refl,
      refl,
      refl,
      rw no_head refl,
    )
