-- ===== src/Uplink/Frame/Laws.antt =====
-- What `MakePacketG` builds, `CheckStreamOK` accepts.
use smart_home_xiugai.Prelude.{
  ℕ, ◌+◌, ◌-◌, ◌*◌, ◌/◌, ◌^◌, ◌<◌, ◌≤◌, ◌≡◌, List, [], ◌∷◌, get_or, set, take, length, u8, u16,
  ◌==◌, ◌<<<◌, ◌>>>◌, bit_or, arith, true, false, ap, ◌∙◌, sym, get_or-set_self, get_or-set_ne,
  take-set, length-set, if◌then◌else◌, ◌↔◌, not,
}
use smart_home_xiugai.Prelude.Or.{bit_or-shifted}
use smart_home_xiugai.Crc.{get_crc16, get_crc16_loop}
use smart_home_xiugai.Uplink.Frame.{uplink_head, uplink_tail, data_len, make_packet, check_stream}

pub get_crc16-lt : (bytes : List ℕ) → get_crc16 bytes < 2 ^ 16
unfolding get_crc16
get_crc16-lt bytes = loop bytes 0xff 0xff
  where
    loop : (bs : List ℕ) (hi lo : ℕ) → get_crc16_loop bs hi lo < 2 ^ 16
    loop [] hi lo = omega arith
    loop (b ∷ bs) hi lo = loop bs _ _

-- The two checksum bytes, high byte first, make the checksum again.
pub join_bytes : (c : ℕ) → c < 2 ^ 16 → bit_or (u16 (u8 (c >>> 8) <<< 8)) (u8 c) ≡ c
join_bytes c h =
    ap (λ (t : ℕ). bit_or t (u8 c)) {y = c / 256 * 2 ^ 8} (omega arith)
    ∙ bit_or-shifted 8 (c / 256) (u8 c) (omega arith)
    ∙ omega arith

-- A packet of `n` bytes with its checksum and tail behind.
abbrev sealed : List ℕ → ℕ → ℕ → ℕ → List ℕ
sealed pkt n hi lo = set (set (set pkt n hi) (n + 1) lo) (n + 2) uplink_tail

module _ (pkt : List ℕ) (n hi lo : ℕ) (room : n + 3 ≤ length pkt) where
  sealed_low : (i : ℕ) → i < n → get_or (sealed pkt n hi lo) i 0 ≡ get_or pkt i 0
  sealed_low i h =
      get_or-set_ne (set (set pkt n hi) (n + 1) lo) (n + 2) i uplink_tail 0 (omega arith)
      ∙ get_or-set_ne (set pkt n hi) (n + 1) i lo 0 (omega arith)
      ∙ get_or-set_ne pkt n i hi 0 (omega arith)

  sealed_tail : get_or (sealed pkt n hi lo) (n + 2) 0 ≡ uplink_tail
  sealed_tail =
      get_or-set_self (set (set pkt n hi) (n + 1) lo) (n + 2) uplink_tail 0
        (rw (length-set, length-set) (omega arith))

  sealed_hi : get_or (sealed pkt n hi lo) n 0 ≡ hi
  sealed_hi =
      get_or-set_ne (set (set pkt n hi) (n + 1) lo) (n + 2) n uplink_tail 0 (omega arith)
      ∙ get_or-set_ne (set pkt n hi) (n + 1) n lo 0 (omega arith)
      ∙ get_or-set_self pkt n hi 0 (omega arith)

  sealed_lo : get_or (sealed pkt n hi lo) (n + 1) 0 ≡ lo
  sealed_lo =
      get_or-set_ne (set (set pkt n hi) (n + 1) lo) (n + 2) (n + 1) uplink_tail 0 (omega arith)
      ∙ get_or-set_self (set pkt n hi) (n + 1) lo 0 (rw length-set (omega arith))

  take-sealed : take n (sealed pkt n hi lo) ≡ take n pkt
  take-sealed =
      take-set n (set (set pkt n hi) (n + 1) lo) (n + 2) uplink_tail (omega arith)
      ∙ take-set n (set pkt n hi) (n + 1) lo (omega arith)
      ∙ take-set n pkt n hi (omega arith)

-- What `CheckStreamOK` tests in a frame of `n + 3` bytes.
pub record IsFrame (stream : List ℕ) (n : ℕ) : Type 0 where
  pub head : get_or stream 0 0 ≡ uplink_head
  pub dep : get_or stream 6 0 ≡ uplink_head
  pub tail : get_or stream (n + 2) 0 ≡ uplink_tail
  pub crc :
      get_crc16 (take (u16 n) stream)
      ≡ bit_or (u16 (get_or stream n 0 <<< 8)) (get_or stream (n + 1) 0)

tests_iff :
    (a b c x y : ℕ)
    → ((if not (a == uplink_head)
          then false
          else if not (b == uplink_head)
          then false
          else if not (c == uplink_tail)
          then false
          else x == y)
        ≡ true)
      ↔ ((a ≡ uplink_head) × (b ≡ uplink_head) × (c ≡ uplink_tail) × (x ≡ y))
tests_iff a b c x y = ground arith

check_stream-add :
    (stream : List ℕ) (n : ℕ)
    → check_stream stream (n + 3) ≡ (
        if not (get_or stream 0 0 == uplink_head)
        then false
        else if not (get_or stream 6 0 == uplink_head)
        then false
        else if not (get_or stream (n + 2) 0 == uplink_tail)
        then false
        else get_crc16 (take (u16 n) stream)
          == bit_or (u16 (get_or stream n 0 <<< 8)) (get_or stream (n + 1) 0))
unfolding check_stream
check_stream-add stream n =
    let last : n + 3 - 1 ≡ n + 2 = omega arith in
    let hi : n + 3 - 3 ≡ n = omega arith in
    let lo : n + 3 - 2 ≡ n + 1 = omega arith in rw (last, hi, lo)

-- `CheckStreamOK` returns 1 for a frame of `n + 3` bytes exactly when the bytes 0 and 6 are the head
-- byte, the last is the tail byte, and the two before it join to the checksum of the first `n`.
pub check_stream_iff :
    (stream : List ℕ) (n : ℕ) → (check_stream stream (n + 3) ≡ true) ↔ IsFrame stream n
check_stream_iff stream n =
    let tests =
      tests_iff (get_or stream 0 0) (get_or stream 6 0) (get_or stream (n + 2) 0)
        (get_crc16 (take (u16 n) stream))
        (bit_or (u16 (get_or stream n 0 <<< 8)) (get_or stream (n + 1) 0)) in
    (
      λ h.
          let f = tests.0 (sym (check_stream-add stream n) ∙ h) in
          record { head = f.0; dep = f.1; tail = f.2; crc = f.3 },
      λ f. check_stream-add stream n ∙ tests.1 (f.head, f.dep, f.tail, f.crc),
    )

sealed-IsFrame :
    (pkt : List ℕ) (n : ℕ)
    → n < 2 ^ 16
    → 6 < n
    → n + 3 ≤ length pkt
    → get_or pkt 0 0 ≡ uplink_head
    → get_or pkt 6 0 ≡ uplink_head
    → let c = get_crc16 (take n pkt) in IsFrame (sealed pkt n (u8 (c >>> 8)) (u8 c)) n
sealed-IsFrame pkt n small long room h0 h6 =
    let c = get_crc16 (take n pkt) in
    let hi : ℕ = u8 (c >>> 8) in
    let lo : ℕ = u8 c in
    let whole : u16 n ≡ n = omega arith in
    record {
      head = sealed_low pkt n hi lo room 0 (omega arith) ∙ h0;
      dep = sealed_low pkt n hi lo room 6 long ∙ h6;
      tail = sealed_tail pkt n hi lo room;
      crc =
          rw
            (
              whole,
              take-sealed pkt n hi lo room,
              sealed_hi pkt n hi lo room,
              sealed_lo pkt n hi lo room,
            )
            (sym (join_bytes c (get_crc16-lt (take n pkt))));
    }

-- A packet with both head bytes set and room for its checksum and tail leaves `MakePacketG` as a
-- frame that `CheckStreamOK` accepts at the returned length, if the checksum's length count does not
-- wrap; the length is 13 more than the data's, and everything before the checksum is unchanged.
pub check_stream-make_packet :
    (pkt : List ℕ)
    → get_or pkt 0 0 ≡ uplink_head
    → get_or pkt 6 0 ≡ uplink_head
    → data_len pkt + 10 < 2 ^ 16
    → data_len pkt + 13 ≤ length pkt
    → let (frame, n) = make_packet pkt in
      (check_stream frame n ≡ true)
      × (n ≡ data_len pkt + 13)
      × (take (data_len pkt + 10) frame ≡ take (data_len pkt + 10) pkt)
unfolding make_packet
check_stream-make_packet pkt h0 h6 small room =
    let n : ℕ = 10 + data_len pkt in
    let whole : 10 + data_len pkt + 2 + 1 ≡ n + 3 = omega arith in
    let covered : u16 (10 + data_len pkt + 2 + 1 - 3) ≡ n = omega arith in
    let order : data_len pkt + 10 ≡ n = omega arith in
    rw (covered, whole, order)
      (
        (check_stream_iff _ n).1
            (sealed-IsFrame pkt n (omega arith) (omega arith) (omega arith) h0 h6),
        omega arith,
        take-sealed pkt n _ _ (omega arith),
      )
