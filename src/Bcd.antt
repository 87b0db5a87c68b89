-- ===== src/Bcd.antt =====
-- Packed decimal numbers, lib/bcd.c: two digits to a byte, the low byte first. A buffer is the list of
-- its first `len` bytes; the masks and shifts of the source are remainders and quotients.
pub mod RoundTrip
use smart_home_xiugai.Prelude.Int.{ℤ, pos, negsuc, ◌-ℤ◌}
use smart_home_xiugai.Prelude.{
  ℕ, zero, suc, ◌+◌, ◌-◌, ◌*◌, ◌/◌, ◌%◌, ◌^◌, List, [], ◌∷◌, map, u8, u32, ◌==◌, leb, ltb,
  if◌then◌else◌, Bool, true, false, not, ◌&&◌, bit_or,
}

-- `((b & 0xf0) >> 4) * 10` and `b & 0x0f` in an `unsigned char`.
abbrev pub byte_value : ℕ → ℕ
byte_value b = u8 (u8 (b % 256 / 16 * 10) + b % 16)

-- `BcdToUnsigned`: the loop goes from the last byte to the first.
unfoldable pub bcd_to_unsigned : List ℕ → ℕ
bcd_to_unsigned [] = 0
bcd_to_unsigned (b ∷ bcd) = u32 (u32 (bcd_to_unsigned bcd * 100) + byte_value b)

-- One turn of the loop of `UnsignedToBcd`: the byte, and what is left.
unfoldable pub bcd_digits : ℕ → ℕ × ℕ
bcd_digits ul = if ul == 0 then (0, ul) else (u8 (ul % 10 + u8 (ul / 10 % 10 * 16)), ul / 10 / 10)

-- `UnsignedToBcd`: the bytes, and the returned 1 for a number with more digits than they hold.
unfoldable pub unsigned_to_bcd : ℕ → ℕ → List ℕ × ℕ
unfolding bcd_digits
unsigned_to_bcd ul zero = ([], if not (ul == 0) then 1 else 0)
unsigned_to_bcd ul (suc maxlen) =
    let (byte, left) = bcd_digits ul in
    let (bytes, rtn) = unsigned_to_bcd left maxlen in (byte ∷ bytes, rtn)

-- `HexToBcd` and `BcdToHex`, byte by byte.
unfoldable pub hex_to_bcd : List ℕ → List ℕ
hex_to_bcd [] = []
hex_to_bcd (b ∷ str) =
    let uc2 = if ltb 9 (b / 10) then 9 else b / 10 in
    bit_or (uc2 * 16 % 256) (b % 10) ∷ hex_to_bcd str

unfoldable pub bcd_to_hex : List ℕ → List ℕ
bcd_to_hex [] = []
bcd_to_hex (b ∷ str) = u8 (b % 16 + u8 (b % 256 / 16 * 10)) ∷ bcd_to_hex str

-- `atox`: the value so far and whether a digit has been seen; the first other character behind a
-- digit ends it. The result is taken to 32 bits.
unfoldable pub atox_loop : List ℕ → ℕ → Bool → ℕ
atox_loop [] rtn bstart = rtn
atox_loop (c ∷ str) rtn bstart =
    let digit = atox_loop str (u32 (rtn * 16 + (c - b'0'))) true in
    let upper = atox_loop str (u32 (rtn * 16 + (c - b'A') + 10)) true in
    let lower = atox_loop str (u32 (rtn * 16 + (c - b'a') + 10)) true in
    let skip = atox_loop str rtn bstart in
    if leb b'0' c && leb c b'9'
    then digit
    else if leb b'A' c && leb c b'F'
    then upper
    else if leb b'a' c && leb c b'f'
    then lower
    else if bstart
    then rtn
    else skip

unfoldable pub atox : List ℕ → ℕ
unfolding atox_loop
atox str = atox_loop str 0 false

-- `BcdToInt`: the last byte gives the sign and its own digits, those before it go on. Four bytes fit an
-- `int`, whose range is not left for them.
unfoldable pub bcd_magnitude : List ℕ → ℕ
bcd_magnitude [] = 0
bcd_magnitude (b ∷ []) = if leb 128 b then u8 (u8 (b % 128 / 16 * 10) + b % 16) else byte_value b
bcd_magnitude (b ∷ c ∷ bcd) = bcd_magnitude (c ∷ bcd) * 100 + byte_value b

unfoldable pub bcd_flag : List ℕ → Bool
bcd_flag [] = false
bcd_flag (b ∷ []) = leb 128 b
bcd_flag (b ∷ c ∷ bcd) = bcd_flag (c ∷ bcd)

unfoldable pub bcd_to_int : List ℕ → ℤ
unfolding bcd_magnitude bcd_flag
bcd_to_int [] = pos 1
bcd_to_int (b ∷ bcd) =
    let rtn = pos (bcd_magnitude (b ∷ bcd)) in if bcd_flag (b ∷ bcd) then pos 0 -ℤ rtn else rtn

-- `bcd[maxlen-1] |= 0x80`
unfoldable pub mark_last : List ℕ → List ℕ
mark_last [] = []
mark_last (b ∷ []) = bit_or b 0x80 ∷ []
mark_last (b ∷ c ∷ bcd) = b ∷ mark_last (c ∷ bcd)

-- `IntToBcd`: the bytes, and the returned 1 for a number with more digits than they hold.
unfoldable pub int_to_bcd : ℤ → ℕ → List ℕ × ℕ
unfolding unsigned_to_bcd mark_last
int_to_bcd l zero = ([], 0)
int_to_bcd (pos n) (suc maxlen) = unsigned_to_bcd n (suc maxlen)
int_to_bcd (negsuc n) (suc maxlen) =
    let (bytes, rtn) = unsigned_to_bcd (suc n) (suc maxlen) in (mark_last bytes, rtn)
