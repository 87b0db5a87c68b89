-- ===== src/Crc.antt =====
-- Checksums: lib/crc.c (`CalculateCRC`, `CalculateCRCStep`), and `cal_crc` and `GetCRC16` of
-- lib/datachg.c. A buffer is the list of the `count` bytes that the call reads.
mod Table
mod ModbusTables
pub mod Bitwise
pub mod Message
pub mod Detect
unfoldable pub use Table.{crc_table}
unfoldable pub use ModbusTables.{crc_hi_table, crc_lo_table}
use smart_home_xiugai.Prelude.{
  ℕ, ◌^◌, ◌%◌, ◌/◌, ◌*◌, List, [], ◌∷◌, bit_xor, bit_or, u16, ◌<<<◌, ◌>>>◌, get_or,
}

-- One turn of the loop: `temp = (temp << 8) ^ CrcTable[(temp >> 8) ^ *buffer++]`.
unfoldable pub crc_step : ℕ → ℕ → ℕ
crc_step temp byte = u16 (bit_xor (temp <<< 8) (get_or crc_table (bit_xor (temp >>> 8) byte) 0))

-- The `while` loop of `CalculateCRC` and `CalculateCRCStep`.
unfoldable pub crc_loop : List ℕ → ℕ → ℕ
crc_loop [] temp = temp
crc_loop (byte ∷ rest) temp = crc_loop rest (crc_step temp byte)

-- Zero bytes or fewer return early.
unfoldable pub calculate_crc : List ℕ → ℕ
unfolding crc_loop
calculate_crc [] = 0
calculate_crc (byte ∷ rest) = crc_loop (byte ∷ rest) 0

-- The second argument is `*pcrc` before the call, the result is `*pcrc` after it.
unfoldable pub calculate_crc_step : List ℕ → ℕ → ℕ
unfolding crc_loop
calculate_crc_step [] pcrc = pcrc
calculate_crc_step (byte ∷ rest) pcrc = crc_loop (byte ∷ rest) pcrc

-- `cal_crc` of lib/datachg.c, with its own copy of the table and of the loop.
unfoldable pub cal_crc_loop : List ℕ → ℕ → ℕ
cal_crc_loop [] temp = temp
cal_crc_loop (byte ∷ rest) temp =
    cal_crc_loop rest (u16 (bit_xor (temp <<< 8) (get_or crc_table (bit_xor (temp >>> 8) byte) 0)))

unfoldable pub cal_crc : List ℕ → ℕ
unfolding cal_crc_loop
cal_crc [] = 0
cal_crc (byte ∷ rest) = cal_crc_loop (byte ∷ rest) 0

-- The loop of `GetCRC16` over `uchCRCHi` and `uchCRCLo`.
unfoldable pub get_crc16_loop : List ℕ → ℕ → ℕ → ℕ
get_crc16_loop [] hi lo = u16 (bit_or (hi <<< 8) lo)
get_crc16_loop (byte ∷ rest) hi lo =
    let index = bit_xor hi byte in
    get_crc16_loop rest (bit_xor lo (get_or crc_hi_table index 0)) (get_or crc_lo_table index 0)

unfoldable pub get_crc16 : List ℕ → ℕ
unfolding get_crc16_loop
get_crc16 msg = get_crc16_loop msg 0xff 0xff
