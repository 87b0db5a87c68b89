-- ===== src/Tests/Words.antt =====
-- Checksums, byte order and packed decimals on concrete numbers.
use smart_home_xiugai.Prelude.{ℕ, [], ◌∷◌, ◌++◌, refl, ◌≡◌, arith, bit_xor}
use smart_home_xiugai.Crc.{
  crc_table, crc_step, crc_loop, calculate_crc, calculate_crc_step, get_crc16,
}
use smart_home_xiugai.Crc.Bitwise.{bitwise_crc, calculate_crc_step-bitwise}
use smart_home_xiugai.Crc.Detect.{calculate_crc_detects, get_crc16_collision, hi_after}
use smart_home_xiugai.Bytes.Decimals.{bcdtol, ltobcd, hextobcd, bcdtohex}
use smart_home_xiugai.Bytes.Decimals.Agree.{datachg-eq-bcd}
use smart_home_xiugai.Bcd.{bcd_to_unsigned, unsigned_to_bcd, hex_to_bcd, bcd_to_hex}

check_value :
    calculate_crc (b'1' ∷ b'2' ∷ b'3' ∷ b'4' ∷ b'5' ∷ b'6' ∷ b'7' ∷ b'8' ∷ b'9' ∷ []) ≡ 0x31c3
unfolding calculate_crc crc_loop crc_step crc_table
check_value = refl

calculate_crc_step-bitwise_example :
    calculate_crc_step (1 ∷ 200 ∷ []) 0xffff ≡ bitwise_crc (1 ∷ 200 ∷ []) 0xffff
calculate_crc_step-bitwise_example =
    calculate_crc_step-bitwise (1 ∷ 200 ∷ []) 0xffff (omega arith, (omega arith, tt)) (omega arith)

calculate_crc_detects_example : ◌≡◌ {A = ℕ} 9 9
calculate_crc_detects_example =
    calculate_crc_detects (1 ∷ []) (3 ∷ []) 9 9 (omega arith, tt) (omega arith) (omega arith) refl

get_crc16_collision_example :
    let h = hi_after (1 ∷ []) 0xff 0xff in
    get_crc16 ((1 ∷ []) ++ bit_xor h 1 ∷ (7 ∷ []))
    ≡ get_crc16 ((1 ∷ []) ++ bit_xor h 255 ∷ (7 ∷ []))
get_crc16_collision_example = get_crc16_collision (1 ∷ []) (7 ∷ [])

datachg-eq-bcd_example :
    (bcdtol (0x12 ∷ 0x34 ∷ 0x56 ∷ []) 3 ≡ bcd_to_unsigned (0x12 ∷ 0x34 ∷ 0x56 ∷ []))
    × (ltobcd 1234 (0x12 ∷ 0x34 ∷ 0x56 ∷ []) 2
        ≡ ((unsigned_to_bcd 1234 2).0 ++ (0x56 ∷ []), (unsigned_to_bcd 1234 2).1))
    × (hextobcd (0x12 ∷ 0x34 ∷ 0x56 ∷ []) ≡ hex_to_bcd (0x12 ∷ 0x34 ∷ 0x56 ∷ []))
    × (bcdtohex (0x12 ∷ 0x34 ∷ 0x56 ∷ []) ≡ bcd_to_hex (0x12 ∷ 0x34 ∷ 0x56 ∷ []))
datachg-eq-bcd_example = datachg-eq-bcd 1234 2 (0x12 ∷ 0x34 ∷ 0x56 ∷ []) (omega arith) (omega arith)
