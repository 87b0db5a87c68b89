-- ===== src/Crc/Bitwise.antt =====
-- The checksum as a shift register, one bit at a time: the description that the table speeds up.
use smart_home_xiugai.Prelude.{
  ℕ, zero, suc, ◌^◌, ◌%◌, ◌/◌, ◌*◌, ◌+◌, ◌<◌, ◌≡◌, refl, List, [], ◌∷◌, true, bit_xor, u16, ◌<<<◌,
  get_or, leb, ◌==◌, ==_iff, if◌then◌else◌, all_below, all_below_sound, arith, IsBytes, ap, ◌∙◌,
  sym, ltb, ltb→lt,
}
use smart_home_xiugai.Prelude.Xor.{
  bit_xor_assoc, bit_xor_comm, bit_xor-zero, zero-bit_xor, shift-bit_xor, mod-bit_xor, bit_xor-lt,
  bit_xor_double,
}
use native.Mathlib.Nat.{mod-eq_of_lt}
use smart_home_xiugai.Crc.{crc_table, crc_step, crc_loop, calculate_crc_step}

-- CRC16_POLY
abbrev pub poly : ℕ
poly = 0x1021

-- Shift left by one; the bit that falls out of the 16 feeds the polynomial back.
unfoldable pub shift_bit : ℕ → ℕ
shift_bit crc = if leb 0x8000 crc then bit_xor (u16 (crc <<< 1)) poly else u16 (crc <<< 1)

unfoldable pub shift_bits : ℕ → ℕ → ℕ
shift_bits zero crc = crc
shift_bits (suc n) crc = shift_bits n (shift_bit crc)

unfoldable pub bitwise_step : ℕ → ℕ → ℕ
bitwise_step crc byte = shift_bits 8 (bit_xor crc (byte <<< 8))

unfoldable pub bitwise_crc : List ℕ → ℕ → ℕ
bitwise_crc [] crc = crc
bitwise_crc (byte ∷ rest) crc = bitwise_crc rest (bitwise_step crc byte)

-- Shifting is linear. The top bit `t` of the register feeds `t * poly` back.
feedback : ℕ → ℕ
feedback t = if t == 0 then 0 else poly

shift_bit-feedback :
    (x : ℕ) → x < 2 ^ 16 → shift_bit x ≡ bit_xor (x % 2 ^ 15 * 2) (feedback (x / 2 ^ 15))
unfolding shift_bit feedback
shift_bit-feedback x h =
    ground (arith, bit_xor-zero (x % 2 ^ 15 * 2), ap (λ (t : ℕ). bit_xor t poly) (fits x))
  where
    fits : (x : ℕ) → u16 (x <<< 1) ≡ x % 2 ^ 15 * 2
    fits x = omega arith

feedback-bit_xor :
    (t u : ℕ) → t < 2 → u < 2 → feedback (bit_xor t u) ≡ bit_xor (feedback t) (feedback u)
unfolding feedback
feedback-bit_xor zero zero p q = refl
feedback-bit_xor zero (suc zero) p q = refl
feedback-bit_xor (suc zero) zero p q = refl
feedback-bit_xor (suc zero) (suc zero) p q = refl
feedback-bit_xor (suc (suc t)) u p q = absurd (omega arith)
feedback-bit_xor t (suc (suc u)) p q = absurd (omega arith)

xor_interchange :
    (a b c d : ℕ) → bit_xor (bit_xor a b) (bit_xor c d) ≡ bit_xor (bit_xor a c) (bit_xor b d)
xor_interchange a b c d =
    bit_xor_assoc a b (bit_xor c d)
    ∙ ap (bit_xor a) (
        sym (bit_xor_assoc b c d)
        ∙ ap (λ (t : ℕ). bit_xor t d) (bit_xor_comm b c)
        ∙ bit_xor_assoc c b d)
    ∙ sym (bit_xor_assoc a c (bit_xor b d))

shift_bit-bit_xor :
    (x y : ℕ)
    → x < 2 ^ 16
    → y < 2 ^ 16
    → shift_bit (bit_xor x y) ≡ bit_xor (shift_bit x) (shift_bit y)
shift_bit-bit_xor x y p q =
    rw
      (
        shift_bit-feedback (bit_xor x y) (bit_xor-lt 16 x y p q),
        shift_bit-feedback x p,
        shift_bit-feedback y q,
        mod-bit_xor 15 x y,
        shift-bit_xor 15 x y,
        ← bit_xor_double (x % 2 ^ 15) (y % 2 ^ 15),
        feedback-bit_xor (x / 2 ^ 15) (y / 2 ^ 15) (omega arith) (omega arith),
      )
      (xor_interchange (x % 2 ^ 15 * 2) (y % 2 ^ 15 * 2) (feedback (x / 2 ^ 15))
        (feedback (y / 2 ^ 15)))

shift_bit-lt : (x : ℕ) → x < 2 ^ 16 → shift_bit x < 2 ^ 16
unfolding shift_bit
shift_bit-lt x p = ground (arith, bit_xor-lt 16 (u16 (x <<< 1)) poly)

shift_bits-bit_xor :
    (n x y : ℕ)
    → x < 2 ^ 16
    → y < 2 ^ 16
    → shift_bits n (bit_xor x y) ≡ bit_xor (shift_bits n x) (shift_bits n y)
unfolding shift_bits
shift_bits-bit_xor zero x y p q = refl
shift_bits-bit_xor (suc n) x y p q =
    rw (shift_bit-bit_xor x y p q)
      (shift_bits-bit_xor n (shift_bit x) (shift_bit y) (shift_bit-lt x p) (shift_bit-lt y q))

-- The table holds what eight shifts make of a high byte; a low byte only moves up.
high_byte : (b : ℕ) → b < 256 → shift_bits 8 (b * 256) ≡ get_or crc_table b 0
high_byte b p = (==_iff _ _).0 (all_below_sound 256 _ b table p)
  where
    table : all_below 256 (λ b. shift_bits 8 (b * 256) == get_or crc_table b 0) ≡ true
    table = unfold all_below shift_bits shift_bit crc_table in refl

low_byte : (b : ℕ) → b < 256 → shift_bits 8 b ≡ b * 256
low_byte b p = (==_iff _ _).0 (all_below_sound 256 _ b table p)
  where
    table : all_below 256 (λ b. shift_bits 8 b == b * 256) ≡ true
    table = unfold all_below shift_bits shift_bit in refl

crc_table-lt : (b : ℕ) → b < 256 → get_or crc_table b 0 < 2 ^ 16
crc_table-lt b p = ltb→lt _ _ (all_below_sound 256 _ b table p)
  where
    table : all_below 256 (λ b. ltb (get_or crc_table b 0) (2 ^ 16)) ≡ true
    table = unfold all_below crc_table in refl

split_bytes : (h l : ℕ) → l < 256 → bit_xor (h * 256) l ≡ h * 256 + l
split_bytes h l p = omega (
  arith,
  shift-bit_xor 8 (h * 256) l,
  mod-bit_xor 8 (h * 256) l,
  ap (λ (t : ℕ). bit_xor t (l / 256)) shifted,
  ap (λ (t : ℕ). bit_xor h t) low_shifted,
  bit_xor-zero h,
  ap (λ (t : ℕ). bit_xor t (l % 256)) cut,
  zero-bit_xor (l % 256),
)
  where
    shifted : h * 256 / 256 ≡ h
    shifted = omega arith

    low_shifted : l / 256 ≡ 0
    low_shifted = omega arith

    cut : h * 256 % 256 ≡ 0
    cut = omega arith

shift_bits_eight :
    (x : ℕ) → x < 2 ^ 16 → shift_bits 8 x ≡ bit_xor (x % 256 * 256) (get_or crc_table (x / 256) 0)
shift_bits_eight x p =
    let h : ℕ = x / 256 in
    let l : ℕ = x % 256 in
    let e : x ≡ bit_xor (h * 256) l = omega (arith, split_bytes h l (omega arith)) in
    ap (shift_bits 8) e
    ∙ shift_bits-bit_xor 8 (h * 256) l (omega arith) (omega arith)
    ∙ rw (high_byte h (omega arith), low_byte l (omega arith)) (bit_xor_comm _ _)

-- One turn of the table-driven loop is eight shifts of the register.
pub crc_step-eq-bitwise_step :
    (temp byte : ℕ) → temp < 2 ^ 16 → byte < 256 → crc_step temp byte ≡ bitwise_step temp byte
unfolding crc_step bitwise_step
crc_step-eq-bitwise_step temp byte p q =
    rw
      (
        mod-bit_xor 16 (temp * 256) (get_or crc_table (bit_xor (temp / 256) byte) 0),
        mod-eq_of_lt (crc_table-lt (bit_xor (temp / 256) byte) index),
        shift_bits_eight (bit_xor temp (byte * 256)) (bit_xor-lt 16 temp _ p (omega arith)),
        low,
        high,
      )
      (ap (λ (t : ℕ). bit_xor t (get_or crc_table (bit_xor (temp / 256) byte) 0)) (omega arith))
  where
    index : bit_xor (temp / 256) byte < 256
    index = bit_xor-lt 8 (temp / 256) byte (omega arith) q

    high : bit_xor temp (byte * 256) / 256 ≡ bit_xor (temp / 256) byte
    high = shift-bit_xor 8 temp (byte * 256) ∙ ap (bit_xor (temp / 256)) (omega arith)

    low : bit_xor temp (byte * 256) % 256 ≡ temp % 256
    low =
        mod-bit_xor 8 temp (byte * 256)
        ∙ ap (bit_xor (temp % 256)) {y = 0} (omega arith)
        ∙ bit_xor-zero (temp % 256)

pub crc_step-lt : (temp byte : ℕ) → crc_step temp byte < 2 ^ 16
unfolding crc_step
crc_step-lt temp byte = omega arith

crc_loop-eq-bitwise_crc :
    (bytes : List ℕ) (temp : ℕ)
    → IsBytes bytes
    → temp < 2 ^ 16
    → crc_loop bytes temp ≡ bitwise_crc bytes temp
unfolding crc_loop bitwise_crc
crc_loop-eq-bitwise_crc [] temp h p = refl
crc_loop-eq-bitwise_crc (byte ∷ rest) temp h p =
    rw (← crc_step-eq-bitwise_step temp byte p h.0)
      (crc_loop-eq-bitwise_crc rest (crc_step temp byte) h.1 (crc_step-lt temp byte))

-- For any buffer of bytes and any 16-bit start value, the table-driven `CalculateCRCStep` returns
-- what the bit-by-bit shift register of the polynomial 0x1021 holds after the same bytes.
pub calculate_crc_step-bitwise :
    (bytes : List ℕ) (pcrc : ℕ)
    → IsBytes bytes
    → pcrc < 2 ^ 16
    → calculate_crc_step bytes pcrc ≡ bitwise_crc bytes pcrc
unfolding calculate_crc_step bitwise_crc
calculate_crc_step-bitwise [] pcrc h p = refl
calculate_crc_step-bitwise (byte ∷ rest) pcrc h p = crc_loop-eq-bitwise_crc (byte ∷ rest) pcrc h p
