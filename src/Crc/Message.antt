-- ===== src/Crc/Message.antt =====
-- Checksums of messages in parts, and of messages that carry their checksum.
use smart_home_xiugai.Prelude.{
  ℕ, ◌^◌, ◌%◌, ◌/◌, ◌*◌, ◌<◌, ◌≡◌, refl, List, [], ◌∷◌, ◌++◌, arith, ◌∙◌, ap,
}
use smart_home_xiugai.Prelude.Xor.{bit_xor_self, bit_xor-zero}
use smart_home_xiugai.Crc.{
  crc_table, crc_step, crc_loop, calculate_crc, calculate_crc_step, cal_crc, cal_crc_loop,
}
use smart_home_xiugai.Crc.Bitwise.{crc_step-lt}

pub crc_loop-append :
    (xs ys : List ℕ) (temp : ℕ) → crc_loop (xs ++ ys) temp ≡ crc_loop ys (crc_loop xs temp)
unfolding crc_loop
crc_loop-append [] ys temp = refl
crc_loop-append (x ∷ xs) ys temp = crc_loop-append xs ys (crc_step temp x)

pub crc_loop-lt : (bytes : List ℕ) (temp : ℕ) → temp < 2 ^ 16 → crc_loop bytes temp < 2 ^ 16
unfolding crc_loop
crc_loop-lt [] temp p = p
crc_loop-lt (byte ∷ rest) temp p = crc_loop-lt rest (crc_step temp byte) (crc_step-lt temp byte)

pub calculate_crc-loop : (bytes : List ℕ) → calculate_crc bytes ≡ crc_loop bytes 0
unfolding calculate_crc
calculate_crc-loop [] = refl
calculate_crc-loop (byte ∷ rest) = refl

pub calculate_crc_step-loop :
    (bytes : List ℕ) (pcrc : ℕ) → calculate_crc_step bytes pcrc ≡ crc_loop bytes pcrc
unfolding calculate_crc_step
calculate_crc_step-loop [] pcrc = refl
calculate_crc_step-loop (byte ∷ rest) pcrc = refl

-- Taking a buffer in two parts, `CalculateCRC` of the first and `CalculateCRCStep` over the second,
-- gives the checksum of the whole, wherever the cut is.
pub calculate_crc-append :
    (xs ys : List ℕ) → calculate_crc (xs ++ ys) ≡ calculate_crc_step ys (calculate_crc xs)
calculate_crc-append xs ys =
    rw (calculate_crc-loop (xs ++ ys), calculate_crc-loop xs, calculate_crc_step-loop ys)
      (crc_loop-append xs ys 0)

-- One byte of a checksum cancels itself in the register.
crc_step_self : (c : ℕ) → c < 2 ^ 16 → crc_step c (c / 256) ≡ c % 256 * 256
unfolding crc_step crc_table
crc_step_self c p = rw (bit_xor_self (c / 256), bit_xor-zero (c * 256)) (omega arith)

pub calculate_crc-lt : (bytes : List ℕ) → calculate_crc bytes < 2 ^ 16
calculate_crc-lt bytes = rw (calculate_crc-loop bytes) (crc_loop-lt bytes 0 (omega arith))

-- A message followed by its own checksum, high byte first, has checksum zero.
pub calculate_crc_residue :
    (bytes : List ℕ)
    → let c = calculate_crc bytes in calculate_crc (bytes ++ c / 256 ∷ c % 256 ∷ []) ≡ 0
unfolding crc_loop
calculate_crc_residue bytes =
    let c : ℕ = calculate_crc bytes in
    calculate_crc-append bytes (c / 256 ∷ c % 256 ∷ [])
    ∙ calculate_crc_step-loop (c / 256 ∷ c % 256 ∷ []) c
    ∙ ap (λ (t : ℕ). crc_step t (c % 256)) (crc_step_self c (calculate_crc-lt bytes))
    ∙ ap (crc_step (c % 256 * 256)) {y = c % 256 * 256 / 256} (omega arith)
    ∙ crc_step_self (c % 256 * 256) (omega arith)
    ∙ omega arith

cal_crc_loop-eq-crc_loop :
    (bytes : List ℕ) (temp : ℕ) → cal_crc_loop bytes temp ≡ crc_loop bytes temp
unfolding cal_crc_loop crc_loop crc_step
cal_crc_loop-eq-crc_loop [] temp = refl
cal_crc_loop-eq-crc_loop (byte ∷ rest) temp = cal_crc_loop-eq-crc_loop rest _

-- For every buffer the checksum of lib/datachg.c is the checksum of lib/crc.c.
pub cal_crc-eq-calculate_crc : (bytes : List ℕ) → cal_crc bytes ≡ calculate_crc bytes
unfolding cal_crc calculate_crc
cal_crc-eq-calculate_crc [] = refl
cal_crc-eq-calculate_crc (byte ∷ rest) = cal_crc_loop-eq-crc_loop (byte ∷ rest) 0
