-- ===== src/Alarm/Files.antt =====
-- What of the ring goes to the alarm files.
use Prim.Native.Nat.{digits, min}
use smart_home_xiugai.Prelude.{ℕ, zero}

-- The mask is zero: the complement of 255 has no bit left in an `unsigned char`.
and_digits : ℕ → ℕ → ℕ
and_digits n a = digits (λ d. zero) min n a 0
