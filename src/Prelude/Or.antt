-- ===== src/Prelude/Or.antt =====
-- Inclusive or of a shifted number and one that fits below it is their sum.
use Prim.Native.Nat.{digits, bit_or-bitwise, max, bit_or}
use Prim.Native.Nat.{ℕ, zero, suc, ◌+◌, ◌*◌, ◌/◌, ◌%◌, ◌^◌, ◌≤◌, ◌<◌}
use mathlib.Core.Path.{◌≡◌, refl, ap}
use native.Mathlib.Nat.{pow-suc}
use native.Mathlib.Omega.{arith}

abbrev or_digits : ℕ → ℕ → ℕ → ℕ
or_digits n a b = digits (λ d. d) max n a b

or_digits_count : (n : ℕ) (a b m : ℕ) → a ≤ m → a ≤ n → or_digits n a b ≡ or_digits m a b
or_digits_count zero zero b zero p q = refl
or_digits_count zero zero b (suc m) p q = refl
or_digits_count zero (suc a) b m p q = absurd (omega arith)
or_digits_count (suc n) zero b zero p q = refl
or_digits_count (suc n) zero b (suc m) p q = refl
or_digits_count (suc n) (suc a) b zero p q = absurd (omega arith)
or_digits_count (suc n) (suc a) b (suc m) p q =
    ap (λ d. d * 2 + max (suc a % 2) (b % 2))
      (or_digits_count n (suc a / 2) (b / 2) m (omega arith) (omega arith))

zero-bit_or : (b : ℕ) → bit_or 0 b ≡ b
zero-bit_or b = bit_or-bitwise 0 b

bit_or_step : (a b : ℕ) → bit_or a b ≡ bit_or (a / 2) (b / 2) * 2 + max (a % 2) (b % 2)
bit_or_step zero b = omega (arith, zero-bit_or b, zero-bit_or (b / 2))
bit_or_step (suc a) b = omega (
  arith,
  bit_or-bitwise (suc a) b,
  bit_or-bitwise (suc a / 2) (b / 2),
  or_digits_count a (suc a / 2) (b / 2) (suc a / 2) (omega arith) (omega arith),
)

or_zero_below : (n a : ℕ) → a ≤ n → bit_or a 0 ≡ a
or_zero_below n zero h = refl
or_zero_below zero (suc a) h = absurd (omega arith)
or_zero_below (suc n) (suc a) h =
    omega (arith, bit_or_step (suc a) 0, or_zero_below n (suc a / 2) (omega arith))

pub bit_or-shifted : (k h l : ℕ) → l < 2 ^ k → bit_or (h * 2 ^ k) l ≡ h * 2 ^ k + l
bit_or-shifted zero h zero p = omega (arith, or_zero_below (h * 1) (h * 1) (omega arith))
bit_or-shifted zero h (suc l) p = absurd (omega arith)
bit_or-shifted (suc k) h l p =
    let double : h * 2 ^ suc k ≡ h * 2 ^ k * 2 =
      omega (arith, ap (λ (t : ℕ). h * t) (pow-suc 2 k)) in
    let half : h * 2 ^ suc k / 2 ≡ h * 2 ^ k = omega arith in
    omega (
      arith,
      bit_or_step (h * 2 ^ suc k) l,
      ap (λ (t : ℕ). bit_or t (l / 2)) half,
      bit_or-shifted k h (l / 2) (omega (arith, pow-suc 2 k)),
    )
