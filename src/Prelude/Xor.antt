-- ===== src/Prelude/Xor.antt =====
-- Laws of exclusive or at variables: one equation for the lowest digit, and what follows from it.
use Prim.Native.Nat.{digits, differ, bit_xor-bitwise}
use Prim.Native.Nat.{ℕ, zero, suc, ◌+◌, ◌*◌, ◌/◌, ◌%◌, ◌^◌, ◌≤◌, ◌<◌, bit_xor}
use mathlib.Core.Path.{◌≡◌, refl, sym, ◌∙◌, ap}
use native.Mathlib.Nat.{pow-succ', div-div-eq-div-mul, div-one, div-eq_of_lt, one-le-pow}
use native.Mathlib.Nat.{div-add-mod, mod-lt, mod-one, mod-eq_of_lt, mul-add-mod_self_left}
use native.Mathlib.Omega.{arith}

abbrev xor_digits : ℕ → ℕ → ℕ → ℕ
xor_digits n a b = digits (λ d. d) differ n a b

differ_parity : (x y : ℕ) → x < 2 → y < 2 → differ x y ≡ (x + y) % 2
differ_parity zero y p q = omega arith
differ_parity (suc x) zero p q = omega arith
differ_parity (suc x) (suc y) p q = omega (arith, differ_parity x y (omega arith) (omega arith))

-- The count of digits to go matters only where it runs out too early.
xor_digits_count : (n : ℕ) (a b m : ℕ) → a ≤ m → a ≤ n → xor_digits n a b ≡ xor_digits m a b
xor_digits_count zero zero b zero p q = refl
xor_digits_count zero zero b (suc m) p q = refl
xor_digits_count zero (suc a) b m p q = absurd (omega arith)
xor_digits_count (suc n) zero b zero p q = refl
xor_digits_count (suc n) zero b (suc m) p q = refl
xor_digits_count (suc n) (suc a) b zero p q = absurd (omega arith)
xor_digits_count (suc n) (suc a) b (suc m) p q =
    ap (λ d. d * 2 + differ (suc a % 2) (b % 2))
      (xor_digits_count n (suc a / 2) (b / 2) m (omega arith) (omega arith))

pub zero-bit_xor : (b : ℕ) → bit_xor 0 b ≡ b
zero-bit_xor b = bit_xor-bitwise 0 b

pub bit_xor_step : (a b : ℕ) → bit_xor a b ≡ bit_xor (a / 2) (b / 2) * 2 + (a + b) % 2
bit_xor_step zero b = omega (arith, zero-bit_xor b, zero-bit_xor (b / 2))
bit_xor_step (suc a) b = omega (
  arith,
  bit_xor-bitwise (suc a) b,
  bit_xor-bitwise (suc a / 2) (b / 2),
  differ_parity (suc a % 2) (b % 2) (omega arith) (omega arith),
  xor_digits_count a (suc a / 2) (b / 2) (suc a / 2) (omega arith) (omega arith),
)

-- The laws below go by induction on a bound of both numbers, which halving brings down.
xor_zero_below : (n a : ℕ) → a ≤ n → bit_xor a 0 ≡ a
xor_zero_below n zero h = refl
xor_zero_below zero (suc a) h = absurd (omega arith)
xor_zero_below (suc n) (suc a) h =
    omega (arith, bit_xor_step (suc a) 0, xor_zero_below n (suc a / 2) (omega arith))

pub bit_xor-zero : (a : ℕ) → bit_xor a 0 ≡ a
bit_xor-zero a = xor_zero_below a a (omega arith)

xor_self_below : (n a : ℕ) → a ≤ n → bit_xor a a ≡ 0
xor_self_below n zero h = refl
xor_self_below zero (suc a) h = absurd (omega arith)
xor_self_below (suc n) (suc a) h =
    omega (arith, bit_xor_step (suc a) (suc a), xor_self_below n (suc a / 2) (omega arith))

pub bit_xor_self : (a : ℕ) → bit_xor a a ≡ 0
bit_xor_self a = xor_self_below a a (omega arith)

xor_comm_below : (n a b : ℕ) → a + b ≤ n → bit_xor a b ≡ bit_xor b a
xor_comm_below n zero b h = omega (arith, zero-bit_xor b, bit_xor-zero b)
xor_comm_below zero (suc a) b h = absurd (omega arith)
xor_comm_below (suc n) (suc a) b h = omega (
  arith,
  bit_xor_step (suc a) b,
  bit_xor_step b (suc a),
  xor_comm_below n (suc a / 2) (b / 2) (omega arith),
)

pub bit_xor_comm : (a b : ℕ) → bit_xor a b ≡ bit_xor b a
bit_xor_comm a b = xor_comm_below (a + b) a b (omega arith)

-- Half and remainder of an exclusive or, digit-wise.
pub half-bit_xor : (a b : ℕ) → bit_xor a b / 2 ≡ bit_xor (a / 2) (b / 2)
half-bit_xor a b = omega (arith, bit_xor_step a b)

pub parity-bit_xor : (a b : ℕ) → bit_xor a b % 2 ≡ (a + b) % 2
parity-bit_xor a b = omega (arith, bit_xor_step a b)

xor_assoc_below : (n a b c : ℕ) → a + b + c ≤ n → bit_xor (bit_xor a b) c ≡ bit_xor a (bit_xor b c)
xor_assoc_below n zero b c h =
    ap (λ (t : ℕ). bit_xor t c) (zero-bit_xor b) ∙ sym (zero-bit_xor (bit_xor b c))
xor_assoc_below zero (suc a) b c h = absurd (omega arith)
xor_assoc_below (suc n) (suc a) b c h = omega (
  arith,
  bit_xor_step (bit_xor (suc a) b) c,
  bit_xor_step (suc a) (bit_xor b c),
  parity-bit_xor (suc a) b,
  parity-bit_xor b c,
  ap (λ (t : ℕ). bit_xor t (c / 2)) (half-bit_xor (suc a) b),
  ap (λ (t : ℕ). bit_xor (suc a / 2) t) (half-bit_xor b c),
  xor_assoc_below n (suc a / 2) (b / 2) (c / 2) (omega arith),
)

pub bit_xor_assoc : (a b c : ℕ) → bit_xor (bit_xor a b) c ≡ bit_xor a (bit_xor b c)
bit_xor_assoc a b c = xor_assoc_below (a + b + c) a b c (omega arith)

pub bit_xor_double : (a b : ℕ) → bit_xor (a * 2) (b * 2) ≡ bit_xor a b * 2
bit_xor_double a b =
    let p : a * 2 / 2 ≡ a = omega arith in
    let q : b * 2 / 2 ≡ b = omega arith in
    omega (
      arith,
      bit_xor_step (a * 2) (b * 2),
      ap (λ (t : ℕ). bit_xor t (b * 2 / 2)) p,
      ap (λ (t : ℕ). bit_xor a t) q,
    )

shift-suc : (k a : ℕ) → a / 2 ^ suc k ≡ a / 2 / 2 ^ k
shift-suc k a = rw pow-succ' (sym (div-div-eq-div-mul a 2 (2 ^ k)))

-- Shifting right by `k` and keeping the low `k` digits commute with exclusive or.
pub shift-bit_xor : (k a b : ℕ) → bit_xor a b / 2 ^ k ≡ bit_xor (a / 2 ^ k) (b / 2 ^ k)
shift-bit_xor zero a b = rw (div-one (bit_xor a b), div-one a, div-one b)
shift-bit_xor (suc k) a b =
    rw (shift-suc k (bit_xor a b), shift-suc k a, shift-suc k b, half-bit_xor a b)
      (shift-bit_xor k (a / 2) (b / 2))

pub bit_xor-lt : (k a b : ℕ) → a < 2 ^ k → b < 2 ^ k → bit_xor a b < 2 ^ k
bit_xor-lt k a b p q =
    let high : bit_xor a b / 2 ^ k ≡ 0 = rw (shift-bit_xor k a b, div-eq_of_lt p, div-eq_of_lt q) in
    omega (
      arith,
      ap (λ (t : ℕ). 2 ^ k * t) high,
      div-add-mod (bit_xor a b) (2 ^ k),
      mod-lt (bit_xor a b) {m = 2 ^ k} (one-le-pow k 2 (omega arith)),
    )

mod-suc-two : (k a : ℕ) → a % 2 ^ suc k ≡ a / 2 % 2 ^ k * 2 + a % 2
mod-suc-two k a =
    let m : ℕ = 2 ^ k in
    let q : ℕ = a / 2 / m in
    let r : ℕ = a / 2 % m * 2 + a % 2 in
    let small : a / 2 % m < m = mod-lt (a / 2) (one-le-pow k 2 (omega arith)) in
    let split : a ≡ 2 * m * q + r = omega (arith, div-add-mod (a / 2) m) in
    rw pow-succ' (
      ap (λ (t : ℕ). t % (2 * m)) split
      ∙ mul-add-mod_self_left (2 * m) q r
      ∙ mod-eq_of_lt (omega arith))

pub mod-bit_xor : (k a b : ℕ) → bit_xor a b % 2 ^ k ≡ bit_xor (a % 2 ^ k) (b % 2 ^ k)
mod-bit_xor zero a b = rw (mod-one (bit_xor a b), mod-one a, mod-one b)
mod-bit_xor (suc k) a b = omega (
  arith,
  mod-suc-two k (bit_xor a b),
  parity-bit_xor a b,
  ap (λ (t : ℕ). t % 2 ^ k) (half-bit_xor a b),
  mod-bit_xor k (a / 2) (b / 2),
  bit_xor_step (a % 2 ^ suc k) (b % 2 ^ suc k),
  low a,
  low b,
  ap (λ (t : ℕ). bit_xor t (b % 2 ^ suc k / 2)) (high a),
  ap (λ (t : ℕ). bit_xor (a / 2 % 2 ^ k) t) (high b),
)
  where
    high : (x : ℕ) → x % 2 ^ suc k / 2 ≡ x / 2 % 2 ^ k
    high x = omega (arith, mod-suc-two k x)

    low : (x : ℕ) → x % 2 ^ suc k % 2 ≡ x % 2
    low x = omega (arith, mod-suc-two k x)
