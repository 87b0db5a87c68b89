-- ===== src/Bytes/Numbers.antt =====
-- `itoa` prints the decimal digits of its number.
use smart_home_xiugai.Prelude.{
  ℕ, zero, suc, ◌+◌, ◌-◌, ◌*◌, ◌/◌, ◌%◌, ◌^◌, ◌<◌, ◌≤◌, ◌≡◌, refl, List, [], ◌∷◌, arith, ap, ◌∙◌,
  leb, ◌==◌, Bool-cases, false, inl, inr, sym,
}
use smart_home_xiugai.Prelude.Int.{pos, negsuc}
use native.Mathlib.Nat.{
  add-zero, mul_comm, mod-eq-sub-div-mul, pow-suc, one-le-pow, div-add-mod, mod-lt,
  div-lt_iff_lt-mul,
}
use smart_home_xiugai.Bytes.{digit_char, itoa_tens, itoa_digits, itoa_positive, itoa}

-- The number that a text of digits stands for, going on from `acc`.
unfoldable pub decimal : ℕ → List ℕ → ℕ
decimal acc [] = acc
decimal acc (c ∷ cs) = decimal (acc * 10 + (c - b'0')) cs

-- The first loop stops at the power of ten that starts the number.
itoa_tens_lem :
    (fuel i j : ℕ)
    → i < 10 ^ (suc (j + fuel))
    → (k : ℕ) × (k ≤ j + fuel) × (itoa_tens fuel i (10 ^ j) ≡ 10 ^ k) × (i < 10 ^ suc k)
unfolding itoa_tens
itoa_tens_lem zero i j h = (j, omega arith, refl, rw (← add-zero j) h)
itoa_tens_lem (suc fuel) i j h = elim (Bool-cases (leb (10 ^ j) (i / 10))) [
  | inl more ↦
      let shifted : suc j + fuel ≡ j + suc fuel = omega arith in
      let (k, bound, e, small) =
        itoa_tens_lem fuel i (suc j) (rw (ap (λ (t : ℕ). 10 ^ suc t) shifted) h) in
      (k, omega arith, rw more (rw (← pow-suc 10 j) e), small)
  | inr stop ↦ (j, omega arith, rw stop, rw (pow-suc 10 j) (ground arith))
]

digit_value : (d : ℕ) → d < 10 → digit_char d - b'0' ≡ d
digit_value d h = ground arith

-- One round of the second loop moves the leading digit over.
itoa_digits-step :
    (fuel i tens acc : ℕ)
    → 0 < tens
    → i < tens * 10
    → decimal acc (itoa_digits (suc fuel) i tens)
      ≡ decimal (acc * 10 + i / tens) (itoa_digits fuel (i % tens) (tens / 10))
unfolding itoa_digits decimal
itoa_digits-step fuel i tens acc nonzero h =
    let digit : i / tens < 10 = (div-lt_iff_lt-mul nonzero).1 (rw (mul_comm tens 10) at h) in
    let running : (tens == 0) ≡ false = ground arith in
    rw running (
      ap (λ (v : ℕ). decimal (acc * 10 + v) (itoa_digits fuel (i - i / tens * tens) (tens / 10)))
        (digit_value (i / tens) digit)
      ∙ ap (λ (v : ℕ). decimal (acc * 10 + i / tens) (itoa_digits fuel v (tens / 10)))
          (sym (mod-eq-sub-div-mul i tens)))

itoa_digits_done : (fuel i acc : ℕ) → decimal acc (itoa_digits (suc fuel) i 0) ≡ acc
unfolding itoa_digits decimal
itoa_digits_done fuel i acc = refl

regroup : (acc q r t i u : ℕ) → t * q + r ≡ i → u ≡ t * 10 → (acc * 10 + q) * t + r ≡ acc * u + i
regroup acc q r t i u e f = omega (arith, ap (λ (x : ℕ). acc * x) f)

itoa_digits_lem :
    (k fuel i acc : ℕ)
    → k < fuel
    → i < 10 ^ suc k
    → decimal acc (itoa_digits (suc fuel) i (10 ^ k)) ≡ acc * 10 ^ suc k + i
itoa_digits_lem k zero i acc f h = elim f [ ]
itoa_digits_lem zero (suc fuel) i acc f h =
    itoa_digits-step (suc fuel) i 1 acc (omega arith) (omega arith)
    ∙ itoa_digits_done fuel (i % 1) (acc * 10 + i / 1)
    ∙ omega arith
itoa_digits_lem (suc k) (suc fuel) i acc f h =
    let tens : ℕ = 10 ^ suc k in
    let nonzero : 0 < tens = one-le-pow (suc k) 10 (omega arith) in
    itoa_digits-step (suc fuel) i tens acc nonzero (rw pow-suc at h)
    ∙ ap (λ (t : ℕ). decimal (acc * 10 + i / tens) (itoa_digits (suc fuel) (i % tens) t))
        (rw pow-suc (omega arith))
    ∙ itoa_digits_lem k fuel (i % tens) (acc * 10 + i / tens) (omega arith) (mod-lt i nonzero)
    ∙ regroup acc (i / tens) (i % tens) tens i (10 ^ suc (suc k)) (div-add-mod i tens)
        (pow-suc 10 (suc k))

itoa_positive_lem : (n : ℕ) → n < 10 ^ 12 → decimal 0 (itoa_positive n) ≡ n
itoa_positive_lem n h =
    let (k, bound, e, small) = itoa_tens_lem 11 n 0 h in
    ap (λ (t : ℕ). decimal 0 (itoa_digits 13 n t)) e
    ∙ itoa_digits_lem k 12 n 0 (omega arith) small
    ∙ omega arith

-- The text that `itoa` writes for a number of an `int`'s range, from 0 on, reads back as that number;
-- for a number below 0 it is a minus sign and a text that reads back as the number's magnitude.
pub itoa-decimal :
    (n : ℕ)
    → n < 2 ^ 31
    → (decimal 0 (itoa (pos n)) ≡ n)
      × ((digits : List ℕ) × (itoa (negsuc n) ≡ b'-' ∷ digits) × (decimal 0 digits ≡ suc n))
unfolding itoa decimal
itoa-decimal zero h = (refl, (itoa_positive 1, refl, itoa_positive_lem 1 (omega arith)))
itoa-decimal (suc n) h = (
  itoa_positive_lem (suc n) (omega arith),
  (itoa_positive (suc (suc n)), refl, itoa_positive_lem (suc (suc n)) (omega arith)),
)
