-- ===== src/GbData/RoundTrip.antt =====
-- What is left of a power and of an energy once it is written and read.
use smart_home_xiugai.Prelude.{
  ℕ, zero, suc, ◌+◌, ◌-◌, ◌*◌, ◌/◌, ◌%◌, ◌^◌, ◌≡◌, ◌≤◌, ◌<◌, refl, Bool, true, false, ◌&&◌, u8, ltb,
  leb, ◌==◌, if◌then◌else◌, arith, ap, ◌∙◌, inl, inr, ◌⊎◌, Bool-cases, min, take, get_or,
}
use smart_home_xiugai.Prelude.Int.{ℤ}
use smart_home_xiugai.Bcd.{bcd_to_unsigned, unsigned_to_bcd, bcd_digits}
use smart_home_xiugai.Bcd.RoundTrip.{pairs_of, bcd_digits_lem, unsigned_to_bcd-value}
use smart_home_xiugai.GbData.{
  signed, magnitude, negative, times_ten, sfloat02_to_power, scale_loop, sfloat02_bytes,
  power_to_sfloat02, max_gene_mwh, sbcd03_to_energy, flag_last, energy_to_sbcd03,
}

times_ten-suc : (k n : ℕ) → times_ten (suc k) n ≡ times_ten k n * 10
times_ten-suc zero n = refl
times_ten-suc (suc k) n = times_ten-suc k (n * 10)

-- Three digits with a scale, read.
sfloat02_bytes-read :
    (k s : ℕ) (flag : Bool)
    → k ≤ 6
    → s < 1000
    → let (b0, b1) = sfloat02_bytes ((6 - k) * 32) flag s in
      sfloat02_to_power b0 b1 ≡ signed flag (times_ten k s)
unfolding sfloat02_to_power
sfloat02_bytes-read k s flag h p =
    let b0 = u8 (u8 (s % 100 / 10 * 16) + s % 100 % 10) in
    let b1 = u8 ((6 - k) * 32 + (if flag then 16 else 0) + s / 100) in
    let digits : b1 % 16 * 100 + u8 (b0 / 16 % 16 * 10 + b0 % 16) ≡ s = ground arith in
    let scale : 7 - b1 / 32 % 8 ≡ suc k = ground arith in
    let sign : (b1 / 16 % 2 == 1) ≡ flag = flag_read flag in
    let nonzero : (suc k == 0) ≡ false = ground arith in
    let less : suc k - 1 ≡ k = omega arith in rw (digits, scale, sign, nonzero, less) refl
  where
    flag_read : (f : Bool) → (u8 ((6 - k) * 32 + (if f then 16 else 0) + s / 100) / 16 % 2 == 1) ≡ f
    flag_read true = ground arith
    flag_read false = ground arith

-- The loop leaves three leading digits.
record IsScaled (i src : ℕ) (result : ℕ × ℕ) : Type 0 where
  k : ℕ
  scale : result.0 ≡ i + k
  three : result.1 < 1000
  low : times_ten k result.1 ≤ src
  high : src < times_ten k result.1 + times_ten k 1
  leading : (k ≡ 0) ⊎ (100 * times_ten k 1 ≤ times_ten k result.1)

leading_suc :
    (k r src : ℕ)
    → src / 10 < times_ten k r + times_ten k 1
    → 1000 ≤ src
    → (k ≡ 0) ⊎ (100 * times_ten k 1 ≤ times_ten k r)
    → 100 * times_ten (suc k) 1 ≤ times_ten (suc k) r
leading_suc zero r src h large lead = omega arith
leading_suc (suc k) r src h large (inl e) = absurd (omega (arith, e))
leading_suc (suc k) r src h large (inr lead) =
    omega (arith, times_ten-suc (suc k) r, times_ten-suc (suc k) 1, lead)

scale_loop-IsScaled :
    (left i src : ℕ)
    → src < times_ten left 1000
    → (s : IsScaled i src (scale_loop left i src)) × (s.k ≤ left)
unfolding scale_loop
scale_loop-IsScaled zero i src h = (
  record {
    k = 0;
    scale = omega arith;
    three = h;
    low = omega arith;
    high = omega arith;
    leading = inl refl;
  },
  omega arith,
)
scale_loop-IsScaled (suc left) i src h = elim (Bool-cases (ltb src 1000)) [
  | inl small ↦ rw small (
    record {
      k = 0;
      scale = omega arith;
      three = ground arith;
      low = omega arith;
      high = omega arith;
      leading = inl refl;
    },
    omega arith,
  )
  | inr large ↦
      let (s, few) =
        scale_loop-IsScaled left (i + 1) (src / 10) (omega (arith, times_ten-suc left 1000)) in
      let result = scale_loop left (i + 1) (src / 10) in
      rw large (
        record {
          k = suc s.k;
          scale = omega (arith, s.scale);
          three = s.three;
          low = omega (arith, times_ten-suc s.k result.1, s.low);
          high = omega (arith, times_ten-suc s.k result.1, times_ten-suc s.k 1, s.high);
          leading = inr (leading_suc s.k result.1 src s.high (ground arith) s.leading);
        },
        omega arith,
      )
]

-- A power of `m` hundredths in the format: the same, or its three leading digits.
abbrev pub KeepsLeading : ℕ → ℕ → Type 0
KeepsLeading m v = (v ≤ m) × ((m - v) * 100 ≤ v) × (m < 1000 → v ≡ m)

times_ten-pos : (k : ℕ) → 1 ≤ times_ten k 1
times_ten-pos zero = omega arith
times_ten-pos (suc k) = omega (arith, times_ten-suc k 1, times_ten-pos k)

keeps_leading :
    (k r m : ℕ)
    → times_ten k r ≤ m
    → m < times_ten k r + times_ten k 1
    → (k ≡ 0) ⊎ (100 * times_ten k 1 ≤ times_ten k r)
    → KeepsLeading m (times_ten k r)
keeps_leading zero r m low high lead = (low, omega arith, λ _. omega arith)
keeps_leading (suc k) r m low high (inl e) = absurd (omega (arith, e))
keeps_leading (suc k) r m low high (inr lead) =
    (low, omega arith, λ small. absurd (omega (arith, times_ten-suc k 1, times_ten-pos k)))

-- A power below 10 ^ 9 hundredths of a kilowatt, of either sign, that is written in the format 02 and
-- read again has kept its sign and lost less than one hundredth of its size, towards 0; below 1000 it
-- is unchanged, and below 99900 also where it is a multiple of 100.
pub sfloat02-roundtrip :
    (power : ℤ)
    → magnitude power < 10 ^ 9
    → let (b0, b1) = power_to_sfloat02 power in
      (v : ℕ) × (sfloat02_to_power b0 b1 ≡ signed (negative power) v)
      × KeepsLeading (magnitude power) v
      × (magnitude power < 99900 → magnitude power % 100 ≡ 0 → v ≡ magnitude power)
unfolding power_to_sfloat02
sfloat02-roundtrip power h =
    let m : ℕ = magnitude power in
    elim (Bool-cases (ltb m 99900 && (m % 100 == 0))) [
      | inl whole ↦ (
        m,
        rw whole (
            sfloat02_bytes-read 2 (m / 100) (negative power) (omega arith) (ground arith)
            ∙ ap (signed (negative power)) (ground arith)),
        (omega arith, omega arith, λ _. refl),
        λ _ _. refl,
      )
      | inr other ↦
          let (s, few) = scale_loop-IsScaled 6 1 m (omega arith) in
          let result = scale_loop 6 1 m in
          let v = times_ten s.k result.1 in
          let three : (if leb 1000 result.1 then 999 else result.1) ≡ result.1 =
            ground (arith, s.three) in
          let high : 7 - result.0 ≡ 6 - s.k = omega (arith, s.scale) in
          (
            v,
            rw (other, three, high) (sfloat02_bytes-read s.k result.1 (negative power) few s.three),
            keeps_leading s.k result.1 m s.low s.high s.leading,
            λ a b. absurd (ground arith),
          )
    ]

low_digit : (x : ℕ) → x < 10 → (bcd_digits x).0 % 16 ≡ x
unfolding bcd_digits
low_digit x h = ground arith

energy_bytes :
    (n f : ℕ)
    → n < 10 ^ 7
    → let bytes = flag_last f (unsigned_to_bcd n 4).0 in
      (bcd_to_unsigned (take 3 bytes) ≡ n % 1000000) × (get_or bytes 3 0 ≡ n / 1000000 + f)
unfolding unsigned_to_bcd pairs_of
energy_bytes n f h =
    let (_, l1) = bcd_digits_lem n in
    let (_, l2) = bcd_digits_lem (bcd_digits n).1 in
    let (_, l3) = bcd_digits_lem (bcd_digits (bcd_digits n).1).1 in
    let rest : (bcd_digits (bcd_digits (bcd_digits n).1).1).1 ≡ n / 1000000 =
      omega (arith, l1, l2, l3) in
    (
      unsigned_to_bcd-value n 3 (omega arith) ∙ omega arith,
      rw rest (ap (λ (x : ℕ). x + f) (low_digit (n / 1000000) (omega arith))),
    )

-- The bytes with a flag, read.
energy_read :
    (n : ℕ) (sign large : Bool)
    → n < 10 ^ 7
    → sbcd03_to_energy
        (flag_last ((if sign then 16 else 0) + (if large then 64 else 0)) (unsigned_to_bcd n 4).0)
      ≡ signed sign (if large then min n max_gene_mwh * 1000 else n)
unfolding sbcd03_to_energy
energy_read n sign large h =
    let (low, last) = energy_bytes n (flags sign large) h in
    let whole : (n / 1000000 + flags sign large) % 16 * 1000000 + n % 1000000 ≡ n =
      whole_read sign large in
    let capped : (if ltb 2000000 n then 2000000 else n) ≡ min n 2000000 = ground arith in
    rw (low, last, sign_read sign large, large_read sign large, whole, capped) refl
  where
    flags : Bool → Bool → ℕ
    flags sign large = (if sign then 16 else 0) + (if large then 64 else 0)

    sign_read : (a b : Bool) → ((n / 1000000 + flags a b) / 16 % 2 == 1) ≡ a
    sign_read true true = ground arith
    sign_read true false = ground arith
    sign_read false true = ground arith
    sign_read false false = ground arith

    large_read : (a b : Bool) → ((n / 1000000 + flags a b) / 64 % 2 == 1) ≡ b
    large_read true true = ground arith
    large_read true false = ground arith
    large_read false true = ground arith
    large_read false false = ground arith

    whole_read : (a b : Bool) → (n / 1000000 + flags a b) % 16 * 1000000 + n % 1000000 ≡ n
    whole_read true true = omega arith
    whole_read true false = omega arith
    whole_read false true = omega arith
    whole_read false false = omega arith

-- An energy that is written in the format 03 and read again is the same up to 9999999 of either sign;
-- beyond that it keeps its sign and its whole thousands, of which the reader takes 2000000 at most.
pub sbcd03-roundtrip :
    (energy : ℤ)
    → magnitude energy < 2 ^ 31
    → sbcd03_to_energy (energy_to_sbcd03 energy)
      ≡ signed (negative energy) (
          if ltb 9999999 (magnitude energy)
          then min (magnitude energy / 1000) 2000000 * 1000
          else magnitude energy)
unfolding energy_to_sbcd03
sbcd03-roundtrip energy h =
    let m : ℕ = magnitude energy in
    elim (Bool-cases (ltb 9999999 m)) [
      | inl large ↦
          let few : (if ltb 9999999 (m / 1000) then 9999999 else m / 1000) ≡ m / 1000 =
            ground arith in
          rw (large, few) (energy_read (m / 1000) (negative energy) true (omega arith))
      | inr small ↦ rw small (
          ap (λ (f : ℕ). sbcd03_to_energy (flag_last f (unsigned_to_bcd m 4).0)) (omega arith)
          ∙ energy_read m (negative energy) false (ground arith))
    ]
