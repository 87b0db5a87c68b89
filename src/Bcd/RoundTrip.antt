-- ===== src/Bcd/RoundTrip.antt =====
-- Numbers go to packed decimal and back.
use smart_home_xiugai.Prelude.{
  ℕ, zero, suc, ◌+◌, ◌*◌, ◌/◌, ◌%◌, ◌^◌, ◌<◌, ◌≤◌, ◌≡◌, refl, List, [], ◌∷◌, arith, ap, ◌∙◌, u32,
  if◌then◌else◌, ◌↔◌, ltb, bit_or,
}
use smart_home_xiugai.Prelude.Or.{bit_or-shifted}
use native.Mathlib.Nat.{pow-suc}
use smart_home_xiugai.Bcd.{
  byte_value, bcd_to_unsigned, bcd_digits, unsigned_to_bcd, hex_to_bcd, bcd_to_hex,
}

pub bcd_digits_lem :
    (ul : ℕ) → (byte_value (bcd_digits ul).0 ≡ ul % 100) × ((bcd_digits ul).1 ≡ ul / 100)
unfolding bcd_digits
bcd_digits_lem ul = (ground arith, ground arith)

bcd_to_unsigned-cons :
    (b : ℕ) (bcd : List ℕ)
    → bcd_to_unsigned (b ∷ bcd) ≡ u32 (u32 (bcd_to_unsigned bcd * 100) + byte_value b)
unfolding bcd_to_unsigned
bcd_to_unsigned-cons b bcd = refl

-- The last `maxlen` pairs of digits of a number, and whether there are more.
unfoldable pub pairs_of : ℕ → ℕ → ℕ
pairs_of ul zero = 0
pairs_of ul (suc maxlen) = pairs_of (ul / 100) maxlen * 100 + ul % 100

pairs_of-le : (ul maxlen : ℕ) → pairs_of ul maxlen ≤ ul
unfolding pairs_of
pairs_of-le ul zero = omega arith
pairs_of-le ul (suc maxlen) = omega (arith, pairs_of-le (ul / 100) maxlen)

pairs_of-small : (ul maxlen : ℕ) → ul < 100 ^ maxlen → pairs_of ul maxlen ≡ ul
unfolding pairs_of
pairs_of-small ul zero h = omega arith
pairs_of-small ul (suc maxlen) h =
    omega (arith, pairs_of-small (ul / 100) maxlen (omega (arith, pow-suc 100 maxlen)))

pub unsigned_to_bcd-value :
    (ul maxlen : ℕ)
    → ul < 2 ^ 32
    → bcd_to_unsigned (unsigned_to_bcd ul maxlen).0 ≡ pairs_of ul maxlen
unfolding unsigned_to_bcd pairs_of bcd_to_unsigned
unsigned_to_bcd-value ul zero h = refl
unsigned_to_bcd-value ul (suc maxlen) h =
    let (byte, left) = bcd_digits_lem ul in
    let rest : bcd_to_unsigned (unsigned_to_bcd (bcd_digits ul).1 maxlen).0
        ≡ pairs_of (ul / 100) maxlen =
      rw left (unsigned_to_bcd-value (ul / 100) maxlen (omega arith)) in
    omega (arith, rest, byte, pairs_of-le (ul / 100) maxlen)

-- `UnsignedToBcd` returns 0 exactly for the numbers below 100 to the count of bytes.
pub unsigned_to_bcd-flag :
    (ul maxlen : ℕ) → (((unsigned_to_bcd ul maxlen).1 ≡ 0) ↔ (ul < 100 ^ maxlen))
unfolding unsigned_to_bcd
unsigned_to_bcd-flag ul zero = ground arith
unsigned_to_bcd-flag ul (suc maxlen) =
    let (byte, left) = bcd_digits_lem ul in
    let (there, back) = unsigned_to_bcd-flag (bcd_digits ul).1 maxlen in
    (
      λ e. omega (arith, there e, left, pow-suc 100 maxlen),
      λ h. back (omega (arith, left, pow-suc 100 maxlen)),
    )

-- Where `UnsignedToBcd` returns 0, the number has no more digits than the bytes hold, and
-- `BcdToUnsigned` reads it back from what was written.
pub unsigned_to_bcd-roundtrip :
    (ul maxlen : ℕ)
    → ul < 2 ^ 32
    → (unsigned_to_bcd ul maxlen).1 ≡ 0
    → (ul < 100 ^ maxlen) × (bcd_to_unsigned (unsigned_to_bcd ul maxlen).0 ≡ ul)
unsigned_to_bcd-roundtrip ul maxlen h e =
    let small : ul < 100 ^ maxlen = (unsigned_to_bcd-flag ul maxlen).0 e in
    (small, unsigned_to_bcd-value ul maxlen h ∙ pairs_of-small ul maxlen small)

-- Bytes below 100.
abbrev pub IsPairs : List ℕ → Type 0
IsPairs [] = Unit {0}
IsPairs (b ∷ bs) = (b < 100) × IsPairs bs

-- `BcdToHex` turns what `HexToBcd` makes of bytes below 100 back into those bytes.
pub hex_to_bcd-roundtrip : (str : List ℕ) → IsPairs str → bcd_to_hex (hex_to_bcd str) ≡ str
unfolding hex_to_bcd bcd_to_hex
hex_to_bcd-roundtrip [] h = refl
hex_to_bcd-roundtrip (b ∷ str) h =
    let tens : (if ltb 9 (b / 10) then 9 else b / 10) ≡ b / 10 = ground (arith, h.0) in
    let joined : bit_or (b / 10 * 16 % 256) (b % 10) ≡ b / 10 * 16 + b % 10 =
      ap (λ (t : ℕ). bit_or t (b % 10)) {y = b / 10 * 2 ^ 4} (omega (arith, h.0))
      ∙ bit_or-shifted 4 (b / 10) (b % 10) (omega arith) in
    rw (tens, joined, hex_to_bcd-roundtrip str h.1) (ap (λ (t : ℕ). t ∷ str) (omega (arith, h.0)))
