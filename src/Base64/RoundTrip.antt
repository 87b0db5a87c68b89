-- ===== src/Base64/RoundTrip.antt =====
-- Decoding undoes encoding.
use smart_home_xiugai.Prelude.{
  ℕ, ◌+◌, ◌*◌, ◌/◌, ◌%◌, ◌<◌, ◌≡◌, refl, List, [], ◌∷◌, ◌++◌, some, Bool, true, false, not, ◌&&◌,
  bit_and, bit_or, ◌<<<◌, ◌>>>◌, ◌==◌, all_below, all_below_sound, IsByte, arith, ap, ◌∙◌,
}
use mathlib.Core.List.{append_assoc}
use smart_home_xiugai.Prelude.Or.{bit_or-shifted}
use smart_home_xiugai.Base64.{
  base64char, num_strchr, index_of, char_of, first_byte, second_byte, third_byte, base64_decode,
  encode_loop, before_zero, base64_encode, prepend,
}

-- The characters of the alphabet: where they stand, and that none is a 0 or the padding.
char_test : ℕ → Bool
char_test x = index_of (char_of x) == x && (not (char_of x == 0) && not (char_of x == b'='))

char_facts : (x : ℕ) → x < 64 → char_test x ≡ true
char_facts x p = all_below_sound 64 char_test x table p
  where
    table : all_below 64 char_test ≡ true
    table = unfold all_below char_test base64char num_strchr in refl

pub index_of-char_of : (x : ℕ) → x < 64 → index_of (char_of x) ≡ x
unfolding char_test
index_of-char_of x p = ground (arith, char_facts x p)

char_of-nonzero : (x : ℕ) → x < 64 → (char_of x == 0) ≡ false
unfolding char_test
char_of-nonzero x p = ground (arith, char_facts x p)

char_of-no_padding : (x : ℕ) → x < 64 → (char_of x == b'=') ≡ false
unfolding char_test
char_of-no_padding x p = ground (arith, char_facts x p)

-- The masks, on bytes and on indices.
masks_test : ℕ → Bool
masks_test b =
    bit_and (b >>> 2) 0x3f == b / 4
    && (bit_and (b <<< 4) 0x30 == b % 4 * 16
        && (bit_and (b >>> 4) 0x0f == b / 16
            && (bit_and (b <<< 2) 0x3c == b % 16 * 4
                && (bit_and (b >>> 6) 0x03 == b / 64 && bit_and b 0x3f == b % 64))))

masks : (b : ℕ) → IsByte b → masks_test b ≡ true
masks b p = all_below_sound 256 masks_test b table p
  where
    table : all_below 256 masks_test ≡ true
    table = unfold all_below masks_test in refl

record Masks (b : ℕ) : Type 0 where
  first : bit_and (b >>> 2) 0x3f ≡ b / 4
  second_high : bit_and (b <<< 4) 0x30 ≡ b % 4 * 16
  second_low : bit_and (b >>> 4) 0x0f ≡ b / 16
  third_high : bit_and (b <<< 2) 0x3c ≡ b % 16 * 4
  third_low : bit_and (b >>> 6) 0x03 ≡ b / 64
  fourth : bit_and b 0x3f ≡ b % 64

Masks-of : (b : ℕ) → IsByte b → Masks b
unfolding masks_test
Masks-of b p = ground (arith, masks b p)

index_masks_test : ℕ → Bool
index_masks_test t =
    bit_and (t <<< 2) 0xfc == t * 4
    && (bit_and (t >>> 4) 0x03 == t / 16
        && (bit_and (t <<< 4) 0xf0 == t % 16 * 16
            && (bit_and (t >>> 2) 0x0f == t / 4
                && (bit_and (t <<< 6) 0xc0 == t % 4 * 64 && bit_and t 0x3f == t))))

index_masks : (t : ℕ) → t < 64 → index_masks_test t ≡ true
index_masks t p = all_below_sound 64 index_masks_test t table p
  where
    table : all_below 64 index_masks_test ≡ true
    table = unfold all_below index_masks_test in refl

first_byte-sum : (t u : ℕ) → t < 64 → u < 64 → first_byte t u ≡ t * 4 + u / 16
unfolding first_byte index_masks_test
first_byte-sum t u p q =
    ap (λ (x : ℕ). bit_or x (bit_and (u >>> 4) 0x03)) (ground (arith, index_masks t p))
    ∙ ap (bit_or (t * 4)) (ground (arith, index_masks u q))
    ∙ bit_or-shifted 2 t (u / 16) (omega arith)

second_byte-sum : (t u : ℕ) → t < 64 → u < 64 → second_byte t u ≡ t % 16 * 16 + u / 4
unfolding second_byte index_masks_test
second_byte-sum t u p q =
    ap (λ (x : ℕ). bit_or x (bit_and (u >>> 2) 0x0f)) (ground (arith, index_masks t p))
    ∙ ap (bit_or (t % 16 * 16)) (ground (arith, index_masks u q))
    ∙ bit_or-shifted 4 (t % 16) (u / 4) (omega arith)

third_byte-sum : (t u : ℕ) → t < 64 → u < 64 → third_byte t u ≡ t % 4 * 64 + u
unfolding third_byte index_masks_test
third_byte-sum t u p q =
    ap (λ (x : ℕ). bit_or x (bit_and u 0x3f)) (ground (arith, index_masks t p))
    ∙ ap (bit_or (t % 4 * 64)) (ground (arith, index_masks u q))
    ∙ bit_or-shifted 6 (t % 4) u (omega arith)

-- The index of the second and of the third character.
second_index :
    (b0 b1 : ℕ)
    → IsByte b0
    → IsByte b1
    → bit_or (bit_and (b0 <<< 4) 0x30) (bit_and (b1 >>> 4) 0x0f) ≡ b0 % 4 * 16 + b1 / 16
second_index b0 b1 p q =
    ap (λ (x : ℕ). bit_or x (bit_and (b1 >>> 4) 0x0f)) (Masks-of b0 p).second_high
    ∙ ap (bit_or (b0 % 4 * 16)) (Masks-of b1 q).second_low
    ∙ bit_or-shifted 4 (b0 % 4) (b1 / 16) (omega arith)

third_index :
    (b1 b2 : ℕ)
    → IsByte b1
    → IsByte b2
    → bit_or (bit_and (b1 <<< 2) 0x3c) (bit_and (b2 >>> 6) 0x03) ≡ b1 % 16 * 4 + b2 / 64
third_index b1 b2 p q =
    ap (λ (x : ℕ). bit_or x (bit_and (b2 >>> 6) 0x03)) (Masks-of b1 p).third_high
    ∙ ap (bit_or (b1 % 16 * 4)) (Masks-of b2 q).third_low
    ∙ bit_or-shifted 2 (b1 % 16) (b2 / 64) (omega arith)

-- Groups of two, three and four characters of the alphabet, decoded.
module _ (t u : ℕ) (rest : List ℕ) (p : t < 64) (q : u < 64) where
  decode_two :
      base64_decode (char_of t ∷ char_of u ∷ b'=' ∷ b'=' ∷ rest)
      ≡ prepend ((t * 4 + u / 16) ∷ []) (base64_decode rest)
  unfolding base64_decode
  decode_two =
      rw (char_of-nonzero t p, index_of-char_of t p, index_of-char_of u q)
        (ap (λ (x : ℕ). prepend (x ∷ []) (base64_decode rest)) (first_byte-sum t u p q))

  decode_three :
      (v : ℕ)
      → v < 64
      → base64_decode (char_of t ∷ char_of u ∷ char_of v ∷ b'=' ∷ rest)
        ≡ prepend ((t * 4 + u / 16) ∷ (u % 16 * 16 + v / 4) ∷ []) (base64_decode rest)
  unfolding base64_decode
  decode_three v r =
      rw
        (
          char_of-nonzero t p,
          char_of-no_padding v r,
          index_of-char_of t p,
          index_of-char_of u q,
          index_of-char_of v r,
        )
        (rw (first_byte-sum t u p q, second_byte-sum u v q r) refl)

  decode_four :
      (v w : ℕ)
      → v < 64
      → w < 64
      → base64_decode (char_of t ∷ char_of u ∷ char_of v ∷ char_of w ∷ rest)
        ≡ prepend
            ((t * 4 + u / 16) ∷ (u % 16 * 16 + v / 4) ∷ (v % 4 * 64 + w) ∷ [])
            (base64_decode rest)
  unfolding base64_decode
  decode_four v w r s =
      rw
        (
          char_of-nonzero t p,
          char_of-no_padding v r,
          char_of-no_padding w s,
          index_of-char_of t p,
          index_of-char_of u q,
          index_of-char_of v r,
          index_of-char_of w s,
        )
        (rw (first_byte-sum t u p q, second_byte-sum u v q r, third_byte-sum v w r s) refl)

-- Every byte of a string before its 0 is another byte.
abbrev pub IsText : List ℕ → Type 0
IsText [] = Unit {0}
IsText (b ∷ bytes) = IsByte b × (0 < b) × IsText bytes

before_zero-append :
    (bytes memory : List ℕ) → IsText bytes → before_zero (bytes ++ 0 ∷ memory) ≡ bytes
unfolding before_zero
before_zero-append [] memory text = refl
before_zero-append (b ∷ bytes) memory text =
    let running : (b == 0) ≡ false = ground (arith, text.1) in
    rw running (ap (◌∷◌ b) (before_zero-append bytes memory text.2))

first_whole : (b0 b1 : ℕ) → IsByte b1 → b0 / 4 * 4 + (b0 % 4 * 16 + b1 / 16) / 16 ≡ b0
first_whole b0 b1 p = omega arith

second_whole :
    (b0 b1 v : ℕ) → IsByte b1 → v / 4 ≡ b1 % 16 → (b0 % 4 * 16 + b1 / 16) % 16 * 16 + v / 4 ≡ b1
second_whole b0 b1 v p h = omega arith

third_whole : (b1 b2 : ℕ) → IsByte b2 → (b1 % 16 * 4 + b2 / 64) % 4 * 64 + b2 % 64 ≡ b2
third_whole b1 b2 p = omega arith

base64_decode_end : (memory : List ℕ) → base64_decode (0 ∷ memory) ≡ some []
unfolding base64_decode
base64_decode_end [] = refl
base64_decode_end (x ∷ []) = refl
base64_decode_end (x ∷ y ∷ []) = refl
base64_decode_end (x ∷ y ∷ z ∷ memory) = refl

decode-encode :
    (bytes memory : List ℕ)
    → IsText bytes
    → base64_decode (encode_loop bytes ++ 0 ∷ memory) ≡ some bytes
unfolding encode_loop
decode-encode [] memory text = base64_decode_end memory
decode-encode (b0 ∷ []) memory (p0, _, _) =
    rw ((Masks-of b0 p0).first, (Masks-of b0 p0).second_high)
      (decode_two (b0 / 4) (b0 % 4 * 16) (0 ∷ memory) (omega arith) (omega arith)
        ∙ ap (prepend (_ ∷ [])) (base64_decode_end memory)
        ∙ ap (λ (x : ℕ). some (x ∷ [])) (omega arith))
decode-encode (b0 ∷ b1 ∷ []) memory (p0, _, (p1, _, _)) =
    rw ((Masks-of b0 p0).first, second_index b0 b1 p0 p1, (Masks-of b1 p1).third_high)
      (decode_three (b0 / 4) (b0 % 4 * 16 + b1 / 16) (0 ∷ memory) (omega arith) (omega arith)
          (b1 % 16 * 4) (omega arith)
        ∙ ap (prepend (_ ∷ _ ∷ [])) (base64_decode_end memory)
        ∙ cc (first_whole b0 b1 p1, second_whole b0 b1 (b1 % 16 * 4) p1 (omega arith)))
decode-encode (b0 ∷ b1 ∷ b2 ∷ bytes) memory (p0, _, (p1, _, (p2, _, text))) =
    rw
      (
        (Masks-of b0 p0).first,
        second_index b0 b1 p0 p1,
        third_index b1 b2 p1 p2,
        (Masks-of b2 p2).fourth,
      )
      (decode_four (b0 / 4) (b0 % 4 * 16 + b1 / 16) _ (omega arith) (omega arith)
          (b1 % 16 * 4 + b2 / 64) (b2 % 64) (omega arith) (omega arith)
        ∙ ap (prepend (_ ∷ _ ∷ _ ∷ [])) (decode-encode bytes memory text)
        ∙ cc (
          first_whole b0 b1 p1,
          second_whole b0 b1 (b1 % 16 * 4 + b2 / 64) p1 (omega arith),
          third_whole b1 b2 p2,
        ))

-- Decoding what `base64_encode` has written of a string gives the string back, whatever follows either
-- in memory: the bytes are what stands before the first 0.
pub base64_decode-base64_encode :
    (bytes memory after : List ℕ)
    → IsText bytes
    → base64_decode (base64_encode (bytes ++ 0 ∷ memory) ++ after) ≡ some bytes
unfolding base64_encode
base64_decode-base64_encode bytes memory after text =
    rw (before_zero-append bytes memory text, append_assoc (encode_loop bytes) (0 ∷ []) after)
      (decode-encode bytes after text)
