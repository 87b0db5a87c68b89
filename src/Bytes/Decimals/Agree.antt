-- ===== src/Bytes/Decimals/Agree.antt =====
-- The two sets of packed decimal conversions agree.
use smart_home_xiugai.Prelude.{
  set-append, ℕ, zero, suc, ◌+◌, ◌*◌, ◌/◌, ◌%◌, ◌≡◌, ◌≤◌, ◌<◌, refl, List, [], ◌∷◌, ◌++◌, set,
  replicate, drop, length, u8, u32, ltb, leb, ◌==◌, if◌then◌else◌, Bool, true, false, ◌&&◌, bit_or,
  bit_and, ◌<<<◌, ◌>>>◌, arith, ap, ◌∙◌, sym, IsByte, IsBytes, all_below, all_below_sound,
  length-append,
}
use mathlib.Core.List.{append_assoc}
use smart_home_xiugai.Bcd.{
  byte_value, bcd_to_unsigned, bcd_digits, unsigned_to_bcd, hex_to_bcd, bcd_to_hex,
}
use smart_home_xiugai.Bytes.Decimals.{
  bcdtol_loop, bcdtol, ltobcd_loop, zero_first, ltobcd, hextobcd, bcdtohex,
}

-- Every byte gives the same digits, packed digits and value in both.
same_test : ℕ → Bool
same_test b =
    u8 (u8 (bit_and b 0xf0 >>> 4 * 10) + bit_and b 0x0f) == byte_value b
    && (bit_or (b % 10) (bit_and ((if ltb 9 (b / 10) then 9 else b / 10) <<< 4) 0xf0)
          == bit_or ((if ltb 9 (b / 10) then 9 else b / 10) * 16 % 256) (b % 10)
        && u8 (bit_and b 0x0f + u8 (bit_and b 0xf0 / 16 * 10))
          == u8 (b % 16 + u8 (b % 256 / 16 * 10)))

same : (b : ℕ) → IsByte b → same_test b ≡ true
same b p = all_below_sound 256 same_test b table p
  where
    table : all_below 256 same_test ≡ true
    table = unfold all_below same_test in refl

hextobcd-eq : (str : List ℕ) → IsBytes str → hextobcd str ≡ hex_to_bcd str
unfolding hextobcd hex_to_bcd same_test
hextobcd-eq [] h = refl
hextobcd-eq (b ∷ str) h = cc (the_byte, hextobcd-eq str h.1)
  where
    the_byte :
        bit_or (b % 10) (bit_and ((if ltb 9 (b / 10) then 9 else b / 10) <<< 4) 0xf0)
        ≡ bit_or ((if ltb 9 (b / 10) then 9 else b / 10) * 16 % 256) (b % 10)
    the_byte = ground (arith, same b h.0)

bcdtohex-eq : (str : List ℕ) → IsBytes str → bcdtohex str ≡ bcd_to_hex str
unfolding bcdtohex bcd_to_hex same_test
bcdtohex-eq [] h = refl
bcdtohex-eq (b ∷ str) h = cc (the_byte, bcdtohex-eq str h.1)
  where
    the_byte :
        u8 (bit_and b 0x0f + u8 (bit_and b 0xf0 / 16 * 10)) ≡ u8 (b % 16 + u8 (b % 256 / 16 * 10))
    the_byte = ground (arith, same b h.0)

value_of : (b : ℕ) → IsByte b → u8 (u8 (bit_and b 0xf0 >>> 4 * 10) + bit_and b 0x0f) ≡ byte_value b
unfolding same_test
value_of b p = ground (arith, same b p)

bcdtol_loop-cons :
    (i b : ℕ) (bcd : List ℕ) (rtn : ℕ)
    → bcdtol_loop (suc i) (b ∷ bcd) rtn
      ≡ u32
          (u32 (bcdtol_loop i bcd rtn * 100) + u8 (u8 (bit_and b 0xf0 >>> 4 * 10) + bit_and b 0x0f))
unfolding bcdtol_loop
bcdtol_loop-cons zero b bcd rtn = refl
bcdtol_loop-cons (suc i) b bcd rtn = bcdtol_loop-cons i b bcd _

bcdtol-eq : (bcd : List ℕ) → IsBytes bcd → bcdtol bcd (length bcd) ≡ bcd_to_unsigned bcd
unfolding bcdtol bcd_to_unsigned bcdtol_loop
bcdtol-eq [] h = refl
bcdtol-eq (b ∷ bcd) h =
    bcdtol_loop-cons (length bcd) b bcd 0 ∙ cc (bcdtol-eq bcd h.1, value_of b h.0)

unsigned_to_bcd-zero : (n : ℕ) → unsigned_to_bcd 0 n ≡ (replicate n 0, 0)
unfolding unsigned_to_bcd bcd_digits
unsigned_to_bcd-zero zero = refl
unsigned_to_bcd-zero (suc n) = rw (unsigned_to_bcd-zero n) refl

packed : ℕ → ℕ
packed n = u8 (n % 10 + u8 (n / 10 % 10 * 16))

ltobcd_loop-suc :
    (fuel maxlen i n : ℕ) (bcd : List ℕ)
    → i < maxlen
    → ltobcd_loop (suc fuel) maxlen i (suc n) bcd
      ≡ ltobcd_loop fuel maxlen (i + 1) (suc n / 10 / 10) (set bcd i (packed (suc n)))
unfolding ltobcd_loop packed
ltobcd_loop-suc fuel maxlen i n bcd h =
    let nonzero : (suc n == 0) ≡ false = ground arith in
    let space : leb maxlen i ≡ false = ground arith in rw (nonzero, space) refl

unsigned_to_bcd-suc :
    (n r : ℕ)
    → unsigned_to_bcd (suc n) (suc r) ≡ (
      packed (suc n) ∷ (unsigned_to_bcd (suc n / 10 / 10) r).0,
      (unsigned_to_bcd (suc n / 10 / 10) r).1,
    )
unfolding unsigned_to_bcd bcd_digits packed
unsigned_to_bcd-suc n r = let nonzero : (suc n == 0) ≡ false = ground arith in rw nonzero refl

-- The loop behind the bytes `pre` that it has written.
Same : ℕ → ℕ → List ℕ → List ℕ → List ℕ × ℕ → Type 0
Same r ul pre rest result =
    (result.0 ≡ pre ++ ((unsigned_to_bcd ul r).0 ++ rest))
    × ((if result.1 == 0 then 0 else 1) ≡ (unsigned_to_bcd ul r).1)

ltobcd_loop-zero :
    (fuel maxlen i : ℕ) (bcd : List ℕ) → ltobcd_loop (suc fuel) maxlen i 0 bcd ≡ (bcd, 0)
unfolding ltobcd_loop
ltobcd_loop-zero fuel maxlen i bcd = refl

ltobcd_loop-full :
    (maxlen i ul : ℕ) (bcd : List ℕ) → maxlen ≤ i → ltobcd_loop 1 maxlen i ul bcd ≡ (bcd, ul)
unfolding ltobcd_loop
ltobcd_loop-full maxlen i ul bcd h = ground arith

unsigned_to_bcd-full : (ul : ℕ) → unsigned_to_bcd ul 0 ≡ ([], if ul == 0 then 0 else 1)
unfolding unsigned_to_bcd
unsigned_to_bcd-full ul = ground arith

ltobcd_loop-Same :
    (r ul i maxlen : ℕ) (pre rest : List ℕ)
    → length pre ≡ i
    → i + r ≡ maxlen
    → Same r ul pre rest (ltobcd_loop (suc r) maxlen i ul (pre ++ (replicate r 0 ++ rest)))
unfolding Same
ltobcd_loop-Same r zero i maxlen pre rest e f =
    rw (ltobcd_loop-zero r maxlen i (pre ++ (replicate r 0 ++ rest)), unsigned_to_bcd-zero r)
      (refl, refl)
ltobcd_loop-Same zero (suc n) i maxlen pre rest e f =
    rw (ltobcd_loop-full maxlen i (suc n) (pre ++ rest) (omega arith), unsigned_to_bcd-full (suc n))
      (refl, refl)
ltobcd_loop-Same (suc r) (suc n) i maxlen pre rest e f =
    let uc : ℕ = packed (suc n) in
    let written : set (pre ++ 0 ∷ (replicate r 0 ++ rest)) i uc
        ≡ (pre ++ uc ∷ []) ++ (replicate r 0 ++ rest) =
      ap (λ (j : ℕ). set (pre ++ 0 ∷ (replicate r 0 ++ rest)) j uc) (sym e)
      ∙ set-append pre 0 uc (replicate r 0 ++ rest)
      ∙ sym (append_assoc pre (uc ∷ []) (replicate r 0 ++ rest)) in
    let longer : length (pre ++ uc ∷ []) ≡ i + 1 = omega (arith, length-append pre (uc ∷ []), e) in
    let step =
      ltobcd_loop-suc (suc r) maxlen i n (pre ++ 0 ∷ (replicate r 0 ++ rest)) (omega arith) in
    let (bytes, rtn) =
      ltobcd_loop-Same r (suc n / 10 / 10) (i + 1) maxlen (pre ++ uc ∷ []) rest longer
        (omega arith) in
    rw (step, written, unsigned_to_bcd-suc n r)
      (bytes ∙ append_assoc pre (uc ∷ []) ((unsigned_to_bcd (suc n / 10 / 10) r).0 ++ rest), rtn)

zero_first-eq :
    (n : ℕ) (bcd : List ℕ) → n ≤ length bcd → zero_first n bcd ≡ replicate n 0 ++ drop n bcd
zero_first-eq zero bcd h = refl
zero_first-eq (suc n) [] h = elim h [ ]
zero_first-eq (suc n) (b ∷ bcd) h = ap (◌∷◌ 0) (zero_first-eq n bcd (omega arith))

ltobcd-eq :
    (ul maxlen : ℕ) (bcd : List ℕ)
    → maxlen ≤ length bcd
    → ltobcd ul bcd maxlen
      ≡ ((unsigned_to_bcd ul maxlen).0 ++ drop maxlen bcd, (unsigned_to_bcd ul maxlen).1)
unfolding ltobcd Same
ltobcd-eq ul maxlen bcd h =
    let (bytes, rtn) =
      ltobcd_loop-Same maxlen ul 0 maxlen [] (drop maxlen bcd) refl (omega arith) in
    rw (zero_first-eq maxlen bcd h) (cc (bytes, rtn))

-- The conversions of lib/datachg.c give what those of lib/bcd.c give: `bcdtol`, `hextobcd` and `bcdtohex`
-- on every buffer of bytes, and `ltobcd` on every number and every buffer with room, also in the value
-- returned and where the number has too many digits; behind the bytes written the buffer stays.
pub datachg-eq-bcd :
    (ul maxlen : ℕ) (bcd : List ℕ)
    → IsBytes bcd
    → maxlen ≤ length bcd
    → (bcdtol bcd (length bcd) ≡ bcd_to_unsigned bcd)
      × (ltobcd ul bcd maxlen
          ≡ ((unsigned_to_bcd ul maxlen).0 ++ drop maxlen bcd, (unsigned_to_bcd ul maxlen).1))
      × (hextobcd bcd ≡ hex_to_bcd bcd)
      × (bcdtohex bcd ≡ bcd_to_hex bcd)
datachg-eq-bcd ul maxlen bcd bytes h =
    (bcdtol-eq bcd bytes, ltobcd-eq ul maxlen bcd h, hextobcd-eq bcd bytes, bcdtohex-eq bcd bytes)
