-- ===== src/Bytes.antt =====
-- Byte order and plain numbers of lib/datachg.c. The unions VARSHORT and VARLONG of
-- include/basetype.h are read on a little-endian machine: `uc[i]` is digit i to the base 256.
-- A write goes into the caller's buffer, a list of bytes.
pub mod Order
pub mod Decimals
pub mod Numbers
use smart_home_xiugai.Prelude.{
  ℕ, zero, suc, ◌+◌, ◌-◌, ◌*◌, ◌/◌, ◌%◌, ◌^◌, List, [], ◌∷◌, ◌++◌, get_or, set, u32, ltb, leb, ◌==◌,
  if◌then◌else◌, Bool, true, false, ◌>>>◌, bit_and,
}
use smart_home_xiugai.Prelude.Int.{ℤ, pos, negsuc}

-- `uc[i]` of a union that holds `x`.
abbrev pub uc : ℕ → ℕ → ℕ
uc x i = x / 256 ^ i % 256

-- The number in a VARSHORT and in a VARLONG whose bytes have been written one by one.
abbrev pub var_short : ℕ → ℕ → ℕ
var_short b0 b1 = b0 + b1 * 256

abbrev pub var_long : ℕ → ℕ → ℕ → ℕ → ℕ
var_long b0 b1 b2 b3 = b0 + b1 * 256 + b2 * 65536 + b3 * 16777216

unfoldable pub htons : ℕ → ℕ
htons us = var_short (uc us 1) (uc us 0)

unfoldable pub htonl : ℕ → ℕ
htonl ul = var_long (uc ul 3) (uc ul 2) (uc ul 1) (uc ul 0)

unfoldable pub make_short : List ℕ → ℕ
make_short str = var_short (get_or str 0 0) (get_or str 1 0)

unfoldable pub depart_short : ℕ → List ℕ → List ℕ
depart_short us str = set (set str 0 (uc us 0)) 1 (uc us 1)

unfoldable pub makepkt_short : List ℕ → ℕ
makepkt_short str = var_short (get_or str 1 0) (get_or str 0 0)

unfoldable pub departpkt_short : ℕ → List ℕ → List ℕ
departpkt_short us str = set (set str 0 (uc us 1)) 1 (uc us 0)

unfoldable pub make_long : List ℕ → ℕ
make_long str = var_long (get_or str 0 0) (get_or str 1 0) (get_or str 2 0) (get_or str 3 0)

unfoldable pub make_shortlong : List ℕ → ℕ
make_shortlong str = var_long (get_or str 0 0) (get_or str 1 0) (get_or str 2 0) 0

unfoldable pub depart_long : ℕ → List ℕ → List ℕ
depart_long ul str = set (set (set (set str 0 (uc ul 0)) 1 (uc ul 1)) 2 (uc ul 2)) 3 (uc ul 3)

unfoldable pub depart_shortlong : ℕ → List ℕ → List ℕ
depart_shortlong ul str = set (set (set str 0 (uc ul 0)) 1 (uc ul 1)) 2 (uc ul 2)

-- `uldel`: the sign of `ul1 - ul2` as the returned -1, 0 or 1, and `*uld`.
unfoldable pub uldel : ℕ → ℕ → ℤ × ℕ
uldel ul1 ul2 =
    if ltb ul1 ul2
    then (negsuc 0, ul2 - ul1)
    else if ltb ul2 ul1
    then (pos 1, ul1 - ul2)
    else (pos 0, 0)

-- `ulxrate`: the product is taken in 64 bits, where it fits.
unfoldable pub ulxrate : ℕ → ℕ → ℕ
ulxrate ul rate = u32 (ul * rate / 10000)

-- `bcd_isempty` over the first `len` bytes, which are the list.
unfoldable pub bcd_isempty : List ℕ → ℕ → ℕ
bcd_isempty [] flag = 1
bcd_isempty (b ∷ bs) flag = if b == flag then bcd_isempty bs flag else 0

-- `g_strlib_digits`
abbrev pub digit_char : ℕ → ℕ
digit_char d = if ltb d 10 then b'0' + d else b'A' + (d - 10)

-- `hex2toa`: the characters that it writes, the final 0 not shown.
unfoldable pub hex2toa : ℕ → List ℕ
hex2toa uc = digit_char (uc >>> 4 % 16) ∷ digit_char (uc % 16) ∷ []

-- The two loops of `itoa` over `g_itoa_tens`, on fuel; the text ends where the source writes 0.
unfoldable pub itoa_tens : ℕ → ℕ → ℕ → ℕ
itoa_tens zero i tens = tens
itoa_tens (suc fuel) i tens =
    let more = itoa_tens fuel i (tens * 10) in if leb tens (i / 10) then more else tens

unfoldable pub itoa_digits : ℕ → ℕ → ℕ → List ℕ
itoa_digits zero i tens = []
itoa_digits (suc fuel) i tens =
    let digit = i / tens in
    let rest = itoa_digits fuel (i - digit * tens) (tens / 10) in
    if tens == 0 then [] else digit_char digit ∷ rest

-- An `int` has at most ten decimal digits; the second loop runs once for each and stops once more.
abbrev pub itoa_positive : ℕ → List ℕ
itoa_positive i = itoa_digits 13 i (itoa_tens 11 i 1)

unfoldable pub itoa : ℤ → List ℕ
unfolding itoa_digits itoa_tens
itoa (pos zero) = b'0' ∷ []
itoa (pos (suc n)) = itoa_positive (suc n)
itoa (negsuc n) = b'-' ∷ itoa_positive (suc n)

-- `iptoa`: the bytes of the address from the highest, with dots between.
unfoldable pub iptoa : ℕ → List ℕ
unfolding itoa
iptoa ip =
    itoa (pos (uc ip 3))
    ++ b'.' ∷ (itoa (pos (uc ip 2)) ++ b'.' ∷ (itoa (pos (uc ip 1)) ++ b'.' ∷ itoa (pos (uc ip 0))))
