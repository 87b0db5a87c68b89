-- ===== src/Bytes/Decimals.antt =====
-- The packed decimals of lib/datachg.c, which has its own `bcdtol`, `ltobcd`, `hextobcd` and `bcdtohex`
-- beside those of lib/bcd.c.
pub mod Agree
use smart_home_xiugai.Prelude.{
  ℕ, zero, suc, ◌+◌, ◌-◌, ◌*◌, ◌/◌, ◌%◌, ◌^◌, List, [], ◌∷◌, get_or, set, replicate, take, length,
  u8, u16, u32, ltb, leb, ◌==◌, if◌then◌else◌, Bool, true, false, not, ◌&&◌, ◌||◌, bit_or, bit_and,
  ◌<<<◌, ◌>>>◌,
}

-- The loop of `bcdtol` for the `i` lowest bytes.
unfoldable pub bcdtol_loop : ℕ → List ℕ → ℕ → ℕ
bcdtol_loop zero bcd rtn = rtn
bcdtol_loop (suc i) bcd rtn =
    let b = get_or bcd i 0 in
    let uc = u8 (u8 (bit_and b 0xf0 >>> 4 * 10) + bit_and b 0x0f) in
    bcdtol_loop i bcd (u32 (u32 (rtn * 100) + uc))

unfoldable pub bcdtol : List ℕ → ℕ → ℕ
unfolding bcdtol_loop
bcdtol bcd len = bcdtol_loop len bcd 0

-- The `while` loop of `ltobcd`, on fuel: the buffer, and what is left of the number. It is left where
-- no byte is.
unfoldable pub ltobcd_loop : ℕ → ℕ → ℕ → ℕ → List ℕ → List ℕ × ℕ
ltobcd_loop zero maxlen i ul bcd = (bcd, ul)
ltobcd_loop (suc fuel) maxlen i ul bcd =
    let uc = u8 (ul % 10 + u8 ((ul / 10 % 10) <<< 4)) in
    let more = ltobcd_loop fuel maxlen (i + 1) (ul / 10 / 10) (set bcd i uc) in
    if ul == 0 then (bcd, ul) else if leb maxlen i then (bcd, ul) else more

-- The first loop of `ltobcd`: `maxlen` bytes are 0, the rest of the buffer stays.
abbrev pub zero_first : ℕ → List ℕ → List ℕ
zero_first zero bcd = bcd
zero_first (suc n) [] = []
zero_first (suc n) (b ∷ bcd) = 0 ∷ zero_first n bcd

-- `ltobcd`: every round takes a byte, so one round more than there are bytes do.
unfoldable pub ltobcd : ℕ → List ℕ → ℕ → List ℕ × ℕ
unfolding ltobcd_loop
ltobcd ul bcd maxlen =
    let (bcd', left) = ltobcd_loop (suc maxlen) maxlen 0 ul (zero_first maxlen bcd) in
    (bcd', if left == 0 then 0 else 1)

-- `hextobcd` and `bcdtohex`, byte by byte.
unfoldable pub hextobcd : List ℕ → List ℕ
hextobcd [] = []
hextobcd (b ∷ str) =
    let uc2 = if ltb 9 (b / 10) then 9 else b / 10 in
    bit_or (b % 10) (bit_and (uc2 <<< 4) 0xf0) ∷ hextobcd str

unfoldable pub bcdtohex : List ℕ → List ℕ
bcdtohex [] = []
bcdtohex (b ∷ str) = u8 (bit_and b 0x0f + u8 (bit_and b 0xf0 / 16 * 10)) ∷ bcdtohex str
