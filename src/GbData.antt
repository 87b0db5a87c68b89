-- ===== src/GbData.antt =====
-- Formats of the meter data of lib/datatype_gb.c: type 02, a power of three digits with a sign and a
-- scale in two bytes, and type 03, an energy of seven digits with a sign and a unit in four bytes.

pub mod RoundTrip
use smart_home_xiugai.Prelude.Int.{ℤ, pos, negsuc}
use smart_home_xiugai.Prelude.{
  ℕ, zero, suc, ◌+◌, ◌-◌, ◌*◌, ◌/◌, ◌%◌, ◌^◌, List, [], ◌∷◌, Bool, true, false, ◌&&◌, u8, ltb, leb,
  ◌==◌, take, get_or, if◌then◌else◌,
}
use smart_home_xiugai.Bcd.{bcd_to_unsigned, unsigned_to_bcd}

-- The product of a number and -1, or the number.
abbrev pub signed : Bool → ℕ → ℤ
signed true zero = pos 0
signed true (suc n) = negsuc n
signed false n = pos n

abbrev pub magnitude : ℤ → ℕ
magnitude (pos n) = n
magnitude (negsuc n) = suc n

abbrev pub negative : ℤ → Bool
negative (pos n) = false
negative (negsuc n) = true

abbrev pub times_ten : ℕ → ℕ → ℕ
times_ten zero rtn = rtn
times_ten (suc i) rtn = times_ten i (rtn * 10)

-- `Sfloat02ToPower` of the bytes `psrc[0]` and `psrc[1]`; masks and shifts are remainders and
-- quotients, `(~uc)&0x07` of a number of three bits is 7 less it.
unfoldable pub sfloat02_to_power : ℕ → ℕ → ℤ
sfloat02_to_power b0 b1 =
    let digits = b1 % 16 * 100 + u8 (b0 / 16 % 16 * 10 + b0 % 16) in
    let uc = 7 - b1 / 32 % 8 in
    signed (b1 / 16 % 2 == 1) (if uc == 0 then digits / 10 else times_ten (uc - 1) digits)

-- The loop of `PowerToSfloat02` from `i` on, for the rounds that are left: `i` and `src`.
unfoldable pub scale_loop : ℕ → ℕ → ℕ → ℕ × ℕ
scale_loop zero i src = (i, src)
scale_loop (suc left) i src =
    let more = scale_loop left (i + 1) (src / 10) in if ltb src 1000 then (i, src) else more

-- The bytes `pdst[0]` and `pdst[1]` for three digits, a sign and the high bits of the scale.
abbrev pub sfloat02_bytes : ℕ → Bool → ℕ → ℕ × ℕ
sfloat02_bytes high flag src = (
  u8 (u8 (src % 100 / 10 * 16) + src % 100 % 10),
  u8 (high + (if flag then 16 else 0) + src / 100),
)

-- `PowerToSfloat02`: the bytes `pdst[0]` and `pdst[1]`.
unfoldable pub power_to_sfloat02 : ℤ → ℕ × ℕ
unfolding scale_loop
power_to_sfloat02 power =
    let src = magnitude power in
    if ltb src 99900 && (src % 100 == 0)
    then sfloat02_bytes 0x80 (negative power) (src / 100)
    else let (i, scaled) = scale_loop 6 1 src in
      sfloat02_bytes ((7 - i) * 32) (negative power) (if leb 1000 scaled then 999 else scaled)

abbrev pub max_gene_mwh : ℕ
max_gene_mwh = 2000000

-- `Sbcd03ToEnergy` of four bytes.
unfoldable pub sbcd03_to_energy : List ℕ → ℤ
sbcd03_to_energy psrc =
    let b3 = get_or psrc 3 0 in
    let tmp = b3 % 16 * 1000000 + bcd_to_unsigned (take 3 psrc) in
    let energy =
      if b3 / 64 % 2 == 1
      then (if ltb max_gene_mwh tmp then max_gene_mwh else tmp) * 1000
      else tmp in
    signed (b3 / 16 % 2 == 1) energy

-- The last byte of `EnergyToSbcd03`: its low digit, and the flag.
abbrev pub flag_last : ℕ → List ℕ → List ℕ
flag_last flag (b0 ∷ b1 ∷ b2 ∷ b3 ∷ []) = b0 ∷ b1 ∷ b2 ∷ (b3 % 16 + flag) ∷ []
flag_last flag bytes = bytes

-- `EnergyToSbcd03`
unfoldable pub energy_to_sbcd03 : ℤ → List ℕ
energy_to_sbcd03 energy =
    let src = magnitude energy in
    let sign = if negative energy then 16 else 0 in
    let thousands = if ltb 9999999 (src / 1000) then 9999999 else src / 1000 in
    if ltb 9999999 src
    then flag_last (sign + 64) (unsigned_to_bcd thousands 4).0
    else flag_last sign (unsigned_to_bcd src 4).0
