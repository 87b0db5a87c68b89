-- ===== src/Crc/Detect.antt =====
-- Which changes of one byte the checksums notice.
use smart_home_xiugai.Prelude.{
  ℕ, zero, suc, ◌^◌, ◌%◌, ◌/◌, ◌*◌, ◌<◌, ◌≡◌, refl, List, [], ◌∷◌, ◌++◌, true, bit_xor, get_or,
  ◌==◌, ==_iff, if◌then◌else◌, all_below, all_below_sound, arith, IsByte, IsBytes, ap, ◌∙◌, sym,
}
use smart_home_xiugai.Prelude.Xor.{
  bit_xor_assoc, bit_xor_comm, bit_xor_self, zero-bit_xor, mod-bit_xor, bit_xor-lt,
}
use smart_home_xiugai.Crc.{
  crc_table, crc_step, crc_loop, calculate_crc, crc_hi_table, crc_lo_table, get_crc16_loop,
  get_crc16,
}
use smart_home_xiugai.Crc.Bitwise.{crc_step-lt}
use smart_home_xiugai.Crc.Message.{crc_loop-append, crc_loop-lt, calculate_crc-loop}

pub bit_xor_cancel_left : (a b c : ℕ) → bit_xor a b ≡ bit_xor a c → b ≡ c
bit_xor_cancel_left a b c h = sym (undo b) ∙ ap (bit_xor a) h ∙ undo c
  where
    undo : (x : ℕ) → bit_xor a (bit_xor a x) ≡ x
    undo x =
        sym (bit_xor_assoc a a x) ∙ ap (λ (t : ℕ). bit_xor t x) (bit_xor_self a) ∙ zero-bit_xor x

-- The low bytes of the table's entries are all different: from one, its index is found again.
find_index : ℕ → ℕ → ℕ
find_index zero low = 0
find_index (suc n) low =
    let rest = find_index n low in if get_or crc_table n 0 % 256 == low then n else rest

find_index-crc_table : (i : ℕ) → i < 256 → find_index 256 (get_or crc_table i 0 % 256) ≡ i
find_index-crc_table i p = (==_iff _ _).0 (all_below_sound 256 _ i table p)
  where
    table : all_below 256 (λ i. find_index 256 (get_or crc_table i 0 % 256) == i) ≡ true
    table = unfold all_below find_index crc_table in refl

-- The table entry that a step picks, and the step as an exclusive or of shifted register and entry.
abbrev index : ℕ → ℕ → ℕ
index t b = bit_xor (t / 256) b

abbrev entry : ℕ → ℕ → ℕ
entry t b = get_or crc_table (index t b) 0

crc_step-entry : (t b : ℕ) → crc_step t b ≡ bit_xor (t % 256 * 256) (entry t b % 65536)
unfolding crc_step
crc_step-entry t b =
    mod-bit_xor 16 (t * 256) (entry t b)
    ∙ ap (λ (u : ℕ). bit_xor u (entry t b % 65536)) (omega arith)

low-crc_step : (t b : ℕ) → crc_step t b % 256 ≡ entry t b % 256
low-crc_step t b =
    ap (λ (u : ℕ). u % 256) (crc_step-entry t b)
    ∙ mod-bit_xor 8 (t % 256 * 256) (entry t b % 65536)
    ∙ ap (λ (u : ℕ). bit_xor u (entry t b % 65536 % 256)) {y = 0} (omega arith)
    ∙ zero-bit_xor (entry t b % 65536 % 256)
    ∙ omega arith

-- A step forgets nothing of the index and of the register's low byte.
index_of_crc_step :
    (t b t' b' : ℕ)
    → index t b < 256
    → index t' b' < 256
    → crc_step t b ≡ crc_step t' b'
    → index t b ≡ index t' b'
index_of_crc_step t b t' b' p p' h =
    sym (find_index-crc_table (index t b) p)
    ∙ ap (find_index 256) (sym (low-crc_step t b) ∙ ap (λ (u : ℕ). u % 256) h ∙ low-crc_step t' b')
    ∙ find_index-crc_table (index t' b') p'

low_of_crc_step :
    (t b t' b' : ℕ) → index t b ≡ index t' b' → crc_step t b ≡ crc_step t' b' → t % 256 ≡ t' % 256
low_of_crc_step t b t' b' e h =
    let same : bit_xor (entry t b % 65536) (t % 256 * 256)
        ≡ bit_xor (entry t b % 65536) (t' % 256 * 256) =
      bit_xor_comm (entry t b % 65536) (t % 256 * 256)
      ∙ sym (crc_step-entry t b)
      ∙ h
      ∙ crc_step-entry t' b'
      ∙ ap (λ (u : ℕ). bit_xor (t' % 256 * 256) (get_or crc_table u 0 % 65536)) (sym e)
      ∙ bit_xor_comm (t' % 256 * 256) (entry t b % 65536) in
    let shifted : t % 256 * 256 ≡ t' % 256 * 256 =
      bit_xor_cancel_left (entry t b % 65536) (t % 256 * 256) (t' % 256 * 256) same in
    omega arith

crc_step_byte_injective :
    (t b b' : ℕ) → t < 2 ^ 16 → IsByte b → IsByte b' → crc_step t b ≡ crc_step t b' → b ≡ b'
crc_step_byte_injective t b b' p q q' h = bit_xor_cancel_left (t / 256) b b' (
    index_of_crc_step t b t b' (bit_xor-lt 8 (t / 256) b (omega arith) q)
      (bit_xor-lt 8 (t / 256) b' (omega arith) q') h)

crc_step_register_injective :
    (t t' b : ℕ) → t < 2 ^ 16 → t' < 2 ^ 16 → IsByte b → crc_step t b ≡ crc_step t' b → t ≡ t'
crc_step_register_injective t t' b p p' q h =
    let e : index t b ≡ index t' b =
      index_of_crc_step t b t' b (bit_xor-lt 8 (t / 256) b (omega arith) q)
        (bit_xor-lt 8 (t' / 256) b (omega arith) q) h in
    let high : t / 256 ≡ t' / 256 =
      bit_xor_cancel_left b (t / 256) (t' / 256)
        (bit_xor_comm b (t / 256) ∙ e ∙ bit_xor_comm (t' / 256) b) in
    omega (arith, low_of_crc_step t b t' b e h)

crc_loop_injective :
    (bytes : List ℕ) (t t' : ℕ)
    → IsBytes bytes
    → t < 2 ^ 16
    → t' < 2 ^ 16
    → crc_loop bytes t ≡ crc_loop bytes t'
    → t ≡ t'
unfolding crc_loop
crc_loop_injective [] t t' q p p' h = h
crc_loop_injective (b ∷ bs) t t' q p p' h = crc_step_register_injective t t' b p p' q.0 (
    crc_loop_injective bs (crc_step t b) (crc_step t' b) q.1 (crc_step-lt t b) (crc_step-lt t' b) h)

-- Two messages of bytes that differ in one byte only have different checksums: equal checksums of
-- `CalculateCRC` force the two bytes to be equal, whatever stands before and after.
pub calculate_crc_detects :
    (before after : List ℕ) (b b' : ℕ)
    → IsBytes after
    → IsByte b
    → IsByte b'
    → calculate_crc (before ++ b ∷ after) ≡ calculate_crc (before ++ b' ∷ after)
    → b ≡ b'
unfolding crc_loop
calculate_crc_detects before after b b' bytes p p' h =
    let t : ℕ = crc_loop before 0 in
    let whole : (c : ℕ) → calculate_crc (before ++ c ∷ after) ≡ crc_loop after (crc_step t c) =
      λ c. calculate_crc-loop (before ++ c ∷ after) ∙ crc_loop-append before (c ∷ after) 0 in
    crc_step_byte_injective t b b' (crc_loop-lt before 0 (omega arith)) p p' (
      crc_loop_injective after (crc_step t b) (crc_step t b') bytes (crc_step-lt t b)
        (crc_step-lt t b') (sym (whole b) ∙ h ∙ whole b'))

-- The register `uchCRCHi` of `GetCRC16` after a message.
abbrev pub hi_after : List ℕ → ℕ → ℕ → ℕ
hi_after [] hi lo = hi
hi_after (b ∷ bs) hi lo =
    let i = bit_xor hi b in
    hi_after bs (bit_xor lo (get_or crc_hi_table i 0)) (get_or crc_lo_table i 0)

collide :
    (before after : List ℕ) (hi lo : ℕ)
    → let h = hi_after before hi lo in
      get_crc16_loop (before ++ bit_xor h 1 ∷ after) hi lo
      ≡ get_crc16_loop (before ++ bit_xor h 255 ∷ after) hi lo
unfolding get_crc16_loop crc_hi_table crc_lo_table
collide [] after hi lo =
    let undo : (x : ℕ) → bit_xor hi (bit_xor hi x) ≡ x = λ x.
      sym (bit_xor_assoc hi hi x)
      ∙ ap (λ (t : ℕ). bit_xor t x) (bit_xor_self hi)
      ∙ zero-bit_xor x in
    let next : ℕ → ℕ =
      λ i. get_crc16_loop after (bit_xor lo (get_or crc_hi_table i 0)) (get_or crc_lo_table i 0) in
    ap next (undo 1) ∙ sym (ap next (undo 255))
collide (b ∷ bs) after hi lo =
    collide bs after (bit_xor lo (get_or crc_hi_table (bit_xor hi b) 0))
      (get_or crc_lo_table (bit_xor hi b) 0)

-- `GetCRC16` misses some changes of one byte: after every message there are two bytes, the
-- register's high byte with 1 and with 255 exclusive-ored in, that may stand for one another without
-- a change of the checksum, whatever follows.
pub get_crc16_collision :
    (before after : List ℕ)
    → let h = hi_after before 0xff 0xff in
      get_crc16 (before ++ bit_xor h 1 ∷ after) ≡ get_crc16 (before ++ bit_xor h 255 ∷ after)
unfolding get_crc16
get_crc16_collision before after = collide before after 0xff 0xff
