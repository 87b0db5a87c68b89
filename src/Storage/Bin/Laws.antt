-- ===== src/Storage/Bin/Laws.antt =====
-- The head of a file, and the blocks of its data.
use smart_home_xiugai.Prelude.{
  ℕ, ◌^◌, ◌≡◌, ◌≢◌, ◌≤◌, ◌<◌, refl, List, [], ◌∷◌, ◌++◌, take, drop, length, none, some, true, leb,
  arith, length-append,
}
use smart_home_xiugai.Bytes.{uc, make_short, make_long}
use smart_home_xiugai.Crc.{calculate_crc}
use smart_home_xiugai.Crc.Message.{calculate_crc-lt}
use smart_home_xiugai.Storage.Bin.{
  BinFilehead, checked_part, head_bytes, head_of_bytes, read_head, max_filelen,
}

pub length-head_bytes : (h : BinFilehead) → length (head_bytes h) ≡ 12
unfolding head_bytes checked_part
length-head_bytes h = refl

pub var_short_of_uc : (x : ℕ) → x < 2 ^ 16 → make_short (uc x 0 ∷ uc x 1 ∷ []) ≡ x
unfolding make_short
var_short_of_uc x h = omega arith

pub var_long_of_uc : (x : ℕ) → x < 2 ^ 32 → make_long (uc x 0 ∷ uc x 1 ∷ uc x 2 ∷ uc x 3 ∷ []) ≡ x
unfolding make_long
var_long_of_uc x h = omega arith

-- A head written is the head read.
pub head_of_bytes-head_bytes :
    (h : BinFilehead) (rest : List ℕ)
    → h.headcrc < 2 ^ 16
    → h.datacrc < 2 ^ 16
    → h.magic < 2 ^ 32
    → h.len < 2 ^ 32
    → head_of_bytes (take 12 (head_bytes h ++ rest)) ≡ h
unfolding head_bytes head_of_bytes checked_part make_short make_long
head_of_bytes-head_bytes h rest a b c d = cc (
  var_short_of_uc h.headcrc a,
  var_short_of_uc h.datacrc b,
  var_long_of_uc h.magic c,
  var_long_of_uc h.len d,
)

drop-head_bytes : (h : BinFilehead) (rest : List ℕ) → drop 12 (head_bytes h ++ rest) ≡ rest
unfolding head_bytes checked_part
drop-head_bytes h rest = refl

-- The head that `SaveBinFile` makes for data with the checksum `datacrc`.
abbrev pub saved_head : ℕ → ℕ → ℕ → BinFilehead
saved_head datacrc magic len = record {
  headcrc = calculate_crc (checked_part datacrc magic len);
  datacrc = datacrc;
  magic = magic;
  len = len;
}

-- Reading the head of a saved file gives it back, for the same magic number and a length in range.
pub read_head_saved :
    (limit datacrc magic len : ℕ) (rest : List ℕ)
    → datacrc < 2 ^ 16
    → magic < 2 ^ 32
    → 0 < len
    → len ≤ limit
    → len ≤ max_filelen
    → read_head limit magic (head_bytes (saved_head datacrc magic len) ++ rest)
      ≡ some (saved_head datacrc magic len, rest)
unfolding read_head
read_head_saved limit datacrc magic len rest c m positive short bounded =
    let h : BinFilehead = saved_head datacrc magic len in
    let enough : leb 12 (length (head_bytes h ++ rest)) ≡ true =
      ground (arith, length-append (head_bytes h) rest, length-head_bytes h) in
    let parsed : head_of_bytes (take 12 (head_bytes h ++ rest)) ≡ h =
      head_of_bytes-head_bytes h rest (calculate_crc-lt (checked_part datacrc magic len)) c m
        (omega arith) in
    rw (enough, parsed, drop-head_bytes h rest) (ground arith)

-- With another magic number it fails.
pub read_head_other :
    (limit other datacrc magic len : ℕ) (rest : List ℕ)
    → datacrc < 2 ^ 16
    → magic < 2 ^ 32
    → len < 2 ^ 32
    → other ≢ magic
    → read_head limit other (head_bytes (saved_head datacrc magic len) ++ rest) ≡ none
unfolding read_head
read_head_other limit other datacrc magic len rest c m l differs =
    let h : BinFilehead = saved_head datacrc magic len in
    let enough : leb 12 (length (head_bytes h ++ rest)) ≡ true =
      ground (arith, length-append (head_bytes h) rest, length-head_bytes h) in
    let parsed : head_of_bytes (take 12 (head_bytes h ++ rest)) ≡ h =
      head_of_bytes-head_bytes h rest (calculate_crc-lt (checked_part datacrc magic len)) c m l in
    rw (enough, parsed) (ground arith)
