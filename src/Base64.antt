-- ===== src/Base64.antt =====
-- Base64 of monitor/base64.c: `base64_encode`, `base64_decode` and `num_strchr`. A string is the list
-- of its bytes in memory with the 0 that ends it and with whatever follows.
pub mod RoundTrip
use Prim.Native.String.{String}
use Prim.Native.Char.{code}
use smart_home_xiugai.Prelude.{
  ℕ, zero, suc, ◌+◌, List, [], ◌∷◌, ◌++◌, Option, none, some, get_or, bit_and, bit_or, ◌<<<◌, ◌>>>◌,
  ◌==◌, if◌then◌else◌,
}

abbrev codes : String → List ℕ
codes String.[] = []
codes (String.◌∷◌ c s) = code c ∷ codes s

-- `base64char` without its final 0.
unfoldable pub base64char : List ℕ
base64char = codes "ABCDEFGHIJKLMNOPQRSTUVWXYZabcdefghijklmnopqrstuvwxyz0123456789+/"

abbrev pub padding_char : ℕ
padding_char = b'='

-- `num_strchr` from position `i` on. -1 is the word of 32 ones. `strchr` also finds the final 0.
unfoldable pub num_strchr : List ℕ → ℕ → ℕ → ℕ
num_strchr [] c i = if c == 0 then i else 0xffffffff
num_strchr (s ∷ str) c i = let rest = num_strchr str c (i + 1) in if s == c then i else rest

abbrev pub index_of : ℕ → ℕ
index_of c = num_strchr base64char c 0

abbrev pub prepend : List ℕ → Option (List ℕ) → Option (List ℕ)
prepend bytes none = none
prepend bytes (some rest) = some (bytes ++ rest)

-- The three bytes that a group of four characters stands for.
unfoldable pub first_byte : ℕ → ℕ → ℕ
first_byte trans0 trans1 = bit_or (bit_and (trans0 <<< 2) 0xfc) (bit_and (trans1 >>> 4) 0x03)

unfoldable pub second_byte : ℕ → ℕ → ℕ
second_byte trans1 trans2 = bit_or (bit_and (trans1 <<< 4) 0xf0) (bit_and (trans2 >>> 2) 0x0f)

unfoldable pub third_byte : ℕ → ℕ → ℕ
third_byte trans2 trans3 = bit_or (bit_and (trans2 <<< 6) 0xc0) (bit_and trans3 0x3f)

-- `base64_decode`: the bytes that it writes, the final 0 not shown, or `none` where it reads behind
-- the memory that is given.
unfoldable pub base64_decode : List ℕ → Option (List ℕ)
base64_decode [] = none
base64_decode (c0 ∷ []) = if c0 == 0 then some [] else none
base64_decode (c0 ∷ c1 ∷ []) = if c0 == 0 then some [] else none
base64_decode (c0 ∷ c1 ∷ c2 ∷ []) = if c0 == 0 then some [] else none
base64_decode (c0 ∷ c1 ∷ c2 ∷ c3 ∷ base64) =
    let more = base64_decode base64 in
    let trans0 = index_of c0 in
    let trans1 = index_of c1 in
    let trans2 = index_of c2 in
    let trans3 = index_of c3 in
    if c0 == 0
    then some []
    else if c2 == b'='
    then prepend (first_byte trans0 trans1 ∷ []) more
    else if c3 == b'='
    then prepend (first_byte trans0 trans1 ∷ second_byte trans1 trans2 ∷ []) more
    else prepend
        (first_byte trans0 trans1 ∷ second_byte trans1 trans2 ∷ third_byte trans2 trans3 ∷ []) more

abbrev pub char_of : ℕ → ℕ
char_of trans_index = get_or base64char trans_index 0

-- The loop of `base64_encode` over the bytes before the 0.
unfoldable pub encode_loop : List ℕ → List ℕ
encode_loop [] = []
encode_loop (b0 ∷ []) =
    char_of (bit_and (b0 >>> 2) 0x3f)
    ∷ char_of (bit_and (b0 <<< 4) 0x30)
    ∷ padding_char
    ∷ padding_char
    ∷ []
encode_loop (b0 ∷ b1 ∷ []) =
    char_of (bit_and (b0 >>> 2) 0x3f)
    ∷ char_of (bit_or (bit_and (b0 <<< 4) 0x30) (bit_and (b1 >>> 4) 0x0f))
    ∷ char_of (bit_and (b1 <<< 2) 0x3c)
    ∷ padding_char
    ∷ []
encode_loop (b0 ∷ b1 ∷ b2 ∷ sourcedata) =
    char_of (bit_and (b0 >>> 2) 0x3f)
    ∷ char_of (bit_or (bit_and (b0 <<< 4) 0x30) (bit_and (b1 >>> 4) 0x0f))
    ∷ char_of (bit_or (bit_and (b1 <<< 2) 0x3c) (bit_and (b2 >>> 6) 0x03))
    ∷ char_of (bit_and b2 0x3f)
    ∷ encode_loop sourcedata

-- The bytes that `strlen` counts.
unfoldable pub before_zero : List ℕ → List ℕ
before_zero [] = []
before_zero (b ∷ bytes) = let rest = before_zero bytes in if b == 0 then [] else b ∷ rest

-- `base64_encode`: the characters that it writes, with the final 0.
unfoldable pub base64_encode : List ℕ → List ℕ
unfolding encode_loop before_zero
base64_encode sourcedata = encode_loop (before_zero sourcedata) ++ (0 ∷ [])
