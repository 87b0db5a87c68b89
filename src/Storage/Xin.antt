-- ===== src/Storage/Xin.antt =====
-- Files of named values: sys/storage/xin.c, with the one buffer that all files share (USE_XINMUTEX).
-- The buffer is the list of its bytes, a pointer into it an offset; what a `const char *` points at is
-- the list of the bytes from there on. A file is the list of its bytes, or `none` where there is none.
-- A C `int` is the 32-bit word that holds it.
pub mod Lines
pub mod Numbers
pub mod Run
pub mod Find
pub mod Write
pub mod Saved
pub mod Loaded
pub mod Values
pub mod RoundTrip
pub mod AnyOrder
use smart_home_xiugai.Prelude.{
  ℕ, zero, suc, ◌+◌, ◌-◌, ◌*◌, ◌/◌, ◌%◌, ◌^◌, List, [], ◌∷◌, ◌++◌, get_or, take, drop, set, length,
  Option, none, some, Bool, true, false, not, ◌&&◌, ◌||◌, ltb, leb, ◌==◌, if◌then◌else◌, u8, u32,
  bit_or, ◌<<<◌,
}
use smart_home_xiugai.Prelude.Int.{ℤ, pos, negsuc}
use smart_home_xiugai.Base64.{before_zero}
use smart_home_xiugai.Bytes.{uc, make_short, make_long}
use smart_home_xiugai.Crc.{calculate_crc}
use smart_home_xiugai.Storage.Bin.{overwrite, fread}

abbrev pub xin_magic : ℕ
xin_magic = 0xaf7c32d1

abbrev pub xin_maxsize : ℕ
xin_maxsize = 0x7000

abbrev pub xin_maxfilename : ℕ
xin_maxfilename = 128

-- `XinRef` with `XinBuffer`, and whether `XinMutex` is held. `pscan` is an offset in `buffer`.
pub record Xin : Type 0 where
  pub len : ℕ
  pub openflag : ℕ
  pub buffer : List ℕ
  pub pscan : ℕ
  pub locked : Bool

-- `xinhead_t` as bytes.
unfoldable pub xin_head : ℕ → ℕ → List ℕ
xin_head len crc =
    uc xin_magic 0
    ∷ uc xin_magic 1
    ∷ uc xin_magic 2
    ∷ uc xin_magic 3
    ∷ uc len 0
    ∷ uc len 1
    ∷ uc crc 0
    ∷ uc crc 1
    ∷ []

-- What `XinOpen` does: it waits for the mutex, refuses, or hands out the reference.
pub data Opened : Type 0 where
  waits : Opened
  refused : Xin → Opened
  opened : Xin → Opened

-- The head is read and good, and the bytes behind it are read.
unfoldable pub xin_open_body : ℕ → List ℕ → Xin → Opened
xin_open_body crc stream x =
    let (got, (buffer, rest)) = fread x.len x.buffer stream in
    let failed = record x { buffer = buffer; locked = false } in
    if not got
    then refused failed
    else if not (crc == calculate_crc (take x.len buffer))
    then refused failed
    else opened (record x { buffer = set (set buffer x.len 0) (x.len + 1) 0; pscan = 0 })

-- Reading the file's bytes in `XinOpen`, the mutex held.
unfoldable pub xin_open_read : List ℕ → Xin → Opened
unfolding xin_open_body
xin_open_read bytes x =
    let head = take 8 bytes in
    let len = make_short (drop 4 head) in
    let failed = record x { locked = false } in
    if not (leb 8 (length bytes))
    then refused failed
    else if not (make_long head == xin_magic)
    then refused failed
    else if len == 0 || ltb xin_maxsize len
    then refused failed
    else elim (xin_open_body (make_short (drop 6 head)) (drop 8 bytes) (record x { len = len })) [
      | waits ↦ waits
      | refused x' ↦ refused (record x' { len = x.len })
      | opened x' ↦ opened x'
    ]

-- `XinOpen`: the name, the flag and the file of that name.
unfoldable pub xin_open : List ℕ → ℕ → Option (List ℕ) → Xin → Opened
unfolding xin_open_read
xin_open filename flag file x =
    let start = record x { openflag = flag; pscan = 0; locked = true } in
    if leb xin_maxfilename (length filename)
    then refused x
    else if x.locked
    then waits
    else if flag == b'r'
    then elim file [ none ↦ refused x | some bytes ↦ xin_open_read bytes start ]
    else if not (flag == b'w')
    then refused x
    else opened (record start { len = 0 })

-- `XinClose`: the file and the state afterwards. `opens` says whether `fopen` for writing succeeds.
unfoldable pub xin_close : Bool → Option (List ℕ) → Xin → Option (List ℕ) × Xin
xin_close opens file x =
    let written = take x.len x.buffer in
    let x' = record x { locked = false } in
    if x.openflag == b'r'
    then (file, x')
    else if x.len == 0 || ltb xin_maxsize x.len
    then (file, x')
    else if not opens
    then (none, x')
    else (some (xin_head x.len (calculate_crc written) ++ written), x')

-- The inner loop of `FindVariable`: whether it leaves `pname` at its end, and how far `pstr` is. Both
-- pointers are moved on before a difference ends it.
unfoldable pub compare_name : List ℕ → List ℕ → Bool × ℕ
compare_name [] here = (true, 0)
compare_name (c ∷ cs) here =
    let (end, used) = compare_name cs (drop 1 here) in
    if get_or here 0 0 == c then (end, used + 1) else (elim cs [ [] ↦ true | _ ∷ _ ↦ false ], 1)

-- What `FindVariable` gives: the value and the new `pscan`. `lost` says that the fuel ran out.
pub data Search : Type 0 where
  found : List ℕ → ℕ → Search
  absent : ℕ → Search
  lost : Search

abbrev pub strlen : List ℕ → ℕ
strlen here = length (before_zero here)

-- The outer loop of `FindVariable`, on fuel.
unfoldable pub find_loop : ℕ → List ℕ → List ℕ → ℕ → Bool → ℕ → Search
unfolding compare_name before_zero
find_loop zero buffer varname pbak rescan pscan = lost
find_loop (suc fuel) buffer varname pbak rescan pscan =
    let ended = not rescan && get_or (drop pscan buffer) 0 0 == 0 in
    let pscan' = if ended then 0 else pscan in
    let here = drop pscan' buffer in
    let (end, used) = compare_name varname here in
    let line = pscan' + strlen here + 1 in
    let next = if get_or here used 0 == 0 then pscan' + used + 1 else line in
    let more = find_loop fuel buffer varname pbak (rescan || ended) next in
    if rescan && leb pbak pscan
    then absent pscan
    else if end && get_or here used 0 == b'='
    then found (drop (used + 1) here) line
    else more

-- `FindVariable`. Every round but the last passes a byte, in at most two runs over the bytes.
unfoldable pub find_variable : List ℕ → Xin → Search
unfolding find_loop
find_variable varname x = find_loop (2 * length x.buffer) x.buffer varname x.pscan false x.pscan

-- The characters' values as digits, or `none`.
unfoldable pub hex_digit : ℕ → Option ℕ
hex_digit c =
    if leb b'0' c && leb c b'9'
    then some (c - b'0')
    else if leb b'A' c && leb c b'F'
    then some (c - b'A' + 10)
    else if leb b'a' c && leb c b'f'
    then some (c - b'a' + 10)
    else none

-- The loop of `XinStrToInt` over the digits behind `0x`.
unfoldable pub hex_loop : ℕ → List ℕ → ℕ
unfolding hex_digit
hex_loop sum [] = sum
hex_loop sum (c ∷ cs) = elim (hex_digit c) [
  | none ↦ sum
  | some num ↦ hex_loop (u32 (u32 (sum <<< 4) + num)) cs
]

-- `atoi` behind the sign, for a text that stands for an `int`; a result is the word that holds it.
unfoldable pub atoi_loop : ℕ → List ℕ → ℕ
atoi_loop sum [] = sum
atoi_loop sum (c ∷ cs) =
    let more = atoi_loop (sum * 10 + (c - b'0')) cs in
    if leb b'0' c && leb c b'9' then more else sum

unfoldable pub atoi : List ℕ → ℕ
unfolding atoi_loop
atoi [] = 0
atoi (c ∷ cs) =
    if c == b'-'
    then (2 ^ 32 - u32 (atoi_loop 0 cs)) % 2 ^ 32
    else if c == b'+'
    then u32 (atoi_loop 0 cs)
    else u32 (atoi_loop 0 (c ∷ cs))

-- `XinStrToInt`, of the text up to its 0.
unfoldable pub xin_str_to_int : List ℕ → ℕ
unfolding atoi hex_loop
xin_str_to_int str =
    if get_or str 0 0 == b'0' && (get_or str 1 0 == b'x' || get_or str 1 0 == b'X')
    then hex_loop 0 (drop 2 str)
    else atoi str

-- `XinStrToHex`: the bytes, `skip` being the half of a byte that waits. A half byte at the end is
-- written too and not counted.
unfoldable pub hex_bytes : Option ℕ → List ℕ → ℕ → List ℕ × ℕ
unfolding hex_digit
hex_bytes skip [] len = (elim skip [ none ↦ [] | some high ↦ high ∷ [] ], 0)
hex_bytes none (c ∷ cs) len = elim (hex_digit c) [
  | none ↦ ([], 0)
  | some uc ↦ hex_bytes (some (u8 (uc <<< 4))) cs len
]
hex_bytes (some high) (c ∷ cs) len =
    let rest = hex_bytes none cs (len - 1) in
    elim (hex_digit c) [
      | none ↦ (high ∷ [], 0)
      | some uc ↦
          if leb len 1 then (bit_or high uc ∷ [], 1) else (bit_or high uc ∷ rest.0, rest.1 + 1)
    ]

-- The reading operations: the result and the state; those that fill a buffer give it too.
unfoldable pub xin_read_int : Xin → List ℕ → ℕ → ℕ × Xin
xin_read_int x varname defvalue =
    if not (x.openflag == b'r') then (defvalue, x) else elim (find_variable varname x) [
      | found value pscan ↦ (xin_str_to_int (before_zero value), record x { pscan = pscan })
      | absent pscan ↦ (defvalue, record x { pscan = pscan })
      | lost ↦ (defvalue, x)
    ]

unfoldable pub xin_read_string : Xin → List ℕ → List ℕ → ℕ → ℤ × List ℕ × Xin
xin_read_string x varname buffer len =
    if not (x.openflag == b'r') then (negsuc 0, buffer, x) else elim (find_variable varname x) [
      | found value pscan ↦
          let copied = take (len - 1) (before_zero value) in
          (pos (length copied), overwrite (copied ++ 0 ∷ []) buffer, record x { pscan = pscan })
      | absent pscan ↦ (negsuc 0, buffer, record x { pscan = pscan })
      | lost ↦ (negsuc 0, buffer, x)
    ]

unfoldable pub xin_read_hex : Xin → List ℕ → List ℕ → ℕ → ℤ × List ℕ × Xin
xin_read_hex x varname buffer len =
    if not (x.openflag == b'r') then (negsuc 0, buffer, x) else elim (find_variable varname x) [
      | found value pscan ↦
          let (bytes, copied) = hex_bytes none (before_zero value) len in
          (pos copied, overwrite bytes buffer, record x { pscan = pscan })
      | absent pscan ↦ (negsuc 0, buffer, record x { pscan = pscan })
      | lost ↦ (negsuc 0, buffer, x)
    ]

-- `sprintf` of a text to an offset of the buffer, with its 0; `none` where it runs over the end.
unfoldable pub sprintf_at : ℕ → List ℕ → List ℕ → Option (List ℕ)
sprintf_at at text buffer =
    if ltb (length buffer) (at + length text + 1)
    then none
    else some (take at buffer ++ (text ++ 0 ∷ []) ++ drop (at + length text + 1) buffer)

-- `sprintf` and `ADD_POINTER`: the result and the state.
unfoldable pub add_text : List ℕ → Xin → Option (ℕ × Xin)
add_text text x = elim (sprintf_at x.pscan text x.buffer) [
  | none ↦ none
  | some buffer ↦
      let add_len = strlen (drop x.pscan buffer) in
      if leb xin_maxsize (x.len + add_len)
      then some (1, record x { buffer = buffer })
      else some (
        0,
        record x { buffer = buffer; len = x.len + add_len + 1; pscan = x.pscan + add_len + 1 },
      )
]

-- The digits of a number to a base, the highest first: what `%d`, `%X` and `%02X` print.
unfoldable pub digit : ℕ → ℕ
digit d = if ltb d 10 then d + b'0' else d - 10 + b'A'

unfoldable pub digits : ℕ → ℕ → ℕ → List ℕ
digits zero base n = digit (n % base) ∷ []
digits (suc places) base n =
    let higher = digits places base (n / base) in
    if ltb n base then digit n ∷ [] else higher ++ digit (n % base) ∷ []

-- `%d` of the word of an `int`, and `0x%X`.
unfoldable pub int_text : ℕ → Bool → List ℕ
int_text value hex =
    if hex
    then b'0' ∷ b'x' ∷ digits 8 16 value
    else if ltb value (2 ^ 31)
    then digits 10 10 value
    else b'-' ∷ digits 10 10 (2 ^ 32 - value)

unfoldable pub xin_write_int : Xin → List ℕ → ℕ → Bool → Option (ℕ × Xin)
xin_write_int x varname value hex =
    if not (x.openflag == b'w')
    then some (1, x)
    else add_text (varname ++ b'=' ∷ int_text value hex) x

unfoldable pub xin_write_string : Xin → List ℕ → List ℕ → Option (ℕ × Xin)
xin_write_string x varname str =
    if not (x.openflag == b'w') then some (1, x) else add_text (varname ++ b'=' ∷ str) x

-- The loop of `XinWriteHex`: the result, the buffer, and `pscan` and `scanlen`.
unfoldable pub write_bytes : List ℕ → ℕ → ℕ → List ℕ → Option (ℕ × List ℕ × ℕ × ℕ)
write_bytes [] pscan scanlen buffer = some (0, buffer, pscan, scanlen)
write_bytes (b ∷ bytes) pscan scanlen buffer =
    elim (sprintf_at pscan (digit (b / 16) ∷ digit (b % 16) ∷ []) buffer) [
      | none ↦ none
      | some buffer' ↦
          let more = write_bytes bytes (pscan + 2) (scanlen + 2) buffer' in
          if leb xin_maxsize (scanlen + 2) then some (1, buffer', pscan, scanlen) else more
    ]

-- `XinWriteHex` of `bytes`, the first `len` bytes of the caller's buffer.
unfoldable pub xin_write_hex : Xin → List ℕ → List ℕ → Option (ℕ × Xin)
xin_write_hex x varname bytes =
    if not (x.openflag == b'w')
    then some (1, x)
    else elim (sprintf_at x.pscan (varname ++ b'=' ∷ []) x.buffer) [
      | none ↦ none
      | some buffer ↦
          let tmplen = strlen (drop x.pscan buffer) in
          if leb xin_maxsize (x.len + tmplen)
          then some (1, record x { buffer = buffer })
          else elim (write_bytes bytes (x.pscan + tmplen) (x.len + tmplen) buffer) [
            | none ↦ none
            | some (rtn, buffer', pscan, scanlen) ↦
                if rtn == 0
                then some (0, record x { buffer = buffer'; pscan = pscan + 1; len = scanlen + 1 })
                else some (1, record x { buffer = buffer' })
          ]
    ]
