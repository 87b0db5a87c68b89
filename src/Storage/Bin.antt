-- ===== src/Storage/Bin.antt =====
-- Binary files with checksums: sys/storage/bin.c (`SaveBinFile`, `ReadBinFile`, `ReadBinFileCache`).
-- A file is the list of its bytes, or `none` where there is none; a stream is what is still to be read
-- of it. A C `int` is the 32-bit word that holds it.
pub mod Laws
pub mod Blocks
pub mod RoundTrip
pub mod Saved
use smart_home_xiugai.Prelude.{
  ℕ, zero, suc, ◌-◌, ◌^◌, List, [], ◌∷◌, ◌++◌, take, drop, length, Option, none, some, Bool, true,
  false, ◌&&◌, ◌||◌, not, ltb, leb, not_positive, ◌==◌, if◌then◌else◌,
}
use smart_home_xiugai.Prelude.Int.{ℤ, pos, negsuc}
use smart_home_xiugai.Bytes.{uc, make_short, make_long}
use smart_home_xiugai.Crc.{calculate_crc, calculate_crc_step}

abbrev pub max_filelen : ℕ
max_filelen = 0x400000

abbrev pub max_memlen : ℕ
max_memlen = 0x10000

-- What the operating system decides: whether `fopen` for writing succeeds, and the bytes that `malloc`
-- gives, if any.
pub record Os : Type 0 where
  pub opens : Bool
  pub malloc : ℕ → Option (List ℕ)

-- `bin_filehead_t`
pub record BinFilehead : Type 0 where
  pub headcrc : ℕ
  pub datacrc : ℕ
  pub magic : ℕ
  pub len : ℕ

-- The bytes of the head in memory from `datacrc` on, which `headcrc` is taken of.
unfoldable pub checked_part : ℕ → ℕ → ℕ → List ℕ
checked_part datacrc magic len =
    uc datacrc 0
    ∷ uc datacrc 1
    ∷ uc magic 0
    ∷ uc magic 1
    ∷ uc magic 2
    ∷ uc magic 3
    ∷ uc len 0
    ∷ uc len 1
    ∷ uc len 2
    ∷ uc len 3
    ∷ []

-- The head as bytes, and the head that bytes read over it make.
unfoldable pub head_bytes : BinFilehead → List ℕ
head_bytes h = uc h.headcrc 0 ∷ uc h.headcrc 1 ∷ checked_part h.datacrc h.magic h.len

unfoldable pub head_of_bytes : List ℕ → BinFilehead
head_of_bytes bytes = record {
  headcrc = make_short bytes;
  datacrc = make_short (drop 2 bytes);
  magic = make_long (drop 4 bytes);
  len = make_long (drop 8 bytes);
}

-- `SaveBinFile`: the result and the file afterwards. The old file is removed before the new one is
-- opened.
unfoldable pub save_bin_file : Os → Option (List ℕ) → ℕ → List ℕ → ℕ → ℕ × Option (List ℕ)
save_bin_file os file magic buffer len =
    if not_positive len || ltb max_filelen len
    then (1, file)
    else let datacrc = calculate_crc (take len buffer) in
      let headcrc = calculate_crc (checked_part datacrc magic len) in
      let head : BinFilehead = record {
        headcrc = headcrc;
        datacrc = datacrc;
        magic = magic;
        len = len;
      } in
      if not os.opens then (1, none) else (0, some (head_bytes head ++ take len buffer))

-- Bytes written from the start of a buffer on.
abbrev pub overwrite : List ℕ → List ℕ → List ℕ
overwrite bytes buffer = bytes ++ drop (length bytes) buffer

-- `fread(buffer, size, 1, pf)`: whether there were `size` bytes, the buffer and the stream afterwards.
abbrev pub fread : ℕ → List ℕ → List ℕ → Bool × (List ℕ × List ℕ)
fread size buffer stream =
    (leb size (length stream), (overwrite (take size stream) buffer, drop size stream))

-- The head and the stream after it, if the tests on the head pass; `limit` is the largest length.
unfoldable pub read_head : ℕ → ℕ → List ℕ → Option (BinFilehead × List ℕ)
read_head limit magic stream =
    let head = head_of_bytes (take 12 stream) in
    if not (leb 12 (length stream))
    then none
    else if not (head.magic == magic)
    then none
    else if not_positive head.len || ltb limit head.len
    then none
    else if not (head.headcrc == calculate_crc (checked_part head.datacrc head.magic head.len))
    then none
    else some (head, drop 12 stream)

-- The loop over blocks, on fuel: the checksum and the memory cache afterwards.
unfoldable pub block_loop : ℕ → ℕ → ℕ → List ℕ → List ℕ → ℕ → Option (ℕ × List ℕ)
block_loop zero memlen filelen stream memcache crc =
    if filelen == 0 then some (crc, memcache) else none
block_loop (suc fuel) memlen filelen stream memcache crc =
    let (got, (memcache', stream')) = fread memlen memcache stream in
    let left = filelen - memlen in
    let memlen' = if ltb 0 left && ltb left memlen then left else memlen in
    let crc' = calculate_crc_step (take memlen memcache') crc in
    let more = block_loop fuel memlen' left stream' memcache' crc' in
    if filelen == 0 then some (crc, memcache) else if got then more else none

-- The end of `ReadBinFile`: the result and the buffer. `stream` starts behind the head.
unfoldable pub deliver : BinFilehead → List ℕ → List ℕ → List ℕ → ℕ → ℤ × List ℕ
deliver head stream memcache buffer len =
    let len = if ltb head.len len then head.len else len in
    let (got, (buffer', _)) = fread len buffer stream in
    if ltb max_memlen head.len
    then (if got then (pos len, buffer') else (negsuc 0, buffer'))
    else (pos len, overwrite (take len memcache) buffer)

-- `ReadBinFile` after the loop, and from the answer of `malloc` on. A block takes a byte at least, so
-- `head.len` rounds do.
unfoldable pub check_data : Option (ℕ × List ℕ) → BinFilehead → List ℕ → List ℕ → ℕ → ℤ × List ℕ
check_data none head stream buffer len = (negsuc 0, buffer)
check_data (some (crc, memcache)) head stream buffer len =
    if not (head.datacrc == crc)
    then (negsuc 0, buffer)
    else deliver head stream memcache buffer len

unfoldable pub read_blocks : Option (List ℕ) → ℕ → BinFilehead → List ℕ → List ℕ → ℕ → ℤ × List ℕ
read_blocks none memlen head stream buffer len = (negsuc 0, buffer)
read_blocks (some memcache) memlen head stream buffer len =
    check_data (block_loop head.len memlen head.len stream memcache 0) head stream buffer len

-- `ReadBinFile` once the head is good.
unfoldable pub read_data : Os → BinFilehead → List ℕ → List ℕ → ℕ → ℤ × List ℕ
unfolding read_blocks
read_data os head stream buffer len =
    let memlen = if ltb max_memlen head.len then max_memlen else head.len in
    read_blocks (os.malloc memlen) memlen head stream buffer len

unfoldable pub data_after_head : Os → Option (BinFilehead × List ℕ) → List ℕ → ℕ → ℤ × List ℕ
data_after_head os none buffer len = (negsuc 0, buffer)
data_after_head os (some (head, stream)) buffer len = read_data os head stream buffer len

-- `ReadBinFile`: the result, -1 for an error, and the buffer.
unfoldable pub read_bin_file : Os → Option (List ℕ) → ℕ → List ℕ → ℕ → ℤ × List ℕ
unfolding data_after_head
read_bin_file os none magic buffer len = (negsuc 0, buffer)
read_bin_file os (some bytes) magic buffer len =
    if not_positive len || ltb max_filelen len
    then (negsuc 0, buffer)
    else data_after_head os (read_head max_filelen magic bytes) buffer len

-- `ReadBinFileCache` once the head is good.
unfoldable pub read_cache : BinFilehead → List ℕ → List ℕ → ℕ → ℤ × List ℕ
read_cache head stream buffer len =
    let (got, (buffer', _)) = fread head.len buffer stream in
    if not got
    then (negsuc 0, buffer')
    else if not (head.datacrc == calculate_crc (take head.len buffer'))
    then (negsuc 0, buffer')
    else (pos (if ltb head.len len then head.len else len), buffer')

unfoldable pub cache_after_head : Option (BinFilehead × List ℕ) → List ℕ → ℕ → ℤ × List ℕ
cache_after_head none buffer len = (negsuc 0, buffer)
cache_after_head (some (head, stream)) buffer len = read_cache head stream buffer len

-- `ReadBinFileCache`: the result, -1 for an error, and the buffer.
unfoldable pub read_bin_file_cache : Option (List ℕ) → ℕ → List ℕ → ℕ → ℤ × List ℕ
unfolding cache_after_head
read_bin_file_cache none magic buffer len = (negsuc 0, buffer)
read_bin_file_cache (some bytes) magic buffer len =
    if not_positive len || ltb max_filelen len
    then (negsuc 0, buffer)
    else cache_after_head (read_head len magic bytes) buffer len
