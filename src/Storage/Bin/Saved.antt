-- ===== src/Storage/Bin/Saved.antt =====
-- Saving and then reading, also with another magic number and after a byte has changed.
use smart_home_xiugai.Prelude.{
  ℕ, ◌^◌, ◌≡◌, ◌≢◌, ◌≤◌, ◌<◌, refl, List, ◌∷◌, ◌++◌, take, length, Option, some, true, false, ltb,
  ◌==◌, not_positive, ◌||◌, if◌then◌else◌, arith, ap, ◌∙◌, sym, IsByte, IsBytes, length-take,
  length-append, ==_iff, take-length, take-take, min,
}
use smart_home_xiugai.Prelude.Int.{ℤ, pos, negsuc}
use smart_home_xiugai.Crc.{calculate_crc}
use smart_home_xiugai.Crc.Message.{calculate_crc-lt, calculate_crc-loop}
use smart_home_xiugai.Crc.Detect.{calculate_crc_detects}
use smart_home_xiugai.Storage.Bin.{
  Os, save_bin_file, read_bin_file, read_bin_file_cache, head_bytes, overwrite, max_filelen,
}
use smart_home_xiugai.Storage.Bin.Laws.{saved_head, read_head_saved, read_head_other}
use smart_home_xiugai.Storage.Bin.RoundTrip.{
  HasMemory, save_bin_file_lem, read_data_lem, read_cache_lem,
}

ne→==false : (a b : ℕ) → a ≢ b → (a == b) ≡ false
ne→==false a b h = ground arith

abbrev stored : ℕ → ℕ → ℕ → List ℕ → List ℕ
stored c magic n stream = head_bytes (saved_head c magic n) ++ stream

-- A file with a good head for the checksum `c`, and at least `n` bytes of data behind it.
module _ (c magic n len : ℕ) (stream buffer : List ℕ) (fits : c < 2 ^ 16) (word : magic < 2 ^ 32)
    (positive : 0 < n) (bounded : n ≤ max_filelen) (enough : n ≤ length stream) (asked : 0 < len)
    (short : len ≤ max_filelen) where
  valid : (not_positive len || ltb max_filelen len) ≡ false
  valid = ground arith

  read_stored :
      (os : Os)
      → HasMemory os
      → read_bin_file os (some (stored c magic n stream)) magic buffer len ≡ (
          if c == calculate_crc (take n stream)
          then (pos (min n len), overwrite (take (min n len) stream) buffer)
          else (negsuc 0, buffer))
  unfolding read_bin_file
  read_stored os memory =
      rw
        (
          valid,
          read_head_saved max_filelen c magic n stream fits word positive bounded bounded,
          calculate_crc-loop (take n stream),
        )
        (read_data_lem os (saved_head c magic n) stream buffer len memory positive enough)

  cache_stored :
      n ≤ len
      → read_bin_file_cache (some (stored c magic n stream)) magic buffer len ≡ (
          if c == calculate_crc (take n stream)
          then (pos n, overwrite (take n stream) buffer)
          else (negsuc 0, overwrite (take n stream) buffer))
  unfolding read_bin_file_cache
  cache_stored room =
      rw (valid, read_head_saved len c magic n stream fits word positive room bounded)
        (read_cache_lem (saved_head c magic n) stream buffer len enough room)

  read_other :
      (os : Os) (other : ℕ)
      → other ≢ magic
      → (read_bin_file os (some (stored c magic n stream)) other buffer len ≡ (negsuc 0, buffer))
        × (read_bin_file_cache (some (stored c magic n stream)) other buffer len
            ≡ (negsuc 0, buffer))
  unfolding read_bin_file read_bin_file_cache
  read_other os other differs = (
    rw (valid, read_head_other max_filelen other c magic n stream fits word (omega arith) differs)
        refl,
    rw (valid, read_head_other len other c magic n stream fits word (omega arith) differs) refl,
  )

-- What `SaveBinFile` has stored of `n` bytes, `ReadBinFile` gives back: it returns the smaller of `n`
-- and the length asked for, has put that many of the bytes at the start of the buffer and has left the
-- rest of the buffer alone. `ReadBinFileCache` gives back all `n` bytes if at least these are asked
-- for. With another magic number both return -1 and leave the buffer alone. Conditions: the file can
-- be opened, `malloc` gives blocks of up to 64 KB, the lengths are from 1 to 4 MB, the data has `n`
-- bytes, and the magic number is a 32-bit word.
pub read_bin_file-save_bin_file :
    (os : Os) (file : Option (List ℕ)) (magic other : ℕ) (bytes buffer : List ℕ) (n len wide : ℕ)
    → os.opens ≡ true
    → HasMemory os
    → magic < 2 ^ 32
    → other ≢ magic
    → 0 < n
    → n ≤ length bytes
    → 0 < len
    → len ≤ max_filelen
    → n ≤ wide
    → wide ≤ max_filelen
    → let saved = (save_bin_file os file magic bytes n).1 in
      (read_bin_file os saved magic buffer len
        ≡ (pos (min n len), overwrite (take (min n len) bytes) buffer))
      × (read_bin_file_cache saved magic buffer wide ≡ (pos n, overwrite (take n bytes) buffer))
      × (read_bin_file os saved other buffer len ≡ (negsuc 0, buffer))
      × (read_bin_file_cache saved other buffer len ≡ (negsuc 0, buffer))
read_bin_file-save_bin_file os file magic other bytes buffer n len wide o mem w differs p e a s room
      t =
    let c : ℕ = calculate_crc (take n bytes) in
    let crc : c < 2 ^ 16 = calculate_crc-lt (take n bytes) in
    let held : n ≤ length (take n bytes) = omega (arith, length-take n bytes) in
    let short : take (min n len) (take n bytes) ≡ take (min n len) bytes =
      take-take (min n len) n bytes (omega arith) in
    let all : take n (take n bytes) ≡ take n bytes = take-take n n bytes (omega arith) in
    let good : (c == calculate_crc (take n (take n bytes))) ≡ true =
      (==_iff _ _).1 (ap calculate_crc (sym all)) in
    let (no_read, no_cache) =
      read_other c magic n len (take n bytes) buffer crc w p (omega arith) held a s os other
        differs in
    rw (save_bin_file_lem os file magic bytes n o p (omega arith)) (
      read_stored c magic n len (take n bytes) buffer crc w p (omega arith) held a s os mem
          ∙ rw (good, short) refl,
      cache_stored c magic n wide (take n bytes) buffer crc w p (omega arith) held (omega arith) t
            room
          ∙ rw (good, all) refl,
      no_read,
      no_cache,
    )

-- If one byte of the stored data is changed, both readers return -1, and `ReadBinFile` leaves the
-- buffer alone: the file that `SaveBinFile` leaves is a front of some bytes and the data, and with a
-- byte `b` of the data replaced by a different byte `b'` behind the same front it is not read.
-- Conditions: the file can be opened, `malloc` gives blocks of up to 64 KB, all of the data and at most
-- 4 MB are asked for, the magic number is a 32-bit word, and the changed byte and those behind it are
-- bytes, before and after the change.
pub read_bin_file_corrupted :
    (os : Os) (file : Option (List ℕ)) (magic : ℕ) (before after buffer : List ℕ) (b b' len : ℕ)
    → os.opens ≡ true
    → HasMemory os
    → magic < 2 ^ 32
    → IsBytes after
    → IsByte b
    → IsByte b'
    → b ≢ b'
    → length (before ++ b ∷ after) ≤ len
    → len ≤ max_filelen
    → (front : List ℕ) × ((save_bin_file os file magic
          (before ++ b ∷ after)
          (length (before ++ b ∷ after))).1
        ≡ some (front ++ (before ++ b ∷ after)))
      × (read_bin_file os (some (front ++ (before ++ b' ∷ after))) magic buffer len
          ≡ (negsuc 0, buffer))
      × ((read_bin_file_cache (some (front ++ (before ++ b' ∷ after))) magic buffer len).0
          ≡ negsuc 0)
read_bin_file_corrupted os file magic before after buffer b b' len o mem w bytes p p' differs room
      s =
    let good : List ℕ = before ++ b ∷ after in
    let bad : List ℕ = before ++ b' ∷ after in
    let n : ℕ = length good in
    let c : ℕ = calculate_crc good in
    let crc : c < 2 ^ 16 = calculate_crc-lt good in
    let positive : 0 < n = omega (arith, length-append before (b ∷ after)) in
    let held : n ≡ length bad =
      length-append before (b ∷ after) ∙ sym (length-append before (b' ∷ after)) in
    let all : take n bad ≡ bad = ap (λ (k : ℕ). take k bad) held ∙ take-length bad in
    let wrong : (c == calculate_crc (take n bad)) ≡ false = ne→==false c _ (λ e.
      differs (calculate_crc_detects before after b b' bytes p p' (e ∙ ap calculate_crc all))) in
    (
      head_bytes (saved_head c magic n),
      rw (save_bin_file_lem os file magic good n o positive (omega arith))
          (rw (take-length good) refl),
      read_stored c magic n len bad buffer crc w positive (omega arith) (omega arith) (omega arith)
            s os mem
          ∙ rw wrong refl,
      ap (λ (r : ℤ × List ℕ). r.0) {y = (negsuc 0, overwrite (take n bad) buffer)}
          (cache_stored c magic n len bad buffer crc w positive (omega arith) (omega arith)
              (omega arith) s room
            ∙ rw wrong refl),
    )
