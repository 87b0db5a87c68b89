-- ===== src/Storage/Bin/RoundTrip.antt =====
-- What is saved is read back.
use smart_home_xiugai.Prelude.{
  ℕ, ◌≡◌, ◌≤◌, ◌<◌, refl, List, ◌++◌, take, length, Option, some, true, ltb, leb, ◌==◌,
  if◌then◌else◌, arith, ap, ◌∙◌, sym, Bool-cases, inl, inr, take-take, min,
}
use smart_home_xiugai.Prelude.Int.{pos, negsuc}
use smart_home_xiugai.Crc.{calculate_crc, crc_loop}
use smart_home_xiugai.Storage.Bin.{
  Os, BinFilehead, save_bin_file, read_data, deliver, check_data, read_cache, head_bytes, overwrite,
  max_filelen, max_memlen,
}
use smart_home_xiugai.Storage.Bin.Laws.{saved_head}
use smart_home_xiugai.Storage.Bin.Blocks.{block_loop-crc, block_loop_single, take-overwrite}

-- The file that a save leaves.
pub save_bin_file_lem :
    (os : Os) (file : Option (List ℕ)) (magic : ℕ) (buffer : List ℕ) (len : ℕ)
    → os.opens ≡ true
    → 0 < len
    → len ≤ max_filelen
    → save_bin_file os file magic buffer len ≡ (
      0,
      some (head_bytes (saved_head (calculate_crc (take len buffer)) magic len) ++ take len buffer),
    )
unfolding save_bin_file
save_bin_file_lem os file magic buffer len opened positive bounded = rw opened (ground arith)

-- The end of a read whose cache holds the data, if they fit in it.
deliver_lem :
    (h : BinFilehead) (stream cache buffer : List ℕ) (len : ℕ)
    → h.len ≤ length stream
    → (h.len ≤ max_memlen → take h.len cache ≡ take h.len stream)
    → deliver h stream cache buffer len
      ≡ (pos (min h.len len), overwrite (take (min h.len len) stream) buffer)
unfolding deliver
deliver_lem h stream cache buffer len enough small =
    let shorter : (if ltb h.len len then h.len else len) ≡ min h.len len = ground arith in
    let got : leb (min h.len len) (length stream) ≡ true = ground arith in
    elim (Bool-cases (ltb max_memlen h.len)) [
      | inl large ↦ rw (shorter, large, got) refl
      | inr fits ↦
          let same : take (min h.len len) cache ≡ take (min h.len len) stream =
            sym (take-take (min h.len len) h.len cache (omega arith))
            ∙ ap (take (min h.len len)) (small (ground arith))
            ∙ take-take (min h.len len) h.len stream (omega arith) in
          rw (shorter, fits, same) refl
    ]

-- What `malloc` has to give.
abbrev pub HasMemory : Os → Type 0
HasMemory os = (n : ℕ) → n ≤ max_memlen → (memory : List ℕ) × (os.malloc n ≡ some memory)

check_data_lem :
    (h : BinFilehead) (crc : ℕ) (cache stream buffer : List ℕ) (len : ℕ)
    → h.len ≤ length stream
    → (h.len ≤ max_memlen → take h.len cache ≡ take h.len stream)
    → check_data (some (crc, cache)) h stream buffer len ≡ (
        if h.datacrc == crc
        then (pos (min h.len len), overwrite (take (min h.len len) stream) buffer)
        else (negsuc 0, buffer))
unfolding check_data
check_data_lem h crc cache stream buffer len enough small =
    rw (deliver_lem h stream cache buffer len enough small) (ground arith)

-- The blocks of a good head's data, read and checked.
pub read_data_lem :
    (os : Os) (h : BinFilehead) (stream buffer : List ℕ) (len : ℕ)
    → HasMemory os
    → 0 < h.len
    → h.len ≤ length stream
    → read_data os h stream buffer len ≡ (
        if h.datacrc == crc_loop (take h.len stream) 0
        then (pos (min h.len len), overwrite (take (min h.len len) stream) buffer)
        else (negsuc 0, buffer))
unfolding read_data
read_data_lem os h stream buffer len memory positive enough =
    elim (Bool-cases (ltb max_memlen h.len)) [
      | inl large ↦
          let (cache, e) = memory max_memlen (omega arith) in
          let (cache', f) =
            block_loop-crc h.len max_memlen h.len stream cache 0 (omega arith) (omega arith)
              (inr (ground arith)) enough in
          rw (large, e, f)
            (check_data_lem h _ cache' stream buffer len enough (λ fits. absurd (ground arith)))
      | inr fits ↦
          let (cache, e) = memory h.len (ground arith) in
          let f = block_loop_single h.len h.len stream cache 0 (omega arith) positive enough in
          rw (fits, e, f)
            (check_data_lem h _ (overwrite (take h.len stream) cache) stream buffer len enough
              (λ _. take-overwrite h.len stream cache enough))
    ]

pub read_cache_lem :
    (h : BinFilehead) (stream buffer : List ℕ) (len : ℕ)
    → h.len ≤ length stream
    → h.len ≤ len
    → read_cache h stream buffer len ≡ (
        if h.datacrc == calculate_crc (take h.len stream)
        then (pos h.len, overwrite (take h.len stream) buffer)
        else (negsuc 0, overwrite (take h.len stream) buffer))
unfolding read_cache
read_cache_lem h stream buffer len enough room =
    let got : leb h.len (length stream) ≡ true = ground arith in
    let shorter : (if ltb h.len len then h.len else len) ≡ h.len = ground arith in
    rw (got, shorter, take-overwrite h.len stream buffer enough) (ground arith)
