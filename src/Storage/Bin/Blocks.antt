-- ===== src/Storage/Bin/Blocks.antt =====
-- The loop over blocks takes the checksum of the data as one buffer, and stops.
use smart_home_xiugai.Prelude.{
  ℕ, zero, suc, ◌+◌, ◌-◌, ◌≡◌, ◌≤◌, ◌<◌, refl, List, [], ◌∷◌, ◌++◌, take, drop, length, some, true,
  false, ◌&&◌, ltb, leb, ◌==◌, if◌then◌else◌, arith, ap, ◌∙◌, sym, inl, inr, length-take,
  length-drop, take-append_left, take-length, ◌⊎◌,
}
use smart_home_xiugai.Crc.{crc_loop}
use smart_home_xiugai.Crc.Message.{calculate_crc_step-loop, crc_loop-append}
use smart_home_xiugai.Storage.Bin.{block_loop, overwrite}

take_nil : (n : ℕ) → take {A = ℕ} n [] ≡ []
take_nil zero = refl
take_nil (suc n) = refl

take_split : (n k m : ℕ) (xs : List ℕ) → n + k ≡ m → take n xs ++ take k (drop n xs) ≡ take m xs
take_split zero k m xs h = ap (λ (t : ℕ). take t xs) (omega arith)
take_split (suc n) k zero xs h = absurd (omega arith)
take_split (suc n) k (suc m) [] h = take_nil k
take_split (suc n) k (suc m) (x ∷ xs) h = ap (◌∷◌ x) (take_split n k m xs (omega arith))

-- The part of the cache that a successful `fread` has filled.
pub take-overwrite :
    (n : ℕ) (stream cache : List ℕ)
    → n ≤ length stream
    → take n (overwrite (take n stream) cache) ≡ take n stream
take-overwrite n stream cache h =
    let full : length (take n stream) ≡ n = omega (arith, length-take n stream) in
    take-append_left (take n stream) _ n (omega arith)
    ∙ ap (λ (k : ℕ). take k (take n stream)) (sym full)
    ∙ take-length (take n stream)

block_loop_done :
    (fuel memlen : ℕ) (stream cache : List ℕ) (crc : ℕ)
    → block_loop fuel memlen 0 stream cache crc ≡ some (crc, cache)
unfolding block_loop
block_loop_done zero memlen stream cache crc = refl
block_loop_done (suc fuel) memlen stream cache crc = refl

next_memlen : ℕ → ℕ → ℕ
next_memlen left memlen = if ltb 0 left && ltb left memlen then left else memlen

-- One round.
block_loop_more :
    (fuel memlen filelen : ℕ) (stream cache : List ℕ) (crc : ℕ)
    → 0 < filelen
    → memlen ≤ length stream
    → block_loop (suc fuel) memlen filelen stream cache crc
      ≡ block_loop fuel
          (next_memlen (filelen - memlen) memlen)
          (filelen - memlen)
          (drop memlen stream)
          (overwrite (take memlen stream) cache)
          (crc_loop (take memlen stream) crc)
unfolding block_loop next_memlen
block_loop_more fuel memlen filelen stream cache crc positive h =
    let running : (filelen == 0) ≡ false = ground arith in
    let got : leb memlen (length stream) ≡ true = ground arith in
    rw
      (
        running,
        got,
        take-overwrite memlen stream cache h,
        calculate_crc_step-loop (take memlen stream) crc,
      )
      refl

-- The loop over a stream that is long enough ends with the checksum of `filelen` bytes.
pub block_loop-crc :
    (fuel memlen filelen : ℕ) (stream cache : List ℕ) (crc : ℕ)
    → filelen ≤ fuel
    → 0 < memlen
    → (filelen ≡ 0) ⊎ (memlen ≤ filelen)
    → filelen ≤ length stream
    → (cache' : List ℕ) × (block_loop fuel memlen filelen stream cache crc
        ≡ some (crc_loop (take filelen stream) crc, cache'))
unfolding crc_loop next_memlen
block_loop-crc fuel memlen zero stream cache crc f p fits h =
    (cache, block_loop_done fuel memlen stream cache crc)
block_loop-crc zero memlen (suc n) stream cache crc f p fits h = elim f [ ]
block_loop-crc (suc fuel) memlen filelen stream cache crc f p (inl done) h = absurd (omega arith)
block_loop-crc (suc fuel) memlen filelen stream cache crc f p (inr fits) h =
    let next : ℕ = next_memlen (filelen - memlen) memlen in
    let (cache', e) =
      block_loop-crc fuel next (filelen - memlen) (drop memlen stream)
        (overwrite (take memlen stream) cache) (crc_loop (take memlen stream) crc) (omega arith)
        (ground arith) (ground arith) (omega (arith, length-drop memlen stream)) in
    (
      cache',
      block_loop_more fuel memlen filelen stream cache crc (omega arith) (omega arith)
          ∙ e
          ∙ ap (λ (c : ℕ). some (c, cache'))
              (sym (crc_loop-append (take memlen stream) _ crc)
                ∙ ap (λ (bs : List ℕ). crc_loop bs crc)
                    (take_split memlen (filelen - memlen) filelen stream (omega arith))),
    )

-- Where the data fit in one block, the cache then holds them.
pub block_loop_single :
    (fuel n : ℕ) (stream cache : List ℕ) (crc : ℕ)
    → n ≤ fuel
    → 0 < n
    → n ≤ length stream
    → block_loop fuel n n stream cache crc
      ≡ some (crc_loop (take n stream) crc, overwrite (take n stream) cache)
block_loop_single zero n stream cache crc f p h = absurd (omega arith)
block_loop_single (suc fuel) n stream cache crc f p h =
    block_loop_more fuel n n stream cache crc p h
    ∙ ap
        (λ (left : ℕ).
          block_loop fuel (next_memlen left n) left (drop n stream)
            (overwrite (take n stream) cache) (crc_loop (take n stream) crc))
        {y = 0} (omega arith)
    ∙ block_loop_done fuel _ _ _ _
