-- ===== src/Tests/Files.antt =====
-- A file of three bytes, saved, read and changed.
use smart_home_xiugai.Prelude.{
  ℕ, ◌≡◌, refl, List, [], ◌∷◌, ◌++◌, none, some, true, arith, replicate,
}
use smart_home_xiugai.Prelude.Int.{pos, negsuc}
use smart_home_xiugai.Storage.Bin.{Os, save_bin_file, read_bin_file, read_bin_file_cache}
use smart_home_xiugai.Storage.Bin.RoundTrip.{HasMemory}
use smart_home_xiugai.Storage.Bin.Saved.{read_bin_file-save_bin_file, read_bin_file_corrupted}

abbrev os : Os
os = record { opens = true; malloc = λ n. some (replicate n 0) }

os-HasMemory : HasMemory os
os-HasMemory n small = (replicate n 0, refl)

read_bin_file-save_bin_file_example :
    let saved = (save_bin_file os none 7 (1 ∷ 2 ∷ 3 ∷ []) 3).1 in
    (read_bin_file os saved 7 (9 ∷ 9 ∷ 9 ∷ []) 2 ≡ (pos 2, 1 ∷ 2 ∷ 9 ∷ []))
    × (read_bin_file_cache saved 7 (9 ∷ 9 ∷ 9 ∷ []) 4 ≡ (pos 3, 1 ∷ 2 ∷ 3 ∷ []))
    × (read_bin_file os saved 8 (9 ∷ 9 ∷ 9 ∷ []) 2 ≡ (negsuc 0, 9 ∷ 9 ∷ 9 ∷ []))
    × (read_bin_file_cache saved 8 (9 ∷ 9 ∷ 9 ∷ []) 2 ≡ (negsuc 0, 9 ∷ 9 ∷ 9 ∷ []))
read_bin_file-save_bin_file_example =
    read_bin_file-save_bin_file os none 7 8 (1 ∷ 2 ∷ 3 ∷ []) (9 ∷ 9 ∷ 9 ∷ []) 3 2 4 refl
      os-HasMemory (omega arith) (omega arith) (omega arith) (omega arith) (omega arith)
      (omega arith) (omega arith) (omega arith)

read_bin_file_corrupted_example :
    (front : List ℕ) × ((save_bin_file os none 7 (1 ∷ 2 ∷ 3 ∷ []) 3).1
      ≡ some (front ++ (1 ∷ 2 ∷ 3 ∷ [])))
    × (read_bin_file os (some (front ++ (1 ∷ 6 ∷ 3 ∷ []))) 7 (9 ∷ 9 ∷ 9 ∷ []) 3
        ≡ (negsuc 0, 9 ∷ 9 ∷ 9 ∷ []))
    × ((read_bin_file_cache (some (front ++ (1 ∷ 6 ∷ 3 ∷ []))) 7 (9 ∷ 9 ∷ 9 ∷ []) 3).0 ≡ negsuc 0)
read_bin_file_corrupted_example =
    read_bin_file_corrupted os none 7 (1 ∷ []) (3 ∷ []) (9 ∷ 9 ∷ 9 ∷ []) 2 6 3 refl os-HasMemory
      (omega arith) (omega arith, tt) (omega arith) (omega arith) (omega arith) (omega arith)
      (omega arith)
