-- ===== src/Storage/Xin/Loaded.antt =====
-- What was written is read back, in the order of writing and in any other.
use smart_home_xiugai.Prelude.{
  ℕ, ◌+◌, ◌^◌, ◌<◌, ◌≤◌, List, [], ◌∷◌, ◌++◌, length, set, take, drop, some, true, false, ◌||◌, ltb,
  leb, ◌==◌, ◌≡◌, refl, sym, ap, ◌∙◌, arith, length-append, length-drop, take-append_left,
  take-length, set-append,
}
use mathlib.Core.List.{append_assoc}
use smart_home_xiugai.Crc.{calculate_crc}
use smart_home_xiugai.Crc.Message.{calculate_crc-lt}
use smart_home_xiugai.Bytes.{make_short, make_long}
use smart_home_xiugai.Storage.Xin.{
  Xin, opened, xin_magic, xin_maxsize, xin_maxfilename, xin_head, xin_open_body, xin_open_read,
  xin_open,
}
use smart_home_xiugai.Storage.Xin.Lines.{Var, text}
use smart_home_xiugai.Storage.Xin.Saved.{file_of}

-- The reference is open for reading and its buffer holds the lines.
pub record Shows (vars : List Var) (x : Xin) : Type 0 where
  pub flag : x.openflag ≡ b'r'
  pub memory : List ℕ
  pub bytes : x.buffer ≡ text vars ++ 0 ∷ 0 ∷ memory

head_magic :
    (len crc : ℕ) (rest : List ℕ) → make_long (take 8 (xin_head len crc ++ rest)) ≡ xin_magic
unfolding xin_head make_long
head_magic len crc rest = refl

head_len :
    (len crc : ℕ) (rest : List ℕ)
    → len < 2 ^ 16
    → make_short (drop 4 (take 8 (xin_head len crc ++ rest))) ≡ len
unfolding xin_head make_short
head_len len crc rest h = omega arith

head_crc :
    (len crc : ℕ) (rest : List ℕ)
    → crc < 2 ^ 16
    → make_short (drop 6 (take 8 (xin_head len crc ++ rest))) ≡ crc
unfolding xin_head make_short
head_crc len crc rest h = omega arith

head_drop : (len crc : ℕ) (rest : List ℕ) → drop 8 (xin_head len crc ++ rest) ≡ rest
unfolding xin_head
head_drop len crc rest = refl

head_long : (len crc : ℕ) (rest : List ℕ) → leb 8 (length (xin_head len crc ++ rest)) ≡ true
unfolding xin_head
head_long len crc rest = ground arith

two_zeros :
    (bytes rest : List ℕ) (i : ℕ)
    → length bytes ≡ i
    → 2 ≤ length rest
    → set (set (bytes ++ rest) i 0) (i + 1) 0 ≡ bytes ++ 0 ∷ 0 ∷ drop 2 rest
two_zeros bytes [] i e h = elim h [ ]
two_zeros bytes (a ∷ []) i e h = absurd (omega arith)
two_zeros bytes (a ∷ b ∷ rest) i e h =
    let second : length (bytes ++ 0 ∷ []) ≡ i + 1 = omega (arith, length-append bytes (0 ∷ [])) in
    ap (λ (l : List ℕ). set l (i + 1) 0)
      (ap (λ (k : ℕ). set (bytes ++ a ∷ b ∷ rest) k 0) (sym e)
        ∙ set-append bytes a 0 (b ∷ rest)
        ∙ sym (append_assoc bytes (0 ∷ []) (b ∷ rest)))
    ∙ ap (λ (k : ℕ). set ((bytes ++ 0 ∷ []) ++ b ∷ rest) k 0) (sym second)
    ∙ set-append (bytes ++ 0 ∷ []) b 0 rest
    ∙ append_assoc bytes (0 ∷ []) (0 ∷ rest)

xin_open_body-good :
    (stream : List ℕ) (x : Xin)
    → x.len ≡ length stream
    → length stream + 2 ≤ length x.buffer
    → xin_open_body (calculate_crc stream) stream x
      ≡ opened (record x {
        buffer = stream ++ 0 ∷ 0 ∷ drop 2 (drop (length stream) x.buffer);
        pscan = 0;
      })
unfolding xin_open_body
xin_open_body-good stream x e room =
    let got : leb x.len (length stream) ≡ true = ground (arith, e) in
    let all : take x.len stream ≡ stream = ap (λ (k : ℕ). take k stream) e ∙ take-length stream in
    let again : take x.len (stream ++ drop (length stream) x.buffer) ≡ stream =
      ap (λ (k : ℕ). take k (stream ++ drop (length stream) x.buffer)) e
      ∙ take-append_left stream _ (length stream) (omega arith)
      ∙ take-length stream in
    let same : (calculate_crc stream == calculate_crc stream) ≡ true = ground arith in
    let ends : set (set (stream ++ drop (length stream) x.buffer) x.len 0) (x.len + 1) 0
        ≡ stream ++ 0 ∷ 0 ∷ drop 2 (drop (length stream) x.buffer) =
      two_zeros stream (drop (length stream) x.buffer) x.len (sym e)
        (omega (arith, length-drop (length stream) x.buffer)) in
    rw (got, all, again, same, ends) refl

pub xin_open-r :
    (filename : List ℕ) (vars : List Var) (y : Xin)
    → length filename < xin_maxfilename
    → y.locked ≡ false
    → 0 < length (text vars)
    → length (text vars) ≤ xin_maxsize
    → length y.buffer ≡ xin_maxsize + 128
    → xin_open filename b'r' (some (file_of vars)) y
      ≡ opened (record {
        len = length (text vars);
        openflag = b'r';
        buffer = text vars ++ 0 ∷ 0 ∷ drop 2 (drop (length (text vars)) y.buffer);
        pscan = 0;
        locked = true;
      })
unfolding xin_open xin_open_read
xin_open-r filename vars y short free some_text fits room =
    let bytes : List ℕ = text vars in
    let len : ℕ = length bytes in
    let crc : ℕ = calculate_crc bytes in
    let below : leb xin_maxfilename (length filename) ≡ false = ground arith in
    let good : (len == 0 || ltb xin_maxsize len) ≡ false = ground arith in
    let magic : (xin_magic == xin_magic) ≡ true = refl in
    let start : Xin = record y { openflag = b'r'; pscan = 0; locked = true; len = len } in
    rw (below, free)
      (rw
        (
          head_magic len crc bytes,
          head_len len crc bytes (omega arith),
          head_crc len crc bytes (calculate_crc-lt bytes),
          head_drop len crc bytes,
          head_long len crc bytes,
        )
        (rw (good, xin_open_body-good bytes start refl (omega (arith, room))) refl))
