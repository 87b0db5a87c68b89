-- ===== src/Storage/Xin/Write.antt =====
-- Writing: each operation appends one line to the text in the buffer.
use smart_home_xiugai.Prelude.{
  ℕ, suc, ◌+◌, ◌/◌, ◌%◌, ◌^◌, ◌<◌, ◌≤◌, List, [], ◌∷◌, ◌++◌, length, take, drop, Option, some, Bool,
  true, false, ltb, leb, ◌==◌, ◌≡◌, refl, sym, ap, ◌∙◌, arith, IsBytes, length-append, length-drop,
  take-append_left, take-length,
}
use mathlib.Core.List.{append_assoc, append-nil}
use native.Mathlib.Nat.{add-zero}
use smart_home_xiugai.Base64.{before_zero}
use smart_home_xiugai.Storage.Xin.{
  Xin, xin_maxsize, sprintf_at, add_text, digit, int_text, xin_write_int, xin_write_string,
  write_bytes, xin_write_hex,
}
use smart_home_xiugai.Storage.Xin.Lines.{
  Var, IsText, IsName, text, size, drop_add, drop-append, before_zero_line, length-line,
}
use smart_home_xiugai.Storage.Xin.Numbers.{int_text-IsText}
use smart_home_xiugai.Storage.Xin.Find.{text-append, length-text}

-- The values that the operations write, and their texts.
pub data Value : Type 0 where
  str : List ℕ → Value
  int : ℕ → Bool → Value
  hex : List ℕ → Value

abbrev pub hex_text : List ℕ → List ℕ
hex_text [] = []
hex_text (b ∷ bytes) = digit (b / 16) ∷ digit (b % 16) ∷ hex_text bytes

abbrev pub value_text : Value → List ℕ
value_text (str s) = s
value_text (int n h) = int_text n h
value_text (hex bytes) = hex_text bytes

abbrev pub write_value : Xin → List ℕ → Value → Option (ℕ × Xin)
write_value x name (str s) = xin_write_string x name s
write_value x name (int n h) = xin_write_int x name n h
write_value x name (hex bytes) = xin_write_hex x name bytes

-- The reference is open for writing and its buffer holds the lines.
pub record Holds (vars : List Var) (x : Xin) : Type 0 where
  pub flag : x.openflag ≡ b'w'
  pub len_is : x.len ≡ length (text vars)
  pub pscan_is : x.pscan ≡ length (text vars)
  pub memory : List ℕ
  pub bytes : x.buffer ≡ text vars ++ memory
  pub room : length x.buffer ≡ xin_maxsize + 128

drop-append_add : (xs ys : List ℕ) (n : ℕ) → drop (length xs + n) (xs ++ ys) ≡ drop n ys
drop-append_add xs ys n = drop_add (length xs) n (xs ++ ys) ∙ ap (drop n) (drop-append xs ys)

take-append : (xs ys : List ℕ) → take (length xs) (xs ++ ys) ≡ xs
take-append xs ys = take-append_left xs ys (length xs) (omega arith) ∙ take-length xs

pub sprintf_at-append :
    (pre line memory : List ℕ)
    → length line + 1 ≤ length memory
    → sprintf_at (length pre) line (pre ++ memory)
      ≡ some (pre ++ (line ++ 0 ∷ drop (length line + 1) memory))
unfolding sprintf_at
sprintf_at-append pre line memory fits =
    let inside : ltb (length (pre ++ memory)) (length pre + length line + 1) ≡ false =
      ground (arith, length-append pre memory) in
    let behind : drop (length pre + length line + 1) (pre ++ memory)
        ≡ drop (length line + 1) memory =
      ap (λ (n : ℕ). drop n (pre ++ memory)) (omega arith)
      ∙ drop-append_add pre memory (length line + 1) in
    rw (inside, behind, take-append pre memory) (ap some (simp append_assoc))

-- The text with one more line, and the buffer behind it.
one_more :
    (vars : List Var) (n v rest : List ℕ)
    → text vars ++ ((n ++ b'=' ∷ v) ++ 0 ∷ rest) ≡ text (vars ++ (n, v) ∷ []) ++ rest
one_more vars n v rest = rw (text-append vars ((n, v) ∷ [])) (simp append_assoc)

length-one_more :
    (vars : List Var) (n v : List ℕ)
    → length (text (vars ++ (n, v) ∷ [])) ≡ length (text vars) + size n v + 1
length-one_more vars n v = omega (arith, length-text vars ((n, v) ∷ []), length-line n v [])

-- What an operation that succeeds has done.
abbrev pub Appended : List Var → List ℕ → List ℕ → Option (ℕ × Xin) → Type 0
Appended vars n v r = (x' : Xin) × (r ≡ some (0, x')) × Holds (vars ++ (n, v) ∷ []) x'

add_text-some :
    (line buffer : List ℕ) (x : Xin) (k : ℕ)
    → sprintf_at x.pscan line x.buffer ≡ some buffer
    → length (before_zero (drop x.pscan buffer)) ≡ k
    → leb xin_maxsize (x.len + k) ≡ false
    → add_text line x
      ≡ some (0, record x { buffer = buffer; len = x.len + k + 1; pscan = x.pscan + k + 1 })
unfolding add_text
add_text-some line buffer x k printed added below = rw (printed, add_text) (rw (added, below) refl)

pub add_text-Holds :
    (vars : List Var) (n v : List ℕ) (x : Xin)
    → Holds vars x
    → IsName n
    → IsText v
    → length (text vars) + size n v + 1 ≤ xin_maxsize
    → Appended vars n v (add_text (n ++ b'=' ∷ v) x)
add_text-Holds vars n v x h q t fits =
    let line : List ℕ = n ++ b'=' ∷ v in
    let long : length line ≡ size n v = omega (arith, length-append n (b'=' ∷ v)) in
    let rest : List ℕ = drop (length line + 1) h.memory in
    let buffer' : List ℕ = text vars ++ (line ++ 0 ∷ rest) in
    let whole : length x.buffer ≡ length (text vars) + length h.memory =
      ap length h.bytes ∙ length-append (text vars) h.memory in
    let printed : sprintf_at x.pscan line x.buffer ≡ some buffer' =
      ap (λ (at : ℕ). sprintf_at at line x.buffer) h.pscan_is
      ∙ ap (sprintf_at (length (text vars)) line) h.bytes
      ∙ sprintf_at-append (text vars) line h.memory (omega (arith, h.room)) in
    let here : drop (length (text vars)) buffer' ≡ n ++ (b'=' ∷ (v ++ 0 ∷ rest)) =
      drop-append (text vars) (line ++ 0 ∷ rest) ∙ simp append_assoc in
    let added : length (before_zero (drop x.pscan buffer')) ≡ size n v =
      ap (λ (at : ℕ). length (before_zero (drop at buffer'))) h.pscan_is
      ∙ ap (λ (l : List ℕ). length (before_zero l)) here
      ∙ before_zero_line n v rest q t in
    let below : leb xin_maxsize (x.len + size n v) ≡ false = ground (arith, h.len_is) in
    (
      record x { buffer = buffer'; len = x.len + size n v + 1; pscan = x.pscan + size n v + 1 },
      add_text-some line buffer' x (size n v) printed added below,
      record {
        flag = h.flag;
        len_is = omega (arith, length-one_more vars n v, h.len_is);
        pscan_is = omega (arith, length-one_more vars n v, h.pscan_is);
        memory = rest;
        bytes = one_more vars n v rest;
        room = omega (
          arith,
          length-append (text vars) (line ++ 0 ∷ rest),
          length-append line (0 ∷ rest),
          length-drop (length line + 1) h.memory,
          h.room,
        );
      },
    )

write_bytes-cons :
    (b : ℕ) (bytes : List ℕ) (pscan scanlen : ℕ) (buffer buffer' : List ℕ)
    → sprintf_at pscan (digit (b / 16) ∷ digit (b % 16) ∷ []) buffer ≡ some buffer'
    → leb xin_maxsize (scanlen + 2) ≡ false
    → write_bytes (b ∷ bytes) pscan scanlen buffer
      ≡ write_bytes bytes (pscan + 2) (scanlen + 2) buffer'
unfolding write_bytes
write_bytes-cons b bytes pscan scanlen buffer buffer' printed below =
    rw (printed, write_bytes) (rw below refl)

write_bytes-nil :
    (pscan scanlen : ℕ) (buffer : List ℕ)
    → write_bytes [] pscan scanlen buffer ≡ some (0, buffer, pscan, scanlen)
unfolding write_bytes
write_bytes-nil pscan scanlen buffer = refl

write_bytes-all :
    (bytes pre memory : List ℕ) (pscan scanlen : ℕ)
    → pscan ≡ length pre
    → scanlen + length (hex_text bytes) < xin_maxsize
    → length (hex_text bytes) ≤ length memory
    → (memory' : List ℕ) × (write_bytes bytes pscan scanlen (pre ++ 0 ∷ memory)
        ≡ some (
          0,
          (pre ++ hex_text bytes) ++ 0 ∷ memory',
          pscan + length (hex_text bytes),
          scanlen + length (hex_text bytes),
        ))
      × (length memory' + length (hex_text bytes) ≡ length memory)
write_bytes-all [] pre memory pscan scanlen e below room = (
  memory,
  write_bytes-nil pscan scanlen (pre ++ 0 ∷ memory) ∙ simp (append-nil, add-zero),
  omega arith,
)
write_bytes-all (b ∷ bytes) pre memory pscan scanlen e below room =
    let two : List ℕ = digit (b / 16) ∷ digit (b % 16) ∷ [] in
    let pre' : List ℕ = pre ++ two in
    let printed : sprintf_at pscan two (pre ++ 0 ∷ memory) ≡ some (pre' ++ 0 ∷ drop 2 memory) =
      ap (λ (at : ℕ). sprintf_at at two (pre ++ 0 ∷ memory)) e
      ∙ sprintf_at-append pre two (0 ∷ memory) (omega arith)
      ∙ ap some (simp append_assoc) in
    let step =
      write_bytes-cons b bytes pscan scanlen (pre ++ 0 ∷ memory) (pre' ++ 0 ∷ drop 2 memory) printed
        (ground arith) in
    let (memory', all, left) =
      write_bytes-all bytes pre' (drop 2 memory) (pscan + 2) (scanlen + 2)
        (omega (arith, length-append pre two)) (omega arith)
        (omega (arith, length-drop 2 memory)) in
    let far : (n : ℕ) → n + 2 + length (hex_text bytes) ≡ n + suc (suc (length (hex_text bytes))) =
      λ n. omega arith in
    (
      memory',
      step ∙ all ∙ rw (far pscan, far scanlen, append_assoc pre two (hex_text bytes)) refl,
      omega (arith, length-drop 2 memory),
    )

xin_write_hex-some :
    (x : Xin) (name bytes buffer buffer' : List ℕ) (k pscan scanlen : ℕ)
    → x.openflag ≡ b'w'
    → sprintf_at x.pscan (name ++ b'=' ∷ []) x.buffer ≡ some buffer
    → length (before_zero (drop x.pscan buffer)) ≡ k
    → leb xin_maxsize (x.len + k) ≡ false
    → write_bytes bytes (x.pscan + k) (x.len + k) buffer ≡ some (0, buffer', pscan, scanlen)
    → xin_write_hex x name bytes
      ≡ some (0, record x { buffer = buffer'; pscan = pscan + 1; len = scanlen + 1 })
unfolding xin_write_hex
xin_write_hex-some x name bytes buffer buffer' k pscan scanlen flag printed added below all =
    let writing : (x.openflag == b'w') ≡ true = ground (arith, flag) in
    rw (writing, printed, xin_write_hex) (rw (added, below) (rw (all, xin_write_hex) refl))

abbrev pub IsValue : Value → Type 0
IsValue (str s) = IsText s
IsValue (int n h) = n < 2 ^ 32
IsValue (hex bytes) = IsBytes bytes

digit_positive : (d : ℕ) → 0 < digit d
unfolding digit
digit_positive d = ground arith

hex_text-IsText : (bytes : List ℕ) → IsText (hex_text bytes)
hex_text-IsText [] = tt
hex_text-IsText (b ∷ bytes) =
    (digit_positive (b / 16), (digit_positive (b % 16), hex_text-IsText bytes))

pub value_text-IsText : (value : Value) → IsValue value → IsText (value_text value)
value_text-IsText (str s) h = h
value_text-IsText (int n form) h = int_text-IsText n form
value_text-IsText (hex bytes) h = hex_text-IsText bytes

xin_write_hex-Holds :
    (vars : List Var) (n bytes : List ℕ) (x : Xin)
    → Holds vars x
    → IsName n
    → length (text vars) + size n (hex_text bytes) + 1 ≤ xin_maxsize
    → Appended vars n (hex_text bytes) (xin_write_hex x n bytes)
xin_write_hex-Holds vars n bytes x h q fits =
    let line : List ℕ = n ++ b'=' ∷ [] in
    let k : ℕ = length n + 1 in
    let long : length line ≡ k = omega (arith, length-append n (b'=' ∷ [])) in
    let rest : List ℕ = drop (length line + 1) h.memory in
    let pre : List ℕ = text vars ++ line in
    let whole : length x.buffer ≡ length (text vars) + length h.memory =
      ap length h.bytes ∙ length-append (text vars) h.memory in
    let printed : sprintf_at x.pscan line x.buffer ≡ some (pre ++ 0 ∷ rest) =
      ap (λ (at : ℕ). sprintf_at at line x.buffer) h.pscan_is
      ∙ ap (sprintf_at (length (text vars)) line) h.bytes
      ∙ sprintf_at-append (text vars) line h.memory (omega (arith, h.room))
      ∙ ap some (sym (append_assoc (text vars) line (0 ∷ rest))) in
    let here : drop (length (text vars)) (pre ++ 0 ∷ rest) ≡ n ++ (b'=' ∷ ([] ++ 0 ∷ rest)) =
      ap (drop (length (text vars))) (append_assoc (text vars) line (0 ∷ rest))
      ∙ drop-append (text vars) (line ++ 0 ∷ rest)
      ∙ simp append_assoc in
    let added : length (before_zero (drop x.pscan (pre ++ 0 ∷ rest))) ≡ k =
      ap (λ (at : ℕ). length (before_zero (drop at (pre ++ 0 ∷ rest)))) h.pscan_is
      ∙ ap (λ (l : List ℕ). length (before_zero l)) here
      ∙ before_zero_line n [] rest q tt
      ∙ omega arith in
    let below : leb xin_maxsize (x.len + k) ≡ false = ground (arith, h.len_is) in
    let (memory', all, left) =
      write_bytes-all bytes pre rest (x.pscan + k) (x.len + k)
        (omega (arith, length-append (text vars) line, h.pscan_is)) (omega (arith, h.len_is))
        (omega (arith, length-drop (length line + 1) h.memory, h.room)) in
    let buffer' : List ℕ = (pre ++ hex_text bytes) ++ 0 ∷ memory' in
    let grouped : buffer' ≡ text vars ++ ((n ++ b'=' ∷ hex_text bytes) ++ 0 ∷ memory') =
      simp append_assoc in
    let same : buffer' ≡ text (vars ++ (n, hex_text bytes) ∷ []) ++ memory' =
      grouped ∙ one_more vars n (hex_text bytes) memory' in
    (
      record x {
        buffer = buffer';
        pscan = x.pscan + k + length (hex_text bytes) + 1;
        len = x.len + k + length (hex_text bytes) + 1;
      },
      xin_write_hex-some x n bytes (pre ++ 0 ∷ rest) buffer' k _ _ h.flag printed added below all,
      record {
        flag = h.flag;
        len_is = omega (arith, length-one_more vars n (hex_text bytes), h.len_is);
        pscan_is = omega (arith, length-one_more vars n (hex_text bytes), h.pscan_is);
        memory = memory';
        bytes = same;
        room = omega (
          arith,
          length-append (pre ++ hex_text bytes) (0 ∷ memory'),
          length-append pre (hex_text bytes),
          length-append (text vars) line,
          length-drop (length line + 1) h.memory,
          h.room,
        );
      },
    )

-- Each writing operation appends its line and succeeds, as long as the text fits.
pub write_value-Holds :
    (vars : List Var) (n : List ℕ) (value : Value) (x : Xin)
    → Holds vars x
    → IsName n
    → IsValue value
    → length (text vars) + size n (value_text value) + 1 ≤ xin_maxsize
    → Appended vars n (value_text value) (write_value x n value)
unfolding xin_write_string xin_write_int
write_value-Holds vars n (str s) x h q t fits =
    let writing : (x.openflag == b'w') ≡ true = ground (arith, h.flag) in
    rw writing (add_text-Holds vars n s x h q t fits)
write_value-Holds vars n (int v form) x h q t fits =
    let writing : (x.openflag == b'w') ≡ true = ground (arith, h.flag) in
    rw writing (add_text-Holds vars n (int_text v form) x h q (int_text-IsText v form) fits)
write_value-Holds vars n (hex bytes) x h q t fits = xin_write_hex-Holds vars n bytes x h q fits
