-- ===== src/Storage/Xin/Values.antt =====
-- The reading operations, where the search gives the text of a value.
use smart_home_xiugai.Prelude.{
  ℕ, ◌+◌, ◌-◌, ◌/◌, ◌%◌, ◌<◌, List, [], ◌∷◌, ◌++◌, length, take, none, some, Bool, true, false, leb,
  ◌==◌, if◌then◌else◌, ◌≡◌, refl, ap, ◌∙◌, arith, take-length, take-append_left, IsByte, IsBytes,
  u8, bit_or, ◌<<<◌, all_below, all_below_sound, ==_iff,
}
use mathlib.Core.List.{append_assoc}
use smart_home_xiugai.Prelude.Int.{pos}
use smart_home_xiugai.Base64.{before_zero}
use smart_home_xiugai.Storage.Bin.{overwrite}
use smart_home_xiugai.Storage.Xin.{
  Xin, found, find_variable, hex_digit, hex_bytes, digit, xin_str_to_int, xin_read_int,
  xin_read_string, xin_read_hex,
}
use smart_home_xiugai.Storage.Xin.Lines.{before_zero_text}
use smart_home_xiugai.Storage.Xin.Numbers.{xin_str_to_int-int_text}
use smart_home_xiugai.Storage.Xin.Write.{Value, str, int, hex, hex_text, value_text, IsValue}

-- The operation for a value of that kind and length, into the start of the caller's buffer; what the
-- caller then has.
pub read_value : List ℕ → ℕ → Xin → List ℕ → Value → Value × Xin
read_value buffer defvalue x n (str s) =
    let (len, buffer', x') = xin_read_string x n buffer (length s + 1) in
    (str (before_zero buffer'), x')
read_value buffer defvalue x n (int v form) =
    let (v', x') = xin_read_int x n defvalue in (int v' form, x')
read_value buffer defvalue x n (hex bytes) =
    let (len, buffer', x') = xin_read_hex x n buffer (length bytes) in
    (hex (take (length bytes) buffer'), x')

hex_digit-low : (d : ℕ) → d < 16 → hex_digit (digit d) ≡ some d
unfolding hex_digit digit
hex_digit-low d h = ground arith

joined_test : ℕ → Bool
joined_test b = bit_or (u8 ((b / 16) <<< 4)) (b % 16) == b

joined : (b : ℕ) → IsByte b → bit_or (u8 ((b / 16) <<< 4)) (b % 16) ≡ b
unfolding joined_test
joined b p = (==_iff _ b).0 (all_below_sound 256 joined_test b table p)
  where
    table : all_below 256 joined_test ≡ true
    table = unfold all_below joined_test in refl

-- Two digits are one byte.
hex_bytes-cons :
    (b : ℕ) (cs : List ℕ) (len : ℕ)
    → IsByte b
    → hex_bytes none (digit (b / 16) ∷ digit (b % 16) ∷ cs) len ≡ (
        if leb len 1
        then (b ∷ [], 1)
        else (b ∷ (hex_bytes none cs (len - 1)).0, (hex_bytes none cs (len - 1)).1 + 1))
unfolding hex_bytes
hex_bytes-cons b cs len p =
    rw (hex_digit-low (b / 16) (omega arith), hex_bytes)
      (rw (hex_digit-low (b % 16) (omega arith), hex_bytes) (rw (joined b p) refl))

hex_bytes-nil : (len : ℕ) → hex_bytes none [] len ≡ ([], 0)
unfolding hex_bytes
hex_bytes-nil len = refl

hex_bytes-hex_text :
    (bytes : List ℕ)
    → IsBytes bytes
    → hex_bytes none (hex_text bytes) (length bytes) ≡ (bytes, length bytes)
hex_bytes-hex_text [] h = hex_bytes-nil 0
hex_bytes-hex_text (b ∷ []) h = hex_bytes-cons b [] 1 h.0
hex_bytes-hex_text (b ∷ c ∷ bytes) h =
    let more : leb (length (b ∷ c ∷ bytes)) 1 ≡ false = ground arith in
    let less : length (b ∷ c ∷ bytes) - 1 ≡ length (c ∷ bytes) = omega arith in
    hex_bytes-cons b (hex_text (c ∷ bytes)) (length (b ∷ c ∷ bytes)) h.0
    ∙ rw (more, less, hex_bytes-hex_text (c ∷ bytes) h.1)
        (ap (λ (k : ℕ). (b ∷ c ∷ bytes, k)) (omega arith))

module _ (x : Xin) (n value : List ℕ) (pscan : ℕ) (reading : x.openflag ≡ b'r')
    (search : find_variable n x ≡ found value pscan) where
  flag_test : (x.openflag == b'r') ≡ true
  flag_test = ground (arith, reading)

  pub xin_read_int-found :
      (defvalue : ℕ)
      → xin_read_int x n defvalue ≡ (xin_str_to_int (before_zero value), record x { pscan = pscan })
  unfolding xin_read_int
  xin_read_int-found defvalue = rw (flag_test, search, xin_read_int) refl

  xin_read_string-found :
      (buffer : List ℕ) (len : ℕ)
      → xin_read_string x n buffer len ≡ (
        pos (length (take (len - 1) (before_zero value))),
        overwrite (take (len - 1) (before_zero value) ++ 0 ∷ []) buffer,
        record x { pscan = pscan },
      )
  unfolding xin_read_string
  xin_read_string-found buffer len = rw (flag_test, search, xin_read_string) refl

  xin_read_hex-found :
      (buffer : List ℕ) (len : ℕ)
      → xin_read_hex x n buffer len ≡ (
        pos (hex_bytes none (before_zero value) len).1,
        overwrite (hex_bytes none (before_zero value) len).0 buffer,
        record x { pscan = pscan },
      )
  unfolding xin_read_hex
  xin_read_hex-found buffer len = rw (flag_test, search, xin_read_hex) refl

  -- The value comes back.
  pub read_value-found :
      (buffer : List ℕ) (defvalue : ℕ) (v : Value)
      → IsValue v
      → before_zero value ≡ value_text v
      → read_value buffer defvalue x n v ≡ (v, record x { pscan = pscan })
  unfolding read_value
  read_value-found buffer defvalue (str s) t e =
      let whole : take (length s + 1 - 1) s ≡ s =
        ap (λ (k : ℕ). take k s) (omega arith) ∙ take-length s in
      let copied : before_zero (overwrite (s ++ 0 ∷ []) buffer) ≡ s =
        ap before_zero (append_assoc s (0 ∷ []) _) ∙ before_zero_text s _ t in
      rw (xin_read_string-found buffer (length s + 1), e, whole, copied) refl
  read_value-found buffer defvalue (int m form) t e =
      rw (xin_read_int-found defvalue, e, xin_str_to_int-int_text m form t) refl
  read_value-found buffer defvalue (hex bytes) t e =
      let copied : take (length bytes) (overwrite bytes buffer) ≡ bytes =
        take-append_left bytes _ (length bytes) (omega arith) ∙ take-length bytes in
      rw (xin_read_hex-found buffer (length bytes), e, hex_bytes-hex_text bytes t, copied) refl
