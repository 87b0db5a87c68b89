-- ===== src/Storage/Xin/Numbers.antt =====
-- What `XinWriteInt` prints is what `XinReadInt` reads.
use smart_home_xiugai.Prelude.{
  ℕ, zero, suc, ◌+◌, ◌-◌, ◌*◌, ◌/◌, ◌%◌, ◌^◌, ◌<◌, ◌≤◌, List, [], ◌∷◌, ◌++◌, get_or, some, Bool,
  true, false, ltb, leb, ◌≡◌, refl, sym, ap, ◌∙◌, inl, inr, arith, Bool-cases, ltb→lt, u32, ◌<<<◌,
}
use native.Mathlib.Nat.{pow-suc, div-lt_iff_lt-mul}
use smart_home_xiugai.Storage.Xin.{
  hex_digit, hex_loop, atoi_loop, xin_str_to_int, digit, digits, int_text,
}
use smart_home_xiugai.Storage.Xin.Lines.{IsText}

-- Every character is a digit below the base.
abbrev Digits : ℕ → List ℕ → Type 0
Digits base [] = Unit {0}
Digits base (c ∷ cs) = (d : ℕ) × (d < base) × (c ≡ digit d) × Digits base cs

Digits-append :
    (base : ℕ) (xs ys : List ℕ) → Digits base xs → Digits base ys → Digits base (xs ++ ys)
Digits-append base [] ys p q = q
Digits-append base (x ∷ xs) ys (d, low, e, p) q = (d, low, e, Digits-append base xs ys p q)

digits-Digits : (places base n : ℕ) → 0 < base → Digits base (digits places base n)
unfolding digits
digits-Digits zero base n h = (n % base, grind arith, refl, tt)
digits-Digits (suc places) base n h = elim (Bool-cases (ltb n base)) [
  | inl small ↦ rw small (n, ltb→lt n base small, refl, tt)
  | inr large ↦ rw large (
      Digits-append base (digits places base (n / base)) (digit (n % base) ∷ [])
        (digits-Digits places base (n / base) h) (n % base, grind arith, refl, tt))
]

digit_positive : (d : ℕ) → 0 < digit d
unfolding digit
digit_positive d = ground arith

Digits-IsText : (base : ℕ) (xs : List ℕ) → Digits base xs → IsText xs
Digits-IsText base [] p = tt
Digits-IsText base (x ∷ xs) (d, low, e, p) = (rw e (digit_positive d), Digits-IsText base xs p)

hex_digit-digit : (d : ℕ) → d < 16 → hex_digit (digit d) ≡ some d
unfolding hex_digit digit
hex_digit-digit d h = ground arith

hex_loop-digit :
    (d sum : ℕ) (xs : List ℕ)
    → d < 16
    → hex_loop sum (digit d ∷ xs) ≡ hex_loop (u32 (u32 (sum <<< 4) + d)) xs
unfolding hex_loop
hex_loop-digit d sum xs h = rw (hex_digit-digit d h, hex_loop) refl

hex_loop-nil : (sum : ℕ) → hex_loop sum [] ≡ sum
unfolding hex_loop
hex_loop-nil sum = refl

hex_loop-snoc :
    (d : ℕ) (xs : List ℕ) (sum : ℕ)
    → d < 16
    → Digits 16 xs
    → hex_loop sum (xs ++ digit d ∷ []) ≡ u32 (u32 (hex_loop sum xs <<< 4) + d)
hex_loop-snoc d [] sum h p =
    hex_loop-digit d sum [] h
    ∙ hex_loop-nil _
    ∙ ap (λ (s : ℕ). u32 (u32 (s <<< 4) + d)) (sym (hex_loop-nil sum))
hex_loop-snoc d (x ∷ xs) sum h (c, low, e, p) =
    let next : ℕ = u32 (u32 (sum <<< 4) + c) in
    rw (e, hex_loop-digit c sum xs low, hex_loop-digit c sum (xs ++ digit d ∷ []) low)
      (hex_loop-snoc d xs next h p)

below_pow :
    (base places n : ℕ) → 0 < base → n < base ^ suc (suc places) → n / base < base ^ suc places
below_pow base places n p h = (div-lt_iff_lt-mul p).1 (rw pow-suc at h)

hex_loop-digits :
    (places n : ℕ) → n < 2 ^ 32 → n < 16 ^ suc places → hex_loop 0 (digits places 16 n) ≡ n
unfolding digits
hex_loop-digits zero n w h =
    hex_loop-digit (n % 16) 0 [] (omega arith) ∙ hex_loop-nil _ ∙ omega arith
hex_loop-digits (suc places) n w h = elim (Bool-cases (ltb n 16)) [
  | inl small ↦ rw small (hex_loop-digit n 0 [] (ltb→lt n 16 small) ∙ hex_loop-nil _ ∙ omega arith)
  | inr large ↦
      let higher : hex_loop 0 (digits places 16 (n / 16)) ≡ n / 16 =
        hex_loop-digits places (n / 16) (omega arith) (below_pow 16 places n (omega arith) h) in
      rw large (
        hex_loop-snoc (n % 16) (digits places 16 (n / 16)) 0 (omega arith)
          (digits-Digits places 16 (n / 16) (omega arith))
        ∙ rw higher (omega arith))
]

atoi_loop-digit :
    (d sum : ℕ) (xs : List ℕ) → d < 10 → atoi_loop sum (digit d ∷ xs) ≡ atoi_loop (sum * 10 + d) xs
unfolding atoi_loop digit
atoi_loop-digit d sum xs h =
    let small : ltb d 10 ≡ true = ground arith in
    let low : leb b'0' (d + b'0') ≡ true = ground arith in
    let high : leb (d + b'0') b'9' ≡ true = ground arith in
    let value : d + b'0' - b'0' ≡ d = omega arith in rw (small, low, high, value) refl

atoi_loop-nil : (sum : ℕ) → atoi_loop sum [] ≡ sum
unfolding atoi_loop
atoi_loop-nil sum = refl

atoi_loop-snoc :
    (d : ℕ) (xs : List ℕ) (sum : ℕ)
    → d < 10
    → Digits 10 xs
    → atoi_loop sum (xs ++ digit d ∷ []) ≡ atoi_loop sum xs * 10 + d
atoi_loop-snoc d [] sum h p =
    atoi_loop-digit d sum [] h
    ∙ atoi_loop-nil _
    ∙ ap (λ (s : ℕ). s * 10 + d) (sym (atoi_loop-nil sum))
atoi_loop-snoc d (x ∷ xs) sum h (c, low, e, p) =
    rw (e, atoi_loop-digit c sum xs low, atoi_loop-digit c sum (xs ++ digit d ∷ []) low)
      (atoi_loop-snoc d xs (sum * 10 + c) h p)

atoi_loop-digits : (places n : ℕ) → n < 10 ^ suc places → atoi_loop 0 (digits places 10 n) ≡ n
unfolding digits
atoi_loop-digits zero n h =
    atoi_loop-digit (n % 10) 0 [] (omega arith) ∙ atoi_loop-nil _ ∙ omega arith
atoi_loop-digits (suc places) n h = elim (Bool-cases (ltb n 10)) [
  | inl small ↦
      rw small (atoi_loop-digit n 0 [] (ltb→lt n 10 small) ∙ atoi_loop-nil _ ∙ omega arith)
  | inr large ↦
      let higher : atoi_loop 0 (digits places 10 (n / 10)) ≡ n / 10 =
        atoi_loop-digits places (n / 10) (below_pow 10 places n (omega arith) h) in
      rw large (
        atoi_loop-snoc (n % 10) (digits places 10 (n / 10)) 0 (omega arith)
          (digits-Digits places 10 (n / 10) (omega arith))
        ∙ rw higher (omega arith))
]

-- A decimal digit is neither a sign nor an `x`.
plain : (c d : ℕ) → d < 10 → c ≡ digit d → (b'0' ≤ c) × (c ≤ b'9')
unfolding digit
plain c d h e = ground arith

second_plain : (xs : List ℕ) → Digits 10 xs → (get_or xs 0 0 ≤ b'9')
second_plain [] p = omega arith
second_plain (x ∷ xs) (d, low, e, p) = (plain x d low e).1

xin_str_to_int-Digits : (xs : List ℕ) → Digits 10 xs → xin_str_to_int xs ≡ u32 (atoi_loop 0 xs)
unfolding xin_str_to_int
xin_str_to_int-Digits [] p = refl
xin_str_to_int-Digits (x ∷ xs) (d, low, e, p) =
    let (above, below) = plain x d low e in let second = second_plain xs p in ground arith

int_text-hex :
    (value : ℕ) → xin_str_to_int (b'0' ∷ b'x' ∷ digits 8 16 value) ≡ hex_loop 0 (digits 8 16 value)
unfolding xin_str_to_int
int_text-hex value = refl

int_text-negative :
    (xs : List ℕ) → xin_str_to_int (b'-' ∷ xs) ≡ (2 ^ 32 - u32 (atoi_loop 0 xs)) % 2 ^ 32
unfolding xin_str_to_int
int_text-negative xs = refl

-- Every `int` that is printed, in decimal with its sign or in hexadecimal, is read back.
pub xin_str_to_int-int_text :
    (value : ℕ) (hex : Bool) → value < 2 ^ 32 → xin_str_to_int (int_text value hex) ≡ value
unfolding int_text
xin_str_to_int-int_text value true h = int_text-hex value ∙ hex_loop-digits 8 value h (omega arith)
xin_str_to_int-int_text value false h = elim (Bool-cases (ltb value (2 ^ 31))) [
  | inl positive ↦ rw positive (
      xin_str_to_int-Digits (digits 10 10 value) (digits-Digits 10 10 value (omega arith))
      ∙ rw (atoi_loop-digits 10 value (omega arith)) (omega arith))
  | inr negative ↦
      let large : 2 ^ 31 ≤ value = ground arith in
      rw negative (
        int_text-negative (digits 10 10 (2 ^ 32 - value))
        ∙ rw (atoi_loop-digits 10 (2 ^ 32 - value) (omega arith)) (omega arith))
]

pub int_text-IsText : (value : ℕ) (hex : Bool) → IsText (int_text value hex)
unfolding int_text
int_text-IsText value true =
    (omega arith, (omega arith, Digits-IsText 16 _ (digits-Digits 8 16 value (omega arith))))
int_text-IsText value false = elim (Bool-cases (ltb value (2 ^ 31))) [
  | inl positive ↦ rw positive (Digits-IsText 10 _ (digits-Digits 10 10 value (omega arith)))
  | inr negative ↦
      rw negative
        (omega arith, Digits-IsText 10 _ (digits-Digits 10 10 (2 ^ 32 - value) (omega arith)))
]
