-- ===== src/Storage/Xin/Lines.antt =====
-- The lines of a file of named values, and what the comparison of `FindVariable` makes of one.
use smart_home_xiugai.Prelude.{
  ℕ, zero, suc, ◌+◌, ◌<◌, ◌≤◌, List, [], ◌∷◌, ◌++◌, length, get_or, drop, Option, none, some, Bool,
  true, false, ◌&&◌, ◌==◌, if◌then◌else◌, ◌≡◌, ◌≢◌, refl, sym, ap, inl, inr, arith, Bool-cases,
  length-append,
}
use mathlib.Core.List.{append_assoc}
use native.Mathlib.Nat.{zero-add, suc-add}
use native.Mathlib.Numerals.{add-one}
use smart_home_xiugai.Base64.{before_zero}
use smart_home_xiugai.Storage.Xin.{compare_name}

-- A name and the text of a value.
abbrev pub Var : Type 0
Var = List ℕ × List ℕ

abbrev pub IsText : List ℕ → Type 0
IsText [] = Unit {0}
IsText (c ∷ cs) = (0 < c) × IsText cs

abbrev pub IsName : List ℕ → Type 0
IsName [] = Unit {0}
IsName (c ∷ cs) = (0 < c) × (c ≢ b'=') × IsName cs

abbrev pub IsVars : List Var → Type 0
IsVars [] = Unit {0}
IsVars ((n, v) ∷ vs) = IsName n × IsText v × IsVars vs

-- The bytes of the lines, each with its 0.
abbrev pub text : List Var → List ℕ
text [] = []
text ((n, v) ∷ vs) = n ++ (b'=' ∷ (v ++ (0 ∷ text vs)))

-- What is taken for the value of `name` at the line of `n` and `v`: the last character of the name
-- is not compared.
unfoldable pub taken : List ℕ → List ℕ → List ℕ → Option (List ℕ)
taken [] [] v = some v
taken [] (d ∷ ds) v = none
taken (c ∷ []) [] [] = none
taken (c ∷ []) [] (e ∷ v) = if e == b'=' then some v else none
taken (c ∷ c' ∷ cs) [] v = none
taken (c ∷ []) (d ∷ []) v = some v
taken (c ∷ []) (d ∷ d' ∷ ds) v = none
taken (c ∷ c' ∷ cs) (d ∷ ds) v = if d == c then taken (c' ∷ cs) ds v else none

abbrev pub size : List ℕ → List ℕ → ℕ
size n v = length n + 1 + length v

pub before_zero_text : (w : List ℕ) (rest : List ℕ) → IsText w → before_zero (w ++ 0 ∷ rest) ≡ w
unfolding before_zero
before_zero_text [] rest t = refl
before_zero_text (c ∷ w) rest t =
    let running : (c == 0) ≡ false = ground (arith, t.0) in
    rw running (ap (◌∷◌ c) (before_zero_text w rest t.1))

pub before_zero_line :
    (n v rest : List ℕ)
    → IsName n
    → IsText v
    → length (before_zero (n ++ (b'=' ∷ (v ++ 0 ∷ rest)))) ≡ size n v
unfolding before_zero
before_zero_line [] v rest p t = rw (before_zero_text v rest t) (omega arith)
before_zero_line (c ∷ n) v rest p t =
    let running : (c == 0) ≡ false = ground (arith, p.0) in
    rw running (omega (arith, before_zero_line n v rest p.2 t))

drop_nil {ℓ} : {A : Type ℓ} (n : ℕ) → drop {A = A} n [] ≡ []
drop_nil zero = refl
drop_nil (suc n) = refl

pub drop_add {ℓ} : {A : Type ℓ} (a b : ℕ) (xs : List A) → drop (a + b) xs ≡ drop b (drop a xs)
drop_add zero b xs = rw zero-add refl
drop_add (suc a) b [] = rw (suc-add, drop_nil b) refl
drop_add (suc a) b (x ∷ xs) = rw suc-add (drop_add a b xs)

pub drop-append {ℓ} : {A : Type ℓ} (xs ys : List A) → drop (length xs) (xs ++ ys) ≡ ys
drop-append [] ys = refl
drop-append (x ∷ xs) ys = drop-append xs ys

-- Behind a line.
pub drop_line : (n v rest : List ℕ) → drop (size n v + 1) (n ++ (b'=' ∷ (v ++ 0 ∷ rest))) ≡ rest
drop_line n v rest =
    let line : List ℕ = n ++ (b'=' ∷ (v ++ 0 ∷ [])) in
    let len : size n v + 1 ≡ length line =
      omega (arith, length-append n (b'=' ∷ (v ++ 0 ∷ [])), length-append v (0 ∷ [])) in
    let split : n ++ (b'=' ∷ (v ++ 0 ∷ rest)) ≡ line ++ rest = simp append_assoc in
    rw (len, split) (drop-append line rest)

pub length-line :
    (n v rest : List ℕ) → length (n ++ (b'=' ∷ (v ++ 0 ∷ rest))) ≡ size n v + 1 + length rest
length-line n v rest =
    omega (arith, length-append n (b'=' ∷ (v ++ 0 ∷ rest)), length-append v (0 ∷ rest))

-- Within a line only its end is a 0.
pub zero_in_text :
    (w rest : List ℕ) (used : ℕ)
    → IsText w
    → used ≤ length w
    → get_or (w ++ 0 ∷ rest) used 0 ≡ 0
    → used ≡ length w
zero_in_text [] rest zero t h e = refl
zero_in_text [] rest (suc used) t h e = elim h [ ]
zero_in_text (c ∷ w) rest zero t h e = absurd (omega (arith, t.0, e))
zero_in_text (c ∷ w) rest (suc used) t h e = ap suc (zero_in_text w rest used t.1 (omega arith) e)

pub zero_in_line :
    (n v rest : List ℕ) (used : ℕ)
    → IsName n
    → IsText v
    → used ≤ size n v
    → get_or (n ++ (b'=' ∷ (v ++ 0 ∷ rest))) used 0 ≡ 0
    → used ≡ size n v
zero_in_line [] v rest zero p t h e = absurd (omega (arith, e))
zero_in_line [] v rest (suc used) p t h e =
    omega (arith, zero_in_text v rest used t (omega arith) e)
zero_in_line (c ∷ n) v rest zero p t h e = absurd (omega (arith, p.0, e))
zero_in_line (c ∷ n) v rest (suc used) p t h e =
    omega (arith, zero_in_line n v rest used p.2 t (omega arith) e)

-- What the comparison has come to, where the value `taken` is expected.
abbrev pub Compared : Option (List ℕ) → ℕ → List ℕ → Bool × ℕ → Type 0
Compared (some w) limit here r =
    (r.0 ≡ true) × (get_or here r.1 0 ≡ b'=') × (before_zero (drop (suc r.1) here) ≡ w)
Compared none limit here r = ((r.0 && get_or here r.1 0 == b'=') ≡ false) × (r.1 ≤ limit)

Compared-suc :
    (o : Option (List ℕ)) (limit d : ℕ) (here : List ℕ) (r : Bool × ℕ)
    → Compared o limit here r
    → Compared o (suc limit) (d ∷ here) (r.0, suc r.1)
Compared-suc (some w) limit d here r h = h
Compared-suc none limit d here r h = (h.0, omega (arith, h.1))

compare_one : (c d : ℕ) (here : List ℕ) → compare_name (c ∷ []) (d ∷ here) ≡ (true, 1)
unfolding compare_name
compare_one c d here = ground arith

compare_same :
    (c d : ℕ) (cs here : List ℕ)
    → (d == c) ≡ true
    → compare_name (c ∷ cs) (d ∷ here) ≡ ((compare_name cs here).0, suc (compare_name cs here).1)
unfolding compare_name
compare_same c d cs here h = rw (h, add-one) refl

compare_other :
    (c c' d : ℕ) (cs here : List ℕ)
    → (d == c) ≡ false
    → compare_name (c ∷ c' ∷ cs) (d ∷ here) ≡ (false, 1)
unfolding compare_name
compare_other c c' d cs here h = rw h refl

compare_none : (here : List ℕ) → compare_name [] here ≡ (true, 0)
unfolding compare_name
compare_none here = refl

other_char : (c d : ℕ) → c ≢ d → (c == d) ≡ false
other_char c d h = ground arith

pub compare_name-taken :
    (name n v rest : List ℕ)
    → IsName name
    → IsName n
    → IsText v
    → Compared
        (taken name n v)
        (size n v)
        (n ++ (b'=' ∷ (v ++ 0 ∷ rest)))
        (compare_name name (n ++ (b'=' ∷ (v ++ 0 ∷ rest))))
unfolding taken
compare_name-taken [] [] v rest p q t =
    rw (compare_none (b'=' ∷ (v ++ 0 ∷ rest))) (refl, refl, before_zero_text v rest t)
compare_name-taken [] (d ∷ ds) v rest p q t =
    rw (compare_none (d ∷ (ds ++ (b'=' ∷ (v ++ 0 ∷ rest))))) (other_char d b'=' q.1, omega arith)
compare_name-taken (c ∷ []) [] [] rest p q t =
    rw (compare_one c b'=' (0 ∷ rest)) (refl, omega arith)
compare_name-taken (c ∷ []) [] (e ∷ v) rest p q t = elim (Bool-cases (e == b'=')) [
  | inl same ↦
      rw (compare_one c b'=' (e ∷ (v ++ 0 ∷ rest)), same)
        (refl, ground arith, before_zero_text v rest t.1)
  | inr other ↦ rw (compare_one c b'=' (e ∷ (v ++ 0 ∷ rest)), other) (other, omega arith)
]
compare_name-taken (c ∷ c' ∷ cs) [] v rest p q t =
    rw (compare_other c c' b'=' cs (v ++ 0 ∷ rest) (other_char b'=' c (λ e. p.1 (sym e))))
      (refl, omega arith)
compare_name-taken (c ∷ []) (d ∷ []) v rest p q t =
    rw (compare_one c d (b'=' ∷ (v ++ 0 ∷ rest))) (refl, refl, before_zero_text v rest t)
compare_name-taken (c ∷ []) (d ∷ d' ∷ ds) v rest p q t =
    rw (compare_one c d (d' ∷ (ds ++ (b'=' ∷ (v ++ 0 ∷ rest)))))
      (other_char d' b'=' q.2.1, omega arith)
compare_name-taken (c ∷ c' ∷ cs) (d ∷ ds) v rest p q t = elim (Bool-cases (d == c)) [
  | inl same ↦
      let here : List ℕ = ds ++ (b'=' ∷ (v ++ 0 ∷ rest)) in
      let bound : size (d ∷ ds) v ≡ suc (size ds v) = omega arith in
      rw (compare_same c d (c' ∷ cs) here same, same, bound)
        (Compared-suc (taken (c' ∷ cs) ds v) (size ds v) d here (compare_name (c' ∷ cs) here)
          (compare_name-taken (c' ∷ cs) ds v rest p.2 q.2 t))
  | inr other ↦
      rw (compare_other c c' d cs (ds ++ (b'=' ∷ (v ++ 0 ∷ rest))) other, other) (refl, omega arith)
]
