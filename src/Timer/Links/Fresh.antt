-- ===== src/Timer/Links/Fresh.antt =====
-- Nodes that are in no list, and lists without repetitions.
use smart_home_xiugai.Prelude.{
  ℕ, zero, suc, ◌≡◌, ◌≢◌, ◌≤◌, ◌<◌, refl, List, [], ◌∷◌, ◌++◌, length, arith, sym, ◌==◌,
  if◌then◌else◌, Bool-cases, inl, inr,
}

abbrev pub Fresh : ℕ → List ℕ → Type 0
Fresh i [] = Unit {0}
Fresh i (x ∷ l) = (i ≢ x) × Fresh i l

abbrev pub Distinct : List ℕ → Type 0
Distinct [] = Unit {0}
Distinct (x ∷ l) = Fresh x l × Distinct l

Fresh-remove : (i : ℕ) (l : List ℕ) (x : ℕ) (r : List ℕ) → Fresh i (l ++ x ∷ r) → Fresh i (l ++ r)
Fresh-remove i [] x r h = h.1
Fresh-remove i (y ∷ l) x r h = (h.0, Fresh-remove i l x r h.1)

pub Distinct-remove : (l : List ℕ) (x : ℕ) (r : List ℕ) → Distinct (l ++ x ∷ r) → Distinct (l ++ r)
Distinct-remove [] x r h = h.1
Distinct-remove (y ∷ l) x r h = (Fresh-remove y l x r h.0, Distinct-remove l x r h.1)

Fresh-concat : (j i : ℕ) (l : List ℕ) → j ≢ i → Fresh j l → Fresh j (l ++ i ∷ [])
Fresh-concat j i [] h fresh = (h, tt)
Fresh-concat j i (y ∷ l) h fresh = (fresh.0, Fresh-concat j i l h fresh.1)

pub Distinct-concat : (l : List ℕ) (i : ℕ) → Fresh i l → Distinct l → Distinct (l ++ i ∷ [])
Distinct-concat [] i fresh d = (tt, tt)
Distinct-concat (y ∷ l) i fresh d =
    (Fresh-concat y i l (λ e. fresh.0 (sym e)) d.0, Distinct-concat l i fresh.1 d.1)

pub append-Fresh : (i : ℕ) (l r : List ℕ) → Fresh i l → Fresh i r → Fresh i (l ++ r)
append-Fresh i [] r h k = k
append-Fresh i (x ∷ l) r h k = (h.0, append-Fresh i l r h.1 k)

pub Fresh-append : (i : ℕ) (l r : List ℕ) → Fresh i (l ++ r) → Fresh i l × Fresh i r
Fresh-append i [] r h = (tt, h)
Fresh-append i (x ∷ l) r h = let (a, b) = Fresh-append i l r h.1 in ((h.0, a), b)

-- A node in the middle of a list without repetitions is not in the rest of it.
pub Distinct-middle :
    (l : List ℕ) (x : ℕ) (r : List ℕ) → Distinct (l ++ x ∷ r) → Fresh x l × Fresh x r
Distinct-middle [] x r d = (tt, d.0)
Distinct-middle (y ∷ l) x r d =
    let (a, b) = Distinct-middle l x r d.1 in
    (((λ e. (Fresh-append y l (x ∷ r) d.0).1.0 (sym e)), a), b)

-- A list without repetitions of nodes below `n` has at most `n` nodes.
abbrev pub Below : ℕ → List ℕ → Type 0
Below n [] = Unit {0}
Below n (x ∷ l) = (x < n) × Below n l

without : ℕ → List ℕ → List ℕ
without n [] = []
without n (x ∷ l) = let rest = without n l in if x == n then rest else x ∷ rest

length-without-Fresh : (n : ℕ) (l : List ℕ) → Fresh n l → length (without n l) ≡ length l
unfolding without
length-without-Fresh n [] h = refl
length-without-Fresh n (x ∷ l) h = ground (arith, length-without-Fresh n l h.1, h.0)

length-without : (n : ℕ) (l : List ℕ) → Distinct l → length l ≤ suc (length (without n l))
unfolding without
length-without n [] d = omega arith
length-without n (x ∷ l) d = ground (arith, length-without n l d.1, length-without-Fresh n l)

Fresh-without : (i n : ℕ) (l : List ℕ) → Fresh i l → Fresh i (without n l)
unfolding without
Fresh-without i n [] h = tt
Fresh-without i n (x ∷ l) h = elim (Bool-cases (x == n)) [
  | inl same ↦ rw same (Fresh-without i n l h.1)
  | inr other ↦ rw other (h.0, Fresh-without i n l h.1)
]

Distinct-without : (n : ℕ) (l : List ℕ) → Distinct l → Distinct (without n l)
unfolding without
Distinct-without n [] d = tt
Distinct-without n (x ∷ l) d = elim (Bool-cases (x == n)) [
  | inl same ↦ rw same (Distinct-without n l d.1)
  | inr other ↦ rw other (Fresh-without x n l d.0, Distinct-without n l d.1)
]

Below-without : (n : ℕ) (l : List ℕ) → Below (suc n) l → Below n (without n l)
unfolding without
Below-without n [] b = tt
Below-without n (x ∷ l) b = elim (Bool-cases (x == n)) [
  | inl same ↦ rw same (Below-without n l b.1)
  | inr other ↦ rw other (ground (arith, b.0), Below-without n l b.1)
]

pub length-Distinct : (n : ℕ) (l : List ℕ) → Below n l → Distinct l → length l ≤ n
length-Distinct zero [] b d = omega arith
length-Distinct zero (x ∷ l) b d = elim b.0 [ ]
length-Distinct (suc n) l b d = omega (
  arith,
  length-without n l d,
  length-Distinct n (without n l) (Below-without n l b) (Distinct-without n l d),
)
