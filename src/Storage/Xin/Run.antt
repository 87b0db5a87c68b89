-- ===== src/Storage/Xin/Run.antt =====
-- The rounds of `FindVariable` over the lines of a file.
use smart_home_xiugai.Prelude.{
  ℕ, zero, suc, ◌+◌, ◌≤◌, List, [], ◌∷◌, ◌++◌, length, get_or, drop, Option, none, some, Bool, true,
  false, not, ◌&&◌, ◌||◌, leb, ◌==◌, if◌then◌else◌, ◌≡◌, ◌⊎◌, refl, ap, ◌∙◌, inl, inr, arith,
  Bool-cases, ==_iff,
}
use mathlib.Core.List.{append_assoc}
use native.Mathlib.Nat.{add-zero}
use native.Mathlib.Numerals.{add-one}
use mathlib.Core.Path.{subst}
use smart_home_xiugai.Base64.{before_zero}
use smart_home_xiugai.Storage.Xin.{Search, found, absent, compare_name, find_loop}
use smart_home_xiugai.Storage.Xin.Lines.{
  Var, IsText, IsName, IsVars, text, size, length-line, drop_line, drop_add, taken, Compared,
  compare_name-taken, before_zero_line, zero_in_line,
}

abbrev pub or_else : Option (List ℕ) → Option (List ℕ) → Option (List ℕ)
or_else (some w) later = some w
or_else none later = later

-- The first value taken for a name.
unfoldable pub first : List ℕ → List Var → Option (List ℕ)
first name [] = none
first name ((n, v) ∷ vs) = or_else (taken name n v) (first name vs)

-- A search has the value `w` and goes on at `p`, or has none.
abbrev pub Yields : Search → Option (List ℕ) → ℕ → Type 0
Yields (found value pscan) (some w) p = (before_zero value ≡ w) × (pscan ≡ p)
Yields (absent pscan) none p = pscan ≡ p
Yields _ _ _ = ⊥

-- What one round does at a line: it finds a value there, or goes on behind the line.
abbrev pub Round : Option (List ℕ) → Search → Search → ℕ → Type 0
Round (some w) r more next = Yields r (some w) next
Round none r more next = r ≡ more

-- The end of a round, where the comparison has come to `r`.
abbrev after_compare : List ℕ → ℕ → (ℕ → Search) → Bool × ℕ → Search
after_compare line at go r =
    if r.0 && get_or line r.1 0 == b'='
    then found (drop (r.1 + 1) line) (at + length (before_zero line) + 1)
    else go (if get_or line r.1 0 == 0 then at + r.1 + 1 else at + length (before_zero line) + 1)

after_compare-Round :
    (line : List ℕ) (limit at : ℕ) (go : ℕ → Search) (o : Option (List ℕ)) (r : Bool × ℕ)
    → length (before_zero line) ≡ limit
    → (get_or line r.1 0 ≡ 0 → r.1 ≤ limit → r.1 ≡ limit)
    → Compared o limit line r
    → Round o (after_compare line at go r) (go (at + limit + 1)) (at + limit + 1)
after_compare-Round line limit at go (some w) (end, used) len last (e, eq, value) =
    let at_equals : (get_or line used 0 == b'=') ≡ true = ground (arith, eq) in
    rw (e, at_equals, len) (simp add-one value, refl)
after_compare-Round line limit at go none (end, used) len last (stop, le) =
    elim (Bool-cases (get_or line used 0 == 0)) [
      | inl zero_here ↦
          let whole : used ≡ limit = last ((==_iff _ 0).0 zero_here) le in
          rw (stop, zero_here) (ap (λ (u : ℕ). go (at + u + 1)) whole)
      | inr inner ↦ rw (stop, inner, len) refl
    ]

-- The lines of a run, up to the first that has the value.
abbrev pub Ran : Option (List ℕ) → List Var → ℕ → Search → Search → Type 0
Ran (some w) ls at r more =
    (done : List Var) × (rest : List Var) × (ls ≡ done ++ rest)
    × Yields r (some w) (at + length (text done))
Ran none ls at r more = r ≡ more

-- A run that starts with a round at one line and goes on over the others.
pub Ran-cons :
    (n v : List ℕ) (ls : List Var) (at : ℕ) (r more final : Search) (o later : Option (List ℕ))
    → Round o r more (at + size n v + 1)
    → Ran later ls (at + size n v + 1) more final
    → Ran (or_else o later) ((n, v) ∷ ls) at r final
Ran-cons n v ls at r more final (some w) later round run =
    ((n, v) ∷ [], ls, refl, subst (Yields r (some w)) (omega (arith, length-line n v [])) round)
Ran-cons n v ls at r more final none (some w) round (done, rest, split, yields) = (
  (n, v) ∷ done,
  rest,
  ap (◌∷◌ (n, v)) split,
  rw round (subst (Yields more (some w)) (omega (arith, length-line n v (text done))) yields),
)
Ran-cons n v ls at r more final none none round run = round ∙ run

pub not_ended :
    (rescan : Bool) (n v rest here : List ℕ)
    → IsName n
    → IsText v
    → here ≡ n ++ (b'=' ∷ (v ++ 0 ∷ rest))
    → (not rescan && get_or here 0 0 == 0) ≡ false
not_ended true n v rest here q t e = refl
not_ended false n v rest here q t e = elim (Bool-cases (get_or here 0 0 == 0)) [
  | inl ended ↦ absurd (
      omega (
        arith,
        zero_in_line n v rest 0 q t (omega arith) (rw e at ((==_iff (get_or here 0 0) 0).0 ended)),
      ))
  | inr going ↦ going
]

or_false : (b : Bool) → (b || false) ≡ b
or_false true = refl
or_false false = refl

module _ (buffer name : List ℕ) (pbak : ℕ) (named : IsName name) where
  -- A round with the text that it reads written out.
  pub find_loop-suc :
      (fuel pscan at : ℕ) (rescan ended : Bool) (line : List ℕ)
      → (not rescan && get_or (drop pscan buffer) 0 0 == 0) ≡ ended
      → (rescan && leb pbak pscan) ≡ false
      → (if ended then 0 else pscan) ≡ at
      → drop at buffer ≡ line
      → find_loop (suc fuel) buffer name pbak rescan pscan ≡ (
          if (compare_name name line).0 && get_or line (compare_name name line).1 0 == b'='
          then found
              (drop ((compare_name name line).1 + 1) line)
              (at + length (before_zero line) + 1)
          else find_loop fuel buffer name pbak (rescan || ended) (
              if get_or line (compare_name name line).1 0 == 0
              then at + (compare_name name line).1 + 1
              else at + length (before_zero line) + 1))
  unfolding find_loop
  find_loop-suc fuel pscan at rescan ended line e inside p here = rw (e, inside, p, here) refl

  pub find_loop-line :
      (fuel pscan at : ℕ) (rescan ended : Bool) (n v rest : List ℕ)
      → (not rescan && get_or (drop pscan buffer) 0 0 == 0) ≡ ended
      → (rescan && leb pbak pscan) ≡ false
      → (if ended then 0 else pscan) ≡ at
      → drop at buffer ≡ n ++ (b'=' ∷ (v ++ 0 ∷ rest))
      → IsName n
      → IsText v
      → Round
          (taken name n v)
          (find_loop (suc fuel) buffer name pbak rescan pscan)
          (find_loop fuel buffer name pbak (rescan || ended) (at + size n v + 1))
          (at + size n v + 1)
  find_loop-line fuel pscan at rescan ended n v rest e inside p here q t =
      let line : List ℕ = n ++ (b'=' ∷ (v ++ 0 ∷ rest)) in
      rw (find_loop-suc fuel pscan at rescan ended line e inside p here) (
        after_compare-Round line (size n v) at (find_loop fuel buffer name pbak (rescan || ended))
          (taken name n v) (compare_name name line) (before_zero_line n v rest q t)
          (λ z le. zero_in_line n v rest (compare_name name line).1 q t le z)
          (compare_name-taken name n v rest named q t))

  before_end :
      (rescan : Bool) (at size : ℕ)
      → ((rescan ≡ false) ⊎ (at + suc size ≤ pbak))
      → (rescan && leb pbak at) ≡ false
  before_end rescan at size (inl e) = rw e
  before_end true at size (inr h) = ground arith
  before_end false at size (inr h) = refl

  pub run_lines :
      (ls : List Var) (fuel all at : ℕ) (rescan : Bool) (behind : List ℕ)
      → all ≡ length ls + fuel
      → drop at buffer ≡ text ls ++ behind
      → ((rescan ≡ false) ⊎ (at + length (text ls) ≤ pbak))
      → IsVars ls
      → Ran
          (first name ls)
          ls
          at
          (find_loop all buffer name pbak rescan at)
          (find_loop fuel buffer name pbak rescan (at + length (text ls)))
  unfolding first
  run_lines [] fuel all at rescan behind e here inside vs =
      let same : all ≡ fuel = omega arith in rw (same, add-zero) refl
  run_lines ((n, v) ∷ ls) fuel zero at rescan behind e here inside (q, t, vs) = absurd (omega arith)
  run_lines ((n, v) ∷ ls) fuel (suc all) at rescan behind e here inside (q, t, vs) =
      let rest : List ℕ = text ls ++ behind in
      let line : drop at buffer ≡ n ++ (b'=' ∷ (v ++ 0 ∷ rest)) = here ∙ simp append_assoc in
      let far : at + length (text ((n, v) ∷ ls)) ≡ at + size n v + 1 + length (text ls) =
        omega (arith, length-line n v (text ls)) in
      let next : drop (at + size n v + 1) buffer ≡ rest =
        ap (λ (k : ℕ). drop k buffer) (omega arith)
        ∙ drop_add at (size n v + 1) buffer
        ∙ ap (drop (size n v + 1)) line
        ∙ drop_line n v rest in
      let after : (rescan ≡ false) ⊎ (at + size n v + 1 + length (text ls) ≤ pbak) = elim inside [
        | inl e ↦ inl e
        | inr h ↦ inr (omega (arith, far))
      ] in
      let before : (rescan ≡ false) ⊎ (at + suc (size n v) ≤ pbak) = elim inside [
        | inl e ↦ inl e
        | inr h ↦ inr (omega (arith, far))
      ] in
      let round =
        find_loop-line all at at rescan false n v rest
          (not_ended rescan n v rest (drop at buffer) q t line)
          (before_end rescan at (size n v) before) refl line q t in
      let later : Ran (first name ls) ls (at + size n v + 1)
          (find_loop all buffer name pbak rescan (at + size n v + 1))
          (find_loop fuel buffer name pbak rescan (at + size n v + 1 + length (text ls))) =
        run_lines ls fuel all (at + size n v + 1) rescan behind (omega arith) next after vs in
      rw far (
        Ran-cons n v ls at _ _ _ (taken name n v) (first name ls) (rw (or_false rescan) at round)
          later)
