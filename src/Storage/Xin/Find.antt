-- ===== src/Storage/Xin/Find.antt =====
-- `FindVariable` gives the first value from the line it stands at on, round the end of the file.
use smart_home_xiugai.Prelude.{
  ℕ, zero, suc, ◌+◌, ◌-◌, ◌*◌, ◌≤◌, List, [], ◌∷◌, ◌++◌, length, get_or, drop, Option, none, some,
  true, false, leb, ◌==◌, ◌≡◌, ◌≢◌, refl, sym, ap, ◌∙◌, inl, inr, arith, ==_iff, length-append,
}
use mathlib.Core.List.{append_assoc}
use native.Mathlib.Nat.{zero-add}
use smart_home_xiugai.Storage.Xin.{Xin, Search, absent, find_loop, find_variable}
use smart_home_xiugai.Storage.Xin.Lines.{
  Var, IsText, IsName, IsVars, text, size, length-line, drop_line, drop-append, taken,
}
use smart_home_xiugai.Storage.Xin.Run.{
  or_else, first, Yields, Round, Ran, Ran-cons, find_loop-line, run_lines,
}

-- The search has the value `w` and stands at the start of a line, or behind the last.
pub record Stands (vars : List Var) (w : Option (List ℕ)) (r : Search) : Type 0 where
  pub done : List Var
  pub rest : List Var
  pub split : vars ≡ done ++ rest
  pub yields : Yields r w (length (text done))

pub first-append :
    (name : List ℕ) (xs ys : List Var)
    → first name (xs ++ ys) ≡ or_else (first name xs) (first name ys)
unfolding first
first-append name [] ys = refl
first-append name ((n, v) ∷ xs) ys =
    ap (or_else (taken name n v)) (first-append name xs ys)
    ∙ or_else_assoc (taken name n v) (first name xs) (first name ys)
  where
    or_else_assoc : (a b c : Option (List ℕ)) → or_else a (or_else b c) ≡ or_else (or_else a b) c
    or_else_assoc (some w) b c = refl
    or_else_assoc none b c = refl

pub text-append : (xs ys : List Var) → text (xs ++ ys) ≡ text xs ++ text ys
text-append [] ys = refl
text-append ((n, v) ∷ xs) ys = rw (text-append xs ys) (simp append_assoc)

pub length-text :
    (xs ys : List Var) → length (text (xs ++ ys)) ≡ length (text xs) + length (text ys)
length-text xs ys = ap length (text-append xs ys) ∙ length-append (text xs) (text ys)

pub IsVars-left : (xs ys : List Var) → IsVars (xs ++ ys) → IsVars xs
IsVars-left [] ys h = tt
IsVars-left ((n, v) ∷ xs) ys (q, t, h) = (q, t, IsVars-left xs ys h)

pub IsVars-right : (xs ys : List Var) → IsVars (xs ++ ys) → IsVars ys
IsVars-right [] ys h = h
IsVars-right ((n, v) ∷ xs) ys (q, t, h) = IsVars-right xs ys h

-- Every line takes a byte at least.
pub lines_le : (ls : List Var) → length ls ≤ length (text ls)
lines_le [] = omega arith
lines_le ((n, v) ∷ ls) = omega (arith, length-line n v (text ls), lines_le ls)

first_none :
    (name n v : List ℕ) (ls : List Var) → first name ((n, v) ∷ ls) ≡ none → taken name n v ≡ none
unfolding first
first_none name n v ls = pick (taken name n v) (first name ls)
  where
    pick : (o l : Option (List ℕ)) → or_else o l ≡ none → o ≡ none
    pick none l e = refl
    pick (some w) l e = cc

module _ (buffer name : List ℕ) (pbak : ℕ) (named : IsName name) where
  -- The run that starts again at the first line.
  from_start :
      (all pscan : ℕ) (n v : List ℕ) (ls : List Var) (behind : List ℕ) (final : Search)
      → get_or (drop pscan buffer) 0 0 ≡ 0
      → buffer ≡ text ((n, v) ∷ ls) ++ behind
      → IsName n
      → IsText v
      → Ran
          (first name ls)
          ls
          (0 + size n v + 1)
          (find_loop all buffer name pbak true (0 + size n v + 1))
          final
      → Ran
          (first name ((n, v) ∷ ls))
          ((n, v) ∷ ls)
          0
          (find_loop (suc all) buffer name pbak false pscan)
          final
  unfolding first
  from_start all pscan n v ls behind final ended b q t later =
      let rest : List ℕ = text ls ++ behind in
      let line : buffer ≡ n ++ (b'=' ∷ (v ++ 0 ∷ rest)) = b ∙ simp append_assoc in
      let stop : (get_or (drop pscan buffer) 0 0 == 0) ≡ true = (==_iff _ 0).1 ended in
      let round =
        find_loop-line buffer name pbak named all pscan 0 false true n v rest stop refl refl line q
          t in
      Ran-cons n v ls 0 _ _ _ (taken name n v) (first name ls) round later

ended_here :
    (memory buffer : List ℕ) (vars : List Var)
    → buffer ≡ text vars ++ 0 ∷ 0 ∷ memory
    → get_or (drop (length (text vars)) buffer) 0 0 ≡ 0
ended_here memory buffer vars holds = rw (holds, drop-append (text vars) (0 ∷ 0 ∷ memory)) refl

module _ (memory name : List ℕ) (x : Xin) (pre post : List Var) (named : IsName name)
    (holds : x.buffer ≡ text (pre ++ post) ++ 0 ∷ 0 ∷ memory) (stands : x.pscan ≡ length (text pre))
    (vars : IsVars (pre ++ post)) where
  drop_pre : drop (length (text pre)) x.buffer ≡ text post ++ 0 ∷ 0 ∷ memory
  drop_pre =
      ap (drop (length (text pre)))
        (holds ∙ rw (text-append pre post) (append_assoc (text pre) _ _))
      ∙ drop-append (text pre) (text post ++ 0 ∷ 0 ∷ memory)

  -- The lines from `pscan` on.
  before_end :
      (all fuel : ℕ)
      → all ≡ length post + fuel
      → Ran
          (first name post)
          post
          (length (text pre))
          (find_loop all x.buffer name (length (text pre)) false (length (text pre)))
          (find_loop fuel x.buffer name (length (text pre)) false (length (text (pre ++ post))))
  before_end all fuel e = rw (length-text pre post) (
      run_lines x.buffer name (length (text pre)) named post fuel all (length (text pre)) false
        (0 ∷ 0 ∷ memory) e drop_pre (inl refl) (IsVars-right pre post vars))

  -- What the run behind `pscan` gives, and what is given from the first line on.
  joined :
      (a b : Option (List ℕ)) (r more : Search)
      → Ran a post (length (text pre)) r more
      → (a ≡ none → Stands (pre ++ post) b more)
      → Stands (pre ++ post) (or_else a b) r
  joined (some w) b r more (done, rest, split, yields) later = record {
    done = pre ++ done;
    rest = rest;
    split = ap (◌++◌ pre) split ∙ sym (append_assoc pre done rest);
    yields = rw (length-text pre done) yields;
  }
  joined none b r more run later = rw run (later refl)

  abbrev fuel_left : ℕ
  fuel_left = 2 * length x.buffer - length post

  enough : length (pre ++ post) + 2 ≤ length x.buffer
  enough = omega (
    arith,
    ap length holds,
    length-append (text (pre ++ post)) (0 ∷ 0 ∷ memory),
    lines_le (pre ++ post),
  )

find_loop-absent :
    (fuel : ℕ) (buffer name : List ℕ) (pbak pscan : ℕ)
    → pbak ≤ pscan
    → find_loop (suc fuel) buffer name pbak true pscan ≡ absent pscan
unfolding find_loop
find_loop-absent fuel buffer name pbak pscan h =
    let outside : leb pbak pscan ≡ true = ground arith in rw outside refl

-- From what the first run gives to what the search gives.
Stands-of-Ran :
    (pre post : List Var) (o : Option (List ℕ)) (r final : Search)
    → Ran o pre 0 r final
    → (o ≡ none → Stands (pre ++ post) none final)
    → Stands (pre ++ post) o r
Stands-of-Ran pre post (some w) r final (done, rest, split, yields) later = record {
  done = done;
  rest = rest ++ post;
  split = ap (λ (l : List Var). l ++ post) split ∙ append_assoc done rest post;
  yields = rw zero-add at yields;
}
Stands-of-Ran pre post none r final run later = rw run (later refl)

-- The second run, where `pscan` is at the first line.
none_before :
    (memory name : List ℕ) (x : Xin) (post : List Var) (all : ℕ)
    → IsName name
    → x.buffer ≡ text post ++ 0 ∷ 0 ∷ memory
    → IsVars post
    → post ≢ []
    → first name post ≡ none
    → Stands post none (find_loop (suc (suc all)) x.buffer name 0 false (length (text post)))
none_before memory name x [] all named holds vars some_line missing = absurd (some_line refl)
none_before memory name x ((n, v) ∷ ls) all named holds (q, t, vars) some_line missing =
    let rest : List ℕ = text ls ++ 0 ∷ 0 ∷ memory in
    let line : x.buffer ≡ n ++ (b'=' ∷ (v ++ 0 ∷ rest)) = holds ∙ simp append_assoc in
    let ended = ended_here memory x.buffer ((n, v) ∷ ls) holds in
    let stop : (get_or (drop (length (text ((n, v) ∷ ls))) x.buffer) 0 0 == 0) ≡ true =
      (==_iff _ 0).1 ended in
    let round : Round none
        (find_loop (suc (suc all)) x.buffer name 0 false (length (text ((n, v) ∷ ls))))
        (find_loop (suc all) x.buffer name 0 true (0 + size n v + 1)) (0 + size n v + 1) =
      rw (first_none name n v ls missing) at (
        find_loop-line x.buffer name 0 named (suc all) (length (text ((n, v) ∷ ls))) 0 false true n
          v rest stop refl refl line q t) in
    record {
      done = (n, v) ∷ [];
      rest = ls;
      split = refl;
      yields =
          rw (round, find_loop-absent all x.buffer name 0 (0 + size n v + 1) (omega arith))
            (omega (arith, length-line n v []));
    }

-- The second run over the lines before `pscan`.
from_first :
    (memory name : List ℕ) (x : Xin) (pre post : List Var) (all fuel : ℕ)
    → IsName name
    → x.buffer ≡ text (pre ++ post) ++ 0 ∷ 0 ∷ memory
    → IsVars (pre ++ post)
    → pre ≢ []
    → all ≡ length pre + suc fuel
    → Stands
        (pre ++ post)
        (first name pre)
        (find_loop all x.buffer name (length (text pre)) false (length (text (pre ++ post))))
from_first memory name x [] post all fuel named holds vars some_line e = absurd (some_line refl)
from_first memory name x ((n, v) ∷ ls) post zero fuel named holds vars some_line e =
    absurd (omega arith)
from_first memory name x ((n, v) ∷ ls) post (suc all) fuel named holds (q, t, vars) some_line e =
    let pre : List Var = (n, v) ∷ ls in
    let behind : List ℕ = text post ++ 0 ∷ 0 ∷ memory in
    let start : x.buffer ≡ text pre ++ behind =
      holds ∙ rw (text-append pre post) (append_assoc (text pre) _ _) in
    let far : 0 + size n v + 1 + length (text ls) ≡ length (text pre) =
      omega (arith, length-line n v (text ls)) in
    let next : drop (0 + size n v + 1) x.buffer ≡ text ls ++ behind =
      rw zero-add (
        ap (drop (size n v + 1)) (start ∙ simp append_assoc) ∙ drop_line n v (text ls ++ behind)) in
    let later =
      run_lines x.buffer name (length (text pre)) named ls (suc fuel) all (0 + size n v + 1) true
        behind (omega arith) next (inr (omega arith)) (IsVars-left ls post vars) in
    let run =
      from_start x.buffer name (length (text pre)) named all (length (text (pre ++ post))) n v ls
        behind _ (ended_here memory x.buffer (pre ++ post) holds) start q t later in
    Stands-of-Ran pre post (first name pre) _ _ run (λ _. record {
      done = pre;
      rest = post;
      split = refl;
      yields =
          rw
            (find_loop-absent fuel x.buffer name (length (text pre))
              (0 + size n v + 1 + length (text ls)) (omega arith))
            far;
    })

pub find_variable_at :
    (name : List ℕ) (x : Xin) (at : ℕ)
    → x.pscan ≡ at
    → find_variable name x ≡ find_loop (2 * length x.buffer) x.buffer name at false at
unfolding find_variable
find_variable_at name x at e =
    ap (λ (k : ℕ). find_loop (2 * length x.buffer) x.buffer name k false k) e

-- `FindVariable` finds the first line that it takes for the name, from `pscan` on and then from the
-- start of the file, and stands behind it; where there is none it stands at the start of a line.
pub find_variable-first :
    (memory name : List ℕ) (x : Xin) (pre post : List Var)
    → IsName name
    → x.buffer ≡ text (pre ++ post) ++ 0 ∷ 0 ∷ memory
    → x.pscan ≡ length (text pre)
    → IsVars (pre ++ post)
    → pre ++ post ≢ []
    → Stands (pre ++ post) (first name (post ++ pre)) (find_variable name x)
unfolding first
find_variable-first memory name x [] post named holds stands vars some_line =
    let room = enough memory name x [] post named holds stands vars in
    let rounds : ℕ = 2 * length x.buffer - length post - 2 in
    rw (first-append name post [], find_variable_at name x 0 stands)
      (joined memory name x [] post named holds stands vars (first name post) none _ _
        (before_end memory name x [] post named holds stands vars (2 * length x.buffer)
          (suc (suc rounds)) (omega arith))
        (λ e. none_before memory name x post rounds named holds vars some_line e))
find_variable-first memory name x (p ∷ pre) post named holds stands vars some_line =
    let all : List Var = p ∷ pre in
    let room = enough memory name x all post named holds stands vars in
    let rounds : ℕ = 2 * length x.buffer - length post - length all - 1 in
    rw (first-append name post all, find_variable_at name x (length (text all)) stands)
      (joined memory name x all post named holds stands vars (first name post) (first name all) _ _
        (before_end memory name x all post named holds stands vars (2 * length x.buffer)
          (length all + suc rounds) (omega (arith, length-append all post)))
        (λ e.
          from_first memory name x all post (length all + suc rounds) rounds named holds vars
            (λ n. cc) refl))
