-- ===== src/Storage/Xin/AnyOrder.antt =====
-- Names that differ before their last character can be read in any order; names that do not are
-- taken for one another.
use smart_home_xiugai.Prelude.{
  ℕ, ◌+◌, ◌<◌, ◌≤◌, List, [], ◌∷◌, ◌++◌, length, take, Option, none, some, true, false, ◌==◌,
  ==_iff, ◌≡◌, ◌≢◌, ◌⊎◌, refl, sym, ap, ◌∙◌, inl, inr, arith, Bool-cases,
}
use mathlib.Core.Path.{subst}
use smart_home_xiugai.Storage.Xin.{
  Xin, xin_maxsize, xin_maxfilename, xin_str_to_int, xin_read_int, find_variable,
}
use smart_home_xiugai.Storage.Xin.Lines.{Var, IsName, IsVars, text, taken}
use smart_home_xiugai.Storage.Xin.Run.{first}
use smart_home_xiugai.Storage.Xin.Find.{Stands, find_variable-first}
use smart_home_xiugai.Storage.Xin.Write.{Value, value_text, IsValue}
use smart_home_xiugai.Storage.Xin.Saved.{Entry, lines, IsEntries, save_values}
use smart_home_xiugai.Storage.Xin.Loaded.{Shows}
use smart_home_xiugai.Storage.Xin.Values.{read_value-found, xin_read_int-found}
use smart_home_xiugai.Storage.Xin.RoundTrip.{
  read_all, load_values, values, lines-IsVars, found_of, find_variable-next, read_all-cons,
  read_all-nil, save_values-file, load_values-file, taken_self,
}

-- A name without its last character.
abbrev pub stem : List ℕ → List ℕ
stem [] = []
stem (c ∷ []) = []
stem (c ∷ c' ∷ cs) = c ∷ stem (c' ∷ cs)

-- A name is not the start of the other up to its last character.
abbrev pub AtOdds : List ℕ → List ℕ → Type 0
AtOdds n n' = stem n ≢ take (length (stem n)) n'

abbrev pub Apart : List ℕ → Value → List Entry → Type 0
Apart n v [] = Unit {0}
Apart n v ((n', v') ∷ es) = (((n ≡ n') × (v ≡ v')) ⊎ AtOdds n n') × Apart n v es

abbrev pub Among : List ℕ → Value → List Entry → Type 0
Among n v [] = ⊥
Among n v ((n', v') ∷ es) = ((n ≡ n') × (v ≡ v')) ⊎ Among n v es

-- Every entry asked for is in the file, and its name is at odds with the other names there.
abbrev pub Asked : List Entry → List Entry → Type 0
Asked [] es = Unit {0}
Asked ((n, v) ∷ asked) es = IsName n × IsValue v × Among n v es × Apart n v es × Asked asked es

taken_apart : (n n' v : List ℕ) → AtOdds n n' → taken n n' v ≡ none
unfolding taken
taken_apart [] n' v odds = absurd (odds refl)
taken_apart (c ∷ []) n' v odds = absurd (odds refl)
taken_apart (c ∷ c' ∷ cs) [] v odds = refl
taken_apart (c ∷ c' ∷ cs) (d ∷ ds) v odds = elim (Bool-cases (d == c)) [
  | inl same ↦
      let e : d ≡ c = (==_iff d c).0 same in
      rw same (
        taken_apart (c' ∷ cs) ds v
          (λ (s : stem (c' ∷ cs) ≡ take (length (stem (c' ∷ cs))) ds). odds (cc (e, s))))
  | inr other ↦ rw other refl
]

-- At each line the value `w` is taken or none, and somewhere it is taken.
abbrev Agree : List ℕ → List ℕ → List Var → Type 0
Agree n w [] = Unit {0}
Agree n w ((n', v') ∷ vs) = ((taken n n' v' ≡ none) ⊎ (taken n n' v' ≡ some w)) × Agree n w vs

abbrev Has : List ℕ → List ℕ → List Var → Type 0
Has n w [] = ⊥
Has n w ((n', v') ∷ vs) = (taken n n' v' ≡ some w) ⊎ Has n w vs

Agree-left : (n w : List ℕ) (xs ys : List Var) → Agree n w (xs ++ ys) → Agree n w xs
Agree-left n w [] ys h = tt
Agree-left n w ((n', v') ∷ xs) ys h = (h.0, Agree-left n w xs ys h.1)

Agree-right : (n w : List ℕ) (xs ys : List Var) → Agree n w (xs ++ ys) → Agree n w ys
Agree-right n w [] ys h = h
Agree-right n w ((n', v') ∷ xs) ys h = Agree-right n w xs ys h.1

Agree-append :
    (n w : List ℕ) (xs ys : List Var) → Agree n w xs → Agree n w ys → Agree n w (xs ++ ys)
Agree-append n w [] ys h k = k
Agree-append n w ((n', v') ∷ xs) ys h k = (h.0, Agree-append n w xs ys h.1 k)

Has-split : (n w : List ℕ) (xs ys : List Var) → Has n w (xs ++ ys) → Has n w xs ⊎ Has n w ys
Has-split n w [] ys h = inr h
Has-split n w ((n', v') ∷ xs) ys (inl e) = inl (inl e)
Has-split n w ((n', v') ∷ xs) ys (inr h) = elim (Has-split n w xs ys h) [
  | inl k ↦ inl (inr k)
  | inr k ↦ inr k
]

Has-left : (n w : List ℕ) (xs ys : List Var) → Has n w xs → Has n w (xs ++ ys)
Has-left n w [] ys h = elim h [ ]
Has-left n w ((n', v') ∷ xs) ys (inl e) = inl e
Has-left n w ((n', v') ∷ xs) ys (inr h) = inr (Has-left n w xs ys h)

Has-right : (n w : List ℕ) (xs ys : List Var) → Has n w ys → Has n w (xs ++ ys)
Has-right n w [] ys h = h
Has-right n w ((n', v') ∷ xs) ys h = inr (Has-right n w xs ys h)

first-Agree : (n w : List ℕ) (vs : List Var) → Agree n w vs → Has n w vs → first n vs ≡ some w
unfolding first
first-Agree n w [] h k = elim k [ ]
first-Agree n w ((n', v') ∷ vs) (inl miss, h) (inl e) = absurd (none_some (sym miss ∙ e))
  where
    none_some : none ≡ some w → ⊥
    none_some p = cc
first-Agree n w ((n', v') ∷ vs) (inr e, h) k = rw e refl
first-Agree n w ((n', v') ∷ vs) (inl miss, h) (inr k) = rw miss (first-Agree n w vs h k)

-- The order of the lines is of no account.
first-rotated :
    (n w : List ℕ) (pre post : List Var)
    → Agree n w (pre ++ post)
    → Has n w (pre ++ post)
    → first n (post ++ pre) ≡ some w
first-rotated n w pre post h k =
    first-Agree n w (post ++ pre)
      (Agree-append n w post pre (Agree-right n w pre post h) (Agree-left n w pre post h))
      (elim (Has-split n w pre post k) [
        | inl p ↦ Has-right n w post pre p
        | inr p ↦ Has-left n w post pre p
      ])

Apart-Agree :
    (n : List ℕ) (v : Value) (es : List Entry) → Apart n v es → Agree n (value_text v) (lines es)
Apart-Agree n v [] h = tt
Apart-Agree n v ((n', v') ∷ es) (inl (e, f), h) = (
  inr (
      ap (λ (m : List ℕ). taken n m (value_text v')) (sym e)
      ∙ taken_self n (value_text v')
      ∙ ap (λ (u : Value). some (value_text u)) (sym f)),
  Apart-Agree n v es h,
)
Apart-Agree n v ((n', v') ∷ es) (inr odds, h) =
    (inl (taken_apart n n' (value_text v') odds), Apart-Agree n v es h)

Among-Has :
    (n : List ℕ) (v : Value) (es : List Entry) → Among n v es → Has n (value_text v) (lines es)
Among-Has n v [] h = elim h [ ]
Among-Has n v ((n', v') ∷ es) (inl (e, f)) = inl (
    ap (λ (m : List ℕ). taken n m (value_text v')) (sym e)
    ∙ taken_self n (value_text v')
    ∙ ap (λ (u : Value). some (value_text u)) (sym f))
Among-Has n v ((n', v') ∷ es) (inr h) = inr (Among-Has n v es h)

some_entry : (n w : List ℕ) (pre post : List Var) → Has n w (pre ++ post) → pre ++ post ≢ []
some_entry n w [] [] h = elim h [ ]
some_entry n w [] (p ∷ post) h = λ e. cc
some_entry n w (p ∷ pre) post h = λ e. cc

read_all-Asked :
    (buffer : List ℕ) (defvalue : ℕ) (asked es : List Entry) (pre post : List Var) (x : Xin)
    → lines es ≡ pre ++ post
    → Shows (lines es) x
    → IsVars (lines es)
    → Asked asked es
    → x.pscan ≡ length (text pre)
    → read_all buffer defvalue asked x ≡ values asked
read_all-Asked buffer defvalue [] es pre post x split shows vars a stands =
    read_all-nil buffer defvalue x
read_all-Asked buffer defvalue ((n, v) ∷ asked) es pre post x split shows vars
      (q, t, among, apart, a) stands =
    let w : List ℕ = value_text v in
    let has : Has n w (pre ++ post) = subst (Has n w) split (Among-Has n v es among) in
    let agree : Agree n w (pre ++ post) = subst (Agree n w) split (Apart-Agree n v es apart) in
    let bytes : x.buffer ≡ text (pre ++ post) ++ 0 ∷ 0 ∷ shows.memory =
      subst (λ (l : List Var). x.buffer ≡ text l ++ 0 ∷ 0 ∷ shows.memory) split shows.bytes in
    let result : Stands (pre ++ post) (some w) (find_variable n x) =
      subst (λ (o : Option (List ℕ)). Stands (pre ++ post) o (find_variable n x))
        (first-rotated n w pre post agree has)
        (find_variable-first shows.memory n x pre post q bytes stands (subst IsVars split vars)
          (some_entry n w pre post has)) in
    let (value, search, got) =
      found_of (find_variable n x) w (length (text result.done)) result.yields in
    let x' : Xin = record x { pscan = length (text result.done) } in
    let shows' : Shows (lines es) x' = record {
      flag = shows.flag;
      memory = shows.memory;
      bytes = shows.bytes;
    } in
    read_all-cons buffer defvalue n v asked x x' (
      read_value-found x n value (length (text result.done)) shows.flag search buffer defvalue v t
        got)
    ∙ ap (◌∷◌ v) (
        read_all-Asked buffer defvalue asked es result.done result.rest x' (split ∙ result.split)
          shows' vars a refl)

-- Entries of a file can be read in any order and as often as one likes: each gives the value that was
-- written, if its name and that of every other entry differ before the last character of the name.
-- Conditions: both references are not locked and have their whole buffer, the file's name has less than
-- its maximal length, the names of the variables have no 0 and no '=', texts have no 0, integers are
-- below 2 ^ 32, bytes are bytes, and the file is not empty and fits in the buffer.
pub load_values-Asked :
    (filename buffer : List ℕ) (defvalue : ℕ) (es asked : List Entry) (x y : Xin)
    → length filename < xin_maxfilename
    → x.locked ≡ false
    → length x.buffer ≡ xin_maxsize + 128
    → y.locked ≡ false
    → length y.buffer ≡ xin_maxsize + 128
    → IsEntries es
    → 0 < length (text (lines es))
    → length (text (lines es)) ≤ xin_maxsize
    → Asked asked es
    → load_values filename buffer defvalue asked (save_values filename es x) y ≡ values asked
load_values-Asked filename buffer defvalue es asked x y short free room free' room' p some_text fits
      a =
    let (z, loaded, shows, stands) =
      load_values-file filename buffer defvalue asked (lines es) y short free' room' some_text
        fits in
    rw (save_values-file filename es x short free room p some_text fits) (
      loaded
      ∙ read_all-Asked buffer defvalue asked es [] (lines es) z refl shows (lines-IsVars es p) a
          stands)

taken_last : (n v : List ℕ) (c d : ℕ) → taken (n ++ c ∷ []) (n ++ d ∷ []) v ≡ some v
unfolding taken
taken_last [] v c d = refl
taken_last (a ∷ []) v c d = let same : (a == a) ≡ true = ground arith in rw same refl
taken_last (a ∷ b ∷ n) v c d =
    let same : (a == a) ≡ true = ground arith in rw same (taken_last (b ∷ n) v c d)

-- `XinReadInt` takes the next line for its own whenever only the last character of the names
-- differs: it gives the other variable's value and not the caller's default.
pub xin_read_int-confuses :
    (memory n v : List ℕ) (c d defvalue : ℕ) (x : Xin) (pre post : List Var)
    → IsName (n ++ c ∷ [])
    → x.openflag ≡ b'r'
    → x.buffer ≡ text (pre ++ (n ++ d ∷ [], v) ∷ post) ++ 0 ∷ 0 ∷ memory
    → x.pscan ≡ length (text pre)
    → IsVars (pre ++ (n ++ d ∷ [], v) ∷ post)
    → (xin_read_int x (n ++ c ∷ []) defvalue).0 ≡ xin_str_to_int v
xin_read_int-confuses memory n v c d defvalue x pre post q flag bytes stands vars =
    let other : List ℕ = n ++ d ∷ [] in
    let p : ℕ = length (text (pre ++ (other, v) ∷ [])) in
    let (value, search, got) = found_of (find_variable (n ++ c ∷ []) x) v p (
      find_variable-next memory (n ++ c ∷ []) other v x pre post q bytes stands vars
        (taken_last n v c d)) in
    rw (xin_read_int-found x (n ++ c ∷ []) value p flag search defvalue) (ap xin_str_to_int got)
