-- ===== src/Storage/Xin/RoundTrip.antt =====
-- A file of named values read again: in the order of writing, in any order, and by a wrong name.
use smart_home_xiugai.Prelude.{
  ℕ, suc, ◌+◌, ◌-◌, ◌*◌, ◌<◌, ◌≤◌, List, [], ◌∷◌, ◌++◌, length, drop, Option, none, some, true,
  false, ◌==◌, ◌≡◌, refl, ap, ◌∙◌, arith, length-append,
}
use mathlib.Core.List.{append_assoc}
use mathlib.Core.Path.{subst}
use smart_home_xiugai.Base64.{before_zero}
use smart_home_xiugai.Storage.Xin.{
  Xin, opened, waits, refused, xin_maxsize, xin_maxfilename, xin_open, Search, found, absent, lost,
  find_loop, find_variable,
}
use smart_home_xiugai.Storage.Xin.Lines.{
  Var, IsName, IsVars, text, size, taken, length-line, drop-append,
}
use smart_home_xiugai.Storage.Xin.Run.{Yields, find_loop-line, not_ended}
use smart_home_xiugai.Storage.Xin.Find.{find_variable_at, text-append, length-text, IsVars-right}
use smart_home_xiugai.Storage.Xin.Write.{Value, value_text, value_text-IsText, Holds}
use smart_home_xiugai.Storage.Xin.Saved.{
  Entry, lines, IsEntries, file_of, save_values, write_all-Holds, xin_open-w, xin_close-Holds,
}
use smart_home_xiugai.Storage.Xin.Loaded.{Shows, xin_open-r}
use smart_home_xiugai.Storage.Xin.Values.{read_value, read_value-found}

-- One reading operation after the other, and the values that the caller has then.
pub read_all : List ℕ → ℕ → List Entry → Xin → List Value
read_all buffer defvalue [] x = []
read_all buffer defvalue ((n, v) ∷ es) x =
    let (got, x') = read_value buffer defvalue x n v in got ∷ read_all buffer defvalue es x'

-- Opening the file and reading.
pub load_values : List ℕ → List ℕ → ℕ → List Entry → Option (List ℕ) → Xin → List Value
load_values filename buffer defvalue es file y = elim (xin_open filename b'r' file y) [
  | opened z ↦ read_all buffer defvalue es z
  | waits ↦ []
  | refused _ ↦ []
]

abbrev pub values : List Entry → List Value
values [] = []
values ((n, v) ∷ es) = v ∷ values es

pub lines-IsVars : (es : List Entry) → IsEntries es → IsVars (lines es)
lines-IsVars [] h = tt
lines-IsVars ((n, v) ∷ es) (q, t, h) = (q, value_text-IsText v t, lines-IsVars es h)

pub taken_self : (n v : List ℕ) → taken n n v ≡ some v
unfolding taken
taken_self [] v = refl
taken_self (c ∷ []) v = refl
taken_self (c ∷ c' ∷ n) v =
    let same : (c == c) ≡ true = ground arith in rw same (taken_self (c' ∷ n) v)

pub found_of :
    (r : Search) (w : List ℕ) (p : ℕ)
    → Yields r (some w) p
    → (value : List ℕ) × (r ≡ found value p) × (before_zero value ≡ w)
found_of (found value pscan) w p (e, at) = (value, ap (found value) at, e)
found_of (absent pscan) w p h = absurd h
found_of lost w p h = absurd h

-- The next line is found at once, whatever the name's last character is.
pub find_variable-next :
    (memory name n v : List ℕ) (x : Xin) (pre post : List Var)
    → IsName name
    → x.buffer ≡ text (pre ++ (n, v) ∷ post) ++ 0 ∷ 0 ∷ memory
    → x.pscan ≡ length (text pre)
    → IsVars (pre ++ (n, v) ∷ post)
    → taken name n v ≡ some v
    → Yields (find_variable name x) (some v) (length (text (pre ++ (n, v) ∷ [])))
find_variable-next memory name n v x pre post named holds stands vars match =
    let at : ℕ = length (text pre) in
    let rest : List ℕ = text post ++ 0 ∷ 0 ∷ memory in
    let here : drop at x.buffer ≡ n ++ (b'=' ∷ (v ++ 0 ∷ rest)) =
      ap (drop at) (holds ∙ rw (text-append pre ((n, v) ∷ post)) (append_assoc (text pre) _ _))
      ∙ drop-append (text pre) (text ((n, v) ∷ post) ++ 0 ∷ 0 ∷ memory)
      ∙ simp append_assoc in
    let (q, t, _) = IsVars-right pre ((n, v) ∷ post) vars in
    let fuel : ℕ = 2 * length x.buffer - 1 in
    let enough : 2 * length x.buffer ≡ suc fuel =
      omega
        (arith, ap length holds, length-append (text (pre ++ (n, v) ∷ post)) (0 ∷ 0 ∷ memory)) in
    let round =
      find_loop-line x.buffer name at named fuel at at false false n v rest
        (not_ended false n v rest (drop at x.buffer) q t here) refl refl here q t in
    let behind : at + size n v + 1 ≡ length (text (pre ++ (n, v) ∷ [])) =
      omega (arith, length-text pre ((n, v) ∷ []), length-line n v []) in
    rw (find_variable_at name x at stands, enough)
      (subst (λ (p : ℕ). Yields (find_loop (suc fuel) x.buffer name at false at) (some v) p) behind
        (rw match at round))

pub read_all-cons :
    (buffer : List ℕ) (defvalue : ℕ) (n : List ℕ) (v : Value) (es : List Entry) (x x' : Xin)
    → read_value buffer defvalue x n v ≡ (v, x')
    → read_all buffer defvalue ((n, v) ∷ es) x ≡ v ∷ read_all buffer defvalue es x'
unfolding read_all
read_all-cons buffer defvalue n v es x x' e = rw e refl

pub read_all-nil : (buffer : List ℕ) (defvalue : ℕ) (x : Xin) → read_all buffer defvalue [] x ≡ []
unfolding read_all
read_all-nil buffer defvalue x = refl

read_all-in_order :
    (buffer : List ℕ) (defvalue : ℕ) (es : List Entry) (pre : List Var) (x : Xin)
    → Shows (pre ++ lines es) x
    → IsVars (pre ++ lines es)
    → IsEntries es
    → x.pscan ≡ length (text pre)
    → read_all buffer defvalue es x ≡ values es
read_all-in_order buffer defvalue [] pre x shows vars p stands = read_all-nil buffer defvalue x
read_all-in_order buffer defvalue ((n, v) ∷ es) pre x shows vars (q, t, p) stands =
    let line : Var = (n, value_text v) in
    let split : pre ++ line ∷ lines es ≡ (pre ++ line ∷ []) ++ lines es = simp append_assoc in
    let next =
      find_variable-next shows.memory n n (value_text v) x pre (lines es) q shows.bytes stands vars
        (taken_self n (value_text v)) in
    let (value, search, got) =
      found_of (find_variable n x) (value_text v) (length (text (pre ++ line ∷ []))) next in
    let x' : Xin = record x { pscan = length (text (pre ++ line ∷ [])) } in
    let shows' : Shows ((pre ++ line ∷ []) ++ lines es) x' = record {
      flag = shows.flag;
      memory = shows.memory;
      bytes = subst (λ (l : List Var). x.buffer ≡ text l ++ 0 ∷ 0 ∷ shows.memory) split shows.bytes;
    } in
    read_all-cons buffer defvalue n v es x x' (
      read_value-found x n value (length (text (pre ++ line ∷ []))) shows.flag search buffer
        defvalue v t got)
    ∙ ap (◌∷◌ v) (
        read_all-in_order buffer defvalue es (pre ++ line ∷ []) x' shows' (subst IsVars split vars)
          p refl)

-- The file that the writing operations make.
pub save_values-file :
    (filename : List ℕ) (es : List Entry) (x : Xin)
    → length filename < xin_maxfilename
    → x.locked ≡ false
    → length x.buffer ≡ xin_maxsize + 128
    → IsEntries es
    → 0 < length (text (lines es))
    → length (text (lines es)) ≤ xin_maxsize
    → save_values filename es x ≡ some (file_of (lines es))
unfolding save_values
save_values-file filename es x short free room p some_text fits =
    let start : Xin = record x { openflag = b'w'; pscan = 0; locked = true; len = 0 } in
    let holds : Holds [] start = record {
      flag = refl;
      len_is = refl;
      pscan_is = refl;
      memory = x.buffer;
      bytes = refl;
      room = room;
    } in
    let (x', written, holds') = write_all-Holds es [] start holds p fits in
    rw (xin_open-w filename none x short free, save_values)
      (rw (written, save_values) (xin_close-Holds (lines es) none x' holds' some_text fits))

pub load_values-file :
    (filename buffer : List ℕ) (defvalue : ℕ) (es : List Entry) (vars : List Var) (y : Xin)
    → length filename < xin_maxfilename
    → y.locked ≡ false
    → length y.buffer ≡ xin_maxsize + 128
    → 0 < length (text vars)
    → length (text vars) ≤ xin_maxsize
    → (z : Xin) × (load_values filename buffer defvalue es (some (file_of vars)) y
        ≡ read_all buffer defvalue es z)
      × Shows vars z
      × (z.pscan ≡ 0)
unfolding load_values
load_values-file filename buffer defvalue es vars y short free room some_text fits =
    let opening = xin_open-r filename vars y short free some_text fits room in
    (
      record {
        len = length (text vars);
        openflag = b'r';
        buffer = text vars ++ 0 ∷ 0 ∷ drop 2 (drop (length (text vars)) y.buffer);
        pscan = 0;
        locked = true;
      },
      rw (opening, load_values) refl,
      record { flag = refl; memory = drop 2 (drop (length (text vars)) y.buffer); bytes = refl },
      refl,
    )

-- What is written to a file by the operations for texts, integers in both forms and bytes is read back
-- by the operations for reading in the same order, even where names are alike: the file is written from
-- one reference and read into another, and every value comes back.
-- Conditions: both references are not locked and have their whole buffer, the file's name has less than
-- its maximal length, the names of the variables have no 0 and no '=', texts have no 0, integers are
-- below 2 ^ 32, bytes are bytes, and the file is not empty and fits in the buffer.
pub load_values-save_values :
    (filename buffer : List ℕ) (defvalue : ℕ) (es : List Entry) (x y : Xin)
    → length filename < xin_maxfilename
    → x.locked ≡ false
    → length x.buffer ≡ xin_maxsize + 128
    → y.locked ≡ false
    → length y.buffer ≡ xin_maxsize + 128
    → IsEntries es
    → 0 < length (text (lines es))
    → length (text (lines es)) ≤ xin_maxsize
    → load_values filename buffer defvalue es (save_values filename es x) y ≡ values es
load_values-save_values filename buffer defvalue es x y short free room free' room' p some_text
      fits =
    let (z, loaded, shows, stands) =
      load_values-file filename buffer defvalue es (lines es) y short free' room' some_text fits in
    rw (save_values-file filename es x short free room p some_text fits)
      (loaded ∙ read_all-in_order buffer defvalue es [] z shows (lines-IsVars es p) p stands)
