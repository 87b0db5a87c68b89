-- ===== src/Storage/Xin/Saved.antt =====
-- A file that is written and read again: `XinOpen`, the operations and `XinClose`.
use smart_home_xiugai.Prelude.{
  ℕ, ◌+◌, ◌<◌, ◌≤◌, List, [], ◌∷◌, ◌++◌, length, take, Option, none, some, true, false, ◌||◌, ltb,
  leb, ◌==◌, if◌then◌else◌, ◌≡◌, refl, sym, ap, ◌∙◌, arith, take-append_left, take-length,
}
use mathlib.Core.List.{append_assoc, append-nil}
use mathlib.Core.Path.{subst}
use smart_home_xiugai.Crc.{calculate_crc}
use smart_home_xiugai.Storage.Xin.{
  Xin, opened, xin_maxsize, xin_maxfilename, xin_head, xin_open, xin_close,
}
use smart_home_xiugai.Storage.Xin.Lines.{Var, IsName, text, size, length-line}
use smart_home_xiugai.Storage.Xin.Find.{length-text}
use smart_home_xiugai.Storage.Xin.Write.{
  Value, value_text, IsValue, write_value, write_value-Holds, Holds,
}

abbrev pub Entry : Type 0
Entry = List ℕ × Value

abbrev pub lines : List Entry → List Var
lines [] = []
lines ((n, value) ∷ es) = (n, value_text value) ∷ lines es

abbrev pub IsEntries : List Entry → Type 0
IsEntries [] = Unit {0}
IsEntries ((n, value) ∷ es) = IsName n × IsValue value × IsEntries es

-- One operation after the other; `none` where one fails.
unfoldable pub write_all : List Entry → Xin → Option Xin
write_all [] x = some x
write_all ((n, value) ∷ es) x = elim (write_value x n value) [
  | none ↦ none
  | some (rtn, x') ↦ let more = write_all es x' in if rtn == 0 then more else none
]

write_all-cons :
    (n : List ℕ) (value : Value) (es : List Entry) (x x' : Xin)
    → write_value x n value ≡ some (0, x')
    → write_all ((n, value) ∷ es) x ≡ write_all es x'
unfolding write_all
write_all-cons n value es x x' e = rw (e, write_all) refl

write_all-nil : (x : Xin) → write_all [] x ≡ some x
unfolding write_all
write_all-nil x = refl

pub write_all-Holds :
    (es : List Entry) (vars : List Var) (x : Xin)
    → Holds vars x
    → IsEntries es
    → length (text (vars ++ lines es)) ≤ xin_maxsize
    → (x' : Xin) × (write_all es x ≡ some x') × Holds (vars ++ lines es) x'
write_all-Holds [] vars x h p fits =
    (x, write_all-nil x, subst (λ (l : List Var). Holds l x) (sym (append-nil vars)) h)
write_all-Holds ((n, value) ∷ es) vars x h (q, v, p) fits =
    let split : vars ++ lines ((n, value) ∷ es) ≡ (vars ++ (n, value_text value) ∷ []) ++ lines es =
      simp append_assoc in
    let room : length (text (vars ++ lines ((n, value) ∷ es)))
        ≡ length (text vars) + (size n (value_text value) + 1 + length (text (lines es))) =
      length-text vars (lines ((n, value) ∷ es))
      ∙ ap (λ (k : ℕ). length (text vars) + k)
          (length-line n (value_text value) (text (lines es))) in
    let (x', written, h') = write_value-Holds vars n value x h q v (omega arith) in
    let (last, all, held) =
      write_all-Holds es (vars ++ (n, value_text value) ∷ []) x' h' p (rw split at fits) in
    (
      last,
      write_all-cons n value es x x' written ∙ all,
      subst (λ (l : List Var). Holds l last) (sym split) held,
    )

-- Writing a file of these values.
unfoldable pub save_values : List ℕ → List Entry → Xin → Option (List ℕ)
save_values filename es x = elim (xin_open filename b'w' none x) [
  | opened x' ↦ elim (write_all es x') [ some x'' ↦ (xin_close true none x'').0 | none ↦ none ]
  | _ ↦ none
]

-- The bytes of the file.
abbrev pub file_of : List Var → List ℕ
file_of vars = xin_head (length (text vars)) (calculate_crc (text vars)) ++ text vars

pub xin_open-w :
    (filename : List ℕ) (file : Option (List ℕ)) (x : Xin)
    → length filename < xin_maxfilename
    → x.locked ≡ false
    → xin_open filename b'w' file x
      ≡ opened (record x { openflag = b'w'; pscan = 0; locked = true; len = 0 })
unfolding xin_open
xin_open-w filename file x short free =
    let fits : leb xin_maxfilename (length filename) ≡ false = ground arith in rw (fits, free) refl

pub xin_close-Holds :
    (vars : List Var) (file : Option (List ℕ)) (x : Xin)
    → Holds vars x
    → 0 < length (text vars)
    → length (text vars) ≤ xin_maxsize
    → (xin_close true file x).0 ≡ some (file_of vars)
unfolding xin_close
xin_close-Holds vars file x h some_text fits =
    let writing : (x.openflag == b'r') ≡ false = ground (arith, h.flag) in
    let good : (x.len == 0 || ltb xin_maxsize x.len) ≡ false = ground (arith, h.len_is) in
    let written : take x.len x.buffer ≡ text vars =
      ap (λ (k : ℕ). take k x.buffer) h.len_is
      ∙ ap (take (length (text vars))) h.bytes
      ∙ take-append_left (text vars) h.memory (length (text vars)) (omega arith)
      ∙ take-length (text vars) in
    rw (writing, good, written)
      (ap (λ (k : ℕ). some (xin_head k (calculate_crc (text vars)) ++ text vars)) h.len_is)
