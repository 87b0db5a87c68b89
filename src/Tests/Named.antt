-- ===== src/Tests/Named.antt =====
-- Files of named values: two ports and an address, written, read and mixed up.
use smart_home_xiugai.Prelude.{
  ℕ, ◌+◌, ◌≡◌, refl, List, [], ◌∷◌, ◌++◌, true, false, arith, replicate, length, length-replicate,
  inl, inr, ◌<◌, ◌≤◌, ◌≢◌,
}
use smart_home_xiugai.Storage.Xin.{
  int_text, digits, digit, hex_loop, atoi, Xin, xin_maxsize, xin_read_int, xin_str_to_int,
  find_variable,
}
use smart_home_xiugai.Storage.Xin.Lines.{Var, text}
use smart_home_xiugai.Storage.Xin.Run.{first}
use smart_home_xiugai.Storage.Xin.Find.{Stands, find_variable-first}
use smart_home_xiugai.Storage.Xin.Write.{str, int, hex}
use smart_home_xiugai.Storage.Xin.Saved.{Entry, lines, IsEntries, save_values}
use smart_home_xiugai.Storage.Xin.RoundTrip.{load_values, values, load_values-save_values}
use smart_home_xiugai.Storage.Xin.AnyOrder.{Apart, Asked, load_values-Asked, xin_read_int-confuses}

blank : List ℕ
blank = replicate (xin_maxsize + 128) 0

length-blank : length blank ≡ xin_maxsize + 128
unfolding blank
length-blank = length-replicate {A = ℕ} (xin_maxsize + 128) 0

abbrev closed : Xin
closed = record { len = 0; openflag = 0; buffer = blank; pscan = 0; locked = false }

-- "p1" and "p2" with numbers, "ct" with bytes, "ip" with a text.
abbrev entries : List Entry
entries =
    (b'p' ∷ b'1' ∷ [], int 8300 false)
    ∷ (b'p' ∷ b'2' ∷ [], int 4294967295 false)
    ∷ (b'c' ∷ b't' ∷ [], hex (0x1a ∷ 0xff ∷ []))
    ∷ (b'i' ∷ b'p' ∷ [], str (b'1' ∷ b'.' ∷ b'2' ∷ []))
    ∷ []

entries-IsEntries : IsEntries entries
entries-IsEntries = omega arith

some_text : 0 < length (text (lines entries))
unfolding int_text digits digit
some_text = omega arith

fits : length (text (lines entries)) ≤ xin_maxsize
unfolding int_text digits digit
fits = omega arith

load_values-save_values_example :
    load_values (b'f' ∷ []) (7 ∷ []) 5 entries (save_values (b'f' ∷ []) entries closed) closed
    ≡ values entries
load_values-save_values_example =
    load_values-save_values (b'f' ∷ []) (7 ∷ []) 5 entries closed closed (omega arith) refl
      length-blank refl length-blank entries-IsEntries some_text fits

-- The address, the bytes and the address again.
abbrev asked : List Entry
asked =
    (b'i' ∷ b'p' ∷ [], str (b'1' ∷ b'.' ∷ b'2' ∷ []))
    ∷ (b'c' ∷ b't' ∷ [], hex (0x1a ∷ 0xff ∷ []))
    ∷ (b'i' ∷ b'p' ∷ [], str (b'1' ∷ b'.' ∷ b'2' ∷ []))
    ∷ []

other : (c d : ℕ) (cs ds : List ℕ) → c ≢ d → c ∷ cs ≢ d ∷ ds
other c d cs ds h e = h (cc e)

address-Apart : Apart (b'i' ∷ b'p' ∷ []) (str (b'1' ∷ b'.' ∷ b'2' ∷ [])) entries
address-Apart = (
  inr (other b'i' b'p' [] [] (omega arith)),
  (
    inr (other b'i' b'p' [] [] (omega arith)),
    (inr (other b'i' b'c' [] [] (omega arith)), (inl (refl, refl), tt)),
  ),
)

bytes-Apart : Apart (b'c' ∷ b't' ∷ []) (hex (0x1a ∷ 0xff ∷ [])) entries
bytes-Apart = (
  inr (other b'c' b'p' [] [] (omega arith)),
  (
    inr (other b'c' b'p' [] [] (omega arith)),
    (inl (refl, refl), (inr (other b'c' b'i' [] [] (omega arith)), tt)),
  ),
)

asked-Asked : Asked asked entries
asked-Asked = (
  omega arith,
  omega arith,
  inr (inr (inr (inl (refl, refl)))),
  address-Apart,
  (
    omega arith,
    omega arith,
    inr (inr (inl (refl, refl))),
    bytes-Apart,
    (omega arith, omega arith, inr (inr (inr (inl (refl, refl)))), address-Apart, tt),
  ),
)

load_values-Asked_example :
    load_values (b'f' ∷ []) (7 ∷ []) 5 asked (save_values (b'f' ∷ []) entries closed) closed
    ≡ values asked
load_values-Asked_example =
    load_values-Asked (b'f' ∷ []) (7 ∷ []) 5 entries asked closed closed (omega arith) refl
      length-blank refl length-blank entries-IsEntries some_text fits asked-Asked

-- A file with "p2=7" alone, open for reading.
abbrev second_port : Var
second_port = (b'p' ∷ b'2' ∷ [], b'7' ∷ [])

abbrev opened_port : Xin
opened_port = record {
  len = 5;
  openflag = b'r';
  buffer = text (second_port ∷ []) ++ 0 ∷ 0 ∷ [];
  pscan = 0;
  locked = true;
}

find_variable-first_example :
    Stands
      (second_port ∷ [])
      (first (b'p' ∷ b'2' ∷ []) (second_port ∷ []))
      (find_variable (b'p' ∷ b'2' ∷ []) opened_port)
find_variable-first_example =
    find_variable-first [] (b'p' ∷ b'2' ∷ []) opened_port [] (second_port ∷ []) (omega arith) refl
      refl (omega arith) (λ e. cc)

xin_read_int-confuses_example :
    (xin_read_int opened_port (b'p' ∷ b'1' ∷ []) 8300).0 ≡ xin_str_to_int (b'7' ∷ [])
xin_read_int-confuses_example =
    xin_read_int-confuses [] (b'p' ∷ []) (b'7' ∷ []) b'1' b'2' 8300 opened_port [] [] (omega arith)
      refl refl refl (omega arith)

-- The same by running the code.
confused_run : (xin_read_int opened_port (b'p' ∷ b'1' ∷ []) 8300).0 ≡ 7
unfolding xin_read_int xin_str_to_int find_variable hex_loop atoi
confused_run = refl
