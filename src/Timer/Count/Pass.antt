-- ===== src/Timer/Count/Pass.antt =====
-- A pass of `CTimerProc` is a pass over the list of the timers in use.
use smart_home_xiugai.Prelude.{
  ℕ, zero, suc, ◌+◌, ◌≡◌, ◌≢◌, ◌≤◌, ◌<◌, refl, List, [], ◌∷◌, ◌++◌, length, map, Option, some, Bool,
  true, false, not, leb, ◌==◌, if◌then◌else◌, u32, arith, ap, ◌∙◌, sym, inl, inr, Bool-cases,
}
use mathlib.Core.List.{append_assoc}
use mathlib.Core.Path.{subst}
use smart_home_xiugai.Timer.Links.{upd, unlink}
use smart_home_xiugai.Timer.Links.Fresh.{Fresh, Below, Distinct-middle, length-Distinct}
use smart_home_xiugai.Timer.Links.Laws.{next_in, first_in, first_of, upd_self, upd_other}
use smart_home_xiugai.Timer.Count.{
  CTimers, max_ctimer, tman_empty, tman_valid, stop_c_timer_p, pass_one, pass_loop, c_timer_proc,
}
use smart_home_xiugai.Timer.Count.Order.{InUse, Valid, take_out-InUse}

-- A timer as its users see it.
pub record Entry : Type 0 where
  pub slot : ℕ
  pub id : ℕ
  pub proc : ℕ
  pub arg : ℕ
  pub dev : ℕ
  pub cnt : ℕ

abbrev pub entry : CTimers → ℕ → Entry
entry t i = record {
  slot = i;
  id = t.id i;
  proc = t.proc i;
  arg = t.arg i;
  dev = t.dev i;
  cnt = t.cnt i;
}

-- One pass over a list of timers: a timer whose count has reached its period starts again, its
-- function is called, and it stays unless that answers other than 0. The others count on.
abbrev pub is_due : Entry → Bool
is_due e = leb e.dev (u32 (e.cnt + 1))

abbrev pub ends : (ℕ → ℕ → ℕ) → Entry → Bool
ends rc e = not (rc e.proc e.arg == 0)

unfoldable pub tick : (ℕ → ℕ → ℕ) → List Entry → List Entry
tick rc [] = []
tick rc (e ∷ es) =
    let rest = tick rc es in
    if is_due e
    then if ends rc e then rest else record e { cnt = 0 } ∷ rest
    else record e { cnt = u32 (e.cnt + 1) } ∷ rest

unfoldable pub due : List Entry → List ℕ
due [] = []
due (e ∷ es) = let rest = due es in if is_due e then e.slot ∷ rest else rest

pub entries_frame :
    (t t' : CTimers) (x : ℕ) (l : List ℕ)
    → ((i : ℕ) → i ≢ x → entry t' i ≡ entry t i)
    → Fresh x l
    → map (entry t') l ≡ map (entry t) l
entries_frame t t' x [] same fresh = refl
entries_frame t t' x (y ∷ l) same fresh =
    cc (same y (λ e. fresh.0 (sym e)), entries_frame t t' x l same fresh.1)

pub entry-upd :
    (t : CTimers) (x v i : ℕ) → i ≢ x → entry (record t { cnt = upd t.cnt x v }) i ≡ entry t i
entry-upd t x v i h = ap (λ (c : ℕ). record (entry t i) { cnt = c }) (upd_other t.cnt x v i h)

pub counted_at :
    (t : CTimers) (x v : ℕ) (es : List Entry)
    → record (entry t x) { cnt = v } ∷ es ≡ entry (record t { cnt = upd t.cnt x v }) x ∷ es
counted_at t x v es = ap (λ (c : ℕ). record (entry t x) { cnt = c } ∷ es) (sym (upd_self t.cnt x v))

-- What the loop has done from the nodes `rest` on, behind the nodes `l`.
record Passed (rc : ℕ → ℕ → ℕ) (t : CTimers) (l rest : List ℕ) (result : Option (CTimers × List ℕ))
    : Type 0 where
  after : CTimers
  order : List ℕ
  ran : result ≡ some (after, due (map (entry t) rest))
  in_use : InUse after (l ++ order)
  entries : map (entry after) order ≡ tick rc (map (entry t) rest)
  frame : (i : ℕ) → Fresh i rest → entry after i ≡ entry t i

module _ (rc : ℕ → ℕ → ℕ) (fuel : ℕ) (t t' : CTimers) (called : Bool) (x : ℕ) (l rest : List ℕ)
    (inside : (x == max_ctimer) ≡ false) (one : pass_one rc x t ≡ (t', called))
    (others : (i : ℕ) → i ≢ x → entry t' i ≡ entry t i) (fresh : Fresh x rest)
    (noted : due (entry t x ∷ map (entry t) rest)
      ≡ (if called then x ∷ due (map (entry t) rest) else due (map (entry t) rest))) where
  round :
      (after : CTimers)
      → pass_loop fuel rc (t.links.next x) t' ≡ some (after, due (map (entry t') rest))
      → pass_loop (suc fuel) rc x t ≡ some (after, due (map (entry t) (x ∷ rest)))
  unfolding pass_loop
  round after ran =
      rw (one, inside, ran, noted)
        (ap (λ (es : List Entry). some (after, if called then x ∷ due es else due es))
          (entries_frame t t' x rest others fresh))

  round_stays :
      tick rc (entry t x ∷ map (entry t) rest) ≡ entry t' x ∷ tick rc (map (entry t) rest)
      → Passed rc t' (l ++ x ∷ []) rest (pass_loop fuel rc (t.links.next x) t')
      → Passed rc t l (x ∷ rest) (pass_loop (suc fuel) rc x t)
  round_stays stays p = record {
    after = p.after;
    order = x ∷ p.order;
    ran = round p.after p.ran;
    in_use = subst (InUse p.after) (append_assoc l (x ∷ []) p.order) p.in_use;
    entries = cc (stays, p.entries, p.frame x fresh, entries_frame t t' x rest others fresh);
    frame = λ i free. p.frame i free.1 ∙ others i free.0;
  }

  round_ends :
      tick rc (entry t x ∷ map (entry t) rest) ≡ tick rc (map (entry t) rest)
      → Passed rc t' l rest (pass_loop fuel rc (t.links.next x) t')
      → Passed rc t l (x ∷ rest) (pass_loop (suc fuel) rc x t)
  round_ends ended p = record {
    after = p.after;
    order = p.order;
    ran = round p.after p.ran;
    in_use = p.in_use;
    entries = p.entries ∙ ap (tick rc) (entries_frame t t' x rest others fresh) ∙ sym ended;
    frame = λ i free. p.frame i free.1 ∙ others i free.0;
  }

pass_loop_end :
    (fuel : ℕ) (rc : ℕ → ℕ → ℕ) (t : CTimers) → pass_loop (suc fuel) rc max_ctimer t ≡ some (t, [])
unfolding pass_loop
pass_loop_end fuel rc t = refl

pub cnt-InUse :
    (t : CTimers) (x v : ℕ) (order : List ℕ)
    → InUse t order
    → InUse (record t { cnt = upd t.cnt x v }) order
cnt-InUse t x v order u = record { list = u.list; valid = u.valid; empty = u.empty }

at_end :
    (t : CTimers) (l : List ℕ) (x : ℕ) (r : List ℕ)
    → InUse t (l ++ x ∷ r)
    → InUse t ((l ++ x ∷ []) ++ r)
at_end t l x r u = subst (InUse t) (sym (append_assoc l (x ∷ []) r)) u

-- The three ways a round goes.
module _ (rc : ℕ → ℕ → ℕ) (t : CTimers) (x : ℕ) where
  pass_one-waits :
      is_due (entry t x) ≡ false
      → pass_one rc x t ≡ (record t { cnt = upd t.cnt x (u32 (t.cnt x + 1)) }, false)
  unfolding pass_one
  pass_one-waits waits = rw waits refl

  pass_one-stays :
      is_due (entry t x) ≡ true
      → ends rc (entry t x) ≡ false
      → pass_one rc x t ≡ (record t { cnt = upd t.cnt x 0 }, true)
  unfolding pass_one
  pass_one-stays is stays = rw (is, stays) refl

  pass_one-ends :
      t.flag x ≡ tman_valid
      → is_due (entry t x) ≡ true
      → ends rc (entry t x) ≡ true
      → pass_one rc x t ≡ (
        record t { cnt = upd t.cnt x 0; flag = upd t.flag x tman_empty; links = unlink x t.links },
        true,
      )
  unfolding pass_one stop_c_timer_p
  pass_one-ends marked is ended = rw (is, ended, marked) refl

Valid-in :
    (flag : ℕ → ℕ) (l : List ℕ) (x : ℕ) (r : List ℕ)
    → Valid flag (l ++ x ∷ r)
    → (x < max_ctimer) × (flag x ≡ tman_valid)
Valid-in flag [] x r v = (v.0, v.1)
Valid-in flag (y ∷ l) x r v = Valid-in flag l x r v.2

pass_loop-Passed :
    (rc : ℕ → ℕ → ℕ) (rest l : List ℕ) (fuel : ℕ) (t : CTimers)
    → length rest < fuel
    → InUse t (l ++ rest)
    → Passed rc t l rest (pass_loop fuel rc (first_of rest max_ctimer) t)
unfolding tick due
pass_loop-Passed rc rest l zero t enough u = elim enough [ ]
pass_loop-Passed rc [] l (suc fuel) t enough u = record {
  after = t;
  order = [];
  ran = pass_loop_end fuel rc t;
  in_use = u;
  entries = refl;
  frame = λ i _. refl;
}
pass_loop-Passed rc (x ∷ rest) l (suc fuel) t enough u =
    let (low, marked) = Valid-in t.flag l x rest u.valid in
    let inside : (x == max_ctimer) ≡ false = ground (arith, low) in
    let fresh : Fresh x rest = (Distinct-middle l x rest u.list.distinct.1).1 in
    let next : t.links.next x ≡ first_of rest max_ctimer =
      next_in t.links.next t.links.prev max_ctimer l x rest max_ctimer u.list.linked in
    let go : (l' : List ℕ) (t' : CTimers)
        → InUse t' (l' ++ rest)
        → Passed rc t' l' rest (pass_loop fuel rc (t.links.next x) t') =
      λ l' t' v. rw next (pass_loop-Passed rc rest l' fuel t' (omega arith) v) in
    elim (Bool-cases (is_due (entry t x))) [
      | inr waits ↦
          round_stays rc fuel t _ false x l rest inside (pass_one-waits rc t x waits)
            (entry-upd t x _) fresh (rw waits refl)
            (rw waits (counted_at t x (u32 (t.cnt x + 1)) _))
            (go (l ++ x ∷ []) _ (at_end _ l x rest (cnt-InUse t x _ _ u)))
      | inl is ↦ elim (Bool-cases (ends rc (entry t x))) [
        | inr stays ↦
            round_stays rc fuel t _ true x l rest inside (pass_one-stays rc t x is stays)
              (entry-upd t x 0) fresh (rw is refl) (rw (is, stays) (counted_at t x 0 _))
              (go (l ++ x ∷ []) _ (at_end _ l x rest (cnt-InUse t x 0 _ u)))
        | inl ended ↦
            let gone : tick rc (entry t x ∷ map (entry t) rest) ≡ tick rc (map (entry t) rest) =
              rw (is, ended) refl in
            round_ends rc fuel t
              (record t {
                cnt = upd t.cnt x 0;
                flag = upd t.flag x tman_empty;
                links = unlink x t.links;
              })
              true x l rest inside (pass_one-ends rc t x marked is ended) (entry-upd t x 0) fresh
              (rw is refl) gone
              (go l _
                (take_out-InUse (record t { cnt = upd t.cnt x 0 }) l x rest (cnt-InUse t x 0 _ u)))
      ]
    ]

Below-of_Valid : (flag : ℕ → ℕ) (l : List ℕ) → Valid flag l → Below max_ctimer l
Below-of_Valid flag [] v = tt
Below-of_Valid flag (x ∷ l) v = (v.0, Below-of_Valid flag l v.2)

-- Where the timers in use are linked in `order`, a pass of `CTimerProc` ends, whatever the timers'
-- functions answer, by the function and its argument: it calls, in that order, the functions of the timers that are due, and leaves
-- in use, linked in their old order, the timers of the pass over the list of entries: a due timer
-- whose function answers 0 starts again from 0, one whose function answers otherwise is gone, and
-- the others have counted on by one.
pub c_timer_proc-tick :
    (rc : ℕ → ℕ → ℕ) (t : CTimers) (order : List ℕ)
    → InUse t order
    → (t' : CTimers) × (order' : List ℕ) × (c_timer_proc rc t
        ≡ some (t', due (map (entry t) order)))
      × InUse t' order'
      × (map (entry t') order' ≡ tick rc (map (entry t) order))
unfolding c_timer_proc
c_timer_proc-tick rc t order u =
    let bound : length order ≤ max_ctimer =
      length-Distinct max_ctimer order (Below-of_Valid t.flag order u.valid) u.list.distinct.1 in
    let first : t.links.next max_ctimer ≡ first_of order max_ctimer =
      first_in t.links.next t.links.prev max_ctimer order max_ctimer u.list.linked in
    let p = pass_loop-Passed rc order [] (max_ctimer + 1) t (omega arith) u in
    (p.after, p.order, rw first p.ran, p.in_use, p.entries)
