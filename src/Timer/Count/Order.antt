-- ===== src/Timer/Count/Order.antt =====
-- Which nodes are in use, and that every operation keeps the list well linked.
use smart_home_xiugai.Prelude.{
  ℕ, zero, suc, ◌+◌, ◌≡◌, ◌≤◌, ◌<◌, refl, List, [], ◌∷◌, ◌++◌, some, false, ◌==◌, arith, ap, ◌∙◌,
  sym, ◌⊎◌, inl, inr,
}
use native.Mathlib.Decide.{ℕ_discrete}
use smart_home_xiugai.Timer.Links.{upd, unlink}
use smart_home_xiugai.Timer.Links.Fresh.{Fresh, Fresh-append, append-Fresh, Distinct-middle}
use smart_home_xiugai.Timer.Links.Laws.{
  IsList, upd_self, upd_other, unlink-IsList, link_tail-IsList,
}
use smart_home_xiugai.Timer.Count.{
  CTimers, max_ctimer, tman_empty, tman_valid, init_c_timers, find_empty, add_at,
}

-- The nodes of a list are marked valid and stand in the buffer.
abbrev pub Valid : (ℕ → ℕ) → List ℕ → Type 0
Valid flag [] = Unit {0}
Valid flag (x ∷ l) = (x < max_ctimer) × (flag x ≡ tman_valid) × Valid flag l

-- The timers in use are those of `order`, in that order of linking.
pub record InUse (t : CTimers) (order : List ℕ) : Type 0 where
  pub list : IsList max_ctimer t.links order
  pub valid : Valid t.flag order
  pub empty : (i : ℕ) → i < max_ctimer → Fresh i order → t.flag i ≡ tman_empty

pub init_c_timers-InUse : (t : CTimers) → InUse (init_c_timers t) []
unfolding init_c_timers
init_c_timers-InUse t = record {
  list = record { linked = (refl, refl); distinct = (tt, tt) };
  valid = tt;
  empty = λ i low _. ground arith;
}

Valid-append : (flag : ℕ → ℕ) (l r : List ℕ) → Valid flag (l ++ r) → Valid flag l × Valid flag r
Valid-append flag [] r v = (tt, v)
Valid-append flag (x ∷ l) r v = let (vl, vr) = Valid-append flag l r v.2 in ((v.0, v.1, vl), vr)

append-Valid : (flag : ℕ → ℕ) (l r : List ℕ) → Valid flag l → Valid flag r → Valid flag (l ++ r)
append-Valid flag [] r v w = w
append-Valid flag (x ∷ l) r v w = (v.0, v.1, append-Valid flag l r v.2 w)

-- A flag outside the list makes no difference.
Valid-upd :
    (flag : ℕ → ℕ) (i v : ℕ) (l : List ℕ) → Fresh i l → Valid flag l → Valid (upd flag i v) l
Valid-upd flag i v [] fresh h = tt
Valid-upd flag i v (x ∷ l) fresh h =
    (h.0, ground (arith, fresh.0, h.1), Valid-upd flag i v l fresh.1 h.2)

pub Fresh-of_empty :
    (flag : ℕ → ℕ) (i : ℕ) (l : List ℕ) → flag i ≡ tman_empty → Valid flag l → Fresh i l
Fresh-of_empty flag i [] e v = tt
Fresh-of_empty flag i (x ∷ l) e v =
    ((λ same. absurd (omega (arith, ap flag same, v.1))), Fresh-of_empty flag i l e v.2)

-- What the search for an empty node finds.
pub find_empty-some :
    (n i j : ℕ) (flag : ℕ → ℕ)
    → find_empty n i flag ≡ some j
    → (flag j ≡ tman_empty) × (i ≤ j) × (j < i + n)
unfolding find_empty
find_empty-some zero i j flag e = absurd (ground arith)
find_empty-some (suc n) i j flag e = ground (arith, find_empty-some n (i + 1) j flag)

-- Adding puts a timer at the end.
pub add_at-InUse :
    (t : CTimers) (order : List ℕ) (i dev proc arg : ℕ)
    → t.flag i ≡ tman_empty
    → i < max_ctimer
    → InUse t order
    → InUse (add_at (some i) t dev proc arg).0 (order ++ i ∷ [])
unfolding add_at
add_at-InUse t order i dev proc arg e low u =
    let fresh : Fresh i order = Fresh-of_empty t.flag i order e u.valid in
    record {
      list = link_tail-IsList max_ctimer t.links order i (omega arith) fresh u.list;
      valid =
          append-Valid (upd t.flag i tman_valid) order (i ∷ [])
            (Valid-upd t.flag i tman_valid order fresh u.valid) (low, ground arith, tt);
      empty = λ j small others.
          let (old, new) = Fresh-append j order (i ∷ []) others in
          upd_other t.flag i tman_valid j new.0 ∙ u.empty j small old;
    }

-- Stopping takes a timer out.
pub take_out-InUse :
    (t : CTimers) (l : List ℕ) (x : ℕ) (r : List ℕ)
    → InUse t (l ++ x ∷ r)
    → InUse (record t { flag = upd t.flag x tman_empty; links = unlink x t.links }) (l ++ r)
take_out-InUse t l x r u =
    let (vl, vr) = Valid-append t.flag l (x ∷ r) u.valid in
    let (fl, fr) = Distinct-middle l x r u.list.distinct.1 in
    record {
      list = unlink-IsList max_ctimer t.links l x r u.list;
      valid =
          append-Valid (upd t.flag x tman_empty) l r (Valid-upd t.flag x tman_empty l fl vl)
            (Valid-upd t.flag x tman_empty r fr vr.2);
      empty = λ j small others.
          let (jl, jr) = Fresh-append j l r others in
          elim (ℕ_discrete j x) [
            | yes same ↦ ap (upd t.flag x tman_empty) same ∙ upd_self t.flag x tman_empty
            | no other ↦
                upd_other t.flag x tman_empty j other
                ∙ u.empty j small (append-Fresh j l (x ∷ r) jl (other, jr))
          ];
    }

-- A node marked valid stands in the list.
pub split_at :
    (t : CTimers) (order : List ℕ) (x : ℕ)
    → InUse t order
    → x < max_ctimer
    → (t.flag x == tman_empty) ≡ false
    → (l : List ℕ) × (r : List ℕ) × (order ≡ l ++ x ∷ r)
split_at t order x u low marked = elim (find_in order x) [
  | inl found ↦ found
  | inr fresh ↦ absurd (ground (arith, u.empty x low fresh))
]
  where
    find_in : (l : List ℕ) (x : ℕ) → ((a : List ℕ) × (b : List ℕ) × (l ≡ a ++ x ∷ b)) ⊎ Fresh x l
    find_in [] x = inr tt
    find_in (y ∷ l) x = elim (ℕ_discrete x y) [
      | yes same ↦ inl ([], l, ap (λ (z : ℕ). z ∷ l) (sym same))
      | no other ↦ elim (find_in l x) [
        | inl (a, b, e) ↦ inl (y ∷ a, b, ap (◌∷◌ y) e)
        | inr fresh ↦ inr (other, fresh)
      ]
    ]
