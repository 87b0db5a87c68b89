-- ===== src/Timer/Count/Shows.antt =====
-- The timers in use as a list of entries, through every operation.
use smart_home_xiugai.Prelude.{
  ℕ, ◌^◌, ◌≡◌, ◌≢◌, ◌<◌, refl, List, [], ◌∷◌, ◌++◌, map, some, false, not_positive, ◌==◌,
  if◌then◌else◌, arith, ap, ◌∙◌, inl, inr, Bool-cases,
}
use smart_home_xiugai.Timer.Links.Fresh.{Fresh}
use smart_home_xiugai.Timer.Links.Laws.{upd_self, upd_other}
use smart_home_xiugai.Timer.Count.{
  CTimers, max_ctimer, tman_empty, make_id, offset, init_c_timers, add_at,
}
use smart_home_xiugai.Timer.Count.Order.{InUse, init_c_timers-InUse, add_at-InUse, Fresh-of_empty}
use smart_home_xiugai.Timer.Count.Pass.{Entry, entry, tick, is_due, ends, entries_frame}

-- The id of a timer leads to its node, its period is positive, and its count has not reached it.
pub record IsGood (e : Entry) : Type 0 where
  pub node : offset e.id ≡ e.slot
  pub inside : e.slot < max_ctimer
  pub positive : 0 < e.dev
  pub bounded : e.dev < 2 ^ 31
  pub below : e.cnt < e.dev

abbrev pub AllGood : List Entry → Type 0
AllGood [] = Unit {0}
AllGood (e ∷ es) = IsGood e × AllGood es

pub tick-AllGood : (rc : ℕ → ℕ → ℕ) (es : List Entry) → AllGood es → AllGood (tick rc es)
unfolding tick
tick-AllGood rc [] g = tt
tick-AllGood rc (e ∷ es) (g, gs) = elim (Bool-cases (is_due e)) [
  | inr waits ↦ rw waits (
    record {
      node = g.node;
      inside = g.inside;
      positive = g.positive;
      bounded = g.bounded;
      below = ground (arith, g.below, g.bounded);
    },
    tick-AllGood rc es gs,
  )
  | inl is ↦ elim (Bool-cases (ends rc e)) [
    | inl ended ↦ rw (is, ended) (tick-AllGood rc es gs)
    | inr stays ↦
        rw (is, stays)
          (
            record {
              node = g.node;
              inside = g.inside;
              positive = g.positive;
              bounded = g.bounded;
              below = g.positive;
            },
            tick-AllGood rc es gs,
          )
  ]
]

-- What the users of the timers may rely on: `es` are the timers in use, in order.
pub record Shows (t : CTimers) (es : List Entry) : Type 0 where
  pub order : List ℕ
  pub in_use : InUse t order
  pub entries : map (entry t) order ≡ es
  pub good : AllGood es

-- The timers without the one that has an id, and with its count at 0.
unfoldable pub remove_id : ℕ → List Entry → List Entry
remove_id id [] = []
remove_id id (e ∷ es) = let rest = remove_id id es in if e.id == id then rest else e ∷ rest

unfoldable pub reset_id : ℕ → List Entry → List Entry
reset_id id [] = []
reset_id id (e ∷ es) =
    let rest = reset_id id es in if e.id == id then record e { cnt = 0 } ∷ rest else e ∷ rest

pub init_c_timers-Shows : (t : CTimers) → Shows (init_c_timers t) []
init_c_timers-Shows t = record {
  order = [];
  in_use = init_c_timers-InUse t;
  entries = refl;
  good = tt;
}

-- The entry of a new timer.
abbrev pub new_entry : CTimers → ℕ → ℕ → ℕ → ℕ → Entry
new_entry t i dev proc arg = record {
  slot = i;
  id = make_id t.addup i;
  proc = proc;
  arg = arg;
  dev = dev;
  cnt = 0;
}

pub map-append : (f : ℕ → Entry) (l r : List ℕ) → map f (l ++ r) ≡ map f l ++ map f r
map-append f [] r = refl
map-append f (x ∷ l) r = ap (◌∷◌ (f x)) (map-append f l r)

concat-AllGood : (es : List Entry) (e : Entry) → AllGood es → IsGood e → AllGood (es ++ e ∷ [])
concat-AllGood [] e g h = (h, tt)
concat-AllGood (x ∷ es) e g h = (g.0, concat-AllGood es e g.1 h)

entry-new_self :
    (t : CTimers) (i dev proc arg : ℕ)
    → entry (add_at (some i) t dev proc arg).0 i ≡ new_entry t i dev proc arg
unfolding add_at
entry-new_self t i dev proc arg = cc (
  upd_self t.id i (make_id t.addup i),
  upd_self t.proc i proc,
  upd_self t.arg i arg,
  upd_self t.dev i dev,
  upd_self t.cnt i 0,
)

entry-new_other :
    (t : CTimers) (i dev proc arg j : ℕ)
    → j ≢ i
    → entry (add_at (some i) t dev proc arg).0 j ≡ entry t j
unfolding add_at
entry-new_other t i dev proc arg j h = cc (
  upd_other t.id i (make_id t.addup i) j h,
  upd_other t.proc i proc j h,
  upd_other t.arg i arg j h,
  upd_other t.dev i dev j h,
  upd_other t.cnt i 0 j h,
)

-- Adding to an empty node.
pub add_at-Shows :
    (t : CTimers) (es : List Entry) (i dev proc arg : ℕ)
    → t.flag i ≡ tman_empty
    → i < max_ctimer
    → not_positive dev ≡ false
    → Shows t es
    → Shows (add_at (some i) t dev proc arg).0 (es ++ new_entry t i dev proc arg ∷ [])
add_at-Shows t es i dev proc arg e low p s =
    let t' = (add_at (some i) t dev proc arg).0 in
    let fresh : Fresh i s.order = Fresh-of_empty t.flag i s.order e s.in_use.valid in
    record {
      order = s.order ++ i ∷ [];
      in_use = add_at-InUse t s.order i dev proc arg e low s.in_use;
      entries =
          map-append (entry t') s.order (i ∷ [])
          ∙ cc (
            entries_frame t t' i s.order (entry-new_other t i dev proc arg) fresh,
            s.entries,
            entry-new_self t i dev proc arg,
          );
      good = concat-AllGood es _ s.good (record {
        node = omega arith;
        inside = low;
        positive = ground arith;
        bounded = ground arith;
        below = ground arith;
      });
    }
