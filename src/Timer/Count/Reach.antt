-- ===== src/Timer/Count/Reach.antt =====
-- The timers after any sequence of calls.
use smart_home_xiugai.Prelude.{
  ℕ, ◌≡◌, refl, List, [], ◌∷◌, ◌++◌, Option, none, some, not_positive, arith, ap, ◌∙◌, sym, inl,
  inr, Bool-cases, ◌⊎◌,
}
use mathlib.Core.Path.{subst}
use mathlib.Core.Option.{some-injective}
use smart_home_xiugai.Timer.Count.{
  CTimers, max_ctimer, init_c_timers, find_empty, sys_add_c_timer, sys_stop_c_timer,
  sys_clear_c_timer, c_timer_proc,
}
use smart_home_xiugai.Timer.Count.Order.{find_empty-some}
use smart_home_xiugai.Timer.Count.Pass.{Entry, tick, due, c_timer_proc-tick}
use smart_home_xiugai.Timer.Count.Shows.{
  Shows, tick-AllGood, init_c_timers-Shows, add_at-Shows, new_entry,
}
use smart_home_xiugai.Timer.Count.Stop.{sys_stop_c_timer-remove}

pub c_timer_proc-Shows :
    (rc : ℕ → ℕ → ℕ) (t : CTimers) (es : List Entry)
    → Shows t es
    → (t' : CTimers) × (c_timer_proc rc t ≡ some (t', due es)) × Shows t' (tick rc es)
c_timer_proc-Shows rc t es s =
    let (t', order', ran, in_use, entries) = c_timer_proc-tick rc t s.order s.in_use in
    (
      t',
      ran ∙ ap (λ (l : List Entry). some (t', due l)) s.entries,
      record {
        order = order';
        in_use = in_use;
        entries = entries ∙ ap (tick rc) s.entries;
        good = tick-AllGood rc es s.good;
      },
    )

added-Shows :
    (t : CTimers) (es : List Entry) (dev proc arg : ℕ)
    → Shows t es
    → (es' : List Entry) × Shows (sys_add_c_timer t dev proc arg).0 es'
unfolding sys_add_c_timer
added-Shows t es dev proc arg s = elim (Bool-cases (not_positive dev)) [
  | inl bad ↦ (es, rw bad s)
  | inr ok ↦ elim (found (find_empty max_ctimer 0 t.flag)) [
    | inl full ↦ (es, rw (ok, full) s)
    | inr (i, e) ↦
        let (empty, low, high) = find_empty-some max_ctimer 0 i t.flag e in
        (
          es ++ new_entry t i dev proc arg ∷ [],
          rw (ok, e) (add_at-Shows t es i dev proc arg empty (omega arith) ok s),
        )
  ]
]
  where
    found : (o : Option ℕ) → (o ≡ none) ⊎ ((i : ℕ) × (o ≡ some i))
    found none = inl refl
    found (some i) = inr (i, refl)

-- `SysTimerInit` and then calls in any order; a timer's functions may answer anything in each pass.
pub data Reached : CTimers → Type 0 where
  started : (t : CTimers) → Reached (init_c_timers t)
  added : {t : CTimers} (dev proc arg : ℕ) → Reached t → Reached (sys_add_c_timer t dev proc arg).0
  stopped : {t : CTimers} (id : ℕ) → Reached t → Reached (sys_stop_c_timer id t)
  cleared : {t : CTimers} (id : ℕ) → Reached t → Reached (sys_clear_c_timer id t)
  passed :
      {t t' : CTimers} {calls : List ℕ} (rc : ℕ → ℕ → ℕ)
      → Reached t
      → c_timer_proc rc t ≡ some (t', calls)
      → Reached t'

-- Whatever calls have been made since `SysTimerInit`, the timers in use are linked in both directions
-- in one list of different nodes, which are just the nodes marked valid; each has an id that leads to
-- its node, a positive period and a count below it.
pub Reached-Shows : {t : CTimers} → Reached t → (es : List Entry) × Shows t es
Reached-Shows (started t) = ([], init_c_timers-Shows t)
Reached-Shows (added {t} dev proc arg r) =
    let (es, s) = Reached-Shows r in added-Shows t es dev proc arg s
Reached-Shows (stopped {t} id r) =
    let (es, s) = Reached-Shows r in (_, (sys_stop_c_timer-remove t es id s).0)
Reached-Shows (cleared {t} id r) =
    let (es, s) = Reached-Shows r in (_, (sys_stop_c_timer-remove t es id s).1)
Reached-Shows (passed {t} {t'} {calls} rc r e) =
    let (es, s) = Reached-Shows r in
    let (t'', ran, s') = c_timer_proc-Shows rc t es s in
    (
      tick rc es,
      subst (λ (u : CTimers). Shows u (tick rc es))
          (ap (λ (r : CTimers × List ℕ). r.0) (some-injective _ _ (sym ran ∙ e))) s',
    )
