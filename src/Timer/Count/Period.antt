-- ===== src/Timer/Count/Period.antt =====
-- A timer's function is called in every pass whose number is a multiple of its period.
use smart_home_xiugai.Prelude.{
  ℕ, zero, suc, ◌+◌, ◌%◌, ◌≡◌, ◌≢◌, ◌<◌, refl, List, [], ◌∷◌, map, Option, none, some, Bool, true,
  false, ◌==◌, ==_iff, if◌then◌else◌, u32, arith, ap, ◌∙◌, sym, inl, inr, ◌⊎◌, Bool-cases,
}
use mathlib.Core.Path.{subst}
use native.Mathlib.Nat.{suc-mod, mod_self, mod-eq_of_lt, mod-lt}
use native.Mathlib.Decide.{ℕ_discrete}
use smart_home_xiugai.Timer.Links.Fresh.{Fresh, Distinct}
use smart_home_xiugai.Timer.Count.{CTimers, c_timer_proc}
use smart_home_xiugai.Timer.Count.Pass.{Entry, entry, tick, due, is_due, ends}
use smart_home_xiugai.Timer.Count.Shows.{IsGood, AllGood, Shows}
use smart_home_xiugai.Timer.Count.Reach.{c_timer_proc-Shows}

-- `n` passes, one after the other; in pass `k` the timers' functions answer as `rc k` says, which takes
-- a function and its argument.
abbrev pub timers_after : Option (CTimers × List ℕ) → Option CTimers
timers_after none = none
timers_after (some (t, calls)) = some t

abbrev pub one_pass : (ℕ → ℕ → ℕ) → Option CTimers → Option CTimers
one_pass rc none = none
one_pass rc (some t) = timers_after (c_timer_proc rc t)

unfoldable pub passes : ℕ → (ℕ → ℕ → ℕ → ℕ) → CTimers → Option CTimers
passes zero rc t = some t
passes (suc n) rc t = one_pass (rc n) (passes n rc t)

abbrev pub Has : Entry → List Entry → Type 0
Has e [] = ⊥
Has e (x ∷ es) = (e ≡ x) ⊎ Has e es

abbrev pub elem : ℕ → List ℕ → Bool
elem i [] = false
elem i (x ∷ l) = if x == i then true else elem i l

-- The entry after a pass, if its function answers 0.
abbrev next_entry : Entry → Entry
next_entry e = record e { cnt = if is_due e then 0 else u32 (e.cnt + 1) }

tick_head :
    (rc : ℕ → ℕ → ℕ) (x : Entry) (es : List Entry)
    → ends rc x ≡ false
    → tick rc (x ∷ es) ≡ next_entry x ∷ tick rc es
unfolding tick
tick_head rc x es stays = elim (Bool-cases (is_due x)) [
  | inl is ↦ rw (is, stays) refl
  | inr waits ↦ rw waits refl
]

tick_later :
    (rc : ℕ → ℕ → ℕ) (x y : Entry) (es : List Entry) → Has y (tick rc es) → Has y (tick rc (x ∷ es))
unfolding tick
tick_later rc x y es h = elim (Bool-cases (is_due x)) [
  | inl is ↦ elim (Bool-cases (ends rc x)) [
    | inl ended ↦ rw (is, ended) h
    | inr stays ↦ rw (is, stays) (inr h)
  ]
  | inr waits ↦ rw waits (inr h)
]

tick-Has :
    (rc : ℕ → ℕ → ℕ) (e : Entry) (es : List Entry)
    → ends rc e ≡ false
    → Has e es
    → Has (next_entry e) (tick rc es)
tick-Has rc e [] stays h = absurd h
tick-Has rc e (x ∷ es) stays (inl same) =
    rw (tick_head rc x es (ap (ends rc) (sym same) ∙ stays)) (inl (ap next_entry same))
tick-Has rc e (x ∷ es) stays (inr later) =
    tick_later rc x (next_entry e) es (tick-Has rc e es stays later)

IsGood-Has : (e : Entry) (es : List Entry) → Has e es → AllGood es → IsGood e
IsGood-Has e [] h g = absurd h
IsGood-Has e (x ∷ es) (inl same) g = subst IsGood (sym same) g.0
IsGood-Has e (x ∷ es) (inr later) g = IsGood-Has e es later g.1

-- The count of a good entry, step by step.
next_cnt :
    (e : Entry) (k : ℕ)
    → IsGood e
    → e.cnt ≡ k % e.dev
    → ((next_entry e).cnt ≡ suc k % e.dev) × (is_due e ≡ (suc k % e.dev == 0))
next_cnt e k g h = elim (ℕ_discrete (suc (k % e.dev)) e.dev) [
  | yes full ↦
      let whole : suc k % e.dev ≡ 0 =
        suc-mod k e.dev ∙ ap (λ (x : ℕ). x % e.dev) full ∙ mod_self e.dev in
      (ground (arith, g.bounded), ground (arith, g.bounded))
  | no more ↦
      let below : suc (k % e.dev) < e.dev = omega (arith, mod-lt k g.positive) in
      let counted : suc k % e.dev ≡ suc (k % e.dev) = suc-mod k e.dev ∙ mod-eq_of_lt below in
      (ground (arith, g.bounded), ground (arith, g.bounded))
]

slot_of-Has :
    (t : CTimers) (e : Entry) (l : List ℕ) (i : ℕ)
    → Has e (map (entry t) l)
    → Fresh i l
    → i ≢ e.slot
slot_of-Has t e [] i h f same = h
slot_of-Has t e (x ∷ l) i (inl here) f same = f.0 (same ∙ ap (λ (y : Entry). y.slot) here)
slot_of-Has t e (x ∷ l) i (inr later) f same = slot_of-Has t e l i later f.1 same

ne→==false : (a b : ℕ) → a ≢ b → (a == b) ≡ false
ne→==false a b h = ground arith

elem-due-Fresh :
    (t : CTimers) (i : ℕ) (l : List ℕ) → Fresh i l → elem i (due (map (entry t) l)) ≡ false
unfolding due
elem-due-Fresh t i [] f = refl
elem-due-Fresh t i (x ∷ l) f = elim (Bool-cases (is_due (entry t x))) [
  | inl is ↦ rw (is, ne→==false x i (λ e. f.0 (sym e))) (elem-due-Fresh t i l f.1)
  | inr waits ↦ rw waits (elem-due-Fresh t i l f.1)
]

elem-due_head :
    (t : CTimers) (x : ℕ) (l : List ℕ)
    → Fresh x l
    → elem x (due (map (entry t) (x ∷ l))) ≡ is_due (entry t x)
unfolding due
elem-due_head t x l f = elim (Bool-cases (is_due (entry t x))) [
  | inl is ↦ rw (is, (==_iff x x).1 refl) refl
  | inr waits ↦ rw waits (elem-due-Fresh t x l f)
]

elem-due :
    (t : CTimers) (e : Entry) (l : List ℕ)
    → Distinct l
    → Has e (map (entry t) l)
    → elem e.slot (due (map (entry t) l)) ≡ is_due e
unfolding due
elem-due t e [] d h = absurd h
elem-due t e (x ∷ l) d (inl here) =
    ap (λ (y : Entry). elem y.slot (due (map (entry t) (x ∷ l)))) here
    ∙ elem-due_head t x l d.0
    ∙ ap is_due (sym here)
elem-due t e (x ∷ l) d (inr later) = elim (Bool-cases (is_due (entry t x))) [
  | inl is ↦ rw (is, ne→==false x e.slot (slot_of-Has t e l x later d.0)) (elem-due t e l d.1 later)
  | inr waits ↦ rw waits (elem-due t e l d.1 later)
]

-- The entry after `n` passes.
abbrev pub after_passes : ℕ → Entry → Entry
after_passes n e = record e { cnt = (e.cnt + n) % e.dev }

passes-Has :
    (n : ℕ) (rc : ℕ → ℕ → ℕ → ℕ) (t : CTimers) (es : List Entry) (e : Entry)
    → Shows t es
    → Has e es
    → ((k : ℕ) → k < n → ends (rc k) e ≡ false)
    → (t' : CTimers) × (es' : List Entry) × (passes n rc t ≡ some t')
      × Shows t' es'
      × Has (after_passes n e) es'
unfolding passes
passes-Has zero rc t es e s h stays = (
  t,
  es,
  refl,
  s,
  subst (λ (c : ℕ). Has (record e { cnt = c }) es)
      (sym
        (ap (λ (k : ℕ). k % e.dev) (omega arith) ∙ mod-eq_of_lt (IsGood-Has e es h s.good).below))
      h,
)
passes-Has (suc n) rc t es e s h stays =
    let (t', es', ran, s', h') = passes-Has n rc t es e s h (λ k below. stays k (omega arith)) in
    let (t'', ran', s'') = c_timer_proc-Shows (rc n) t' es' s' in
    let e' = after_passes n e in
    let good = IsGood-Has e' es' h' s'.good in
    (
      t'',
      tick (rc n) es',
      rw (ran, ran') refl,
      s'',
      subst (λ (c : ℕ). Has (record e { cnt = c }) (tick (rc n) es'))
          ((next_cnt e' (e.cnt + n) good refl).0 ∙ ap (λ (k : ℕ). k % e.dev) (omega arith))
          (tick-Has (rc n) e' es' (stays n (omega arith)) h'),
    )

-- A timer in use whose function answers 0 in the passes before is called in every pass in which its
-- count and the passes so far add up to a multiple of its period, and in no other: after `n` passes,
-- which all end, the calls of the next pass, which ends too, contain its node just if its count at
-- first and `n + 1` add up to such a multiple. For a new timer the count at first is 0. The other
-- timers' functions may answer anything, differently in each pass; within one pass an answer depends
-- on the function and its argument only.
pub c_timer_proc-period :
    (n : ℕ) (rc : ℕ → ℕ → ℕ → ℕ) (t : CTimers) (es : List Entry) (e : Entry)
    → Shows t es
    → Has e es
    → ((k : ℕ) → k < n → ends (rc k) e ≡ false)
    → (t' t'' : CTimers) × (calls : List ℕ) × (passes n rc t ≡ some t')
      × (c_timer_proc (rc n) t' ≡ some (t'', calls))
      × (elem e.slot calls ≡ (suc (e.cnt + n) % e.dev == 0))
c_timer_proc-period n rc t es e s h stays =
    let (t', es', ran, s', h') = passes-Has n rc t es e s h stays in
    let (t'', ran', s'') = c_timer_proc-Shows (rc n) t' es' s' in
    let e' = after_passes n e in
    let g = IsGood-Has e' es' h' s'.good in
    let h'' = subst (Has e') (sym s'.entries) h' in
    (
      t',
      t'',
      due es',
      ran,
      ran',
      ap (λ (l : List Entry). elem e.slot (due l)) (sym s'.entries)
          ∙ elem-due t' e' s'.order s'.in_use.list.distinct.1 h''
          ∙ (next_cnt e' (e.cnt + n) g refl).1,
    )
