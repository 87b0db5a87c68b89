-- ===== src/Timer/Count/Stop.antt =====
-- Stopping and clearing by id concern the timer with that id and no other.
use smart_home_xiugai.Prelude.{
  ℕ, ◌≡◌, ◌≢◌, ◌≤◌, refl, List, [], ◌∷◌, ◌++◌, map, true, false, ◌||◌, ◌==◌, if◌then◌else◌, arith,
  ap, ◌∙◌, sym, inl, inr, Bool-cases,
}
use mathlib.Core.Path.{subst}
use smart_home_xiugai.Timer.Links.{upd}
use smart_home_xiugai.Timer.Links.Fresh.{Fresh, Distinct, Distinct-middle}
use smart_home_xiugai.Timer.Count.{
  CTimers, max_ctimer, tman_empty, offset, invalid_id, sys_stop_c_timer, sys_clear_c_timer,
}
use smart_home_xiugai.Timer.Count.Order.{InUse, Valid, take_out-InUse, split_at, Fresh-of_empty}
use smart_home_xiugai.Timer.Count.Pass.{
  Entry, entry, entries_frame, entry-upd, cnt-InUse, counted_at,
}
use smart_home_xiugai.Timer.Count.Shows.{IsGood, AllGood, Shows, remove_id, reset_id, map-append}

Fresh-of_above : (flag : ℕ → ℕ) (i : ℕ) (l : List ℕ) → max_ctimer ≤ i → Valid flag l → Fresh i l
Fresh-of_above flag i [] h v = tt
Fresh-of_above flag i (x ∷ l) h v =
    ((λ e. absurd (omega (arith, e, v.0))), Fresh-of_above flag i l h v.2)

AllGood-append : (l r : List Entry) → AllGood (l ++ r) → AllGood l × AllGood r
AllGood-append [] r g = (tt, g)
AllGood-append (e ∷ l) r g = let (a, b) = AllGood-append l r g.1 in ((g.0, a), b)

append-AllGood : (l r : List Entry) → AllGood l → AllGood r → AllGood (l ++ r)
append-AllGood [] r g h = h
append-AllGood (e ∷ l) r g h = (g.0, append-AllGood l r g.1 h)

remove_id-append :
    (id : ℕ) (l r : List Entry) → remove_id id (l ++ r) ≡ remove_id id l ++ remove_id id r
unfolding remove_id
remove_id-append id [] r = refl
remove_id-append id (e ∷ l) r = ground (arith, remove_id-append id l r)

reset_id-append :
    (id : ℕ) (l r : List Entry) → reset_id id (l ++ r) ≡ reset_id id l ++ reset_id id r
unfolding reset_id
reset_id-append id [] r = refl
reset_id-append id (e ∷ l) r = ground (arith, reset_id-append id l r)

-- A timer at another node has another id.
id-ne : (t : CTimers) (id x : ℕ) → IsGood (entry t x) → offset id ≢ x → (t.id x == id) ≡ false
id-ne t id x g h = ne→==false (t.id x) id (λ e. h (ap offset (sym e) ∙ g.node))
  where
    ne→==false : (a b : ℕ) → a ≢ b → (a == b) ≡ false
    ne→==false a b h = ground arith

module _ (t : CTimers) (id : ℕ) where
  remove_id-Fresh :
      (l : List ℕ)
      → Fresh (offset id) l
      → AllGood (map (entry t) l)
      → remove_id id (map (entry t) l) ≡ map (entry t) l
  unfolding remove_id
  remove_id-Fresh [] f g = refl
  remove_id-Fresh (x ∷ l) f g =
      rw (id-ne t id x g.0 f.0) (ap (◌∷◌ (entry t x)) (remove_id-Fresh l f.1 g.1))

  reset_id-Fresh :
      (l : List ℕ)
      → Fresh (offset id) l
      → AllGood (map (entry t) l)
      → reset_id id (map (entry t) l) ≡ map (entry t) l
  unfolding reset_id
  reset_id-Fresh [] f g = refl
  reset_id-Fresh (x ∷ l) f g =
      rw (id-ne t id x g.0 f.0) (ap (◌∷◌ (entry t x)) (reset_id-Fresh l f.1 g.1))

  -- The node of the id among the nodes in use.
  module _ (l r : List ℕ) (d : Distinct (l ++ offset id ∷ r))
      (g : AllGood (map (entry t) (l ++ offset id ∷ r))) where
    parts : AllGood (map (entry t) l) × AllGood (entry t (offset id) ∷ map (entry t) r)
    parts =
        AllGood-append (map (entry t) l) _
          (subst AllGood (map-append (entry t) l (offset id ∷ r)) g)

    remove_id_at : remove_id id (map (entry t) (l ++ offset id ∷ r)) ≡ (
        if t.id (offset id) == id
        then map (entry t) (l ++ r)
        else map (entry t) (l ++ offset id ∷ r))
    unfolding remove_id
    remove_id_at =
        let (fl, fr) = Distinct-middle l (offset id) r d in
        rw
          (
            map-append (entry t) l (offset id ∷ r),
            map-append (entry t) l r,
            remove_id-append id (map (entry t) l) (map (entry t) (offset id ∷ r)),
            remove_id-Fresh l fl parts.0,
            remove_id-Fresh r fr parts.1.1,
          )
          (ground arith)

    reset_id_at : reset_id id (map (entry t) (l ++ offset id ∷ r)) ≡ (
        if t.id (offset id) == id
        then map (entry t) l ++ record (entry t (offset id)) { cnt = 0 } ∷ map (entry t) r
        else map (entry t) (l ++ offset id ∷ r))
    unfolding reset_id
    reset_id_at =
        let (fl, fr) = Distinct-middle l (offset id) r d in
        rw
          (
            map-append (entry t) l (offset id ∷ r),
            reset_id-append id (map (entry t) l) (map (entry t) (offset id ∷ r)),
            reset_id-Fresh l fl parts.0,
            reset_id-Fresh r fr parts.1.1,
          )
          (ground arith)

-- Where the node of an id stands.
data Place (t : CTimers) (id : ℕ) (order : List ℕ) : Type 0 where
  nowhere :
      Fresh (offset id) order
      → (invalid_id id || (t.flag (offset id) == tman_empty)) ≡ true
      → Place t id order
  at_node :
      (l r : List ℕ)
      → order ≡ l ++ offset id ∷ r
      → (invalid_id id ≡ false)
      → (t.flag (offset id) == tman_empty) ≡ false
      → Place t id order

place : (t : CTimers) (id : ℕ) (order : List ℕ) → InUse t order → Place t id order
place t id order u = elim (Bool-cases (invalid_id id)) [
  | inl invalid ↦
      nowhere (Fresh-of_above t.flag (offset id) order (ground arith) u.valid) (rw invalid refl)
  | inr ok ↦ elim (Bool-cases (t.flag (offset id) == tman_empty)) [
    | inl empty ↦
        nowhere (Fresh-of_empty t.flag (offset id) order (ground arith) u.valid)
          (rw (ok, empty) refl)
    | inr marked ↦
        let (l, r, e) = split_at t order (offset id) u (ground arith) marked in
        at_node l r e ok marked
  ]
]

unchanged :
    (t : CTimers) (id : ℕ)
    → (invalid_id id || (t.flag (offset id) == tman_empty)) ≡ true
    → (sys_stop_c_timer id t ≡ t) × (sys_clear_c_timer id t ≡ t)
unfolding sys_stop_c_timer sys_clear_c_timer
unchanged t id h = elim (Bool-cases (invalid_id id)) [
  | inl invalid ↦ (rw invalid refl, rw invalid refl)
  | inr ok ↦
      let empty : (t.flag (offset id) == tman_empty) ≡ true = rw ok at h in
      elim (Bool-cases (t.id (offset id) == id)) [
        | inl match ↦ (rw (ok, match, empty) refl, rw (ok, match, empty) refl)
        | inr not_mine ↦ (rw (ok, not_mine) refl, rw (ok, not_mine) refl)
      ]
]

-- The same list of entries by another way.
shows_as :
    (t : CTimers) (order : List ℕ) (es : List Entry)
    → InUse t order
    → map (entry t) order ≡ es
    → AllGood (map (entry t) order)
    → Shows t es
shows_as t order es u e g = record {
  order = order;
  in_use = u;
  entries = e;
  good = subst AllGood e g;
}

module _ (t : CTimers) (id : ℕ) (l r : List ℕ) (u : InUse t (l ++ offset id ∷ r))
    (g : AllGood (map (entry t) (l ++ offset id ∷ r))) (ok : invalid_id id ≡ false)
    (marked : (t.flag (offset id) == tman_empty) ≡ false) where
  good_parts : AllGood (map (entry t) l) × AllGood (entry t (offset id) ∷ map (entry t) r)
  good_parts = parts t id l r u.list.distinct.1 g

  stop_at : Shows (sys_stop_c_timer id t) (remove_id id (map (entry t) (l ++ offset id ∷ r)))
  unfolding sys_stop_c_timer
  stop_at = elim (Bool-cases (t.id (offset id) == id)) [
    | inl mine ↦
        rw (ok, mine, marked, remove_id_at t id l r u.list.distinct.1 g)
          (rw mine (
            shows_as _ (l ++ r) _ (take_out-InUse t l (offset id) r u) refl (
              rw (map-append (entry t) l r)
                (append-AllGood (map (entry t) l) _ good_parts.0 good_parts.1.1))))
    | inr other ↦
        rw (ok, other, remove_id_at t id l r u.list.distinct.1 g)
          (rw other (shows_as t (l ++ offset id ∷ r) _ u refl g))
  ]

  reset_entries :
      map (entry (record t { cnt = upd t.cnt (offset id) 0 })) (l ++ offset id ∷ r)
      ≡ map (entry t) l ++ record (entry t (offset id)) { cnt = 0 } ∷ map (entry t) r
  reset_entries =
      let p = offset id in
      let t' = record t { cnt = upd t.cnt p 0 } in
      let (fl, fr) = Distinct-middle l p r u.list.distinct.1 in
      map-append (entry t') l (p ∷ r)
      ∙ cc (
        entries_frame t t' p l (entry-upd t p 0) fl,
        entries_frame t t' p r (entry-upd t p 0) fr,
        counted_at t p 0 (map (entry t) r),
      )

  clear_at : Shows (sys_clear_c_timer id t) (reset_id id (map (entry t) (l ++ offset id ∷ r)))
  unfolding sys_clear_c_timer
  clear_at = elim (Bool-cases (t.id (offset id) == id)) [
    | inl mine ↦
        let here : IsGood (entry t (offset id)) = good_parts.1.0 in
        let whole = append-AllGood (map (entry t) l) _ good_parts.0 (
          record {
            node = here.node;
            inside = here.inside;
            positive = here.positive;
            bounded = here.bounded;
            below = here.positive;
          },
          good_parts.1.1,
        ) in
        rw (ok, mine, marked, reset_id_at t id l r u.list.distinct.1 g)
          (rw mine (
            shows_as _ (l ++ offset id ∷ r) _ (cnt-InUse t (offset id) 0 _ u) reset_entries
              (subst AllGood (sym reset_entries) whole)))
    | inr other ↦
        rw (ok, other, reset_id_at t id l r u.list.distinct.1 g)
          (rw other (shows_as t (l ++ offset id ∷ r) _ u refl g))
  ]

Stopped : CTimers → ℕ → List Entry → Type 0
Stopped t id es =
    Shows (sys_stop_c_timer id t) (remove_id id es)
    × Shows (sys_clear_c_timer id t) (reset_id id es)

stop_placed :
    (t : CTimers) (id : ℕ) (order : List ℕ)
    → InUse t order
    → AllGood (map (entry t) order)
    → Place t id order
    → Stopped t id (map (entry t) order)
unfolding Stopped
stop_placed t id order u g (nowhere fresh idle) =
    let (no_stop, no_clear) = unchanged t id idle in
    (
      rw (no_stop, remove_id-Fresh t id order fresh g) (shows_as t order _ u refl g),
      rw (no_clear, reset_id-Fresh t id order fresh g) (shows_as t order _ u refl g),
    )
stop_placed t id order u g (at_node l r e ok marked) =
    let u' = subst (InUse t) e u in
    let g' = subst (λ (o : List ℕ). AllGood (map (entry t) o)) e g in
    subst (λ (o : List ℕ). Stopped t id (map (entry t) o)) (sym e)
      (stop_at t id l r u' g' ok marked, clear_at t id l r u' g' ok marked)

-- Where `es` are the timers in use, `SysStopCTimer` takes out the timer with the id and
-- `SysClearCTimer` sets its count to 0; the other timers stay as they are and in their order, and an
-- id that no timer in use has changes nothing.
pub sys_stop_c_timer-remove :
    (t : CTimers) (es : List Entry) (id : ℕ)
    → Shows t es
    → Shows (sys_stop_c_timer id t) (remove_id id es)
      × Shows (sys_clear_c_timer id t) (reset_id id es)
unfolding Stopped
sys_stop_c_timer-remove t es id s = subst (Stopped t id) s.entries (
    stop_placed t id s.order s.in_use (subst AllGood (sym s.entries) s.good)
      (place t id s.order s.in_use))
