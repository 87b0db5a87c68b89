-- ===== src/Uplink/Recv/Sound.antt =====
-- What a call of the receiver can end in, and what each end says of the characters read.
use smart_home_xiugai.Prelude.{
  ℕ, ◌+◌, ◌≤◌, ◌≡◌, refl, List, [], ◌∷◌, ◌++◌, length, arith, true, ap, ◌∙◌, sym, ◌⊎◌, inl, inr,
  Bool-cases, leb,
}
use mathlib.Core.Path.{subst⁻¹}
use mathlib.Core.List.{append_assoc, append-nil}
use smart_home_xiugai.Uplink.Recv.{
  Link, Timer, more, received, fault, recv_char, up_timer_proc, Recv, got, idle, overrun,
  recv_chars, uplink_recv_pkt, reset_fsm,
}
use smart_home_xiugai.Uplink.Recv.Invariant.{
  buffer_size, Holds, body_len, at_head, at_addr, at_dep, at_length, at_data, at_tail, IsValid,
  Accepted, extends, drops, accepts, overruns, clear_state-IsValid,
}
use smart_home_xiugai.Uplink.Recv.Turn.{recv_char-Turn}

pub recv_chars-nil : (timeout : ℕ) (l : Link) → recv_chars timeout [] l ≡ idle l
unfolding recv_chars
recv_chars-nil timeout l = refl

module _ (timeout uc : ℕ) (chars : List ℕ) (l l' : Link) where
  pub recv_chars-more :
      recv_char timeout uc l ≡ more l'
      → recv_chars timeout (uc ∷ chars) l ≡ recv_chars timeout chars l'
  unfolding recv_chars
  recv_chars-more e = rw (e, recv_chars)

  pub recv_chars-received :
      recv_char timeout uc l ≡ received l' → recv_chars timeout (uc ∷ chars) l ≡ got l' chars
  unfolding recv_chars
  recv_chars-received e = rw (e, recv_chars)

pub recv_chars-fault :
    (timeout uc : ℕ) (chars : List ℕ) (l : Link)
    → recv_char timeout uc l ≡ fault
    → recv_chars timeout (uc ∷ chars) l ≡ overrun
unfolding recv_chars
recv_chars-fault timeout uc chars l e = rw (e, recv_chars)

-- The bytes that `frame` names stand together in the characters read: behind what was skipped, and
-- before what is left.
pub record Delivered (stream : List ℕ) (l : Link) (rest : List ℕ) : Type 0 where
  pub skip : List ℕ
  pub frame : List ℕ
  pub cut : stream ≡ skip ++ (frame ++ rest)
  pub accepted : Accepted l frame

-- A write behind the buffer: the bytes held fill the buffer, and announce a frame that does not fit.
pub record Overrun (stream : List ℕ) : Type 0 where
  pub skip : List ℕ
  pub held : List ℕ
  pub rest : List ℕ
  pub cut : stream ≡ skip ++ (held ++ rest)
  pub full : buffer_size ≤ length held
  pub announced : buffer_size ≤ body_len held

-- What the end of the loop says.
pub data Ended (stream : List ℕ) (r : Recv) : Type 0 where
  delivered : (l : Link) (rest : List ℕ) → r ≡ got l rest → Delivered stream l rest → Ended stream r
  waiting :
      (l : Link) (skip held : List ℕ)
      → r ≡ idle l
      → IsValid l held
      → stream ≡ skip ++ held
      → Ended stream r
  broken : r ≡ overrun → Overrun stream → Ended stream r

pub snoc-append : (xs : List ℕ) (x : ℕ) (ys : List ℕ) → (xs ++ x ∷ []) ++ ys ≡ xs ++ x ∷ ys
snoc-append xs x ys = append_assoc xs (x ∷ []) ys

-- A full buffer can only be that of a frame too long for it.
announced_of_full :
    (l : Link) (pre : List ℕ)
    → IsValid l pre
    → buffer_size ≤ length pre
    → buffer_size ≤ body_len pre
announced_of_full l pre v full = elim v.stage [
  | at_head s e ↦ absurd (omega (arith, ap length e))
  | at_addr s m pos short head ↦ absurd (omega arith)
  | at_dep s m six head ↦ absurd (omega arith)
  | at_length s m past short head dep ↦ absurd (omega arith)
  | at_data s m long early head dep ↦ ground arith
  | at_tail s m long exact over head dep ↦ ground arith
]

-- Bytes dropped join what was skipped.
skip_more :
    (dropped : List ℕ) {stream : List ℕ} {r : Recv} → Ended stream r → Ended (dropped ++ stream) r
skip_more dropped (delivered l rest e d) = delivered l rest e (record {
  skip = dropped ++ d.skip;
  frame = d.frame;
  cut =
      ap (λ (t : List ℕ). dropped ++ t) d.cut ∙ sym (append_assoc dropped d.skip (d.frame ++ rest));
  accepted = d.accepted;
})
skip_more dropped (waiting l skip held e v cut) =
    waiting l (dropped ++ skip) held e v
      (ap (λ (t : List ℕ). dropped ++ t) cut ∙ sym (append_assoc dropped skip held))
skip_more dropped (broken e o) = broken e (record {
  skip = dropped ++ o.skip;
  held = o.held;
  rest = o.rest;
  cut =
      ap (λ (t : List ℕ). dropped ++ t) o.cut
      ∙ sym (append_assoc dropped o.skip (o.held ++ o.rest));
  full = o.full;
  announced = o.announced;
})

-- From a valid state the loop ends in one of these ways, whatever the characters.
pub recv_chars-Ended :
    (timeout : ℕ) (chars : List ℕ) (l : Link) (pre : List ℕ)
    → IsValid l pre
    → Ended (pre ++ chars) (recv_chars timeout chars l)
recv_chars-Ended timeout [] l pre v = waiting l [] pre (recv_chars-nil timeout l) v (append-nil pre)
recv_chars-Ended timeout (uc ∷ chars) l pre v = elim (recv_char-Turn timeout uc l pre v) [
  | extends l' e v' ↦
      rw (recv_chars-more timeout uc chars l l' e, ← snoc-append pre uc chars)
        (recv_chars-Ended timeout chars l' (pre ++ uc ∷ []) v')
  | drops l' e v' why ↦
      rw (recv_chars-more timeout uc chars l l' e, ← snoc-append pre uc chars)
        (skip_more (pre ++ uc ∷ []) (recv_chars-Ended timeout chars l' [] v'))
  | accepts l' e a ↦ delivered l' chars (recv_chars-received timeout uc chars l l' e) (record {
    skip = [];
    frame = pre ++ uc ∷ [];
    cut = sym (snoc-append pre uc chars);
    accepted = a;
  })
  | overruns e full ↦ broken (recv_chars-fault timeout uc chars l e) (record {
    skip = [];
    held = pre;
    rest = uc ∷ chars;
    cut = refl;
    full = full;
    announced = announced_of_full l pre v full;
  })
]

-- The timer keeps a valid state valid: it leaves it, or drops the bytes held.
pub up_timer_proc-IsValid :
    (l : Link) (pre : List ℕ)
    → IsValid l pre
    → IsValid (up_timer_proc l) pre ⊎ IsValid (up_timer_proc l) []
unfolding up_timer_proc
up_timer_proc-IsValid l pre v = elim (Bool-cases l.timer.flag) [
  | inr off ↦ inr (rw off (record { holds = emptied; stage = at_head refl refl }))
  | inl on ↦ elim (Bool-cases (leb l.timer.max (l.timer.cnt + 1))) [
    | inl late ↦ inr (rw (on, late) (clear_state-IsValid (ticked {t = late_timer})))
    | inr early ↦ inl (rw (on, early) (record { holds = ticked; stage = v.stage }))
  ]
]
  where
    emptied : {t : Timer} → Holds (record l { timer = t; fsm = reset_fsm }) []
    emptied = record { room = v.holds.room; offset = refl; count = refl; bytes = refl }

    late_timer : Timer
    late_timer = record (l.timer) { cnt = l.timer.cnt + 1; flag = true }

    ticked : {t : Timer} → Holds (record l { timer = t }) pre
    ticked = record {
      room = v.holds.room;
      offset = v.holds.offset;
      count = v.holds.count;
      bytes = v.holds.bytes;
    }

-- A call of the receiver on a valid state ends in one of the three ways, with the bytes held from
-- earlier calls before the new characters.
pub uplink_recv_pkt-Ended :
    (timeout : ℕ) (chars : List ℕ) (l : Link) (pre : List ℕ)
    → IsValid l pre
    → Ended (pre ++ chars) (uplink_recv_pkt timeout chars l)
unfolding uplink_recv_pkt
uplink_recv_pkt-Ended timeout chars l pre v = elim (up_timer_proc-IsValid l pre v) [
  | inl same ↦ recv_chars-Ended timeout chars (up_timer_proc l) pre same
  | inr empty ↦ skip_more pre (recv_chars-Ended timeout chars (up_timer_proc l) [] empty)
]

got_inversion :
    {stream rest : List ℕ} {l : Link} → Ended stream (got l rest) → Delivered stream l rest
got_inversion {stream} {rest} {l} (delivered l' rest' e d) =
    let p : l ≡ l' = cc in
    let q : rest ≡ rest' = cc in
    subst⁻¹ (λ t. Delivered stream t rest) p (subst⁻¹ (Delivered stream l') q d)
got_inversion (waiting l' skip held e v cut) = cc
got_inversion (broken e o) = cc

overrun_inversion : {stream : List ℕ} → Ended stream overrun → Overrun stream
overrun_inversion (delivered l' rest' e d) = cc
overrun_inversion (waiting l' skip held e v cut) = cc
overrun_inversion (broken e o) = o

idle_inversion :
    {stream : List ℕ} {l : Link}
    → Ended stream (idle l)
    → (skip held : List ℕ) × IsValid l held × (stream ≡ skip ++ held)
idle_inversion (delivered l' rest' e d) = cc
idle_inversion {stream} {l} (waiting l' skip held e v cut) =
    let p : l ≡ l' = cc in (skip, held, subst⁻¹ (λ t. IsValid t held) p v, cut)
idle_inversion (broken e o) = cc

-- A call of `UplinkRecvPkt` on a valid receiver that returns 0 has in its buffer a frame that passed
-- `CheckStreamOK` at the frame's length; the frame's bytes stand together in the characters read,
-- behind those held from earlier calls; the characters after the frame are left for the next call;
-- and the machine and the timer are reset.
pub uplink_recv_pkt-got :
    (timeout : ℕ) (chars rest pre : List ℕ) (l l' : Link)
    → IsValid l pre
    → uplink_recv_pkt timeout chars l ≡ got l' rest
    → Delivered (pre ++ chars) l' rest
uplink_recv_pkt-got timeout chars rest pre l l' v e =
    got_inversion (rw e at (uplink_recv_pkt-Ended timeout chars l pre v))

-- A call that returns 1 leaves a valid receiver, which holds the end of what was read.
pub uplink_recv_pkt-idle :
    (timeout : ℕ) (chars pre : List ℕ) (l l' : Link)
    → IsValid l pre
    → uplink_recv_pkt timeout chars l ≡ idle l'
    → (skip held : List ℕ) × IsValid l' held × (pre ++ chars ≡ skip ++ held)
uplink_recv_pkt-idle timeout chars pre l l' v e =
    idle_inversion (rw e at (uplink_recv_pkt-Ended timeout chars l pre v))

-- A write behind the receive buffer happens only when the bytes held fill all of it and their length
-- field announces a frame that is longer than the buffer.
pub uplink_recv_pkt-overrun :
    (timeout : ℕ) (chars pre : List ℕ) (l : Link)
    → IsValid l pre
    → uplink_recv_pkt timeout chars l ≡ overrun
    → Overrun (pre ++ chars)
uplink_recv_pkt-overrun timeout chars pre l v e =
    overrun_inversion (rw e at (uplink_recv_pkt-Ended timeout chars l pre v))
