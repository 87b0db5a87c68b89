-- ===== src/Uplink/Recv/Turn.antt =====
-- Each character keeps the receiver's state valid, handler by handler.
use smart_home_xiugai.Prelude.{
  ℕ, ◌+◌, ◌-◌, ◌<◌, ◌≤◌, ◌≡◌, ◌≢◌, refl, List, [], ◌∷◌, ◌++◌, get_or, length, u16, ◌==◌, arith,
  true, false, ap, ◌∙◌, sym, get_or-take, leb, ==_iff, if◌then◌else◌, ◌⊎◌, inl, inr, Bool-cases,
  get_or-append_left,
}
use native.Mathlib.Decide.{dec_lt}
use mathlib.Core.Path.{subst⁻¹}
use smart_home_xiugai.Bytes.{makepkt_short}
use smart_home_xiugai.Uplink.Frame.{uplink_head, uplink_tail, data_len, check_stream}
use smart_home_xiugai.Uplink.Recv.{
  Link, put_then, clear_state, stop_up_timer, set_up_timer, goto, Outcome, more, received, on_head,
  on_addr, on_dep, on_length, on_data, on_tail, recv_char,
}
use smart_home_xiugai.Uplink.Recv.Invariant.{
  buffer_size, Holds, body_len, at_head, at_addr, at_dep, at_length, at_data, at_tail, IsValid,
  Accepted, Turn, extends, drops, accepts, overruns, pushed, put_then-some, put_then-none,
  pushed-Holds, length-snoc, AtEnd, no_head, no_dep, no_tail, no_check, goto-Holds,
  clear_state-IsValid,
}

get_or-append_length : (xs : List ℕ) (x : ℕ) → get_or (xs ++ x ∷ []) (length xs) 0 ≡ x
get_or-append_length [] x = refl
get_or-append_length (y ∷ ys) x = get_or-append_length ys x

test_ne : (a b : ℕ) → (a == b) ≡ false → a ≢ b
test_ne a b h = ground arith

data_len_lem : (pkt : List ℕ) → makepkt_short (get_or pkt 8 0 ∷ get_or pkt 9 0 ∷ []) ≡ data_len pkt
unfolding data_len
data_len_lem pkt = refl

stop_up_timer-Holds : {l : Link} {pre : List ℕ} → Holds l pre → Holds (stop_up_timer l) pre
unfolding stop_up_timer
stop_up_timer-Holds h = record {
  room = h.room;
  offset = h.offset;
  count = h.count;
  bytes = h.bytes;
}

set_up_timer-Holds :
    (timeout : ℕ) {l : Link} {pre : List ℕ} → Holds l pre → Holds (set_up_timer timeout l) pre
unfolding set_up_timer
set_up_timer-Holds timeout h = record {
  room = h.room;
  offset = h.offset;
  count = h.count;
  bytes = h.bytes;
}

clear_state-Accepted :
    {l : Link} {frame : List ℕ}
    → Holds l frame
    → (length frame ≡ 12) ⊎ (length frame ≡ body_len frame + 1)
    → body_len frame < length frame
    → 11 < length frame
    → check_stream l.rcvbuf (length frame) ≡ true
    → Accepted (clear_state l) frame
unfolding clear_state stop_up_timer
clear_state-Accepted h counted longer long good = record {
  room = h.room;
  reset = refl;
  stopped = refl;
  bytes = h.bytes;
  counted = counted;
  long = (longer, long);
  checked = good;
}

module _ (uc : ℕ) (l : Link) (pre : List ℕ) (h : Holds l pre) where
  abbrev next : List ℕ
  next = pre ++ uc ∷ []

  -- A handler that writes: behind the buffer it faults, elsewhere it goes on.
  put_then-Turn :
      (k : Link → Outcome)
      → (length pre < buffer_size → Holds (pushed uc l) next → Turn pre uc (k (pushed uc l)))
      → Turn pre uc (put_then uc l k)
  put_then-Turn k go = elim (dec_lt (length pre) buffer_size) [
    | yes small ↦ rw (put_then-some uc l pre h small k) (go small (pushed-Holds uc l pre h small))
    | no big ↦
        let e : buffer_size ≤ length pre = omega arith in overruns (put_then-none uc l pre h e k) e
  ]

  kept : (i : ℕ) → i < length pre → get_or next i 0 ≡ get_or pre i 0
  kept i p = get_or-append_left pre (uc ∷ []) i 0 p

  on_addr-Turn :
      l.fsm.maxlen ≡ 6
      → l.fsm.stat ≡ 1
      → 0 < length pre
      → length pre < 6
      → get_or pre 0 0 ≡ uplink_head
      → Turn pre uc (on_addr uc l)
  unfolding on_addr
  on_addr-Turn m s pos short head = put_then-Turn _ λ small held.
      let n = length-snoc pre uc in
      let head' : get_or next 0 0 ≡ uplink_head = kept 0 pos ∙ head in
      elim (Bool-cases (leb l.fsm.maxlen (pushed uc l).fsm.cnt)) [
        | inl full ↦ extends (goto 2 10 (pushed uc l)) (rw full) (record {
          holds = goto-Holds 2 10 held;
          stage = at_dep refl refl (ground (arith, held.count, n)) head';
        })
        | inr rest ↦ extends (pushed uc l) (rw rest) (record {
          holds = held;
          stage = at_addr s m (omega (arith, n)) (ground (arith, held.count, n)) head';
        })
      ]

  data_len-next : 10 ≤ length pre → data_len next ≡ data_len pre
  unfolding data_len
  data_len-next long = rw (kept 8 (omega arith), kept 9 (omega arith))

  on_dep-Turn :
      l.fsm.maxlen ≡ 10 → length pre ≡ 6 → get_or pre 0 0 ≡ uplink_head → Turn pre uc (on_dep uc l)
  unfolding on_dep
  on_dep-Turn m six head = elim (Bool-cases (uc == uplink_head)) [
    | inr other ↦ rw other (
        drops (clear_state l) refl (clear_state-IsValid h)
          (no_dep six (test_ne uc uplink_head other)))
    | inl is_head ↦ rw is_head (
        put_then-Turn _ λ small held.
          let n = length-snoc pre uc in
          extends (goto 3 l.fsm.maxlen (pushed uc l)) refl (record {
            holds = goto-Holds 3 l.fsm.maxlen held;
            stage =
                at_length refl m (omega (arith, n)) (omega (arith, n)) (kept 0 (omega arith) ∙ head)
                  (get_or_last ∙ (==_iff uc uplink_head).0 is_head);
          }))
  ]
    where
      get_or_last : get_or next 6 0 ≡ uc
      get_or_last = rw (← six) (get_or-append_length pre uc)

  on_length-Turn :
      l.fsm.maxlen ≡ 10
      → l.fsm.stat ≡ 3
      → 6 < length pre
      → length pre < 10
      → get_or pre 0 0 ≡ uplink_head
      → get_or pre 6 0 ≡ uplink_head
      → Turn pre uc (on_length uc l)
  unfolding on_length
  on_length-Turn m s past short head dep = put_then-Turn _ λ small held.
      let n = length-snoc pre uc in
      let head' : get_or next 0 0 ≡ uplink_head = kept 0 (omega arith) ∙ head in
      let dep' : get_or next 6 0 ≡ uplink_head = kept 6 past ∙ dep in
      elim (Bool-cases (leb l.fsm.maxlen (pushed uc l).fsm.cnt)) [
        | inl full ↦
            let ten : length next ≡ 10 = ground (arith, held.count, n) in
            extends _ (rw full) (record {
              holds = goto-Holds 4 _ held;
              stage =
                  at_data refl (length_field held ten) (omega (arith, ten)) (inl ten) head' dep';
            })
        | inr rest ↦ extends (pushed uc l) (rw rest) (record {
          holds = held;
          stage = at_length s m (omega (arith, n)) (ground (arith, held.count, n)) head' dep';
        })
      ]
    where
      byte :
          Holds (pushed uc l) next
          → (i : ℕ) → i < length next
          → get_or (pushed uc l).rcvbuf i 0 ≡ get_or next i 0
      byte held i p =
          sym (get_or-take (length next) (pushed uc l).rcvbuf i 0 p)
          ∙ ap (λ (t : List ℕ). get_or t i 0) held.bytes

      length_field :
          (held : Holds (pushed uc l) next)
          → length next ≡ 10
          → u16 (
              makepkt_short (
                get_or (pushed uc l).rcvbuf (l.fsm.pbuf + 1 - 2) 0
                ∷ get_or (pushed uc l).rcvbuf (l.fsm.pbuf + 1 - 1) 0
                ∷ [])
              + 10
              + 2)
            ≡ body_len next
      length_field held ten =
          let eight : l.fsm.pbuf + 1 - 2 ≡ 8 = omega (arith, held.offset, ten) in
          let nine : l.fsm.pbuf + 1 - 1 ≡ 9 = omega (arith, held.offset, ten) in
          rw (eight, nine, byte held 8 (omega (arith, ten)), byte held 9 (omega (arith, ten)))
            (ap (λ (t : ℕ). u16 (t + 10 + 2)) (data_len_lem next))

  on_data-Turn :
      l.fsm.maxlen ≡ body_len pre
      → l.fsm.stat ≡ 4
      → 10 ≤ length pre
      → (length pre ≡ 10) ⊎ (length pre < l.fsm.maxlen)
      → get_or pre 0 0 ≡ uplink_head
      → get_or pre 6 0 ≡ uplink_head
      → Turn pre uc (on_data uc l)
  unfolding on_data
  on_data-Turn m s long early head dep = put_then-Turn _ λ small held.
      let n = length-snoc pre uc in
      let head' : get_or next 0 0 ≡ uplink_head = kept 0 (omega arith) ∙ head in
      let dep' : get_or next 6 0 ≡ uplink_head = kept 6 (omega arith) ∙ dep in
      let m' : l.fsm.maxlen ≡ body_len next =
        m ∙ ap (λ (t : ℕ). u16 (t + 10 + 2)) (sym (data_len-next long)) in
      elim (Bool-cases (leb l.fsm.maxlen (pushed uc l).fsm.cnt)) [
        | inl full ↦ extends (goto 5 l.fsm.maxlen (pushed uc l)) (rw full) (record {
          holds = goto-Holds 5 l.fsm.maxlen held;
          stage =
              at_tail refl m' (omega (arith, n)) (ground (arith, held.count, n))
                (ground (arith, held.count, n)) head' dep';
        })
        | inr rest ↦ extends (pushed uc l) (rw rest) (record {
          holds = held;
          stage = at_data s m' (omega (arith, n)) (inr (ground (arith, held.count, n))) head' dep';
        })
      ]

  on_tail-Turn :
      l.fsm.maxlen ≡ body_len pre
      → 10 < length pre
      → (length pre ≡ 11) ⊎ (length pre ≡ l.fsm.maxlen)
      → l.fsm.maxlen ≤ length pre
      → Turn pre uc (on_tail uc l)
  unfolding on_tail
  on_tail-Turn m long exact over = elim (Bool-cases (uc == uplink_tail)) [
    | inr other ↦ rw other (
        drops (clear_state l) refl (clear_state-IsValid h)
          (no_tail at_end (test_ne uc uplink_tail other)))
    | inl is_tail ↦ rw is_tail (put_then-Turn _ λ small held. judged held)
  ]
    where
      n : length next ≡ length pre + 1
      n = length-snoc pre uc

      at_end : AtEnd pre
      at_end = record { long = long; exact = ground (arith, m); enough = rw m at over }

      m' : l.fsm.maxlen ≡ body_len next
      m' = m ∙ ap (λ (t : ℕ). u16 (t + 10 + 2)) (sym (data_len-next (omega arith)))

      stopped : Link
      stopped = stop_up_timer (pushed uc l)

      judged :
          Holds (pushed uc l) next
          → Turn pre uc (
              if check_stream stopped.rcvbuf stopped.fsm.cnt
              then received (clear_state stopped)
              else more (clear_state stopped))
      judged held =
          let held' = stop_up_timer-Holds held in
          elim (Bool-cases (check_stream stopped.rcvbuf stopped.fsm.cnt)) [
            | inr bad ↦ rw bad (
                drops (clear_state stopped) refl (clear_state-IsValid held') (
                  no_check at_end stopped.rcvbuf (rw n at held'.bytes)
                    (rw (held'.count ∙ n) at bad)))
            | inl good ↦ rw good (
                accepts (clear_state stopped) refl (
                  clear_state-Accepted held' (ground (arith, n, m')) (omega (arith, n, m'))
                    (omega (arith, n)) (rw held'.count at good)))
          ]

-- The first head byte starts a frame; any other character is skipped.
on_head-Turn :
    (timeout uc : ℕ) (l : Link) → IsValid l [] → l.fsm.stat ≡ 0 → Turn [] uc (on_head timeout uc l)
unfolding on_head set_up_timer
on_head-Turn timeout uc l v s = elim (Bool-cases (uc == uplink_head)) [
  | inr other ↦ rw other (drops l refl v (no_head refl (test_ne uc uplink_head other)))
  | inl is_head ↦ rw is_head (
      put_then-Turn uc (clear_state l) [] (clear_state-IsValid v.holds).holds _ λ small held.
        extends _ refl (record {
          holds = set_up_timer-Holds timeout (goto-Holds 1 6 held);
          stage = at_addr refl refl (omega arith) (omega arith) ((==_iff uc uplink_head).0 is_head);
        }))
]

module _ (timeout uc : ℕ) (l : Link) where
  dispatch :
      ((l.fsm.stat ≡ 0 → recv_char timeout uc l ≡ on_head timeout uc l)
        × (l.fsm.stat ≡ 1 → recv_char timeout uc l ≡ on_addr uc l)
        × (l.fsm.stat ≡ 2 → recv_char timeout uc l ≡ on_dep uc l)
        × (l.fsm.stat ≡ 3 → recv_char timeout uc l ≡ on_length uc l)
        × (l.fsm.stat ≡ 4 → recv_char timeout uc l ≡ on_data uc l)
        × (l.fsm.stat ≡ 5 → recv_char timeout uc l ≡ on_tail uc l))
  unfolding recv_char
  dispatch = (
    λ s. ground arith,
    λ s. ground arith,
    λ s. ground arith,
    λ s. ground arith,
    λ s. ground arith,
    λ s. ground arith,
  )

-- In a valid state every character extends the bytes held, drops them for a fresh start, completes an
-- accepted frame, or is written behind the buffer, which happens only when the buffer is full.
pub recv_char-Turn :
    (timeout uc : ℕ) (l : Link) (pre : List ℕ)
    → IsValid l pre
    → Turn pre uc (recv_char timeout uc l)
recv_char-Turn timeout uc l pre v = elim v.stage [
  | at_head s e ↦
      subst⁻¹ (λ (t : List ℕ). Turn t uc (recv_char timeout uc l)) e
        (rw ((dispatch timeout uc l).0 s) (on_head-Turn timeout uc l (rw e at v) s))
  | at_addr s m pos short head ↦
      rw ((dispatch timeout uc l).1 s) (on_addr-Turn uc l pre v.holds m s pos short head)
  | at_dep s m six head ↦ rw ((dispatch timeout uc l).2 s) (on_dep-Turn uc l pre v.holds m six head)
  | at_length s m past short head dep ↦
      rw ((dispatch timeout uc l).3 s) (on_length-Turn uc l pre v.holds m s past short head dep)
  | at_data s m long early head dep ↦
      rw ((dispatch timeout uc l).4 s) (on_data-Turn uc l pre v.holds m s long early head dep)
  | at_tail s m long exact over head dep ↦
      rw ((dispatch timeout uc l).5 s) (on_tail-Turn uc l pre v.holds m long exact over)
]
