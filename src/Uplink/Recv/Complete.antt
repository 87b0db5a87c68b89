-- ===== src/Uplink/Recv/Complete.antt =====
-- A good frame is received, whatever stands behind it.
use smart_home_xiugai.Prelude.{
  ℕ, suc, ◌+◌, ◌<◌, ◌≤◌, ◌≡◌, ◌≢◌, refl, List, [], ◌∷◌, ◌++◌, get_or, take, length, u16, arith,
  true, ap, ◌∙◌, sym, inl, inr, get_or-append_left, get_or-take, take-take, length-append, bit_or,
  ◌<<<◌,
}
use mathlib.Core.Path.{subst}
use smart_home_xiugai.Crc.{get_crc16}
use smart_home_xiugai.Uplink.Frame.{data_len, check_stream}
use smart_home_xiugai.Uplink.Frame.Laws.{IsFrame, check_stream_iff}
use smart_home_xiugai.Uplink.Recv.{Link, up_timer_proc, got, recv_chars, uplink_recv_pkt}
use smart_home_xiugai.Uplink.Recv.Invariant.{
  buffer_size, body_len, Stage, at_head, at_addr, at_dep, at_length, at_data, at_tail, IsValid,
  Accepted, extends, drops, accepts, overruns, AtEnd, Unfit, no_head, no_dep, no_tail, no_check,
  length-snoc,
}
use smart_home_xiugai.Uplink.Recv.Turn.{recv_char-Turn}
use smart_home_xiugai.Uplink.Recv.Sound.{
  recv_chars-more, recv_chars-received, snoc-append, up_timer_proc-IsValid,
}

-- A frame that passes the check and fits the buffer, with the length that its field announces.
pub record IsGood (frame : List ℕ) : Type 0 where
  pub sized : length frame ≡ data_len frame + 10 + 3
  pub fits : length frame ≤ buffer_size
  pub framed : IsFrame frame (data_len frame + 10)

pub get_or-append_right :
    (xs : List ℕ) (y : ℕ) (ys : List ℕ) → get_or (xs ++ y ∷ ys) (length xs) 0 ≡ y
get_or-append_right [] y ys = refl
get_or-append_right (x ∷ xs) y ys = get_or-append_right xs y ys

pub data_len-append : (xs ys : List ℕ) → 10 ≤ length xs → data_len (xs ++ ys) ≡ data_len xs
unfolding data_len
data_len-append xs ys h =
    rw (get_or-append_left xs ys 8 0 (omega arith), get_or-append_left xs ys 9 0 (omega arith))

-- The check reads only the frame's own bytes.
check_of_prefix :
    (stream frame : List ℕ)
    → IsGood frame
    → take (length frame) stream ≡ frame
    → check_stream stream (length frame) ≡ true
check_of_prefix stream frame g e =
    let n : ℕ = data_len frame + 10 in
    let small : u16 n ≡ n = omega (arith, g.sized, g.fits) in
    let at : (i : ℕ) → i < length frame → get_or stream i 0 ≡ get_or frame i 0 =
      λ i p. sym (get_or-take (length frame) stream i 0 p) ∙ ap (λ (t : List ℕ). get_or t i 0) e in
    let cut : take n stream ≡ take n frame =
      sym (take-take n (length frame) stream (omega (arith, g.sized))) ∙ ap (take n) e in
    ap (check_stream stream) g.sized
    ∙ (check_stream_iff stream n).1 (record {
      head = at 0 (omega (arith, g.sized)) ∙ g.framed.head;
      dep = at 6 (omega (arith, g.sized)) ∙ g.framed.dep;
      tail = at (n + 2) (omega (arith, g.sized)) ∙ g.framed.tail;
      crc =
          ap get_crc16
            (ap (λ (t : ℕ). take t stream) small ∙ cut ∙ ap (λ (t : ℕ). take t frame) (sym small))
          ∙ g.framed.crc
          ∙ ap (λ (t : ℕ). bit_or (u16 (t <<< 8)) (get_or frame (n + 1) 0))
              (sym (at n (omega (arith, g.sized))))
          ∙ ap (bit_or (u16 (get_or stream n 0 <<< 8))) (sym (at (n + 1) (omega (arith, g.sized))));
    })

-- While a good frame comes in, the machine has no reason to drop what it holds.
module _ (frame : List ℕ) (g : IsGood frame) (pre : List ℕ) (uc : ℕ) (cs : List ℕ)
    (e : pre ++ uc ∷ cs ≡ frame) where
  whole : length frame ≡ length pre + suc (length cs)
  whole = ap length (sym e) ∙ length-append pre (uc ∷ cs)

  now : get_or frame (length pre) 0 ≡ uc
  now = ap (λ (t : List ℕ). get_or t (length pre) 0) (sym e) ∙ get_or-append_right pre uc cs

  announced : 10 ≤ length pre → body_len pre ≡ data_len frame + 12
  announced h =
      let same : data_len pre ≡ data_len frame =
        sym (data_len-append pre (uc ∷ cs) h) ∙ ap data_len e in
      omega (arith, same, g.sized, g.fits)

  announced_next : 10 ≤ length (pre ++ uc ∷ []) → body_len (pre ++ uc ∷ []) ≡ data_len frame + 12
  announced_next h =
      let same : data_len (pre ++ uc ∷ []) ≡ data_len frame =
        sym (data_len-append (pre ++ uc ∷ []) cs h) ∙ ap data_len (snoc-append pre uc cs ∙ e) in
      omega (arith, same, g.sized, g.fits)

  last : AtEnd pre → length pre ≡ data_len frame + 12
  last a = ground (arith, announced (omega (arith, a.long)), a.exact, a.enough, a.long)

  fit : ¬ (Unfit pre uc)
  fit (no_head p ne) =
      ne (sym now ∙ ap (λ (t : List ℕ). get_or frame (length t) 0) p ∙ g.framed.head)
  fit (no_dep p ne) = ne (sym now ∙ ap (λ (t : ℕ). get_or frame t 0) p ∙ g.framed.dep)
  fit (no_tail a ne) =
      let there : length pre ≡ data_len frame + 10 + 2 = omega (arith, last a) in
      ne (sym now ∙ ap (λ (t : ℕ). get_or frame t 0) there ∙ g.framed.tail)
  fit (no_check a stream held bad) =
      let there : length pre + 1 ≡ length frame = omega (arith, last a, g.sized) in
      let done : pre ++ uc ∷ [] ≡ frame = complete_of cs (omega (arith, whole, there)) e in
      let passed : check_stream stream (length frame) ≡ true =
        check_of_prefix stream frame g (ap (λ (t : ℕ). take t stream) (sym there) ∙ held ∙ done) in
      cc (ap (check_stream stream) there)
    where
      complete_of : (cs : List ℕ) → length cs ≡ 0 → pre ++ uc ∷ cs ≡ frame → pre ++ uc ∷ [] ≡ frame
      complete_of [] z e = e
      complete_of (c ∷ cs) z e = absurd (omega arith)

-- No state of the machine waits for more when the announced bytes are all there.
no_more : (stat maxlen : ℕ) (pre : List ℕ) → Stage pre stat maxlen → length pre ≢ data_len pre + 13
no_more stat maxlen pre s e = elim s [
  | at_head z p ↦ absurd (omega (arith, ap length p))
  | at_addr z m some short head ↦ absurd (omega arith)
  | at_dep z m six head ↦ absurd (omega arith)
  | at_length z m past short head dep ↦ absurd (omega arith)
  | at_data z m long early head dep ↦ absurd (ground arith)
  | at_tail z m long exact over head dep ↦ absurd (ground arith)
]

-- The loop takes a good frame to its end, from any beginning of it that the machine holds.
module _ (timeout : ℕ) (frame : List ℕ) (g : IsGood frame) (rest : List ℕ) where
  recv_chars_frame :
      (cs pre : List ℕ) (uc : ℕ) (l : Link)
      → IsValid l pre
      → pre ++ uc ∷ cs ≡ frame
      → (l' : Link) × (recv_chars timeout (uc ∷ cs ++ rest) l ≡ got l' rest) × Accepted l' frame
  recv_chars_frame [] pre uc l v e = elim (recv_char-Turn timeout uc l pre v) [
    | extends l' run v' ↦ absurd (
        no_more _ _ frame (subst (λ t. Stage t l'.fsm.stat l'.fsm.maxlen) e v'.stage)
          (omega (arith, g.sized)))
    | drops l' run v' why ↦ absurd (fit frame g pre uc [] e why)
    | accepts l' run a ↦ (l', recv_chars-received timeout uc rest l l' run, subst (Accepted l') e a)
    | overruns run full ↦ absurd (omega (arith, whole frame g pre uc [] e, g.fits))
  ]
  recv_chars_frame (c ∷ cs) pre uc l v e = elim (recv_char-Turn timeout uc l pre v) [
    | extends l' run v' ↦
        let (l'', run', a) =
          recv_chars_frame cs (pre ++ uc ∷ []) c l' v' (snoc-append pre uc (c ∷ cs) ∙ e) in
        (l'', recv_chars-more timeout uc (c ∷ cs ++ rest) l l' run ∙ run', a)
    | drops l' run v' why ↦ absurd (fit frame g pre uc (c ∷ cs) e why)
    | accepts l' run a ↦ absurd (too_early a.long.0 a.long.1)
    | overruns run full ↦ absurd (omega (arith, whole frame g pre uc (c ∷ cs) e, g.fits))
  ]
    where
      next : List ℕ
      next = pre ++ uc ∷ []

      too_early : body_len next < length next → 11 < length next → ⊥
      too_early longer long = omega (
        arith,
        announced_next frame g pre uc (c ∷ cs) e (omega arith),
        whole frame g pre uc (c ∷ cs) e,
        length-snoc pre uc,
        g.sized,
      )

-- A receiver that holds no bytes takes a good frame in one call of `UplinkRecvPkt`, whatever stands
-- behind the frame: the call returns 0 with the frame at the start of its buffer, where it passes
-- `CheckStreamOK`, and leaves the characters after the frame unread. A frame is good that fits the
-- buffer of 1152 bytes, has the length its field announces, the head and tail bytes and the checksum.
pub uplink_recv_pkt-frame :
    (timeout : ℕ) (frame rest : List ℕ) (l : Link)
    → IsGood frame
    → IsValid l []
    → (l' : Link) × (uplink_recv_pkt timeout (frame ++ rest) l ≡ got l' rest) × Accepted l' frame
unfolding uplink_recv_pkt
uplink_recv_pkt-frame timeout [] rest l g v = absurd (omega (arith, g.sized))
uplink_recv_pkt-frame timeout (uc ∷ cs) rest l g v =
    let empty : IsValid (up_timer_proc l) [] = elim (up_timer_proc-IsValid l [] v) [
      | inl same ↦ same
      | inr same ↦ same
    ] in
    recv_chars_frame timeout (uc ∷ cs) g rest cs [] uc (up_timer_proc l) empty refl
