-- ===== src/Uplink/Recv/Overflow.antt =====
-- A length field that announces more than the receive buffer holds.
use smart_home_xiugai.Prelude.{
  ℕ, ◌+◌, ◌^◌, ◌<◌, ◌≤◌, ◌≡◌, refl, List, [], ◌∷◌, ◌++◌, get_or, take, length, arith, ap, ◌∙◌, sym,
  length-take, inl, inr,
}
use smart_home_xiugai.Uplink.Frame.{uplink_head, data_len}
use smart_home_xiugai.Uplink.Recv.{Link, up_timer_proc, overrun, recv_chars, uplink_recv_pkt}
use smart_home_xiugai.Uplink.Recv.Invariant.{
  buffer_size, body_len, IsValid, Accepted, extends, drops, accepts, overruns, Unfit, no_head,
  no_dep, no_tail, no_check, AtEnd,
}
use smart_home_xiugai.Uplink.Recv.Turn.{recv_char-Turn}
use smart_home_xiugai.Uplink.Recv.Sound.{
  recv_chars-more, recv_chars-fault, snoc-append, up_timer_proc-IsValid,
}
use smart_home_xiugai.Uplink.Recv.Complete.{get_or-append_right, data_len-append}

-- Characters that begin like a frame, with a length field that the buffer does not have the room for.
pub record IsOversized (stream : List ℕ) : Type 0 where
  pub head : get_or stream 0 0 ≡ uplink_head
  pub dep : get_or stream 6 0 ≡ uplink_head
  pub announced : buffer_size < data_len stream + 12
  pub whole : data_len stream + 12 < 2 ^ 16
  pub long : buffer_size < length stream

fits_buffer :
    (n : ℕ) (buf bytes : List ℕ)
    → length buf ≡ buffer_size
    → take n buf ≡ bytes
    → length bytes ≤ buffer_size
fits_buffer n buf bytes room e = omega (arith, length-take n buf, ap length e)

module _ (timeout : ℕ) (stream : List ℕ) (o : IsOversized stream) where
  announced_of :
      (pre cs : List ℕ) → pre ++ cs ≡ stream → 10 ≤ length pre → buffer_size < body_len pre
  announced_of pre cs e h =
      let same : data_len pre ≡ data_len stream = sym (data_len-append pre cs h) ∙ ap data_len e in
      omega (arith, same, o.announced, o.whole)

  unended : (pre cs : List ℕ) → pre ++ cs ≡ stream → length pre ≤ buffer_size → ¬ (AtEnd pre)
  unended pre cs e small a = omega (arith, announced_of pre cs e (omega (arith, a.long)), a.enough)

  fitting :
      (pre : List ℕ) (uc : ℕ) (cs : List ℕ)
      → pre ++ uc ∷ cs ≡ stream
      → length pre ≤ buffer_size
      → ¬ (Unfit pre uc)
  fitting pre uc cs e small u =
      let now : get_or stream (length pre) 0 ≡ uc =
        ap (λ (t : List ℕ). get_or t (length pre) 0) (sym e) ∙ get_or-append_right pre uc cs in
      elim u [
        | no_head p ne ↦ ne (sym now ∙ ap (λ (t : List ℕ). get_or stream (length t) 0) p ∙ o.head)
        | no_dep p ne ↦ ne (sym now ∙ ap (λ (t : ℕ). get_or stream t 0) p ∙ o.dep)
        | no_tail a ne ↦ unended pre (uc ∷ cs) e small a
        | no_check a buf held bad ↦ unended pre (uc ∷ cs) e small a
      ]

  -- No frame is taken out of such characters.
  unaccepted :
      (pre : List ℕ) (uc : ℕ) (cs : List ℕ) (l : Link)
      → pre ++ uc ∷ cs ≡ stream
      → ¬ (Accepted l (pre ++ uc ∷ []))
  unaccepted pre uc cs l e a = omega (
    arith,
    announced_of (pre ++ uc ∷ []) cs (snoc-append pre uc cs ∙ e) (omega (arith, a.long.1)),
    a.long.0,
    fits_buffer (length (pre ++ uc ∷ [])) l.rcvbuf (pre ++ uc ∷ []) a.room a.bytes,
  )

  held_fits : (l : Link) (pre : List ℕ) → IsValid l pre → length pre ≤ buffer_size
  held_fits l pre v = fits_buffer (length pre) l.rcvbuf pre v.holds.room v.holds.bytes

  recv_chars_oversized :
      (cs pre : List ℕ) (uc : ℕ) (l : Link)
      → IsValid l pre
      → pre ++ uc ∷ cs ≡ stream
      → recv_chars timeout (uc ∷ cs) l ≡ overrun
  recv_chars_oversized [] pre uc l v e = elim (recv_char-Turn timeout uc l pre v) [
    | extends l' run v' ↦
        absurd (omega (arith, held_fits l' (pre ++ uc ∷ []) v', ap length e, o.long))
    | drops l' run v' why ↦ absurd (fitting pre uc [] e (held_fits l pre v) why)
    | accepts l' run a ↦ absurd (unaccepted pre uc [] l' e a)
    | overruns run full ↦ recv_chars-fault timeout uc [] l run
  ]
  recv_chars_oversized (c ∷ cs) pre uc l v e = elim (recv_char-Turn timeout uc l pre v) [
    | extends l' run v' ↦
        recv_chars-more timeout uc (c ∷ cs) l l' run
        ∙ recv_chars_oversized cs (pre ++ uc ∷ []) c l' v' (snoc-append pre uc (c ∷ cs) ∙ e)
    | drops l' run v' why ↦ absurd (fitting pre uc (c ∷ cs) e (held_fits l pre v) why)
    | accepts l' run a ↦ absurd (unaccepted pre uc (c ∷ cs) l' e a)
    | overruns run full ↦ recv_chars-fault timeout uc (c ∷ cs) l run
  ]

-- Characters that begin like a frame and are longer than the receive buffer of 1152 bytes make
-- `UplinkRecvPkt` write behind the buffer, from any receiver that holds no bytes, if their length field
-- and the 12 bytes around the data add up to more than 1152 and to less than 2 ^ 16: nothing compares
-- that sum with the buffer. For a sum from 2 ^ 16 on, which the source cuts to 16 bits, nothing is said.
pub uplink_recv_pkt-oversized :
    (timeout : ℕ) (stream : List ℕ) (l : Link)
    → IsOversized stream
    → IsValid l []
    → uplink_recv_pkt timeout stream l ≡ overrun
unfolding uplink_recv_pkt
uplink_recv_pkt-oversized timeout [] l o v = absurd (omega (arith, o.long))
uplink_recv_pkt-oversized timeout (uc ∷ cs) l o v =
    let empty : IsValid (up_timer_proc l) [] = elim (up_timer_proc-IsValid l [] v) [
      | inl same ↦ same
      | inr same ↦ same
    ] in
    recv_chars_oversized timeout (uc ∷ cs) o cs [] uc (up_timer_proc l) empty refl
