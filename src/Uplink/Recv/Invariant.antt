-- ===== src/Uplink/Recv/Invariant.antt =====
-- What the receiver's state says of the bytes since the last head byte, and that each character
-- keeps it.
use smart_home_xiugai.Prelude.{
  ℕ, suc, ◌+◌, ◌<◌, ◌≤◌, ◌≡◌, ◌≢◌, refl, List, [], ◌∷◌, ◌++◌, get_or, set, take, length, u16, arith,
  true, false, ap, ◌∙◌, take-suc-set, length-set, length-append, ltb, ◌⊎◌,
}
use smart_home_xiugai.Uplink.Frame.{uplink_head, uplink_tail, data_len, check_stream}
use smart_home_xiugai.Uplink.Recv.{
  Link, put_then, clear_state, goto, reset_fsm, Outcome, more, received, fault,
}

-- The size of the receive buffers, MAXLEN_GPRSITF_BUF and its kin of uplink/uplink_buffer.c.
abbrev pub buffer_size : ℕ
buffer_size = 1152

-- The buffer begins with the bytes `pre`, which the counters count.
pub record Holds (l : Link) (pre : List ℕ) : Type 0 where
  pub room : length l.rcvbuf ≡ buffer_size
  pub offset : l.fsm.pbuf ≡ length pre
  pub count : l.fsm.cnt ≡ length pre
  pub bytes : take (length pre) l.rcvbuf ≡ pre

-- The length of the frame without its tail, as the receiver takes it from the length field.
abbrev pub body_len : List ℕ → ℕ
body_len pre = u16 (data_len pre + 10 + 2)

-- The bytes that each state of the machine stands for.
pub data Stage (pre : List ℕ) (stat maxlen : ℕ) : Type 0 where
  at_head : stat ≡ 0 → pre ≡ [] → Stage pre stat maxlen
  at_addr :
      stat ≡ 1
      → maxlen ≡ 6
      → 0 < length pre
      → length pre < 6
      → get_or pre 0 0 ≡ uplink_head
      → Stage pre stat maxlen
  at_dep :
      stat ≡ 2 → maxlen ≡ 10 → length pre ≡ 6 → get_or pre 0 0 ≡ uplink_head → Stage pre stat maxlen
  at_length :
      stat ≡ 3
      → maxlen ≡ 10
      → 6 < length pre
      → length pre < 10
      → get_or pre 0 0 ≡ uplink_head
      → get_or pre 6 0 ≡ uplink_head
      → Stage pre stat maxlen
  at_data :
      stat ≡ 4
      → maxlen ≡ body_len pre
      → 10 ≤ length pre
      → (length pre ≡ 10) ⊎ (length pre < maxlen)
      → get_or pre 0 0 ≡ uplink_head
      → get_or pre 6 0 ≡ uplink_head
      → Stage pre stat maxlen
  at_tail :
      stat ≡ 5
      → maxlen ≡ body_len pre
      → 10 < length pre
      → (length pre ≡ 11) ⊎ (length pre ≡ maxlen)
      → maxlen ≤ length pre
      → get_or pre 0 0 ≡ uplink_head
      → get_or pre 6 0 ≡ uplink_head
      → Stage pre stat maxlen

pub record IsValid (l : Link) (pre : List ℕ) : Type 0 where
  pub holds : Holds l pre
  pub stage : Stage pre l.fsm.stat l.fsm.maxlen

-- A frame in the buffer that has passed the check.
pub record Accepted (l : Link) (frame : List ℕ) : Type 0 where
  pub room : length l.rcvbuf ≡ buffer_size
  pub reset : l.fsm ≡ reset_fsm
  pub stopped : l.timer.flag ≡ false
  pub bytes : take (length frame) l.rcvbuf ≡ frame
  pub counted : (length frame ≡ 12) ⊎ (length frame ≡ body_len frame + 1)
  pub long : (body_len frame < length frame) × (11 < length frame)
  pub checked : check_stream l.rcvbuf (length frame) ≡ true

-- The end of a frame: all that the length field announced is there.
pub record AtEnd (pre : List ℕ) : Type 0 where
  pub long : 10 < length pre
  pub exact : (length pre ≡ 11) ⊎ (length pre ≡ body_len pre)
  pub enough : body_len pre ≤ length pre

-- Why the bytes held, with one character more, cannot begin a frame.
pub data Unfit (pre : List ℕ) (uc : ℕ) : Type 0 where
  no_head : pre ≡ [] → uc ≢ uplink_head → Unfit pre uc
  no_dep : length pre ≡ 6 → uc ≢ uplink_head → Unfit pre uc
  no_tail : AtEnd pre → uc ≢ uplink_tail → Unfit pre uc
  no_check :
      AtEnd pre
      → (stream : List ℕ) → take (length pre + 1) stream ≡ pre ++ uc ∷ []
      → check_stream stream (length pre + 1) ≡ false
      → Unfit pre uc

-- What a character does to a valid state.
pub data Turn (pre : List ℕ) (uc : ℕ) (o : Outcome) : Type 0 where
  extends : (l : Link) → o ≡ more l → IsValid l (pre ++ uc ∷ []) → Turn pre uc o
  drops : (l : Link) → o ≡ more l → IsValid l [] → Unfit pre uc → Turn pre uc o
  accepts : (l : Link) → o ≡ received l → Accepted l (pre ++ uc ∷ []) → Turn pre uc o
  overruns : o ≡ fault → buffer_size ≤ length pre → Turn pre uc o

-- The state after a write.
abbrev pub pushed : ℕ → Link → Link
pushed uc l = record l {
  fsm = record (l.fsm) { pbuf = l.fsm.pbuf + 1; cnt = u16 (l.fsm.cnt + 1) };
  rcvbuf = set l.rcvbuf l.fsm.pbuf uc;
}

module _ (uc : ℕ) (l : Link) (pre : List ℕ) (h : Holds l pre) where
  pub put_then-some :
      length pre < buffer_size → (k : Link → Outcome) → put_then uc l k ≡ k (pushed uc l)
  unfolding put_then
  put_then-some small k =
      let fits : ltb l.fsm.pbuf (length l.rcvbuf) ≡ true = ground (arith, h.offset, h.room) in
      rw (fits, put_then)

  pub put_then-none : buffer_size ≤ length pre → (k : Link → Outcome) → put_then uc l k ≡ fault
  unfolding put_then
  put_then-none big k =
      let full : ltb l.fsm.pbuf (length l.rcvbuf) ≡ false = ground (arith, h.offset, h.room) in
      rw (full, put_then)

  pub pushed-Holds : length pre < buffer_size → Holds (pushed uc l) (pre ++ uc ∷ [])
  pushed-Holds small =
      let longer : length (pre ++ uc ∷ []) ≡ suc (length pre) =
        omega (arith, length-append pre (uc ∷ [])) in
      record {
        room = length-set l.rcvbuf l.fsm.pbuf uc ∙ h.room;
        offset = omega (arith, longer, h.offset);
        count = omega (arith, longer, h.count);
        bytes =
            rw (longer, h.offset)
              (take-suc-set l.rcvbuf (length pre) uc (rw h.room small)
                ∙ ap (λ (t : List ℕ). t ++ uc ∷ []) h.bytes);
      }

pub length-snoc : (pre : List ℕ) (uc : ℕ) → length (pre ++ uc ∷ []) ≡ length pre + 1
length-snoc pre uc = length-append pre (uc ∷ [])

-- Only the timer and the machine's registers differ.
pub goto-Holds :
    (stat maxlen : ℕ) {l : Link} {pre : List ℕ} → Holds l pre → Holds (goto stat maxlen l) pre
goto-Holds stat maxlen h = record {
  room = h.room;
  offset = h.offset;
  count = h.count;
  bytes = h.bytes;
}

pub clear_state-IsValid : {l : Link} {pre : List ℕ} → Holds l pre → IsValid (clear_state l) []
unfolding clear_state
clear_state-IsValid h = record {
  holds = record { room = h.room; offset = refl; count = refl; bytes = refl };
  stage = at_head refl refl;
}
