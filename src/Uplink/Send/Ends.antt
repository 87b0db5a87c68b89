-- ===== src/Uplink/Send/Ends.antt =====
-- How a request with an awaited answer ends.
use smart_home_xiugai.Prelude.{
  ℕ, zero, suc, ◌+◌, ◌*◌, ◌%◌, ◌≤◌, ◌≡◌, refl, List, [], ◌∷◌, ◌++◌, get_or, set, get_or-set_ne,
  length, length-append, arith, true, false, Bool-cases, inl, inr, ◌∙◌,
}
use mathlib.Core.Path.{subst}
use smart_home_xiugai.Uplink.Frame.{make_packet, set_addr}
use smart_home_xiugai.Uplink.Recv.{Link, got, idle, overrun, uplink_recv_pkt}
use smart_home_xiugai.Uplink.Recv.Invariant.{IsValid, Accepted}
use smart_home_xiugai.Uplink.Recv.Sound.{Ended, delivered, waiting, uplink_recv_pkt-Ended}
use smart_home_xiugai.Uplink.Send.{
  Line, Wait, quiet, answered, wait_reply, Reply, reply, crashed, uprtn_ok, uprtn_fail, uprtn_okrcv,
  uprtn_timeout, send_tries, uplink_send_wait, is_echo_pkt, get_timeout, uplink_send_pkt_g,
}

-- The ends of the inner loop.
data Waited (w : Wait) : Type 0 where
  still : (l : Link) (held : List ℕ) → w ≡ quiet l → IsValid l held → Waited w
  came : (l : Link) (frame : List ℕ) → w ≡ answered l → Accepted l frame → Waited w
  broke : w ≡ Wait.broken → Waited w

module _ (timeout : ℕ) (chars : ℕ → List ℕ) (times j : ℕ) (l l' : Link) where
  wait_reply-idle :
      uplink_recv_pkt timeout (chars j) l ≡ idle l'
      → wait_reply timeout chars (suc times) j l ≡ wait_reply timeout chars times (suc j) l'
  unfolding wait_reply
  wait_reply-idle e = rw (e, wait_reply) refl

  wait_reply-got :
      (rest : List ℕ)
      → uplink_recv_pkt timeout (chars j) l ≡ got l' rest
      → wait_reply timeout chars (suc times) j l ≡ answered l'
  unfolding wait_reply
  wait_reply-got rest e = rw (e, wait_reply) refl

wait_reply-overrun :
    (timeout : ℕ) (chars : ℕ → List ℕ) (times j : ℕ) (l : Link)
    → uplink_recv_pkt timeout (chars j) l ≡ overrun
    → wait_reply timeout chars (suc times) j l ≡ Wait.broken
unfolding wait_reply
wait_reply-overrun timeout chars times j l e = rw (e, wait_reply) refl

wait_reply-nil :
    (timeout : ℕ) (chars : ℕ → List ℕ) (j : ℕ) (l : Link) → wait_reply timeout chars 0 j l ≡ quiet l
unfolding wait_reply
wait_reply-nil timeout chars j l = refl

wait_reply-Waited :
    (timeout : ℕ) (chars : ℕ → List ℕ) (times j : ℕ) (l : Link) (held : List ℕ)
    → IsValid l held
    → Waited (wait_reply timeout chars times j l)
wait_reply-Waited timeout chars zero j l held v = still l held (wait_reply-nil timeout chars j l) v
wait_reply-Waited timeout chars (suc times) j l held v =
    elim (uplink_recv_pkt-Ended timeout (chars j) l held v) [
      | delivered l' rest e d ↦
          came l' d.frame (wait_reply-got timeout chars times j l l' rest e) d.accepted
      | waiting l' skip held' e v' cut ↦
          rw (wait_reply-idle timeout chars times j l l' e)
            (wait_reply-Waited timeout chars times (suc j) l' held' v')
      | Ended.broken e o ↦ broke (wait_reply-overrun timeout chars times j l e)
    ]

-- The ends of a request: with the echo or another frame in the receive buffer, refused, out of time
-- after `n` sends, or with a write behind the receive buffer.
pub data SendEnd (cmd n : ℕ) (r : Reply) : Type 0 where
  echoed :
      (l : Link) (sent : List (List ℕ)) (frame : List ℕ)
      → r ≡ reply uprtn_ok l sent
      → Accepted l frame
      → is_echo_pkt (get_or l.rcvbuf 7 0) cmd ≡ true
      → length sent ≤ n
      → SendEnd cmd n r
  other :
      (l : Link) (sent : List (List ℕ)) (frame : List ℕ)
      → r ≡ reply uprtn_okrcv l sent
      → Accepted l frame
      → is_echo_pkt (get_or l.rcvbuf 7 0) cmd ≡ false
      → length sent ≤ n
      → SendEnd cmd n r
  refused :
      (l : Link) (sent : List (List ℕ))
      → r ≡ reply uprtn_fail l sent
      → length sent ≤ n
      → SendEnd cmd n r
  expired :
      (l : Link) (sent : List (List ℕ)) (held : List ℕ)
      → r ≡ reply uprtn_timeout l sent
      → IsValid l held
      → length sent ≡ n
      → SendEnd cmd n r
  overwritten : r ≡ crashed → SendEnd cmd n r

-- The command of a packet goes out as it is: no write before or behind it changes it.
behind :
    (xs : List ℕ) (n u v w : ℕ)
    → get_or (set (set (set xs (10 + n) u) (10 + n + 1) v) (10 + n + 2) w) 7 0 ≡ get_or xs 7 0
behind xs n u v w =
    get_or-set_ne (set (set xs (10 + n) u) (10 + n + 1) v) (10 + n + 2) 7 w 0 (omega arith)
    ∙ get_or-set_ne (set xs (10 + n) u) (10 + n + 1) 7 v 0 (omega arith)
    ∙ get_or-set_ne xs (10 + n) 7 u 0 (omega arith)

before :
    (xs : List ℕ) (a b c d : ℕ)
    → get_or (set (set (set (set xs 2 a) 3 b) 4 c) 5 d) 7 0 ≡ get_or xs 7 0
before xs a b c d =
    get_or-set_ne (set (set (set xs 2 a) 3 b) 4 c) 5 7 d 0 (omega arith)
    ∙ get_or-set_ne (set (set xs 2 a) 3 b) 4 7 c 0 (omega arith)
    ∙ get_or-set_ne (set xs 2 a) 3 7 b 0 (omega arith)
    ∙ get_or-set_ne xs 2 7 a 0 (omega arith)

set_addr-cmd : (deviceid pkt : List ℕ) → get_or (set_addr deviceid pkt) 7 0 ≡ get_or pkt 7 0
unfolding set_addr
set_addr-cmd deviceid pkt = before pkt _ _ _ _

send_pkt-cmd :
    (deviceid pkt : List ℕ) → get_or (uplink_send_pkt_g deviceid pkt).0 7 0 ≡ get_or pkt 7 0
unfolding uplink_send_pkt_g make_packet
send_pkt-cmd deviceid pkt = behind (set_addr deviceid pkt) _ _ _ _ ∙ set_addr-cmd deviceid pkt

module _ (line : Line) (times : ℕ) where
  send_tries-SendEnd :
      (retry i : ℕ) (psnd held : List ℕ) (sent : List (List ℕ)) (l : Link)
      → IsValid l held
      → SendEnd (get_or psnd 7 0) (length sent + retry) (send_tries line times retry i psnd sent l)
  unfolding send_tries
  send_tries-SendEnd zero i psnd held sent l v = expired l sent held refl v (omega arith)
  send_tries-SendEnd (suc retry) i psnd held sent l v =
      let frame : List ℕ = (uplink_send_pkt_g line.deviceid psnd).0 in
      let bytes : List ℕ = (uplink_send_pkt_g line.deviceid psnd).1 in
      let longer : length (sent ++ bytes ∷ []) ≡ length sent + 1 =
        length-append sent (bytes ∷ []) in
      let same : get_or frame 7 0 ≡ get_or psnd 7 0 = send_pkt-cmd line.deviceid psnd in
      elim (Bool-cases (line.linestat i)) [
        | inr down ↦ refused l sent (rw down refl) (omega arith)
        | inl up ↦ elim (Bool-cases (line.refuses i bytes)) [
          | inl denied ↦
              refused l (sent ++ bytes ∷ []) (rw (up, denied) refl) (omega (arith, longer))
          | inr taken ↦ elim (wait_reply-Waited line.timeout (line.chars i) times 0 l held v) [
            | still l' held' e v' ↦
                let again : Reply =
                  send_tries line times retry (suc i) frame (sent ++ bytes ∷ []) l' in
                let ends : SendEnd (get_or frame 7 0) (length (sent ++ bytes ∷ []) + retry) again =
                  send_tries-SendEnd retry (suc i) frame held' (sent ++ bytes ∷ []) l' v' in
                let counted : length (sent ++ bytes ∷ []) + retry ≡ length sent + suc retry =
                  omega (arith, longer) in
                rw (up, taken, e)
                  (subst (λ c. SendEnd c (length sent + suc retry) again) same
                    (subst (λ n. SendEnd (get_or frame 7 0) n again) counted ends))
            | came l' frame' e a ↦
                elim (Bool-cases (is_echo_pkt (get_or l'.rcvbuf 7 0) (get_or frame 7 0))) [
                  | inl echo ↦
                      echoed l' (sent ++ bytes ∷ []) frame' (rw (up, taken, e, echo) refl) a
                        (rw same at echo) (omega (arith, longer))
                  | inr foreign ↦
                      other l' (sent ++ bytes ∷ []) frame' (rw (up, taken, e, foreign) refl) a
                        (rw same at foreign) (omega (arith, longer))
                ]
            | broke e ↦ overwritten (rw (up, taken, e) refl)
          ]
        ]
      ]

-- A request on a valid receiver ends in one of five ways, for any line. `UplinkSendWait` returns
-- UPRTN_OK or UPRTN_OKRCV with a frame in the receive buffer that passed the check and is, or is not,
-- the echo of the request; UPRTN_FAIL; UPRTN_TIMEOUT, with as many sends as the retry count and a
-- valid receiver; or it has written behind the receive buffer. No end but
-- the last, for which the sends are not given, has more sends than that count.
pub uplink_send_wait-SendEnd :
    (line : Line) (psnd held : List ℕ) (l : Link)
    → IsValid l held
    → SendEnd (get_or psnd 7 0) (line.snd_retry % 256) (uplink_send_wait line psnd l)
unfolding uplink_send_wait get_timeout
uplink_send_wait-SendEnd line psnd held l v =
    let retry : ℕ = line.snd_retry % 256 in
    let r : Reply = send_tries line (line.snd_timeout * 10) retry 0 psnd [] l in
    let none_sent : 0 + retry ≡ retry = omega arith in
    subst (λ n. SendEnd (get_or psnd 7 0) n r) none_sent
      (send_tries-SendEnd line (line.snd_timeout * 10) retry 0 psnd held [] l v)
