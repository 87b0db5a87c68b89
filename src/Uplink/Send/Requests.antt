-- ===== src/Uplink/Send/Requests.antt =====
-- What the return values of the logon and logout requests say.
use smart_home_xiugai.Prelude.{
  ℕ, ◌%◌, ◌≡◌, List, get_or, set, length, arith, true, false, ◌≢◌, get_or-set_self, get_or-set_ne,
  ◌∙◌, length-set, ◌<◌, inl, inr,
}
use mathlib.Core.Path.{subst⁻¹}
use smart_home_xiugai.Uplink.Recv.{Link}
use smart_home_xiugai.Uplink.Recv.Invariant.{IsValid, Accepted}
use smart_home_xiugai.Uplink.Send.{
  Line, Reply, reply, uplink_send_wait, uplink_active_send, uplink_logon, uplink_logon_out,
  logon_pkt, request, is_echo_pkt, fails,
}
use smart_home_xiugai.Uplink.Send.Echo.{is_echo_pkt_iff}
use smart_home_xiugai.Uplink.Send.Ends.{
  SendEnd, echoed, other, refused, expired, overwritten, uplink_send_wait-SendEnd,
}

request-cmd :
    (cmd len : ℕ) (sndbuf : List ℕ) → 9 < length sndbuf → get_or (request cmd len sndbuf) 7 0 ≡ cmd
unfolding request
request-cmd cmd len sndbuf room = behind _ _ _ cmd (rw (length-set, length-set, length-set) room)
  where
    behind :
        (xs : List ℕ) (a b cmd : ℕ)
        → 9 < length xs
        → get_or (set (set (set xs 7 cmd) 8 a) 9 b) 7 0 ≡ cmd
    behind xs a b cmd room =
        get_or-set_ne (set (set xs 7 cmd) 8 a) 9 7 b 0 (omega arith)
        ∙ get_or-set_ne (set xs 7 cmd) 8 7 a 0 (omega arith)
        ∙ get_or-set_self xs 7 cmd 0 (omega arith)

-- What a return value of 0 takes.
fails-zero :
    (cmd n : ℕ) (r : Reply) (l : Link) (sent : List (List ℕ))
    → SendEnd cmd n r
    → fails r ≡ reply 0 l sent
    → (frame : List ℕ) × Accepted l frame × (is_echo_pkt (get_or l.rcvbuf 7 0) cmd ≡ true)
fails-zero cmd n r l sent (echoed l' sent' frame e a echo few) h =
    let same : l ≡ l' = cc (rw e at h) in
    (frame, subst⁻¹ (λ t. Accepted t frame) same a, rw same echo)
fails-zero cmd n r l sent (other l' sent' frame e a foreign few) h = cc (rw e at h)
fails-zero cmd n r l sent (refused l' sent' e few) h = cc (rw e at h)
fails-zero cmd n r l sent (expired l' sent' held e v all) h = cc (rw e at h)
fails-zero cmd n r l sent (overwritten e) h = cc (rw e at h)

wait-zero :
    (line : Line) (pkt held : List ℕ) (cmd : ℕ) (l l' : Link) (sent : List (List ℕ))
    → IsValid l held
    → get_or pkt 7 0 ≡ cmd
    → fails (uplink_active_send line true pkt l) ≡ reply 0 l' sent
    → (frame : List ℕ) × Accepted l' frame × (is_echo_pkt (get_or l'.rcvbuf 7 0) cmd ≡ true)
unfolding uplink_active_send
wait-zero line pkt held cmd l l' sent v e h =
    let ends : SendEnd cmd (line.snd_retry % 256) (uplink_send_wait line pkt l) =
      rw e at (uplink_send_wait-SendEnd line pkt held l v) in
    fails-zero cmd (line.snd_retry % 256) (uplink_send_wait line pkt l) l' sent ends h

logon_pkt-cmd :
    (com_pwd sndbuf : List ℕ) → 13 < length sndbuf → get_or (logon_pkt com_pwd sndbuf) 7 0 ≡ 0xa1
unfolding logon_pkt
logon_pkt-cmd com_pwd sndbuf room =
    request-cmd 0xa1 4 _ (rw (length-set, length-set, length-set, length-set) (omega arith))

echo_of_logon : (cmd : ℕ) → is_echo_pkt cmd 0xa1 ≡ true → cmd ≡ 0x21
echo_of_logon cmd e = elim ((is_echo_pkt_iff cmd 0xa1).0.0 e) [
  | inl (a, b) ↦ b
  | inr (a, b) ↦ absurd (omega arith)
]

-- `UplinkLogon` on a valid receiver, from a buffer with room, returns 0 only with a frame in the
-- receive buffer that passed the check and carries the logon echo 0x21.
pub uplink_logon-ok :
    (line : Line) (com_pwd sndbuf held : List ℕ) (l l' : Link) (sent : List (List ℕ))
    → IsValid l held
    → 13 < length sndbuf
    → uplink_logon line com_pwd sndbuf l ≡ reply 0 l' sent
    → (frame : List ℕ) × Accepted l' frame × (get_or l'.rcvbuf 7 0 ≡ 0x21)
unfolding uplink_logon
uplink_logon-ok line com_pwd sndbuf held l l' sent v room e =
    let (frame, a, echo) =
      wait-zero line (logon_pkt com_pwd sndbuf) held 0xa1 l l' sent v
        (logon_pkt-cmd com_pwd sndbuf room) e in
    (frame, a, echo_of_logon (get_or l'.rcvbuf 7 0) echo)

-- `UplinkLogonOut` on a valid receiver, from a buffer with room, never returns 0, whatever the server
-- answers.
pub uplink_logon_out-fails :
    (line : Line) (sndbuf held : List ℕ) (l l' : Link) (sent : List (List ℕ))
    → IsValid l held
    → 13 < length sndbuf
    → uplink_logon_out line sndbuf l ≢ reply 0 l' sent
unfolding uplink_logon_out
uplink_logon_out-fails line sndbuf held l l' sent v room e =
    let (frame, a, echo) =
      wait-zero line (request 0xa2 0 sndbuf) held 0xa2 l l' sent v
        (request-cmd 0xa2 0 sndbuf (omega arith)) e in
    let never : is_echo_pkt (get_or l'.rcvbuf 7 0) 0xa2 ≡ false =
      (is_echo_pkt_iff (get_or l'.rcvbuf 7 0) 0xa2).1 in
    cc
