-- ===== src/Uplink/Send/Echo.antt =====
-- Which answers count as the echo of a request.
use smart_home_xiugai.Prelude.{ℕ, ◌%◌, ◌≡◌, ◌↔◌, ◌⊎◌, true, false, arith}
use smart_home_xiugai.Uplink.Send.{is_echo_pkt}

-- `IsEchoPkt` takes an answer as the echo exactly for a logon request answered by a logon echo, and
-- for a heartbeat request answered by a heartbeat echo, commands compared without their top two bits.
-- No answer is the echo of a logout request.
pub is_echo_pkt_iff :
    (cmd sndcmd : ℕ)
    → ((is_echo_pkt cmd sndcmd ≡ true)
        ↔ (((sndcmd % 64 ≡ 0x21) × (cmd ≡ 0x21)) ⊎ ((sndcmd % 64 ≡ 0x24) × (cmd ≡ 0x24))))
      × (is_echo_pkt cmd 0xa2 ≡ false)
unfolding is_echo_pkt
is_echo_pkt_iff cmd sndcmd = (ground arith, ground arith)
