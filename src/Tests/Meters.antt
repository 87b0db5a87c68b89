-- ===== src/Tests/Meters.antt =====
-- A power and an energy in their formats, and a frame of the meters' line.
use smart_home_xiugai.Prelude.{ℕ, ◌%◌, ◌<◌, ◌≡◌, refl, [], ◌∷◌, ◌++◌, true, replicate, arith}
use smart_home_xiugai.Prelude.Int.{negsuc}
use smart_home_xiugai.GbData.{
  signed, sfloat02_to_power, power_to_sfloat02, sbcd03_to_energy, energy_to_sbcd03,
}
use smart_home_xiugai.GbData.RoundTrip.{KeepsLeading, sfloat02-roundtrip, sbcd03-roundtrip}
use smart_home_xiugai.Downlink.{DownLink, idle_fsm, downlink_recv_pkt645}
use smart_home_xiugai.Downlink.Recv.{Took, downlink_recv_pkt645-Took}

sfloat02-roundtrip_example :
    let (b0, b1) = power_to_sfloat02 (negsuc 123455) in
    (v : ℕ) × (sfloat02_to_power b0 b1 ≡ signed true v)
    × KeepsLeading 123456 v
    × (123456 < 99900 → 123456 % 100 ≡ 0 → v ≡ 123456)
sfloat02-roundtrip_example = sfloat02-roundtrip (negsuc 123455) (omega arith)

sbcd03-roundtrip_example : sbcd03_to_energy (energy_to_sbcd03 (negsuc 12345677)) ≡ negsuc 12344999
sbcd03-roundtrip_example = sbcd03-roundtrip (negsuc 12345677) (omega arith)

abbrev waiting : DownLink
waiting = record {
  timer = record { cnt = 4; max = 5; flag = true };
  fsm = idle_fsm;
  rcvbuf = replicate 16 0;
}

downlink_recv_pkt645-Took_example :
    Took
      (1 ∷ 3 ∷ 0xF0 ∷ 7 ∷ 8 ∷ 9 ∷ 10 ∷ 11 ∷ [])
      (5 ∷ 6 ∷ [])
      (downlink_recv_pkt645 20 ((1 ∷ 3 ∷ 0xF0 ∷ 7 ∷ 8 ∷ 9 ∷ 10 ∷ 11 ∷ []) ++ (5 ∷ 6 ∷ [])) waiting)
downlink_recv_pkt645-Took_example =
    downlink_recv_pkt645-Took 20 (1 ∷ 3 ∷ 0xF0 ∷ 7 ∷ 8 ∷ 9 ∷ 10 ∷ 11 ∷ []) (5 ∷ 6 ∷ []) waiting refl
      (omega arith) refl
