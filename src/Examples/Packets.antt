-- ===== src/Examples/Packets.antt =====
-- The decoder on two packets.
use qof.Base.{List, [], arith, false, none, refl, true, ℕ, ◌∷◌, ◌≡◌}
use qof.Packet.{no_l2_info, no_tcp_info}
use qof.Decode.Run.{Config, Decoding, Run, Stats, byte, bytes, ok, word16, word32, ◌>>=◌}
use qof.Decode.Safe.{IsSafe}
use qof.Decode.Link.{
  decode_eth, decode_l2, decode_l2_ppp, decode_l2_shim, decode_link, eth, ip_version_to_type,
  shim_mpls, shim_pppoe, shim_vlan,
}
use qof.Decode.Link.Inside.{Taken}
use qof.Decode.Link.Whole.{decode_l2-Inside}
use qof.Decode.Transport.{
  decode_icmp, decode_tcp, decode_udp, tcp_body, tcp_header, tcp_option, tcp_options,
}
use qof.Decode.Transport.Whole.{decode_tcp-Inside, decode_udp-Inside}
use qof.Examples.Values.{key_a}

abbrev pub zero_stats : Stats
zero_stats = record {
  fail_l2hdr = 0;
  fail_l2shim = 0;
  fail_l2loop = 0;
  fail_l3type = 0;
  fail_arptype = 0;
  fail_ip4hdr = 0;
  fail_ip4frag = 0;
  fail_ip6hdr = 0;
  fail_ip6ext = 0;
  fail_ip6frag = 0;
  fail_l4hdr = 0;
  fail_l4frag = 0;
  fail_grevers = 0;
}

abbrev dec : ℕ → Decoding
dec n = record {
  stats = zero_stats;
  caplen = n;
  pkt = 0;
  type = 0;
  l2info = no_l2_info;
  key = key_a;
  iplen = 0;
  ipinfo = record { ttl = 64; ecn = 0 };
  tcpinfo = no_tcp_info;
  frag = none;
}

-- Ethernet with a VLAN tag and the first byte of an IPv4 header.
abbrev vlan_frame : List ℕ
vlan_frame = 1 ∷ 2 ∷ 3 ∷ 4 ∷ 5 ∷ 6 ∷ 7 ∷ 8 ∷ 9 ∷ 10 ∷ 11 ∷ 12 ∷ 0x81 ∷ 0 ∷ 0 ∷ 5 ∷ 8 ∷ 0 ∷ 0x45 ∷ []

-- A TCP header with a timestamp option after two NOPs, and a byte of payload.
abbrev tcp_segment : List ℕ
tcp_segment =
    4 ∷ 0 ∷ 0 ∷ 80 ∷ 0 ∷ 0 ∷ 0 ∷ 1 ∷ 0 ∷ 0 ∷ 0 ∷ 2 ∷ 0x80 ∷ 0x10 ∷ 1 ∷ 0 ∷ 0 ∷ 0 ∷ 0 ∷ 0 ∷ 1 ∷ 1 ∷ 8
    ∷ 10 ∷ 0 ∷ 0 ∷ 0 ∷ 7 ∷ 0 ∷ 0 ∷ 0 ∷ 9 ∷ 99 ∷ []

decode_l2-Inside_example : IsSafe (Taken 0 19 19) (decode_l2 vlan_frame eth 20 (dec 19))
decode_l2-Inside_example =
    decode_l2-Inside vlan_frame eth 20 (dec 19) (omega arith) (omega arith) (omega arith)

abbrev tcp_config : Config
tcp_config = record { reqtype = 0; gremode = false; tomode = true }

decode_tcp-Inside_example : IsSafe (Taken 0 32 32) (decode_tcp tcp_segment tcp_config 33 (dec 32))
decode_tcp-Inside_example =
    decode_tcp-Inside tcp_segment tcp_config 33 (dec 32) (omega arith) (omega arith) (omega arith)

-- The VLAN tag and the timestamps that the two runs decode, and where they end.
abbrev tag_seen : Decoding → Run (ℕ × ℕ)
tag_seen s = ok (s.pkt, s.l2info.vlan_tag)

abbrev stamps_seen : Decoding → Run (ℕ × ℕ × ℕ)
stamps_seen s = ok (s.pkt, s.tcpinfo.tsval, s.tcpinfo.tsecr)

run_vlan : (decode_l2 vlan_frame eth 20 (dec 19) >>= tag_seen) ≡ ok (18, 5)
unfolding decode_l2 decode_link decode_eth decode_l2_shim shim_vlan shim_mpls shim_pppoe
    decode_l2_ppp ip_version_to_type word16 word32 byte bytes
run_vlan = refl

run_tcp : (decode_tcp tcp_segment tcp_config 33 (dec 32) >>= stamps_seen) ≡ ok (32, 7, 9)
unfolding decode_tcp tcp_header tcp_body tcp_options tcp_option word16 word32 byte
run_tcp = refl

decode_udp-Inside_example :
    IsSafe (Taken 0 8 8) (decode_udp (0 ∷ 53 ∷ 0 ∷ 54 ∷ 0 ∷ 8 ∷ 0 ∷ 0 ∷ []) (dec 8))
    × IsSafe (Taken 0 8 8) (decode_icmp (0 ∷ 53 ∷ 0 ∷ 54 ∷ 0 ∷ 8 ∷ 0 ∷ 0 ∷ []) (dec 8))
decode_udp-Inside_example =
    decode_udp-Inside (0 ∷ 53 ∷ 0 ∷ 54 ∷ 0 ∷ 8 ∷ 0 ∷ 0 ∷ []) (dec 8)
      (record { captured = omega arith; counted = omega arith })
