-- ===== src/Packet/Proto.antt =====
-- `YF_PROTO_` of include/qof/decode.h: protocols and IPv6 next headers.
use qof.Base.{ℕ}

abbrev pub ip6_hop : ℕ
ip6_hop = 0

abbrev pub icmp : ℕ
icmp = 1

abbrev pub tcp : ℕ
tcp = 6

abbrev pub udp : ℕ
udp = 17

abbrev pub ip6_route : ℕ
ip6_route = 43

abbrev pub ip6_frag : ℕ
ip6_frag = 44

abbrev pub gre : ℕ
gre = 47

abbrev pub icmp6 : ℕ
icmp6 = 58

abbrev pub ip6_nonext : ℕ
ip6_nonext = 59

abbrev pub ip6_dopt : ℕ
ip6_dopt = 60
