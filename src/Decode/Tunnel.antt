-- ===== src/Decode/Tunnel.antt =====
-- `yfDecodeGRE`, `yfDecodeIP` and `yfDecodeToPBuf` of src/decode.c, which put the layers together, and
-- the functions on the decode context and on time.
use qof.Packet.Ether
use qof.Packet.Proto
use qof.Base.{
  Bool, List, Option, false, if◌then◌else◌, ltb, none, not, some, suc, true, zero, ℕ, ◌%◌, ◌&&◌,
  ◌*◌, ◌+◌, ◌/◌, ◌==◌, ◌^◌, ◌||◌,
}
use qof.Base.Word.{add32, add64, nonzero, sub64, to_u16, to_u32, to_u64}
use qof.Packet.{IpFragInfo, PBuf}
use qof.Decode.Run.{
  Config, Decoding, Run, Stats, advance, byte, fault, null, ok, out_of_fuel, word16, ◌>>=◌,
}
use qof.Decode.Link.{LinkType, decode_l2}
use qof.Decode.Network.{decode_ipv4, decode_ipv6}
use qof.Decode.Transport.{decode_icmp, decode_tcp, decode_udp, fail_l4}

abbrev pub fail_l3type : Decoding → Decoding
fail_l3type s = record s { stats = record (s.stats) { fail_l3type = add32 s.stats.fail_l3type 1 } }

abbrev pub fail_arptype : Decoding → Decoding
fail_arptype s = record s {
  stats = record (s.stats) { fail_arptype = add32 s.stats.fail_arptype 1 };
}

abbrev pub fail_grevers : Decoding → Decoding
fail_grevers s = record s {
  stats = record (s.stats) { fail_grevers = add32 s.stats.fail_grevers 1 };
}

-- The length of a GRE header whose first byte is `flags`.
unfoldable pub greh_len : ℕ → ℕ
greh_len flags =
    let sum_or_route = nonzero (flags / 2 ^ 7 % 2) || nonzero (flags / 2 ^ 6 % 2) in
    4
    + (if sum_or_route then 4 else 0)
    + (if nonzero (flags / 2 ^ 5 % 2) then 4 else 0)
    + (if nonzero (flags / 2 ^ 4 % 2) then 4 else 0)

module _ (mem : List ℕ) where
  -- "Parse any SREs if present": each round but the last skips an entry.
  unfoldable pub gre_sre : ℕ → Decoding → Run Decoding
  gre_sre zero s = out_of_fuel
  gre_sre (suc fuel) s = if ltb s.caplen 4 then null (fail_l4 s) else do
    len ← byte mem (s.pkt + 3)
    af ← word16 mem s.pkt
    let next = gre_sre fuel (advance (4 + len) s)
    if (len == 0) && (af == 0)
        then ok (advance 4 s)
        else if ltb s.caplen (4 + len)
        then null (fail_l4 s)
        else next

  -- The GRE header, to the state behind it and the type of what follows.
  unfoldable pub gre_header : ℕ → Decoding → Run (Decoding × ℕ)
  gre_header fuel s = if ltb s.caplen 4 then null (fail_l4 s) else do
    fv ← byte mem (s.pkt + 1)
    if nonzero (fv % 8) then null (fail_grevers s) else do
      flags ← byte mem s.pkt
      if ltb s.caplen (greh_len flags) then null (fail_l4 s) else do
        let behind = advance (greh_len flags) s
        s1 ← if nonzero (flags / 2 ^ 6 % 2) then gre_sre fuel behind else ok behind
        type' ← word16 mem (s.pkt + 2)
        ok (s1, type')

  -- `yfDecodeGRE`, given `yfDecodeIP`.
  unfoldable pub decode_gre : (ℕ → Decoding → Run Decoding) → ℕ → Decoding → Run Decoding
  decode_gre decode_ip' fuel s = do (s1, type') ← gre_header fuel s; decode_ip' type' s1

  -- "Unwrap and decode layer 4 headers", given what to do with GRE.
  unfoldable pub decode_l4 : Config → (Decoding → Run Decoding) → ℕ → Decoding → Run Decoding
  decode_l4 config gre fuel s =
      let no_ports = record s { key = record (s.key) { sp = 0; dp = 0 } } in
      if s.key.proto == Proto.tcp
      then decode_tcp mem config fuel s
      else if s.key.proto == Proto.udp
      then decode_udp mem s
      else if (s.key.proto == Proto.icmp) || (s.key.proto == Proto.icmp6)
      then decode_icmp mem s
      else if s.key.proto == Proto.gre
      then (if config.gremode then gre s else ok no_ports)
      else ok no_ports

  -- "Unwrap and decode IP headers"
  unfoldable pub decode_l3 : (fuel type : ℕ) → Decoding → Run Decoding
  decode_l3 fuel type s =
      if type == Ether.ipv4
      then decode_ipv4 mem s
      else if type == Ether.ipv6
      then decode_ipv6 mem fuel s
      else if type == Ether.arp
      then null (fail_arptype s)
      else null (fail_l3type s)

  -- "Skip layer 4 decode unless we're the first fragment"
  abbrev pub later_fragment : Decoding → Bool
  later_fragment s = elim (s.frag) [ none ↦ false | some f ↦ nonzero f.frag && nonzero f.offset ]

  -- `depth` bounds how deep GRE nests.
  unfoldable pub decode_ip : Config → (fuel depth type : ℕ) → Decoding → Run Decoding
  decode_ip config fuel zero type s = out_of_fuel
  decode_ip config fuel (suc depth) type s =
      if nonzero config.reqtype && not (config.reqtype == type) then null (fail_l3type s) else do
        s1 ← decode_l3 fuel type s
        let l4 = decode_l4 config (decode_gre (decode_ip config fuel depth) fuel) fuel s1
        if later_fragment s1 then ok s1 else l4

-- The state that `yfDecodeToPBuf` hands to the layers.
unfoldable pub start : (caplen : ℕ) → Stats → PBuf → Option IpFragInfo → Decoding
start caplen stats pbuf frag = record {
  stats = stats;
  caplen = caplen;
  pkt = 0;
  type = 0;
  l2info = pbuf.l2info;
  key = pbuf.key;
  iplen = pbuf.iplen;
  ipinfo = pbuf.ipinfo;
  tcpinfo = pbuf.tcpinfo;
  frag = frag;
}

-- The layers one after the other; `start` has the captured bytes from offset 0.
unfoldable pub decode_layers : List ℕ → Config → LinkType → (fuel : ℕ) → Decoding → Run Decoding
decode_layers mem config link fuel s = do
  s1 ← decode_l2 mem link fuel s
  let s2 = record s1 {
    l2info = record (s1.l2info) { l2hlen = to_u16 (sub64 s.caplen s1.caplen) };
    key = record (s1.key) { vlan_id = s1.l2info.vlan_tag };
  }
  decode_ip mem config fuel fuel s2.type s2

-- The packet buffer with what the decoder has written, valid if `ptime` is not 0.
unfoldable pub write_pbuf : Decoding → (ptime all_header_len : ℕ) → PBuf
write_pbuf s ptime all_header_len = record {
  ptime = ptime;
  key = s.key;
  all_header_len = all_header_len;
  iplen = s.iplen;
  ipinfo = s.ipinfo;
  tcpinfo = s.tcpinfo;
  l2info = s.l2info;
}

-- The packet buffer after the layers, and whether the packet was decoded.
unfoldable pub written : (ptime all_header_len : ℕ) → Run Decoding → Run (Bool × Decoding × PBuf)
written ptime all_header_len fault = fault
written ptime all_header_len out_of_fuel = out_of_fuel
written ptime all_header_len (null s) = ok (false, s, write_pbuf s 0 all_header_len)
written ptime all_header_len (ok s) = ok (true, s, write_pbuf s ptime s.pkt)

-- `yfDecodeToPBuf`: whether the packet was decoded, what the decoder left, and the packet buffer.
unfoldable pub decode_to_pbuf :
    List ℕ
    → Config
    → LinkType
    → (ptime caplen fuel : ℕ) → Stats
    → PBuf
    → Option IpFragInfo
    → Run (Bool × Decoding × PBuf)
decode_to_pbuf mem config link ptime caplen fuel stats pbuf frag =
    written ptime pbuf.all_header_len
      (decode_layers mem config link fuel (start caplen stats pbuf frag))

-- `yfDecodeUndecodedCount`
unfoldable pub undecoded_count : Stats → ℕ
undecoded_count t =
    let snap =
      t.fail_l2hdr + t.fail_l2shim + t.fail_ip4hdr + t.fail_ip6hdr + t.fail_ip6ext + t.fail_l4hdr in
    let sup =
      t.fail_l2loop + t.fail_l3type + t.fail_ip4frag + t.fail_ip6frag + t.fail_grevers
      + t.fail_arptype in
    add32 (to_u32 snap) (to_u32 sup)

-- `yfDecodeTimeval`, for a time from the epoch on.
unfoldable pub decode_timeval : (tv_sec tv_usec : ℕ) → ℕ
decode_timeval tv_sec tv_usec = add64 (to_u64 (tv_sec * 1000)) (tv_usec / 1000)
