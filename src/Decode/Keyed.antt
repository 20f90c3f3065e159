-- ===== src/Decode/Keyed.antt =====
-- Every packet that `yfDecodeToPBuf` of src/decode.c decodes has a proper flow key.
use qof.Packet.Ether
use qof.Packet.Proto
use qof.Base.{Bool, List, Option, false, not, refl, suc, true, zero, ℕ, ◌&&◌, ◌==◌, ◌||◌, ◌≡◌}
use qof.Base.Word.{nonzero}
use qof.Packet.{IpFragInfo, PBuf}
use qof.Flow.Key.Contract.{IsKey}
use qof.Decode.Run.{Config, Decoding, Run, Stats, fault, null, ok, out_of_fuel}
use qof.Decode.Link.{LinkType, decode_l2}
use qof.Decode.Tunnel.{
  decode_gre, decode_ip, decode_l3, decode_l4, decode_layers, decode_to_pbuf, gre_header,
  later_fragment, start, write_pbuf, written,
}
use qof.Decode.Keys.{
  Gives, Gives-bind, Gives-if, Gives-read, HasKey, decode_icmp-HasKey, decode_ipv4-HasKey,
  decode_ipv6-HasKey, decode_tcp-HasKey, decode_udp-HasKey,
}

module _ (mem : List ℕ) where
  decode_l3-HasKey : (fuel type : ℕ) (s : Decoding) → Gives HasKey (decode_l3 mem fuel type s)
  unfolding decode_l3
  decode_l3-HasKey fuel type s =
      Gives-if HasKey (type == Ether.ipv4) _ _ (decode_ipv4-HasKey mem s) (
        Gives-if HasKey (type == Ether.ipv6) _ _ (decode_ipv6-HasKey mem fuel s)
          (Gives-if HasKey (type == Ether.arp) _ _ tt tt))

  decode_l4-HasKey :
      (config : Config) (gre : Decoding → Run Decoding) (fuel : ℕ) (s : Decoding)
      → HasKey s
      → Gives HasKey (gre s)
      → Gives HasKey (decode_l4 mem config gre fuel s)
  unfolding decode_l4
  decode_l4-HasKey config gre fuel s h g =
      Gives-if HasKey (s.key.proto == Proto.tcp) _ _ (decode_tcp-HasKey mem config fuel s h) (
        Gives-if HasKey (s.key.proto == Proto.udp) _ _ (decode_udp-HasKey mem s h) (
          Gives-if HasKey ((s.key.proto == Proto.icmp) || (s.key.proto == Proto.icmp6)) _ _
            (decode_icmp-HasKey mem s h)
            (Gives-if HasKey (s.key.proto == Proto.gre) _ _
              (Gives-if HasKey (config.gremode) _ _ g h) h)))

  decode_ip-HasKey :
      (config : Config) (fuel depth type : ℕ) (s : Decoding)
      → Gives HasKey (decode_ip mem config fuel depth type s)
  unfolding decode_ip decode_gre
  decode_ip-HasKey config fuel zero type s = tt
  decode_ip-HasKey config fuel (suc depth) type s =
      Gives-if HasKey (nonzero config.reqtype && not (config.reqtype == type)) _ _ tt (
        Gives-bind HasKey HasKey (decode_l3 mem fuel type s) _ (decode_l3-HasKey fuel type s)
          (λ s1 h. Gives-if HasKey (later_fragment mem s1) _ _ h (
            decode_l4-HasKey config _ fuel s1 h (
              Gives-read HasKey (gre_header mem fuel s1) _
                (λ (s2, type'). decode_ip-HasKey config fuel depth type' s2)))))

  decode_layers-HasKey :
      (config : Config) (link : LinkType) (fuel : ℕ) (s : Decoding)
      → Gives HasKey (decode_layers mem config link fuel s)
  unfolding decode_layers
  decode_layers-HasKey config link fuel s =
      Gives-read HasKey (decode_l2 mem link fuel s) _ (λ s1. decode_ip-HasKey config fuel fuel _ _)

-- A packet buffer that is marked invalid by time zero, or has a key of version 4 or 6 with addresses of
-- that version.
abbrev pub IsPacket : PBuf → Type 0
IsPacket pbuf = nonzero pbuf.ptime ≡ true → IsKey pbuf.key

-- What `yfDecodeToPBuf` leaves of a packet.
abbrev pub Decoded : (ptime : ℕ) → Bool × Decoding × PBuf → Type 0
Decoded ptime (true, s, pbuf) = (pbuf.ptime ≡ ptime) × IsKey pbuf.key
Decoded ptime (false, s, pbuf) = pbuf.ptime ≡ 0

outcome-Decoded :
    (ptime all_header_len : ℕ) (r : Run Decoding)
    → Gives HasKey r
    → Gives (Decoded ptime) (written ptime all_header_len r)
unfolding written write_pbuf
outcome-Decoded ptime all_header_len fault h = tt
outcome-Decoded ptime all_header_len out_of_fuel h = tt
outcome-Decoded ptime all_header_len (null s) h = refl
outcome-Decoded ptime all_header_len (ok s) h = (refl, h)

-- Whatever the captured bytes, their link type and the decoder's configuration, and whatever stood in
-- the packet buffer: if the decoder returns, a decoded packet has its time and a key of version 4 or 6
-- with addresses of that version, through any nesting of shims, extension headers and GRE; one that is
-- not decoded is marked invalid by time zero.
pub decode_to_pbuf-Decoded :
    (mem : List ℕ) (config : Config) (link : LinkType) (ptime caplen fuel : ℕ) (stats : Stats)
    (pbuf : PBuf) (frag : Option IpFragInfo)
    → Gives (Decoded ptime) (decode_to_pbuf mem config link ptime caplen fuel stats pbuf frag)
unfolding decode_to_pbuf
decode_to_pbuf-Decoded mem config link ptime caplen fuel stats pbuf frag =
    outcome-Decoded ptime pbuf.all_header_len _
      (decode_layers-HasKey mem config link fuel (start caplen stats pbuf frag))
