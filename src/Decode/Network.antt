-- ===== src/Decode/Network.antt =====
-- Layer 3 of src/decode.c: IPv4, and IPv6 with its extension headers.
pub mod Fragments
use qof.Packet.Proto
use qof.Base.{
  List, bit_and, bit_or, if◌then◌else◌, ltb, none, some, suc, zero, ℕ, ◌%◌, ◌*◌, ◌+◌, ◌/◌, ◌==◌,
  ◌^◌, ◌||◌,
}
use qof.Base.Word.{add32, has_bits, nonzero, to_u16}
use qof.Packet.{IpFragInfo, v4, v6}
use qof.Decode.Run.{
  Decoding, Run, advance, byte, bytes, is_frag, null, ok, on_frag, out_of_fuel, word16, word32,
  ◌>>=◌,
}

abbrev fail_ip4hdr : Decoding → Decoding
fail_ip4hdr s = record s { stats = record (s.stats) { fail_ip4hdr = add32 s.stats.fail_ip4hdr 1 } }

abbrev fail_ip4frag : Decoding → Decoding
fail_ip4frag s = record s {
  stats = record (s.stats) { fail_ip4frag = add32 s.stats.fail_ip4frag 1 };
}

abbrev fail_ip6hdr : Decoding → Decoding
fail_ip6hdr s = record s { stats = record (s.stats) { fail_ip6hdr = add32 s.stats.fail_ip6hdr 1 } }

abbrev fail_ip6ext : Decoding → Decoding
fail_ip6ext s = record s { stats = record (s.stats) { fail_ip6ext = add32 s.stats.fail_ip6ext 1 } }

abbrev fail_ip6frag : Decoding → Decoding
fail_ip6frag s = record s {
  stats = record (s.stats) { fail_ip6frag = add32 s.stats.fail_ip6frag 1 };
}

-- "Cap capture length to datagram length"
abbrev cap_to_iplen : Decoding → Decoding
cap_to_iplen s = if ltb s.iplen s.caplen then record s { caplen = s.iplen } else s

-- `YF_IP4_OFFMASK | YF_IP4_MF`
abbrev ip4_fragmented : ℕ
ip4_fragmented = 0x3fff

-- "Decode fragmentation information", from the word `ip_off` and the identification.
unfoldable pub ip4_frag_info : (ip_off ip_id iph_len : ℕ) → IpFragInfo → IpFragInfo
ip4_frag_info ip_off ip_id iph_len f =
    if has_bits ip_off ip4_fragmented
    then record {
      ipid = ip_id;
      offset = to_u16 (bit_and ip_off 0x1fff * 8);
      iphlen = iph_len;
      l4hlen = 0;
      frag = 1;
      more = if has_bits ip_off 0x2000 then 1 else 0;
    }
    else record f { offset = ip_off; frag = 0 }

-- The writes of the IPv6 fragment header. The flag `more` is `(offset | YF_IP6_MF) ? 1 : 0`.
unfoldable pub ip6_frag_info : (offlg ident : ℕ) → IpFragInfo → IpFragInfo
ip6_frag_info offlg ident f = record f {
  frag = 1;
  ipid = ident;
  more = if nonzero (bit_or offlg 0x0001) then 1 else 0;
  offset = bit_and offlg 0xfff8;
}

module _ (mem : List ℕ) where
  -- The header fields that `yfDecodeIPv4` reads, up to the capping of the capture length.
  unfoldable pub ipv4_header : Decoding → Run Decoding
  ipv4_header s = do
    src ← word32 mem (s.pkt + 12)
    dst ← word32 mem (s.pkt + 16)
    p ← byte mem (s.pkt + 9)
    len ← word16 mem (s.pkt + 2)
    ok (
        cap_to_iplen (record s {
          key = record (s.key) { version = 4; addr = v4 src dst; proto = p };
          iplen = len;
        }))

  unfoldable pub ipv4_fragment : (start iph_len : ℕ) → Decoding → Run Decoding
  ipv4_fragment start iph_len s = do
    ip_off ← word16 mem (start + 6)
    ip_id ← word16 mem (start + 4)
    elim (s.frag) [
      | some f ↦ ok (record s { frag = some (ip4_frag_info ip_off ip_id iph_len f) })
      | none ↦ if has_bits ip_off ip4_fragmented then null (fail_ip4frag s) else ok s
    ]

  unfoldable pub decode_ipv4 : Decoding → Run Decoding
  decode_ipv4 s = if ltb s.caplen 1 then null (fail_ip4hdr s) else do
    b ← byte mem s.pkt
    let iph_len = b % 16 * 4
    if ltb s.caplen iph_len then null (fail_ip4hdr s) else do
      s1 ← ipv4_header s
      s2 ← ipv4_fragment s.pkt iph_len s1
      ttl' ← byte mem (s.pkt + 8)
      tos ← byte mem (s.pkt + 1)
      ok (advance iph_len (record s2 { ipinfo = record { ttl = ttl'; ecn = bit_and tos 0x03 } }))

  -- The fixed header, up to the loop.
  unfoldable pub ipv6_header : Decoding → Run (Decoding × ℕ)
  ipv6_header s = do
    sip ← bytes mem (s.pkt + 8) 16
    dip ← bytes mem (s.pkt + 24) 16
    plen ← word16 mem (s.pkt + 4)
    vcf ← word32 mem s.pkt
    hlim ← byte mem (s.pkt + 7)
    nxt ← byte mem (s.pkt + 6)
    let s1 = cap_to_iplen (record s {
      key = record (s.key) { addr = v6 sip dip; version = 6 };
      iplen = to_u16 (plen + 40);
    })
    ok (
      on_frag (λ f. record f { frag = 0 })
          (record s1 { ipinfo = record { ttl = hlim; ecn = vcf / 2 ^ 20 % 4 } }),
      nxt,
    )

  -- The two kinds of extension header: the state, the next header and the length to skip.
  unfoldable pub ipv6_frag_ext : Decoding → Run (Decoding × ℕ)
  ipv6_frag_ext s = if ltb s.caplen 8 then null (fail_ip6ext s) else do
    nxt ← byte mem s.pkt
    offlg ← word16 mem (s.pkt + 2)
    ident ← word32 mem (s.pkt + 4)
    elim (s.frag) [
      | some f ↦ ok (record s { frag = some (ip6_frag_info offlg ident f) }, nxt)
      | none ↦ if has_bits offlg ip4_fragmented then null (fail_ip6frag s) else ok (s, nxt)
    ]

  unfoldable pub ipv6_skip_ext : Decoding → Run (ℕ × ℕ)
  ipv6_skip_ext s = if ltb s.caplen 2 then null (fail_ip6ext s) else do
    nxt ← byte mem s.pkt
    len ← byte mem (s.pkt + 1)
    if ltb s.caplen (len * 8 + 8) then null (fail_ip6ext s) else ok (nxt, len * 8 + 8)

  -- "We're at layer 4 now."
  abbrev ipv6_done : (iph_len hdr_next : ℕ) → Decoding → Decoding
  ipv6_done iph_len hdr_next s =
      let s' = record s { key = record (s.key) { proto = hdr_next } } in
      if is_frag s' then on_frag (λ f. record f { iphlen = iph_len; l4hlen = 0 }) s' else s'

  -- `while (1)`: each round skips `hdr_len` bytes and reads the next header.
  unfoldable pub ipv6_loop : ℕ → (iph_len hdr_len hdr_next : ℕ) → Decoding → Run Decoding
  ipv6_loop zero iph_len hdr_len hdr_next s = out_of_fuel
  ipv6_loop (suc fuel) iph_len hdr_len hdr_next s =
      let s' = advance hdr_len s in
      let iph_len' = to_u16 (iph_len + hdr_len) in
      let frag = ipv6_frag_ext s' >>= λ (t, nxt). ipv6_loop fuel iph_len' 8 nxt t in
      let skip = ipv6_skip_ext s' >>= λ (nxt, len). ipv6_loop fuel iph_len' len nxt s' in
      if hdr_next == Proto.ip6_nonext
      then null s'
      else if hdr_next == Proto.ip6_frag
      then frag
      else if (hdr_next == Proto.ip6_hop)
          || (hdr_next == Proto.ip6_route)
          || (hdr_next == Proto.ip6_dopt)
      then skip
      else ok (ipv6_done iph_len' hdr_next s')

  unfoldable pub decode_ipv6 : ℕ → Decoding → Run Decoding
  decode_ipv6 fuel s =
      if ltb s.caplen 40
      then null (fail_ip6hdr s)
      else do (s1, nxt) ← ipv6_header s; ipv6_loop fuel 0 40 nxt s1
