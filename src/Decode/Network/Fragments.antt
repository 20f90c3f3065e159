-- ===== src/Decode/Network/Fragments.antt =====
-- The fragmentation information that src/decode.c takes from IPv4 headers and IPv6 fragment headers.
use qof.Base.{arith, bit_and, ℕ, ◌%◌, ◌*◌, ◌+◌, ◌/◌, ◌<◌, ◌^◌, ◌≡◌, ◌≢◌, ◌⊎◌}
use qof.Base.Bits.{bit_and-low, bit_and-pow2, or_digit}
use qof.Packet.{IpFragInfo}
use qof.Decode.Network.{ip4_frag_info, ip6_frag_info}

low_13 : (a : ℕ) → bit_and a 0x1fff ≡ a % 2 ^ 13
low_13 a = omega (arith, bit_and-low 13 a)

low_14 : (a : ℕ) → bit_and a 0x3fff ≡ a % 2 ^ 14
low_14 a = omega (arith, bit_and-low 14 a)

digit_13 : (a : ℕ) → bit_and a 0x2000 ≡ a / 2 ^ 13 % 2 * 2 ^ 13
digit_13 a = omega (arith, bit_and-pow2 13 a)

-- From a 16-bit word of flags and offset, IPv4 takes a packet for a fragment exactly if the flag "more
-- fragments" is set or the offset is not 0. A fragment gets the flag, eight times the offset without
-- overflow, and the identification.
pub ip4_frag_info-parts :
    (ip_off ip_id iph_len : ℕ) (f : IpFragInfo)
    → ip_off < 2 ^ 16
    → let g = ip4_frag_info ip_off ip_id iph_len f in
      let offset = ip_off % 2 ^ 13 in
      let more = ip_off / 2 ^ 13 % 2 in
      ((offset ≡ 0) × (more ≡ 0) × (g.frag ≡ 0))
      ⊎ ((offset + more ≢ 0)
          × (g.frag ≡ 1)
          × (g.more ≡ more)
          × (g.offset ≡ 8 * offset)
          × (g.ipid ≡ ip_id))
unfolding ip4_frag_info
ip4_frag_info-parts ip_off ip_id iph_len f h =
    ground (arith, low_13 ip_off, low_14 ip_off, digit_13 ip_off)

-- From the word of offset and flags of an IPv6 fragment header, the code takes the flag "more
-- fragments" as set, whatever the word: also for the last fragment, where it is clear.
pub ip6_frag_info-more :
    (offlg ident : ℕ) (f : IpFragInfo)
    → let g = ip6_frag_info offlg ident f in (g.more ≡ 1) × (g.frag ≡ 1) × (g.ipid ≡ ident)
unfolding ip6_frag_info
ip6_frag_info-more offlg ident f = ground (arith, or_digit offlg 1)
