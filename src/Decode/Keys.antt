-- ===== src/Decode/Keys.antt =====
-- The flow key that src/decode.c leaves has addresses of its version.
use qof.Packet.Proto
use qof.Base.{
  Bool, List, Option-cases, false, if◌then◌else◌, inl, inr, ltb, not, refl, suc, true, zero, ℕ, ◌%◌,
  ◌&&◌, ◌*◌, ◌+◌, ◌-◌, ◌==◌, ◌||◌,
}
use qof.Base.Word.{has_bits, to_u16}
use qof.Flow.Key.Contract.{IsKey}
use qof.Decode.Run.{
  Config, Decoding, Run, advance, byte, bytes, fault, is_frag, null, ok, out_of_fuel, word16,
  word32, ◌>>=◌,
}
use qof.Decode.Transport.{
  decode_icmp, decode_tcp, decode_udp, tcp_body, tcp_header, tcp_option, tcp_options,
}
use qof.Decode.Network.{
  decode_ipv4, decode_ipv6, ipv4_fragment, ipv4_header, ipv6_frag_ext, ipv6_header, ipv6_loop,
  ipv6_skip_ext,
}
use qof.Decode.Tunnel.{start}

-- What a run yields, if it yields something.
abbrev pub Gives : {A : Type 0} → (A → Type 0) → Run A → Type 0
Gives P fault = Unit
Gives P out_of_fuel = Unit
Gives P (null s) = Unit
Gives P (ok a) = P a

module _ {A B : Type 0} (P : B → Type 0) where
  pub Gives-bind :
      (Q : A → Type 0) (r : Run A) (f : A → Run B)
      → Gives Q r
      → ((a : A) → Q a → Gives P (f a))
      → Gives P (r >>= f)
  Gives-bind Q fault f q h = tt
  Gives-bind Q out_of_fuel f q h = tt
  Gives-bind Q (null s) f q h = tt
  Gives-bind Q (ok a) f q h = h a q

  pub Gives-read : (r : Run A) (f : A → Run B) → ((a : A) → Gives P (f a)) → Gives P (r >>= f)
  Gives-read fault f h = tt
  Gives-read out_of_fuel f h = tt
  Gives-read (null s) f h = tt
  Gives-read (ok a) f h = h a

module _ {B : Type 0} (P : B → Type 0) where
  pub Gives-if : (b : Bool) (x y : Run B) → Gives P x → Gives P y → Gives P (if b then x else y)
  Gives-if true x y h k = h
  Gives-if false x y h k = k

abbrev pub HasKey : Decoding → Type 0
HasKey s = IsKey s.key

if_HasKey : (b : Bool) (s t : Decoding) → HasKey s → HasKey t → HasKey (if b then s else t)
if_HasKey true s t h k = h
if_HasKey false s t h k = k

abbrev pub FirstHasKey : Decoding × ℕ → Type 0
FirstHasKey (s, n) = HasKey s

module _ (mem : List ℕ) where
  tcp_option-HasKey :
      (kind len left : ℕ) (s : Decoding) → HasKey s → Gives HasKey (tcp_option mem kind len left s)
  unfolding tcp_option
  tcp_option-HasKey kind len left s h =
      Gives-if HasKey (kind == 2) _ _
        (Gives-if HasKey (ltb len 4 || ltb left len) _ _ tt
          (Gives-read HasKey (word16 mem _) _ (λ v. h)))
        (Gives-if HasKey (kind == 3) _ _
          (Gives-if HasKey (ltb len 3 && ltb left len) _ _ tt
            (Gives-read HasKey (byte mem _) _ (λ v. h)))
          (Gives-if HasKey (kind == 8) _ _
            (Gives-if HasKey (ltb len 10 || ltb left len) _ _ tt (
              Gives-read HasKey (word32 mem _) _
                (λ v. Gives-read HasKey (word32 mem _) _ (λ e. h))))
            (Gives-if HasKey (kind == 5) _ _
              (Gives-if HasKey (ltb len 10 || ltb left len) _ _ tt
                (Gives-read HasKey (word32 mem _) _ (λ v. h)))
              h)))

  tcp_options-HasKey :
      (fuel left : ℕ) (s : Decoding) → HasKey s → Gives HasKey (tcp_options mem fuel left s)
  unfolding tcp_options
  tcp_options-HasKey zero left s h = tt
  tcp_options-HasKey (suc fuel) left s h = Gives-if HasKey (left == 0) _ _ h (
      Gives-read HasKey (byte mem s.pkt) _ (λ kind. Gives-if HasKey (kind == 0) _ _ h (
        Gives-if HasKey (kind == 1) _ _
          (tcp_options-HasKey fuel (left - 1) (record s { pkt = s.pkt + 1 }) h)
          (Gives-if HasKey (ltb left 2) _ _ tt (
            Gives-read HasKey (byte mem (s.pkt + 1)) _ (λ len.
              Gives-if HasKey (ltb len 2 || ltb left len) _ _ tt (
                Gives-bind HasKey HasKey (tcp_option mem kind len left s) _
                  (tcp_option-HasKey kind len left s h)
                  (λ s' h'.
                    tcp_options-HasKey fuel (left - len) (record s' { pkt = s'.pkt + len })
                      h'))))))))

  tcp_header-HasKey : (s : Decoding) → HasKey s → Gives FirstHasKey (tcp_header mem s)
  unfolding tcp_header
  tcp_header-HasKey s h = Gives-read FirstHasKey (byte mem _) _ (λ off.
      Gives-read FirstHasKey (word16 mem _) _ (λ sport.
        Gives-read FirstHasKey (word16 mem _) _ (λ dport.
          Gives-read FirstHasKey (word32 mem _) _ (λ q.
            Gives-read FirstHasKey (word32 mem _) _ (λ a.
              Gives-read FirstHasKey (word16 mem _) _
                (λ win. Gives-read FirstHasKey (byte mem _) _ (λ flags. if_HasKey _ _ _ h h)))))))

  tcp_body-HasKey :
      (config : Config) (fuel tcph_len : ℕ) (s : Decoding)
      → HasKey s
      → Gives HasKey (tcp_body mem config fuel tcph_len s)
  unfolding tcp_body
  tcp_body-HasKey config fuel tcph_len s h =
      Gives-if HasKey (ltb s.caplen tcph_len) _ _ (Gives-if HasKey (is_frag s) _ _ h tt) (
        Gives-if HasKey (not config.tomode || ltb tcph_len 20) _ _ h
          (tcp_options-HasKey fuel (tcph_len - 20) _ h))

  pub decode_tcp-HasKey :
      (config : Config) (fuel : ℕ) (s : Decoding)
      → HasKey s
      → Gives HasKey (decode_tcp mem config fuel s)
  unfolding decode_tcp
  decode_tcp-HasKey config fuel s h =
      Gives-if HasKey (ltb s.caplen 20) _ _ (Gives-if HasKey (is_frag s) _ _ h tt) (
        Gives-bind HasKey FirstHasKey (tcp_header mem _) _ (tcp_header-HasKey _ h)
          (λ (s1, n) k. tcp_body-HasKey config fuel n s1 k))

  pub decode_udp-HasKey : (s : Decoding) → HasKey s → Gives HasKey (decode_udp mem s)
  unfolding decode_udp
  decode_udp-HasKey s h = Gives-if HasKey (ltb s.caplen 8) _ _ tt (
      Gives-read HasKey (word16 mem _) _
        (λ a. Gives-read HasKey (word16 mem _) _ (λ b. if_HasKey _ _ _ h h)))

  pub decode_icmp-HasKey : (s : Decoding) → HasKey s → Gives HasKey (decode_icmp mem s)
  unfolding decode_icmp
  decode_icmp-HasKey s h = Gives-if HasKey (ltb s.caplen 8) _ _ tt (
      Gives-read HasKey (byte mem _) _
        (λ a. Gives-read HasKey (byte mem _) _ (λ b. if_HasKey _ _ _ h h)))

  ipv4_header-HasKey : (s : Decoding) → Gives HasKey (ipv4_header mem s)
  unfolding ipv4_header
  ipv4_header-HasKey s = Gives-read HasKey (word32 mem _) _ (λ src.
      Gives-read HasKey (word32 mem _) _ (λ dst. Gives-read HasKey (byte mem _) _ (λ p.
        Gives-read HasKey (word16 mem _) _
          (λ len. if_HasKey _ _ _ (inl (refl, (src, dst, refl))) (inl (refl, (src, dst, refl)))))))

  ipv4_fragment-HasKey :
      (start iph_len : ℕ) (s : Decoding)
      → HasKey s
      → Gives HasKey (ipv4_fragment mem start iph_len s)
  unfolding ipv4_fragment
  ipv4_fragment-HasKey start iph_len s h = Gives-read HasKey (word16 mem _) _ (λ a.
      Gives-read HasKey (word16 mem _) _ (λ b. elim (Option-cases (s.frag)) [
        | inr (f, e) ↦ rw e h
        | inl e ↦ rw e (Gives-if HasKey (has_bits a _) _ _ tt h)
      ]))

  pub decode_ipv4-HasKey : (s : Decoding) → Gives HasKey (decode_ipv4 mem s)
  unfolding decode_ipv4
  decode_ipv4-HasKey s = Gives-if HasKey (ltb s.caplen 1) _ _ tt (
      Gives-read HasKey (byte mem s.pkt) _ (λ b.
        Gives-if HasKey (ltb s.caplen (b % 16 * 4)) _ _ tt (
          Gives-bind HasKey HasKey (ipv4_header mem s) _ (ipv4_header-HasKey s) (λ s1 h1.
            Gives-bind HasKey HasKey (ipv4_fragment mem s.pkt (b % 16 * 4) s1) _
              (ipv4_fragment-HasKey s.pkt (b % 16 * 4) s1 h1)
              (λ s2 h2.
                Gives-read HasKey (byte mem _) _
                  (λ ttl. Gives-read HasKey (byte mem _) _ (λ tos. h2)))))))

  ipv6_header-HasKey : (s : Decoding) → Gives FirstHasKey (ipv6_header mem s)
  unfolding ipv6_header
  ipv6_header-HasKey s = Gives-read FirstHasKey (bytes mem _ 16) _ (λ sip.
      Gives-read FirstHasKey (bytes mem _ 16) _ (λ dip.
        Gives-read FirstHasKey (word16 mem _) _ (λ plen.
          Gives-read FirstHasKey (word32 mem _) _ (λ vcf.
            Gives-read FirstHasKey (byte mem _) _ (λ hlim.
              Gives-read FirstHasKey (byte mem _) _ (λ nxt.
                if_HasKey _ _ _ (inr (refl, (sip, dip, refl))) (inr (refl, (sip, dip, refl)))))))))

  ipv6_frag_ext-HasKey : (s : Decoding) → HasKey s → Gives FirstHasKey (ipv6_frag_ext mem s)
  unfolding ipv6_frag_ext
  ipv6_frag_ext-HasKey s h = Gives-if FirstHasKey (ltb s.caplen 8) _ _ tt (
      Gives-read FirstHasKey (byte mem _) _ (λ nxt.
        Gives-read FirstHasKey (word16 mem _) _ (λ offlg.
          Gives-read FirstHasKey (word32 mem _) _ (λ ident. elim (Option-cases (s.frag)) [
            | inr (f, e) ↦ rw e h
            | inl e ↦ rw e (Gives-if FirstHasKey (has_bits offlg _) _ _ tt h)
          ]))))

  ipv6_loop-HasKey :
      (fuel iph_len hdr_len hdr_next : ℕ) (s : Decoding)
      → HasKey s
      → Gives HasKey (ipv6_loop mem fuel iph_len hdr_len hdr_next s)
  unfolding ipv6_loop
  ipv6_loop-HasKey zero iph_len hdr_len hdr_next s h = tt
  ipv6_loop-HasKey (suc fuel) iph_len hdr_len hdr_next s h =
      Gives-if HasKey (hdr_next == Proto.ip6_nonext) _ _ tt (
        Gives-if HasKey (hdr_next == Proto.ip6_frag) _ _
          (Gives-bind HasKey FirstHasKey (ipv6_frag_ext mem (advance hdr_len s)) _
            (ipv6_frag_ext-HasKey (advance hdr_len s) h)
            (λ (t, nxt) k. ipv6_loop-HasKey fuel (to_u16 (iph_len + hdr_len)) 8 nxt t k))
          (Gives-if HasKey
            ((hdr_next == Proto.ip6_hop)
              || (hdr_next == Proto.ip6_route)
              || (hdr_next == Proto.ip6_dopt))
            _ _
            (Gives-read HasKey (ipv6_skip_ext mem (advance hdr_len s)) _ (λ (nxt, len).
              ipv6_loop-HasKey fuel (to_u16 (iph_len + hdr_len)) len nxt (advance hdr_len s) h))
            (if_HasKey _ _ _ h h)))

  pub decode_ipv6-HasKey : (fuel : ℕ) (s : Decoding) → Gives HasKey (decode_ipv6 mem fuel s)
  unfolding decode_ipv6
  decode_ipv6-HasKey fuel s = Gives-if HasKey (ltb s.caplen 40) _ _ tt (
      Gives-bind HasKey FirstHasKey (ipv6_header mem s) _ (ipv6_header-HasKey s)
        (λ (s1, nxt) k. ipv6_loop-HasKey fuel 0 40 nxt s1 k))
