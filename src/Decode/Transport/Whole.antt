-- ===== src/Decode/Transport/Whole.antt =====
-- TCP, UDP and ICMP headers in src/decode.c: what decoding them reads, and where it ends.
use qof.Base.{
  Bool, List, arith, false, if◌then◌else◌, length, ltb, not, refl, true, ℕ, ◌*◌, ◌+◌, ◌-◌, ◌/◌, ◌<◌,
  ◌^◌, ◌||◌, ◌≡◌, ◌≤◌,
}
use qof.Base.Word.{sub64, to_u16}
use qof.Packet.{IpFragInfo, no_tcp_info}
use qof.Decode.Run.{Config, Decoding, Run, advance, is_frag, null, ok, on_frag}
use qof.Decode.Safe.{
  IsSafe, after_read, after_run, byte-Yields, either_way, long_enough, safe_null, safe_ok,
  word16-Yields, word32-Yields,
}
use qof.Decode.Transport.{decode_icmp, decode_tcp, decode_udp, tcp_body, tcp_header}
use qof.Decode.Link.Inside.{Inside, Taken}
use qof.Decode.Transport.Inside.{Skipped, tcp_options-Skipped}

-- Noting the header length for a fragment moves nothing.
noted :
    (b : Bool) (f : IpFragInfo → IpFragInfo) (s t : Decoding)
    → t.pkt ≡ s.pkt
    → t.caplen ≡ s.caplen
    → Skipped 0 s (if b then on_frag f t else t)
noted true f s t e h = record { moved = omega arith; same = h }
noted false f s t e h = record { moved = omega arith; same = h }

-- A header of 8 bytes taken off.
take_eight :
    (s t : Decoding)
    → s.caplen < 2 ^ 64
    → 8 ≤ s.caplen
    → Skipped 0 s t
    → Taken 0 s.caplen (s.pkt + s.caplen) (advance 8 t)
take_eight s t b h v = record {
  stop_kept = omega (arith, v.moved, v.same);
  left = omega (arith, v.moved, v.same);
}

module _ (mem : List ℕ) (s : Decoding) (inside : Inside mem s) where
  -- Decoding a UDP or an ICMP header stays inside the captured bytes, whatever they are: it rejects the
  -- packet, or takes just the bytes off that it skipped.
  pub decode_udp-Inside :
      IsSafe (Taken 0 s.caplen (s.pkt + s.caplen)) (decode_udp mem s)
      × IsSafe (Taken 0 s.caplen (s.pkt + s.caplen)) (decode_icmp mem s)
  unfolding decode_udp decode_icmp
  decode_udp-Inside = (
    long_enough s.caplen 8 _ _ (λ e.
        after_read _ _ (word16-Yields mem s.pkt (omega (arith, inside.captured))) (λ sport.
          after_read _ _ (word16-Yields mem (s.pkt + 2) (omega (arith, inside.captured))) (λ dport.
            safe_ok (
              take_eight s _ inside.counted e (
                noted (is_frag s) (λ f. record f { l4hlen = 8 }) s
                  (record s { key = record (s.key) { sp = sport; dp = dport } }) refl refl))))),
    long_enough s.caplen 8 _ _ (λ e.
        after_read _ _ (byte-Yields mem s.pkt (omega (arith, inside.captured))) (λ type'.
          after_read _ _ (byte-Yields mem (s.pkt + 1) (omega (arith, inside.captured))) (λ code.
            safe_ok (
              take_eight s _ inside.counted e (
                noted (is_frag s) (λ f. record f { l4hlen = 8 }) s
                  (record s { key = record (s.key) { sp = 0; dp = to_u16 (type' * 2 ^ 8 + code) } })
                  refl refl))))),
  )

  -- The fixed TCP header.
  tcp_header-Skipped :
      20 ≤ s.caplen → IsSafe (λ (r : Decoding × ℕ). Skipped 0 s r.0) (tcp_header mem s)
  unfolding tcp_header
  tcp_header-Skipped h =
      after_read _ _ (byte-Yields mem (s.pkt + 12) (omega (arith, inside.captured))) (λ off.
        after_read _ _ (word16-Yields mem s.pkt (omega (arith, inside.captured))) (λ sport.
          after_read _ _ (word16-Yields mem (s.pkt + 2) (omega (arith, inside.captured))) (λ dport.
            after_read _ _ (word32-Yields mem (s.pkt + 4) (omega (arith, inside.captured))) (λ seq'.
              after_read _ _ (word32-Yields mem (s.pkt + 8) (omega (arith, inside.captured)))
                (λ ack'.
                  after_read _ _ (word16-Yields mem (s.pkt + 14) (omega (arith, inside.captured)))
                    (λ win.
                      after_read _ _ (byte-Yields mem (s.pkt + 13) (omega (arith, inside.captured)))
                        (λ flags'.
                          let s1 = record s {
                            key = record (s.key) { sp = sport; dp = dport };
                            tcpinfo = record (s.tcpinfo) {
                              seq = seq';
                              ack = ack';
                              rwin = win;
                              flags = flags';
                            };
                          } in
                          let len = off / 16 * 4 in
                          safe_ok
                            {a = (
                              if is_frag s1
                                  then on_frag (λ f. record f { l4hlen = len }) s1
                                  else s1,
                              len,
                            )}
                            (noted (is_frag s1) (λ f. record f { l4hlen = len }) s s1 refl
                              refl))))))))

  fragment_start :
      (b : Bool) (t u : Decoding)
      → Skipped 0 s t
      → IsSafe (Taken 0 s.caplen (s.pkt + s.caplen)) (if b then ok t else null u)
  fragment_start true t u v =
      safe_ok (record { stop_kept = omega (arith, v.moved, v.same); left = omega (arith, v.same) })
  fragment_start false t u v = safe_null u

-- Behind the options, with the whole header taken off.
options-Taken :
    (s t : Decoding) (len : ℕ) (r : Run Decoding)
    → 20 ≤ len
    → len ≤ t.caplen
    → s.caplen < 2 ^ 64
    → Skipped 0 s t
    → IsSafe (Skipped (len - 20) (record t { caplen = sub64 t.caplen len; pkt = t.pkt + 20 })) r
    → IsSafe (Taken 0 s.caplen (s.pkt + s.caplen)) r
options-Taken s t len r h k b v (safe_null u) = safe_null u
options-Taken s t len r h k b v (safe_ok w) = safe_ok (record {
  stop_kept = omega (arith, v.moved, v.same, w.moved, w.same);
  left = omega (arith, v.same, w.same);
})

above : (a b : ℕ) → ltb a b ≡ false → b ≤ a
above a b h = ground arith

long_header : (b : Bool) (len : ℕ) → (b || ltb len 20) ≡ false → 20 ≤ len
long_header b len h = ground arith

-- With one more captured byte than the capture length counts, and fuel for one option more than there
-- are bytes, decoding TCP stays inside the captured bytes, whatever they are, options included: it
-- rejects the packet, or takes just the bytes off that it skipped.
pub decode_tcp-Inside :
    (mem : List ℕ) (config : Config) (fuel : ℕ) (s : Decoding)
    → s.pkt + s.caplen < length mem
    → s.caplen < 2 ^ 64
    → s.caplen < fuel
    → IsSafe (Taken 0 s.caplen (s.pkt + s.caplen)) (decode_tcp mem config fuel s)
unfolding decode_tcp tcp_body
decode_tcp-Inside mem config fuel s captured counted enough =
    either_way (ltb s.caplen 20) _ _
      (λ e. fragment_start mem cleared inside _ _ _ (record { moved = omega arith; same = refl }))
      (λ e.
        after_run _ _ (tcp_header-Skipped mem cleared inside (ground arith))
          (λ (t, tcph_len) stayed.
            either_way (ltb t.caplen tcph_len) _ _
              (λ f. fragment_start mem cleared inside _ _ _ stayed)
              (λ f.
                either_way (not config.tomode || ltb tcph_len 20) _ _
                  (λ g. safe_ok (record {
                    stop_kept = omega (arith, stayed.moved, stayed.same, above t.caplen tcph_len f);
                    left = omega (arith, stayed.same, above t.caplen tcph_len f);
                  }))
                  (λ g.
                    options-Taken s t tcph_len _ (long_header (not config.tomode) tcph_len g)
                      (above t.caplen tcph_len f) counted
                      (record { moved = stayed.moved; same = stayed.same })
                      (tcp_options-Skipped mem fuel (tcph_len - 20) _
                        (omega (arith, stayed.same, above t.caplen tcph_len f))
                        (omega (
                          arith,
                          stayed.moved,
                          stayed.same,
                          long_header (not config.tomode) tcph_len g,
                          above t.caplen tcph_len f,
                        )))))))
  where
    cleared : Decoding
    cleared = record s { tcpinfo = no_tcp_info }

    inside : Inside mem cleared
    inside = record { captured = omega arith; counted = counted }
