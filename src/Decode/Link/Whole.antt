-- ===== src/Decode/Link/Whole.antt =====
-- `yfDecodeL2` of src/decode.c as a whole stays inside the captured bytes and ends.
use qof.Base.{
  Bool, List, arith, false, if◌then◌else◌, length, true, ℕ, ◌&&◌, ◌+◌, ◌<◌, ◌==◌, ◌^◌, ◌≤◌,
}
use qof.Packet.{no_l2_info}
use qof.Decode.Run.{Decoding, advance}
use qof.Decode.Safe.{
  IsSafe, after_read, after_run, byte-Yields, bytes-Yields, long_enough, safe_null, word16-Yields,
}
use qof.Decode.Link.{
  LinkType, decode_eth, decode_l2, decode_l2_ppp, decode_l2_shim, decode_link, decode_ppp, eth,
  ether_shim, hdlc_pos, linux_sll, metadata, none_link, ppp, unsupported,
}
use qof.Decode.Link.Inside.{
  Inside, Taken, Taken-Inside, advance-Taken, decode_l2_ppp-Inside, ip_version_to_type-Inside,
  shims-Inside, weaken,
}

module _ (mem : List ℕ) (fuel : ℕ) (s : Decoding) (inside : Inside mem s)
    (enough : s.caplen < fuel) where
  -- The shims behind a header of `k` bytes.
  behind :
      (k : ℕ) (t : Decoding)
      → k ≤ s.caplen
      → Taken k s.caplen (s.pkt + s.caplen) t
      → IsSafe (Taken 0 s.caplen (s.pkt + s.caplen)) (decode_l2_shim mem fuel t)
  behind k t h taken =
      weaken _ (omega (arith, taken.left)) taken.stop_kept
        (shims-Inside mem fuel t (Taken-Inside inside taken) (omega (arith, taken.left)))

  ether_shim-Inside :
      (type_at header : ℕ)
      → type_at + 2 ≤ header
      → IsSafe (Taken 0 s.caplen (s.pkt + s.caplen)) (ether_shim mem fuel type_at header s)
  ether_shim-Inside type_at header fits = long_enough s.caplen header _ _ (λ e.
      after_read _ _ (word16-Yields mem (s.pkt + type_at) (omega (arith, inside.captured)))
        (λ type'. behind header _ e (advance-Taken header _ inside.counted e)))

  decode_eth-Inside : IsSafe (Taken 0 s.caplen (s.pkt + s.caplen)) (decode_eth mem fuel s)
  unfolding decode_eth
  decode_eth-Inside = long_enough s.caplen 14 _ _ (λ e.
      after_read _ _ (word16-Yields mem (s.pkt + 12) (omega (arith, inside.captured))) (λ type'.
        after_read _ _ (bytes-Yields mem (s.pkt + 6) 6 (omega (arith, inside.captured))) (λ smac.
          after_read _ _ (bytes-Yields mem s.pkt 6 (omega (arith, inside.captured)))
            (λ dmac. behind 14 _ e (advance-Taken 14 _ inside.counted e)))))

  decode_ppp-Inside : IsSafe (Taken 0 s.caplen (s.pkt + s.caplen)) (decode_ppp mem fuel s)
  unfolding decode_ppp
  decode_ppp-Inside = long_enough s.caplen 2 _ _ (λ e.
      after_read _ _ (byte-Yields mem s.pkt (omega (arith, inside.captured))) (λ b0.
        after_read _ _ (byte-Yields mem (s.pkt + 1) (omega (arith, inside.captured))) (λ b1.
          after_run _ _ (framed ((b0 == 0xff) && (b1 == 0x03)) e) (λ t taken. behind 2 t e taken))))
    where
      framed :
          (b : Bool)
          → 2 ≤ s.caplen
          → IsSafe
              (Taken 2 s.caplen (s.pkt + s.caplen))
              (decode_l2_ppp mem (if b then advance 2 s else s))
      framed true e =
          let taken : Taken 2 s.caplen (s.pkt + s.caplen) (advance 2 s) =
            advance-Taken 2 s inside.counted e in
          weaken _ (omega (arith, taken.left)) taken.stop_kept
            (decode_l2_ppp-Inside mem (advance 2 s) (Taken-Inside inside taken))
      framed false e = decode_l2_ppp-Inside mem s inside

-- With fuel for one more shim than there are captured bytes, decoding layer 2 of any link type ends
-- without a read outside the captured bytes: it rejects the packet, or leaves the read position inside
-- them, behind the headers, with the capture length reduced by just the bytes it skipped.
pub decode_l2-Inside :
    (mem : List ℕ) (link : LinkType) (fuel : ℕ) (s : Decoding)
    → s.pkt + s.caplen ≤ length mem
    → s.caplen < 2 ^ 64
    → s.caplen < fuel
    → IsSafe (Taken 0 s.caplen (s.pkt + s.caplen)) (decode_l2 mem link fuel s)
unfolding decode_l2 decode_link
decode_l2-Inside mem link fuel s captured counted enough = any link
  where
    t : Decoding
    t = record s { l2info = no_l2_info }

    inside : Inside mem t
    inside = record { captured = captured; counted = counted }

    any : (l : LinkType) → IsSafe (Taken 0 s.caplen (s.pkt + s.caplen)) (decode_link mem l fuel t)
    any eth = decode_eth-Inside mem fuel t inside enough
    any none_link = ip_version_to_type-Inside mem t inside
    any linux_sll = ether_shim-Inside mem fuel t inside enough 14 16 (omega arith)
    any ppp = decode_ppp-Inside mem fuel t inside enough
    any hdlc_pos = ether_shim-Inside mem fuel t inside enough 2 4 (omega arith)
    any metadata = safe_null _
    any unsupported = safe_null _
