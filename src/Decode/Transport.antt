-- ===== src/Decode/Transport.antt =====
-- Layer 4 of src/decode.c: TCP with its options, UDP and ICMP.
pub mod Inside
pub mod Whole
use qof.Base.{
  List, Option, if◌then◌else◌, ltb, none, not, some, suc, zero, ℕ, ◌&&◌, ◌*◌, ◌+◌, ◌-◌, ◌/◌, ◌==◌,
  ◌^◌, ◌||◌,
}
use qof.Base.Word.{add32, sub64, to_u16}
use qof.Packet.{FlowKey, IpFragInfo, TcpInfo, no_tcp_info}
use qof.Decode.Run.{
  Config, Decoding, Run, advance, byte, is_frag, null, ok, on_frag, out_of_fuel, word16, word32,
  ◌>>=◌,
}

abbrev pub fail_l4hdr : Decoding → Decoding
fail_l4hdr s = record s { stats = record (s.stats) { fail_l4hdr = add32 s.stats.fail_l4hdr 1 } }

-- The count of an incomplete header, and that of an incomplete header of a fragment.
abbrev pub fail_l4 : Decoding → Decoding
fail_l4 s =
    let s' = fail_l4hdr s in
    if is_frag s'
    then record s' { stats = record (s'.stats) { fail_l4frag = add32 s'.stats.fail_l4frag 1 } }
    else s'

-- One option of two bytes or more; `len` is its length and `left` that of the options left.
module _ (mem : List ℕ) where
  unfoldable pub tcp_option : (kind len left : ℕ) → Decoding → Run Decoding
  tcp_option kind len left s =
      let mss = (do
        v ← word16 mem (s.pkt + 2)
        ok (record s { tcpinfo = record (s.tcpinfo) { mss = v } })) in
      let ws = (do
        v ← byte mem (s.pkt + 2)
        ok (record s { tcpinfo = record (s.tcpinfo) { ws = v } })) in
      let ts = (do
        v ← word32 mem (s.pkt + 2)
        e ← word32 mem (s.pkt + 6)
        ok (record s { tcpinfo = record (s.tcpinfo) { tsval = v; tsecr = e } })) in
      let sack = (do
        v ← word32 mem (s.pkt + len - 4)
        ok (record s { tcpinfo = record (s.tcpinfo) { sack = v } })) in
      if kind == 2
      then (if ltb len 4 || ltb left len then null (fail_l4hdr s) else mss)
      else if kind == 3
      then (if ltb len 3 && ltb left len then null (fail_l4hdr s) else ws)
      else if kind == 8
      then (if ltb len 10 || ltb left len then null (fail_l4hdr s) else ts)
      else if kind == 5
      then (if ltb len 10 || ltb left len then null (fail_l4hdr s) else sack)
      else ok s

  -- `while (tcph_len > 0)`: `left` is `tcph_len`. At the end the options that are left are skipped.
  unfoldable pub tcp_options : ℕ → (left : ℕ) → Decoding → Run Decoding
  tcp_options zero left s = out_of_fuel
  tcp_options (suc fuel) left s = if left == 0 then ok s else do
    kind ← byte mem s.pkt
    let skip = record s { pkt = s.pkt + left }
    let nop = tcp_options fuel (left - 1) (record s { pkt = s.pkt + 1 })
    let long = if ltb left 2 then null (fail_l4hdr s) else (do
      len ← byte mem (s.pkt + 1)
      if ltb len 2 || ltb left len then null (fail_l4hdr s) else do
        s' ← tcp_option kind len left s
        tcp_options fuel (left - len) (record s' { pkt = s'.pkt + len }))
    if kind == 0 then ok skip else if kind == 1 then nop else long

  -- The fixed header, with the data offset.
  unfoldable pub tcp_header : Decoding → Run (Decoding × ℕ)
  tcp_header s = do
    off ← byte mem (s.pkt + 12)
    sport ← word16 mem s.pkt
    dport ← word16 mem (s.pkt + 2)
    seq' ← word32 mem (s.pkt + 4)
    ack' ← word32 mem (s.pkt + 8)
    win ← word16 mem (s.pkt + 14)
    flags' ← byte mem (s.pkt + 13)
    let s1 = record s {
      key = record (s.key) { sp = sport; dp = dport };
      tcpinfo = record (s.tcpinfo) { seq = seq'; ack = ack'; rwin = win; flags = flags' };
    }
    let tcph_len = off / 16 * 4
    ok (if is_frag s1 then on_frag (λ f. record f { l4hlen = tcph_len }) s1 else s1, tcph_len)

  -- A header shorter than 20 bytes makes `tcph_len` negative after the subtraction: no option is
  -- read, and the pointer ends behind the header all the same.
  unfoldable pub tcp_body : Config → (fuel tcph_len : ℕ) → Decoding → Run Decoding
  tcp_body config fuel tcph_len s =
      if ltb s.caplen tcph_len
      then (if is_frag s then ok s else null (fail_l4hdr s))
      else (let taken = record s { caplen = sub64 s.caplen tcph_len } in
          let options = tcp_options fuel (tcph_len - 20) (record taken { pkt = taken.pkt + 20 }) in
          if not config.tomode || ltb tcph_len 20
          then ok (record taken { pkt = taken.pkt + tcph_len })
          else options)

  unfoldable pub decode_tcp : Config → ℕ → Decoding → Run Decoding
  decode_tcp config fuel s =
      let cleared = record s { tcpinfo = no_tcp_info } in
      if ltb s.caplen 20
      then (if is_frag cleared then ok cleared else null (fail_l4hdr cleared))
      else do (s1, tcph_len) ← tcp_header cleared; tcp_body config fuel tcph_len s1

  unfoldable pub decode_udp : Decoding → Run Decoding
  decode_udp s = if ltb s.caplen 8 then null (fail_l4 s) else do
    sport ← word16 mem s.pkt
    dport ← word16 mem (s.pkt + 2)
    let s1 = record s { key = record (s.key) { sp = sport; dp = dport } }
    ok (advance 8 (if is_frag s1 then on_frag (λ f. record f { l4hlen = 8 }) s1 else s1))

  unfoldable pub decode_icmp : Decoding → Run Decoding
  decode_icmp s = if ltb s.caplen 8 then null (fail_l4 s) else do
    type' ← byte mem s.pkt
    code ← byte mem (s.pkt + 1)
    let s1 = record s { key = record (s.key) { sp = 0; dp = to_u16 (type' * 2 ^ 8 + code) } }
    ok (advance 8 (if is_frag s1 then on_frag (λ f. record f { l4hlen = 8 }) s1 else s1))

  -- `yfDefragTCP`: the header at the start of `mem`, with `caplen` bytes of it; the new key, fragment
  -- information, TCP information and payload offset.
  unfoldable pub defrag_tcp :
      (caplen : ℕ)
      → FlowKey
      → IpFragInfo
      → TcpInfo
      → (payoff : ℕ) → Run (Option (FlowKey × IpFragInfo × TcpInfo × ℕ))
  defrag_tcp caplen key f tcpinfo payoff = if ltb caplen 20 then ok none else do
    off ← byte mem 12
    let tcph_len = off / 16 * 4
    if ltb caplen tcph_len then ok none else do
      sport ← word16 mem 0
      dport ← word16 mem 2
      seq' ← word32 mem 4
      ack' ← word32 mem 8
      flags' ← byte mem 13
      ok (
          some (
            record key { sp = sport; dp = dport },
            record f { l4hlen = tcph_len },
            record tcpinfo { seq = seq'; ack = ack'; flags = flags' },
            payoff + tcph_len,
          ))
