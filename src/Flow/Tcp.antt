-- ===== src/Flow/Tcp.antt =====
-- `yfFlowPktTCP` of src/yaftab.c: what a TCP packet does to a flow.
pub mod Closing
use qof.Base.{Bool, bit_or, if◌then◌else◌, some, ℕ, ◌&&◌}
use qof.Base.Word.{has_bits, nonzero, to_u16, to_u32}
use qof.Base.Int.{ℤ}
use qof.Stats.{Double}
use qof.Packet.{IpInfo, TcpInfo}
use qof.Rtt.{rtt_segment, tf_ack, tf_fin, tf_rst}
use qof.Ack.{ack_segment, opt_segment, rwin_scale, rwin_segment}
use qof.Seq.State.{seq_first_segment}
use qof.Seq.Advance.{seq_segment}
use qof.Flow.Record.{
  Config, FlowNode, FlowVal, allocates, no_tcp_val, on_tcp, set_side, side, state_ffin,
  state_ffinack, state_rfin, state_rfinack, state_rst,
}

-- "Update flow state" for FIN and for RST.
unfoldable pub fin_state : Bool → (flags state : ℕ) → ℕ
fin_state reverse flags state =
    let fin = if reverse then state_rfin else state_ffin in
    let other = if reverse then state_ffin else state_rfin in
    let finack = if reverse then state_rfinack else state_ffinack in
    let closing = if has_bits flags tf_fin then bit_or state fin else state in
    if has_bits closing other && has_bits flags tf_ack then bit_or closing finack else closing

unfoldable pub tcp_state : Bool → (flags state : ℕ) → ℕ
tcp_state reverse flags state =
    let closing = fin_state reverse flags state in
    if has_bits flags tf_rst then bit_or closing state_rst else closing

module _ {R : Type 0} (double : Double R) where
  -- "Not the first packet"
  unfoldable pub tcp_later : Config → TcpInfo → (datalen lms : ℕ) → ℤ → FlowVal R → FlowVal R
  tcp_later c tcpinfo datalen lms rtt_val val =
      on_tcp c.tcp_seq_enable
        (λ t. record t {
          seq =
              (seq_segment double t.seq (record {
                mss = t.opts.mss;
                seq = tcpinfo.seq;
                oct = datalen;
                ms = lms;
                tsval = tcpinfo.tsval;
                do_ts = c.tcp_ts_enable;
                do_iat = c.tcp_iat_enable;
                rtt_val = rtt_val;
              })).0;
        })
        (record val { uflags = bit_or val.uflags tcpinfo.flags })

  -- "First packet"
  unfoldable pub tcp_first : Config → TcpInfo → (datalen lms : ℕ) → FlowVal R → FlowVal R
  tcp_first c tcpinfo datalen lms val =
      let fresh = if allocates c then some (no_tcp_val double) else val.tcp in
      on_tcp c.tcp_seq_enable
        (λ t. record t {
          seq =
              seq_first_segment t.seq tcpinfo.flags tcpinfo.seq datalen lms tcpinfo.tsval
                c.tcp_ts_enable;
        })
        (record val { tcp = fresh; iflags = tcpinfo.flags })

  -- "track ACK dynamics", "Track receiver window dynamics", "Store information from options"
  unfoldable pub track_ack : Config → TcpInfo → (datalen lms : ℕ) → FlowVal R → FlowVal R
  track_ack c tcpinfo datalen lms =
      on_tcp (has_bits tcpinfo.flags tf_ack && c.tcp_ack_enable)
        (λ t. record t { ack = ack_segment t.ack tcpinfo.ack tcpinfo.sack datalen lms })

  unfoldable pub track_rwin : Config → TcpInfo → FlowVal R → FlowVal R
  track_rwin c tcpinfo = on_tcp c.tcp_rwin_enable (λ t.
      let scaled = if nonzero tcpinfo.ws then rwin_scale t.rwin tcpinfo.ws else t.rwin in
      record t { rwin = rwin_segment double scaled tcpinfo.rwin })

  unfoldable pub track_opt : Config → TcpInfo → IpInfo → (datalen : ℕ) → FlowVal R → FlowVal R
  track_opt c tcpinfo ipinfo datalen = on_tcp c.tcp_opt_enable (λ t. record t {
    opts =
        opt_segment t.opts ipinfo.ecn tcpinfo.tsval tcpinfo.ws tcpinfo.sack tcpinfo.mss
          (to_u16 datalen);
  })

  -- The handler whole: `reverse` says whether the packet is on the reverse side of the flow.
  unfoldable pub flow_pkt_tcp :
      Config → (ctime : ℕ) → Bool → TcpInfo → IpInfo → (datalen : ℕ) → FlowNode R → FlowNode R
  flow_pkt_tcp c ctime reverse tcpinfo ipinfo datalen fn =
      let lms = to_u32 ctime in
      let val = side reverse fn.f in
      let counted =
        if nonzero val.pkt
        then tcp_later c tcpinfo datalen lms fn.f.rtt.val.val val
        else tcp_first c tcpinfo datalen lms val in
      let acked = track_ack c tcpinfo datalen lms counted in
      let rtt =
        if c.tcp_rtt_enable
        then rtt_segment fn.f.rtt tcpinfo.seq tcpinfo.ack tcpinfo.tsval tcpinfo.tsecr lms
            tcpinfo.flags reverse
        else fn.f.rtt in
      let tracked = track_opt c tcpinfo ipinfo datalen (track_rwin c tcpinfo acked) in
      record {
        state = tcp_state reverse tcpinfo.flags fn.state;
        f = record (set_side reverse tracked fn.f) { rtt = rtt };
      }
