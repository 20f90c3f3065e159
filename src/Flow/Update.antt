-- ===== src/Flow/Update.antt =====
-- `yfFlowPBuf` of src/yaftab.c: a decoded packet's way into the flow table.
pub mod Counts
use qof.Packet.Proto
use qof.Base.{Bool, bit_and, if◌then◌else◌, ltb, not, ℕ, ◌&&◌, ◌+◌, ◌-◌, ◌==◌, ◌^◌, ◌||◌}
use qof.Base.Word.{add64, has_bits, nonzero, sub64, to_u16, to_u32}
use qof.Stats.{Double, of_pattern}
use qof.Packet.{PBuf}
use qof.Flow.Record.{
  Config, Flow, FlowNode, FlowVal, flow_pkt_ip, set_side, side, state_fin, state_rst,
}
use qof.Flow.Tcp.{flow_pkt_tcp}
use qof.Flow.Table.{
  FlowTab, HashTable, end_active, end_closed, end_idle, flow_close, flow_tick, get_node, set_node,
}

-- The octets behind the headers, in 16 bits.
unfoldable pub data_len : PBuf → ℕ
data_len pbuf = to_u16 (sub64 pbuf.iplen pbuf.all_header_len + pbuf.l2info.l2hlen)

-- "Count packets and octets"
unfoldable pub count_packet : (iplen datalen : ℕ) → {R : Type 0} → FlowVal R → FlowVal R
count_packet iplen datalen val = record val {
  oct = add64 val.oct iplen;
  appoct = add64 val.appoct datalen;
  pkt = add64 val.pkt 1;
  apppkt = if nonzero datalen then add64 val.apppkt 1 else val.apppkt;
}

module _ {R : Type 0} (double : Double R) where
  -- "Calculate reverse SYN/ACK RTT": the low 32 bits of the difference, as an `int32_t`.
  unfoldable pub reverse_delay : (ptime : ℕ) → Bool → Flow R → Flow R
  reverse_delay ptime reverse f =
      if (f.rval.pkt == 0) && reverse
      then record f { rdtime = of_pattern (to_u32 (sub64 ptime f.stime)) }
      else f

  -- "Note Mac Addr", on the first packet of the forward direction.
  unfoldable pub note_mac : Config → PBuf → Bool → Flow R → Flow R
  note_mac c pbuf reverse f =
      if (f.val.pkt == 0) && c.macmode && not reverse
      then record f { source_mac_addr = pbuf.l2info.smac; destination_mac_addr = pbuf.l2info.dmac }
      else f

  -- What the packet does to its node, from the round-trip time to the end time.
  unfoldable pub update_node : Config → PBuf → Bool → FlowNode R → FlowNode R
  update_node c pbuf reverse fn =
      let datalen = data_len pbuf in
      let delayed = reverse_delay pbuf.ptime reverse fn.f in
      let ip = record fn {
        f = set_side reverse (flow_pkt_ip (side reverse delayed) pbuf.ipinfo) delayed;
      } in
      let tcp =
        if fn.f.key.proto == Proto.tcp
        then flow_pkt_tcp double c pbuf.ptime reverse pbuf.tcpinfo pbuf.ipinfo datalen ip
        else ip in
      let noted = note_mac c pbuf reverse tcp.f in
      let counted = set_side reverse (count_packet pbuf.iplen datalen (side reverse noted)) noted in
      record tcp { f = record counted { etime = pbuf.ptime } }

  module _ {T : Type 0} (h : HashTable T) where
    -- "Check for active timeout or counter overflow"
    unfoldable pub active_over : PBuf → Bool → FlowNode R → Config → Bool
    active_over pbuf reverse fn c =
        ltb c.active_ms (sub64 pbuf.ptime fn.f.stime)
        || (c.silkmode && ltb (2 ^ 32 - 1) (add64 (side reverse fn.f).oct pbuf.iplen))

    -- The node for the packet, after the check. The continuation flag is set in silk mode.
    unfoldable pub check_active : PBuf → FlowTab R T × ℕ × Bool → FlowTab R T × ℕ × Bool
    check_active pbuf (t, fn, reverse) =
        let (t', fn', reverse') =
          get_node h pbuf.key (t.node fn).f.fid (flow_close h fn end_active t) in
        let n = t'.node fn' in
        let continued = record n { f = record (n.f) { reason = 0x80 } } in
        if active_over pbuf reverse (t.node fn) t.config
        then (if t.config.silkmode then set_node h fn' continued t' else t', fn', reverse')
        else (t, fn, reverse)

    -- "Check for inactive timeout"
    unfoldable pub check_idle : PBuf → FlowTab R T × ℕ × Bool → FlowTab R T × ℕ × Bool
    check_idle pbuf (t, fn, reverse) =
        if ltb t.config.idle_ms (sub64 pbuf.ptime (t.node fn).f.etime)
        then get_node h pbuf.key (t.node fn).f.fid (flow_close h fn end_idle t)
        else (t, fn, reverse)

    -- "close flow, or move it to head of queue"
    unfoldable pub settle : ℕ → FlowTab R T → FlowTab R T
    settle fn t =
        let state = (t.node fn).state in
        if (bit_and state state_fin == state_fin) || has_bits state state_rst
        then flow_close h fn end_closed t
        else flow_tick h fn t

    -- The packet at its node.
    unfoldable pub enter_packet : PBuf → FlowTab R T × ℕ × Bool → FlowTab R T
    enter_packet pbuf (t, fn, reverse) =
        settle fn (set_node h fn (update_node t.config pbuf reverse (t.node fn)) t)

    -- The counters at the start.
    unfoldable pub count_input : PBuf → FlowTab R T → FlowTab R T
    count_input pbuf t = record t {
      ctime = pbuf.ptime;
      stats = record (t.stats) {
        stat_packets = add64 t.stats.stat_packets 1;
        stat_octets = add64 t.stats.stat_octets pbuf.iplen;
      };
    }

    unfoldable pub flow_pbuf : PBuf → FlowTab R T → FlowTab R T
    flow_pbuf pbuf t =
        let rejected = record t {
          stats = record (t.stats) { stat_seqrej = add64 t.stats.stat_seqrej 1 };
        } in
        if ltb pbuf.ptime t.ctime
        then rejected
        else enter_packet pbuf
            (check_idle pbuf (check_active pbuf (get_node h pbuf.key 0 (count_input pbuf t))))
