-- ===== src/Flow/Index/Keys.antt =====
-- What a packet does to a node in src/yaftab.c leaves the key of its flow alone.
use qof.Packet.Proto
use qof.Base.{Bool, arith, false, if◌then◌else◌, refl, true, ℕ, ◌==◌, ◌∙◌, ◌≡◌}
use qof.Packet.{PBuf}
use qof.Stats.{Double}
use qof.Flow.Record.{Config, Flow, FlowNode, FlowVal, set_side}
use qof.Flow.Tcp.{flow_pkt_tcp}
use qof.Flow.Update.{data_len, note_mac, reverse_delay, update_node}

module _ {R : Type 0} where
  side_key : (reverse : Bool) (v : FlowVal R) (f : Flow R) → (set_side reverse v f).key ≡ f.key
  side_key true v f = refl
  side_key false v f = refl

module _ {R : Type 0} (double : Double R) where
  delay_key :
      (ptime : ℕ) (reverse : Bool) (f : Flow R) → (reverse_delay double ptime reverse f).key ≡ f.key
  unfolding reverse_delay
  delay_key ptime reverse f = ground arith

  mac_key :
      (c : Config) (pbuf : PBuf) (reverse : Bool) (f : Flow R)
      → (note_mac double c pbuf reverse f).key ≡ f.key
  unfolding note_mac
  mac_key c pbuf reverse f = ground arith

  tcp_key :
      (c : Config) (pbuf : PBuf) (reverse : Bool) (datalen : ℕ) (fn : FlowNode R)
      → (flow_pkt_tcp double c pbuf.ptime reverse pbuf.tcpinfo pbuf.ipinfo datalen fn).f.key
        ≡ fn.f.key
  unfolding flow_pkt_tcp
  tcp_key c pbuf reverse datalen fn = side_key reverse _ fn.f

  either_key :
      (b : Bool) (c : Config) (pbuf : PBuf) (reverse : Bool) (datalen : ℕ) (fn : FlowNode R)
      → (if b
          then flow_pkt_tcp double c pbuf.ptime reverse pbuf.tcpinfo pbuf.ipinfo datalen fn
          else fn).f.key
        ≡ fn.f.key
  either_key true c pbuf reverse datalen fn = tcp_key c pbuf reverse datalen fn
  either_key false c pbuf reverse datalen fn = refl

  -- A packet leaves its node's key alone.
  pub update_node-key :
      (c : Config) (pbuf : PBuf) (reverse : Bool) (fn : FlowNode R)
      → (update_node double c pbuf reverse fn).f.key ≡ fn.f.key
  unfolding update_node
  update_node-key c pbuf reverse fn =
      side_key reverse _ _
      ∙ mac_key c pbuf reverse _
      ∙ either_key (fn.f.key.proto == Proto.tcp) c pbuf reverse (data_len pbuf) _
      ∙ side_key reverse _ _
      ∙ delay_key pbuf.ptime reverse fn.f
