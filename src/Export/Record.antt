-- ===== src/Export/Record.antt =====
-- `yfWriteFlow` of src/yafcore.c: the parts of the record of a flow. What the code leaves unset in
-- the record is `none`.
use qof.Base.{Bool, List, Option, bit_or, if◌then◌else◌, ltb, none, not, some, ℕ, ◌&&◌, ◌-◌, ◌^◌}
use qof.Base.Word.{nonzero, to_u16}
use qof.Base.Int.{ltb_ℤ, negsuc, pos, ℤ}
use qof.Stats.{to_pattern}
use qof.Packet.{Addr}
use qof.Rtt.{Rtt}
use qof.Seq.State.{Seq, seq_count, seq_count_lost, timestamp_hz}
use qof.Flow.Record.{FlowVal}
use qof.IfMap.{IfMap, NetList}
use qof.MacList.{MacList}
use qof.Export.Spec.{min_rtt_count}

-- The conversion of an `int` to `int16_t`.
abbrev pub int16 : ℤ → ℤ
int16 z = let w = to_u16 (to_pattern z) in if ltb w (2 ^ 15) then pos w else negsuc (2 ^ 16 - 1 - w)

-- The conversions of `double` to `uint32_t` and to `int16_t`.
pub record Casts (R : Type 0) : Type 0 where
  pub to_u32 : R → ℕ
  pub to_i16 : R → ℤ

-- The configuration of the writer; `none` for a null pointer.
pub record Writer : Type 0 where
  pub map_ipv6 : Bool
  pub force_biflow : Bool
  pub if_map : Option IfMap
  pub source_netlist : Option NetList
  pub source_maclist : Option MacList

-- The members for timestamps, for one direction.
pub record ChirpPart : Type 0 where
  pub timestamp_frequency : ℕ
  pub min_chirp : ℤ
  pub max_chirp : ℤ
  pub mean_chirp : ℤ

-- The members that are set where the direction has a TCP structure.
pub record TcpPart : Type 0 where
  pub sequence_count : ℕ
  pub sequence_loss_count : ℕ
  pub retransmit_count : ℕ
  pub sequence_jump_count : ℕ
  pub max_sequence_jump : ℕ
  pub loss_event_count : ℕ
  pub dup_ack_count : ℕ
  pub sel_ack_count : ℕ
  pub characteristics : ℕ
  pub sequence_number : ℕ
  pub observed_mss : ℕ
  pub declared_mss : ℕ
  pub min_rwin : ℕ
  pub mean_rwin : ℕ
  pub max_rwin : ℕ
  pub receiver_stall_count : ℕ
  pub min_iot : ℕ
  pub max_iot : ℕ
  pub chirp : Option ChirpPart

-- The members for the flags of TCP, which are set for each TCP flow.
pub record FlagsPart : Type 0 where
  pub initial_flags : ℕ
  pub union_flags : ℕ
  pub control_bits : ℕ

pub record RttPart : Type 0 where
  pub last_rtt : ℕ
  pub min_rtt : ℕ
  pub rtt_sample_count : ℕ

-- The members of one direction: forward, and those with `reverse` in their names.
pub record SidePart : Type 0 where
  pub minimum_ttl : ℕ
  pub maximum_ttl : ℕ
  pub octet_count : ℕ
  pub packet_count : ℕ
  pub transport_octet_delta_count : ℕ
  pub transport_packet_delta_count : ℕ
  pub tcp_flags : Option FlagsPart
  pub tcp : Option TcpPart

-- `yfIpfixFlow_t`. The two pairs of addresses are one member here, of which one pair is set.
pub record FlowRecord : Type 0 where
  pub flow_id : ℕ
  pub flow_start : ℕ
  pub flow_end : ℕ
  pub reverse_flow_delta : ℤ
  pub flow_end_reason : ℕ
  pub forward : SidePart
  pub reverse : SidePart
  pub addresses : Option Addr
  pub rtt : Option RttPart
  pub source_transport_port : ℕ
  pub destination_transport_port : ℕ
  pub protocol_identifier : ℕ
  pub ingress_interface : ℕ
  pub egress_interface : ℕ
  pub source_mac_address : List ℕ
  pub destination_mac_address : List ℕ
  pub vlan_id : ℕ

module _ {R : Type 0} (casts : Casts R) where
  abbrev pub chirp_part : Seq R → Option ChirpPart
  chirp_part qs =
      let hz = timestamp_hz qs in
      if nonzero hz
      then some record {
        timestamp_frequency = hz;
        min_chirp = int16 qs.seg_variat.mm.min;
        max_chirp = int16 qs.seg_variat.mm.max;
        mean_chirp = casts.to_i16 qs.seg_variat.mean;
      }
      else none

  unfoldable pub tcp_part : FlowVal R → Option TcpPart
  tcp_part val = elim val.tcp [
    | none ↦ none
    | some t ↦
        let qs = t.seq in
        some record {
          sequence_count = seq_count qs (bit_or val.iflags val.uflags);
          sequence_loss_count = (seq_count_lost qs).0;
          retransmit_count = qs.rtx;
          sequence_jump_count = qs.ooo;
          max_sequence_jump = qs.maxooo;
          loss_event_count = qs.lossct;
          dup_ack_count = t.ack.dup_ct;
          sel_ack_count = t.ack.sel_ct;
          characteristics = t.opts.flags;
          sequence_number = qs.isn;
          observed_mss = t.opts.mss;
          declared_mss = t.opts.mss_opt;
          min_rwin = to_pattern t.rwin.val.mm.min;
          mean_rwin = casts.to_u32 t.rwin.val.mean;
          max_rwin = to_pattern t.rwin.val.mm.max;
          receiver_stall_count = t.rwin.stall;
          min_iot = to_pattern qs.seg_iat.mm.min;
          max_iot = to_pattern qs.seg_iat.mm.max;
          chirp = chirp_part qs;
        }
  ]

  abbrev pub flags_part : FlowVal R → FlagsPart
  flags_part val = record {
    initial_flags = val.iflags;
    union_flags = val.uflags;
    control_bits = bit_or val.iflags val.uflags;
  }

  abbrev pub side_part : Bool → FlowVal R → SidePart
  side_part is_tcp val = record {
    minimum_ttl = val.minttl;
    maximum_ttl = val.maxttl;
    octet_count = val.oct;
    packet_count = val.pkt;
    transport_octet_delta_count = val.appoct;
    transport_packet_delta_count = val.apppkt;
    tcp_flags = if is_tcp then some (flags_part val) else none;
    tcp = if is_tcp then tcp_part val else none;
  }

  abbrev pub rtt_part : Bool → Rtt → Option RttPart
  rtt_part is_tcp r =
      if is_tcp && not (ltb_ℤ r.val.n (pos min_rtt_count))
      then some record {
        last_rtt = to_u16 (to_pattern r.val.val);
        min_rtt = to_u16 (to_pattern r.val.mm.min);
        rtt_sample_count = to_pattern r.val.n;
      }
      else none
