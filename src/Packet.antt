-- ===== src/Packet.antt =====
-- The structures that the decoder, the fragment table and the flow table pass on: `yfFlowKey_t` of
-- include/qof/yafcore.h, and `yfIPFragInfo_t`, `yfL2Info_t`, `yfIPInfo_t`, `yfTCPInfo_t` and
-- `yfPBuf_t` of include/qof/decode.h.
pub mod Proto
pub mod Ether
use qof.Base.{List, [], ℕ, ◌∷◌}

-- The address union of a flow key; a version 6 address is its 16 bytes, and `unwritten` is memory that
-- no address was written to.
pub data Addr : Type 0 where
  v4 : (sip dip : ℕ) → Addr
  v6 : (sip dip : List ℕ) → Addr
  unwritten : Addr

pub record FlowKey : Type 0 where
  pub sp : ℕ
  pub dp : ℕ
  pub proto : ℕ
  pub version : ℕ
  pub vlan_id : ℕ
  pub addr : Addr

pub record IpFragInfo : Type 0 where
  pub ipid : ℕ
  pub offset : ℕ
  pub iphlen : ℕ
  pub l4hlen : ℕ
  pub frag : ℕ
  pub more : ℕ

-- The label stack holds `mpls_count` labels, the first pushed first.
pub record L2Info : Type 0 where
  pub smac : List ℕ
  pub dmac : List ℕ
  pub l2hlen : ℕ
  pub vlan_tag : ℕ
  pub mpls_label : List ℕ

pub record IpInfo : Type 0 where
  pub ttl : ℕ
  pub ecn : ℕ

pub record TcpInfo : Type 0 where
  pub seq : ℕ
  pub ack : ℕ
  pub tsval : ℕ
  pub tsecr : ℕ
  pub sack : ℕ
  pub rwin : ℕ
  pub mss : ℕ
  pub ws : ℕ
  pub flags : ℕ

abbrev pub no_l2_info : L2Info
no_l2_info = record {
  smac = 0 ∷ 0 ∷ 0 ∷ 0 ∷ 0 ∷ 0 ∷ [];
  dmac = 0 ∷ 0 ∷ 0 ∷ 0 ∷ 0 ∷ 0 ∷ [];
  l2hlen = 0;
  vlan_tag = 0;
  mpls_label = [];
}

abbrev pub no_tcp_info : TcpInfo
no_tcp_info = record {
  seq = 0;
  ack = 0;
  tsval = 0;
  tsecr = 0;
  sack = 0;
  rwin = 0;
  mss = 0;
  ws = 0;
  flags = 0;
}

-- The packet buffer, less the capture list and the interface number, which nothing reads.
pub record PBuf : Type 0 where
  pub ptime : ℕ
  pub key : FlowKey
  pub all_header_len : ℕ
  pub iplen : ℕ
  pub ipinfo : IpInfo
  pub tcpinfo : TcpInfo
  pub l2info : L2Info
