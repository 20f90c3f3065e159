-- ===== src/Flow/Record.antt =====
-- `qfTcpVal_t`, `yfFlowVal_t` and `yfFlow_t` of include/qof/yafcore.h and `yfFlowNode_t` of
-- src/yaftab.c, and what a packet does to them.
use qof.Base.{
  Bool, List, Option, false, if◌then◌else◌, ltb, none, not, replicate, some, true, ℕ, ◌&&◌, ◌||◌,
}
use qof.Base.Word.{nonzero}
use qof.Base.Int.{ℤ}
use qof.Stats.{Double, LinSmooth, lin_smooth_init, mean_init}
use qof.Packet.{FlowKey, IpInfo}
use qof.Rtt.{Dir, Rtt}
use qof.Ack.{Ack, Opt, Rwin}
use qof.Seq.Gap.{no_gap, seqgap_ct}
use qof.Seq.State.{Seq}

pub record TcpVal (R : Type 0) : Type 0 where
  pub seq : Seq R
  pub ack : Ack
  pub rwin : Rwin R
  pub opts : Opt

-- `tcp` is `none` for a null pointer. `faulted` is not in the code: it says that a write through the null
-- pointer has happened, on which the program stops.
pub record FlowVal (R : Type 0) : Type 0 where
  pub tcp : Option (TcpVal R)
  pub oct : ℕ
  pub appoct : ℕ
  pub pkt : ℕ
  pub apppkt : ℕ
  pub minttl : ℕ
  pub maxttl : ℕ
  pub iflags : ℕ
  pub uflags : ℕ
  pub net_if : ℕ
  pub faulted : Bool

pub record Flow (R : Type 0) : Type 0 where
  pub fid : ℕ
  pub stime : ℕ
  pub etime : ℕ
  pub rdtime : ℤ
  pub reason : ℕ
  pub source_mac_addr : List ℕ
  pub destination_mac_addr : List ℕ
  pub val : FlowVal R
  pub rval : FlowVal R
  pub rtt : Rtt
  pub key : FlowKey

pub record FlowNode (R : Type 0) : Type 0 where
  pub state : ℕ
  pub f : Flow R

-- The configuration of `yfFlowTab_t`.
pub record Config : Type 0 where
  pub idle_ms : ℕ
  pub active_ms : ℕ
  pub max_flows : ℕ
  pub uniflow : Bool
  pub silkmode : Bool
  pub macmode : Bool
  pub tcp_seq_enable : Bool
  pub tcp_ack_enable : Bool
  pub tcp_rtt_enable : Bool
  pub tcp_rwin_enable : Bool
  pub tcp_opt_enable : Bool
  pub tcp_ts_enable : Bool
  pub tcp_iat_enable : Bool

abbrev pub state_rst : ℕ
state_rst = 0x01

abbrev pub state_ffin : ℕ
state_ffin = 0x10

abbrev pub state_rfin : ℕ
state_rfin = 0x20

abbrev pub state_ffinack : ℕ
state_ffinack = 0x40

abbrev pub state_rfinack : ℕ
state_rfinack = 0x80

abbrev pub state_fin : ℕ
state_fin = 0xf0

-- Whether the first packet of a direction allocates its TCP structure.
abbrev pub allocates : Config → Bool
allocates c =
    c.tcp_seq_enable || c.tcp_ack_enable || c.tcp_rwin_enable || c.tcp_opt_enable || c.tcp_ts_enable
    || c.tcp_iat_enable

-- Zeroed memory.
abbrev pub no_lin_smooth : LinSmooth
no_lin_smooth = lin_smooth_init

abbrev pub no_dir : Dir
no_dir = record { tsack = 0; lms = 0; ackwait = false; ecrwait = false; obs_ms = 0 }

abbrev pub no_rtt : Rtt
no_rtt = record { val = no_lin_smooth; fwd = no_dir; rev = no_dir }

abbrev pub no_val : {R : Type 0} → FlowVal R
no_val = record {
  tcp = none;
  oct = 0;
  appoct = 0;
  pkt = 0;
  apppkt = 0;
  minttl = 0;
  maxttl = 0;
  iflags = 0;
  uflags = 0;
  net_if = 0;
  faulted = false;
}

module _ {R : Type 0} (double : Double R) where
  abbrev pub no_seq : Seq R
  no_seq = record {
    gaps = replicate seqgap_ct no_gap;
    seg_iat = mean_init double;
    seg_variat = mean_init double;
    initlms = 0;
    initsval = 0;
    advlms = 0;
    advtsval = 0;
    isn = 0;
    nsn = 0;
    wrapct = 0;
    lmswrap = 0;
    tsvalwrap = 0;
    rtx = 0;
    ooo = 0;
    maxooo = 0;
    seqlost = 0;
    lossct = 0;
    losslms = 0;
  }

  abbrev pub no_tcp_val : TcpVal R
  no_tcp_val = record {
    seq = no_seq;
    ack = record { fan = 0; fanlms = 0; dup_ct = 0; sel_ct = 0 };
    rwin = record { val = mean_init double; stall = 0; scale = 0 };
    opts = record { flags = 0; mss_opt = 0; mss = 0 };
  }

module _ {R : Type 0} where
  -- The value of a direction: `true` is the reverse one.
  abbrev pub side : Bool → Flow R → FlowVal R
  side reverse f = if reverse then f.rval else f.val

  abbrev pub set_side : Bool → FlowVal R → Flow R → Flow R
  set_side reverse v f = if reverse then record f { rval = v } else record f { val = v }

  -- `yfFlowPktIP`
  unfoldable pub flow_pkt_ip : FlowVal R → IpInfo → FlowVal R
  flow_pkt_ip val ipinfo = record val {
    minttl =
        if not (nonzero val.minttl) || ltb ipinfo.ttl val.minttl then ipinfo.ttl else val.minttl;
    maxttl = if ltb val.maxttl ipinfo.ttl then ipinfo.ttl else val.maxttl;
  }

  abbrev pub is_null : Option (TcpVal R) → Bool
  is_null none = true
  is_null (some t) = false

  -- A write through `val->tcp`, if the test holds; through a null pointer it is a fault.
  abbrev pub on_tcp : Bool → (TcpVal R → TcpVal R) → FlowVal R → FlowVal R
  on_tcp test f val = record val {
    tcp = elim (val.tcp) [ none ↦ none | some t ↦ some (if test then f t else t) ];
    faulted = val.faulted || (test && is_null val.tcp);
  }
