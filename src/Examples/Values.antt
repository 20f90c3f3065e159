-- ===== src/Examples/Values.antt =====
-- Test data: an arithmetic for means, decoder states, packets and a table.
use qof.Packet.Proto
use qof.Base.{Option, [], false, if◌then◌else◌, none, refl, some, true, ℕ}
use qof.Base.Int.{pos, pos_part, ℤ, ◌*ℤ◌, ◌+ℤ◌, ◌-ℤ◌}
use qof.Stats.{Double, div_trunc, lin_smooth_init}
use qof.Packet.{FlowKey, PBuf, no_l2_info, no_tcp_info, v4}
use qof.Rtt.{Dir, Rtt}
use qof.Flow.Key.{key_equal}
use qof.Flow.Record.{Config, FlowNode, no_dir, no_rtt, no_val}
use qof.Flow.Table.{FlowTab, HashTable, IsHashTable}
use qof.Ring.{Ring}

-- Integers in place of floating-point numbers; only division loses something.
abbrev pub int_double : Double ℤ
int_double = record {
  of_int = λ z. z;
  add = λ a b. a +ℤ b;
  sub = λ a b. a -ℤ b;
  mul = λ a b. a *ℤ b;
  div = λ a b. div_trunc a (pos_part b);
}

abbrev pub key_a : FlowKey
key_a = record { sp = 1024; dp = 80; proto = Proto.tcp; version = 4; vlan_id = 0; addr = v4 1 2 }

abbrev pub dir_a : Dir
dir_a = record { tsack = 100; lms = 10; ackwait = true; ecrwait = false; obs_ms = 0 }

abbrev pub rtt_a : Rtt
rtt_a = record { val = lin_smooth_init; fwd = dir_a; rev = no_dir }

abbrev pub ring_a : Ring
ring_a = record {
  elt_sz = 24;
  cap = 3;
  count = 2;
  peak = 2;
  hrsv = 0;
  trsv = 0;
  end = 48;
  head = 24;
  tail = 48;
  interrupt = 0;
}

-- The table as a function of the key.
abbrev pub FunTable : Type 0
FunTable = FlowKey → Option ℕ

abbrev pub fun_table : HashTable FunTable
fun_table = record {
  empty = λ k. none;
  find = λ k t. t k;
  insert = λ j v t. λ k. if key_equal j k then some v else t k;
  remove = λ j t. λ k. if key_equal j k then none else t k;
}

pub fun_table-IsHashTable : IsHashTable fun_table
fun_table-IsHashTable = record {
  find-empty = λ k. refl;
  find-insert = λ k j v t. refl;
  find-remove = λ k j t. refl;
}

abbrev pub config_a : Config
config_a = record {
  idle_ms = 30000;
  active_ms = 300000;
  max_flows = 0;
  uniflow = false;
  silkmode = false;
  macmode = true;
  tcp_seq_enable = true;
  tcp_ack_enable = true;
  tcp_rtt_enable = true;
  tcp_rwin_enable = true;
  tcp_opt_enable = true;
  tcp_ts_enable = true;
  tcp_iat_enable = true;
}

abbrev pub no_node : ℕ → FlowNode ℤ
no_node a = record {
  state = 0;
  f = record {
    fid = 0;
    stime = 0;
    etime = 0;
    rdtime = pos 0;
    reason = 0;
    source_mac_addr = [];
    destination_mac_addr = [];
    val = no_val;
    rval = no_val;
    rtt = no_rtt;
    key = key_a;
  };
}

abbrev pub table_a : FlowTab ℤ FunTable
table_a = record {
  next_fid = 1;
  ctime = 1000;
  flushtime = 0;
  table = λ k. none;
  aq = [];
  cq = [];
  count = 0;
  cq_count = 0;
  config = config_a;
  stats = record {
    stat_octets = 0;
    stat_packets = 0;
    stat_seqrej = 0;
    stat_flows = 0;
    stat_uniflows = 0;
    stat_peak = 0;
    stat_flush = 0;
  };
  node = no_node;
  next_node = 1;
}

abbrev pub packet : (ptime : ℕ) → PBuf
packet ptime = record {
  ptime = ptime;
  key = key_a;
  all_header_len = 54;
  iplen = 140;
  ipinfo = record { ttl = 64; ecn = 0 };
  tcpinfo = record no_tcp_info { seq = 1000; flags = 2 };
  l2info = record no_l2_info { l2hlen = 14 };
}
