-- ===== src/Fragment.antt =====
-- src/yafrag.c: the assembly of fragmented packets. The key, the records, the table.
pub mod Assemble
pub mod Covered
pub mod Short
pub mod Outcome
pub mod Keys
use qof.PickQueue.Spec
use qof.Base.{
  Bool, List, Option, [], bit_xor, false, if◌then◌else◌, ltb, none, replicate, some, ℕ, ◌&&◌, ◌*◌,
  ◌+◌, ◌==◌, ◌^◌, ◌||◌,
}
use qof.Base.Word.{add32, sub32}
use qof.Base.Int.{sub_ℕ, ℤ}
use qof.Packet.{FlowKey, IpFragInfo, L2Info, TcpInfo, no_l2_info, no_tcp_info}
use qof.Flow.Key.{Load, addr_equal4, addr_equal6, hash_addr}

abbrev pub frag_l4h_max : ℕ
frag_l4h_max = 134

abbrev pub frag_timeout : ℕ
frag_timeout = 30000

abbrev pub frag_prune_delay : ℕ
frag_prune_delay = 5000

-- `yfFragRec_t`
pub record FragRec : Type 0 where
  pub off : ℕ
  pub len : ℕ

-- `yfFragKey_t`
pub record FragKey : Type 0 where
  pub ipid : ℕ
  pub f : FlowKey

-- `yfFragNode_t`, less its links, which the queue has, and the table.
pub record FragNode : Type 0 where
  pub last_ctime : ℕ
  pub have_first : Bool
  pub have_last : Bool
  pub have_l4hdr : Bool
  pub key : FragKey
  pub tcpinfo : TcpInfo
  pub l2info : L2Info
  pub iplen : ℕ
  pub records : List FragRec
  pub paylen : ℕ
  pub payoff : ℕ
  pub payload : List ℕ

-- `yfFragTabStats_st`
pub record FragStats : Type 0 where
  pub stat_frags : ℕ
  pub stat_seqrej : ℕ
  pub stat_packets : ℕ
  pub stat_dropped : ℕ
  pub stat_peak : ℕ

unfoldable pub frag_key_hash : Load → (stack : ℕ) → FragKey → ℕ
frag_key_hash load stack k =
    bit_xor k.ipid
      (bit_xor (k.f.proto * 2 ^ 12) (bit_xor (k.f.version * 2 ^ 4) (hash_addr load stack k.f.addr)))

unfoldable pub frag_key_equal : FragKey → FragKey → Bool
frag_key_equal a b =
    if (a.f.version == b.f.version) && (a.ipid == b.ipid) && (a.f.proto == b.f.proto)
    then ((a.f.version == 4) && addr_equal4 a.f.addr b.f.addr)
      || ((a.f.version == 6) && addr_equal6 a.f.addr b.f.addr)
    else false

-- The `int` that orders two records.
unfoldable pub frag_sort_by_offset : FragRec → FragRec → ℤ
frag_sort_by_offset a b = sub_ℕ a.off b.off

-- What the code uses of a GLib hash table from fragment keys to nodes, made with `yfFragKeyEqual`, and
-- of the sort of a GLib array by a comparison.
pub record Glib (T : Type 0) : Type 0 where
  pub empty : T
  pub find : FragKey → T → Option ℕ
  pub insert : FragKey → ℕ → T → T
  pub remove : FragKey → T → T
  pub sort : (FragRec → FragRec → ℤ) → List FragRec → List FragRec

-- `yfFragTab_t`. A node's address is a number from 1 on; `next_node` has never been allocated.
pub record FragTab (T : Type 0) : Type 0 where
  pub ctime : ℕ
  pub prunetime : ℕ
  pub table : T
  pub fraq : Spec.Queue
  pub count : ℕ
  pub assembled : ℕ
  pub idle_ms : ℕ
  pub max_frags : ℕ
  pub stats : FragStats
  pub node : ℕ → FragNode
  pub next_node : ℕ

abbrev pub no_stats : FragStats
no_stats = record {
  stat_frags = 0;
  stat_seqrej = 0;
  stat_packets = 0;
  stat_dropped = 0;
  stat_peak = 0;
}

-- A zeroed node with its key and its payload buffer.
abbrev pub new_frag : FragKey → (ctime : ℕ) → FragNode
new_frag key ctime = record {
  last_ctime = ctime;
  have_first = false;
  have_last = false;
  have_l4hdr = false;
  key = key;
  tcpinfo = no_tcp_info;
  l2info = no_l2_info;
  iplen = 0;
  records = [];
  paylen = 0;
  payoff = 0;
  payload = replicate frag_l4h_max 0;
}

module _ {T : Type 0} (g : Glib T) where
  unfoldable pub frag_tab_alloc : (idle_ms max_frags : ℕ) → (ℕ → FragNode) → FragTab T
  frag_tab_alloc idle_ms max_frags unused = record {
    ctime = 0;
    prunetime = 0;
    table = g.empty;
    fraq = [];
    count = 0;
    assembled = 0;
    idle_ms = idle_ms;
    max_frags = max_frags;
    stats = no_stats;
    node = unused;
    next_node = 1;
  }

  abbrev pub node_write : ℕ → FragNode → FragTab T → FragTab T
  node_write a v t = record t { node = λ b. if a == b then v else t.node b }

  abbrev pub found_node : ℕ → FragTab T → FragTab T
  found_node fn t =
      node_write fn (record (t.node fn) { last_ctime = t.ctime })
        (record t { fraq = Spec.enq (Spec.pick t.fraq fn) fn })

  abbrev pub made_node : FragKey → FragTab T → FragTab T
  made_node key t =
      let fn = t.next_node in
      let count = add32 t.count 1 in
      node_write fn (new_frag key t.ctime) (record t {
        fraq = Spec.enq t.fraq fn;
        table = g.insert key fn t.table;
        next_node = fn + 1;
        count = count;
        stats = record (t.stats) {
          stat_peak = if ltb t.stats.stat_peak count then count else t.stats.stat_peak;
        };
      })

  -- `yfFragGetNode`: the address of the node, and the table.
  unfoldable pub frag_get_node : FlowKey → IpFragInfo → FragTab T → ℕ × FragTab T
  frag_get_node flowkey fraginfo t =
      let key : FragKey = record { ipid = fraginfo.ipid; f = flowkey } in
      elim (g.find key t.table) [
        | some fn ↦ (fn, found_node fn t)
        | none ↦ (t.next_node, made_node key t)
      ]

  unfoldable pub frag_remove_node : ℕ → Bool → FragTab T → FragTab T
  frag_remove_node fn drop_it t =
      let removed = record t {
        table = g.remove (t.node fn).key t.table;
        fraq = Spec.pick t.fraq fn;
        count = sub32 t.count 1;
      } in
      if drop_it
      then record removed {
        stats = record (t.stats) { stat_dropped = add32 t.stats.stat_dropped 1 };
      }
      else record removed {
        stats = record (t.stats) { stat_packets = add32 t.stats.stat_packets 1 };
        assembled = fn;
      }
