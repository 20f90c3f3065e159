-- ===== src/Flow/Table.antt =====
-- `yfFlowTab_t` of src/yaftab.c: the nodes, the key index, the active and the close queue.
pub mod Biflow
use qof.PickQueue.Spec
use qof.Base.{
  Bool, Option, [], bit_and, bit_or, false, if◌then◌else◌, ltb, none, replicate, some, true, ℕ, ◌+◌,
  ◌==◌, ◌≡◌,
}
use qof.Base.Word.{add32, add64, nonzero, sub32}
use qof.Base.Int.{pos}
use qof.Packet.{FlowKey}
use qof.Flow.Key.{key_equal, key_reverse}
use qof.Flow.Record.{Config, Flow, FlowNode, no_rtt, no_val}

-- What the code uses of a GLib hash table from flow keys to nodes, made with `yfFlowKeyEqual`.
pub record HashTable (T : Type 0) : Type 0 where
  pub empty : T
  pub find : FlowKey → T → Option ℕ
  pub insert : FlowKey → ℕ → T → T
  pub remove : FlowKey → T → T

-- Its documented behaviour.
pub record IsHashTable {T : Type 0} (h : HashTable T) : Type 0 where
  pub find-empty : (k : FlowKey) → h.find k h.empty ≡ none
  pub find-insert :
      (k j : FlowKey) (v : ℕ) (t : T)
      → h.find k (h.insert j v t) ≡ (if key_equal j k then some v else h.find k t)
  pub find-remove :
      (k j : FlowKey) (t : T)
      → h.find k (h.remove j t) ≡ (if key_equal j k then none else h.find k t)

pub record TabStats : Type 0 where
  pub stat_octets : ℕ
  pub stat_packets : ℕ
  pub stat_seqrej : ℕ
  pub stat_flows : ℕ
  pub stat_uniflows : ℕ
  pub stat_peak : ℕ
  pub stat_flush : ℕ

-- A node's address is a number from 1 on; `next_node` has never been allocated.
pub record FlowTab (R T : Type 0) : Type 0 where
  pub next_fid : ℕ
  pub ctime : ℕ
  pub flushtime : ℕ
  pub table : T
  pub aq : Spec.Queue
  pub cq : Spec.Queue
  pub count : ℕ
  pub cq_count : ℕ
  pub config : Config
  pub stats : TabStats
  pub node : ℕ → FlowNode R
  pub next_node : ℕ

abbrev pub end_idle : ℕ
end_idle = 1

abbrev pub end_active : ℕ
end_active = 2

abbrev pub end_closed : ℕ
end_closed = 3

abbrev pub end_forced : ℕ
end_forced = 4

abbrev pub end_resource : ℕ
end_resource = 5

-- `reason &= ~YAF_END_MASK; reason |= r`, on a byte.
unfoldable pub close_reason : (reason r : ℕ) → ℕ
close_reason reason r = bit_or (bit_and reason 0x80) r

module _ {R T : Type 0} (h : HashTable T) where
  abbrev pub node_update : (ℕ → FlowNode R) → ℕ → FlowNode R → ℕ → FlowNode R
  node_update f a v b = if a == b then v else f b

  abbrev pub set_node : ℕ → FlowNode R → FlowTab R T → FlowTab R T
  set_node a v t = record t { node = node_update t.node a v }

  unfoldable pub tab_alloc : Config → (ℕ → FlowNode R) → FlowTab R T
  tab_alloc c unused = record {
    next_fid = 1;
    ctime = 0;
    flushtime = 0;
    table = h.empty;
    aq = [];
    cq = [];
    count = 0;
    cq_count = 0;
    config = c;
    stats = record {
      stat_octets = 0;
      stat_packets = 0;
      stat_seqrej = 0;
      stat_flows = 0;
      stat_uniflows = 0;
      stat_peak = 0;
      stat_flush = 0;
    };
    node = unused;
    next_node = 1;
  }

  -- `yfFlowTick`
  unfoldable pub flow_tick : ℕ → FlowTab R T → FlowTab R T
  flow_tick fn t =
      if Spec.head t.aq == fn then t else record t { aq = Spec.enq (Spec.pick t.aq fn) fn }

  -- `yfFlowClose`
  unfoldable pub flow_close : ℕ → ℕ → FlowTab R T → FlowTab R T
  flow_close fn r t =
      let n = t.node fn in
      let closed = record n { f = record (n.f) { reason = close_reason n.f.reason r } } in
      record (set_node fn closed t) {
        table = h.remove n.f.key t.table;
        aq = Spec.pick t.aq fn;
        cq = Spec.enq t.cq fn;
        cq_count = add32 t.cq_count 1;
        count = sub32 t.count 1;
      }

  -- A new node, as the first one of its key.
  unfoldable pub new_flow : FlowTab R T → FlowKey → (cont_fid : ℕ) → Flow R
  new_flow t key cont_fid = record {
    fid = if nonzero cont_fid then cont_fid else t.next_fid;
    stime = t.ctime;
    etime = t.ctime;
    rdtime = pos 0;
    reason = 0;
    source_mac_addr = replicate 6 0;
    destination_mac_addr = replicate 6 0;
    val = no_val;
    rval = no_val;
    rtt = no_rtt;
    key = key;
  }

  unfoldable pub add_flow : FlowKey → (cont_fid : ℕ) → FlowTab R T → FlowTab R T
  add_flow key cont_fid t =
      let fn = t.next_node in
      let count' = add32 t.count 1 in
      record (set_node fn (record { state = 0; f = new_flow t key cont_fid }) t) {
        next_fid = if nonzero cont_fid then t.next_fid else add64 t.next_fid 1;
        table = h.insert key fn t.table;
        count = count';
        stats = record (t.stats) {
          stat_peak = if ltb t.stats.stat_peak count' then count' else t.stats.stat_peak;
        };
        next_node = fn + 1;
      }

  -- `yfFlowGetNode`: the node, and whether the key is the reverse of the node's.
  unfoldable pub get_node : FlowKey → (cont_fid : ℕ) → FlowTab R T → FlowTab R T × ℕ × Bool
  get_node key cont_fid t = elim (h.find key t.table) [
    | some fn ↦ (t, fn, false)
    | none ↦ elim (h.find (key_reverse key) t.table) [
      | some fn ↦ (t, fn, true)
      | none ↦ (add_flow key cont_fid t, t.next_node, false)
    ]
  ]
