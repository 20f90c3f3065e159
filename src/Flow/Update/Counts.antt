-- ===== src/Flow/Update/Counts.antt =====
-- What `yfFlowPBuf` of src/yaftab.c leaves of the counters of the flow table.
use qof.PickQueue.Spec
use qof.Base.{
  Bool, Bool-cases, Option-cases, [], arith, bit_and, false, if◌then◌else◌, inl, inr, length,
  length-append, ltb, refl, true, ℕ, ◌%◌, ◌<◌, ◌==◌, ◌^◌, ◌||◌, ◌∙◌, ◌∷◌, ◌≡◌, ◌≤◌, ◌⊎◌,
}
use qof.Base.Word.{add64, has_bits, sub64}
use qof.Packet.{FlowKey, PBuf}
use qof.Flow.Key.{key_reverse}
use qof.Flow.Table.{
  FlowTab, HashTable, add_flow, end_active, end_closed, end_idle, flow_close, flow_tick, get_node,
  set_node,
}
use qof.Stats.{Double}
use qof.Flow.Update.{
  active_over, check_active, check_idle, count_input, enter_packet, flow_pbuf, settle,
}
use qof.Flow.Record.{FlowNode, state_fin, state_rst}

module _ {R T : Type 0} where
  -- A change that leaves the configuration, the clock and the input counters alone.
  pub record Same (t u : FlowTab R T) : Type 0 where
    pub config : u.config ≡ t.config
    pub ctime : u.ctime ≡ t.ctime
    pub packets : u.stats.stat_packets ≡ t.stats.stat_packets
    pub octets : u.stats.stat_octets ≡ t.stats.stat_octets
    pub rejected : u.stats.stat_seqrej ≡ t.stats.stat_seqrej
    pub flows : u.stats.stat_flows ≡ t.stats.stat_flows

  pub Same-refl : (t : FlowTab R T) → Same t t
  Same-refl t = record {
    config = refl;
    ctime = refl;
    packets = refl;
    octets = refl;
    rejected = refl;
    flows = refl;
  }

  pub Same-trans : {t u v : FlowTab R T} → Same t u → Same u v → Same t v
  Same-trans a b = record {
    config = b.config ∙ a.config;
    ctime = b.ctime ∙ a.ctime;
    packets = b.packets ∙ a.packets;
    octets = b.octets ∙ a.octets;
    rejected = b.rejected ∙ a.rejected;
    flows = b.flows ∙ a.flows;
  }

  -- The close queue is as long as its count says.
  abbrev pub IsCounted : FlowTab R T → Type 0
  IsCounted t = t.cq_count ≡ length t.cq % 2 ^ 32

  -- Both at once, for a step of the table.
  pub record Step (t u : FlowTab R T) : Type 0 where
    pub same : Same t u
    pub counted : IsCounted t → IsCounted u

  pub Step-refl : (t : FlowTab R T) → Step t t
  Step-refl t = record { same = Same-refl t; counted = λ h. h }

  pub Step-trans : {t u v : FlowTab R T} → Step t u → Step u v → Step t v
  Step-trans a b = record {
    same = Same-trans a.same b.same;
    counted = λ h. b.counted (a.counted h);
  }

  pub Step-either :
      (b : Bool) (t u v : FlowTab R T) → Step t u → Step t v → Step t (if b then u else v)
  Step-either true t u v h k = h
  Step-either false t u v h k = k

  module _ (h : HashTable T) where
    pub flow_close-Step : (fn r : ℕ) (t : FlowTab R T) → Step t (flow_close h fn r t)
    unfolding flow_close
    flow_close-Step fn r t = record {
      same = record {
        config = refl;
        ctime = refl;
        packets = refl;
        octets = refl;
        rejected = refl;
        flows = refl;
      };
      counted = λ k. omega (arith, k, length-append t.cq (fn ∷ []));
    }

    flow_tick-Step : (fn : ℕ) (t : FlowTab R T) → Step t (flow_tick h fn t)
    unfolding flow_tick
    flow_tick-Step fn t = Step-either (Spec.head t.aq == fn) _ _ _ (Step-refl t) (record {
      same = record {
        config = refl;
        ctime = refl;
        packets = refl;
        octets = refl;
        rejected = refl;
        flows = refl;
      };
      counted = λ k. k;
    })

    add_flow-Step : (key : FlowKey) (fid : ℕ) (t : FlowTab R T) → Step t (add_flow h key fid t)
    unfolding add_flow
    add_flow-Step key fid t = record {
      same = record {
        config = refl;
        ctime = refl;
        packets = refl;
        octets = refl;
        rejected = refl;
        flows = refl;
      };
      counted = λ k. k;
    }

    get_node-Step : (key : FlowKey) (fid : ℕ) (t : FlowTab R T) → Step t (get_node h key fid t).0
    unfolding get_node
    get_node-Step key fid t = elim (Option-cases (h.find key t.table)) [
      | inr (fn, e) ↦ rw (e, get_node) (Step-refl t)
      | inl e ↦ elim (Option-cases (h.find (key_reverse key) t.table)) [
        | inr (fn, f) ↦ rw (e, f, get_node) (Step-refl t)
        | inl f ↦ rw (e, f, get_node) (add_flow-Step key fid t)
      ]
    ]

    Step-choice :
        (b : Bool) (t : FlowTab R T) (u v : FlowTab R T × ℕ × Bool)
        → Step t u.0
        → Step t v.0
        → Step t (if b then u else v).0
    Step-choice true t u v a b = a
    Step-choice false t u v a b = b

    set_node-Step :
        (t u : FlowTab R T) (fn : ℕ) (n : FlowNode R) → Step t u → Step t (set_node h fn n u)
    set_node-Step t u fn n a = Step-trans a (record {
      same = record {
        config = refl;
        ctime = refl;
        packets = refl;
        octets = refl;
        rejected = refl;
        flows = refl;
      };
      counted = λ k. k;
    })

    reopen-Step :
        (key : FlowKey) (fid fn r : ℕ) (t : FlowTab R T)
        → Step t (get_node h key fid (flow_close h fn r t)).0
    reopen-Step key fid fn r t =
        Step-trans (flow_close-Step fn r t) (get_node-Step key fid (flow_close h fn r t))

  module _ (double : Double R) (h : HashTable T) (pbuf : PBuf) where
    check_active-Step : (r : FlowTab R T × ℕ × Bool) → Step r.0 (check_active double h pbuf r).0
    unfolding check_active
    check_active-Step (t, fn, reverse) =
        let opened = reopen-Step h pbuf.key (t.node fn).f.fid fn end_active t in
        Step-choice h (active_over double h pbuf reverse (t.node fn) t.config) t _ _
          (Step-either t.config.silkmode _ _ _ (set_node-Step h t _ _ _ opened) opened)
          (Step-refl t)

    check_idle-Step : (r : FlowTab R T × ℕ × Bool) → Step r.0 (check_idle double h pbuf r).0
    unfolding check_idle
    check_idle-Step (t, fn, reverse) =
        Step-choice h (ltb t.config.idle_ms (sub64 pbuf.ptime (t.node fn).f.etime)) t _ _
          (reopen-Step h pbuf.key (t.node fn).f.fid fn end_idle t) (Step-refl t)

    settle-Step : (fn : ℕ) (t : FlowTab R T) → Step t (settle double h fn t)
    unfolding settle
    settle-Step fn t =
        Step-either
          ((bit_and (t.node fn).state state_fin == state_fin)
            || has_bits (t.node fn).state state_rst)
          _ _ _ (flow_close-Step h fn end_closed t) (flow_tick-Step h fn t)

    enter_packet-Step : (r : FlowTab R T × ℕ × Bool) → Step r.0 (enter_packet double h pbuf r)
    unfolding enter_packet
    enter_packet-Step (t, fn, reverse) =
        Step-trans (set_node-Step h t t fn _ (Step-refl t)) (settle-Step fn _)

    -- The packet's whole way after the count at the start.
    placed : FlowTab R T → FlowTab R T
    placed t =
        enter_packet double h pbuf
          (check_idle double h pbuf (check_active double h pbuf (get_node h pbuf.key 0 t)))

    placed-Step : (t : FlowTab R T) → Step t (placed t)
    unfolding placed
    placed-Step t =
        Step-trans (get_node-Step h pbuf.key 0 t)
          (Step-trans (check_active-Step _) (Step-trans (check_idle-Step _) (enter_packet-Step _)))

    -- If the close queue is as long as its count says, it is so after a packet. The configuration and
    -- the count of exported flows stay. A packet older than the last one is rejected: nothing but the
    -- count of those changes. Any other sets the clock, and counts as one packet with its octets,
    -- whatever flows it closes.
    pub flow_pbuf-Step :
        (t : FlowTab R T)
        → IsCounted t
        → let u = flow_pbuf double h pbuf t in
          IsCounted u
          × (u.config ≡ t.config)
          × (u.stats.stat_flows ≡ t.stats.stat_flows)
          × (((pbuf.ptime < t.ctime)
                × (u ≡ record t {
                  stats = record (t.stats) { stat_seqrej = add64 t.stats.stat_seqrej 1 };
                }))
              ⊎ ((t.ctime ≤ pbuf.ptime)
                  × (u.ctime ≡ pbuf.ptime)
                  × (u.stats.stat_packets ≡ add64 t.stats.stat_packets 1)
                  × (u.stats.stat_octets ≡ add64 t.stats.stat_octets pbuf.iplen)
                  × (u.stats.stat_seqrej ≡ t.stats.stat_seqrej)))
    unfolding flow_pbuf placed count_input
    flow_pbuf-Step t counted = elim (Bool-cases (ltb pbuf.ptime t.ctime)) [
      | inl e ↦ rw e (counted, refl, refl, inl (ground (arith, e), refl))
      | inr e ↦
          let step = placed-Step (count_input double h pbuf t) in
          rw e (
            step.counted counted,
            step.same.config,
            step.same.flows,
            inr (
              ground (arith, e),
              step.same.ctime,
              step.same.packets,
              step.same.octets,
              step.same.rejected,
            ),
          )
    ]
