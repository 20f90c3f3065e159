-- ===== src/Flow/Index/Update.antt =====
-- `yfFlowPBuf` of src/yaftab.c keeps the key index and the queues in step, on every path.
use qof.Base.{Bool, bit_and, false, if◌then◌else◌, ltb, refl, true, ℕ, ◌==◌, ◌||◌}
use qof.Base.Word.{add64, has_bits, sub64}
use qof.Packet.{FlowKey, PBuf}
use qof.Stats.{Double}
use qof.Flow.Key.Contract.{IsKey}
use qof.Flow.Record.{state_fin, state_rst}
use qof.Flow.Table.{
  FlowTab, HashTable, IsHashTable, end_active, end_closed, end_idle, flow_close, get_node,
}
use qof.Flow.Update.{
  active_over, check_active, check_idle, count_input, enter_packet, flow_pbuf, settle,
}
use qof.Flow.Index.{IsTable}
use qof.Flow.Index.Keys.{update_node-key}
use qof.Flow.Index.Packet.{
  Placed, count_input-IsTable, flow_close-IsTable, flow_tick-IsTable, get_node-Placed,
  restat-IsTable, set_node-Placed,
}

module _ {R T : Type 0} (h : HashTable T) where
  choose-Placed :
      (b : Bool) (u v : FlowTab R T × ℕ × Bool)
      → Placed h u.0 u.1
      → Placed h v.0 v.1
      → Placed h (if b then u else v).0 (if b then u else v).1
  choose-Placed true u v p q = p
  choose-Placed false u v p q = q

  either-Placed :
      (b : Bool) (t u : FlowTab R T) (fn : ℕ)
      → Placed h t fn
      → Placed h u fn
      → Placed h (if b then t else u) fn
  either-Placed true t u fn p q = p
  either-Placed false t u fn p q = q

  either-IsTable :
      (b : Bool) (t u : FlowTab R T) → IsTable h t → IsTable h u → IsTable h (if b then t else u)
  either-IsTable true t u p q = p
  either-IsTable false t u p q = q

module _ {R T : Type 0} (double : Double R) (h : HashTable T) (table : IsHashTable h) where
  reopen-Placed :
      (key : FlowKey) (fid fn r : ℕ) (t : FlowTab R T)
      → IsKey key
      → Placed h t fn
      → let u = get_node h key fid (flow_close h fn r t) in Placed h u.0 u.1
  reopen-Placed key fid fn r t is_key p =
      get_node-Placed h table key fid (flow_close h fn r t) is_key
        (flow_close-IsTable h table fn r t p)

  module _ (pbuf : PBuf) (is_key : IsKey pbuf.key) where
    check_active-Placed :
        (s : FlowTab R T × ℕ × Bool)
        → Placed h s.0 s.1
        → let u = check_active double h pbuf s in Placed h u.0 u.1
    unfolding check_active
    check_active-Placed (t, fn, reverse) p =
        let u = get_node h pbuf.key (t.node fn).f.fid (flow_close h fn end_active t) in
        let n = u.0.node u.1 in
        let continued = record n { f = record (n.f) { reason = 0x80 } } in
        let again = reopen-Placed pbuf.key (t.node fn).f.fid fn end_active t is_key p in
        choose-Placed h (active_over double h pbuf reverse (t.node fn) t.config) _ _
          (either-Placed h t.config.silkmode _ _ u.1
            (set_node-Placed h table u.0 u.1 continued refl again) again)
          p

    check_idle-Placed :
        (s : FlowTab R T × ℕ × Bool)
        → Placed h s.0 s.1
        → let u = check_idle double h pbuf s in Placed h u.0 u.1
    unfolding check_idle
    check_idle-Placed (t, fn, reverse) p =
        choose-Placed h (ltb t.config.idle_ms (sub64 pbuf.ptime (t.node fn).f.etime)) _ _
          (reopen-Placed pbuf.key (t.node fn).f.fid fn end_idle t is_key p) p

    settle-IsTable : (fn : ℕ) (t : FlowTab R T) → Placed h t fn → IsTable h (settle double h fn t)
    unfolding settle
    settle-IsTable fn t p =
        either-IsTable h
          ((bit_and (t.node fn).state state_fin == state_fin)
            || has_bits (t.node fn).state state_rst)
          _ _ (flow_close-IsTable h table fn end_closed t p) (flow_tick-IsTable h table fn t p)

    enter_packet-IsTable :
        (s : FlowTab R T × ℕ × Bool) → Placed h s.0 s.1 → IsTable h (enter_packet double h pbuf s)
    unfolding enter_packet
    enter_packet-IsTable (t, fn, reverse) p = settle-IsTable fn _ (
        set_node-Placed h table t fn _ (update_node-key double t.config pbuf reverse (t.node fn)) p)

    pub flow_pbuf-IsTable : (t : FlowTab R T) → IsTable h t → IsTable h (flow_pbuf double h pbuf t)
    unfolding flow_pbuf
    flow_pbuf-IsTable t i =
        let rejected = record t {
          stats = record (t.stats) { stat_seqrej = add64 t.stats.stat_seqrej 1 };
        } in
        let counted = count_input-IsTable h table double pbuf t i in
        either-IsTable h (ltb pbuf.ptime t.ctime) rejected _
          (restat-IsTable h table _ t.ctime t.flushtime t.cq_count t i)
          (enter_packet-IsTable _ (
            check_idle-Placed _ (
              check_active-Placed _
                (get_node-Placed h table pbuf.key 0 (count_input double h pbuf t) is_key counted))))
