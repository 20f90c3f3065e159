-- ===== src/Examples/Tables.antt =====
-- The flow table from its allocation on, on concrete inputs.
use qof.Base.{[], inl, none, refl, true, ℕ, ◌+◌, ◌≡◌}
use qof.Base.Int.{ℤ}
use qof.Packet.{FlowKey}
use qof.Flow.Tcp.{fin_state, flow_pkt_tcp, tcp_first, tcp_later, tcp_state}
use qof.Flow.Table.{FlowTab, add_flow, flow_close, flow_tick, get_node, new_flow, tab_alloc}
use qof.Flow.Update.{
  active_over, check_active, check_idle, count_input, count_packet, enter_packet, flow_pbuf, settle,
  update_node,
}
use qof.Flow.Update.Counts.{IsCounted}
use qof.Flow.Flush.{
  Write, close_flows, close_while, flush_closed, tab_flush, uniflow, uniflow_reverse, write_records,
}
use qof.Flow.Index.{IsTable}
use qof.Flow.Index.Reach.{Reach, Reach-IsTable, Reach-drained, enter, here, next}
use qof.Examples.Values.{
  FunTable, config_a, fun_table, fun_table-IsHashTable, int_double, no_node, packet,
}
use qof.Flow.Key.{key_equal, key_reverse}

-- A writer that counts the records.
abbrev counting : Write ℤ ℕ
counting w f = (true, w + 1)

abbrev start : FlowTab ℤ FunTable × ℕ
start = (tab_alloc fun_table config_a no_node, 0)

abbrev after_one : FlowTab ℤ FunTable × ℕ
after_one = (flow_pbuf int_double fun_table (packet 2000) (start.0), 0)

one_packet : Reach int_double fun_table counting start after_one
one_packet = next here (enter (packet 2000) (inl (refl, (1, 2, refl))) refl)

Reach-IsTable_example : IsTable fun_table (after_one.0) × IsCounted (after_one.0)
Reach-IsTable_example =
    Reach-IsTable int_double fun_table counting fun_table-IsHashTable config_a no_node 0 after_one
      one_packet

drains : (tab_flush fun_table counting true (after_one.0) 0).0 ≡ true
unfolding tab_flush close_flows close_while flow_close flush_closed write_records flow_pbuf
    count_input get_node add_flow new_flow check_active active_over check_idle enter_packet settle
    flow_tick update_node flow_pkt_tcp tcp_first tcp_later tcp_state fin_state uniflow
    uniflow_reverse count_packet tab_alloc key_equal key_reverse
drains = refl

Reach-drained_example :
    let u = (tab_flush fun_table counting true (after_one.0) 0).1 in
    (u.aq ≡ []) × (u.cq ≡ []) × ((k : FlowKey) → fun_table.find k u.table ≡ none)
Reach-drained_example =
    Reach-drained int_double fun_table counting fun_table-IsHashTable config_a no_node 0 after_one
      one_packet drains
