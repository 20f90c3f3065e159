-- ===== src/Examples/Flows.antt =====
-- The flow table on a first packet.
use qof.Base.{arith, false, inl, refl, true, ◌*◌, ◌+◌, ◌<◌, ◌≡◌, ◌≤◌, ◌⊎◌}
use qof.Base.Int.{ℤ}
use qof.Base.Word.{add64}
use qof.Packet.{FlowKey}
use qof.Flow.Record.{side}
use qof.Flow.Tcp.{flow_pkt_tcp}
use qof.Flow.Allocated.{flow_pkt_tcp-has_tcp, has_tcp, tracks}
use qof.Flow.Key.{Load, key_equal, key_hash, key_reverse, reverse_addr}
use qof.Flow.Key.Contract.{IsKey, key_hash-key_equal, key_reverse-key_reverse}
use qof.Flow.Table.{FlowTab, get_node}
use qof.Flow.Table.Biflow.{get_node-biflow}
use qof.Flow.Update.{flow_pbuf}
use qof.Flow.Update.Counts.{IsCounted, flow_pbuf-Step}
use qof.Examples.Values.{
  FunTable, config_a, fun_table, fun_table-IsHashTable, int_double, key_a, no_node, packet, table_a,
}

abbrev after_packet : FlowTab ℤ FunTable
after_packet = flow_pbuf int_double fun_table (packet 2000) table_a

flow_pbuf-Step_example :
    IsCounted after_packet
    × (after_packet.config ≡ config_a)
    × (after_packet.stats.stat_flows ≡ 0)
    × (((2000 < 1000)
          × (after_packet
              ≡ record table_a { stats = record (table_a.stats) { stat_seqrej = add64 0 1 } }))
        ⊎ ((1000 ≤ 2000)
            × (after_packet.ctime ≡ 2000)
            × (after_packet.stats.stat_packets ≡ add64 0 1)
            × (after_packet.stats.stat_octets ≡ add64 0 140)
            × (after_packet.stats.stat_seqrej ≡ 0)))
flow_pbuf-Step_example = flow_pbuf-Step int_double fun_table (packet 2000) table_a refl

key_a-IsKey : IsKey key_a
key_a-IsKey = inl (refl, (1, 2, refl))

key_a_two : key_equal key_a (key_reverse key_a) ≡ false
unfolding key_equal key_reverse reverse_addr
key_a_two = refl

get_node-biflow_example :
    let u = (get_node fun_table key_a 0 table_a).0 in
    ((get_node fun_table key_a 0 table_a).1 ≡ 1)
    × ((get_node fun_table key_a 0 table_a).2 ≡ false)
    × (get_node fun_table key_a 0 u ≡ (u, 1, false))
    × (get_node fun_table (key_reverse key_a) 0 u ≡ (u, 1, true))
get_node-biflow_example =
    get_node-biflow fun_table fun_table-IsHashTable key_a 0 table_a key_a-IsKey refl refl key_a_two

-- A little-endian load.
abbrev load_le : Load
load_le b0 b1 b2 b3 = b0 + 256 * (b1 + 256 * (b2 + 256 * b3))

-- The bits of the VLAN identifier above the lowest twelve do not count.
abbrev key_b : FlowKey
key_b = record key_a { vlan_id = 4096 }

key_a_b : key_equal key_a key_b ≡ true
unfolding key_equal
key_a_b = refl

key_b_a : key_equal key_b key_a ≡ true
unfolding key_equal
key_b_a = refl

key_hash-key_equal_example : key_hash load_le 0 key_a ≡ key_hash load_le 0 key_b
key_hash-key_equal_example = key_hash-key_equal load_le 0 key_a key_b key_a_b

key_reverse-key_reverse_example : key_reverse (key_reverse key_a) ≡ key_a
key_reverse-key_reverse_example = key_reverse-key_reverse key_a (inl refl)

flow_pkt_tcp-has_tcp_example :
    let after =
      flow_pkt_tcp int_double config_a 2000 true
        (packet 2000).tcpinfo
        (packet 2000).ipinfo
        86
        (no_node 1) in
    ((side true after.f).faulted ≡ false)
    × (tracks config_a ≡ true → has_tcp (side true after.f) ≡ true)
    × (side false after.f ≡ side false (no_node 1).f)
flow_pkt_tcp-has_tcp_example =
    flow_pkt_tcp-has_tcp int_double config_a 2000 (packet 2000).tcpinfo (packet 2000).ipinfo 86
      (no_node 1) true refl (λ on some_packet. absurd (ground (arith, some_packet)))
