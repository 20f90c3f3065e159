-- ===== src/Export/Write.antt =====
-- `yfWriteFlow` of src/yafcore.c: the way round of a flow, its interfaces, and its record and template.
use qof.Packet.Proto
use qof.Base.{
  Bool, List, Option, [], bit_or, false, if◌then◌else◌, ltb, none, not, replicate, some, true, ℕ,
  ◌&&◌, ◌++◌, ◌/◌, ◌==◌, ◌^◌, ◌||◌, ◌∷◌,
}
use qof.Base.Word.{nonzero, to_u8}
use qof.Packet.{Addr, FlowKey, unwritten, v4, v6}
use qof.Flow.Key.{key_reverse}
use qof.Flow.Record.{Flow, side}
use qof.IfMap.{
  Direction, NetList, dir_ext, dir_in, dir_int, dir_out, egress, flow_direction, ingress,
}
use qof.MacList.{MacList, mac_list_contains}
use qof.Export.Spec.{bif, fle, flow_base_tid, ip4, ip6, rle, rle_max, rtt, tcp, tsv}
use qof.Export.Record.{Casts, FlowRecord, SidePart, Writer, rtt_part, side_part}

-- `yaf_ip6map_pfx`, and an address of version 4 behind it, in network order.
abbrev pub ip6map_pfx : List ℕ
ip6map_pfx = replicate 10 0 ++ (0xFF ∷ 0xFF ∷ [])

abbrev pub mapped : ℕ → List ℕ
mapped a =
    ip6map_pfx ++ (to_u8 (a / 2 ^ 24) ∷ to_u8 (a / 2 ^ 16) ∷ to_u8 (a / 2 ^ 8) ∷ to_u8 a ∷ [])

-- No address is set for another version than 4 and 6; the code then sets an error, and goes on.
unfoldable pub record_addresses : Bool → FlowKey → Option Addr
record_addresses map_ipv6 key = elim key.addr [
  | v4 s d ↦
      if key.version == 4
      then some (if map_ipv6 then v6 (mapped s) (mapped d) else v4 s d)
      else none
  | v6 s d ↦ if key.version == 6 then some (v6 s d) else none
  | unwritten ↦ none
]

abbrev pub is_out : Direction → Bool
is_out dir_out = true
is_out dir_in = false
is_out dir_ext = false
is_out dir_int = false

abbrev pub net_out : Option NetList → FlowKey → Option Bool
net_out none key = some false
net_out (some l) key = elim (flow_direction l key) [ none ↦ none | some d ↦ some (is_out d) ]

abbrev pub mac_out : Option MacList → List ℕ → Option Bool
mac_out none mac = some false
mac_out (some l) mac = elim (mac_list_contains l mac) [ none ↦ none | some n ↦ some (nonzero n) ]

-- Whether the flow is exported the other way round; `none` is a read outside a list.
unfoldable pub is_reversed : {R : Type 0} → Writer → Flow R → Option Bool
is_reversed w flow = elim (net_out w.source_netlist flow.key) [
  | none ↦ none
  | some out ↦ elim out [
    | true ↦ some true
    | false ↦ mac_out w.source_maclist flow.destination_mac_addr
  ]
]

-- `qfIfMapAddresses` on the flow's own key, or the numbers that the two directions have.
unfoldable pub interfaces : {R : Type 0} → Writer → Flow R → Bool → Option (ℕ × ℕ)
interfaces w flow reversed = elim w.if_map [
  | none ↦ some ((side reversed flow).net_if, (side (not reversed) flow).net_if)
  | some m ↦ elim (ingress m flow.key) [
    | none ↦ none
    | some i ↦ elim (egress m flow.key) [ none ↦ none | some e ↦ some (i, e) ]
  ]
]

abbrev pub is_tcp : FlowKey → Bool
is_tcp key = key.proto == Proto.tcp

module _ {R : Type 0} (casts : Casts R) where
  abbrev pub fill_record : Writer → Flow R → Bool → ℕ × ℕ → FlowRecord
  fill_record w flow reversed (i, e) =
      let key = if reversed then key_reverse flow.key else flow.key in
      record {
        flow_id = flow.fid;
        flow_start = flow.stime;
        flow_end = flow.etime;
        reverse_flow_delta = flow.rdtime;
        flow_end_reason = flow.reason;
        forward = side_part casts (is_tcp key) (side reversed flow);
        reverse = side_part casts (is_tcp key) (side (not reversed) flow);
        addresses = record_addresses w.map_ipv6 key;
        rtt = rtt_part casts (is_tcp key) flow.rtt;
        source_transport_port = key.sp;
        destination_transport_port = key.dp;
        protocol_identifier = key.proto;
        ingress_interface = i;
        egress_interface = e;
        source_mac_address = flow.source_mac_addr;
        destination_mac_address = flow.destination_mac_addr;
        vlan_id = key.vlan_id;
      }

abbrev pub has_chirp : SidePart → Bool
has_chirp s = elim s.tcp [ none ↦ false | some t ↦ elim t.chirp [ none ↦ false | some c ↦ true ] ]

abbrev pub is_some {ℓ} : {A : Type ℓ} → Option A → Bool
is_some none = false
is_some (some a) = true

abbrev pub address_bit : Option Addr → ℕ
address_bit none = 0
address_bit (some (v4 s d)) = ip4
address_bit (some (v6 s d)) = ip6
address_bit (some unwritten) = 0

abbrev pub is_reduced : FlowRecord → Bool
is_reduced r =
    ltb r.forward.octet_count rle_max
    && ltb r.reverse.octet_count rle_max
    && ltb r.forward.packet_count rle_max
    && ltb r.reverse.packet_count rle_max

-- The bits that the code sets one after the other.
unfoldable pub template_bits : ℕ → (is_tcp has_tsv has_rtt has_bif reduced : Bool) → ℕ
template_bits address is_tcp has_tsv has_rtt has_bif reduced =
    let base = bit_or flow_base_tid address in
    let with_tcp = if is_tcp then bit_or base tcp else base in
    let with_tsv = if has_tsv then bit_or with_tcp tsv else with_tcp in
    let with_rtt = if has_rtt then bit_or with_tsv rtt else with_tsv in
    let with_bif = if has_bif then bit_or with_rtt bif else with_rtt in
    if reduced then bit_or with_bif rle else bit_or with_bif fle

unfoldable pub template_id : Bool → FlowRecord → ℕ
template_id force_biflow r =
    template_bits (address_bit r.addresses) (r.protocol_identifier == Proto.tcp)
      (has_chirp r.forward || has_chirp r.reverse) (is_some r.rtt)
      (force_biflow || nonzero r.reverse.packet_count) (is_reduced r)

module _ {R : Type 0} (casts : Casts R) where
  -- The record and the number of its template.
  unfoldable pub flow_record : Writer → Flow R → Option (FlowRecord × ℕ)
  flow_record w flow = elim (is_reversed w flow) [
    | none ↦ none
    | some reversed ↦ elim (interfaces w flow reversed) [
      | none ↦ none
      | some pair ↦
          let r = fill_record casts w flow reversed pair in some (r, template_id w.force_biflow r)
    ]
  ]

  -- `set_template` and `append` are the calls of libfixbuf, which may fail.
  unfoldable pub write_flow :
      (set_template : ℕ → Bool) (append : FlowRecord → Bool) → Writer → Flow R → Option Bool
  write_flow set_template append w flow = elim (flow_record w flow) [
    | none ↦ none
    | some sent ↦ some (set_template sent.1 && append sent.0)
  ]
