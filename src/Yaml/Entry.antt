-- ===== src/Yaml/Entry.antt =====
-- The interface map, the source networks and the source MAC addresses of src/qofconfig.c.
use text.Mathlib.Text.{◌==◌ as same_text}
use Prim.Native.String.{String}
use qof.Base.{Bool, Option, get_or, if◌then◌else◌, ltb, none, not, some, suc, zero, ℕ, ◌==◌, ◌||◌}
use qof.Base.Word.{nonzero, to_u8}
use qof.IfMap.{
  Addr6, IfMap, NetList, add_ipv4_mapping, add_ipv6_mapping, into, net_list_add_ipv4,
  net_list_add_ipv6,
}
use qof.MacList.{MacList, mac_list_add}
use qof.Yaml.Value.{
  Event, Parser, Scan, document_end, document_start, ended, fail, failed, mapping_end,
  mapping_start, next_event, no_addr6, or_done, other, out_of_fuel, parse_key, parse_mac48,
  parse_prefixed_v4, parse_prefixed_v4_or_6, parse_prefixed_v6, parse_u32, return, scalar,
  sequence_end, sequence_start, stream_end, stream_start, undefined, ◌>>=◌,
}

-- The kind of an event, for a comparison.
abbrev pub kind : Event → ℕ
kind stream_start = 1
kind stream_end = 2
kind document_start = 3
kind document_end = 4
kind sequence_start = 7
kind sequence_end = 8
kind mapping_start = 9
kind mapping_end = 10
kind other = 5
kind (scalar t) = 6

unfoldable pub require_event : Event → Parser (Unit {0})
require_event et = do e ← next_event; if kind e == kind et then return tt else fail

-- The variables that one entry of the interface map is read into. They keep their values from one entry
-- to the next but for the addresses.
pub record MapEntry : Type 0 where
  pub v4addr : ℕ
  pub v4mask : ℕ
  pub v6addr : Addr6
  pub v6mask : ℕ
  pub ingress : ℕ
  pub egress : ℕ

abbrev pub set_v4 : MapEntry → ℕ × ℕ → MapEntry
set_v4 m (a, p) = record m { v4addr = a; v4mask = p }

abbrev pub set_v6 : MapEntry → Addr6 × ℕ → MapEntry
set_v6 m (a, p) = record m { v6addr = a; v6mask = p }

module _ (scan : Scan) where
  -- The value of one key. The tests lack `== 0`: the first one holds of every other text.
  unfoldable pub map_entry_value : String → MapEntry → Parser MapEntry
  map_entry_value key m =
      if not (same_text "ip4-net" key)
      then (do v ← parse_prefixed_v4 scan; return (set_v4 m v))
      else (if not (same_text "ip6-net" key)
          then (do v ← parse_prefixed_v6 scan; return (set_v6 m v))
          else (if not (same_text "ingress" key)
              then (do v ← parse_u32 scan; return (record m { ingress = v }))
              else (if not (same_text "egress" key)
                  then (do v ← parse_u32 scan; return (record m { egress = v }))
                  else fail)))

  -- The pairs of keys and values up to the end of the mapping, which ends the loop without an error.
  unfoldable pub map_entry_pairs : ℕ → MapEntry → Parser MapEntry
  map_entry_pairs zero m es = out_of_fuel
  map_entry_pairs (suc fuel) m es =
      or_done (parse_key es) (λ key. map_entry_value key m >>= (λ m'. map_entry_pairs fuel m'))
        (return m)

  abbrev pub after_entry_start : ℕ → MapEntry → Event → Parser MapEntry
  after_entry_start fuel m mapping_start es = map_entry_pairs fuel m es
  after_entry_start fuel m sequence_end es = ended es
  after_entry_start fuel m _ es = failed

  unfoldable pub parse_map_entry : ℕ → MapEntry → Parser MapEntry
  parse_map_entry fuel m = next_event >>= after_entry_start fuel m

  -- What the loop does with an entry: the variables with the addresses reset, and the interface map;
  -- `none` where an insertion is undefined.
  unfoldable pub enter_map_entry : MapEntry → IfMap → Option (MapEntry × IfMap)
  enter_map_entry m ifmap =
      let i = to_u8 m.ingress in
      let e = to_u8 m.egress in
      let has_v6 = nonzero (get_or m.v6addr 0 0) in
      let cleared = record m { v4addr = 0; v6addr = if has_v6 then no_addr6 scan else m.v6addr } in
      into (if nonzero m.v4addr then add_ipv4_mapping ifmap m.v4addr m.v4mask i e else some ifmap)
        (λ with_v4.
          into (if has_v6 then add_ipv6_mapping with_v4 m.v6addr m.v6mask i e else some with_v4)
            (λ with_v6. some (cleared, with_v6)))

  abbrev pub too_large : MapEntry → Bool
  too_large m = ltb 255 m.ingress || ltb 255 m.egress

  -- The body of the loop of entries, before `next`. An interface number above 255 sets an error, with
  -- which the map is refused in the end, whatever comes; that is taken for a failure at once.
  abbrev pub entry_step :
      (next : MapEntry → IfMap → Parser IfMap)
      → (large : Bool) → Option (MapEntry × IfMap)
      → Parser IfMap
  entry_step next large none rest = undefined
  entry_step next large (some (cleared, ifmap)) rest =
      let after = next cleared ifmap rest in if large then failed else after

  abbrev pub entry_loop : (next : MapEntry → IfMap → Parser IfMap) → IfMap → MapEntry → Parser IfMap
  entry_loop next ifmap m' = entry_step next (too_large m') (enter_map_entry m' ifmap)

  unfoldable pub map_entries : ℕ → MapEntry → IfMap → Parser IfMap
  map_entries zero m ifmap es = out_of_fuel
  map_entries (suc fuel) m ifmap es =
      or_done (parse_map_entry fuel m es) (entry_loop (map_entries fuel) ifmap) (return ifmap)

  -- `unset` has the variables' values before they are set.
  unfoldable pub interface_map : ℕ → MapEntry → IfMap → Parser IfMap
  interface_map fuel unset ifmap = do
    start ← require_event sequence_start
    map_entries fuel (record unset { v4addr = 0; v6addr = no_addr6 scan }) ifmap

  abbrev pub enter_net : ℕ × Addr6 × ℕ → NetList → Option NetList
  enter_net (a4, a6, mask) nets =
      into (if nonzero a4 then net_list_add_ipv4 nets a4 mask else some nets)
        (λ nets4. if nonzero (get_or a6 0 0) then net_list_add_ipv6 nets4 a6 mask else some nets4)

  abbrev pub net_loop : (next : NetList → Parser NetList) → Option NetList → Parser NetList
  net_loop next none rest = undefined
  net_loop next (some nets) rest = next nets rest

  unfoldable pub net_entries : ℕ → NetList → Parser NetList
  net_entries zero nets es = out_of_fuel
  net_entries (suc fuel) nets es =
      or_done (parse_prefixed_v4_or_6 scan es) (λ v. net_loop (net_entries fuel) (enter_net v nets))
        (return nets)

  unfoldable pub source_nets : ℕ → NetList → Parser NetList
  source_nets fuel nets = do start ← require_event sequence_start; net_entries fuel nets

  abbrev pub mac_loop : (next : MacList → Parser MacList) → Option MacList → Parser MacList
  mac_loop next none rest = undefined
  mac_loop next (some macs) rest = next macs rest

  unfoldable pub mac_entries : ℕ → MacList → Parser MacList
  mac_entries zero macs es = out_of_fuel
  mac_entries (suc fuel) macs es =
      or_done (parse_mac48 scan es) (λ mac. mac_loop (mac_entries fuel) (mac_list_add macs mac))
        (return macs)

  unfoldable pub source_macs : ℕ → MacList → Parser MacList
  source_macs fuel macs = do start ← require_event sequence_start; mac_entries fuel macs
