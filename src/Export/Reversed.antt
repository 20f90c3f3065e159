-- ===== src/Export/Reversed.antt =====
-- What src/yafcore.c writes of a flow that is exported the other way round.
use qof.Base.{Bool, false, if◌then◌else◌, refl, some, true, ℕ, ◌≡◌}
use qof.Packet.{FlowKey, v4}
use qof.Flow.Key.{key_reverse, reverse_addr}
use qof.Flow.Record.{Flow}
use qof.IfMap.{IfMap, before4, egress, ingress}
use qof.IfMap.Order.{IsMap, lookup}
use qof.Export.Record.{Casts, FlowRecord, Writer}
use qof.Export.Write.{
  fill_record, flow_record, interfaces, is_reversed, record_addresses, template_id,
}
use qof.IfMap.Search.{map_search4-lookup}

-- A flow of version 4 with the addresses `s` and `d`, a writer that uses a sorted interface map.
pub record IsMapped (w : Writer) (key : FlowKey) (m : IfMap) (s d : ℕ) : Type 0 where
  pub map : w.if_map ≡ some m
  pub sources : IsMap before4 m.src4map
  pub destinations : IsMap before4 m.dst4map
  pub version : key.version ≡ 4
  pub addresses : key.addr ≡ v4 s d
  pub unmapped : w.map_ipv6 ≡ false

module _ (w : Writer) (key : FlowKey) (m : IfMap) (s d : ℕ) (h : IsMapped w key m s d) where
  ingress-lookup : ingress m key ≡ some (lookup before4 m.src4map s)
  unfolding ingress
  ingress-lookup = rw (h.addresses, h.version) (map_search4-lookup m.src4map s h.sources)

  egress-lookup : egress m key ≡ some (lookup before4 m.dst4map d)
  unfolding egress
  egress-lookup = rw (h.addresses, h.version) (map_search4-lookup m.dst4map d h.destinations)

  turned_addresses :
      (reversed : Bool)
      → record_addresses w.map_ipv6 (if reversed then key_reverse key else key)
        ≡ some (if reversed then v4 d s else v4 s d)
  unfolding record_addresses key_reverse reverse_addr
  turned_addresses true = rw (h.version, h.addresses, h.unmapped) refl
  turned_addresses false = rw (h.version, h.addresses, h.unmapped) refl

module _ {R : Type 0} (casts : Casts R) (w : Writer) (flow : Flow R) (m : IfMap) (s d : ℕ) where
  own_interfaces :
      IsMapped w flow.key m s d
      → (reversed : Bool)
      → interfaces w flow reversed ≡ some (lookup before4 m.src4map s, lookup before4 m.dst4map d)
  unfolding interfaces
  own_interfaces h reversed =
      rw (h.map, interfaces, ingress-lookup w flow.key m s d h, egress-lookup w flow.key m s d h)
        refl

  -- A version 4 flow is written with its addresses exchanged where it is exported the other way round,
  -- but the interface numbers are always those of its own source as ingress and its own destination as
  -- egress, as a sorted interface map gives them, and the MAC addresses are not exchanged either.
  pub flow_record-interfaces :
      IsMapped w flow.key m s d
      → (reversed : Bool) → is_reversed w flow ≡ some reversed
      → (r : FlowRecord) × (wtid : ℕ) × (flow_record casts w flow ≡ some (r, wtid))
        × (r.addresses ≡ some (if reversed then v4 d s else v4 s d))
        × (r.ingress_interface ≡ lookup before4 m.src4map s)
        × (r.egress_interface ≡ lookup before4 m.dst4map d)
        × (r.source_mac_address ≡ flow.source_mac_addr)
        × (r.destination_mac_address ≡ flow.destination_mac_addr)
  unfolding flow_record
  flow_record-interfaces h reversed e =
      let pair : ℕ × ℕ = (lookup before4 m.src4map s, lookup before4 m.dst4map d) in
      let r : FlowRecord = fill_record casts w flow reversed pair in
      (
        r,
        template_id w.force_biflow r,
        rw (flow_record, e, own_interfaces h reversed) refl,
        turned_addresses w flow.key m s d h reversed,
        refl,
        refl,
        refl,
        refl,
      )
