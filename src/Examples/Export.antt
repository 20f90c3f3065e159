-- ===== src/Examples/Export.antt =====
-- Flow records and their templates on concrete inputs.
use qof.Base.{[], arith, false, length, none, some, true, ◌∷◌, ◌≡◌, ◌≤◌}
use qof.Base.Int.{pos_part, ℤ}
use qof.Packet.{v4}
use qof.Flow.Record.{Flow}
use qof.IfMap.{IfMap}
use qof.Export.Spec.{fle, internal_spec, rle, ◌of◌for◌}
use qof.Export.Elements.{export_ie, export_ie-matching, export_reset}
use qof.Export.Record.{Casts, FlowRecord, Writer, int16}
use qof.Export.Write.{fill_record, template_id}
use qof.Export.Template.{Announces, template_id-Announces}
use qof.Examples.Values.{key_a, no_node}

export_ie-matching_example :
    (export_ie export_reset "octetDeltaCount"
      ≡ (("octetDeltaCount" of 8 for fle) ∷ ("octetDeltaCount" of 4 for rle) ∷ [], true))
    × (length (export_ie export_reset "octetDeltaCount").0 ≤ 95)
unfolding internal_spec
export_ie-matching_example = export_ie-matching export_reset "octetDeltaCount" (omega arith)

abbrev int_casts : Casts ℤ
int_casts = record { to_u32 = pos_part; to_i16 = int16 }

-- The flow has its source outside 10.0.0.0/8 and its destination inside.
abbrev writer_a : Writer
writer_a = record {
  map_ipv6 = false;
  force_biflow = false;
  if_map = some record {
    src4map = record { a = 1; b = 9; ifnum = 4 } ∷ [];
    dst4map = [];
    src6map = [];
    dst6map = [];
  };
  source_netlist =
      some record { ip4map = record { a = 167772160; b = 184549375; ifnum = 1 } ∷ []; ip6map = [] };
  source_maclist = none;
}

abbrev flow_a : Flow ℤ
flow_a = record ((no_node 1).f) { key = record key_a { addr = v4 1 167772161 } }

abbrev record_a : FlowRecord
record_a = fill_record int_casts writer_a flow_a true (4, 0)

template_id-Announces_example : Announces (template_id false record_a) record_a false
template_id-Announces_example = template_id-Announces record_a false

abbrev map_b : IfMap
map_b = record {
  src4map = record { a = 1; b = 9; ifnum = 4 } ∷ [];
  dst4map = [];
  src6map = [];
  dst6map = [];
}
