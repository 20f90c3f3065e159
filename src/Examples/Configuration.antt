-- ===== src/Examples/Configuration.antt =====
-- Configuration files on concrete inputs.
use Prim.Native.String.{String}
use text.Mathlib.Text.{◌==◌ as same_text, starts_with}
use qof.Base.{List, [], arith, false, if◌then◌else◌, none, refl, some, ◌*◌, ◌∷◌, ◌≡◌, ◌≢◌}
use qof.IfMap.{if_map_init}
use qof.Export.Elements.{export_reset}
use qof.Yaml.Value.{
  Events, Scan, document_end, document_start, failed, got, mapping_end, mapping_start, next_event,
  no_addr6, out_of_fuel, parse_key, parse_prefixed_v4, parse_value, scalar, sequence_end,
  sequence_start, stream_end, stream_start,
}
use qof.Yaml.Entry.{MapEntry, map_entry_pairs, map_entry_value, require_event}
use qof.Yaml.Features.{Settings}
use qof.Yaml.Document.{parse_document}
use qof.Yaml.Interfaces.{Numbered, map_entry_pairs-numbers}
use qof.Yaml.Total.{parse_document-total}

-- Scans that know a few texts.
abbrev scan_a : Scan
scan_a = record {
  u32 = λ t. if same_text t "10" then some 10 else none;
  u64 = λ t. if same_text t "10" then some 10 else none;
  v4 = λ t. if starts_with t "10." then some (t, none) else none;
  v6 = λ t. none;
  mac = λ t. none;
  pton4 = λ t. if same_text t "10.0.0.0" then some 10 else none;
  pton6 = λ t. none;
  ntohl = λ n. n * 16777216;
}

abbrev entry_a : MapEntry
entry_a = record {
  v4addr = 0;
  v4mask = 0;
  v6addr = no_addr6 scan_a;
  v6mask = 0;
  ingress = 7;
  egress = 8;
}

abbrev settings_a : Settings
settings_a = record {
  enabled = λ f. false;
  ato_s = 300;
  ito_s = 30;
  max_flowtab = 1048576;
  max_fragtab = 262144;
  max_flow_oct = 0;
  max_flow_pkt = 0;
  ato_rtts = 0;
  ifmap = if_map_init;
  srcnets = record { ip4map = []; ip6map = [] };
  srcmacs = [];
  chosen = export_reset;
}

abbrev scalars : List String → Events → Events
scalars [] rest = rest
scalars (t ∷ ts) rest = some (scalar t) ∷ scalars ts rest

abbrev pairs_a : Events
pairs_a = scalars ("ingress" ∷ "10.0.0.0" ∷ []) (some mapping_end ∷ [])

-- The number of the ingress interface is read as an address.
pairs_a_read :
    map_entry_pairs scan_a 2 entry_a pairs_a ≡ got (record entry_a { v4addr = 10; v4mask = 32 }) []
unfolding map_entry_pairs map_entry_value parse_key parse_value next_event parse_prefixed_v4
pairs_a_read = refl

map_entry_pairs-numbers_example : Numbered entry_a (map_entry_pairs scan_a 2 entry_a pairs_a)
map_entry_pairs-numbers_example = map_entry_pairs-numbers scan_a 2 entry_a pairs_a

abbrev document_a : Events
document_a =
    some stream_start
    ∷ some document_start
    ∷ some mapping_start
    ∷ scalars ("active-timeout" ∷ "10" ∷ "template" ∷ []) (
        some sequence_start
        ∷ scalars ("flowStartMilliseconds" ∷ [])
            (some sequence_end ∷ some mapping_end ∷ some document_end ∷ some stream_end ∷ []))

parse_document-total_example : parse_document scan_a 13 entry_a settings_a document_a ≢ out_of_fuel
parse_document-total_example =
    parse_document-total scan_a 13 entry_a settings_a document_a (omega arith)

-- The text of a file that ends in the middle is refused.
document_b_failed : parse_document scan_a 3 entry_a settings_a (some stream_start ∷ []) ≡ failed
unfolding parse_document require_event next_event
document_b_failed = refl
