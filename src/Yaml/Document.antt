-- ===== src/Yaml/Document.antt =====
-- The document of src/qofconfig.c: its keys and the template.
use text.Mathlib.Text.{◌==◌ as same_text}
use Prim.Native.String.{String}
use qof.Base.{List, Option, [], if◌then◌else◌, none, some, suc, true, zero, ℕ, ◌∷◌}
use qof.Export.Elements.{export_reset}
use qof.Yaml.Features.{
  Feature, Settings, config_ie, enable, enable_biforce, enable_gre, enable_mac, enable_silk,
}
use qof.Yaml.Value.{
  Parser, Scan, document_end, document_start, fail, failed, mapping_start, or_done, out_of_fuel,
  parse_bool, parse_key, parse_u32, parse_u64, parse_value, return, sequence_start, stream_end,
  stream_start, ◌>>=◌,
}
use qof.Yaml.Entry.{MapEntry, interface_map, require_event, source_macs, source_nets}

abbrev pub template_loop : (next : Settings → Parser Settings) → Option Settings → Parser Settings
template_loop next none rest = failed
template_loop next (some c) rest = next c rest

unfoldable pub template_entries : ℕ → Settings → Parser Settings
template_entries zero c es = out_of_fuel
template_entries (suc fuel) c es =
    or_done (parse_value es) (λ ie. template_loop (template_entries fuel) (config_ie c ie))
      (return c)

unfoldable pub parse_template : ℕ → Settings → Parser Settings
parse_template fuel c = do
  start ← require_event sequence_start
  template_entries fuel (record c { chosen = export_reset })

-- `cfg_key_actions`: what is read for a key, and where it goes.
pub data Action : Type 0 where
  read_u32 read_u64 : (Settings → ℕ → Settings) → Action
  read_bool : Feature → Action

unfoldable pub key_actions : List (String × Action)
key_actions =
    ("active-timeout", read_u32 (λ c n. record c { ato_s = n }))
    ∷ ("idle-timeout", read_u32 (λ c n. record c { ito_s = n }))
    ∷ ("max-flows", read_u32 (λ c n. record c { max_flowtab = n }))
    ∷ ("max-frags", read_u32 (λ c n. record c { max_fragtab = n }))
    ∷ ("active-timeout-octets", read_u64 (λ c n. record c { max_flow_oct = n }))
    ∷ ("active-timeout-packets", read_u64 (λ c n. record c { max_flow_pkt = n }))
    ∷ ("active-timeout-rtts", read_u32 (λ c n. record c { ato_rtts = n }))
    ∷ ("force-biflow", read_bool enable_biforce)
    ∷ ("gre-decap", read_bool enable_gre)
    ∷ ("silk-compatible", read_bool enable_silk)
    ∷ []

abbrev pub find_action : String → List (String × Action) → Option Action
find_action key [] = none
find_action key ((k, a) ∷ actions) = if same_text k key then some a else find_action key actions

module _ (scan : Scan) where
  abbrev pub run_action : Action → Settings → Parser Settings
  run_action (read_u32 f) c = do n ← parse_u32 scan; return (f c n)
  run_action (read_u64 f) c = do n ← parse_u64 scan; return (f c n)
  run_action (read_bool feature) c = do b ← parse_bool scan; return (enable feature b c)

  abbrev pub found_action : Option Action → Settings → Parser Settings
  found_action none c = fail
  found_action (some a) c = run_action a c

  -- The actions of one key.
  unfoldable pub document_key : ℕ → MapEntry → String → Settings → Parser Settings
  document_key fuel unset key c =
      if same_text "template" key
      then parse_template fuel c
      else (if same_text "interface-map" key
          then (do m ← interface_map scan fuel unset c.ifmap; return (record c { ifmap = m }))
          else (if same_text "source-net" key
              then (do nets ← source_nets scan fuel c.srcnets; return (record c { srcnets = nets }))
              else (if same_text "source-mac" key
                  then (do
                    macs ← source_macs scan fuel c.srcmacs
                    return (enable enable_mac true (record c { srcmacs = macs })))
                  else found_action (find_action key key_actions) c)))

  -- The keys of the main mapping, up to its end.
  unfoldable pub document_keys : ℕ → MapEntry → Settings → Parser Settings
  document_keys zero unset c es = out_of_fuel
  document_keys (suc fuel) unset c es =
      or_done (parse_key es)
        (λ key. document_key fuel unset key c >>= (λ c'. document_keys fuel unset c')) (return c)

  unfoldable pub parse_document : ℕ → MapEntry → Settings → Parser Settings
  parse_document fuel unset c = do
    s ← require_event stream_start
    d ← require_event document_start
    m ← require_event mapping_start
    c' ← document_keys fuel unset c
    e ← require_event document_end
    f ← require_event stream_end
    return c'
