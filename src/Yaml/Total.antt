-- ===== src/Yaml/Total.antt =====
-- The parse of a whole document of src/qofconfig.c ends.
use mathlib.Core.Path.{subst}
use Prim.Native.String.{String}
use text.Mathlib.Text.{◌==◌ as same_text}
use qof.Base.{Bool-cases, Option, arith, inl, inr, length, none, some, suc, zero, ℕ, ◌<◌, ◌≢◌, ◌≤◌}
use qof.Yaml.Value.{
  Event, Events, Scan, document_end, document_start, mapping_start, out_of_fuel, parse_bool,
  parse_key, parse_u32, parse_u64, parse_value, sequence_start, stream_end, stream_start,
}
use qof.Yaml.Entry.{MapEntry, interface_map, require_event, source_macs, source_nets}
use qof.Yaml.Features.{Settings, config_ie}
use qof.Yaml.Document.{
  Action, document_key, document_keys, find_action, found_action, key_actions, parse_document,
  parse_template, read_bool, read_u32, read_u64, run_action, template_entries, template_loop,
}
use qof.Yaml.Ends.{
  Within, Within-mono, and_then-Within, or_done-Within, parse_bool-Within, parse_key-Within,
  parse_u32-Within, parse_u64-Within, parse_value-Within, require_event-Within,
}
use qof.Yaml.Loops.{again, interface_map-Within, source_macs-Within, source_nets-Within}

template_loop-Within :
    (fuel n : ℕ) (c : Option Settings) (rest : Events)
    → n < suc fuel
    → ((c : Settings) (es : Events)
        → length es < fuel
        → Within (length es) (template_entries fuel c es))
    → length rest < n
    → Within n (template_loop (template_entries fuel) c rest)
template_loop-Within fuel n none rest h k less = tt
template_loop-Within fuel n (some c) rest h k less =
    again n fuel (template_entries fuel) h k c rest less

template_entries-Within :
    (fuel : ℕ) (c : Settings) (es : Events)
    → length es < fuel
    → Within (length es) (template_entries fuel c es)
unfolding template_entries
template_entries-Within zero c es h = absurd (omega (arith, h))
template_entries-Within (suc fuel) c es h =
    or_done-Within _ (parse_value es) _ _ (parse_value-Within es)
      (λ ie rest h1.
        template_loop-Within fuel _ (config_ie c ie) rest h (template_entries-Within fuel) h1)
      (λ rest h1. h1)

parse_template-Within :
    (fuel : ℕ) (c : Settings) (es : Events)
    → length es < fuel
    → Within (length es) (parse_template fuel c es)
unfolding parse_template
parse_template-Within fuel c es h =
    and_then-Within _ (require_event sequence_start es) _ (require_event-Within sequence_start es)
      (λ u rest h1.
        again _ fuel (template_entries fuel) (omega (arith, h)) (template_entries-Within fuel) _
          rest h1)

module _ (scan : Scan) where
  run_action-Within :
      (a : Action) (c : Settings) (es : Events) → Within (length es) (run_action scan a c es)
  run_action-Within (read_u32 f) c es =
      and_then-Within _ (parse_u32 scan es) _ (parse_u32-Within scan es) (λ n rest h. h)
  run_action-Within (read_u64 f) c es =
      and_then-Within _ (parse_u64 scan es) _ (parse_u64-Within scan es) (λ n rest h. h)
  run_action-Within (read_bool b) c es =
      and_then-Within _ (parse_bool scan es) _ (parse_bool-Within scan es) (λ n rest h. h)

  found_action-Within :
      (o : Option Action) (c : Settings) (es : Events)
      → Within (length es) (found_action scan o c es)
  found_action-Within none c es = tt
  found_action-Within (some a) c es = run_action-Within a c es

  document_key-Within :
      (fuel : ℕ) (unset : MapEntry) (key : String) (c : Settings) (es : Events)
      → length es < fuel
      → Within (length es) (document_key scan fuel unset key c es)
  unfolding document_key
  document_key-Within fuel unset key c es h = elim (Bool-cases (same_text "template" key)) [
    | inl e ↦ rw e (parse_template-Within fuel c es h)
    | inr e ↦ rw e (elim (Bool-cases (same_text "interface-map" key)) [
      | inl e2 ↦ rw e2 (
          and_then-Within _ (interface_map scan fuel unset c.ifmap es) _
            (interface_map-Within scan fuel unset c.ifmap es h) (λ m rest h1. h1))
      | inr e2 ↦ rw e2 (elim (Bool-cases (same_text "source-net" key)) [
        | inl e3 ↦ rw e3 (
            and_then-Within _ (source_nets scan fuel c.srcnets es) _
              (source_nets-Within scan fuel c.srcnets es h) (λ m rest h1. h1))
        | inr e3 ↦ rw e3 (elim (Bool-cases (same_text "source-mac" key)) [
          | inl e4 ↦ rw e4 (
              and_then-Within _ (source_macs scan fuel c.srcmacs es) _
                (source_macs-Within scan fuel c.srcmacs es h) (λ m rest h1. h1))
          | inr e4 ↦ rw e4 (found_action-Within (find_action key key_actions) c es)
        ])
      ])
    ])
  ]

  document_keys-Within :
      (fuel : ℕ) (unset : MapEntry) (c : Settings) (es : Events)
      → length es < fuel
      → Within (length es) (document_keys scan fuel unset c es)
  unfolding document_keys
  document_keys-Within zero unset c es h = absurd (omega (arith, h))
  document_keys-Within (suc fuel) unset c es h =
      or_done-Within _ (parse_key es) _ _ (parse_key-Within es)
        (λ key rest h1.
          and_then-Within _ (document_key scan fuel unset key c rest) _
            (Within-mono _ _ (document_key scan fuel unset key c rest) (omega (arith, h1))
              (document_key-Within fuel unset key c rest (omega (arith, h, h1))))
            (again _ fuel (document_keys scan fuel unset) h (document_keys-Within fuel unset)))
        (λ rest h1. h1)

  -- A wanted event.
  at : (e : Event) (es : Events) (n : ℕ) → length es ≤ n → Within n (require_event e es)
  at e es n h = Within-mono _ n (require_event e es) h (require_event-Within e es)

  parse_document-Within :
      (fuel : ℕ) (unset : MapEntry) (c : Settings) (es : Events)
      → length es < fuel
      → Within (length es) (parse_document scan fuel unset c es)
  unfolding parse_document
  parse_document-Within fuel unset c es h =
      and_then-Within _ (require_event stream_start es) _ (require_event-Within stream_start es)
        (λ u rest h1.
          and_then-Within _ (require_event document_start rest) _
            (at document_start rest _ (omega (arith, h1)))
            (λ u rest h2.
              and_then-Within _ (require_event mapping_start rest) _
                (at mapping_start rest _ (omega (arith, h2)))
                (λ u rest h3.
                  and_then-Within _ (document_keys scan fuel unset c rest) _
                    (Within-mono _ _ (document_keys scan fuel unset c rest) (omega (arith, h3))
                      (document_keys-Within fuel unset c rest (omega (arith, h, h3))))
                    (λ c2 rest h4.
                      and_then-Within _ (require_event document_end rest) _
                        (at document_end rest _ (omega (arith, h4)))
                        (λ u rest h5.
                          and_then-Within _ (require_event stream_end rest) _
                            (at stream_end rest _ (omega (arith, h5))) (λ u rest h6. h6))))))

  -- A document is parsed to an end with more fuel than there are events: the parser returns a
  -- configuration, returns without one, reports an error, or comes to a call that has undefined behaviour; it does not
  -- go round for ever.
  pub parse_document-total :
      (fuel : ℕ) (unset : MapEntry) (c : Settings) (es : Events)
      → length es < fuel
      → parse_document scan fuel unset c es ≢ out_of_fuel
  parse_document-total fuel unset c es h e =
      subst (Within (length es)) e (parse_document-Within fuel unset c es h)
