-- ===== src/Yaml/Loops.antt =====
-- The loops of src/qofconfig.c end: each takes an event before it goes round.
use Prim.Native.String.{String}
use text.Mathlib.Text.{◌==◌ as same_text}
use qof.Base.{
  Bool, Bool-cases, Option, arith, false, if◌then◌else◌, inl, inr, length, none, some, suc, true,
  zero, ℕ, ◌<◌,
}
use qof.IfMap.{IfMap, NetList}
use qof.Yaml.Value.{
  Event, Events, Parsed, Parser, Scan, document_end, document_start, failed, mapping_end,
  mapping_start, next_event, other, parse_key, parse_mac48, parse_prefixed_v4,
  parse_prefixed_v4_or_6, parse_prefixed_v6, parse_u32, scalar, sequence_end, sequence_start,
  stream_end, stream_start,
}
use qof.Yaml.Entry.{
  MapEntry, after_entry_start, enter_map_entry, enter_net, entry_step, interface_map, mac_entries,
  mac_loop, map_entries, map_entry_pairs, map_entry_value, net_entries, net_loop, parse_map_entry,
  require_event, source_macs, source_nets, too_large,
}
use qof.Yaml.Ends.{
  Within, Within-mono, and_then-Within, next_event-Within, or_done-Within, parse_key-Within,
  parse_mac48-Within, parse_prefixed_v4-Within, parse_prefixed_v4_or_6-Within,
  parse_prefixed_v6-Within, parse_u32-Within, require_event-Within,
}
use qof.MacList.{MacList, mac_list_add}

module _ {ℓ} {A : Type ℓ} where
  pub if-Within :
      (n : ℕ) (t : Bool) (r s : Parsed A) → Within n r → Within n s → Within n (if t then r else s)
  if-Within n true r s h k = h
  if-Within n false r s h k = k

-- The next round of a loop on less fuel, after fewer than `n` events are left.
pub again {ℓ κ} :
    {A : Type ℓ} {B : Type κ} (n fuel : ℕ) (next : A → Parser B)
    → n < suc fuel
    → ((a : A) (es : Events) → length es < fuel → Within (length es) (next a es))
    → (a : A) (rest : Events) → length rest < n
    → Within n (next a rest)
again n fuel next h k a rest less =
    Within-mono _ n (next a rest) (omega (arith, less)) (k a rest (omega (arith, h, less)))

module _ (scan : Scan) where
  pub map_entry_value-Within :
      (key : String) (m : MapEntry) (es : Events)
      → Within (length es) (map_entry_value scan key m es)
  unfolding map_entry_value
  map_entry_value-Within key m es = elim (Bool-cases (same_text "ip4-net" key)) [
    | inr e ↦ rw e (
        and_then-Within _ (parse_prefixed_v4 scan es) _ (parse_prefixed_v4-Within scan es)
          (λ v rest h. h))
    | inl e ↦ rw e (elim (Bool-cases (same_text "ip6-net" key)) [
      | inr e2 ↦ rw e2 (
          and_then-Within _ (parse_prefixed_v6 scan es) _ (parse_prefixed_v6-Within scan es)
            (λ v rest h. h))
      | inl e2 ↦ rw e2 (elim (Bool-cases (same_text "ingress" key)) [
        | inr e3 ↦
            rw e3
              (and_then-Within _ (parse_u32 scan es) _ (parse_u32-Within scan es) (λ v rest h. h))
        | inl e3 ↦ rw e3 (elim (Bool-cases (same_text "egress" key)) [
          | inr e4 ↦
              rw e4
                (and_then-Within _ (parse_u32 scan es) _ (parse_u32-Within scan es) (λ v rest h. h))
          | inl e4 ↦ rw e4 tt
        ])
      ])
    ])
  ]

  map_entry_pairs-Within :
      (fuel : ℕ) (m : MapEntry) (es : Events)
      → length es < fuel
      → Within (length es) (map_entry_pairs scan fuel m es)
  unfolding map_entry_pairs
  map_entry_pairs-Within zero m es h = absurd (omega (arith, h))
  map_entry_pairs-Within (suc fuel) m es h =
      or_done-Within _ (parse_key es) _ _ (parse_key-Within es)
        (λ key rest h1.
          and_then-Within _ (map_entry_value scan key m rest) _
            (Within-mono _ _ (map_entry_value scan key m rest) (omega (arith, h1))
              (map_entry_value-Within key m rest))
            (again _ fuel (map_entry_pairs scan fuel) h (map_entry_pairs-Within fuel)))
        (λ rest h1. h1)

  after_entry_start-Within :
      (fuel : ℕ) (m : MapEntry) (e : Event) (es : Events) (n : ℕ)
      → length es < fuel
      → length es < n
      → Within n (after_entry_start scan fuel m e es)
  after_entry_start-Within fuel m mapping_start es n h k =
      Within-mono _ n (map_entry_pairs scan fuel m es) (omega (arith, k))
        (map_entry_pairs-Within fuel m es h)
  after_entry_start-Within fuel m sequence_end es n h k = k
  after_entry_start-Within fuel m stream_start es n h k = tt
  after_entry_start-Within fuel m stream_end es n h k = tt
  after_entry_start-Within fuel m document_start es n h k = tt
  after_entry_start-Within fuel m document_end es n h k = tt
  after_entry_start-Within fuel m sequence_start es n h k = tt
  after_entry_start-Within fuel m mapping_end es n h k = tt
  after_entry_start-Within fuel m other es n h k = tt
  after_entry_start-Within fuel m (scalar t) es n h k = tt

  parse_map_entry-Within :
      (fuel : ℕ) (m : MapEntry) (es : Events)
      → length es < suc fuel
      → Within (length es) (parse_map_entry scan fuel m es)
  unfolding parse_map_entry
  parse_map_entry-Within fuel m es h =
      and_then-Within _ (next_event es) _ (next_event-Within es)
        (λ e rest h1. after_entry_start-Within fuel m e rest _ (omega (arith, h, h1)) h1)

  entry_step-Within :
      (fuel n : ℕ) (large : Bool) (entered : Option (MapEntry × IfMap)) (rest : Events)
      → n < suc fuel
      → ((m : MapEntry) (ifmap : IfMap) (es : Events)
          → length es < fuel
          → Within (length es) (map_entries scan fuel m ifmap es))
      → length rest < n
      → Within n (entry_step scan (map_entries scan fuel) large entered rest)
  entry_step-Within fuel n large none rest h k less = tt
  entry_step-Within fuel n large (some (cleared, ifmap)) rest h k less =
      if-Within _ large failed (map_entries scan fuel cleared ifmap rest) tt (
        again n fuel (λ c es2. map_entries scan fuel c ifmap es2) h (λ c. k c ifmap) cleared rest
          less)

  map_entries-Within :
      (fuel : ℕ) (m : MapEntry) (ifmap : IfMap) (es : Events)
      → length es < fuel
      → Within (length es) (map_entries scan fuel m ifmap es)
  unfolding map_entries
  map_entries-Within zero m ifmap es h = absurd (omega (arith, h))
  map_entries-Within (suc fuel) m ifmap es h =
      or_done-Within _ (parse_map_entry scan fuel m es) _ _ (parse_map_entry-Within fuel m es h)
        (λ m' rest h1.
          entry_step-Within fuel _ (too_large scan m') (enter_map_entry scan m' ifmap) rest h
            (λ c i. map_entries-Within fuel c i) h1)
        (λ rest h1. h1)

  pub interface_map-Within :
      (fuel : ℕ) (unset : MapEntry) (ifmap : IfMap) (es : Events)
      → length es < fuel
      → Within (length es) (interface_map scan fuel unset ifmap es)
  unfolding interface_map
  interface_map-Within fuel unset ifmap es h =
      and_then-Within _ (require_event sequence_start es) _ (require_event-Within sequence_start es)
        (λ u rest h1.
          again _ fuel (λ (v : Unit {0}). map_entries scan fuel _ ifmap) (omega (arith, h))
            (λ v. map_entries-Within fuel _ ifmap) u rest h1)

  net_loop-Within :
      (fuel n : ℕ) (nets : Option NetList) (rest : Events)
      → n < suc fuel
      → ((l : NetList) (es : Events)
          → length es < fuel
          → Within (length es) (net_entries scan fuel l es))
      → length rest < n
      → Within n (net_loop scan (net_entries scan fuel) nets rest)
  net_loop-Within fuel n none rest h k less = tt
  net_loop-Within fuel n (some l) rest h k less =
      again n fuel (net_entries scan fuel) h k l rest less

  net_entries-Within :
      (fuel : ℕ) (nets : NetList) (es : Events)
      → length es < fuel
      → Within (length es) (net_entries scan fuel nets es)
  unfolding net_entries
  net_entries-Within zero nets es h = absurd (omega (arith, h))
  net_entries-Within (suc fuel) nets es h =
      or_done-Within _ (parse_prefixed_v4_or_6 scan es) _ _ (parse_prefixed_v4_or_6-Within scan es)
        (λ v rest h1.
          net_loop-Within fuel _ (enter_net scan v nets) rest h (net_entries-Within fuel) h1)
        (λ rest h1. h1)

  pub source_nets-Within :
      (fuel : ℕ) (nets : NetList) (es : Events)
      → length es < fuel
      → Within (length es) (source_nets scan fuel nets es)
  unfolding source_nets
  source_nets-Within fuel nets es h =
      and_then-Within _ (require_event sequence_start es) _ (require_event-Within sequence_start es)
        (λ u rest h1.
          again _ fuel (net_entries scan fuel) (omega (arith, h)) (net_entries-Within fuel) nets
            rest h1)

  mac_loop-Within :
      (fuel n : ℕ) (macs : Option MacList) (rest : Events)
      → n < suc fuel
      → ((m : MacList) (es : Events)
          → length es < fuel
          → Within (length es) (mac_entries scan fuel m es))
      → length rest < n
      → Within n (mac_loop scan (mac_entries scan fuel) macs rest)
  mac_loop-Within fuel n none rest h k less = tt
  mac_loop-Within fuel n (some m) rest h k less =
      again n fuel (mac_entries scan fuel) h k m rest less

  mac_entries-Within :
      (fuel : ℕ) (macs : MacList) (es : Events)
      → length es < fuel
      → Within (length es) (mac_entries scan fuel macs es)
  unfolding mac_entries
  mac_entries-Within zero macs es h = absurd (omega (arith, h))
  mac_entries-Within (suc fuel) macs es h =
      or_done-Within _ (parse_mac48 scan es) _ _ (parse_mac48-Within scan es)
        (λ mac rest h1.
          mac_loop-Within fuel _ (mac_list_add macs mac) rest h (mac_entries-Within fuel) h1)
        (λ rest h1. h1)

  pub source_macs-Within :
      (fuel : ℕ) (macs : MacList) (es : Events)
      → length es < fuel
      → Within (length es) (source_macs scan fuel macs es)
  unfolding source_macs
  source_macs-Within fuel macs es h =
      and_then-Within _ (require_event sequence_start es) _ (require_event-Within sequence_start es)
        (λ u rest h1.
          again _ fuel (mac_entries scan fuel) (omega (arith, h)) (mac_entries-Within fuel) macs
            rest h1)
