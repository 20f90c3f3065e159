-- ===== src/IfMap/Reverse.antt =====
-- The direction of a flow and of its reverse, in src/qofifmap.c.
use qof.Base.{
  Bool, Bool-cases, ap, arith, false, if◌then◌else◌, inl, inr, not, refl, some, true, ℕ, ◌==◌, ◌∙◌,
  ◌≡◌, ◌⊎◌,
}
use qof.Packet.{Addr, FlowKey, unwritten, v4, v6}
use qof.IfMap.{
  Addr6, Direction, NetList, before4, before6, dir_ext, dir_in, dir_int, dir_out, direction,
  flow_direction,
}
use qof.IfMap.Order.{IsMap, lookup}
use qof.IfMap.Search.{map_search4-lookup, map_search6-lookup}
use qof.Flow.Key.{key_reverse, reverse_addr}

-- What a direction is called, by whether source and destination are in the list.
abbrev pub way : (source destination : Bool) → Direction
way true false = dir_in
way false true = dir_out
way true true = dir_int
way false false = dir_ext

abbrev pub opposite : Direction → Direction
opposite dir_in = dir_out
opposite dir_out = dir_in
opposite dir_int = dir_int
opposite dir_ext = dir_ext

-- The number that a list gives an address of a key, read from the front of the list.
abbrev source_number : NetList → FlowKey → ℕ
source_number l k = elim k.addr [
  | v4 s d ↦ if k.version == 4 then lookup before4 l.ip4map s else 0
  | v6 s d ↦ if k.version == 6 then lookup before6 l.ip6map s else 0
  | unwritten ↦ 0
]

abbrev destination_number : NetList → FlowKey → ℕ
destination_number l k = elim k.addr [
  | v4 s d ↦ if k.version == 4 then lookup before4 l.ip4map d else 0
  | v6 s d ↦ if k.version == 6 then lookup before6 l.ip6map d else 0
  | unwritten ↦ 0
]

Addr-cases :
    (a : Addr)
    → ((s : ℕ) × (d : ℕ) × (a ≡ v4 s d))
      ⊎ ((s : Addr6) × (d : Addr6) × (a ≡ v6 s d))
      ⊎ (a ≡ unwritten)
Addr-cases (v4 s d) = inl (s, d, refl)
Addr-cases (v6 s d) = inr (inl (s, d, refl))
Addr-cases unwritten = inr (inr refl)

module _ (l : NetList) (h4 : IsMap before4 l.ip4map) (h6 : IsMap before6 l.ip6map) where
  flow_direction_lem :
      (k : FlowKey)
      → flow_direction l k ≡ some (direction (source_number l k) (destination_number l k))
  unfolding flow_direction
  flow_direction_lem k = elim (Addr-cases k.addr) [
    | inl (s, d, e) ↦
        rw e (ground (arith, map_search4-lookup l.ip4map s h4, map_search4-lookup l.ip4map d h4))
    | inr (inl (s, d, e)) ↦
        rw e (ground (arith, map_search6-lookup l.ip6map s h6, map_search6-lookup l.ip6map d h6))
    | inr (inr e) ↦ rw e refl
  ]

numbers-key_reverse :
    (l : NetList) (k : FlowKey)
    → (source_number l (key_reverse k) ≡ destination_number l k)
      × (destination_number l (key_reverse k) ≡ source_number l k)
unfolding key_reverse reverse_addr
numbers-key_reverse l k = elim (Addr-cases k.addr) [
  | inl (s, d, e) ↦ rw e (ground arith)
  | inr (inl (s, d, e)) ↦ rw e (ground arith)
  | inr (inr e) ↦ rw e (ground arith)
]

direction-way : (ss ds : ℕ) → direction ss ds ≡ way (not (ss == 0)) (not (ds == 0))
direction-way ss ds = elim (Bool-cases (ss == 0)) [
  | inl e ↦ elim (Bool-cases (ds == 0)) [ inl f ↦ rw (e, f) refl | inr f ↦ rw (e, f) refl ]
  | inr e ↦ elim (Bool-cases (ds == 0)) [ inl f ↦ rw (e, f) refl | inr f ↦ rw (e, f) refl ]
]

way-opposite : (s d : Bool) → way d s ≡ opposite (way s d)
way-opposite true true = refl
way-opposite true false = refl
way-opposite false true = refl
way-opposite false false = refl

-- The list has a number other than 0 for the address.
abbrev source_listed : NetList → FlowKey → Bool
source_listed l k = not (source_number l k == 0)

abbrev destination_listed : NetList → FlowKey → Bool
destination_listed l k = not (destination_number l k == 0)

-- With sorted lists of disjoint blocks, read from their front: a flow is inward if its source only is
-- in the list, outward if its destination only is, internal if both are and external if none is, and
-- the direction of the reversed key is the opposite one: inward and outward change places, internal and
-- external stay.
pub flow_direction-key_reverse :
    (l : NetList) (k : FlowKey)
    → IsMap before4 l.ip4map
    → IsMap before6 l.ip6map
    → (flow_direction l k ≡ some (way (source_listed l k) (destination_listed l k)))
      × (flow_direction l (key_reverse k)
          ≡ some (opposite (way (source_listed l k) (destination_listed l k))))
flow_direction-key_reverse l k h4 h6 =
    let turned = numbers-key_reverse l k in
    let named = direction-way (source_number l k) (destination_number l k) in
    (
      flow_direction_lem l h4 h6 k ∙ ap some named,
      flow_direction_lem l h4 h6 (key_reverse k)
          ∙ ap some (
              ap (λ (n : ℕ). direction n (destination_number l (key_reverse k))) turned.0
              ∙ ap (λ (n : ℕ). direction (destination_number l k) n) turned.1
              ∙ direction-way (destination_number l k) (source_number l k)
              ∙ way-opposite (source_listed l k) (destination_listed l k)),
    )
