-- ===== src/Yaml/Ends.antt =====
-- The parser of src/qofconfig.c ends: each loop takes an event before it goes round.
use Prim.Native.String.{String}
use qof.Base.{Bool-cases, Option, [], arith, inl, inr, length, none, some, ℕ, ◌<◌, ◌==◌, ◌∷◌, ◌≤◌}
use qof.Yaml.Value.{
  Event, Events, Parsed, Parser, Scan, address_4_or_6, and_then, document_end, document_start,
  ended, failed, got, key_of, mapping_end, mapping_start, next_event, or_done, other, out_of_fuel,
  parse_bool, parse_key, parse_mac48, parse_prefixed_v4, parse_prefixed_v4_or_6, parse_prefixed_v6,
  parse_u32, parse_u64, parse_value, require, scalar, sequence_end, sequence_start, stream_end,
  stream_start, undefined, value_of,
}
use qof.Yaml.Entry.{kind, require_event}

-- The result is not out of fuel, and leaves fewer than `n` events.
abbrev pub Within {ℓ} : {A : Type ℓ} → ℕ → Parsed A → Type 0
Within n (got a rest) = length rest < n
Within n (ended rest) = length rest < n
Within n failed = Unit
Within n undefined = Unit
Within n out_of_fuel = ⊥

module _ {ℓ} {A : Type ℓ} where
  pub Within-mono : (n m : ℕ) (r : Parsed A) → n ≤ m → Within n r → Within m r
  Within-mono n m (got a rest) le h = omega (arith, h)
  Within-mono n m (ended rest) le h = omega (arith, h)
  Within-mono n m failed le h = tt
  Within-mono n m undefined le h = tt
  Within-mono n m out_of_fuel le h = h

module _ {ℓ κ} {A : Type ℓ} {B : Type κ} where
  pub and_then-Within :
      (n : ℕ) (r : Parsed A) (f : A → Parser B)
      → Within n r
      → ((a : A) (rest : Events) → length rest < n → Within n (f a rest))
      → Within n (and_then r f)
  and_then-Within n (got a rest) f h k = k a rest h
  and_then-Within n (ended rest) f h k = h
  and_then-Within n failed f h k = tt
  and_then-Within n undefined f h k = tt
  and_then-Within n out_of_fuel f h k = h

  pub or_done-Within :
      (n : ℕ) (r : Parsed A) (f : A → Parser B) (done : Events → Parsed B)
      → Within n r
      → ((a : A) (rest : Events) → length rest < n → Within n (f a rest))
      → ((rest : Events) → length rest < n → Within n (done rest))
      → Within n (or_done r f done)
  or_done-Within n (got a rest) f done h k l = k a rest h
  or_done-Within n (ended rest) f done h k l = l rest h
  or_done-Within n failed f done h k l = tt
  or_done-Within n undefined f done h k l = tt
  or_done-Within n out_of_fuel f done h k l = h

require-Within {ℓ} :
    {A : Type ℓ} (o : Option A) (es : Events) (n : ℕ) → length es < n → Within n (require o es)
require-Within none es n h = tt
require-Within (some a) es n h = h

-- Taking an event leaves one less.
pub next_event-Within : (es : Events) → Within (length es) (next_event es)
unfolding next_event
next_event-Within [] = tt
next_event-Within (none ∷ es) = tt
next_event-Within (some e ∷ es) = omega arith

key_of-Within : (e : Event) (es : Events) (n : ℕ) → length es < n → Within n (key_of e es)
key_of-Within (scalar t) es n h = h
key_of-Within mapping_end es n h = h
key_of-Within stream_start es n h = tt
key_of-Within stream_end es n h = tt
key_of-Within document_start es n h = tt
key_of-Within document_end es n h = tt
key_of-Within sequence_start es n h = tt
key_of-Within sequence_end es n h = tt
key_of-Within mapping_start es n h = tt
key_of-Within other es n h = tt

value_of-Within : (e : Event) (es : Events) (n : ℕ) → length es < n → Within n (value_of e es)
value_of-Within (scalar t) es n h = h
value_of-Within sequence_end es n h = h
value_of-Within stream_start es n h = tt
value_of-Within stream_end es n h = tt
value_of-Within document_start es n h = tt
value_of-Within document_end es n h = tt
value_of-Within sequence_start es n h = tt
value_of-Within mapping_start es n h = tt
value_of-Within mapping_end es n h = tt
value_of-Within other es n h = tt

pub parse_key-Within : (es : Events) → Within (length es) (parse_key es)
unfolding parse_key
parse_key-Within es =
    and_then-Within _ (next_event es) key_of (next_event-Within es)
      (λ e rest h. key_of-Within e rest _ h)

pub parse_value-Within : (es : Events) → Within (length es) (parse_value es)
unfolding parse_value
parse_value-Within es =
    and_then-Within _ (next_event es) value_of (next_event-Within es)
      (λ e rest h. value_of-Within e rest _ h)

pub require_event-Within : (et : Event) (es : Events) → Within (length es) (require_event et es)
unfolding require_event
require_event-Within et es = and_then-Within _ (next_event es) _ (next_event-Within es) (λ e rest h.
    elim (Bool-cases (kind e == kind et)) [
      | inl same ↦ rw same h
      | inr other_kind ↦ rw other_kind tt
    ])

module _ (scan : Scan) where
  pub parse_u32-Within : (es : Events) → Within (length es) (parse_u32 scan es)
  unfolding parse_u32
  parse_u32-Within es =
      and_then-Within _ (parse_value es) _ (parse_value-Within es)
        (λ t rest h. require-Within (scan.u32 t) rest _ h)

  pub parse_u64-Within : (es : Events) → Within (length es) (parse_u64 scan es)
  unfolding parse_u64
  parse_u64-Within es =
      and_then-Within _ (parse_value es) _ (parse_value-Within es)
        (λ t rest h. require-Within (scan.u64 t) rest _ h)

  pub parse_mac48-Within : (es : Events) → Within (length es) (parse_mac48 scan es)
  unfolding parse_mac48
  parse_mac48-Within es =
      and_then-Within _ (parse_value es) _ (parse_value-Within es)
        (λ t rest h. require-Within (scan.mac t) rest _ h)

  pub parse_bool-Within : (es : Events) → Within (length es) (parse_bool scan es)
  unfolding parse_bool
  parse_bool-Within es =
      and_then-Within _ (parse_value es) _ (parse_value-Within es) (λ t rest h. h)

  pub parse_prefixed_v4-Within : (es : Events) → Within (length es) (parse_prefixed_v4 scan es)
  unfolding parse_prefixed_v4
  parse_prefixed_v4-Within es =
      and_then-Within _ (parse_value es) _ (parse_value-Within es) (λ t rest h.
        and_then-Within _ (require (scan.v4 t) rest) _ (require-Within (scan.v4 t) rest _ h)
          (λ (a, m) rest2 h2.
            and_then-Within _ (require (scan.pton4 a) rest2) _
              (require-Within (scan.pton4 a) rest2 _ h2) (λ addr rest3 h3. h3)))

  pub parse_prefixed_v6-Within : (es : Events) → Within (length es) (parse_prefixed_v6 scan es)
  unfolding parse_prefixed_v6
  parse_prefixed_v6-Within es =
      and_then-Within _ (parse_value es) _ (parse_value-Within es) (λ t rest h.
        and_then-Within _ (require (scan.v6 t) rest) _ (require-Within (scan.v6 t) rest _ h)
          (λ (a, m) rest2 h2.
            and_then-Within _ (require (scan.pton6 a) rest2) _
              (require-Within (scan.pton6 a) rest2 _ h2) (λ addr rest3 h3. h3)))

  address_4_or_6-Within :
      (t : String) (o : Option (String × Option ℕ)) (es : Events) (n : ℕ)
      → length es < n
      → Within n (address_4_or_6 scan t o es)
  address_4_or_6-Within t none es n h =
      and_then-Within _ (require (scan.v6 t) es) _ (require-Within (scan.v6 t) es _ h)
        (λ (a, m) rest2 h2.
          and_then-Within _ (require (scan.pton6 a) rest2) _
            (require-Within (scan.pton6 a) rest2 _ h2) (λ addr rest3 h3. h3))
  address_4_or_6-Within t (some (a, m)) es n h =
      and_then-Within _ (require (scan.pton4 a) es) _ (require-Within (scan.pton4 a) es _ h)
        (λ addr rest3 h3. h3)

  pub parse_prefixed_v4_or_6-Within :
      (es : Events) → Within (length es) (parse_prefixed_v4_or_6 scan es)
  unfolding parse_prefixed_v4_or_6
  parse_prefixed_v4_or_6-Within es =
      and_then-Within _ (parse_value es) _ (parse_value-Within es)
        (λ t rest h. address_4_or_6-Within t (scan.v4 t) rest _ h)
