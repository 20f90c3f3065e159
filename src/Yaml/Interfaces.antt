-- ===== src/Yaml/Interfaces.antt =====
-- The interface numbers of an entry of the interface map of src/qofconfig.c.
use Prim.Native.String.{String}
use text.Mathlib.Text.{◌==◌ as same_text}
use text.Mathlib.TextEquality.{eq_iff}
use qof.Base.{
  Bool-cases, [], arith, false, inl, inr, refl, set, suc, sym, true, zero, ℕ, ◌∙◌, ◌≡◌, ◌≢◌,
}
use qof.Yaml.Value.{
  Events, Parsed, Parser, Scan, and_then, ended, failed, got, or_done, out_of_fuel, parse_key,
  parse_prefixed_v4, parse_prefixed_v6, return, undefined,
}
use qof.Yaml.Entry.{MapEntry, map_entry_pairs, map_entry_value, set_v4, set_v6}

-- The interface numbers are those of `m` where there is a result.
abbrev pub Numbered : MapEntry → Parsed MapEntry → Type 0
Numbered m (got m' rest) = (m'.ingress ≡ m.ingress) × (m'.egress ≡ m.egress)
Numbered m _ = Unit

then_got {ℓ} :
    {A : Type ℓ} (m : MapEntry) (r : Parsed A) (set : A → MapEntry)
    → ((a : A) → Numbered m (got (set a) []))
    → Numbered m (and_then r (λ a. return (set a)))
then_got m (got a rest) set h = h a
then_got m (ended rest) set h = tt
then_got m failed set h = tt
then_got m undefined set h = tt
then_got m out_of_fuel set h = tt

not_both_nets : (key : String) → same_text "ip4-net" key ≡ true → same_text "ip6-net" key ≢ true
not_both_nets key e4 e6 =
    let same : "ip4-net" ≡ "ip6-net" =
      (eq_iff "ip4-net" key).0 e4 ∙ sym ((eq_iff "ip6-net" key).0 e6) in
    let clash : false ≡ true = (eq_iff "ip4-net" "ip6-net").1 same in ground (arith, clash)

-- The interface numbers pass through two steps.
through :
    (m m' : MapEntry) (r : Parsed MapEntry)
    → (m'.ingress ≡ m.ingress) × (m'.egress ≡ m.egress)
    → Numbered m' r
    → Numbered m r
through m m' (got m2 rest) (i, e) (i2, e2) = (i2 ∙ i, e2 ∙ e)
through m m' (ended rest) h k = tt
through m m' failed h k = tt
through m m' undefined h k = tt
through m m' out_of_fuel h k = tt

after_value :
    (m : MapEntry) (r : Parsed MapEntry) (next : MapEntry → Parser MapEntry)
    → Numbered m r
    → ((m' : MapEntry) (es : Events) → Numbered m' (next m' es))
    → Numbered m (and_then r next)
after_value m (got m' rest) next h k = through m m' (next m' rest) h (k m' rest)
after_value m (ended rest) next h k = tt
after_value m failed next h k = tt
after_value m undefined next h k = tt
after_value m out_of_fuel next h k = tt

after_key :
    (m : MapEntry) (r : Parsed String) (next : String → Parser MapEntry)
    → ((key : String) (es : Events) → Numbered m (next key es))
    → Numbered m (or_done r next (return m))
after_key m (got key rest) next k = k key rest
after_key m (ended rest) next k = (refl, refl)
after_key m failed next k = tt
after_key m undefined next k = tt
after_key m out_of_fuel next k = tt

module _ (scan : Scan) where
  map_entry_value-Numbered :
      (key : String) (m : MapEntry) (es : Events) → Numbered m (map_entry_value scan key m es)
  unfolding map_entry_value
  map_entry_value-Numbered key m es = elim (Bool-cases (same_text "ip4-net" key)) [
    | inr e ↦ rw e (then_got m (parse_prefixed_v4 scan es) (set_v4 m) (λ v. (refl, refl)))
    | inl e ↦ rw e (elim (Bool-cases (same_text "ip6-net" key)) [
      | inr e2 ↦ rw e2 (then_got m (parse_prefixed_v6 scan es) (set_v6 m) (λ v. (refl, refl)))
      | inl e2 ↦ absurd (not_both_nets key e e2)
    ])
  ]

  -- An entry of the interface map never gets the interface numbers that stand in the file: whatever its
  -- keys and values, a parse that returns one leaves the numbers that were there before.
  pub map_entry_pairs-numbers :
      (fuel : ℕ) (m : MapEntry) (es : Events) → Numbered m (map_entry_pairs scan fuel m es)
  unfolding map_entry_pairs
  map_entry_pairs-numbers zero m es = tt
  map_entry_pairs-numbers (suc fuel) m es = after_key m (parse_key es) _ (λ key rest.
      after_value m (map_entry_value scan key m rest) (map_entry_pairs scan fuel)
        (map_entry_value-Numbered key m rest) (map_entry_pairs-numbers fuel))
