-- ===== src/Export/Template.antt =====
-- The template that src/yafcore.c chooses for a flow record, against what the record holds.
use qof.Packet.Proto
use qof.Base.{
  Bool, Option, Option-cases, ap, arith, false, inl, inr, leb, leb→le, ltb, ltb→lt, none, not, refl,
  some, sym, true, ℕ, ◌&&◌, ◌+◌, ◌<◌, ◌==◌, ◌^◌, ◌||◌, ◌∙◌, ◌≡◌, ◌≤◌,
}
use qof.Base.Word.{has_bits, nonzero}
use qof.Packet.{Addr, unwritten, v4, v6}
use qof.Export.Spec.{bif, fle, flow_base_tid, ip4, ip6, rle, rtt, tcp, tsv}
use qof.Export.Record.{FlowRecord, SidePart, TcpPart}
use qof.Export.Write.{address_bit, has_chirp, is_reduced, is_some, template_bits, template_id}

-- What a record holds.
abbrev pub holds_four : Option Addr → Bool
holds_four (some (v4 s d)) = true
holds_four _ = false

abbrev pub holds_six : Option Addr → Bool
holds_six (some (v6 s d)) = true
holds_six _ = false

abbrev pub holds_frequency : Option TcpPart → Bool
holds_frequency none = false
holds_frequency (some t) = elim t.chirp [ none ↦ false | some c ↦ true ]

abbrev pub holds_round_trip : FlowRecord → Bool
holds_round_trip r = elim (r.rtt) [ none ↦ false | some t ↦ true ]

-- All four counts are below 2^31.
abbrev pub counts_fit : FlowRecord → Bool
counts_fit r =
    (ltb r.forward.octet_count (2 ^ 31) && ltb r.forward.packet_count (2 ^ 31))
    && (ltb r.reverse.octet_count (2 ^ 31) && ltb r.reverse.packet_count (2 ^ 31))

-- The bits of a template number.
pub record Announces (wtid : ℕ) (r : FlowRecord) (force_biflow : Bool) : Type 0 where
  pub base : (flow_base_tid ≤ wtid) × (wtid < flow_base_tid + 256)
  pub four : has_bits wtid ip4 ≡ holds_four r.addresses
  pub six : has_bits wtid ip6 ≡ holds_six r.addresses
  pub tcp_part : has_bits wtid tcp ≡ (r.protocol_identifier == 6)
  pub timestamps :
      has_bits wtid tsv ≡ (holds_frequency r.forward.tcp || holds_frequency r.reverse.tcp)
  pub round_trip : has_bits wtid rtt ≡ holds_round_trip r
  pub biflow : has_bits wtid bif ≡ (force_biflow || not (r.reverse.packet_count == 0))
  pub reduced : has_bits wtid rle ≡ counts_fit r
  pub full : has_bits wtid fle ≡ not (counts_fit r)

-- What `Announces` asks, by the bits alone.
abbrev Decoded : (wtid address : ℕ) (t s r b l : Bool) → Type 0
Decoded wtid address t s r b l =
    ((flow_base_tid ≤ wtid) × (wtid < flow_base_tid + 256))
    × (has_bits wtid ip4 ≡ (address == ip4))
    × (has_bits wtid ip6 ≡ (address == ip6))
    × (has_bits wtid tcp ≡ t)
    × (has_bits wtid tsv ≡ s)
    × (has_bits wtid rtt ≡ r)
    × (has_bits wtid bif ≡ b)
    × (has_bits wtid rle ≡ l)
    × (has_bits wtid fle ≡ not l)

same : Bool → Bool → Bool
same true b = b
same false b = not b

same→≡ : (a b : Bool) → same a b ≡ true → a ≡ b
unfolding same
same→≡ true b h = sym h
same→≡ false true h = h
same→≡ false false h = refl

both : (a b : Bool) → (a && b) ≡ true → (a ≡ true) × (b ≡ true)
both true b h = (refl, h)
both false b h = absurd (cc)

every_bool : (Bool → Bool) → Bool
every_bool f = f true && f false

every_bool_lem : (f : Bool → Bool) → every_bool f ≡ true → (b : Bool) → f b ≡ true
unfolding every_bool
every_bool_lem f h true = (both (f true) (f false) h).0
every_bool_lem f h false = (both (f true) (f false) h).1

-- The same as a test.
decoded : (address : ℕ) (t s r b l : Bool) → Bool
decoded address t s r b l =
    let wtid = template_bits address t s r b l in
    (leb flow_base_tid wtid && ltb wtid (flow_base_tid + 256))
    && (same (has_bits wtid ip4) (address == ip4)
        && (same (has_bits wtid ip6) (address == ip6)
            && (same (has_bits wtid tcp) t
                && (same (has_bits wtid tsv) s
                    && (same (has_bits wtid rtt) r
                        && (same (has_bits wtid bif) b
                            && (same (has_bits wtid rle) l
                                && same (has_bits wtid fle) (not l))))))))

decoded-Decoded :
    (address : ℕ) (t s r b l : Bool)
    → decoded address t s r b l ≡ true
    → Decoded (template_bits address t s r b l) address t s r b l
unfolding decoded
decoded-Decoded address t s r b l h =
    let w = template_bits address t s r b l in
    let h0 = both _ _ h in
    let range = both (leb flow_base_tid w) (ltb w (flow_base_tid + 256)) h0.0 in
    let h1 = both _ _ h0.1 in
    let h2 = both _ _ h1.1 in
    let h3 = both _ _ h2.1 in
    let h4 = both _ _ h3.1 in
    let h5 = both _ _ h4.1 in
    let h6 = both _ _ h5.1 in
    let h7 = both _ _ h6.1 in
    (
      (leb→le flow_base_tid w range.0, ltb→lt w (flow_base_tid + 256) range.1),
      same→≡ _ _ h1.0,
      same→≡ _ _ h2.0,
      same→≡ _ _ h3.0,
      same→≡ _ _ h4.0,
      same→≡ _ _ h5.0,
      same→≡ _ _ h6.0,
      same→≡ _ _ h7.0,
      same→≡ _ _ h7.1,
    )

-- All choices of the five bits.
abbrev all_bits : ℕ → Bool
all_bits address = every_bool (λ t.
    every_bool
      (λ s. every_bool (λ r. every_bool (λ b. every_bool (λ l. decoded address t s r b l)))))

all_bits_lem :
    (address : ℕ) (t s r b l : Bool) → all_bits address ≡ true → decoded address t s r b l ≡ true
all_bits_lem address t s r b l h =
    every_bool_lem (λ l. decoded address t s r b l)
      (every_bool_lem (λ b. every_bool (λ l. decoded address t s r b l))
        (every_bool_lem (λ r. every_bool (λ b. every_bool (λ l. decoded address t s r b l)))
          (every_bool_lem
            (λ s. every_bool (λ r. every_bool (λ b. every_bool (λ l. decoded address t s r b l))))
            (every_bool_lem
              (λ t. every_bool (λ s.
                every_bool (λ r. every_bool (λ b. every_bool (λ l. decoded address t s r b l)))))
              h t)
            s)
          r)
        b)
      l

all_addresses : (address : Option Addr) → all_bits (address_bit address) ≡ true
unfolding decoded every_bool same template_bits
all_addresses none = refl
all_addresses (some (v4 s d)) = refl
all_addresses (some (v6 s d)) = refl
all_addresses (some unwritten) = refl

address_bit-holds_four : (a : Option Addr) → (address_bit a == ip4) ≡ holds_four a
address_bit-holds_four none = refl
address_bit-holds_four (some (v4 s d)) = refl
address_bit-holds_four (some (v6 s d)) = refl
address_bit-holds_four (some unwritten) = refl

address_bit-holds_six : (a : Option Addr) → (address_bit a == ip6) ≡ holds_six a
address_bit-holds_six none = refl
address_bit-holds_six (some (v4 s d)) = refl
address_bit-holds_six (some (v6 s d)) = refl
address_bit-holds_six (some unwritten) = refl

has_chirp-holds_frequency : (s : SidePart) → has_chirp s ≡ holds_frequency s.tcp
has_chirp-holds_frequency s = elim (Option-cases (s.tcp)) [
  | inl e ↦ rw e refl
  | inr (t, e) ↦ rw e refl
]

is_some-holds_round_trip : (r : FlowRecord) → is_some r.rtt ≡ holds_round_trip r
is_some-holds_round_trip r = elim (Option-cases (r.rtt)) [
  | inl e ↦ rw e refl
  | inr (t, e) ↦ rw e refl
]

is_reduced-counts_fit : (r : FlowRecord) → is_reduced r ≡ counts_fit r
is_reduced-counts_fit r = ground arith

-- The template number of a record lies in the 256 numbers of the flow templates, and its bits say what
-- the record holds: IPv4 or IPv6 which pair of addresses is set, if any; TCP whether the protocol is
-- TCP; the timestamp bit whether a direction has a timestamp frequency; the RTT bit whether a round-trip
-- time is set; the biflow bit whether it is forced or there are reverse packets; and exactly one of the
-- two encodings is chosen, the reduced one where octets and packets of both directions are below 2^31.
pub template_id-Announces :
    (r : FlowRecord) (force_biflow : Bool) → Announces (template_id force_biflow r) r force_biflow
unfolding template_id
template_id-Announces r force_biflow =
    let t = r.protocol_identifier == Proto.tcp in
    let s = has_chirp r.forward || has_chirp r.reverse in
    let b = force_biflow || nonzero r.reverse.packet_count in
    let d = decoded-Decoded (address_bit r.addresses) t s (is_some r.rtt) b (is_reduced r) (
      all_bits_lem (address_bit r.addresses) t s (is_some r.rtt) b (is_reduced r)
        (all_addresses r.addresses)) in
    record {
      base = d.0;
      four = d.1 ∙ address_bit-holds_four r.addresses;
      six = d.2 ∙ address_bit-holds_six r.addresses;
      tcp_part = d.3;
      timestamps =
          d.4 ∙ rw (has_chirp-holds_frequency r.forward, has_chirp-holds_frequency r.reverse) refl;
      round_trip = d.5 ∙ is_some-holds_round_trip r;
      biflow = d.6;
      reduced = d.7 ∙ is_reduced-counts_fit r;
      full = d.8 ∙ ap not (is_reduced-counts_fit r);
    }
