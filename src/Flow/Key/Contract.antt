-- ===== src/Flow/Key/Contract.antt =====
-- What the flow table needs of `yfFlowKeyHash`, `yfFlowKeyEqual` and `yfFlowKeyReverse`.
use qof.Base.{
  Bool-cases, List, [], arith, inl, inr, refl, sym, true, ℕ, ◌&&◌, ◌==◌, ◌||◌, ◌∙◌, ◌∷◌, ◌≡◌, ◌⊎◌,
}
use qof.Packet.{Addr, FlowKey, unwritten, v4, v6}
use qof.Flow.Key.{
  Load, addr_equal4, addr_equal6, key_equal, key_hash, key_reverse, lists_equal, reverse_addr,
  vlan_mask,
}

-- Reversing a flow key of version 4 or 6 twice gives the key back, for every protocol.
pub key_reverse-key_reverse :
    (k : FlowKey) → (k.version ≡ 4) ⊎ (k.version ≡ 6) → key_reverse (key_reverse k) ≡ k
unfolding key_reverse reverse_addr
key_reverse-key_reverse k (inl e) = ground (arith, e)
key_reverse-key_reverse k (inr e) = ground (arith, e)

lists_equal-eq : (xs ys : List ℕ) → lists_equal xs ys ≡ true → xs ≡ ys
lists_equal-eq [] [] h = refl
lists_equal-eq [] (y ∷ ys) h = ground arith
lists_equal-eq (x ∷ xs) [] h = ground arith
lists_equal-eq (x ∷ xs) (y ∷ ys) h = ground (arith, lists_equal-eq xs ys)

lists_equal_refl : (xs : List ℕ) → lists_equal xs xs ≡ true
lists_equal_refl [] = refl
lists_equal_refl (x ∷ xs) = ground (arith, lists_equal_refl xs)

addr_equal4-eq : (a b : Addr) → addr_equal4 a b ≡ true → a ≡ b
addr_equal4-eq a b h = ground arith

addr_equal6-eq : (a b : Addr) → addr_equal6 a b ≡ true → a ≡ b
addr_equal6-eq (v4 s d) b h = ground arith
addr_equal6-eq (v6 s d) (v4 s' d') h = ground arith
addr_equal6-eq (v6 s d) unwritten h = ground arith
addr_equal6-eq unwritten b h = ground arith
addr_equal6-eq (v6 s d) (v6 s' d') h = ground (arith, lists_equal-eq s s', lists_equal-eq d d')

-- What equality of keys says of their fields.
pub record Alike (a b : FlowKey) : Type 0 where
  pub sp : a.sp ≡ b.sp
  pub dp : a.dp ≡ b.dp
  pub proto : a.proto ≡ b.proto
  pub version : a.version ≡ b.version
  pub vlan : vlan_mask a ≡ vlan_mask b
  pub addr : a.addr ≡ b.addr

key_equal-Alike : (a b : FlowKey) → key_equal a b ≡ true → Alike a b
unfolding key_equal
key_equal-Alike a b h = record {
  sp = ground arith;
  dp = ground arith;
  proto = ground arith;
  version = ground arith;
  vlan = ground arith;
  addr = ground (arith, addr_equal4-eq a.addr b.addr, addr_equal6-eq a.addr b.addr);
}

addr_equal4_refl : (s d : ℕ) → addr_equal4 (v4 s d) (v4 s d) ≡ true
addr_equal4_refl s d = ground arith

-- A key whose address is of its version.
abbrev pub IsKey : FlowKey → Type 0
IsKey k =
    ((k.version ≡ 4) × ((s d : ℕ) × (k.addr ≡ v4 s d)))
    ⊎ ((k.version ≡ 6) × ((s d : List ℕ) × (k.addr ≡ v6 s d)))

Alike-addr_equal :
    (a b : FlowKey)
    → IsKey a
    → Alike a b
    → (((a.version == 4) && addr_equal4 a.addr b.addr)
        || ((a.version == 6) && addr_equal6 a.addr b.addr))
      ≡ true
Alike-addr_equal a b (inl (v, (s, d, e))) alike =
    rw (sym alike.addr, e, v, addr_equal4_refl s d) refl
Alike-addr_equal a b (inr (v, (s, d, e))) alike =
    rw (sym alike.addr, e, v, lists_equal_refl s, lists_equal_refl d) refl

pub Alike-key_equal : (a b : FlowKey) → IsKey a → Alike a b → key_equal a b ≡ true
unfolding key_equal
Alike-key_equal a b is_key alike = ground (
  arith,
  alike.sp,
  alike.dp,
  alike.proto,
  alike.version,
  alike.vlan,
  Alike-addr_equal a b is_key alike,
)

Alike-sym : (a b : FlowKey) → Alike a b → Alike b a
Alike-sym a b e = record {
  sp = sym e.sp;
  dp = sym e.dp;
  proto = sym e.proto;
  version = sym e.version;
  vlan = sym e.vlan;
  addr = sym e.addr;
}

Alike-trans : (a b c : FlowKey) → Alike a b → Alike b c → Alike a c
Alike-trans a b c e f = record {
  sp = e.sp ∙ f.sp;
  dp = e.dp ∙ f.dp;
  proto = e.proto ∙ f.proto;
  version = e.version ∙ f.version;
  vlan = e.vlan ∙ f.vlan;
  addr = e.addr ∙ f.addr;
}

pub key_equal_sym : (a b : FlowKey) → IsKey b → key_equal a b ≡ true → key_equal b a ≡ true
key_equal_sym a b is_b h = Alike-key_equal b a is_b (Alike-sym a b (key_equal-Alike a b h))

-- On keys whose address is of their version, version 4 or 6, equality of keys is reflexive, symmetric
-- and transitive.
pub key_equal_equivalence :
    (a b c : FlowKey)
    → IsKey a
    → IsKey b
    → key_equal a b ≡ true
    → key_equal b c ≡ true
    → (key_equal a a ≡ true) × (key_equal b a ≡ true) × (key_equal a c ≡ true)
key_equal_equivalence a b c is_a is_b h k = (
  Alike-key_equal a a is_a
      (record { sp = refl; dp = refl; proto = refl; version = refl; vlan = refl; addr = refl }),
  key_equal_sym a b is_b h,
  Alike-key_equal a c is_a (Alike-trans a b c (key_equal-Alike a b h) (key_equal-Alike b c k)),
)

-- Keys that the table takes for equal have the same hash, as a hash table requires.
pub key_hash-key_equal :
    (load : Load) (stack : ℕ) (a b : FlowKey)
    → key_equal a b ≡ true
    → key_hash load stack a ≡ key_hash load stack b
unfolding key_hash
key_hash-key_equal load stack a b h =
    let alike = key_equal-Alike a b h in
    rw (alike.sp, alike.dp, alike.proto, alike.version, alike.vlan, alike.addr) refl

Alike-IsKey : (a b : FlowKey) → Alike a b → IsKey b → IsKey a
Alike-IsKey a b e (inl (v, (s, d, h))) = inl (e.version ∙ v, (s, d, e.addr ∙ h))
Alike-IsKey a b e (inr (v, (s, d, h))) = inr (e.version ∙ v, (s, d, e.addr ∙ h))

pub key_equal_trans :
    (a b c : FlowKey) → IsKey b → key_equal a b ≡ true → key_equal b c ≡ true → key_equal a c ≡ true
key_equal_trans a b c is_b h k =
    let alike = key_equal-Alike a b h in
    Alike-key_equal a c (Alike-IsKey a b alike is_b)
      (Alike-trans a b c alike (key_equal-Alike b c k))

pub key_equal_refl : (k : FlowKey) → IsKey k → key_equal k k ≡ true
key_equal_refl k is_key =
    Alike-key_equal k k is_key
      (record { sp = refl; dp = refl; proto = refl; version = refl; vlan = refl; addr = refl })

-- Equal keys are equal to the same keys.
pub key_equal_congruent :
    (i k j : FlowKey) → IsKey k → IsKey j → key_equal k j ≡ true → key_equal i k ≡ key_equal i j
key_equal_congruent i k j is_k is_j e = elim (Bool-cases (key_equal i k)) [
  | inl h ↦ h ∙ sym (key_equal_trans i k j is_k h e)
  | inr h ↦ elim (Bool-cases (key_equal i j)) [
    | inr f ↦ h ∙ sym f
    | inl f ↦
        let back : key_equal i k ≡ true = key_equal_trans i j k is_j f (key_equal_sym k j is_j e) in
        ground (arith, back, h)
  ]
]
