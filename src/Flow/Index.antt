-- ===== src/Flow/Index.antt =====
-- What ties together the key index, the nodes and the two queues of the flow table of src/yaftab.c.
pub mod Keys
pub mod Packet
pub mod Update
pub mod Flush
pub mod Reach
use mathlib.Core.Path.{subst}
use qof.PickQueue.Spec
use qof.Base.{
  ==_iff, Bool-cases, List, ap, arith, false, inl, inr, length, none, refl, some, some_inj, sym,
  true, ℕ, ◌%◌, ◌<◌, ◌==◌, ◌^◌, ◌∙◌, ◌∷◌, ◌≡◌,
}
use qof.PickQueue.Members.{
  IsDistinct, IsDistinct-enq, IsDistinct-pick, has, has-enq, has-pick, length-pick,
}
use qof.Packet.{FlowKey}
use qof.Flow.Key.{key_equal}
use qof.Flow.Key.Contract.{IsKey, key_equal_congruent, key_equal_refl}
use qof.Flow.Record.{Config, FlowNode}
use qof.Flow.Table.{
  FlowTab, HashTable, IsHashTable, add_flow, close_reason, flow_close, new_flow, node_update,
  tab_alloc,
}

module _ {R T : Type 0} (h : HashTable T) where
  -- The nodes `q` are those in use: no node twice and none of them in the close queue; as many as the
  -- count says; the index finds exactly them, each under its own key and those equal to it.
  pub record IsIndexed (t : FlowTab R T) (q : List ℕ) : Type 0 where
    pub fresh : 0 < t.next_node
    pub distinct : IsDistinct q
    pub closed : IsDistinct t.cq
    pub apart : (n : ℕ) → has q n ≡ true → has t.cq n ≡ false
    pub in_use : (n : ℕ) → has q n ≡ true → (0 < n) × (n < t.next_node)
    pub in_cq : (n : ℕ) → has t.cq n ≡ true → (0 < n) × (n < t.next_node)
    pub counted : t.count ≡ length q % 2 ^ 32
    pub keyed : (n : ℕ) → has q n ≡ true → IsKey (t.node n).f.key
    pub kept : (n : ℕ) → has q n ≡ true → h.find (t.node n).f.key t.table ≡ some n
    pub found :
        (k : FlowKey) (n : ℕ)
        → h.find k t.table ≡ some n
        → (has q n ≡ true) × (key_equal (t.node n).f.key k ≡ true)
    pub agrees :
        (k j : FlowKey)
        → IsKey k
        → IsKey j
        → key_equal k j ≡ true
        → h.find k t.table ≡ h.find j t.table

  -- Between two packets the nodes in use are those of the active queue.
  abbrev pub IsTable : FlowTab R T → Type 0
  IsTable t = IsIndexed t t.aq

  -- A change of a node that keeps its key keeps all keys.
  pub same_keys :
      (node : ℕ → FlowNode R) (fn : ℕ) (v : FlowNode R)
      → v.f.key ≡ (node fn).f.key
      → (n : ℕ) → (node_update h node fn v n).f.key ≡ (node n).f.key
  same_keys node fn v e n = elim (Bool-cases (fn == n)) [
    | inl same ↦ rw same (e ∙ ap (λ m. (node m).f.key) ((==_iff fn n).0 same))
    | inr other ↦ rw other refl
  ]

  module _ (table : IsHashTable h) where
    pub tab_alloc-IsTable : (c : Config) (unused : ℕ → FlowNode R) → IsTable (tab_alloc h c unused)
    unfolding tab_alloc
    tab_alloc-IsTable c unused = record {
      fresh = omega arith;
      distinct = tt;
      closed = tt;
      apart = λ n e. refl;
      in_use = λ n e. ground (arith, e);
      in_cq = λ n e. ground (arith, e);
      counted = refl;
      keyed = λ n e. ground (arith, e);
      kept = λ n e. ground (arith, e);
      found = λ k n e. ground (arith, e, table.find-empty k);
      agrees = λ k j a b e. table.find-empty k ∙ sym (table.find-empty j);
    }

    module _ (t : FlowTab R T) (q : List ℕ) (i : IsIndexed t q) where
      next_free : has q t.next_node ≡ false
      next_free = elim (Bool-cases (has q t.next_node)) [
        | inr e ↦ e
        | inl e ↦ absurd (omega (arith, i.in_use t.next_node e))
      ]

      unused_cq : (n : ℕ) → (t.next_node == n) ≡ true → has t.cq n ≡ false
      unused_cq n e = elim (Bool-cases (has t.cq n)) [
        | inr f ↦ f
        | inl f ↦ absurd (ground (arith, i.in_cq n f, e))
      ]

      -- An entry for a key that the index does not find, and the keys that were found before.
      inserted :
          (key k : FlowKey) (fn n : ℕ)
          → IsKey key
          → IsKey k
          → h.find key t.table ≡ none
          → h.find k t.table ≡ some n
          → h.find k (h.insert key fn t.table) ≡ some n
      inserted key k fn n is_key is_k absent e = elim (Bool-cases (key_equal key k)) [
        | inr other ↦ table.find-insert k key fn t.table ∙ rw other e
        | inl same ↦ absurd (ground (arith, absent, e, i.agrees key k is_key is_k same))
      ]

      -- A new node under a key that the index does not find.
      pub add_flow-IsIndexed :
          (key : FlowKey) (fid : ℕ)
          → IsKey key
          → h.find key t.table ≡ none
          → IsIndexed (add_flow h key fid t) (t.next_node ∷ q)
      unfolding add_flow new_flow
      add_flow-IsIndexed key fid is_key absent = record {
        fresh = omega arith;
        distinct = (next_free, i.distinct);
        closed = i.closed;
        apart = λ n e. ground (arith, i.apart n, unused_cq n, e);
        in_use = λ n e. ground (arith, i.in_use n, i.fresh, e);
        in_cq = λ n e. ground (arith, i.in_cq n, e);
        counted = omega (arith, i.counted);
        keyed = λ n e. elim (Bool-cases (t.next_node == n)) [
          | inl same ↦ rw same is_key
          | inr other ↦ rw other (i.keyed n (rw other at e))
        ];
        kept = λ n e. elim (Bool-cases (t.next_node == n)) [
          | inl same ↦ rw same (
              table.find-insert key key t.next_node t.table
              ∙ rw (key_equal_refl key is_key) (ground (arith, same)))
          | inr other ↦
              let old : has q n ≡ true = rw other at e in
              rw other (inserted key _ t.next_node n is_key (i.keyed n old) absent (i.kept n old))
        ];
        found = λ k n e. elim (Bool-cases (key_equal key k)) [
          | inl same ↦
              let new : t.next_node ≡ n =
                some_inj (sym (table.find-insert k key t.next_node t.table ∙ rw same refl) ∙ e) in
              let hit : (t.next_node == n) ≡ true = (==_iff t.next_node n).1 new in
              (rw hit refl, rw hit same)
          | inr other ↦
              let old =
                i.found k n
                  (sym (table.find-insert k key t.next_node t.table ∙ rw other refl) ∙ e) in
              let miss : (t.next_node == n) ≡ false = ground (arith, i.in_use n old.0) in
              (rw miss (old.0), rw miss (old.1))
        ];
        agrees = λ k j is_k is_j e.
            table.find-insert k key t.next_node t.table
            ∙ rw (key_equal_congruent key k j is_k is_j e, i.agrees k j is_k is_j e)
                (sym (table.find-insert j key t.next_node t.table));
      }

      -- A node that is not the closed one keeps its place in the index.
      removed :
          (fn n : ℕ)
          → has q fn ≡ true
          → has q n ≡ true
          → (fn == n) ≡ false
          → h.find (t.node n).f.key (h.remove (t.node fn).f.key t.table) ≡ some n
      removed fn n hf hn other =
          table.find-remove (t.node n).f.key (t.node fn).f.key t.table
          ∙ (elim (Bool-cases (key_equal (t.node fn).f.key (t.node n).f.key)) [
            | inr differ ↦ rw differ (i.kept n hn)
            | inl same ↦
                let one : some fn ≡ some n =
                  sym (i.kept fn hf)
                  ∙ i.agrees _ _ (i.keyed fn hf) (i.keyed n hn) same
                  ∙ i.kept n hn in
                absurd (ground (arith, other, some_inj one))
          ])

      left : (fn n : ℕ) → has (Spec.pick q fn) n ≡ true → ((fn == n) ≡ false) × (has q n ≡ true)
      left fn n e = ground (arith, has-pick q fn n i.distinct, e)

      still_found :
          (fn : ℕ) (k : FlowKey) (n : ℕ)
          → h.find k (h.remove (t.node fn).f.key t.table) ≡ some n
          → (has (Spec.pick q fn) n ≡ true) × (key_equal (t.node n).f.key k ≡ true)
      still_found fn k n e = elim (Bool-cases (key_equal (t.node fn).f.key k)) [
        | inl same ↦
            let gone : none ≡ some n =
              sym (table.find-remove k (t.node fn).f.key t.table ∙ rw same refl) ∙ e in
            absurd (ground (arith, gone))
        | inr differ ↦
            let old =
              i.found k n
                (sym (table.find-remove k (t.node fn).f.key t.table ∙ rw differ refl) ∙ e) in
            let other : (fn == n) ≡ false = elim (Bool-cases (fn == n)) [
              | inr f ↦ f
              | inl f ↦
                  let one : fn ≡ n = (==_iff fn n).0 f in
                  absurd (
                    ground (
                      arith,
                      differ,
                      subst (λ m. key_equal (t.node m).f.key k ≡ true) (sym one) old.1,
                    ))
            ] in
            (ground (arith, has-pick q fn n i.distinct, old.0, other), old.1)
      ]

      -- Closing a node in use takes it from those in use to the close queue.
      pub flow_close-IsIndexed :
          (fn r : ℕ) → has q fn ≡ true → IsIndexed (flow_close h fn r t) (Spec.pick q fn)
      unfolding flow_close
      flow_close-IsIndexed fn r hf =
          let n = t.node fn in
          let closing = record n { f = record (n.f) { reason = close_reason n.f.reason r } } in
          let same = same_keys t.node fn closing refl in
          record {
            fresh = i.fresh;
            distinct = IsDistinct-pick q fn i.distinct;
            closed = IsDistinct-enq t.cq fn (i.apart fn hf) i.closed;
            apart =
                λ n e. ground (arith, i.apart n, has-pick q fn n i.distinct, has-enq t.cq fn n, e);
            in_use = λ n e. ground (arith, i.in_use n, has-pick q fn n i.distinct, e);
            in_cq = λ n e. ground (arith, i.in_cq n, i.in_use fn hf, has-enq t.cq fn n, e);
            counted = omega (arith, i.counted, length-pick q fn hf);
            keyed = λ n e. rw (same n) (i.keyed n (left fn n e).1);
            kept = λ n e. rw (same n) (removed fn n hf (left fn n e).1 (left fn n e).0);
            found = λ k n e. rw (same n) (still_found fn k n e);
            agrees = λ k j is_k is_j e.
                table.find-remove k _ t.table
                ∙ rw (key_equal_congruent _ k j is_k is_j e, i.agrees k j is_k is_j e)
                    (sym (table.find-remove j _ t.table));
          }
