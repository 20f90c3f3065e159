-- ===== src/Flow/Table/Biflow.antt =====
-- How `yfFlowGetNode` of src/yaftab.c finds the two directions of a flow.
use qof.Base.{false, inl, inr, none, refl, some, true, ℕ, ◌∙◌, ◌≡◌, ◌⊎◌}
use qof.Packet.{FlowKey}
use qof.Flow.Key.{key_equal, key_reverse}
use qof.Flow.Key.Contract.{Alike-key_equal, IsKey, key_reverse-key_reverse}
use qof.Flow.Table.{FlowTab, HashTable, IsHashTable, add_flow, get_node}

module _ {R T : Type 0} (h : HashTable T) (key : FlowKey) (u : FlowTab R T) (fn : ℕ) where
  found : h.find key u.table ≡ some fn → get_node h key 0 u ≡ (u, fn, false)
  unfolding get_node
  found e = rw (e, get_node) refl

  found_reverse :
      h.find key u.table ≡ none
      → h.find (key_reverse key) u.table ≡ some fn
      → get_node h key 0 u ≡ (u, fn, true)
  unfolding get_node
  found_reverse e f = rw (e, f, get_node) refl

module _ {R T : Type 0} (h : HashTable T) (table : IsHashTable h) (key : FlowKey) (cont_fid : ℕ)
    (t : FlowTab R T) where
  same_key : IsKey key → h.find key (add_flow h key cont_fid t).table ≡ some t.next_node
  unfolding add_flow
  same_key is_key =
      let same =
        Alike-key_equal key key is_key (record {
          sp = refl;
          dp = refl;
          proto = refl;
          version = refl;
          vlan = refl;
          addr = refl;
        }) in
      table.find-insert key key t.next_node t.table ∙ rw same refl

  reverse_key :
      h.find (key_reverse key) t.table ≡ none
      → key_equal key (key_reverse key) ≡ false
      → h.find (key_reverse key) (add_flow h key cont_fid t).table ≡ none
  unfolding add_flow
  reverse_key no_reverse two =
      table.find-insert (key_reverse key) key t.next_node t.table ∙ rw two no_reverse

  proper_version : IsKey key → (key.version ≡ 4) ⊎ (key.version ≡ 6)
  proper_version (inl (e, rest)) = inl e
  proper_version (inr (e, rest)) = inr e

  opened :
      h.find key t.table ≡ none
      → h.find (key_reverse key) t.table ≡ none
      → get_node h key cont_fid t ≡ (add_flow h key cont_fid t, t.next_node, false)
  unfolding get_node
  opened absent no_reverse = rw (absent, no_reverse, get_node) refl

  -- A packet of a flow that the table does not know, in neither direction, opens a node. Afterwards a
  -- packet with the same key finds that node in the forward direction, and one with the reverse key
  -- finds it in the reverse direction, and neither changes the table; the key is of version 4 or 6 and
  -- not equal to its reverse.
  pub get_node-biflow :
      IsKey key
      → h.find key t.table ≡ none
      → h.find (key_reverse key) t.table ≡ none
      → key_equal key (key_reverse key) ≡ false
      → let u = (get_node h key cont_fid t).0 in
        ((get_node h key cont_fid t).1 ≡ t.next_node)
        × ((get_node h key cont_fid t).2 ≡ false)
        × (get_node h key 0 u ≡ (u, t.next_node, false))
        × (get_node h (key_reverse key) 0 u ≡ (u, t.next_node, true))
  get_node-biflow is_key absent no_reverse two = rw (opened absent no_reverse) (
    refl,
    refl,
    found h key _ _ (same_key is_key),
    found_reverse h (key_reverse key) _ _ (reverse_key no_reverse two)
        (rw (key_reverse-key_reverse key (proper_version is_key)) (same_key is_key)),
  )
