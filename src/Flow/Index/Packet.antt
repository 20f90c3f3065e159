-- ===== src/Flow/Index/Packet.antt =====
-- A packet's way through `yfFlowPBuf` of src/yaftab.c keeps the key index and the queues in step.
use mathlib.Core.Path.{subst}
use qof.PickQueue.Spec
use qof.Base.{
  ==_iff, Bool-cases, List, Option-cases, ap, arith, inl, inr, length, none, refl, sym, true, ℕ,
  ◌%◌, ◌==◌, ◌^◌, ◌∙◌, ◌∷◌, ◌≡◌, ◌⊎◌,
}
use qof.PickQueue.Members.{
  IsDistinct, has, has-head, has-moved, length-moved, moved-IsDistinct, pick_place,
}
use qof.Flow.Table.{
  FlowTab, HashTable, IsHashTable, TabStats, add_flow, flow_close, flow_tick, get_node, set_node,
}
use qof.Flow.Index.{IsIndexed, IsTable, add_flow-IsIndexed, flow_close-IsIndexed, same_keys}
use qof.Packet.{FlowKey, PBuf}
use qof.Stats.{Double}
use qof.Flow.Key.{key_reverse}
use qof.Flow.Key.Contract.{IsKey}
use qof.Flow.Record.{FlowNode}
use qof.Flow.Update.{count_input}

module _ {R T : Type 0} (h : HashTable T) where
  -- A node that a packet was given: it is in use, and is in the active queue or new.
  pub record Placed (t : FlowTab R T) (fn : ℕ) : Type 0 where
    pub q : List ℕ
    pub indexed : IsIndexed h t q
    pub here : has q fn ≡ true
    pub place : (q ≡ t.aq) ⊎ (q ≡ fn ∷ t.aq)

  module _ (table : IsHashTable h) where
    pub flow_close-IsTable :
        (fn r : ℕ) (t : FlowTab R T) → Placed t fn → IsTable h (flow_close h fn r t)
    unfolding flow_close
    flow_close-IsTable fn r t p =
        subst (IsIndexed h (flow_close h fn r t))
          (pick_place fn p.q t.aq p.indexed.distinct p.place)
          (flow_close-IsIndexed h table t p.q p.indexed fn r p.here)

    -- The same nodes in another order.
    reordered :
        (t : FlowTab R T) (q aq : List ℕ)
        → IsIndexed h t q
        → IsDistinct aq
        → length aq ≡ length q
        → ((n : ℕ) → has aq n ≡ has q n)
        → IsTable h (record t { aq = aq })
    reordered t q aq i d l same = record {
      fresh = i.fresh;
      distinct = d;
      closed = i.closed;
      apart = λ n e. i.apart n (sym (same n) ∙ e);
      in_use = λ n e. i.in_use n (sym (same n) ∙ e);
      in_cq = i.in_cq;
      counted = i.counted ∙ ap (λ m. m % 2 ^ 32) (sym l);
      keyed = λ n e. i.keyed n (sym (same n) ∙ e);
      kept = λ n e. i.kept n (sym (same n) ∙ e);
      found = λ k n e. (same n ∙ (i.found k n e).0, (i.found k n e).1);
      agrees = i.agrees;
    }

    at_head : (fn : ℕ) (t : FlowTab R T) → Placed t fn → (Spec.head t.aq == fn) ≡ true → IsTable h t
    at_head fn t p first = elim (p.place) [
      | inl e ↦ subst (IsIndexed h t) e p.indexed
      | inr e ↦
          let own : IsDistinct (fn ∷ t.aq) = subst IsDistinct e p.indexed.distinct in
          let in_queue =
            has-head t.aq fn (p.indexed.in_use fn p.here).0
              ((==_iff (Spec.head t.aq) fn).0 first) in
          absurd (ground (arith, own.0, in_queue))
    ]

    pub flow_tick-IsTable : (fn : ℕ) (t : FlowTab R T) → Placed t fn → IsTable h (flow_tick h fn t)
    unfolding flow_tick
    flow_tick-IsTable fn t p =
        let same : Spec.pick p.q fn ≡ Spec.pick t.aq fn =
          pick_place fn p.q t.aq p.indexed.distinct p.place in
        elim (Bool-cases (Spec.head t.aq == fn)) [
          | inr moved ↦ rw moved (
              reordered t p.q (Spec.enq (Spec.pick t.aq fn) fn) p.indexed
                (subst (λ q. IsDistinct (Spec.enq q fn)) same
                  (moved-IsDistinct p.q fn p.indexed.distinct))
                (subst (λ q. length (Spec.enq q fn) ≡ length p.q) same (length-moved p.q fn p.here))
                (subst (λ q. (n : ℕ) → has (Spec.enq q fn) n ≡ has p.q n) same
                  (λ n. has-moved p.q fn n p.indexed.distinct p.here)))
          | inl first ↦ rw first (at_head fn t p first)
        ]

    opened :
        (key : FlowKey) (fid : ℕ) (t : FlowTab R T)
        → IsKey key
        → IsTable h t
        → h.find key t.table ≡ none
        → Placed (add_flow h key fid t) t.next_node
    unfolding add_flow
    opened key fid t is_key i e = record {
      q = t.next_node ∷ t.aq;
      indexed = add_flow-IsIndexed h table t t.aq i key fid is_key e;
      here = ground arith;
      place = inr refl;
    }

    pub get_node-Placed :
        (key : FlowKey) (fid : ℕ) (t : FlowTab R T)
        → IsKey key
        → IsTable h t
        → Placed (get_node h key fid t).0 (get_node h key fid t).1
    unfolding get_node
    get_node-Placed key fid t is_key i = elim (Option-cases (h.find key t.table)) [
      | inr (fn, e) ↦
          rw (e, get_node)
            record { q = t.aq; indexed = i; here = (i.found key fn e).0; place = inl refl }
      | inl e ↦ elim (Option-cases (h.find (key_reverse key) t.table)) [
        | inr (fn, f) ↦
            rw (e, f, get_node)
              record {
                q = t.aq;
                indexed = i;
                here = (i.found (key_reverse key) fn f).0;
                place = inl refl;
              }
        | inl f ↦ rw (e, f, get_node) (opened key fid t is_key i e)
      ]
    ]

    pub set_node-Placed :
        (t : FlowTab R T) (fn : ℕ) (v : FlowNode R)
        → v.f.key ≡ (t.node fn).f.key
        → Placed t fn
        → Placed (set_node h fn v t) fn
    set_node-Placed t fn v e p =
        let i = p.indexed in
        let same = same_keys h t.node fn v e in
        record {
          q = p.q;
          here = p.here;
          place = p.place;
          indexed = record {
            fresh = i.fresh;
            distinct = i.distinct;
            closed = i.closed;
            apart = i.apart;
            in_use = i.in_use;
            in_cq = i.in_cq;
            counted = i.counted;
            keyed = λ n b. rw (same n) (i.keyed n b);
            kept = λ n b. rw (same n) (i.kept n b);
            found = λ k n b. rw (same n) (i.found k n b);
            agrees = i.agrees;
          };
        }

    -- Neither the clocks nor the counters matter.
    pub restat-IsTable :
        (stats : TabStats) (ctime flushtime cq_count : ℕ) (t : FlowTab R T)
        → IsTable h t
        → IsTable h
            (record t { ctime = ctime; flushtime = flushtime; cq_count = cq_count; stats = stats })
    restat-IsTable stats ctime flushtime cq_count t i = record {
      fresh = i.fresh;
      distinct = i.distinct;
      closed = i.closed;
      apart = i.apart;
      in_use = i.in_use;
      in_cq = i.in_cq;
      counted = i.counted;
      keyed = i.keyed;
      kept = i.kept;
      found = i.found;
      agrees = i.agrees;
    }

    pub count_input-IsTable :
        (double : Double R) (pbuf : PBuf) (t : FlowTab R T)
        → IsTable h t
        → IsTable h (count_input double h pbuf t)
    unfolding count_input
    count_input-IsTable double pbuf t i = restat-IsTable _ pbuf.ptime t.flushtime t.cq_count t i
