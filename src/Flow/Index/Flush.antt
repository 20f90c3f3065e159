-- ===== src/Flow/Index/Flush.antt =====
-- `yfFlowTabFlush` of src/yaftab.c keeps the key index and the queues in step.
use mathlib.Core.Path.{subst}
use qof.PickQueue.Spec
use qof.Base.{
  Bool, Bool-cases, List, [], ap, arith, false, if◌then◌else◌, inl, inr, refl, suc, true, zero, ℕ,
  ◌&&◌, ◌<◌, ◌∷◌, ◌≡◌,
}
use qof.Base.Word.{add32, nonzero, sub32}
use qof.PickQueue.Members.{IsDistinct, has}
use qof.Flow.Record.{FlowNode}
use qof.Flow.Table.{
  FlowTab, HashTable, IsHashTable, TabStats, end_forced, end_idle, end_resource, flow_close,
}
use qof.Flow.Flush.{Write, close_flows, close_while, flush_closed, tab_flush, write_records}
use qof.Flow.Flush.Empties.{NoNull, close_flows-Step, one_less}
use qof.Flow.Update.Counts.{IsCounted}
use qof.Flow.Index.{IsTable}
use qof.Flow.Index.Packet.{flow_close-IsTable, restat-IsTable}

has-tail : (q : List ℕ) → nonzero (Spec.tail q) ≡ true → has q (Spec.tail q) ≡ true
has-tail [] e = ground arith
has-tail (n ∷ q) e = ground arith

pub positive-NoNull : (q : List ℕ) → ((n : ℕ) → has q n ≡ true → 0 < n) → NoNull q
positive-NoNull [] k = tt
positive-NoNull (m ∷ q) k =
    (ground (arith, k m), positive-NoNull q (λ n e. k n (ground (arith, e))))

module _ {R T W : Type 0} (h : HashTable T) (table : IsHashTable h) (write_flow : Write R W) where
  close_while-IsTable :
      (fuel : ℕ) (test : FlowTab R T → FlowNode R → Bool) (r : ℕ) (t : FlowTab R T)
      → IsTable h t
      → IsTable h (close_while h write_flow fuel test r t)
  unfolding close_while
  close_while-IsTable zero test r t i = i
  close_while-IsTable (suc fuel) test r t i =
      elim (Bool-cases (nonzero (Spec.tail t.aq) && test t (t.node (Spec.tail t.aq)))) [
        | inr e ↦ rw e i
        | inl e ↦ rw e (
            close_while-IsTable fuel test r (flow_close h (Spec.tail t.aq) r t) (
              flow_close-IsTable h table (Spec.tail t.aq) r t (record {
                q = t.aq;
                indexed = i;
                here = has-tail t.aq (ground (arith, e));
                place = inl refl;
              })))
      ]

  close_flows-IsTable :
      (close : Bool) (t : FlowTab R T) → IsTable h t → IsTable h (close_flows h write_flow close t)
  unfolding close_flows
  close_flows-IsTable close t i =
      close_while-IsTable _ _ end_forced _
        (close_while-IsTable _ _ end_resource _ (close_while-IsTable _ _ end_idle t i))

  -- What a flush keeps.
  abbrev pub IsFlushed : FlowTab R T → Type 0
  IsFlushed t = IsTable h t × IsCounted t

  -- A node leaves the close queue from its tail.
  one-IsFlushed :
      (q : List ℕ) (fn : ℕ) (stats : TabStats) (t : FlowTab R T)
      → t.cq ≡ fn ∷ q
      → IsFlushed t
      → IsFlushed (record t { cq = q; cq_count = sub32 t.cq_count 1; stats = stats })
  one-IsFlushed q fn stats t e (i, counted) = (
    record {
      fresh = i.fresh;
      distinct = i.distinct;
      closed = (subst IsDistinct e i.closed).1;
      apart = λ n b. ground (arith, i.apart n b, ap (λ p. has p n) e);
      in_use = i.in_use;
      in_cq = λ n b. ground (arith, i.in_cq n, ap (λ p. has p n) e, b);
      counted = i.counted;
      keyed = i.keyed;
      kept = i.kept;
      found = i.found;
      agrees = i.agrees;
    },
    one_less h write_flow q fn t.cq_count t.cq e counted,
  )

  if-IsFlushed :
      (b : Bool) (u v : Bool × FlowTab R T × W)
      → IsFlushed u.1
      → IsFlushed v.1
      → IsFlushed (if b then u else v).1
  if-IsFlushed true u v p q = p
  if-IsFlushed false u v p q = q

  flush_closed-IsFlushed :
      (q : List ℕ) (t : FlowTab R T) (w : W)
      → t.cq ≡ q
      → IsFlushed t
      → IsFlushed (flush_closed h write_flow q t w).1
  unfolding flush_closed
  flush_closed-IsFlushed [] t w e i = subst IsFlushed (ap (λ (p : List ℕ). record t { cq = p }) e) i
  flush_closed-IsFlushed (fn ∷ q) t w e i =
      let one = one-IsFlushed q fn _ t e i in
      if-IsFlushed (write_records h write_flow t.config.uniflow (t.node fn).f w).0 _ _
        (flush_closed-IsFlushed q _ _ refl one) one

  -- A flush of any kind, whether it succeeds or fails half-way.
  pub tab_flush-IsFlushed :
      (close : Bool) (t : FlowTab R T) (w : W)
      → IsFlushed t
      → IsFlushed (tab_flush h write_flow close t w).1
  unfolding tab_flush
  tab_flush-IsFlushed close t w (i, counted) =
      let stats = record (t.stats) { stat_flush = add32 t.stats.stat_flush 1 } in
      let started = record t { flushtime = t.ctime; stats = stats } in
      let closed = close_flows h write_flow close started in
      if-IsFlushed _ _ _ (i, counted)
        (flush_closed-IsFlushed closed.cq closed w refl (
          close_flows-IsTable close started
              (restat-IsTable h table stats t.ctime t.ctime t.cq_count t i),
          (close_flows-Step h write_flow close started).counted counted,
        ))
