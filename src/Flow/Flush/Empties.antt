-- ===== src/Flow/Flush/Empties.antt =====
-- What `yfFlowTabFlush` of src/yaftab.c leaves of the two queues.
use qof.PickQueue.Spec
use mathlib.Core.Path.{subst}
use qof.Base.{
  Bool, Bool-cases, List, [], ap, arith, drop, false, if◌then◌else◌, inl, inr, length, length-drop,
  refl, suc, sym, true, zero, ℕ, ◌%◌, ◌&&◌, ◌^◌, ◌∙◌, ◌∷◌, ◌≡◌, ◌≢◌, ◌≤◌,
}
use qof.Base.Word.{add32, nonzero, sub32}
use qof.Flow.Record.{FlowNode}
use qof.Flow.Table.{FlowTab, HashTable, end_forced, end_idle, end_resource, flow_close}
use qof.Flow.Update.Counts.{IsCounted, Step, Step-either, Step-refl, Step-trans, flow_close-Step}
use qof.Flow.Flush.{
  Write, close_flows, close_while, flush_closed, idle_over, tab_flush, too_many, write_records,
}

-- No node of a queue is the null pointer.
abbrev pub NoNull : List ℕ → Type 0
NoNull [] = Unit
NoNull (n ∷ q) = (n ≢ 0) × NoNull q

pick_tail : (q : List ℕ) → Spec.pick q (Spec.tail q) ≡ drop 1 q
pick_tail [] = refl
pick_tail (n ∷ q) = ground arith

drop-NoNull : (q : List ℕ) → NoNull q → NoNull (drop 1 q)
drop-NoNull [] k = tt
drop-NoNull (n ∷ q) k = k.1

empty_list : (q : List ℕ) → length q ≡ 0 → q ≡ []
empty_list [] h = refl
empty_list (n ∷ q) h = absurd (omega arith)

null_tail : (q : List ℕ) → NoNull q → (nonzero (Spec.tail q) && true) ≡ false → q ≡ []
null_tail [] k e = refl
null_tail (n ∷ q) k e = absurd (k.0 (ground arith))

module _ {R T W : Type 0} (h : HashTable T) (write_flow : Write R W) where
  close_while-Step :
      (fuel : ℕ) (test : FlowTab R T → FlowNode R → Bool) (r : ℕ) (t : FlowTab R T)
      → Step t (close_while h write_flow fuel test r t)
  unfolding close_while
  close_while-Step zero test r t = Step-refl t
  close_while-Step (suc fuel) test r t =
      Step-either (nonzero (Spec.tail t.aq) && test t (t.node (Spec.tail t.aq))) _ _ _
        (Step-trans (flow_close-Step h (Spec.tail t.aq) r t)
          (close_while-Step fuel test r (flow_close h (Spec.tail t.aq) r t)))
        (Step-refl t)

  pub close_flows-Step :
      (close : Bool) (t : FlowTab R T) → Step t (close_flows h write_flow close t)
  unfolding close_flows
  close_flows-Step close t =
      Step-trans (close_while-Step (length t.aq) (idle_over h write_flow) end_idle t) (
        Step-trans (close_while-Step _ (too_many h write_flow) end_resource _)
          (close_while-Step _ _ end_forced _))

  -- Closing the tail takes it off the active queue.
  closed_aq : (r : ℕ) (t : FlowTab R T) → (flow_close h (Spec.tail t.aq) r t).aq ≡ drop 1 t.aq
  unfolding flow_close
  closed_aq r t = pick_tail t.aq

  close_while-NoNull :
      (fuel : ℕ) (test : FlowTab R T → FlowNode R → Bool) (r : ℕ) (t : FlowTab R T)
      → NoNull t.aq
      → NoNull (close_while h write_flow fuel test r t).aq
  unfolding close_while
  close_while-NoNull zero test r t k = k
  close_while-NoNull (suc fuel) test r t k =
      elim (Bool-cases (nonzero (Spec.tail t.aq) && test t (t.node (Spec.tail t.aq)))) [
        | inl e ↦ rw e (
            close_while-NoNull fuel test r (flow_close h (Spec.tail t.aq) r t)
              (subst NoNull (sym (closed_aq r t)) (drop-NoNull t.aq k)))
        | inr e ↦ rw e k
      ]

  -- All flows closed: the active queue is empty.
  forced :
      (fuel r : ℕ) (t : FlowTab R T)
      → NoNull t.aq
      → length t.aq ≤ fuel
      → (close_while h write_flow fuel (λ _ _. true) r t).aq ≡ []
  unfolding close_while
  forced zero r t k l = empty_list t.aq (omega arith)
  forced (suc fuel) r t k l = elim (Bool-cases (nonzero (Spec.tail t.aq) && true)) [
    | inl e ↦ rw e (
        forced fuel r (flow_close h (Spec.tail t.aq) r t)
          (subst NoNull (sym (closed_aq r t)) (drop-NoNull t.aq k))
          (subst (λ q. length q ≤ fuel) (sym (closed_aq r t)) (omega (arith, length-drop 1 t.aq))))
    | inr e ↦ rw e (null_tail t.aq k e)
  ]

  close_flows-empty : (t : FlowTab R T) → NoNull t.aq → (close_flows h write_flow true t).aq ≡ []
  unfolding close_flows
  close_flows-empty t k =
      forced _ end_forced _
        (close_while-NoNull _ _ end_resource _ (close_while-NoNull _ _ end_idle t k)) (omega arith)

  -- Of a successful flush.
  abbrev Emptied : Spec.Queue → FlowTab R T → Type 0
  Emptied aq u = (u.cq ≡ []) × (u.cq_count ≡ 0) × (u.aq ≡ aq)

  on_success :
      (P : FlowTab R T → Type 0) (b : Bool) (u v : Bool × FlowTab R T × W)
      → (u.0 ≡ true → P u.1)
      → v.0 ≡ false
      → (if b then u else v).0 ≡ true
      → P (if b then u else v).1
  on_success P true u v k e d = k d
  on_success P false u v k e d = ground (arith, e, d)

  pub one_less :
      (q : List ℕ) (fn c : ℕ) (cq : List ℕ)
      → cq ≡ fn ∷ q
      → c ≡ length cq % 2 ^ 32
      → sub32 c 1 ≡ length q % 2 ^ 32
  one_less q fn c cq e k =
      let longer : length cq ≡ suc (length q) = ap length e in omega (arith, longer, k)

  flush_closed-empty :
      (q : List ℕ) (t : FlowTab R T) (w : W)
      → t.cq ≡ q
      → IsCounted t
      → (flush_closed h write_flow q t w).0 ≡ true
      → Emptied t.aq (flush_closed h write_flow q t w).1
  unfolding flush_closed
  flush_closed-empty [] t w e k d = (refl, k ∙ ap (λ q. length q % 2 ^ 32) e, refl)
  flush_closed-empty (fn ∷ q) t w e k d =
      on_success (Emptied t.aq) (write_records h write_flow t.config.uniflow (t.node fn).f w).0 _ _
        (λ d'. flush_closed-empty q _ _ refl (one_less q fn t.cq_count t.cq e k) d') refl d

  -- A flush that is to close all flows and that writes all records succeeds in this: both queues are
  -- empty and the close queue's count is 0, if that count was right and no null pointer was queued.
  pub tab_flush-empty :
      (t : FlowTab R T) (w : W)
      → IsCounted t
      → NoNull t.aq
      → (tab_flush h write_flow true t w).0 ≡ true
      → ((tab_flush h write_flow true t w).1.cq ≡ [])
        × ((tab_flush h write_flow true t w).1.cq_count ≡ 0)
        × ((tab_flush h write_flow true t w).1.aq ≡ [])
  unfolding tab_flush
  tab_flush-empty t w counted no_null done =
      let started = record t {
        flushtime = t.ctime;
        stats = record (t.stats) { stat_flush = add32 t.stats.stat_flush 1 };
      } in
      let closed = close_flows h write_flow true started in
      let flushed =
        flush_closed-empty closed.cq closed w refl ((close_flows-Step true started).counted counted)
          done in
      (flushed.0, flushed.1, flushed.2 ∙ close_flows-empty started no_null)
