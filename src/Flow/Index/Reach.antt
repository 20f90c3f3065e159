-- ===== src/Flow/Index/Reach.antt =====
-- The tables that packets and flushes lead to in src/yaftab.c are all well formed.
use qof.Base.{Bool, Option-cases, [], ap, arith, inl, inr, none, refl, true, ℕ, ◌≡◌}
use qof.Packet.{FlowKey, PBuf}
use qof.Stats.{Double}
use qof.Flow.Key.Contract.{IsKey}
use qof.Flow.Record.{Config, FlowNode}
use qof.Flow.Table.{FlowTab, HashTable, IsHashTable, tab_alloc}
use qof.Flow.Update.{flow_pbuf}
use qof.Flow.Update.Counts.{IsCounted, flow_pbuf-Step}
use qof.Flow.Flush.{Write, tab_flush}
use qof.Flow.Flush.Empties.{tab_flush-empty}
use qof.Flow.Index.{IsTable, tab_alloc-IsTable}
use qof.Flow.Index.Update.{flow_pbuf-IsTable}
use qof.Flow.Index.Flush.{IsFlushed, positive-NoNull, tab_flush-IsFlushed}
use qof.PickQueue.Members.{has}

module _ {R T W : Type 0} (double : Double R) (h : HashTable T) (write_flow : Write R W) where
  -- A call of the flow table, with what it writes.
  pub data Step (s u : FlowTab R T × W) : Type 0 where
    enter : (pbuf : PBuf) → IsKey pbuf.key → u ≡ (flow_pbuf double h pbuf s.0, s.1) → Step s u
    flush :
        (close : Bool)
        → u ≡ ((tab_flush h write_flow close s.0 s.1).1, (tab_flush h write_flow close s.0 s.1).2)
        → Step s u

  pub data Reach (s : FlowTab R T × W) : FlowTab R T × W → Type 0 where
    here : Reach s s
    next : {u v : FlowTab R T × W} → Reach s u → Step u v → Reach s v

  module _ (table : IsHashTable h) where
    Step-IsFlushed :
        {s u : FlowTab R T × W}
        → Step s u
        → IsFlushed h table write_flow s.0
        → IsFlushed h table write_flow u.0
    Step-IsFlushed {s} {u} (enter pbuf is_key e) (i, c) =
        rw e (
          flow_pbuf-IsTable double h table pbuf is_key s.0 i,
          (flow_pbuf-Step double h pbuf s.0 c).0,
        )
    Step-IsFlushed {s} {u} (flush close e) i =
        rw e (tab_flush-IsFlushed h table write_flow close s.0 s.1 i)

    Reach-IsFlushed :
        {s u : FlowTab R T × W}
        → IsFlushed h table write_flow s.0
        → Reach s u
        → IsFlushed h table write_flow u.0
    Reach-IsFlushed i here = i
    Reach-IsFlushed i (next r st) = Step-IsFlushed st (Reach-IsFlushed i r)

    start-IsCounted : (c : Config) (unused : ℕ → FlowNode R) → IsCounted (tab_alloc h c unused)
    unfolding tab_alloc
    start-IsCounted c unused = refl

    none_found :
        (t : FlowTab R T) → IsTable h t → t.aq ≡ [] → (k : FlowKey) → h.find k t.table ≡ none
    none_found t i e k = elim (Option-cases (h.find k t.table)) [
      | inl absent ↦ absent
      | inr (n, f) ↦ absurd (ground (arith, (i.found k n f).0, ap (λ q. has q n) e))
    ]

    start-IsFlushed :
        (c : Config) (unused : ℕ → FlowNode R) → IsFlushed h table write_flow (tab_alloc h c unused)
    start-IsFlushed c unused = (tab_alloc-IsTable h table c unused, start-IsCounted c unused)

    -- Whatever packets came and whatever flushes were made since the table was allocated, successful or
    -- not: the active queue has each open flow once, and none that is closed; the two counts are the
    -- lengths of the queues modulo 2^32; and the key index finds exactly the open flows, each under the
    -- keys that equal its own. The packets' keys are of version 4 or 6.
    pub Reach-IsTable :
        (c : Config) (unused : ℕ → FlowNode R) (w : W) (s : FlowTab R T × W)
        → Reach (tab_alloc h c unused, w) s
        → IsTable h s.0 × IsCounted s.0
    Reach-IsTable c unused w s r = Reach-IsFlushed (start-IsFlushed c unused) r

    -- From every such table a flush that is to close all flows, and that writes all records, leaves
    -- nothing behind: both queues are empty, and the index finds no flow under any key.
    pub Reach-drained :
        (c : Config) (unused : ℕ → FlowNode R) (w : W) (s : FlowTab R T × W)
        → Reach (tab_alloc h c unused, w) s
        → (tab_flush h write_flow true s.0 s.1).0 ≡ true
        → let u = (tab_flush h write_flow true s.0 s.1).1 in
          (u.aq ≡ []) × (u.cq ≡ []) × ((k : FlowKey) → h.find k u.table ≡ none)
    Reach-drained c unused w s r done =
        let i = Reach-IsTable c unused w s r in
        let empty =
          tab_flush-empty h write_flow s.0 s.1 i.1
            (positive-NoNull s.0.aq (λ n e. (i.0.in_use n e).0)) done in
        let after = tab_flush-IsFlushed h table write_flow true s.0 s.1 i in
        (empty.2, empty.0, none_found _ after.0 empty.2)
