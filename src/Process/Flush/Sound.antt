-- ===== src/Process/Flush/Sound.antt =====
-- src/yaflush.c keeps the flow table well formed and the packet slots valid.
use qof.Base.{Bool, Bool-cases, Option-cases, false, if◌then◌else◌, inl, inr, suc, true, zero, ℕ}
use qof.Base.Word.{nonzero}
use qof.Packet.{PBuf}
use qof.Stats.{Double}
use qof.Ring.{Ring, next_tail}
use qof.Flow.Table.{FlowTab, HashTable, IsHashTable}
use qof.Flow.Update.Counts.{IsCounted, flow_pbuf-Step}
use qof.Flow.Index.{IsTable}
use qof.Flow.Index.Update.{flow_pbuf-IsTable}
use qof.Flow.Index.Flush.{tab_flush-IsFlushed}
use qof.Decode.Keyed.{IsPacket}
use qof.Process.Output.{Library}
use qof.Process.Flush.{
  Process, drain, drain_ring, ensure_output, enter_slot, final_flush, flush_rotate, flush_tab,
  process_pbuf_ring, rotate,
}
use qof.Process.Flush.Order.{drain_ring_empty, drain_ring_one}
use qof.Process.Flush.Processed.{
  OnlyOutput, ensure_output-OnlyOutput, ready_none, ready_some, rotate-OnlyOutput,
}

module _ {R T B W : Type 0} (double : Double R) (h : HashTable T) (lib : Library R B W) where
  -- The flow table is well formed, and each packet slot is marked invalid or has a proper key.
  pub record IsSound (p : Process R T B) : Type 0 where
    pub indexed : IsTable h p.flowtab
    pub counted : IsCounted p.flowtab
    pub slots : (a : ℕ) → IsPacket (p.slots a)

  OnlyOutput-IsSound : (p q : Process R T B) → OnlyOutput double h lib p q → IsSound p → IsSound q
  OnlyOutput-IsSound p q (t, r, s) i = record {
    indexed = rw t i.indexed;
    counted = rw t i.counted;
    slots = λ a. rw s (i.slots a);
  }

  module _ (table : IsHashTable h) where
    enter_slot-IsTable :
        (pbuf : PBuf) (t : FlowTab R T)
        → IsPacket pbuf
        → IsTable h t × IsCounted t
        → IsTable h (enter_slot double h lib pbuf t) × IsCounted (enter_slot double h lib pbuf t)
    unfolding enter_slot
    enter_slot-IsTable pbuf t valid (i, c) = elim (Bool-cases (nonzero pbuf.ptime)) [
      | inr e ↦ rw e (i, c)
      | inl e ↦ rw e (
        flow_pbuf-IsTable double h table pbuf (valid e) t i,
        (flow_pbuf-Step double h pbuf t c).0,
      )
    ]

    drain_ring-IsTable :
        (fuel : ℕ) (slots : ℕ → PBuf) (r : Ring) (t : FlowTab R T)
        → ((a : ℕ) → IsPacket (slots a))
        → IsTable h t × IsCounted t
        → let u = drain_ring double h lib fuel slots r t in IsTable h u.1 × IsCounted u.1
    unfolding drain_ring
    drain_ring-IsTable zero slots r t valid i = i
    drain_ring-IsTable (suc fuel) slots r t valid i = elim (Option-cases ((next_tail r).0)) [
      | inl e ↦ rw (drain_ring_empty double h lib fuel slots r t e) i
      | inr (a, e) ↦ rw (drain_ring_one double h lib fuel slots r t a e) (
          drain_ring-IsTable fuel slots (next_tail r).1 (enter_slot double h lib (slots a) t) valid
            (enter_slot-IsTable (slots a) t (valid a) i))
    ]

    drain-IsSound : (p : Process R T B) → IsSound p → IsSound (drain double h lib p)
    unfolding drain
    drain-IsSound p i =
        let d =
          drain_ring-IsTable p.pbufring.count p.slots p.pbufring p.flowtab i.slots
            (i.indexed, i.counted) in
        record { indexed = d.0; counted = d.1; slots = i.slots }

    flush_tab-IsSound :
        (close : Bool) (b : B) (p : Process R T B) (w : W)
        → IsSound p
        → IsSound (flush_tab double h lib close b p w).1
    unfolding flush_tab
    flush_tab-IsSound close b p w i =
        let f =
          tab_flush-IsFlushed h table (lib.write_flow b) close p.flowtab w (i.indexed, i.counted) in
        record { indexed = f.0; counted = f.1; slots = i.slots }

    choose-IsSound :
        (b : Bool) (u v : Bool × Process R T B × W)
        → IsSound u.1
        → IsSound v.1
        → IsSound (if b then u else v).1
    choose-IsSound true u v i j = i
    choose-IsSound false u v i j = j

    flush_rotate-IsSound :
        (b : B) (p : Process R T B) (w : W)
        → IsSound p
        → IsSound (flush_rotate double h lib b p w).1
    unfolding flush_rotate
    flush_rotate-IsSound b p w i =
        let f = flush_tab double h lib false b p w in
        let j = flush_tab-IsSound false b p w i in
        choose-IsSound f.0 (rotate double h lib b f.1 f.2) (false, f.1, f.2)
          (OnlyOutput-IsSound f.1 _ (rotate-OnlyOutput double h lib b f.1 f.2) j) j

    -- Whatever output there is and whatever fails in it.
    pub process_pbuf_ring-IsSound :
        (p : Process R T B) (w : W) → IsSound p → IsSound (process_pbuf_ring double h lib p w).1
    process_pbuf_ring-IsSound p w i =
        let ready = ensure_output double h lib p w in
        let j = OnlyOutput-IsSound p ready.1 (ensure_output-OnlyOutput double h lib p w) i in
        elim (Option-cases (ready.0)) [
          | inl e ↦ rw (ready_none double h lib p w e).1 j
          | inr (b, e) ↦ rw (ready_some double h lib p w b e) (
              flush_rotate-IsSound b (drain double h lib ready.1) ready.2 (drain-IsSound ready.1 j))
        ]

    pub final_flush-IsSound :
        (done : Bool) (p : Process R T B) (w : W)
        → IsSound p
        → IsSound (final_flush double h lib done p w).1
    unfolding final_flush
    final_flush-IsSound done p w i = elim (Option-cases (p.octx.fbuf)) [
      | inl e ↦ rw (e, final_flush) i
      | inr (b, e) ↦
          rw (e, final_flush) (choose-IsSound done _ _ (flush_tab-IsSound true b p w i) i)
    ]
