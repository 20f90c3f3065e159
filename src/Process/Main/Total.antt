-- ===== src/Process/Main/Total.antt =====
-- The loop of `qfTraceMain` in src/qofltrace.c ends, and leaves out the last packets of a trace.
use qof.Base.{
  Bool, Bool-cases, List, Option-cases, ap, arith, false, inl, inr, length, refl, suc, true, zero,
  ℕ, ◌<◌, ◌≡◌, ◌≢◌, ◌≤◌,
}
use qof.Packet.{PBuf}
use qof.Stats.{Double}
use qof.Ring.Queue.{IsRing}
use qof.Decode.Run.{Run, ok}
use qof.Flow.Table.{HashTable}
use qof.Process.Output.{Library}
use qof.Process.Main.{
  Left, Loop, Read, after_group, broken, end_of_trace, export_on_time, finish, group_size,
  trace_end, trace_main, whole,
}
use qof.Process.Flush.{final_flush, process_pbuf_ring}
use qof.Process.Flush.Processed.{process_pbuf_ring-enter_all}
use qof.Process.Main.Group.{Ahead, AllCaptured, Behind, Returns, fill_group-total}

module _ {R T B W P S : Type 0} (double : Double R) (h : HashTable T) (lib : Library R B W)
    (handle : P → PBuf → S → Run (Bool × PBuf × S)) where
  -- The ring can take a group, and holds none of its packets.
  abbrev pub IsReady : Loop double h lib handle → Type 0
  IsReady l = (group_size ≤ l.process.pbufring.cap) × ((i : ℕ) × IsRing l.process.pbufring i 0)

  export_on_time-process :
      (l : Loop double h lib handle)
      → let m = export_on_time double h lib handle l in
        (m.process.pbufring ≡ l.process.pbufring) × (m.inputs ≡ l.inputs) × (m.handler ≡ l.handler)
  unfolding export_on_time
  export_on_time-process l = elim (Option-cases (l.process.octx.fbuf)) [
    | inl e ↦ rw (e, export_on_time) (refl, refl, refl)
    | inr (b, e) ↦ rw (e, export_on_time) (refl, refl, refl)
  ]

  abbrev Ends : Run (Bool × Loop double h lib handle) → Type 0
  Ends r = (u : Bool × Loop double h lib handle) × (r ≡ ok u)

  finish-Ends : (b : Bool) (l : Loop double h lib handle) → Ends (finish double h lib handle b l)
  unfolding finish
  finish-Ends b l = (_, refl)

  after_group-Ends :
      (next : Loop double h lib handle → Run (Bool × Loop double h lib handle))
      (l : Loop double h lib handle) (i k : ℕ)
      → IsRing l.process.pbufring i k
      → group_size ≤ l.process.pbufring.cap
      → ((m : Loop double h lib handle)
          → m.inputs ≡ l.inputs
          → m.handler ≡ l.handler
          → IsReady m
          → Ends (next m))
      → Ends (after_group double h lib handle next l)
  unfolding after_group
  after_group-Ends next l i k ring room all =
      let u = process_pbuf_ring double h lib l.process l.world in
      let processed = record l { process = u.1; world = u.2 } in
      elim (process_pbuf_ring-enter_all double h lib l.process l.world ring) [
        | inl (none_open, failed, same, still) ↦ rw failed (finish-Ends false processed)
        | inr (b, opened, (on_table, reported, emptied)) ↦ elim (Bool-cases (u.0)) [
          | inr e ↦ rw e (finish-Ends false processed)
          | inl e ↦
              let kept = export_on_time-process processed in
              let m = export_on_time double h lib handle processed in
              rw e (
                all m kept.1 kept.2
                  (rw kept.0 (omega (arith, emptied.2, room)), (emptied.0, rw kept.0 emptied.1)))
        ]
      ]

  trace_end-Ends :
      (next : Loop double h lib handle → Run (Bool × Loop double h lib handle)) (left : Left)
      (l : Loop double h lib handle) (i k : ℕ)
      → IsRing l.process.pbufring i k
      → group_size ≤ l.process.pbufring.cap
      → ((m : Loop double h lib handle)
          → m.inputs ≡ l.inputs
          → m.handler ≡ l.handler
          → left ≢ end_of_trace
          → IsReady m
          → Ends (next m))
      → Ends (trace_end double h lib handle next left l)
  unfolding trace_end
  trace_end-Ends next whole l i k ring room all =
      after_group-Ends next l i k ring room (λ m e g r. all m e g (λ f. cc) r)
  trace_end-Ends next end_of_trace l i k ring room all = finish-Ends true l
  trace_end-Ends next (broken true) l i k ring room all = finish-Ends false l
  trace_end-Ends next (broken false) l i k ring room all =
      after_group-Ends next l i k ring room (λ m e g r. all m e g (λ f. cc) r)

  module _ (Good : S → Type 0) (returns : Returns double h lib handle Good) where
    shorter :
        (left : Left) (inputs rest : List (Read P))
        → Behind group_size left inputs rest
        → left ≢ end_of_trace
        → length rest < length inputs
    shorter whole inputs rest b ne = omega (arith, b)
    shorter end_of_trace inputs rest b ne = absurd (ne refl)
    shorter (broken is_err) inputs rest b ne = b

    -- From a ring that can take a group and is empty, and from a good state of the handler, the main loop
    -- returns on any trace, whatever fails in the trace or in the output, if its fuel is more than the
    -- calls for a packet that the trace still answers. The condition is on the handler: in a good state
    -- it returns for every packet of the trace's type, and leaves a good state.
    pub trace_main-Ends :
        (fuel : ℕ) (l : Loop double h lib handle)
        → IsReady l
        → Good l.handler
        → length l.inputs < fuel
        → (u : Bool × Loop double h lib handle) × (trace_main double h lib handle fuel l ≡ ok u)
    unfolding trace_main
    trace_main-Ends zero l ready good more = absurd (omega (arith, more))
    trace_main-Ends (suc fuel) l (room, (i, ring)) good more =
        let filled =
          fill_group-total double h lib handle Good returns group_size l i 0 ring room good in
        let r = filled.0 in
        let f = filled.2 in
        rw filled.1 (
          trace_end-Ends (trace_main double h lib handle fuel) r.0 r.1 f.ring.0 f.ring.1 f.ring.2
            (omega (arith, f.room, room))
            (λ m e g ne again.
              trace_main-Ends fuel m again (rw g f.good)
                (omega (arith, more, shorter r.0 l.inputs r.1.inputs f.behind ne, ap length e))))

    at_end :
        (next : Loop double h lib handle → Run (Bool × Loop double h lib handle)) (left : Left)
        (l m : Loop double h lib handle)
        → Behind group_size left l.inputs m.inputs
        → Ahead left l.inputs m.inputs
        → AllCaptured l.inputs
        → length l.inputs < group_size
        → trace_end double h lib handle next left m ≡ finish double h lib handle true m
    unfolding trace_end
    at_end next whole l m b a all few = absurd (omega (arith, b, few))
    at_end next end_of_trace l m b a all few = refl
    at_end next (broken is_err) l m b a all few = absurd (a all)

    -- The packets that come last in a trace and are too few for a group, fewer than 32, never reach the
    -- flow table: the loop ends with a final flush of the table as it was before them, to the output as
    -- it was.
    pub trace_main-lost :
        (fuel : ℕ) (l : Loop double h lib handle)
        → IsReady l
        → Good l.handler
        → AllCaptured l.inputs
        → length l.inputs < group_size
        → (m : Loop double h lib handle) × (trace_main double h lib handle (suc fuel) l ≡ (
            let f = final_flush double h lib true m.process m.world in
            ok (f.0, record m { process = f.1; world = f.2 })))
          × (m.process.flowtab ≡ l.process.flowtab)
          × (m.process.octx ≡ l.process.octx)
          × (m.world ≡ l.world)
    unfolding trace_main finish
    trace_main-lost fuel l (room, (i, ring)) good all few =
        let filled =
          fill_group-total double h lib handle Good returns group_size l i 0 ring room good in
        let r = filled.0 in
        let f = filled.2 in
        (
          r.1,
          rw filled.1
              (at_end (trace_main double h lib handle fuel) r.0 l r.1 f.behind f.ahead all few),
          f.table,
          f.output,
          f.outside,
        )
