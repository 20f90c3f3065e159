-- ===== src/Process/Main/Sound.antt =====
-- The loop of `qfTraceMain` in src/qofltrace.c keeps the flow table well formed.
use mathlib.Core.Path.{subst}
use qof.Base.{
  Bool, Bool-cases, List, Option-cases, [], false, inl, inr, length, suc, true, zero, ℕ, ◌<◌, ◌==◌,
  ◌∷◌, ◌≡◌,
}
use qof.Packet.{PBuf}
use qof.Stats.{Double}
use qof.Ring.{Ring, next_head}
use qof.Flow.Table.{HashTable, IsHashTable}
use qof.Flow.Update.Counts.{IsCounted}
use qof.Flow.Index.{IsTable}
use qof.Decode.Run.{Run, ok}
use qof.Decode.Keys.{Gives, Gives-bind, Gives-if}
use qof.Decode.Keyed.{IsPacket}
use qof.Process.Output.{Library}
use qof.Process.Flush.{Process, process_pbuf_ring}
use qof.Process.Flush.Sound.{IsSound, final_flush-IsSound, process_pbuf_ring-IsSound}
use qof.Process.Main.{
  Left, Loop, Read, after_group, broken, captured, end_of_trace, export_on_time, fill_group,
  fill_slot, finish, go_on, group_size, no_packet, set_slot, trace_end, trace_main, whole,
}
use qof.Process.Main.Group.{Returns}
use qof.Process.Main.Total.{IsReady, trace_main-Ends}

-- What the handler leaves of a packet, where `Good` is what it keeps of its own state.
abbrev pub Handled : {S : Type 0} → (S → Type 0) → Bool × PBuf × S → Type 0
Handled Good (handled, pbuf, s) = IsPacket pbuf × Good s

module _ {R T B W P S : Type 0} (double : Double R) (h : HashTable T) (lib : Library R B W)
    (handle : P → PBuf → S → Run (Bool × PBuf × S)) (Good : S → Type 0) where
  pub record IsSoundLoop (l : Loop double h lib handle) : Type 0 where
    pub process : IsSound double h lib l.process
    pub handler : Good l.handler

  abbrev Filled : Left × PBuf × S × List (Read P) → Type 0
  Filled (left, pbuf, s, inputs) = IsPacket pbuf × Good s

  abbrev GroupSound : Left × Loop double h lib handle → Type 0
  GroupSound (left, l) = IsSoundLoop l

  abbrev pub EndSound : Bool × Loop double h lib handle → Type 0
  EndSound (done, l) = IsSoundLoop l

  abbrev pub Keeps : Type 0
  Keeps =
      (raw : P) (pbuf : PBuf) (s : S)
      → IsPacket pbuf
      → Good s
      → Gives (Handled Good) (handle raw pbuf s)

  set_slot-IsSound :
      (a : ℕ) (pbuf : PBuf) (ring : Ring) (p : Process R T B)
      → IsPacket pbuf
      → IsSound double h lib p
      → IsSound double h lib (set_slot double h lib handle a pbuf (record p { pbufring = ring }))
  set_slot-IsSound a pbuf ring p valid i = record {
    indexed = i.indexed;
    counted = i.counted;
    slots = λ b. elim (Bool-cases (a == b)) [
      | inl same ↦ rw same valid
      | inr other ↦ rw other (i.slots b)
    ];
  }

  go_on-GroupSound :
      (left : Left) (l : Loop double h lib handle) (rest : Run (Left × Loop double h lib handle))
      → IsSoundLoop l
      → Gives GroupSound rest
      → Gives GroupSound (go_on double h lib handle left l rest)
  go_on-GroupSound whole l rest i j = j
  go_on-GroupSound end_of_trace l rest i j = i
  go_on-GroupSound (broken is_err) l rest i j = i

  export_on_time-IsSoundLoop :
      (l : Loop double h lib handle)
      → IsSoundLoop l
      → IsSoundLoop (export_on_time double h lib handle l)
  unfolding export_on_time
  export_on_time-IsSoundLoop l i = elim (Option-cases (l.process.octx.fbuf)) [
    | inl e ↦ rw (e, export_on_time) i
    | inr (b, e) ↦
        rw (e, export_on_time)
          record {
            process = record {
              indexed = i.process.indexed;
              counted = i.process.counted;
              slots = i.process.slots;
            };
            handler = i.handler;
          }
  ]

  module _ (keeps : Keeps) where
    fill_slot-Filled :
        (inputs : List (Read P)) (pbuf : PBuf) (s : S)
        → IsPacket pbuf
        → Good s
        → Gives Filled (fill_slot double h lib handle inputs pbuf s)
    unfolding fill_slot
    fill_slot-Filled [] pbuf s valid good = (valid, good)
    fill_slot-Filled (no_packet is_err ∷ inputs) pbuf s valid good = (valid, good)
    fill_slot-Filled (captured raw ∷ inputs) pbuf s valid good =
        Gives-bind Filled (Handled Good) (handle raw pbuf s) _ (keeps raw pbuf s valid good)
          (λ (handled, pbuf', s') k.
            Gives-if Filled handled _ _ k (fill_slot-Filled inputs pbuf' s' k.0 k.1))

    fill_group-GroupSound :
        (n : ℕ) (l : Loop double h lib handle)
        → IsSoundLoop l
        → Gives GroupSound (fill_group double h lib handle n l)
    unfolding fill_group
    fill_group-GroupSound zero l i = i
    fill_group-GroupSound (suc n) l i = elim (Option-cases ((next_head l.process.pbufring).0)) [
      | inl e ↦ rw (e, fill_group) tt
      | inr (a, e) ↦
          rw (e, fill_group)
            (Gives-bind GroupSound Filled _ _
              (fill_slot-Filled l.inputs (l.process.slots a) l.handler (i.process.slots a)
                i.handler)
              (λ (left, pbuf, s, inputs) k.
                let filled : IsSoundLoop (record l {
                  process =
                      set_slot double h lib handle a pbuf
                        (record (l.process) { pbufring = (next_head l.process.pbufring).1 });
                  handler = s;
                  inputs = inputs;
                }) =
                  record {
                    process = set_slot-IsSound a pbuf _ l.process k.0 i.process;
                    handler = k.1;
                  } in
                go_on-GroupSound left _ _ filled (fill_group-GroupSound n _ filled)))
    ]

    module _ (table : IsHashTable h) where
      finish-EndSound :
          (b : Bool) (l : Loop double h lib handle)
          → IsSoundLoop l
          → Gives EndSound (finish double h lib handle b l)
      unfolding finish
      finish-EndSound b l i = record {
        process = final_flush-IsSound double h lib table b l.process l.world i.process;
        handler = i.handler;
      }

      after_group-EndSound :
          (next : Loop double h lib handle → Run (Bool × Loop double h lib handle))
          (l : Loop double h lib handle)
          → ((m : Loop double h lib handle) → IsSoundLoop m → Gives EndSound (next m))
          → IsSoundLoop l
          → Gives EndSound (after_group double h lib handle next l)
      unfolding after_group
      after_group-EndSound next l all i =
          let u = process_pbuf_ring double h lib l.process l.world in
          let m = record l { process = u.1; world = u.2 } in
          let processed : IsSoundLoop m = record {
            process = process_pbuf_ring-IsSound double h lib table l.process l.world i.process;
            handler = i.handler;
          } in
          Gives-if EndSound u.0 _ _
            (all (export_on_time double h lib handle m) (export_on_time-IsSoundLoop m processed))
            (finish-EndSound false m processed)

      trace_end-EndSound :
          (next : Loop double h lib handle → Run (Bool × Loop double h lib handle)) (left : Left)
          (l : Loop double h lib handle)
          → ((m : Loop double h lib handle) → IsSoundLoop m → Gives EndSound (next m))
          → IsSoundLoop l
          → Gives EndSound (trace_end double h lib handle next left l)
      unfolding trace_end
      trace_end-EndSound next whole l all i = after_group-EndSound next l all i
      trace_end-EndSound next end_of_trace l all i = finish-EndSound true l i
      trace_end-EndSound next (broken true) l all i = finish-EndSound false l i
      trace_end-EndSound next (broken false) l all i = after_group-EndSound next l all i

      pub trace_main-EndSound :
          (fuel : ℕ) (l : Loop double h lib handle)
          → IsSoundLoop l
          → Gives EndSound (trace_main double h lib handle fuel l)
      unfolding trace_main
      trace_main-EndSound zero l i = tt
      trace_main-EndSound (suc fuel) l i =
          Gives-bind EndSound GroupSound _ _ (fill_group-GroupSound group_size l i) (λ (left, m) j.
            trace_end-EndSound (trace_main double h lib handle fuel) left m
              (trace_main-EndSound fuel) j)

      -- With a handler that in a good state returns for each packet and leaves a good state: from an
      -- empty ring that can take a group and from a well-formed flow table, the main loop returns and
      -- leaves a well-formed flow table.
      pub trace_main-Keeps-IsTable :
          (fuel : ℕ) (l : Loop double h lib handle)
          → Returns double h lib handle Good
          → IsReady double h lib handle l
          → length l.inputs < fuel
          → IsSoundLoop l
          → (u : Bool × Loop double h lib handle) × (trace_main double h lib handle fuel l ≡ ok u)
            × IsTable h u.1.process.flowtab
            × IsCounted u.1.process.flowtab
      trace_main-Keeps-IsTable fuel l returns ready more i =
          let (u, e) =
            trace_main-Ends double h lib handle Good returns fuel l ready i.handler more in
          let j =
            subst (λ (r : Run (Bool × Loop double h lib handle)). Gives EndSound r) e
              (trace_main-EndSound fuel l i) in
          (u, e, j.process.indexed, j.process.counted)
