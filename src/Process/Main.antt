-- ===== src/Process/Main.antt =====
-- `qfTraceMain` of src/qofltrace.c: the loop over the packets of a trace. The quit flag, which a signal
-- sets, stays unset.
pub mod Group
pub mod Total
pub mod Sound
use qof.Base.{
  Bool, List, [], false, if◌then◌else◌, leb, none, some, suc, true, zero, ℕ, ◌&&◌, ◌==◌, ◌∷◌,
}
use qof.Base.Word.{nonzero, sub64}
use qof.Packet.{PBuf}
use qof.Stats.{Double}
use qof.Ring.{next_head}
use qof.Decode.Run.{Run, fault, ok, out_of_fuel, ◌>>=◌}
use qof.Flow.Table.{HashTable}
use qof.Process.Output.{Library, Output}
use qof.Process.Flush.{Process, final_flush, process_pbuf_ring, set_output}

-- A call of `trace_read_packet`: a packet, or a failure and what `trace_is_err` says of it. The list of
-- calls ends at the end of the trace.
pub data Read (P : Type 0) : Type 0 where
  captured : P → Read P
  no_packet : (is_err : Bool) → Read P

-- How a group of packets was left: whole, at the end of the trace, or at a failure.
pub data Left : Type 0 where
  whole end_of_trace : Left
  broken : (is_err : Bool) → Left

-- `TRACE_PACKET_GROUP`
abbrev pub group_size : ℕ
group_size = 32

module _ {R T B W P S : Type 0} (double : Double R) (h : HashTable T) (lib : Library R B W)
    (handle : P → PBuf → S → Run (Bool × PBuf × S)) where
  -- The state of the loop: `inputs` has the calls to come.
  pub record Loop : Type 0 where
    pub process : Process R T B
    pub handler : S
    pub inputs : List (Read P)
    pub world : W

  abbrev pub set_slot : ℕ → PBuf → Process R T B → Process R T B
  set_slot a pbuf p = record p { slots = λ b. if a == b then pbuf else p.slots b }

  -- "try to parse packets into it until we get one". The slot is written also by a packet that is
  -- skipped.
  unfoldable pub fill_slot : List (Read P) → PBuf → S → Run (Left × PBuf × S × List (Read P))
  fill_slot [] pbuf s = ok (end_of_trace, pbuf, s, [])
  fill_slot (no_packet is_err ∷ inputs) pbuf s = ok (broken is_err, pbuf, s, inputs)
  fill_slot (captured raw ∷ inputs) pbuf s = do
    (handled, pbuf', s') ← handle raw pbuf s
    let rest = fill_slot inputs pbuf' s'
    if handled then ok (whole, pbuf', s', inputs) else rest

  -- On to the next packet of the group, or out of it.
  abbrev pub go_on : Left → Loop → (rest : Run (Left × Loop)) → Run (Left × Loop)
  go_on whole l rest = rest
  go_on end_of_trace l rest = ok (end_of_trace, l)
  go_on (broken is_err) l rest = ok (broken is_err, l)

  -- A group, of which `n` packets are to come. A slot that is not there fails the assertion, which is
  -- taken for a fault.
  unfoldable pub fill_group : ℕ → Loop → Run (Left × Loop)
  fill_group zero l = ok (whole, l)
  fill_group (suc n) l =
      let (slot, ring) = next_head l.process.pbufring in
      elim slot [
        | none ↦ fault
        | some a ↦ do
          (left, pbuf, s, inputs) ← fill_slot l.inputs (l.process.slots a) l.handler
          let filled = record l {
            process = set_slot a pbuf (record (l.process) { pbufring = ring });
            handler = s;
            inputs = inputs;
          }
          go_on left filled (fill_group n filled)
      ]

  unfoldable pub timer_due : (period last now : ℕ) → Bool
  timer_due period last now = nonzero period && leb period (sub64 now last)

  -- `qfTracePeriodicExport`, whose result is not looked at.
  unfoldable pub stats_export : B → ℕ → Output B → W → Bool × Output B × W
  stats_export b ctime o w =
      let (done, w1) = lib.write_stats_rec b w in
      if timer_due o.stats_period o.stats_last ctime
      then (if done then (true, record o { stats_last = ctime }, w1) else (false, o, w1))
      else (true, o, w)

  unfoldable pub template_export : B → ℕ → Output B → W → Bool × Output B × W
  template_export b ctime o w =
      let (done, w1) = lib.export_templates b w in
      if timer_due o.template_rtx_period o.template_rtx_last ctime
      then (if done then (true, record o { template_rtx_last = ctime }, w1) else (false, o, w1))
      else (true, o, w)

  unfoldable pub periodic_export : B → ℕ → Output B → W → Bool × Output B × W
  periodic_export b ctime o w =
      let (done, o1, w1) = stats_export b ctime o w in
      if done then template_export b ctime o1 w1 else (false, o1, w1)

  unfoldable pub export_on_time : Loop → Loop
  export_on_time l = elim (l.process.octx.fbuf) [
    | none ↦ l
    | some b ↦
        let (done, o, w) = periodic_export b l.process.flowtab.ctime l.process.octx l.world in
        record l { process = set_output double h lib o l.process; world = w }
  ]

  -- The end of the loop, with `yfFinalFlush`.
  unfoldable pub finish : Bool → Loop → Run (Bool × Loop)
  finish ok_so_far l =
      let (done, p, w) = final_flush double h lib ok_so_far l.process l.world in
      ok (done, record l { process = p; world = w })

  -- "Process the packet buffer", "Do periodic export as necessary", and round again.
  unfoldable pub after_group : (next : Loop → Run (Bool × Loop)) → Loop → Run (Bool × Loop)
  after_group next l =
      let (done, p, w) = process_pbuf_ring double h lib l.process l.world in
      let processed = record l { process = p; world = w } in
      let more = next (export_on_time processed) in if done then more else finish false processed

  -- "Check for error", "Check for quit or EOF".
  unfoldable pub trace_end : (next : Loop → Run (Bool × Loop)) → Left → Loop → Run (Bool × Loop)
  trace_end next whole l = after_group next l
  trace_end next end_of_trace l = finish true l
  trace_end next (broken is_err) l =
      let more = after_group next l in if is_err then finish false l else more

  unfoldable pub trace_main : ℕ → Loop → Run (Bool × Loop)
  trace_main zero l = out_of_fuel
  trace_main (suc fuel) l = do
    (left, filled) ← fill_group group_size l
    trace_end (trace_main fuel) left filled
