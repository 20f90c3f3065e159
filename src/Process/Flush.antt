-- ===== src/Process/Flush.antt =====
-- src/yaflush.c: the packets of the ring into the flow table, and the flows to the output.
pub mod Order
pub mod Processed
pub mod Sound
use qof.Base.{Bool, Option, false, if◌then◌else◌, ltb, none, some, suc, true, zero, ℕ, ◌&&◌}
use qof.Base.Word.{nonzero, sub64}
use qof.Packet.{PBuf}
use qof.Stats.{Double}
use qof.Ring.{Ring, next_tail}
use qof.Flow.Table.{FlowTab, HashTable}
use qof.Flow.Update.{flow_pbuf}
use qof.Flow.Flush.{tab_flush}
use qof.Process.Output.{Library, Output, output_close, output_open}

-- What `qfContext_t` holds for these functions. `slots` has the packet buffer at each offset in the
-- ring.
pub record Process (R T B : Type 0) : Type 0 where
  pub pbufring : Ring
  pub slots : ℕ → PBuf
  pub flowtab : FlowTab R T
  pub octx : Output B

module _ {R T B W : Type 0} (double : Double R) (h : HashTable T) (lib : Library R B W) where
  -- "Skip time zero packets", "Add the packet to the flow table".
  unfoldable pub enter_slot : PBuf → FlowTab R T → FlowTab R T
  enter_slot pbuf t = if nonzero pbuf.ptime then flow_pbuf double h pbuf t else t

  -- "process packets from the ring buffer"
  unfoldable pub drain_ring : ℕ → (ℕ → PBuf) → Ring → FlowTab R T → Ring × FlowTab R T
  drain_ring zero slots r t = (r, t)
  drain_ring (suc fuel) slots r t = elim ((next_tail r).0) [
    | none ↦ (r, t)
    | some p ↦ drain_ring fuel slots (next_tail r).1 (enter_slot (slots p) t)
  ]

  abbrev pub set_output : Output B → Process R T B → Process R T B
  set_output o p = record p { octx = o }

  -- "Open output if we need to"
  unfoldable pub ensure_output : Process R T B → W → Option B × Process R T B × W
  ensure_output p w =
      let (opened, o, w1) = output_open lib p.octx w in
      elim (p.octx.fbuf) [
        | some b ↦ (some b, p, w)
        | none ↦ (opened, set_output (record o { fbuf = opened }) p, w1)
      ]

  abbrev pub rotation_due : Process R T B → Bool
  rotation_due p = ltb p.octx.rotate_period (sub64 p.flowtab.ctime p.octx.rotate_last)

  -- "Close output file for rotation if necessary", up to the opening of the next.
  unfoldable pub rotate_close : B → Process R T B → W → Process R T B × W
  rotate_close b p w =
      let now = set_output (record (p.octx) { rotate_last = p.flowtab.ctime }) p in
      if nonzero p.octx.rotate_period
      then (if nonzero p.octx.rotate_last
          then (if rotation_due p
              then (
                set_output (record (now.octx) { fbuf = none }) now,
                output_close lib p.octx b true w,
              )
              else (p, w))
          else (now, w))
      else (p, w)

  abbrev pub is_open : Option B → Bool
  is_open none = false
  is_open (some b) = true

  -- What happens behind the flush: an output that was closed is opened anew.
  unfoldable pub rotate : B → Process R T B → W → Bool × Process R T B × W
  rotate b p w =
      let (p1, w1) = rotate_close b p w in
      let (opened, p2, w2) = ensure_output p1 w1 in (is_open opened, p2, w2)

  -- The packets of the ring, on as much fuel as there are packets in it.
  unfoldable pub drain : Process R T B → Process R T B
  drain p =
      let (ring, tab) = drain_ring p.pbufring.count p.slots p.pbufring p.flowtab in
      record p { pbufring = ring; flowtab = tab }

  -- `yfFlowTabFlush` on the buffer of the output.
  unfoldable pub flush_tab : Bool → B → Process R T B → W → Bool × Process R T B × W
  flush_tab close b p w =
      let (ok, tab, w1) = tab_flush h (lib.write_flow b) close p.flowtab w in
      (ok, record p { flowtab = tab }, w1)

  -- "Flush the flow table", and the rotation.
  unfoldable pub flush_rotate : B → Process R T B → W → Bool × Process R T B × W
  flush_rotate b p w =
      let (ok, p1, w1) = flush_tab false b p w in
      let rotated = rotate b p1 w1 in if ok then rotated else (false, p1, w1)

  -- With the output, if there is one.
  abbrev pub process_with : Option B → Process R T B → W → Bool × Process R T B × W
  process_with none p w = (false, p, w)
  process_with (some b) p w = flush_rotate b (drain p) w

  -- `yfProcessPBufRing`
  unfoldable pub process_pbuf_ring : Process R T B → W → Bool × Process R T B × W
  process_pbuf_ring p w = let (fbuf, p1, w1) = ensure_output p w in process_with fbuf p1 w1

  -- `yfTimeOutFlush`
  unfoldable pub time_out_flush : Process R T B → W → Bool × Process R T B × W
  time_out_flush p w =
      let (fbuf, p1, w1) = ensure_output p w in
      elim fbuf [
        | none ↦ (false, p1, w1)
        | some b ↦
            let (ok, p2, w2) = flush_tab false b p1 w1 in
            let (emitted, w3) = lib.emit b w2 in
            let (p4, w4) = rotate_close b p2 w3 in
            if ok then (if emitted then (true, p4, w4) else (false, p2, w3)) else (false, p2, w2)
      ]

  -- `yfFinalFlush`
  unfoldable pub final_flush : (ok : Bool) → Process R T B → W → Bool × Process R T B × W
  final_flush ok p w = elim (p.octx.fbuf) [
    | none ↦ (ok, p, w)
    | some b ↦
        let (frv, p1, w1) = flush_tab true b p w in
        let (srv, w2) =
          if nonzero p.octx.stats_period then lib.write_stats_rec b w1 else (true, w1) in
        if ok
        then (frv && srv, p1, output_close lib p.octx b true w2)
        else (false, p, output_close lib p.octx b false w)
  ]
