-- ===== src/Flow/Flush.antt =====
-- The export of closed flows in src/yaftab.c: `yfFlowTabFlush`, with the split of a biflow in two.
pub mod Empties
use qof.PickQueue.Spec
use qof.Base.{
  Bool, Option, [], false, if◌then◌else◌, length, ltb, none, not, some, suc, true, zero, ℕ, ◌&&◌,
  ◌+◌, ◌==◌, ◌∷◌,
}
use qof.Base.Word.{add32, add64, nonzero, sub32, sub64, to_u64}
use qof.Base.Int.{neg_part, pos, pos_part}
use qof.Flow.Key.{key_reverse}
use qof.Flow.Record.{Flow, FlowNode, no_val}
use qof.Flow.Table.{FlowTab, HashTable, end_forced, end_idle, end_resource, flow_close}

-- `YF_FLUSH_DELAY` and `YF_MAX_CQ`
abbrev pub flush_delay : ℕ
flush_delay = 5000

abbrev pub max_cq : ℕ
max_cq = 2500

module _ {R : Type 0} where
  unfoldable pub uniflow : Flow R → Flow R
  uniflow bf = record bf { rval = no_val; rdtime = pos 0 }

  -- The record of the reverse direction, `none` if there is none. It goes into the record that
  -- `yfUniflow` filled in, so the flow identifier and the port, protocol and address fields are there.
  unfoldable pub uniflow_reverse : Flow R → (uf : Flow R) → Option (Flow R)
  uniflow_reverse bf uf =
      let reversed = record uf {
        stime = to_u64 (sub64 (bf.stime + pos_part bf.rdtime) (neg_part bf.rdtime));
        etime = bf.etime;
        rdtime = pos 0;
        source_mac_addr = bf.destination_mac_addr;
        destination_mac_addr = bf.source_mac_addr;
        key = key_reverse bf.key;
        val = bf.rval;
        rval = no_val;
        rtt = bf.rtt;
        reason = bf.reason;
      } in
      if nonzero bf.rval.pkt then some reversed else none

-- `yfWriteFlow` and the message buffer that it writes to, which it may fail to do.
abbrev pub Write : (R W : Type 0) → Type 0
Write R W = W → Flow R → Bool × W

module _ {R T W : Type 0} (h : HashTable T) (write_flow : Write R W) where
  -- "flush flows idle", "limited flows", "all flows": a loop that closes the tail of the active queue
  -- while a test of the table and of the tail's node holds.
  unfoldable pub close_while :
      ℕ → (FlowTab R T → FlowNode R → Bool) → (reason : ℕ) → FlowTab R T → FlowTab R T
  close_while zero test reason t = t
  close_while (suc fuel) test reason t =
      let next = close_while fuel test reason (flow_close h (Spec.tail t.aq) reason t) in
      if nonzero (Spec.tail t.aq) && test t (t.node (Spec.tail t.aq)) then next else t

  abbrev pub idle_over : FlowTab R T → FlowNode R → Bool
  idle_over t fn = ltb t.config.idle_ms (sub64 t.ctime fn.f.etime)

  abbrev pub too_many : FlowTab R T → FlowNode R → Bool
  too_many t fn = nonzero t.config.max_flows && not (ltb t.count t.config.max_flows)

  -- Each loop closes at most as many flows as the active queue holds.
  unfoldable pub close_flows : Bool → FlowTab R T → FlowTab R T
  close_flows close t =
      let idle = close_while (length t.aq) idle_over end_idle t in
      let limited = close_while (length idle.aq) too_many end_resource idle in
      close_while (length limited.aq) (λ _ _. close) end_forced limited

  -- The record or records of a flow, and how many were written.
  unfoldable pub write_records : Bool → Flow R → W → Bool × ℕ × W
  write_records split f w =
      let (done, w1) = write_flow w (uniflow f) in
      let (done', w2) = write_flow w f in
      if split
      then (if done
          then (elim (uniflow_reverse f (uniflow f)) [
            | none ↦ (true, 1, w1)
            | some uf ↦
                let (done_reverse, w3) = write_flow w1 uf in
                (done_reverse, if done_reverse then 2 else 1, w3)
          ])
          else (false, 0, w1))
      else (done', if done' then 1 else 0, w2)

  -- "flush flows from close queue", over the queue from its tail on.
  unfoldable pub flush_closed : Spec.Queue → FlowTab R T → W → Bool × FlowTab R T × W
  flush_closed [] t w = (true, record t { cq = [] }, w)
  flush_closed (fn ∷ rest) t w =
      let f = (t.node fn).f in
      let (done, written, w') = write_records t.config.uniflow f w in
      let t' = record t {
        cq = rest;
        cq_count = sub32 t.cq_count 1;
        stats = record (t.stats) {
          stat_uniflows =
              if (f.rval.oct == 0) && (f.rval.pkt == 0)
              then add64 t.stats.stat_uniflows 1
              else t.stats.stat_uniflows;
          stat_flows = add64 t.stats.stat_flows written;
        };
      } in
      let next = flush_closed rest t' w' in if done then next else (false, t', w')

  unfoldable pub tab_flush : Bool → FlowTab R T → W → Bool × FlowTab R T × W
  tab_flush close t w =
      let started = close_flows close (record t {
        flushtime = t.ctime;
        stats = record (t.stats) { stat_flush = add32 t.stats.stat_flush 1 };
      }) in
      if not close
        && nonzero t.flushtime
        && ltb t.ctime (add64 t.flushtime flush_delay)
        && ltb t.cq_count max_cq
      then (true, t, w)
      else flush_closed started.cq started w
