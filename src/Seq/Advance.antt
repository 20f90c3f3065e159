-- ===== src/Seq/Advance.antt =====
-- `qfSeqSegment` of src/qofseq.c: a later segment of a direction.
use qof.Base.{Bool, false, if◌then◌else◌, ltb, not, true, ℕ, ◌&&◌, ◌*◌, ◌/◌, ◌==◌}
use qof.Base.Word.{add32, nonzero, sub32, to_u32}
use qof.Base.Int.{ℤ}
use qof.Serial.{is_below, wrap_compare}
use qof.Stats.{Double, mean_add, of_pattern}
use qof.Seq.State.{Seq, count_loss, seq_gap_push, timestamp_hz}
use qof.Seq.Fill.{seq_gap_fill}

-- What a call of `qfSeqSegment` is given of the segment, of the time and of the configuration.
pub record Segment : Type 0 where
  pub mss : ℕ
  pub seq : ℕ
  pub oct : ℕ
  pub ms : ℕ
  pub tsval : ℕ
  pub do_ts : Bool
  pub do_iat : Bool
  pub rtt_val : ℤ

module _ {R : Type 0} (double : Double R) where
  -- "Sequence less than NSN: fill". The test of `maxooo` takes the difference in 32 bits.
  unfoldable pub seq_below : Seq R → Segment → Seq R
  seq_below qs s =
      let inversion = sub32 s.seq qs.nsn in
      let noted = if ltb qs.maxooo inversion then record qs { maxooo = inversion } else qs in
      let (filled, rtx) = seq_gap_fill noted s.seq (add32 s.seq s.oct) in
      if rtx then count_loss filled s.rtt_val s.ms else filled

  -- "Sequence beyond NSN: push"
  unfoldable pub seq_push : Seq R → Segment → Seq R
  seq_push qs s =
      let pushed = count_loss (seq_gap_push qs qs.nsn s.seq s.mss) s.rtt_val s.ms in
      if s.seq == qs.nsn
      then qs
      else if ltb pushed.maxooo (sub32 s.seq pushed.nsn)
      then record pushed { maxooo = sub32 s.seq pushed.nsn }
      else pushed

  -- The wrap counters, the next sequence number and the timestamp.
  unfoldable pub seq_next : Seq R → Segment → Seq R
  seq_next qs s =
      let next = add32 s.seq s.oct in
      let wrapped = if ltb next qs.nsn then add32 qs.wrapct 1 else qs.wrapct in
      let moved = record qs { wrapct = wrapped; nsn = next } in
      if s.do_ts && nonzero s.tsval
      then record moved {
        tsvalwrap = if ltb s.tsval qs.advtsval then add32 qs.tsvalwrap 1 else qs.tsvalwrap;
        lmswrap = if ltb s.ms qs.advlms then add32 qs.lmswrap 1 else qs.lmswrap;
        advtsval = s.tsval;
      }
      else moved

  -- "calculate interarrival/interdeparture time of advancing segments"
  unfoldable pub seq_iat : Seq R → Segment → (lastms : ℕ) → Seq R
  seq_iat qs s lastms =
      let iat = sub32 s.ms lastms in
      let timed = record qs { seg_iat = mean_add double qs.seg_iat (of_pattern iat) } in
      let hz = timestamp_hz timed in
      let idt = to_u32 (1000 * sub32 s.tsval timed.advtsval) / hz in
      if s.do_ts && nonzero s.tsval && nonzero hz
      then record timed {
        seg_variat = mean_add double timed.seg_variat (of_pattern (sub32 iat idt));
      }
      else timed

  -- The new state, and whether the segment advanced the next sequence number.
  unfoldable pub seq_segment : Seq R → Segment → Seq R × Bool
  seq_segment qs s =
      if not (nonzero s.oct)
      then (qs, false)
      else if is_below (wrap_compare s.seq qs.nsn)
      then (seq_below qs s, false)
      else (let next = seq_next (seq_push qs s) s in
          let timed = record next { advlms = s.ms } in
          (if s.do_iat then seq_iat timed s next.advlms else timed, true))
