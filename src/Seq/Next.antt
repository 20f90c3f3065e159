-- ===== src/Seq/Next.antt =====
-- The next sequence number in src/qofseq.c, against an unbounded stream.
use native.Mathlib.Nat.{zero-div}
use qof.Base.{
  Bool, arith, false, if◌then◌else◌, leb, ltb, refl, true, ℕ, ◌%◌, ◌&&◌, ◌*◌, ◌+◌, ◌/◌, ◌<◌, ◌^◌,
  ◌≡◌,
}
use qof.Base.Int.{ℤ}
use qof.Base.Word.{add32, nonzero, sub32, to_u32}
use qof.Seq.Gap.{gap_at}
use qof.Seq.State.{Seq, count_loss, timestamp_hz}
use qof.Seq.Fill.{fill_from, fill_gap, fill_round, seek, seq_gap_fill, split}
use qof.Seq.Once.{fill_loop_once, round_result}
use qof.Stats.{Double, Mean, mean_add, of_pattern}
use qof.Seq.Advance.{Segment, seq_below, seq_iat, seq_next, seq_push, seq_segment}
use qof.Serial.{is_below, wrap_compare}
use qof.Serial.Order.{position_order, wrap_compare-position_order}

module _ {R : Type 0} where
  split-nsn : (qs : Seq R) (i a b : ℕ) → (split qs i a b).nsn ≡ qs.nsn
  unfolding split
  split-nsn qs i a b = ground arith

  fill_gap-nsn :
      (qs : Seq R) (i a b nexa nexb rtxoct : ℕ)
      → (round_result (fill_gap qs i a b nexa nexb rtxoct)).0.nsn ≡ qs.nsn
  unfolding fill_gap round_result
  fill_gap-nsn qs i a b nexa nexb rtxoct = ground (arith, split-nsn qs i a b)

  fill_from-nsn :
      (qs : Seq R) (i a b rtxoct : ℕ) → (round_result (fill_from qs i a b rtxoct)).0.nsn ≡ qs.nsn
  unfolding fill_from
  fill_from-nsn qs i a b rtxoct =
      ground (
        arith,
        fill_gap-nsn qs i (gap_at qs.gaps i).a b a b rtxoct,
        fill_gap-nsn qs i a b 0 0 rtxoct,
      )

  fill_round-nsn :
      (qs : Seq R) (a b rtxoct : ℕ) → (round_result (fill_round qs a b rtxoct)).0.nsn ≡ qs.nsn
  unfolding fill_round round_result
  fill_round-nsn qs a b rtxoct =
      let i = seek a qs.gaps in
      let g = gap_at qs.gaps i in
      ground (
        arith,
        fill_from-nsn qs i a b rtxoct,
        fill_from-nsn qs i a g.b (add32 rtxoct (sub32 b g.b)),
      )

  seq_gap_fill-nsn : (qs : Seq R) (a b : ℕ) → (seq_gap_fill qs a b).0.nsn ≡ qs.nsn
  unfolding seq_gap_fill
  seq_gap_fill-nsn qs a b =
      rw (fill_loop_once 0 qs a b 0, seq_gap_fill) (ground (arith, fill_round-nsn qs a b 0))

  count_loss-nsn : (qs : Seq R) (rtt_val : ℤ) (ms : ℕ) → (count_loss qs rtt_val ms).nsn ≡ qs.nsn
  unfolding count_loss
  count_loss-nsn qs rtt_val ms = ground arith

module _ {R : Type 0} (double : Double R) (qs : Seq R) (s : Segment) where
  seq_below-nsn : (seq_below double qs s).nsn ≡ qs.nsn
  unfolding seq_below
  seq_below-nsn =
      let inversion = sub32 s.seq qs.nsn in
      let noted = if ltb qs.maxooo inversion then record qs { maxooo = inversion } else qs in
      let filled = (seq_gap_fill noted s.seq (add32 s.seq s.oct)).0 in
      ground (
        arith,
        seq_gap_fill-nsn noted s.seq (add32 s.seq s.oct),
        count_loss-nsn filled s.rtt_val s.ms,
      )

  seq_next-nsn : (seq_next double qs s).nsn ≡ add32 s.seq s.oct
  unfolding seq_next
  seq_next-nsn = ground arith

  seq_iat-nsn : (lastms : ℕ) → (seq_iat double qs s lastms).nsn ≡ qs.nsn
  unfolding seq_iat
  seq_iat-nsn lastms = ground arith

below_next :
    (a b next start : ℕ)
    → b ≡ next % 2 ^ 32
    → a ≡ start % 2 ^ 32
    → next < start + 2 ^ 31
    → start < next + 2 ^ 31
    → is_below (wrap_compare a b) ≡ ltb start next
unfolding position_order
below_next a b next start e f h k =
    rw (e, f, wrap_compare-position_order start next k h) (ground arith)

-- The next sequence number for unbounded stream positions less than 2^31 apart, given by their low 32
-- bits. A segment that is not empty and starts at the next position or beyond makes its end the next
-- position, and is reported as advancing. Any other leaves the next position where it is, also one
-- that starts below it and ends beyond it.
pub nsn-seq_segment :
    {R : Type 0} (double : Double R) (qs : Seq R) (s : Segment) (next start : ℕ)
    → qs.nsn ≡ next % 2 ^ 32
    → s.seq ≡ start % 2 ^ 32
    → next < start + 2 ^ 31
    → start < next + 2 ^ 31
    → let advances = nonzero s.oct && leb next start in
      ((seq_segment double qs s).0.nsn ≡ (if advances then start + s.oct else next) % 2 ^ 32)
      × ((seq_segment double qs s).1 ≡ advances)
unfolding seq_segment
nsn-seq_segment double qs s next start e f h k =
    let moved = seq_next double (seq_push double qs s) s in
    let timed = record moved { advlms = s.ms } in
    ground (
      arith,
      below_next s.seq qs.nsn next start e f h k,
      seq_below-nsn double qs s,
      seq_next-nsn double (seq_push double qs s) s,
      seq_iat-nsn double timed s moved.advlms,
    )

same_hz :
    {R : Type 0} (qs : Seq R) (m : Mean R)
    → timestamp_hz (record qs { seg_iat = m }) ≡ timestamp_hz qs
unfolding timestamp_hz
same_hz qs m = refl

no_idt :
    (hz tsval adv iat : ℕ)
    → adv ≡ tsval
    → tsval < 2 ^ 32
    → iat < 2 ^ 32
    → sub32 iat (to_u32 (1000 * sub32 tsval adv) / hz) ≡ iat
no_idt hz tsval adv iat e h k =
    let none_passed : sub32 tsval adv ≡ 0 = omega arith in
    rw none_passed (ground (arith, zero-div hz))

if_variat :
    {R : Type 0} (b : Bool) (u : Seq R) (m : Mean R)
    → (if b then record u { seg_variat = m } else u).seg_variat ≡ (if b then m else u.seg_variat)
if_variat true u m = refl
if_variat false u m = refl

stamped_now :
    {R : Type 0} (double : Double R) (qs : Seq R) (s : Segment)
    → s.do_ts ≡ true
    → nonzero s.tsval ≡ true
    → (seq_next double qs s).advtsval ≡ s.tsval
unfolding seq_next
stamped_now double qs s on stamped = rw (on, stamped) refl

whole_iat :
    {R : Type 0} (double : Double R) (u : Seq R) (s : Segment) (lastms : ℕ)
    → s.do_ts ≡ true
    → nonzero s.tsval ≡ true
    → s.tsval < 2 ^ 32
    → u.advtsval ≡ s.tsval
    → (seq_iat double u s lastms).seg_variat ≡ (
        if nonzero (timestamp_hz u)
        then mean_add double u.seg_variat (of_pattern (sub32 s.ms lastms))
        else u.seg_variat)
unfolding seq_iat
whole_iat double u s lastms on stamped small now =
    let iat = sub32 s.ms lastms in
    let m = mean_add double u.seg_iat (of_pattern iat) in
    let same = no_idt (timestamp_hz u) s.tsval u.advtsval iat now small (omega arith) in
    rw (on, stamped, same_hz u m, same)
      (if_variat (nonzero (timestamp_hz u)) (record u { seg_iat = m }) _)

-- The interarrival variation that a segment with a timestamp adds is its interarrival time whole, if
-- the frequency of the timestamps is known: the interdeparture time to subtract is always 0, since the
-- timestamp to subtract from has just been stored.
pub seg_variat-seq_iat :
    {R : Type 0} (double : Double R) (qs : Seq R) (s : Segment) (lastms : ℕ)
    → s.do_ts ≡ true
    → nonzero s.tsval ≡ true
    → s.tsval < 2 ^ 32
    → let timed = record (seq_next double qs s) { advlms = s.ms } in
      (seq_iat double timed s lastms).seg_variat ≡ (
        if nonzero (timestamp_hz timed)
        then mean_add double timed.seg_variat (of_pattern (sub32 s.ms lastms))
        else timed.seg_variat)
seg_variat-seq_iat double qs s lastms on stamped small =
    whole_iat double (record (seq_next double qs s) { advlms = s.ms }) s lastms on stamped small
      (stamped_now double qs s on stamped)
