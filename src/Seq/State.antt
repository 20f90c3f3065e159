-- ===== src/Seq/State.antt =====
-- The state that src/qofseq.c keeps of one direction, and the operations but for filling a gap.
use qof.Base.{
  Bool, List, [], bit_and, if◌then◌else◌, ltb, not, set, ℕ, ◌&&◌, ◌*◌, ◌+◌, ◌-◌, ◌/◌, ◌==◌, ◌^◌,
  ◌∷◌,
}
use qof.Base.Word.{add32, has_bits, nonzero, sub32, sub64, to_u32, to_u64}
use qof.Base.Int.{ℤ}
use qof.Stats.{Mean, to_pattern}
use qof.Rtt.{tf_fin, tf_syn}
use qof.Seq.Gap.{Gap, gap, gap_at, gap_empty, gap_unshift, no_gap}

-- `qfSeq_t`
pub record Seq (R : Type 0) : Type 0 where
  pub gaps : List Gap
  pub seg_iat : Mean R
  pub seg_variat : Mean R
  pub initlms : ℕ
  pub initsval : ℕ
  pub advlms : ℕ
  pub advtsval : ℕ
  pub isn : ℕ
  pub nsn : ℕ
  pub wrapct : ℕ
  pub lmswrap : ℕ
  pub tsvalwrap : ℕ
  pub rtx : ℕ
  pub ooo : ℕ
  pub maxooo : ℕ
  pub seqlost : ℕ
  pub lossct : ℕ
  pub losslms : ℕ

-- Each of the three decrements has its test; the tests for SYN and FIN mask the count itself.
abbrev drop_one : Bool → ℕ → ℕ
drop_one test sc = if test then sc - 1 else sc

-- The loop of `qfSeqCountLost` over the gaps in use, which it clears.
unfoldable pub count_gaps : List Gap → ℕ → ℕ × List Gap
count_gaps [] lost = (lost, [])
count_gaps (g ∷ gs) lost =
    let rest = count_gaps gs (add32 lost (sub32 g.b g.a)) in
    if gap_empty g then (lost, g ∷ gs) else (rest.0, no_gap ∷ rest.1)

module _ {R : Type 0} where
  unfoldable pub seq_gap_push : Seq R → (a b mss : ℕ) → Seq R
  seq_gap_push qs a b mss =
      let ooo = add32 qs.ooo (sub32 b a / (mss + 1) + 1) in
      let top = gap_at qs.gaps 0 in
      let (lost, moved) = gap_unshift qs.gaps 0 in
      if not (gap_empty top) && (a == top.a)
      then record qs { ooo = ooo; gaps = set qs.gaps 0 (gap top.a b) }
      else record qs { ooo = ooo; seqlost = add32 qs.seqlost lost; gaps = set moved 0 (gap a b) }

  -- Only the smoothed round-trip time of the `qfRtt_t` is read.
  unfoldable pub count_loss : Seq R → ℤ → ℕ → Seq R
  count_loss qs rtt_val ms =
      if ltb (add32 qs.losslms (to_pattern rtt_val)) ms
      then record qs { losslms = ms; lossct = add32 qs.lossct 1 }
      else qs

  unfoldable pub seq_first_segment : Seq R → (flags seq oct ms tsval : ℕ) → Bool → Seq R
  seq_first_segment qs flags seq oct ms tsval do_ts =
      let started = record qs {
        isn = seq;
        nsn = to_u32 (seq + oct + (if has_bits flags tf_syn then 1 else 0));
        advlms = ms;
      } in
      if do_ts && nonzero tsval then record started { initlms = ms; initsval = tsval } else started

  unfoldable pub timestamp_hz : Seq R → ℕ
  timestamp_hz qs =
      let val_interval = sub64 (to_u64 (qs.tsvalwrap * 2 ^ 32 + qs.advtsval)) qs.initsval in
      let lms_interval = sub64 (to_u64 (qs.lmswrap * 2 ^ 32 + qs.advlms)) qs.initlms in
      if nonzero lms_interval && nonzero qs.initsval && nonzero qs.advtsval
      then to_u32 (to_u64 (val_interval * 1000) / lms_interval)
      else 0

  unfoldable pub seq_count : Seq R → ℕ → ℕ
  seq_count qs flags =
      let sc = to_u64 (sub32 qs.nsn qs.isn + to_u64 (2 ^ 32 * qs.wrapct)) in
      let next = drop_one (nonzero sc) sc in
      let syn = drop_one (has_bits next (bit_and flags tf_syn) && nonzero next) next in
      drop_one (has_bits syn (bit_and flags tf_fin) && nonzero syn) syn

  unfoldable pub seq_count_lost : Seq R → ℕ × Seq R
  seq_count_lost qs =
      let (lost, gaps) = count_gaps qs.gaps qs.seqlost in
      (lost, record qs { seqlost = lost; gaps = gaps })
