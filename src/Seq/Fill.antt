-- ===== src/Seq/Fill.antt =====
-- `qfSeqGapFill` of src/qofseq.c: a segment below the next sequence number against the gap stack.
use qof.Base.{
  Bool, List, Option, [], false, if◌then◌else◌, ltb, none, not, set, some, suc, true, zero, ℕ, ◌&&◌,
  ◌+◌, ◌==◌, ◌||◌, ◌∷◌,
}
use qof.Base.Word.{add32, nonzero, sub32}
use qof.Serial.{is_above, is_below, wrap_compare}
use qof.Stats.{of_pattern}
use qof.Seq.Gap.{Gap, gap, gap_at, gap_empty, gap_shift, gap_unshift, seqgap_ct}
use qof.Seq.State.{Seq}

-- The seek to the next applicable gap: the first that is empty or does not start above `a`.
unfoldable pub seek : ℕ → List Gap → ℕ
seek a [] = 0
seek a (g ∷ gs) = if not (gap_empty g) && is_below (wrap_compare a g.a) then suc (seek a gs) else 0

-- One round of the loop: it breaks, or goes on with another segment. `rtxoct` is handed on.
pub data Round (R : Type 0) : Type 0 where
  stop : Seq R → (rtxoct : ℕ) → Round R
  again : Seq R → (a b rtxoct : ℕ) → Round R

module _ {R : Type 0} where
  -- The split of a gap. `gaps[i + 1].b` lies behind the array when `i` is the last index: the write
  -- then falls on `seg_iat.n`, the second word of the member that follows `gaps`.
  unfoldable pub split : Seq R → (i a b : ℕ) → Seq R
  split qs i a b =
      let (lost, moved) = gap_unshift qs.gaps i in
      let cut = set moved i (gap b (gap_at moved i).b) in
      let counted = record qs { seqlost = add32 qs.seqlost lost; gaps = cut } in
      if ltb (i + 1) seqgap_ct
      then record counted { gaps = set cut (i + 1) (gap (gap_at cut (i + 1)).a a) }
      else record counted { seg_iat = record (qs.seg_iat) { n = of_pattern a } }

  -- "Check for overlap within gap and fill"
  unfoldable pub fill_gap : Seq R → (i a b nexa nexb rtxoct : ℕ) → Round R
  fill_gap qs i a b nexa nexb rtxoct =
      let g = gap_at qs.gaps i in
      if (a == g.a) && (b == g.b)
      then stop (record qs { gaps = gap_shift qs.gaps i }) rtxoct
      else if b == g.b
      then stop (record qs { gaps = set qs.gaps i (gap g.a a) }) rtxoct
      else if a == g.a
      then stop (record qs { gaps = set qs.gaps i (gap b g.b) }) rtxoct
      else again (split qs i a b) nexa nexb rtxoct

  -- "Check to see if we'll need to iterate"
  unfoldable pub fill_from : Seq R → (i a b rtxoct : ℕ) → Round R
  fill_from qs i a b rtxoct =
      let g = gap_at qs.gaps i in
      if is_below (wrap_compare a g.a)
      then fill_gap qs i g.a b a b rtxoct
      else fill_gap qs i a b 0 0 rtxoct

  unfoldable pub fill_round : Seq R → (a b rtxoct : ℕ) → Round R
  fill_round qs a b rtxoct =
      let i = seek a qs.gaps in
      let g = gap_at qs.gaps i in
      if (i == seqgap_ct) || gap_empty g
      then stop qs (add32 rtxoct (sub32 b a))
      else if is_above (wrap_compare b g.b)
      then (if is_above (wrap_compare a g.b)
          then stop qs (add32 rtxoct (sub32 b a))
          else fill_from qs i a g.b (add32 rtxoct (sub32 b g.b)))
      else fill_from qs i a b rtxoct

  -- The loop, with fuel; `none` means that the fuel ran out.
  unfoldable pub fill_loop : ℕ → Seq R → (a b rtxoct : ℕ) → Option (Seq R × ℕ)
  fill_loop zero qs a b rtxoct = none
  fill_loop (suc fuel) qs a b rtxoct = elim (is_above (wrap_compare b a)) [
    | false ↦ some (qs, rtxoct)
    | true ↦ elim (fill_round qs a b rtxoct) [
      | stop qs' rtxoct' ↦ some (qs', rtxoct')
      | again qs' a' b' rtxoct' ↦ fill_loop fuel qs' a' b' rtxoct'
    ]
  ]

  -- Two rounds are enough (Seq/Once), so the last case is never met.
  unfoldable pub seq_gap_fill : Seq R → (a b : ℕ) → Seq R × Bool
  seq_gap_fill qs a b = elim (fill_loop 2 qs a b 0) [
    | some (qs', rtxoct) ↦
        if nonzero rtxoct then (record qs' { rtx = add32 (qs'.rtx) 1 }, true) else (qs', false)
    | none ↦ (qs, false)
  ]
