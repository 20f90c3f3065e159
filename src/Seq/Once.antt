-- ===== src/Seq/Once.antt =====
-- The loop of `qfSeqGapFill` ends in its second test: no segment is carried over to another gap.
use qof.Base.{
  Bool-cases, List, [], arith, false, if◌then◌else◌, inl, inr, not, refl, some, suc, true, ℕ, ◌&&◌,
  ◌∷◌, ◌≡◌,
}
use qof.Base.Word.{add32, sub32}
use qof.Serial.{is_above, is_below, wrap_compare}
use qof.Seq.Gap.{Gap, gap_at, gap_empty, no_gap}
use qof.Seq.State.{Seq}
use qof.Seq.Fill.{Round, again, fill_from, fill_gap, fill_loop, fill_round, seek, stop}

no_gap-empty : gap_empty no_gap ≡ true
unfolding gap_empty
no_gap-empty = refl

-- The gap that the search stops at does not start above the segment, if it is in use.
seek-not_below :
    (a : ℕ) (gaps : List Gap)
    → gap_empty (gap_at gaps (seek a gaps)) ≡ false
    → is_below (wrap_compare a (gap_at gaps (seek a gaps)).a) ≡ false
unfolding seek
seek-not_below a [] used = cc no_gap-empty
seek-not_below a (g ∷ gs) used =
    elim (Bool-cases (not (gap_empty g) && is_below (wrap_compare a g.a))) [
      | inl e ↦ rw e (seek-not_below a gs (rw e at used))
      | inr e ↦ rw e (not_above g (rw e at used) e)
    ]
  where
    not_above :
        (h : Gap)
        → gap_empty h ≡ false
        → (not (gap_empty h) && is_below (wrap_compare a h.a)) ≡ false
        → is_below (wrap_compare a h.a) ≡ false
    not_above h u e = rw u at e

module _ {R : Type 0} where
  -- The outcome of a round carries no segment over.
  abbrev pub IsLast : Round R → Type 0
  IsLast (stop qs rtxoct) = Unit
  IsLast (again qs a b rtxoct) = (a ≡ 0) × (b ≡ 0)

  fill_gap-IsLast : (qs : Seq R) (i a b rtxoct : ℕ) → IsLast (fill_gap qs i a b 0 0 rtxoct)
  unfolding fill_gap
  fill_gap-IsLast qs i a b rtxoct = ground arith

  fill_from-IsLast :
      (qs : Seq R) (i a b rtxoct : ℕ)
      → is_below (wrap_compare a (gap_at qs.gaps i).a) ≡ false
      → IsLast (fill_from qs i a b rtxoct)
  unfolding fill_from
  fill_from-IsLast qs i a b rtxoct e = rw e (fill_gap-IsLast qs i a b rtxoct)

  fill_round-IsLast : (qs : Seq R) (a b rtxoct : ℕ) → IsLast (fill_round qs a b rtxoct)
  unfolding fill_round
  fill_round-IsLast qs a b rtxoct =
      elim (Bool-cases (gap_empty (gap_at qs.gaps (seek a qs.gaps)))) [
        | inl e ↦ ground arith
        | inr e ↦ ground (
          arith,
          fill_from-IsLast qs (seek a qs.gaps) a b rtxoct (seek-not_below a qs.gaps e),
          fill_from-IsLast qs (seek a qs.gaps) a (gap_at qs.gaps (seek a qs.gaps)).b
              (add32 rtxoct (sub32 b (gap_at qs.gaps (seek a qs.gaps)).b))
              (seek-not_below a qs.gaps e),
        )
      ]

  -- A loop whose last round is over.
  unfoldable pub round_result : Round R → Seq R × ℕ
  round_result (stop qs rtxoct) = (qs, rtxoct)
  round_result (again qs a b rtxoct) = (qs, rtxoct)

  fill_loop-nothing :
      (fuel : ℕ) (qs : Seq R) (rtxoct : ℕ) → fill_loop (suc fuel) qs 0 0 rtxoct ≡ some (qs, rtxoct)
  unfolding fill_loop wrap_compare
  fill_loop-nothing fuel qs rtxoct = refl

  -- With fuel for two tests the loop ends, whatever the state and the segment: after one round, whose
  -- result is that of the loop, or before it, if the segment is empty. So a segment is never
  -- distributed over more than one gap.
  pub fill_loop_once :
      (fuel : ℕ) (qs : Seq R) (a b rtxoct : ℕ)
      → fill_loop (suc (suc fuel)) qs a b rtxoct
        ≡ some (
            if is_above (wrap_compare b a)
            then round_result (fill_round qs a b rtxoct)
            else (qs, rtxoct))
  unfolding fill_loop round_result
  fill_loop_once fuel qs a b rtxoct = elim (Bool-cases (is_above (wrap_compare b a))) [
    | inr e ↦ rw (e, fill_loop) refl
    | inl e ↦ rw (e, fill_loop) (ends (fill_round qs a b rtxoct) (fill_round-IsLast qs a b rtxoct))
  ]
    where
      ends :
          (r : Round R)
          → IsLast r
          → (elim r [
            | stop qs' rtxoct' ↦ some (qs', rtxoct')
            | again qs' a' b' rtxoct' ↦ fill_loop (suc fuel) qs' a' b' rtxoct'
          ])
            ≡ some (round_result r)
      ends (stop qs' rtxoct') h = refl
      ends (again qs' a' b' rtxoct') h = rw (h.0, h.1) (fill_loop-nothing fuel qs' rtxoct')
