-- ===== src/Stats/Bounds.antt =====
-- The smoother of src/streamstat.c stays between the extremes that it records.
use native.Mathlib.Decide.{ℕ_discrete}
use qof.Base.{arith, inl, inr, max, min, ℕ, ◌*◌, ◌+◌, ◌/◌, ◌<◌, ◌^◌, ◌≡◌, ◌≢◌, ◌≤◌, ◌⊎◌}
use qof.Base.Int.{pos, ◌*ℤ◌, ◌+ℤ◌, ◌-ℤ◌}
use qof.Stats.{LinSmooth, MinMax, div_trunc, int32, lin_smooth_add, lin_smooth_next, min_max_add}

-- A smoother over small natural numbers, with the default weight.
pub record IsSmooth (v : LinSmooth) (lo val hi : ℕ) : Type 0 where
  pub alpha : v.alpha ≡ pos 8
  pub is_lo : v.mm.min ≡ pos lo
  pub is_hi : v.mm.max ≡ pos hi
  pub is_val : v.val ≡ pos val
  pub above : lo ≤ val
  pub below : val ≤ hi
  pub small : hi < 2 ^ 28

times_seven : (a : ℕ) → a < 2 ^ 28 → int32 (pos a *ℤ int32 (pos 8 -ℤ pos 1)) ≡ pos (a * 7)
unfolding ◌*ℤ◌ ◌-ℤ◌
times_seven a h = ground arith

plus_small : (a x : ℕ) → a < 2 ^ 28 → x < 2 ^ 28 → int32 (pos (a * 7) +ℤ pos x) ≡ pos (a * 7 + x)
unfolding ◌+ℤ◌
plus_small a x h k = ground arith

next_val :
    (a x : ℕ)
    → a < 2 ^ 28
    → x < 2 ^ 28
    → div_trunc (int32 (int32 (pos a *ℤ int32 (pos 8 -ℤ pos 1)) +ℤ pos x)) 8 ≡ pos ((a * 7 + x) / 8)
unfolding div_trunc
next_val a x h k = rw (times_seven a h, plus_small a x h k)

next_mm :
    (mm : MinMax) (lo hi x : ℕ)
    → mm.min ≡ pos lo
    → mm.max ≡ pos hi
    → lo ≤ hi
    → ((min_max_add mm (pos x)).min ≡ pos (min lo x))
      × ((min_max_add mm (pos x)).max ≡ pos (max hi x))
unfolding min_max_add
next_mm mm lo hi x a b h = ground arith

module _ (v : LinSmooth) (x : ℕ) {lo val hi : ℕ} (smooth : IsSmooth v lo val hi)
    (fits : x < 2 ^ 28) where
  start_IsSmooth : hi ≡ 0 → IsSmooth (lin_smooth_add v (pos x)) x x x
  unfolding lin_smooth_add
  start_IsSmooth e = ground (arith, smooth.alpha, smooth.is_lo, smooth.is_hi, smooth.is_val)

  next_value : (lin_smooth_next v (pos x)).val ≡ pos ((val * 7 + x) / 8)
  unfolding lin_smooth_next
  next_value = rw (smooth.alpha, smooth.is_val) (next_val val x (omega arith) fits)

  next_extremes :
      ((lin_smooth_next v (pos x)).mm.min ≡ pos (min lo x))
      × ((lin_smooth_next v (pos x)).mm.max ≡ pos (max hi x))
  unfolding lin_smooth_next
  next_extremes = next_mm v.mm lo hi x smooth.is_lo smooth.is_hi (omega arith)

  next_alpha : (lin_smooth_next v (pos x)).alpha ≡ pos 8
  unfolding lin_smooth_next
  next_alpha = smooth.alpha

  next_taken :
      hi ≢ 0
      → lin_smooth_add v (pos x)
        ≡ (let added = lin_smooth_next v (pos x) in record added { n = int32 (added.n +ℤ pos 1) })
  unfolding lin_smooth_add
  next_taken ne = ground (arith, smooth.is_hi, smooth.is_val)

  next_IsSmooth :
      hi ≢ 0 → IsSmooth (lin_smooth_add v (pos x)) (min lo x) ((val * 7 + x) / 8) (max hi x)
  next_IsSmooth ne = rw (next_taken ne) (record {
    alpha = next_alpha;
    is_lo = next_extremes.0;
    is_hi = next_extremes.1;
    is_val = next_value;
    above = omega arith;
    below = omega arith;
    small = omega arith;
  })

  -- Adding a value to a smoother over values below 2^28 with weight 8: while the maximum is 0 the
  -- value starts the smoother afresh, and afterwards the smoothed value is (7 * val + x) / 8, with
  -- no overflow, between the least and the greatest of the values added, which are tracked exactly.
  pub lin_smooth_add-IsSmooth :
      ((hi ≡ 0) × IsSmooth (lin_smooth_add v (pos x)) x x x)
      ⊎ ((hi ≢ 0) × IsSmooth (lin_smooth_add v (pos x)) (min lo x) ((val * 7 + x) / 8) (max hi x))
  lin_smooth_add-IsSmooth = elim (ℕ_discrete hi 0) [
    | yes e ↦ inl (e, start_IsSmooth e)
    | no ne ↦ inr (ne, next_IsSmooth ne)
  ]
