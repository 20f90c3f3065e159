-- ===== src/Stats.antt =====
-- src/streamstat.c and include/qof/streamstat.h: running minimum and maximum, running mean and
-- variance, and the linear smoother. A C `int` is an integer, reduced to 32 bits where the code
-- computes with it; a C `double` is a type with the operations that the code uses.
pub mod Bounds
use qof.Base.{Bool, if◌then◌else◌, ltb, ℕ, ◌%◌, ◌&&◌, ◌+◌, ◌-◌, ◌/◌, ◌==◌, ◌^◌}
use qof.Base.Int.{ltb_ℤ, neg_part, negsuc, pos, pos_part, sub_ℕ, ℤ, ◌*ℤ◌, ◌+ℤ◌, ◌-ℤ◌}

-- The low 32 bits of an integer, and the `int` that a bit pattern stands for.
abbrev pub to_pattern : ℤ → ℕ
to_pattern (pos n) = n % 2 ^ 32
to_pattern (negsuc n) = 2 ^ 32 - 1 - n % 2 ^ 32

abbrev pub of_pattern : ℕ → ℤ
of_pattern w = if ltb w (2 ^ 31) then pos w else negsuc (2 ^ 32 - 1 - w)

abbrev pub int32 : ℤ → ℤ
int32 z = of_pattern (to_pattern z)

-- C division truncates towards zero; the code divides by a positive `int`.
unfoldable pub div_trunc : ℤ → ℕ → ℤ
div_trunc (pos n) d = pos (n / d)
div_trunc (negsuc n) d = sub_ℕ 0 ((n + 1) / d)

abbrev pub is_zero : ℤ → Bool
is_zero z = pos_part z + neg_part z == 0

-- What the code asks of the type `double`.
pub record Double (R : Type 0) : Type 0 where
  pub of_int : ℤ → R
  pub add : R → R → R
  pub sub : R → R → R
  pub mul : R → R → R
  pub div : R → R → R

-- `sstMinMax_t`
pub record MinMax : Type 0 where
  pub min : ℤ
  pub max : ℤ

abbrev pub min_max_init : MinMax
min_max_init = record { min = pos 0; max = pos 0 }

unfoldable pub min_max_add : MinMax → ℤ → MinMax
min_max_add v x =
    if ltb_ℤ v.max x
    then record v { max = x }
    else if ltb_ℤ x v.min
    then record v { min = x }
    else v

-- `sstMean_t`
pub record Mean (R : Type 0) : Type 0 where
  pub last : ℤ
  pub n : ℤ
  pub mm : MinMax
  pub mean : R
  pub s : R

module _ {R : Type 0} (double : Double R) where
  unfoldable pub mean_init : Mean R
  mean_init = record {
    last = pos 0;
    n = pos 0;
    mm = min_max_init;
    mean = double.of_int (pos 0);
    s = double.of_int (pos 0);
  }

  -- The branch for the first value, and the branch for the others.
  mean_first : Mean R → ℤ → Mean R
  mean_first v x = record v {
    mm = record { min = x; max = x };
    mean = double.of_int x;
    s = double.of_int (pos 0);
  }

  mean_next : Mean R → ℤ → Mean R
  unfolding min_max_add
  mean_next v x =
      let mean =
        double.add v.mean (double.div (double.sub (double.of_int x) v.mean) (double.of_int v.n)) in
      record v {
        mm = min_max_add v.mm x;
        mean = mean;
        s =
            double.add v.s (
              double.mul (double.sub (double.of_int x) v.mean) (double.sub (double.of_int x) mean));
      }

  unfoldable pub mean_add : Mean R → ℤ → Mean R
  unfolding mean_first mean_next
  mean_add v x =
      let counted = record v { last = x; n = int32 (v.n +ℤ pos 1) } in
      if is_zero (counted.n -ℤ pos 1) then mean_first counted x else mean_next counted x

  unfoldable pub variance : Mean R → R
  variance v =
      if ltb_ℤ (pos 1) v.n
      then double.div v.s (double.of_int (v.n -ℤ pos 1))
      else double.of_int (pos 0)

-- `sstLinSmooth_t`
pub record LinSmooth : Type 0 where
  pub alpha : ℤ
  pub n : ℤ
  pub mm : MinMax
  pub val : ℤ

abbrev pub default_alpha : ℤ
default_alpha = pos 8

abbrev pub lin_smooth_init : LinSmooth
lin_smooth_init = record { alpha = pos 0; n = pos 0; mm = min_max_init; val = pos 0 }

-- The two branches: the first value that is not 0, and the others.
lin_smooth_start : LinSmooth → ℤ → LinSmooth
lin_smooth_start v x = record v {
  val = x;
  mm = record { min = x; max = x };
  alpha = if is_zero v.alpha then default_alpha else v.alpha;
}

lin_smooth_next : LinSmooth → ℤ → LinSmooth
unfolding min_max_add
lin_smooth_next v x = record v {
  mm = min_max_add v.mm x;
  val = div_trunc (int32 (int32 (v.val *ℤ int32 (v.alpha -ℤ pos 1)) +ℤ x)) (pos_part v.alpha);
}

unfoldable pub lin_smooth_add : LinSmooth → ℤ → LinSmooth
unfolding lin_smooth_start lin_smooth_next
lin_smooth_add v x =
    let added =
      if is_zero v.val && is_zero v.mm.min && is_zero v.mm.max
      then lin_smooth_start v x
      else lin_smooth_next v x in
    record added { n = int32 (added.n +ℤ pos 1) }
