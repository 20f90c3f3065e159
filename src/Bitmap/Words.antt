-- ===== src/Bitmap/Words.antt =====
-- The functions of src/bitmap.c on one word.
use qof.Base.{bit_and, bit_or, if◌then◌else◌, ltb, suc, zero, ℕ, ◌-◌, ◌/◌, ◌==◌, ◌^◌}
use qof.Base.Word.{add64, sub64, to_u32}
use qof.Bitmap.Tables.{bit, mask_a, mask_b}

-- `bimIntersect_t`
pub data Intersect : Type 0 where
  none_set start_set end_set edge_set full_set part_set : Intersect

-- `bimCountSet`
unfoldable pub count_set : ℕ → ℕ
count_set v =
    let c1 = sub64 v (bit_and (v / 2 ^ 1) 0x5555_5555_5555_5555) in
    let c2 =
      add64 (bit_and (c1 / 2 ^ 2) 0x3333_3333_3333_3333) (bit_and c1 0x3333_3333_3333_3333) in
    let c3 = bit_and (add64 (c2 / 2 ^ 4) c2) 0x0f0f_0f0f_0f0f_0f0f in
    let c4 = bit_and (add64 (c3 / 2 ^ 8) c3) 0x00ff_00ff_00ff_00ff in
    let c5 = bit_and (add64 (c4 / 2 ^ 16) c4) 0x0000_ffff_0000_ffff in
    bit_and (to_u32 (add64 (c5 / 2 ^ 32) c5)) 0x0000_0000_ffff_ffff

-- `while (m > v) { m >>= 1; bit--; }`, which the 65th round ends at the latest.
unfoldable pub high_bit_loop : ℕ → (m bit v : ℕ) → ℕ
high_bit_loop zero m b v = b
high_bit_loop (suc fuel) m b v =
    let next = high_bit_loop fuel (m / 2) (b - 1) v in if ltb v m then next else b

unfoldable pub high_bit_set : ℕ → ℕ
high_bit_set v = high_bit_loop 65 0x8000_0000_0000_0000 64 v

-- `bimTSRCombine`
unfoldable pub combine : Intersect → Intersect → Intersect
combine start_set end_set = edge_set
combine start_set none_set = start_set
combine start_set cur = part_set
combine none_set none_set = none_set
combine none_set cur = part_set
combine full_set full_set = full_set
combine full_set cur = part_set
combine end_set cur = part_set
combine edge_set cur = part_set
combine part_set cur = part_set

-- `bimTestAndSetInner`: what of the range was set, and the word with all of it set.
unfoldable pub test_and_set_inner : (v a b : ℕ) → Intersect × ℕ
test_and_set_inner v a b =
    let m = bit_and (mask_a a) (mask_b b) in
    let w = bit_and v m in
    let res =
      if w == 0
      then none_set
      else if w == m
      then full_set
      else if w == bit a
      then start_set
      else if w == bit b
      then end_set
      else part_set in
    (res, bit_or v m)
