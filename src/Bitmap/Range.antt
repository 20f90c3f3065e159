-- ===== src/Bitmap/Range.antt =====
-- The circular bitmap of src/bitmap.c.
use qof.Base.{Bool, List, get_or, if◌then◌else◌, replicate, set, suc, zero, ℕ, ◌%◌, ◌+◌, ◌/◌, ◌==◌}
use qof.Base.Word.{add32, has_bits, nonzero}
use qof.Bitmap.Tables.{bit}
use qof.Bitmap.Words.{Intersect, combine, test_and_set_inner}

-- `bimBitmap_t`
pub record Bitmap : Type 0 where
  pub v : List ℕ
  pub sz : ℕ
  pub base : ℕ

unfoldable pub init : (capacity : ℕ) → Bitmap
init capacity =
    let sz = if nonzero (capacity % 64) then capacity / 64 + 1 else capacity / 64 in
    record { v = replicate sz 0; sz = sz; base = 0 }

-- The word of a bit.
unfoldable pub index : Bitmap → ℕ → ℕ
index bm a = add32 bm.base (a / 64) % bm.sz

-- One word through `bimTestAndSetInner`.
unfoldable pub set_word : Bitmap → (i a b : ℕ) → Intersect × Bitmap
set_word bm i a b =
    let (res, w) = test_and_set_inner (get_or bm.v i 0) a b in (res, record bm { v = set bm.v i w })

-- The loop over the words between the first and the last, which takes less than `sz` rounds.
unfoldable pub set_between : ℕ → (i j : ℕ) → Intersect × Bitmap → Intersect × Bitmap
set_between zero i j (res, bm) = (res, bm)
set_between (suc fuel) i j (res, bm) =
    let (res', bm') = set_word bm i 0 63 in
    let next = set_between fuel ((i + 1) % bm.sz) j (combine res res', bm') in
    if i == j then (res, bm) else next

unfoldable pub test_and_set_range : Bitmap → (a b : ℕ) → Intersect × Bitmap
test_and_set_range bm a b =
    let i = index bm a in
    let j = index bm b in
    let (res, bm1) = set_word bm i (a % 64) 63 in
    let (res2, bm2) = set_between bm.sz ((i + 1) % bm.sz) j (res, bm1) in
    let (last, bm3) = set_word bm2 j 0 (b % 64) in
    if i == j then set_word bm i (a % 64) (b % 64) else (combine res2 last, bm3)

unfoldable pub test_bit : Bitmap → ℕ → Bool
test_bit bm a = has_bits (get_or bm.v (index bm a) 0) (bit (a % 64))

unfoldable pub shift_down : Bitmap → ℕ × Bitmap
shift_down bm =
    (get_or bm.v bm.base 0, record bm { v = set bm.v bm.base 0; base = add32 bm.base 1 % bm.sz })
